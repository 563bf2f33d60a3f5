-- ===== src/Agent/Kept.antt =====
-- What the operations of the agent and of the service keep: identifiers of incidents, requests and questions.
use home_ai_agent.Base.{ℕ, refl, Option, none, some, List, String}
use home_ai_agent.Json.{Fields}
use home_ai_agent.Model.{Phase}
use home_ai_agent.Observations.{record_observation}
use home_ai_agent.Agent.State.{load, change_state, update_state, record_step_timing, retrieve_rag}
use home_ai_agent.Store.{Env, Call, audit}
use home_ai_agent.Store.Keeps.{
  Keeps, Frame, Keeps-Frame, Keeps-still, set_incident-Keeps, keeps_rules, Keeps-bind,
}

module _ (Q : List String → List Call → ℕ → Type 0) (e : Env) (incident_id : String) where
  pub audit-Keeps : (event : String) → Keeps (Frame Q) (audit incident_id event)
  audit-Keeps event = record { at = λ s h. h }

  pub load-Keeps : Keeps (Frame Q) (load e incident_id)
  unfolding load
  load-Keeps = record { at = λ s h. h }

  pub change_state-Keeps : (f : Fields → Fields) → Keeps (Frame Q) (change_state e incident_id f)
  unfolding change_state
  change_state-Keeps f = Keeps-bind load-Keeps (λ i. set_incident-Keeps Q incident_id _ (λ j. refl))

  pub ruleset base_rules = (keeps_rules, audit-Keeps, load-Keeps, change_state-Keeps)

  pub update_state-Keeps : (u : Fields) → Keeps (Frame Q) (update_state e incident_id u)
  unfolding update_state
  update_state-Keeps u = search base_rules

  pub record_step_timing-Keeps :
      (step : ℕ) (phase : String) (tool : Option String)
      → Keeps (Frame Q) (record_step_timing e incident_id step phase tool)
  unfolding record_step_timing
  record_step_timing-Keeps step phase tool = search base_rules

  pub retrieve_rag-Keeps : (r : _) → Keeps (Frame Q) (retrieve_rag e incident_id r)
  unfolding retrieve_rag
  retrieve_rag-Keeps none = search base_rules
  retrieve_rag-Keeps (some r) = search (base_rules, update_state-Keeps)

  pub record_observation-Keeps :
      (now : ℕ) (tool : String) (arguments result : Fields) (phase : Phase)
      → Keeps (Frame Q) (record_observation e now incident_id tool arguments result phase)
  unfolding record_observation
  record_observation-Keeps now tool arguments result phase = search base_rules
