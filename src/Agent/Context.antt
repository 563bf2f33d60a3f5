-- ===== src/Agent/Context.antt =====
-- `Agent.context` of backend/app/agent.py: what the model is shown of an incident. The whole is then cut to
-- the budget of backend/app/context.py.
use home_ai_agent.Base.{false, ◌&&◌, List, [], ◌∷◌, String, ◌==◌, string_eq, select}
use home_ai_agent.Json.{
  Value, bool, str, float, arr, obj, Items, nil, cons, Fields, end, field, get, get_or,
}
use home_ai_agent.Json.Number.{pos}
use home_ai_agent.Model.{
  Incident, Observation, Hypothesis, HypothesisStatus, active, supported, eliminated, confirmed,
  Phase, remediation,
}
use home_ai_agent.Safety.{redact_fields}
use home_ai_agent.Service.Autonomous.{id_list}
use home_ai_agent.Agent.Budget.Compact.{compact_context}
use home_ai_agent.Agent.State.{Provider, load, number}
use home_ai_agent.Store.{Env, Store, M, ◌>>=◌, gets, lift, observations_of}

abbrev pub phase_fields : Phase → Fields
phase_fields remediation = field "phase" (str "REMEDIATION") end
phase_fields _ = end

abbrev pub hypothesis_text : HypothesisStatus → String
hypothesis_text active = "ACTIVE"
hypothesis_text supported = "SUPPORTED"
hypothesis_text eliminated = "ELIMINATED"
hypothesis_text confirmed = "CONFIRMED"

abbrev hypothesis_value : Hypothesis → Value
hypothesis_value h = obj (
    field "id" (str h.id) (
      field "description" (str h.description) (
        field "confidence" (float (pos h.confidence)) (
          field "status" (str (hypothesis_text h.status)) (
            field "supporting_observation_ids" (id_list h.supporting_observation_ids) (
              field "contradicting_observation_ids" (id_list h.contradicting_observation_ids)
                end))))))

module _ {A : Type 0} where
  abbrev pub items_from : (A → Value) → List A → Items
  items_from f [] = nil
  items_from f (x ∷ xs) = cons (f x) (items_from f xs)

module _ (e : Env) (p : Provider) (incident_id : String) where
  abbrev pub observation_value : Observation → Value
  observation_value o = obj (
      field "id" (str o.id) (
        field "step_number" (number o.step_number) (
          field "tool_name" (str o.tool_name) (
            field "tool_arguments" (obj o.tool_arguments) (
              field "result" (obj o.normalized_result) (
                field "ok" (get_or "ok" (bool false) o.raw_result)
                  (field "interpretation" (str (p.interpretation o)) (phase_fields o.phase))))))))

  unfoldable pub full_context : String → Incident → Store → Fields
  unfolding string_eq
  full_context feedback incident s =
      field "incident"
        (obj (
          field "id" (str incident.id) (
            field "title" (str incident.title) (
              field "description" (str incident.description)
                (field "service" (str incident.service) end)))))
        (field "tools" (arr p.tools) (
          field "topology" (obj p.topology) (
            field "retrieved_incidents"
              (get_or "retrieved_incidents" (arr nil) incident.agent_state)
              (field "retrieved_runbooks"
                (get_or "retrieved_runbooks" (arr nil) incident.agent_state)
                (field "observations"
                  (arr (items_from observation_value (observations_of incident_id s)))
                  (field "hypotheses"
                    (arr (
                      items_from hypothesis_value
                        (select (λ h. h.incident_id == incident_id) s.hypotheses)))
                    (field "validation_feedback" (str feedback) (
                      field "remaining_steps" (get "remaining_steps" incident.agent_state) (
                        field "autonomous_actions_enabled"
                          (bool (
                            e.settings.enable_write_actions
                            && e.settings.enable_autonomous_actions))
                          end)))))))))

  unfoldable pub context : String → M Fields
  context feedback = do
    incident ← load e incident_id
    full ← gets (full_context feedback incident)
    lift (
        compact_context p.encoder (redact_fields e.secret_key e.scrub 2000 full)
          e.settings.agent_context_chars)
