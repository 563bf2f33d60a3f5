-- ===== src/Agent/Steps.antt =====
-- What the branches of the decision loop keep (backend/app/agent.py).
use home_ai_agent.Base.{
  ℕ, refl, List, [], ◌∷◌, ◌++◌, String, Result, ok, err, arith, inl, inr, Result-cases,
  Option-cases, find,
}
use home_ai_agent.Json.{Fields, Items, nil, cons}
use home_ai_agent.Model.{Action}
use home_ai_agent.Gateway.{Registry}
use home_ai_agent.Agent.Decision.{
  Decision, DecisionType, Remediation, tool_call, execute_action, diagnosis, request_approval,
  need_user_input, stop,
}
use home_ai_agent.Agent.Hypotheses.{update_hypotheses, apply_updates}
use home_ai_agent.Agent.Propose.{propose_action, reuse_or_add, add_proposal, is_same_proposal}
use home_ai_agent.Agent.Diagnosis.{
  save_diagnosis, propose_all, note_error, note_errors, save_report,
}
use home_ai_agent.Agent.Decide.{
  claim_signature, diagnose, call_tool, verify_last, remediate, diagnose_incident, act, request,
  stop_here, stopped_incident, hypothesis_feedback, note_hypotheses, refused_remediation,
  forget_calls, after_remediation, recover, branch, carry_out,
}
use home_ai_agent.Service.Dispatch.{validate_evidence}
use home_ai_agent.Agent.State.{Provider}
use home_ai_agent.Agent.Kept.{
  record_observation-Keeps, base_rules, update_state-Keeps, record_step_timing-Keeps, load-Keeps,
  audit-Keeps,
}
use home_ai_agent.Agent.Sends.{IsBacked, send_rules, verify-Keeps, execute_autonomous-Keeps}
use home_ai_agent.Store.{Env, Call, M, set_incident, lift, actions_of, observations_of}
use home_ai_agent.Store.Keeps.{
  Keeps, Frame, Keeps-Frame, set_incident-Keeps, keeps_rules, Keeps-bind, Keeps-pure,
  change_incident-ids, Keeps-result_of,
}

module _ (Q : List String → List Call → ℕ → Type 0) (e : Env) (p : Provider) (incident_id : String)
    (sends : (ids : List String) (calls : List Call) (n : ℕ) (c : Call)
      → IsBacked e c
      → Q ids calls n
      → Q ids (calls ++ (c ∷ [])) n) where
  pub ruleset state_rules = (base_rules, update_state-Keeps, record_step_timing-Keeps)

  claim_signature-Keeps : (call : String) → Keeps (Frame Q) (claim_signature e p incident_id call)
  unfolding claim_signature
  claim_signature-Keeps call = record { at = λ s h. ground (arith, h) }

  add_proposal-Keeps :
      (now : ℕ) (tool : String) (arguments : Fields)
      → Keeps (Frame Q) (add_proposal e now incident_id tool arguments)
  unfolding add_proposal
  add_proposal-Keeps now tool arguments =
      Keeps-Frame Q (λ s. (change_incident-ids incident_id _ (λ i. refl) s.incidents, refl, refl))

  reuse_or_add-Keeps :
      (now : ℕ) (tool : String) (arguments : Fields)
      → Keeps (Frame Q) (reuse_or_add e now incident_id tool arguments)
  unfolding reuse_or_add
  reuse_or_add-Keeps now tool arguments = record {
    at = λ s h.
        elim (Option-cases (find (is_same_proposal tool arguments) (actions_of incident_id s))) [
          | inl n ↦ rw (reuse_or_add, n) ((add_proposal-Keeps now tool arguments).at s h)
          | inr (a, y) ↦ rw (reuse_or_add, y) h
        ];
  }

  propose_action-Keeps :
      (now : ℕ) (registry : Registry) (tool : String) (arguments : Fields)
      → Keeps (Frame Q) (propose_action e now incident_id registry tool arguments)
  unfolding propose_action
  propose_action-Keeps now registry tool arguments =
      search (keeps_rules, reuse_or_add-Keeps) depth 20

  pub diagnose-Keeps :
      (now : ℕ) (tool : String) (arguments : Fields)
      → Keeps (Frame Q) (diagnose e p incident_id now tool arguments)
  unfolding diagnose
  diagnose-Keeps now tool arguments = search (send_rules)

  call_tool-Keeps :
      (registry : Registry) (now step : ℕ) (d : Decision) (f : String)
      → Keeps (Frame Q) (call_tool e p incident_id registry now step d f)
  unfolding call_tool
  call_tool-Keeps registry now step d f =
      search (state_rules, claim_signature-Keeps, diagnose-Keeps) depth 20

  verify_last-Keeps : (now : ℕ) → Keeps (Frame Q) (verify_last e p incident_id now)
  unfolding verify_last
  verify_last-Keeps now = search (state_rules, verify-Keeps)

  act-Keeps : (now step : ℕ) (d : Decision) → Keeps (Frame Q) (act e p incident_id now step d)
  unfolding act
  act-Keeps now step d = search (state_rules, execute_autonomous-Keeps) depth 20

  request-Keeps :
      (registry : Registry) (now step : ℕ) (d : Decision)
      → Keeps (Frame Q) (request e p incident_id registry now step d)
  unfolding request
  request-Keeps registry now step d = search (state_rules, propose_action-Keeps) depth 20

  stopped-Keeps :
      (d : Decision)
      → Keeps (Frame Q) (set_incident incident_id (stopped_incident e p incident_id d))
  unfolding stopped_incident
  stopped-Keeps d = set_incident-Keeps Q incident_id _ (λ i. refl)

  stop_here-Keeps : (step : ℕ) (d : Decision) → Keeps (Frame Q) (stop_here e p incident_id step d)
  unfolding stop_here
  stop_here-Keeps step d = search (state_rules, stopped-Keeps) depth 20

  update_hypotheses-Keeps :
      (us : _) → Keeps (Frame Q) (update_hypotheses e p.failure_log incident_id us)
  unfolding update_hypotheses
  update_hypotheses-Keeps us = record {
    at = λ s h.
        elim (Result-cases (
          apply_updates e p.failure_log incident_id (observations_of incident_id s) us
            (s.hypotheses, [], s.issued))) [
              | inl (x, y) ↦ rw (update_hypotheses, y) h
              | inr (w, y) ↦ rw (update_hypotheses, y) h
            ];
  }

  hypothesis_feedback-Keeps : (r : _) → Keeps (Frame Q) (hypothesis_feedback e p incident_id r)
  unfolding hypothesis_feedback
  hypothesis_feedback-Keeps (ok _) = search state_rules
  hypothesis_feedback-Keeps (err x) = search state_rules

  note_hypotheses-Keeps : (d : Decision) → Keeps (Frame Q) (note_hypotheses e p incident_id d)
  unfolding note_hypotheses
  note_hypotheses-Keeps d = search (state_rules, update_hypotheses-Keeps, hypothesis_feedback-Keeps)

  note_error-Keeps :
      (now : ℕ) (tool : String) (r : Result String) {rest : M Items}
      → Keeps (Frame Q) rest
      → Keeps (Frame Q) (note_error e p now incident_id tool r rest)
  unfolding note_error
  note_error-Keeps now tool (ok _) k = search state_rules
  note_error-Keeps now tool (err x) k = search state_rules

  propose_all-Keeps :
      (now : ℕ) (registry : Registry) (rs : List Remediation)
      → Keeps (Frame Q) (propose_all e p now incident_id registry rs)
  unfolding propose_all
  propose_all-Keeps now registry [] = Keeps-pure nil
  propose_all-Keeps now registry (r ∷ rs) =
      Keeps-bind (Keeps-result_of (propose_action-Keeps now registry r.tool r.arguments))
        (λ x. note_error-Keeps now r.tool x (propose_all-Keeps now registry rs))

  save_report-Keeps :
      (now : ℕ) (d : Decision) (c : ℕ) → Keeps (Frame Q) (save_report e p now incident_id d c)
  unfolding save_report
  save_report-Keeps now d c = set_incident-Keeps Q incident_id _ (λ i. refl)

  note_errors-Keeps : (now : ℕ) (vs : Items) → Keeps (Frame Q) (note_errors e p now incident_id vs)
  unfolding note_errors
  note_errors-Keeps now nil = search state_rules
  note_errors-Keeps now (cons v vs) = search state_rules

  evidence-Keeps :
      (ids : List String) → Keeps (Frame Q) (λ s. lift (validate_evidence incident_id ids s) s)
  evidence-Keeps ids = record { at = λ s h. h }

  save_diagnosis-Keeps :
      (now : ℕ) (registry : Registry) (d : Decision)
      → Keeps (Frame Q) (save_diagnosis e p now incident_id registry d)
  unfolding save_diagnosis
  save_diagnosis-Keeps now registry d =
      search (state_rules, evidence-Keeps, save_report-Keeps, propose_all-Keeps, note_errors-Keeps)
        depth 20

  refused_remediation-Keeps :
      (now : ℕ) (r : Remediation) (t : String)
      → Keeps (Frame Q) (refused_remediation e p incident_id now r t)
  unfolding refused_remediation
  refused_remediation-Keeps now r t = search (state_rules, verify_last-Keeps)

  forget_calls-Keeps : Keeps (Frame Q) (forget_calls e p incident_id)
  forget_calls-Keeps = record { at = λ s h. h }

  after_remediation-Keeps :
      (now : ℕ) (r : Remediation) (x : Result Action)
      → Keeps (Frame Q) (after_remediation e p incident_id now r x)
  unfolding after_remediation
  after_remediation-Keeps now r (ok a) = search (state_rules, forget_calls-Keeps)
  after_remediation-Keeps now r (err x) = search (state_rules, refused_remediation-Keeps)

  remediate-Keeps :
      (now : ℕ) (r : Remediation) (ids : List String)
      → Keeps (Frame Q) (remediate e p incident_id now r ids)
  unfolding remediate
  remediate-Keeps now r ids =
      search (state_rules, execute_autonomous-Keeps, after_remediation-Keeps)

  recover-Keeps :
      (now : ℕ) (ids : List String) (rs : List Remediation)
      → Keeps (Frame Q) (recover e p incident_id now ids rs)
  unfolding recover
  recover-Keeps now ids [] = verify_last-Keeps now
  recover-Keeps now ids (r ∷ rs) = remediate-Keeps now r ids

  diagnose_incident-Keeps :
      (registry : Registry) (now step : ℕ) (d : Decision)
      → Keeps (Frame Q) (diagnose_incident e p incident_id registry now step d)
  unfolding diagnose_incident
  diagnose_incident-Keeps registry now step d =
      search (state_rules, save_diagnosis-Keeps, recover-Keeps) depth 12

  branch-Keeps :
      (registry : Registry) (now step : ℕ) (d : Decision) (f : String) (k : DecisionType)
      → Keeps (Frame Q) (branch e p incident_id registry now step d f k)
  unfolding branch
  branch-Keeps registry now step d f tool_call = call_tool-Keeps registry now step d f
  branch-Keeps registry now step d f execute_action = act-Keeps now step d
  branch-Keeps registry now step d f diagnosis = diagnose_incident-Keeps registry now step d
  branch-Keeps registry now step d f request_approval = request-Keeps registry now step d
  branch-Keeps registry now step d f need_user_input = stop_here-Keeps step d
  branch-Keeps registry now step d f stop = stop_here-Keeps step d

  pub carry_out-Keeps :
      (registry : Registry) (now step : ℕ) (d : Decision)
      → Keeps (Frame Q) (carry_out e p incident_id registry now step d)
  unfolding carry_out
  carry_out-Keeps registry now step d =
      Keeps-bind (note_hypotheses-Keeps d) (λ f. branch-Keeps registry now step d f d.decision_type)
