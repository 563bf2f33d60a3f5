-- ===== src/Agent/Decide.antt =====
-- The branches of the decision loop in backend/app/agent.py (`_run`): what one decision of the model does. Measured
-- times are left out. A step runs at one instant.
use home_ai_agent.Base.{
  ℕ, Bool, true, false, not, ◌&&◌, Option, none, some, List, [], ◌∷◌, String, ◌==◌, string_eq,
  contains, select, last, Result, ok, err, Error, value_error, message, if◌then◌else◌,
}
use Prim.Native.String.{◌++◌ as ◌<>◌}
use home_ai_agent.Json.{
  null, bool, str, arr, obj, Items, nil, cons, Fields, end, field, get, insert, lookup, truthy,
}
use home_ai_agent.Model.{
  Incident, Action, opened, escalated, VerificationStatus, passed, investigation,
}
use home_ai_agent.Gateway.{Registry, validate_tool}
use home_ai_agent.Failures.{tool_failure_kind, envelope_failure_kind, kind_text}
use home_ai_agent.Observations.{record_observation}
use home_ai_agent.Routing.{item_in}
use home_ai_agent.Safety.{redact_text}
use home_ai_agent.Service.Dispatch.{execute}
use home_ai_agent.Service.Autonomous.{execute_autonomous}
use home_ai_agent.Service.Verify.{verify}
use home_ai_agent.Agent.Decision.{
  Decision, DecisionType, tool_call, execute_action, diagnosis, request_approval, need_user_input,
  stop, Remediation, tool_name, type_text, is_given, capability_text, Capability, known_tool,
  missing_tool,
}
use home_ai_agent.Agent.Hypotheses.{update_hypotheses}
use home_ai_agent.Agent.Propose.{propose_action}
use home_ai_agent.Agent.Diagnosis.{save_diagnosis, is_value_error, optional_text}
use home_ai_agent.Agent.State.{
  Provider, load, update_state, record_step_timing, signature, append_item, items_of, merge,
}
use home_ai_agent.Store.{
  Env, Store, M, ◌>>=◌, ◌>>◌, pure, raise, gets, lift, catch, modify, require, result_of,
  actions_of, set_incident, audit,
}

-- what the loop does after a decision: another one, with feedback, or `return`
pub data Next : Type 0 where
  again : String → Next
  finished : Next

abbrev has_passed : VerificationStatus → Bool
has_passed passed = true
has_passed _ = false

abbrev is_user_input : DecisionType → Bool
is_user_input need_user_input = true
is_user_input _ = false

-- `decision.capability_status or ('MISSING_TOOL' if decision.capability_gap else 'KNOWN_TOOL')`
unfoldable pub capability : Decision → Capability
unfolding string_eq
capability d = elim d.capability_status [
  | some c ↦ c
  | none ↦ if is_given d.capability_gap then missing_tool else known_tool
]

-- `gaps`: the gap is added once
unfoldable pub with_gap : Option String → Items → Items
unfolding string_eq
with_gap none gaps = gaps
with_gap (some g) gaps =
    if not (g == "") && not (item_in (str g) gaps) then append_item gaps (str g) else gaps

-- `text or other`
unfoldable pub text_or : String → String → String
unfolding string_eq
text_or s t = if s == "" then t else s

module _ (e : Env) (p : Provider) (incident_id : String) where
  abbrev pub clean : ℕ → String → String
  clean = redact_text e.secret_key e.scrub

  -- the envelope for a request that raised
  unfoldable pub failed_tool : String → Error → Fields
  failed_tool tool x = field "tool" (str tool) (
      field "ok" (bool false) (
        field "result" (obj end) (
          field "error" (str (clean 1000 (message x)))
            (field "failure_kind" (str (kind_text (tool_failure_kind x))) end))))

  -- `result.setdefault('failure_kind', …)` for a result that is not ok
  unfoldable pub with_kind : Fields → Fields
  with_kind result =
      if truthy (get "ok" result) then result else (elim (lookup "failure_kind" result) [
        | some _ ↦ result
        | none ↦
            insert "failure_kind"
              (str (kind_text (envelope_failure_kind e.str_of (get "error" result)))) result
      ])

  -- one request without an approval, recorded as an observation
  unfoldable pub diagnose : ℕ → String → Fields → M String
  diagnose now tool arguments = do
    result ← catch (execute e tool arguments none) (failed_tool tool)
    record_observation e now incident_id tool arguments (with_kind result) investigation

  unfoldable pub next_action : String → Fields → String → Fields
  next_action tool arguments reason = field "phase" (str "DIAGNOSTIC") (
      field "next_action"
        (obj (
          field "tool" (str tool)
            (field "arguments" (obj arguments) (field "reason" (str reason) end))))
        end)

  -- a diagnostic whose signature the investigation has made is rejected
  unfoldable pub claim_signature : String → M (Unit {0})
  unfolding string_eq
  claim_signature call = do
    known ← gets (λ s. contains s.seen call)
    require (not known) (
        value_error
          "Duplicate diagnostic rejected. Choose a different discriminating check or diagnose with existing evidence.")
    modify (λ s. record s { seen = call ∷ s.seen })

  unfoldable pub call_tool : Registry → ℕ → ℕ → Decision → String → M Next
  call_tool registry now step d feedback = do
    entry ← lift (validate_tool e.schema_valid registry (tool_name d) d.arguments false)
    claim_signature (signature p.dumps (tool_name d) d.arguments)
    update_state e incident_id (next_action (tool_name d) d.arguments d.reason)
    id ← diagnose now (tool_name d) d.arguments
    audit incident_id "tool_result"
    record_step_timing e incident_id step "DIAGNOSTIC" d.tool
    pure (again feedback)

  -- `actions[-1].id if actions else None` of the actions without approval
  unfoldable pub last_autonomous : Store → Option String
  last_autonomous s =
      elim (last (select (λ a. not a.requires_approval) (actions_of incident_id s))) [
        | none ↦ none
        | some a ↦ some a.id
      ]

  -- the recovery checks decide how the investigation ends
  unfoldable pub verify_last : ℕ → M Next
  verify_last now = do
    action_id ← gets last_autonomous
    result ← verify e now incident_id action_id
    pure finished

  abbrev pub forget_calls : M (Unit {0})
  forget_calls = modify (λ s. record s { seen = [] })

  unfoldable pub refused_remediation : ℕ → Remediation → String → M Next
  refused_remediation now r text = do
    update_state e incident_id (
        field "remediation_not_executable"
          (arr (cons (obj (field "tool" (str r.tool) (field "message" (str text) end))) nil)) end)
    verify_last now

  unfoldable pub after_remediation : ℕ → Remediation → Result Action → M Next
  after_remediation now r (ok a) = do
    forget_calls
    pure (
        again
          "One targeted action was executed and verified. Inspect its new observations; continue diagnosis if recovery is incomplete.")
  after_remediation now r (err x) =
      if is_value_error x then refused_remediation now r (message x) else raise x

  -- the first remediation is executed and verified
  unfoldable pub remediate : ℕ → Remediation → List String → M Next
  remediate now r evidence = do
    executed ← result_of (execute_autonomous e now incident_id r.tool r.arguments evidence)
    after_remediation now r executed

  unfoldable pub recover : ℕ → List String → List Remediation → M Next
  recover now evidence [] = verify_last now
  recover now evidence (r ∷ _) = remediate now r evidence

  unfoldable pub diagnose_incident : Registry → ℕ → ℕ → Decision → M Next
  diagnose_incident registry now step d = do
    save_diagnosis e p now incident_id registry d
    record_step_timing e incident_id step "DIAGNOSED" none
    if e.settings.enable_autonomous_actions && p.has_service
        then recover now d.evidence_observation_ids d.remediation
        else pure finished

  abbrev action_feedback : Action → String
  action_feedback a =
      if has_passed a.verification_status
      then "Action and exact-target verification passed."
      else "Action failed or exact-target verification failed. Do not retry this target; inspect current evidence and report unresolved if no new safe action exists."

  unfoldable pub act : ℕ → ℕ → Decision → M Next
  act now step d = do
    require p.has_service (value_error "Autonomous executor is unavailable")
    a ← execute_autonomous e now incident_id (tool_name d) d.arguments []
    forget_calls
    update_state e incident_id (
        field "phase" (str "REASONING")
          (field "next_action" null (field "last_action_id" (str a.id) end)))
    record_step_timing e incident_id step "REMEDIATION" d.tool
    pure (again (action_feedback a))

  unfoldable pub request : Registry → ℕ → ℕ → Decision → M Next
  request registry now step d = do
    id ← propose_action e now incident_id registry (tool_name d) d.arguments
    update_state e incident_id (field "phase" (str "WAITING_FOR_APPROVAL") end)
    record_step_timing e incident_id step "WAITING_FOR_APPROVAL" d.tool
    pure finished

  abbrev stop_text : Decision → String
  stop_text d = if is_user_input d.decision_type then "ESCALATED" else "OPEN"

  abbrev stop_phase : Decision → String
  stop_phase d = if is_user_input d.decision_type then "ESCALATED" else type_text d.decision_type

  -- the incident is left to the operator, with what is missing
  unfoldable pub stopped_incident : Decision → Incident → Incident
  unfolding text_or
  stopped_incident d i = record i {
    status = if is_user_input d.decision_type then escalated else opened;
    summary =
        some (
          clean 16000
            (text_or d.summary (text_or d.reason "Additional operator input is needed.")));
    report = merge i.report (
        field "status" (str (stop_text d)) (
          field "reason" (str (clean 16000 d.reason)) (
            field "capability_status" (str (capability_text (capability d))) (
              field "capability_gap" (optional_text d.capability_gap) (
                field "missing_capability" (str (clean 16000 d.missing_capability)) (
                  field "recommended_next_check" (str (clean 16000 d.recommended_next_check))
                    end))))));
    agent_state = merge i.agent_state (
        field "phase" (str (stop_phase d)) (
          field "next_action" null (
            field "capability_gaps"
              (arr (with_gap d.capability_gap (items_of (get "capability_gaps" i.agent_state))))
              end)));
  }

  unfoldable pub stop_here : ℕ → Decision → M Next
  stop_here step d = do
    incident ← load e incident_id
    set_incident incident_id (stopped_incident d)
    audit incident_id
        (if is_user_input d.decision_type then "incident_escalated" else "investigation_stopped")
    record_step_timing e incident_id step (stop_phase d) none
    pure finished

  unfoldable pub hypothesis_feedback : Result (Unit {0}) → M String
  hypothesis_feedback (ok _) = pure ""
  hypothesis_feedback (err x) =
      if is_value_error x
      then (audit incident_id "hypothesis_update_rejected"
          >> pure ("Hypothesis update ignored: " <> clean 800 (message x)))
      else raise x

  -- invalid hypotheses do not reject the decision
  unfoldable pub note_hypotheses : Decision → M String
  note_hypotheses d = do
    updated ← result_of (update_hypotheses e p.failure_log incident_id d.hypothesis_updates)
    hypothesis_feedback updated

  unfoldable pub branch : Registry → ℕ → ℕ → Decision → String → DecisionType → M Next
  branch registry now step d feedback tool_call = call_tool registry now step d feedback
  branch registry now step d feedback diagnosis = diagnose_incident registry now step d
  branch registry now step d feedback execute_action = act now step d
  branch registry now step d feedback request_approval = request registry now step d
  branch registry now step d feedback need_user_input = stop_here step d
  branch registry now step d feedback stop = stop_here step d

  unfoldable pub carry_out : Registry → ℕ → ℕ → Decision → M Next
  carry_out registry now step d = do
    feedback ← note_hypotheses d
    branch registry now step d feedback d.decision_type
