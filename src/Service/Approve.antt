-- ===== src/Service/Approve.antt =====
-- `_approve` and `reject` of backend/app/service.py: a pending action is claimed once, dispatched once
-- and verified, or it is rejected or expires. The per-incident locks order the calls of these operations.
pub mod Claim
pub mod Once
pub mod Gate
use home_ai_agent.Base.{
  ℕ, zero, suc, Bool, true, false, not, ◌&&◌, ◌||◌, Option, none, some, List, [], ◌∷◌, String, ◌==◌,
  string_eq, nat_eq, any, length, leb, is_empty, Result, ok, err, Error, value_error, lookup_error,
  attribute_error, if◌then◌else◌,
}
use home_ai_agent.Json.{Value, str, Fields, end, field, get, truthy, insert}
use home_ai_agent.Topology.{CheckSpec}
use home_ai_agent.Model.{
  Incident, IncidentStatus, opened, waiting_for_approval, verifying, investigating, Action,
  ApprovalStatus, pending, expired, rejected, VerificationStatus, failed,
}
use home_ai_agent.Gateway.{Registry, validate_tool}
use home_ai_agent.Service.Checks.{verification_checks}
use home_ai_agent.Service.Dispatch.{execute, failed_write, evidence_ids, validate_evidence}
use home_ai_agent.Service.Verify.{is_pending, validate_checks, verify_action, VerifyResult}
use home_ai_agent.Store.{
  Env, Store, M, ◌>>=◌, ◌>>◌, pure, raise, gets, lift, catch, modify, require, when, or_raise,
  find_incident, find_action, set_incident, set_action, audit,
}
use home_ai_agent.Safety.{redact_fields}
use Claim.{is_claimable, claim}

-- `any(a.id != action_id and a.approval_status == 'PENDING' for a in incident.actions)`
unfoldable pub other_pending : String → String → List Action → Bool
other_pending action_id incident_id =
    any
      (λ a. a.incident_id == incident_id && not (a.id == action_id) && is_pending a.approval_status)

abbrev pub is_waiting : IncidentStatus → Bool
is_waiting waiting_for_approval = true
is_waiting _ = false

-- `incident.status not in ('VERIFYING', 'INVESTIGATING')`
abbrev is_idle : IncidentStatus → Bool
is_idle verifying = false
is_idle investigating = false
is_idle _ = true

abbrev reopen : Incident → Incident
reopen i = record i { status = opened }

module _ (e : Env) (now : ℕ) (action_id : String) where
  -- the action expires, and the incident opens unless another proposal waits
  unfoldable pub expire : String → Store → Store
  unfolding other_pending
  expire incident_id s =
      let waiting = other_pending action_id incident_id s.actions in
      let t = ((set_action action_id (λ a. record a { approval_status = expired })) s).1 in
      if waiting then t else (set_incident incident_id reopen t).1

  -- everything that is tested before the claim
  unfoldable pub check_approval : Registry → Action → Incident → M (Unit {0})
  check_approval registry action incident = do
    require (is_waiting incident.status) (value_error "Incident is not waiting for this approval")
    evidence ← λ s. (validate_evidence incident.id (evidence_ids incident.report) s, s)
    entry ← lift (validate_tool e.schema_valid registry action.tool_name action.arguments true)
    checks ← lift (verification_checks e.settings.topology incident.service (some action))
    validate_checks e registry checks

  -- the atomic update; its commit comes before the dispatch
  unfoldable pub claim_action : String → M (Unit {0})
  unfolding claim
  claim_action incident_id s = elim (claim now action_id s.actions) [
    | none ↦ (err (value_error "Action was already claimed"), s)
    | some actions ↦ (
      ok tt,
      (set_incident incident_id (λ i. record i { status = verifying })
          (record s { actions = actions })).1,
    )
  ]

  -- `action.result = redact(result)` and, if the write did not succeed, its consequences
  unfoldable pub note_result : String → Fields → Store → Store
  unfolding other_pending
  note_result incident_id result s =
      let waiting = other_pending action_id incident_id s.actions in
      let stored = redact_fields e.secret_key e.scrub 16000 result in
      if truthy (get "ok" result)
      then (set_action action_id (λ a. record a { result = stored }) s).1
      else (set_incident incident_id
          (λ i. record i {
            status = if waiting then waiting_for_approval else opened;
            agent_state =
                insert "message"
                  (str
                    "Action failed or response was uncertain. Inspect before requesting a new action.")
                  (insert "phase" (str "REMEDIATION_FAILED") i.agent_state);
          })
          (set_action action_id (λ a. record a { result = stored; verification_status = failed })
            s).1).1

  -- after the claim: one dispatch, whose failure or timeout is an uncertain result, and verification
  unfoldable pub dispatch : Action → M (Unit {0})
  dispatch action = do
    audit action.incident_id "action_approved"
    result ← catch (execute e action.tool_name action.arguments (some action)) (failed_write e)
    modify (note_result action.incident_id result)
    audit action.incident_id "action_executed"
    if truthy (get "ok" result)
        then (verify_action e now action.incident_id (some action_id) >>= (λ _. pure tt))
        else pure tt

  abbrev the_action : M Action
  the_action s = or_raise (find_action action_id s) (lookup_error "Action not found") s

  abbrev the_incident : Action → M Incident
  the_incident a s = or_raise (find_incident a.incident_id s) (attribute_error "no such incident") s

  -- the expiry is committed, and the approval refused
  unfoldable pub refuse_expired : Action → M Action
  refuse_expired action = do
    incident ← the_incident action
    modify (expire incident.id)
    raise (value_error "Approval has expired; investigate again before proposing a fresh action")

  unfoldable pub run_approval : Registry → Action → M (Unit {0})
  run_approval registry action = do
    incident ← the_incident action
    check_approval registry action incident
    claim_action action.incident_id
    fresh ← the_action
    dispatch fresh

  unfoldable pub approve : M Action
  unfolding is_claimable
  approve = do
    require e.settings.enable_write_actions (value_error "Write tools are disabled")
    registry ← lift e.registry
    action ← the_action
    require (is_claimable action) (value_error "Action is no longer pending and cannot be replayed")
    if leb action.expires_at now
        then refuse_expired action
        else (run_approval registry action >>= (λ _. the_action))

  -- the rejection of one action, whose incident is `incident`
  unfoldable pub reject_action : Incident → Store → Store
  unfolding other_pending
  reject_action incident s =
      let waiting = other_pending action_id incident.id s.actions in
      let t = (set_action action_id (λ a. record a { approval_status = rejected }) s).1 in
      if is_idle incident.status && not waiting then (set_incident incident.id reopen t).1 else t

  unfoldable pub reject : M Action
  unfolding reject_action
  reject = do
    action ← the_action
    require (is_pending action.approval_status)
        (value_error "Only a pending action can be rejected")
    incident ← the_incident action
    modify (reject_action incident)
    audit action.incident_id "action_rejected"
    the_action
