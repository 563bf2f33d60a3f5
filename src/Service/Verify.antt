-- ===== src/Service/Verify.antt =====
-- `verify` and `_verify` of backend/app/service.py: the recovery checks are run with bounded retries,
-- and the incident and the action take their final status. Waiting times, the payloads of audit
-- entries and the text that is indexed are left out.
use home_ai_agent.Base.{
  ℕ, zero, suc, Bool, true, false, not, ◌&&◌, Option, none, some, List, [], ◌∷◌, ◌++◌, String, ◌==◌,
  string_eq, select, any, all, last, is_empty, starts_with, Result, ok, err, value_error,
  lookup_error, attribute_error, if◌then◌else◌, message,
}
use home_ai_agent.Json.{bool, str, obj, Fields, end, field, get, get_or, is_true, fields_eq, insert}
use home_ai_agent.Json.Matches.{matches}
use home_ai_agent.Topology.{CheckSpec}
use home_ai_agent.Model.{
  IncidentStatus, opened, investigating, waiting_for_approval, verifying, resolved, Action,
  ApprovalStatus, pending, approved, expired, VerificationStatus, passed, failed, blocked,
  verification,
}
use home_ai_agent.Autonomy.Evidence.{target_key, state_tool}
use home_ai_agent.Observations.{record_observation}
use home_ai_agent.Gateway.{Registry, validate_tool}
use home_ai_agent.Service.Checks.{verification_checks}
use home_ai_agent.Service.Dispatch.{execute, failed_read, evidence_ids}
use home_ai_agent.Store.{
  Env, Store, M, ◌>>=◌, ◌>>◌, pure, gets, lift, catch, modify, require, when, or_raise,
  find_incident, find_action, actions_of, set_incident, set_action, change_incident, change_action,
  note_state, audit,
}

-- one entry of `results`
pub record CheckResult : Type 0 where
  pub check : CheckSpec
  pub passed : Bool
  pub observation_id : String
  pub attempts : List (Bool × String)

abbrev pub is_pending : ApprovalStatus → Bool
is_pending pending = true
is_pending _ = false

abbrev pub is_approved : ApprovalStatus → Bool
is_approved approved = true
is_approved _ = false

abbrev pub is_failed : VerificationStatus → Bool
is_failed failed = true
is_failed _ = false

-- `observed.get('ok') is True and matches(observed.get('result', {}), check.expect)`
unfoldable pub check_passes : CheckSpec → Fields → Bool
check_passes c observed =
    is_true (get "ok" observed) && matches (get_or "result" (obj end) observed) c.expect

module _ (e : Env) where
  unfoldable pub validate_checks : Registry → List CheckSpec → M (Unit {0})
  validate_checks registry [] = pure tt
  validate_checks registry (c ∷ cs) = do
    entry ← lift (validate_tool e.schema_valid registry c.tool c.arguments false)
    validate_checks registry cs

module _ (e : Env) (now : ℕ) (incident_id : String) where
  -- one attempt of a check, recorded as an observation
  unfoldable pub attempt : CheckSpec → M (Bool × String)
  attempt c = do
    observed ← catch (execute e c.tool c.arguments none) (failed_read e)
    id ← record_observation e now incident_id c.tool c.arguments observed verification
    pure (check_passes c observed, id)

  -- the loop over the attempts, of which the first is always made and `more` may follow
  unfoldable pub run_check : ℕ → CheckSpec → List (Bool × String) → M CheckResult
  run_check zero c tried = do
    (done, id) ← attempt c
    pure (record {
      check = c;
      passed = done;
      observation_id = id;
      attempts = tried ++ ((done, id) ∷ []);
    })
  run_check (suc more) c tried = do
    (done, id) ← attempt c
    let tried' = tried ++ ((done, id) ∷ [])
    if done
        then pure (record { check = c; passed = true; observation_id = id; attempts = tried' })
        else run_check more c tried'

  unfoldable pub run_checks : (CheckSpec → ℕ) → List CheckSpec → M (List CheckResult)
  run_checks extra [] = pure []
  run_checks extra (c ∷ cs) = do
    r ← run_check (extra c) c []
    rs ← run_checks extra cs
    pure (r ∷ rs)

-- `bool(results) and all(result['passed'] for result in results)`
abbrev pub all_passed : List CheckResult → Bool
all_passed rs = not (is_empty rs) && all (λ r. r.passed) rs

-- seven attempts for the exact target of a start or restart, else one
unfoldable pub extra_attempts : Option Action → CheckSpec → ℕ
unfolding string_eq
extra_attempts none c = 0
extra_attempts (some a) c =
    if (c.tool == state_tool a.tool_name
        && fields_eq c.arguments
            (field (target_key a.tool_name) (get (target_key a.tool_name) a.arguments) end))
      && not (starts_with a.tool_name "stop_")
    then 6
    else 0

pub record VerifyResult : Type 0 where
  pub verified : Bool
  pub error : Option String
  pub checks : List CheckResult

abbrev expire_pending : String → Action → Action
expire_pending incident_id a =
    if a.incident_id == incident_id && is_pending a.approval_status
    then record a { approval_status = expired }
    else a

-- the pending proposals of the incident become stale
unfoldable pub expire_all : String → List Action → List Action
expire_all incident_id [] = []
expire_all incident_id (a ∷ rest) = expire_pending incident_id a ∷ expire_all incident_id rest

-- the status after verification, from whether the action was a stop and whether another is pending
unfoldable pub final_status : Bool → Bool → Bool → IncidentStatus
final_status stopped verified waiting =
    if stopped
    then opened
    else if verified
    then resolved
    else if waiting
    then waiting_for_approval
    else opened

unfoldable pub final_phase : Bool → Bool → String
final_phase stopped verified =
    if stopped && verified
    then "OPERATION_VERIFIED"
    else if verified
    then "RESOLVED"
    else "VERIFICATION_FAILED"

abbrev pub has_pending : String → List Action → Bool
has_pending incident_id = any (λ a. a.incident_id == incident_id && is_pending a.approval_status)

abbrev pub outcome : Bool → VerificationStatus
outcome true = passed
outcome false = failed

-- the verification status of the action, if there is one
unfoldable pub judge : Option String → Bool → List Action → List Action
judge none verified actions = actions
judge (some id) verified actions =
    change_action id (λ a. record a { verification_status = outcome verified }) actions

module _ (e : Env) (now : ℕ) (incident_id : String) where
  -- the verdict on the incident, its action and its pending proposals
  unfoldable pub settle : Option String → Bool → Bool → Store → Store
  settle action_id stopped verified s =
      let waiting = has_pending incident_id s.actions in
      let judged = judge action_id verified s.actions in
      record s {
        incidents =
            change_incident incident_id
              (λ i. record i {
                status = final_status stopped verified waiting;
                resolved_at = if stopped then none else if verified then some now else none;
                agent_state = insert "phase" (str (final_phase stopped verified)) i.agent_state;
              })
              s.incidents;
        actions = if verified then expire_all incident_id judged else judged;
      }

  -- the resolved incident is indexed; a failure only leaves a note
  unfoldable pub index_history : Bool → M (Unit {0})
  index_history verified = elim e.history [
    | none ↦ pure tt
    | some answer ↦ when verified (
        note_state incident_id "indexed_for_history"
          (elim answer [ ok _ ↦ bool true | err _ ↦ bool false ]))
  ]

  unfoldable pub is_stop : Option String → M Bool
  is_stop none = pure false
  is_stop (some id) = do
    a ← or_raise (← gets (find_action id)) (attribute_error "no such action")
    pure (starts_with a.tool_name "stop_")

  unfoldable pub finish : Option String → List CheckResult → M VerifyResult
  finish action_id results = do
    stopped ← is_stop action_id
    modify (settle action_id stopped (all_passed results))
    audit incident_id "recovery_verification"
    index_history (all_passed results)
    pure (record { verified = all_passed results; error = none; checks = results })

  abbrev pub mark_blocked : Option Action → M (Unit {0})
  mark_blocked none = pure tt
  mark_blocked (some a) = set_action a.id (λ b. record b { verification_status = blocked })

  unfoldable pub blocked_by : Option Action → String → M VerifyResult
  blocked_by action text = do
    set_incident incident_id (λ i. record i {
      status = opened;
      agent_state =
          insert "verification_error" (str text)
            (insert "phase" (str "VERIFICATION_BLOCKED") i.agent_state);
    })
    mark_blocked action
    pure (record { verified = false; error = some text; checks = [] })

  abbrev pub lookup_action : Option String → Store → Option Action
  lookup_action none s = none
  lookup_action (some id) s = find_action id s

  abbrev belongs : Option Action → Bool
  belongs none = true
  belongs (some a) = a.incident_id == incident_id

  abbrev is_investigating : IncidentStatus → Bool
  is_investigating investigating = true
  is_investigating _ = false

  unfoldable pub run_verification :
      Registry → Option String → Option Action → List CheckSpec → M VerifyResult
  run_verification registry action_id action checks = do
    validate_checks e registry checks
    set_incident incident_id (λ i. record i { status = verifying })
    results ← run_checks e now incident_id (extra_attempts action) checks
    finish action_id results

  -- an ambiguous or missing check blocks the verification
  unfoldable pub run_if_checked :
      Registry → Option String → Option Action → Result (List CheckSpec) → M VerifyResult
  run_if_checked registry action_id action (err x) = blocked_by action (message x)
  run_if_checked registry action_id action (ok checks) =
      run_verification registry action_id action checks

  unfoldable pub verify_action : Option String → M VerifyResult
  verify_action action_id = do
    registry ← lift e.registry
    incident ← or_raise (← gets (find_incident incident_id)) (lookup_error "Incident not found")
    require (not (is_investigating incident.status))
        (value_error "Wait for the current investigation to finish")
    require (not (is_empty (evidence_ids incident.report)))
        (value_error "An evidence-backed diagnosis is required before recovery verification")
    action ← gets (lookup_action action_id)
    require (belongs action) (value_error "Action does not belong to this incident")
    run_if_checked registry action_id action
        (verification_checks e.settings.topology incident.service action)

  -- `approval_status == 'APPROVED' and verification_status == 'FAILED'`
  abbrev is_unfinished : Action → Bool
  is_unfinished a = is_approved a.approval_status && is_failed a.verification_status

  -- without an action, the last approved one whose verification failed is taken
  unfoldable pub verify : Option String → M VerifyResult
  verify (some id) s = verify_action (some id) s
  verify none s =
      verify_action
        (elim (last (select is_unfinished (actions_of incident_id s))) [
          | none ↦ none
          | some a ↦ some a.id
        ])
        s
