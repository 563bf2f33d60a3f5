-- ===== src/Service/Autonomous.antt =====
-- `_execute_autonomous` of backend/app/service.py: an authorized action is claimed as it is created,
-- dispatched once, and its exact target is checked. Waiting times and audit payloads are left out.
use home_ai_agent.Base.{
  ℕ, suc, false, not, ◌&&◌, some, List, [], ◌∷◌, ◌++◌, String, ◌==◌, string_eq, is_empty, select,
  map, ok, value_error, lookup_error, attribute_error, if◌then◌else◌,
}
use home_ai_agent.Json.{
  Value, str, arr, obj, bool, Items, nil, cons, Fields, end, field, get, truthy, insert, fields_eq,
}
use home_ai_agent.Topology.{CheckSpec}
use home_ai_agent.Model.{Action, auto_authorized, not_run, remediation}
use home_ai_agent.Gateway.{Registry}
use home_ai_agent.Autonomy.{authorize}
use home_ai_agent.Autonomy.Evidence.{target_key, state_tool}
use home_ai_agent.Observations.{record_observation}
use home_ai_agent.Service.Checks.{verification_checks}
use home_ai_agent.Service.Dispatch.{execute, failed_write}
use home_ai_agent.Service.Verify.{validate_checks, CheckResult, run_checks, all_passed, outcome}
use home_ai_agent.Store.{
  Env, M, ◌>>=◌, ◌>>◌, pure, gets, lift, catch, require, or_raise, find_incident, find_action,
  observations_of, actions_of, set_action, audit,
}
use home_ai_agent.Safety.{redact_fields}

-- the checks that read the state of exactly this target
unfoldable pub target_checks : String → Fields → List CheckSpec → List CheckSpec
unfolding string_eq
target_checks tool arguments = select (λ c.
    c.tool == state_tool tool
    && fields_eq c.arguments (field (target_key tool) (get (target_key tool) arguments) end))

abbrev pub id_list : List String → Value
id_list ids = arr (items ids)
  where
    items : List String → Items
    items [] = nil
    items (id ∷ rest) = cons (str id) (items rest)

-- one entry of `verification`, by its check and verdict
abbrev verdicts : List CheckResult → Items
verdicts [] = nil
verdicts (r ∷ rs) =
    cons
      (obj (
        field "tool" (str r.check.tool) (
          field "arguments" (obj r.check.arguments) (
            field "expect" (obj r.check.expect) (
              field "passed" (bool r.passed)
                (field "observation_id" (str r.observation_id) end))))))
      (verdicts rs)

-- the action as it is inserted: claimed before anything is sent
unfoldable pub candidate : ℕ → String → String → String → Fields → List String → Action
candidate now id incident_id tool arguments ids = record {
  id = id;
  incident_id = incident_id;
  tool_name = tool;
  arguments = arguments;
  requires_approval = false;
  approval_status = auto_authorized;
  approved_at = some now;
  executed_at = some now;
  expires_at = now;
  result =
      field "dispatch_status" (str "CLAIMED") (field "evidence_observation_ids" (id_list ids) end);
  verification_status = not_run;
}

module _ (e : Env) (now : ℕ) (incident_id : String) where
  -- authorization, and the checks of the exact target
  unfoldable pub plan : Registry → String → Fields → List String → M (List String × List CheckSpec)
  plan registry tool arguments evidence = do
    incident ← λ s. or_raise (find_incident incident_id s) (lookup_error "Incident not found") s
    observations ← gets (observations_of incident_id)
    actions ← gets (actions_of incident_id)
    let ids = if is_empty evidence then map (λ o. o.id) observations else evidence
    granted ← lift (
        authorize e.schema_valid e.str_of e.settings registry incident.service actions observations
          now tool arguments ids)
    checks ← lift (
        verification_checks e.settings.topology incident.service
          (some (candidate now "" incident_id tool arguments granted)))
    let own = target_checks tool arguments checks
    require (not (is_empty own)) (value_error "No deterministic exact-target verification check")
    validate_checks e registry own
    pure (granted, own)

  unfoldable pub insert_action : String → Fields → List String → M Action
  unfolding candidate
  insert_action tool arguments ids s =
      let a = candidate now (e.uuid s.issued) incident_id tool arguments ids in
      (ok a, record s { actions = s.actions ++ (a ∷ []); issued = suc s.issued })

  -- the result of the dispatch is recorded, and the target is inspected even after a failure
  unfoldable pub inspect : Action → List String → List CheckSpec → Fields → M (List CheckResult)
  inspect a ids checks result = do
    id ← record_observation e now incident_id a.tool_name a.arguments result remediation
    set_action a.id (λ b. record b {
      result =
          insert "evidence_observation_ids" (id_list ids)
            (redact_fields e.secret_key e.scrub 16000 result);
    })
    audit incident_id "autonomous_action_executed"
    run_checks e now incident_id (λ _. if truthy (get "ok" result) then 3 else 0) checks

  unfoldable pub execute_autonomous : String → Fields → List String → M Action
  execute_autonomous tool arguments evidence = do
    registry ← lift e.registry
    (ids, checks) ← plan registry tool arguments evidence
    a ← insert_action tool arguments ids
    audit incident_id "autonomous_action_authorized"
    result ← catch (execute e tool arguments (some a)) (failed_write e)
    results ← inspect a ids checks result
    set_action a.id (λ b. record b {
      verification_status = outcome (all_passed results);
      result = insert "verification" (arr (verdicts results)) b.result;
    })
    audit incident_id "autonomous_action_verification"
    λ s. or_raise (find_action a.id s) (attribute_error "no such action") s
