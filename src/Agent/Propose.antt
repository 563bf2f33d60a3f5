-- ===== src/Agent/Propose.antt =====
-- `propose_action` of backend/app/agent.py with its preconditions: a write waits for the operator's approval
-- only after the state of its exact target was observed. Reasons and times of update are left out.
use home_ai_agent.Base.{
  ℕ, suc, ◌+◌, Bool, true, false, not, ◌&&◌, ◌||◌, none, some, List, [], ◌∷◌, ◌++◌, String, ◌==◌,
  string_eq, select, find, last, is_empty, Result, ok, err, value_error, attribute_error,
  if◌then◌else◌,
}
use home_ai_agent.Json.{
  Value, null, bool, str, obj, Fields, end, field, get, is_true, is_false, is_str, truthy,
  fields_eq,
}
use home_ai_agent.Model.{waiting_for_approval, Observation, Action, pending, not_run}
use home_ai_agent.Gateway.{Registry, is_write, validate_tool}
use home_ai_agent.Autonomy.Evidence.{target_key, state_tool}
use home_ai_agent.Service.Dispatch.{evidence_ids}
use home_ai_agent.Service.Verify.{is_pending}
use home_ai_agent.Store.{
  Env, M, ◌>>=◌, ◌>>◌, gets, lift, require, or_raise, find_incident, observations_of, actions_of,
  set_incident,
}

-- `_container_running`
unfoldable pub container_running : Fields → Value
unfolding string_eq
container_running state = elim (get "state" state) [
  | obj details ↦ get "running" details
  | str text ↦ bool (text == "running")
  | _ ↦ null
]

-- `unhealthy` of a container's state
unfoldable pub is_sick : Fields → Bool
unfolding string_eq
is_sick state =
    is_str "unhealthy" (get "health" state)
    || (elim (get "state" state) [ obj details ↦ truthy (get "restarting" details) | _ ↦ false ])

unfoldable pub check_container : String → Fields → Result (Unit {0})
unfolding string_eq
check_container tool state =
    if tool == "start_container" && not (is_false (container_running state))
    then err (value_error "Start proposal requires evidence that the container is stopped")
    else if tool == "restart_container" && not (is_true (container_running state) && is_sick state)
    then err (
        value_error
          "Restart proposal requires evidence that the container is running and unhealthy")
    else ok tt

unfoldable pub check_service : String → Fields → Result (Unit {0})
unfolding string_eq
check_service tool state =
    if tool == "start_service"
      && not (is_str "inactive" (get "state" state) || is_str "failed" (get "state" state))
    then err (value_error "Start proposal requires inactive or failed service evidence")
    else if tool == "restart_service" && not (is_str "active" (get "state" state))
    then err (value_error "Restart proposal requires active service evidence")
    else ok tt

-- a successful observation of exactly the target
unfoldable pub shows_target : String → Fields → Observation → Bool
unfolding string_eq
shows_target tool arguments o =
    o.tool_name == state_tool tool
    && fields_eq o.tool_arguments (field (target_key tool) (get (target_key tool) arguments) end)
    && is_true (get "ok" o.raw_result)

unfoldable pub preconditions : String → Fields → List Observation → Result (Unit {0})
unfolding string_eq
preconditions tool arguments observations =
    elim (last (select (shows_target tool arguments) observations)) [
      | none ↦ err (
          value_error
            "A successful exact-target state observation is required before proposing recovery")
      | some o ↦
          if target_key tool == "container"
          then check_container tool o.normalized_result
          else check_service tool o.normalized_result
    ]

-- the same write, still pending
unfoldable pub is_same_proposal : String → Fields → Action → Bool
unfolding string_eq
is_same_proposal tool arguments a =
    a.tool_name == tool && fields_eq a.arguments arguments && is_pending a.approval_status

module _ (e : Env) (now : ℕ) (incident_id : String) where
  abbrev pub proposal : String → String → Fields → Action
  proposal id tool arguments = record {
    id = id;
    incident_id = incident_id;
    tool_name = tool;
    arguments = arguments;
    requires_approval = true;
    approval_status = pending;
    approved_at = none;
    executed_at = none;
    expires_at = now + e.settings.approval_ttl_seconds;
    result = end;
    verification_status = not_run;
  }

  -- the new action, and its incident waits for approval
  unfoldable pub add_proposal : String → Fields → M String
  add_proposal tool arguments s =
      let id = e.uuid s.issued in
      (
        ok id,
        (set_incident incident_id (λ i. record i { status = waiting_for_approval })
            (record s {
              actions = s.actions ++ (proposal id tool arguments ∷ []);
              issued = suc s.issued;
            })).1,
      )

  -- a pending proposal of the same write is returned instead of a second one
  unfoldable pub reuse_or_add : String → Fields → M String
  reuse_or_add tool arguments s =
      elim (find (is_same_proposal tool arguments) (actions_of incident_id s)) [
        | some a ↦ (ok a.id, s)
        | none ↦ add_proposal tool arguments s
      ]

  unfoldable pub propose_action : Registry → String → Fields → M String
  propose_action registry tool arguments = do
    require e.settings.enable_write_actions
        (value_error "Remediation tools are disabled in this deployment")
    entry ← lift (validate_tool e.schema_valid registry tool arguments true)
    require (is_write tool) (value_error "Only low-risk write tools can become approval actions")
    observations ← gets (observations_of incident_id)
    lift (preconditions tool arguments observations)
    incident ← λ s. or_raise (find_incident incident_id s) (attribute_error "no such incident") s
    require (not (is_empty (evidence_ids incident.report)))
        (value_error "An evidence-backed diagnosis is required before proposing writes")
    reuse_or_add tool arguments
