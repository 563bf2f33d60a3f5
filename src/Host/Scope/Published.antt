-- ===== src/Host/Scope/Published.antt =====
-- The policy that diagnostic_gateway/tools.py publishes in its metadata, and the scope of backend/app/autonomy.py
-- that relies on it.
use home_ai_agent.Base.{
  ◌≡◌, refl, Bool, true, Option, none, some, String, contains, select-In, contains-In, In-contains,
  string_eq, arith, ok,
}
use home_ai_agent.Json.{Value, str, Fields, field, end, get}
use home_ai_agent.Model.{Settings}
use home_ai_agent.Gateway.{Registry, ToolEntry, find_tool, lookup_tool, validate_tool}
use home_ai_agent.Autonomy.{authorize_scope, granted_by}
use home_ai_agent.Autonomy.Evidence.{names, target_key}
use home_ai_agent.Autonomy.Granted.{scope_steps}
use home_ai_agent.Autonomy.Admitted.{
  IsRecovery, start_container, restart_container, start_service, restart_service,
  is_write-IsRecovery,
}
use home_ai_agent.Host.Config.{GatewayConfig, Url, actions_for, is_action, validate_scopes}
use home_ai_agent.Host.Scope.{action_targets, autonomous_targets, validate_scope}
use home_ai_agent.Host.Scope.Granted.{validate_scope_iff}

scope_granted :
    (schema_valid : Fields → Fields → Bool) (s : Settings) (registry : Registry)
    (service tool : String) (arguments : Fields) (entry : ToolEntry) {v : Value}
    → find_tool registry tool ≡ some entry
    → authorize_scope schema_valid s registry service tool arguments ≡ ok v
    → granted_by schema_valid s registry entry (get (target_key tool) arguments) ≡ true
unfolding authorize_scope validate_tool lookup_tool
scope_granted schema_valid s registry service tool arguments entry found h = ground arith

recovery_action : {tool : String} → IsRecovery tool → is_action tool ≡ true
unfolding is_action
recovery_action start_container = refl
recovery_action restart_container = refl
recovery_action start_service = refl
recovery_action restart_service = refl

get-target :
    {tool : String}
    → IsRecovery tool
    → (v : Value) → get (target_key tool) (field (target_key tool) v end) ≡ v
unfolding target_key string_eq
get-target start_container v = refl
get-target restart_container v = refl
get-target start_service v = refl
get-target restart_service v = refl

-- If the registry holds for a tool the autonomous targets that a host with a validated configuration publishes,
-- then an autonomous write that the scope of the backend authorizes passes the scope check of that
-- host, and the host's policy grants that action autonomously to that target.
pub authorize_scope-granted :
    (is_identifier : String → Bool) (urlsplit : String → Option Url) (c : GatewayConfig)
    → validate_scopes is_identifier urlsplit c ≡ ok tt
    → (schema_valid : Fields → Fields → Bool) (s : Settings) (registry : Registry)
      (service tool target : String) (entry : ToolEntry) {v : Value}
    → find_tool registry tool ≡ some entry
    → entry.autonomous_targets ≡ some (autonomous_targets c tool)
    → authorize_scope schema_valid s registry service tool
        (field (target_key tool) (str target) end)
      ≡ ok v
    → (validate_scope c tool (field (target_key tool) (str target) end) ≡ none)
      × (contains (actions_for c.autonomous_actions target) tool ≡ true)
unfolding names autonomous_targets
authorize_scope-granted is_identifier urlsplit c valid schema_valid s registry service tool target
      entry found published h =
    let arguments : Fields = field (target_key tool) (str target) end in
    let (_, _, writes, running, _, _) =
      scope_steps schema_valid s registry service tool arguments h in
    let recovery = is_write-IsRecovery tool writes running in
    let named : contains (autonomous_targets c tool) target ≡ true =
      rw (published, get-target recovery (str target)) at
        (scope_granted schema_valid s registry service tool arguments entry found h) in
    let (open_target, granted) =
      select-In (λ t. contains (actions_for c.autonomous_actions t) tool) (action_targets c tool)
        (contains-In (autonomous_targets c tool) target named) in
    let admits =
      validate_scope_iff is_identifier urlsplit c valid tool target (recovery_action recovery) in
    (admits.1 (In-contains open_target), granted)
