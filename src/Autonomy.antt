-- ===== src/Autonomy.antt =====
-- `authorize` of backend/app/autonomy.py: whether one autonomous write may be dispatched. The tests
-- stand in the source's order, in one function for each group of them.
pub mod Targets
pub mod Evidence
pub mod Rules
pub mod Admitted
pub mod Shown
pub mod Granted
use home_ai_agent.Base.{
  ℕ, zero, suc, ◌+◌, ◌-◌, Bool, true, false, not, ◌&&◌, ◌||◌, Option, none, some, List, [], ◌∷◌,
  ◌++◌, String, ◌==◌, contains, string_eq, nat_eq, if◌then◌else◌, leb, ltb, select, any, last,
  length, is_empty, map, starts_with, ends_with, Result, ok, err, Error, value_error, type_error,
  attribute_error, guard, ◌>>=◌, ◌>>◌,
}
use home_ai_agent.Json.{
  Value, null, bool, str, arr, obj, Items, nil, cons, Fields, end, field, get, get_or, value_eq,
  fields_eq, is_true, is_false, is_str, int,
}
use home_ai_agent.Json.Number.{pos}
use home_ai_agent.Model.{Settings, Observation, Action}
use home_ai_agent.Gateway.{Registry, ToolEntry, is_write, validate_tool}
use Targets.{profile_targets}
use Evidence.{target_key, state_tool, names, hashable, authorize_evidence, last_state}
use Rules.{container_rules, service_rules}

module _ (schema_valid : Fields → Fields → Bool) (s : Settings) (registry : Registry) where
  -- `metadata.get('autonomous_targets', [target])`
  abbrev pub granted_by : ToolEntry → Value → Bool
  granted_by entry target = elim entry.autonomous_targets [
    | none ↦ true
    | some texts ↦ names texts target
  ]

  -- the deployment, the tool and its target
  unfoldable pub authorize_scope : String → String → Fields → Result Value
  authorize_scope service tool arguments = do
    guard (s.enable_write_actions && s.enable_autonomous_actions)
        (value_error "Autonomous writes are disabled")
    guard (is_write tool && not (starts_with tool "stop_")) (
        value_error "INSUFFICIENT_CAPABILITY: autonomous stop or unrestricted write is unavailable")
    metadata ← validate_tool schema_valid registry tool arguments true
    guard (granted_by metadata (get (target_key tool) arguments))
        (value_error "Gateway policy requires manual approval for this target and action")
    guard (hashable (get (target_key tool) arguments)) (type_error "unhashable type")
    guard (names (profile_targets s.topology service) (get (target_key tool) arguments))
        (value_error "Write target is outside this application topology")
    ok (get (target_key tool) arguments)

-- an earlier autonomous action on the target
unfoldable pub attempted : String → Value → Action → Bool
attempted key target a = value_eq (get key a.arguments) target && not a.requires_approval

unfoldable pub authorize_budget : Settings → String → Value → List Action → Result (Unit {0})
authorize_budget s key target actions = do
  guard (ltb (length actions) s.autonomous_max_actions_per_incident)
      (value_error "Autonomous action budget exhausted for this incident")
  guard (not (any (attempted key target) actions))
      (value_error "Autonomous target already attempted in this incident; no restart loop")

-- the rules for the kind of target that the tool acts on
unfoldable pub target_rules :
    (Value → String) → String → Value → List Observation → Fields → Result (Unit {0})
unfolding string_eq
target_rules str_of tool target evidence state =
    if target_key tool == "container"
    then container_rules str_of tool target evidence state
    else service_rules tool target evidence state

module _ (schema_valid : Fields → Fields → Bool) (str_of : Value → String) (s : Settings)
    (registry : Registry) where
  -- `actions` and `observations` are those of the incident, oldest first
  unfoldable pub authorize :
      String
      → List Action
      → List Observation
      → ℕ
      → String
      → Fields
      → List String
      → Result (List String)
  authorize service actions observations now tool arguments ids = do
    target ← authorize_scope schema_valid s registry service tool arguments
    authorize_budget s (target_key tool) target actions
    evidence ← authorize_evidence now observations ids
    state ← last_state tool target evidence
    target_rules str_of tool target evidence state
    ok (map (λ o. o.id) evidence)
