-- ===== src/Service/Checks.antt =====
-- `verification_checks` of backend/app/service.py: the recovery checks of a service and of all that it
-- depends on, narrowed for a deliberate stop.
pub mod Complete
use home_ai_agent.Base.{
  ℕ, suc, ◌≡◌, refl, Bool, true, false, not, ◌&&◌, ◌||◌, Option, none, some, List, [], ◌∷◌, String,
  ◌==◌, string_eq, select, is_empty, length, starts_with, Result, ok, err, value_error, guard,
  ◌>>=◌, ◌>>◌, if◌then◌else◌,
}
use home_ai_agent.Json.{Value, bool, str, obj, Fields, end, field, get, value_eq}
use home_ai_agent.Json.Same.{same}
use home_ai_agent.Topology.{Topology, CheckSpec, profile, has_profile}
use home_ai_agent.Topology.Visit.{visit}
use home_ai_agent.Model.{Action}
use home_ai_agent.Autonomy.Targets.{dependencies}
use home_ai_agent.Autonomy.Evidence.{target_key, state_tool}

abbrev pub own_checks : Topology → String → List CheckSpec
own_checks services name = (profile services name).health_checks

-- the nested `visit`, which asks the dependencies first
unfoldable pub visit_checks : Topology → String → List CheckSpec
visit_checks services service =
    (visit (dependencies services) (λ _. false) (λ _. []) (own_checks services)
      (suc (length services)) service ([], [])).1

unfoldable pub same_check : CheckSpec → CheckSpec → Bool
unfolding string_eq same
same_check c d =
    (c.tool == d.tool && same (obj c.arguments) (obj d.arguments))
    && same (obj c.expect) (obj d.expect)

-- one check for each dump, where it came first
unfoldable pub unique : List CheckSpec → List CheckSpec
unique [] = []
unique (c ∷ cs) = c ∷ select (λ d. not (same_check c d)) (unique cs)

-- `c.arguments.get(key) == target` and the tool that reads the state
unfoldable pub checks_target : Action → CheckSpec → Bool
checks_target a c =
    value_eq (get (target_key a.tool_name) c.arguments) (get (target_key a.tool_name) a.arguments)
    && c.tool == state_tool a.tool_name

-- what a deliberate stop has to show
unfoldable pub stopped_state : String → Fields
unfolding string_eq
stopped_state key =
    if key == "container"
    then field "state.running" (bool false) end
    else field "state" (str "inactive") end

unfoldable pub for_action : Action → List CheckSpec → Result (List CheckSpec)
for_action a checks = elim (select (checks_target a) checks) [
  | [] ↦ err (value_error "No configured health check verifies the remediation target")
  | c ∷ _ ↦
      if starts_with a.tool_name "stop_"
      then ok (record c { expect = stopped_state (target_key a.tool_name) } ∷ [])
      else ok (unique checks)
]

unfoldable pub verification_checks : Topology → String → Option Action → Result (List CheckSpec)
verification_checks services service action = do
  guard (has_profile services service)
      (value_error "No configured service profile; recovery cannot be verified")
  guard (not (is_empty (own_checks services service)))
      (value_error "Affected service has no configured health checks; recovery cannot be verified")
  elim action [
    | none ↦ ok (unique (visit_checks services service))
    | some a ↦ for_action a (visit_checks services service)
  ]
