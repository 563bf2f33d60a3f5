-- ===== src/Health.antt =====
-- backend/app/application_health.py: the checks of an application and of all that it depends on, and the status
-- that they give. The checks run one after another here; their times and encoded previews are left out.
pub mod Statuses
use home_ai_agent.Base.{
  ℕ, suc, Bool, true, false, not, ◌&&◌, Option, none, some, List, [], ◌∷◌, ◌++◌, String, ◌==◌,
  string_eq, select, any, all, map, length, is_empty, leb, Result, ok, err, Error, value_error,
  lookup_error, message, if◌then◌else◌,
}
use home_ai_agent.Json.{Value, str, bool, obj, Fields, end, field, get, get_or, truthy}
use home_ai_agent.Json.Matches.{matches}
use home_ai_agent.Topology.{Topology, CheckSpec, has_profile}
use home_ai_agent.Topology.Visit.{visit}
use home_ai_agent.Autonomy.Targets.{dependencies}
use home_ai_agent.Service.Checks.{own_checks}
use home_ai_agent.Service.Dispatch.{execute}
use home_ai_agent.Failures.{tool_failure_kind, kind_text}
use home_ai_agent.Safety.{redact, redact_text}
use home_ai_agent.Gateway.{validate_tool}
use home_ai_agent.Store.{Env, Store, M, ◌>>=◌, ◌>>◌, pure, lift, catch, require}

pub data Status : Type 0 where
  healthy unhealthy unknown not_checked : Status

abbrev pub is_unhealthy : Status → Bool
is_unhealthy unhealthy = true
is_unhealthy _ = false

abbrev pub is_unknown : Status → Bool
is_unknown unknown = true
is_unknown _ = false

-- one entry of `checks`
pub record CheckStatus : Type 0 where
  pub component : String
  pub status : Status

-- the names in the order of the walk, each once
unfoldable pub component_names : Topology → String → List String
component_names services application =
    (visit (dependencies services) (λ _. false) (λ name. name ∷ []) (λ _. [])
      (suc (length services)) application ([], [])).1

unfoldable pub health_plan : Topology → List String → List (String × CheckSpec)
health_plan services [] = []
health_plan services (name ∷ names) =
    map (λ c. (name, c)) (own_checks services name) ++ health_plan services names

unfoldable pub status_of : Bool → Bool → Status
status_of passed answered = if passed then healthy else if answered then unhealthy else unknown

-- the status of a component, from its own checks
unfoldable pub component_status : List CheckStatus → Status
component_status own =
    if is_empty own
    then not_checked
    else if any (λ c. is_unhealthy c.status) own
    then unhealthy
    else if any (λ c. is_unknown c.status) own
    then unknown
    else healthy

unfoldable pub own_of : String → List CheckStatus → List CheckStatus
unfolding string_eq
own_of name = select (λ c. c.component == name)

-- the status of the application, from its components
unfoldable pub application_status : List String → List CheckStatus → Status
application_status names checks =
    let components = map (λ name. component_status (own_of name checks)) names in
    if any is_unhealthy components
    then unhealthy
    else if any is_unknown components
    then unknown
    else healthy

module _ (e : Env) where
  abbrev failure : Error → Fields
  failure x = field "ok" (bool false) (
      field "result" (obj end) (
        field "error" (str (redact_text e.secret_key e.scrub 300 (message x)))
          (field "failure_kind" (str (kind_text (tool_failure_kind x))) end)))

  unfoldable pub run_one : String × CheckSpec → M CheckStatus
  run_one (name, c) = do
    envelope ← catch (execute e c.tool c.arguments none) failure
    let result = redact e.secret_key e.scrub 1000 (get_or "result" (obj end) envelope)
    let answered = truthy (get "ok" envelope)
    pure (record {
      component = name;
      status = status_of (answered && matches result c.expect) answered;
    })

  unfoldable pub run_plan : List (String × CheckSpec) → M (List CheckStatus)
  run_plan [] = pure []
  run_plan (p ∷ ps) = do c ← run_one p; cs ← run_plan ps; pure (c ∷ cs)

  unfoldable pub check_application_health : String → M (Status × List CheckStatus)
  check_application_health application = do
    let services = e.settings.topology
    require (has_profile services application && not (is_empty (own_checks services application)))
        (value_error "Application has no configured health checks")
    registry ← lift e.registry
    let names = component_names services application
    require (all (has_profile services) names) (lookup_error "undefined dependency")
    let plan = health_plan services names
    require (leb (length plan) 24)
        (value_error "Application health plan exceeds 24 configured checks")
    checks ← run_plan plan
    pure (application_status names checks, checks)
