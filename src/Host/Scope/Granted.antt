-- ===== src/Host/Scope/Granted.antt =====
-- What a validated configuration of the host grants (diagnostic_gateway/config.py and tools.py).
use home_ai_agent.Base.{
  ◌≡◌, refl, ap, ite, ◌↔◌, Bool, true, false, ◌&&◌, Option, none, List, [], ◌∷◌, ◌++◌, String, ◌==◌,
  string_eq, contains, any, all, select-In, In, head, tail, In-cases, contains-In, All-In,
  not_In-nil, ends_with, starts_with, if◌then◌else◌, inl, inr, arith, Result, ok,
}
use home_ai_agent.Json.{str, field, end}
use home_ai_agent.Autonomy.Evidence.{names, target_key}
use home_ai_agent.Json.Number.{ℤ, pos}
use home_ai_agent.Safety.{disk_severity}
use home_ai_agent.Host.Server.{Failure}
use home_ai_agent.Host.Config.{
  GatewayConfig, Url, actions_for, is_protected, is_action, category_of, check_allowed,
  check_autonomous, check_each, validate_scopes, utilization_severity,
}
use home_ai_agent.Host.Scope.{
  and_then, is_container_write, is_service_write, is_blocked, require, action_targets,
  container_scope, service_scope, atlas_scope, port_scope, validate_scope,
}

module _ {A : Type 0} (check : A → Result (Unit {0})) where
  check_each-In : (xs : List A) {x : A} → check_each check xs ≡ ok tt → In x xs → check x ≡ ok tt
  unfolding check_each
  check_each-In [] h i = absurd (not_In-nil i)
  check_each-In (y ∷ ys) {x} h i = elim (In-cases i) [
    | inl same ↦ rw same (ground arith)
    | inr later ↦ check_each-In ys (ground arith) later
  ]

actions_for-In :
    (policy : List (String × List String)) (target tool : String)
    → contains (actions_for policy target) tool ≡ true
    → In (target, actions_for policy target) policy
unfolding actions_for
actions_for-In [] target tool h = absurd (cc)
actions_for-In ((k, actions) ∷ rest) target tool h =
    elim (string_eq.dec target k)
        as (λ d.
          (contains (if ite d true false then actions else actions_for rest target) tool ≡ true)
          → In (target, if ite d true false then actions else actions_for rest target)
              ((k, actions) ∷ rest)) [
                | yes y ↦ λ g. head (ap (λ t. (t, actions)) y)
                | no n ↦ λ g. tail (actions_for-In rest target tool g)
              ]
      h

all_at {ℓ} :
    {A : Type ℓ} (p : A → Bool) (xs : List A) {x : A} → all p xs ≡ true → In x xs → p x ≡ true
all_at p [] h i = absurd (not_In-nil i)
all_at p (y ∷ ys) h i = elim (In-cases i) [
  | inl same ↦ rw same (ground arith)
  | inr later ↦ all_at p ys (ground arith) later
]

none_at {ℓ} :
    {A : Type ℓ} (p : A → Bool) (xs : List A) {x : A} → any p xs ≡ false → In x xs → p x ≡ false
none_at p [] h i = absurd (not_In-nil i)
none_at p (y ∷ ys) h i = elim (In-cases i) [
  | inl same ↦ rw same (ground arith)
  | inr later ↦ none_at p ys (ground arith) later
]

autonomous_steps :
    (c : GatewayConfig) (target tool : String) (actions : List String)
    → check_autonomous c (target, actions) ≡ ok tt
    → contains actions tool ≡ true
    → (contains (actions_for c.allowed_actions target) tool ≡ true)
      × (starts_with tool "stop_" ≡ false)
unfolding check_autonomous
autonomous_steps c target tool actions h given =
    let i = contains-In actions tool given in
    (
      all_at (contains (actions_for c.allowed_actions target)) actions (ground arith) i,
      none_at (λ a. starts_with a "stop_") actions (ground arith) i,
    )

by_action :
    (P : String → Type 0) {tool : String}
    → P "start_container"
    → P "restart_container"
    → P "stop_container"
    → P "start_service"
    → P "restart_service"
    → P "stop_service"
    → In tool (
        "start_container" ∷ "restart_container" ∷ "stop_container" ∷ "start_service"
        ∷ "restart_service" ∷ "stop_service" ∷ [])
    → P tool
by_action P c1 c2 c3 s1 s2 s3 i = All-In P (c1, (c2, (c3, (s1, (s2, (s3, tt)))))) i

-- what one checked entry says of each of its actions
module _ (c : GatewayConfig) (target tool : String) (actions : List String)
    (checked : check_allowed c (target, actions) ≡ ok tt)
    (given : contains actions tool ≡ true) where
  entry_steps :
      (contains (c.write_containers ++ c.write_services) target ≡ true)
      × (is_protected target ≡ false)
      × (all (λ a. is_action a && ends_with a (category_of c target)) actions ≡ true)
      × ((target == "cloudflared" && contains actions "stop_service") ≡ false)
  unfolding check_allowed
  entry_steps = (ground arith, ground arith, ground arith, ground arith)

  entry_action : (is_action tool ≡ true) × (ends_with tool (category_of c target) ≡ true)
  entry_action =
      let (_, _, a, _) = entry_steps in
      let b : (is_action tool && ends_with tool (category_of c target)) ≡ true =
        all_at (λ a. is_action a && ends_with a (category_of c target)) actions a
          (contains-In actions tool given) in
      (ground arith, ground arith)

  entry_not_blocked : is_blocked tool target ≡ false
  unfolding is_blocked
  entry_not_blocked =
      let (_, p, _, k) = entry_steps in
      elim (string_eq.dec tool "stop_service") [
        | yes y ↦ let z : contains actions "stop_service" ≡ true = rw y at given in ground arith
        | no n ↦ ground arith
      ]

module _ (is_identifier : String → Bool) (urlsplit : String → Option Url) (c : GatewayConfig)
    (valid : validate_scopes is_identifier urlsplit c ≡ ok tt) where
  entries_checked :
      (check_each (check_allowed c) c.allowed_actions ≡ ok tt)
      × (check_each (check_autonomous c) c.autonomous_actions ≡ ok tt)
  unfolding validate_scopes
  entries_checked = (ground arith, ground arith)

  -- In a validated configuration, an action that a policy grants autonomously is one of the six writes but no
  -- stop, it is granted to its target also with approval, and the target is a write target of that
  -- category and no protected service.
  pub validate_scopes-granted :
      (target tool : String)
      → contains (actions_for c.autonomous_actions target) tool ≡ true
      → (contains (actions_for c.allowed_actions target) tool ≡ true)
        × (starts_with tool "stop_" ≡ false)
        × (is_action tool ≡ true)
        × (ends_with tool (category_of c target) ≡ true)
        × (contains (c.write_containers ++ c.write_services) target ≡ true)
        × (is_protected target ≡ false)
        × (is_blocked tool target ≡ false)
  validate_scopes-granted target tool given =
      let (allowed_ok, autonomous_ok) = entries_checked in
      let entry =
        check_each-In (check_autonomous c) c.autonomous_actions autonomous_ok
          (actions_for-In c.autonomous_actions target tool given) in
      let (within, running) =
        autonomous_steps c target tool (actions_for c.autonomous_actions target) entry given in
      let granted =
        check_each-In (check_allowed c) c.allowed_actions allowed_ok
          (actions_for-In c.allowed_actions target tool within) in
      let (named, open_, _, _) =
        entry_steps c target tool (actions_for c.allowed_actions target) granted within in
      let (act, category) =
        entry_action c target tool (actions_for c.allowed_actions target) granted within in
      (
        within,
        running,
        act,
        category,
        named,
        open_,
        entry_not_blocked c target tool (actions_for c.allowed_actions target) granted within,
      )

  -- a write target of the tool is not blocked for it
  target_not_blocked :
      (tool target : String)
      → contains (action_targets c tool) target ≡ true
      → is_blocked tool target ≡ false
  unfolding action_targets
  target_not_blocked tool target given =
      let (allowed_ok, _) = entries_checked in
      let (_, within) =
        select-In (λ t. contains (actions_for c.allowed_actions t) tool) _
          (contains-In (action_targets c tool) target given) in
      entry_not_blocked c target tool (actions_for c.allowed_actions target)
        (check_each-In (check_allowed c) c.allowed_actions allowed_ok
          (actions_for-In c.allowed_actions target tool within))
        within

  abbrev Admits : String → String → Option Failure → Type 0
  Admits tool target outcome = (outcome ≡ none) ↔ (contains (action_targets c tool) target ≡ true)

  container_scope_iff :
      (tool target : String)
      → is_container_write tool ≡ true
      → Admits tool target (and_then (container_scope c tool (str target)) none)
  unfolding container_scope require names
  container_scope_iff tool target w = (λ h. ground arith, λ h. ground arith)

  service_scope_iff :
      (tool target : String)
      → is_service_write tool ≡ true
      → Admits tool target (and_then (service_scope c tool (str target)) none)
  unfolding service_scope require names
  service_scope_iff tool target w =
      (λ h. ground arith, λ h. let b = target_not_blocked tool target h in ground arith)

  abbrev on_target : String → String → Option Failure
  on_target tool target = validate_scope c tool (field (target_key tool) (str target) end)

  container_writes_iff :
      (target : String)
      → Admits "start_container" target (on_target "start_container" target)
        × Admits "restart_container" target (on_target "restart_container" target)
        × Admits "stop_container" target (on_target "stop_container" target)
  unfolding validate_scope target_key ends_with string_eq is_container_write atlas_scope port_scope
  container_writes_iff target = (
    container_scope_iff "start_container" target refl,
    container_scope_iff "restart_container" target refl,
    container_scope_iff "stop_container" target refl,
  )

  service_writes_iff :
      (target : String)
      → Admits "start_service" target (on_target "start_service" target)
        × Admits "restart_service" target (on_target "restart_service" target)
        × Admits "stop_service" target (on_target "stop_service" target)
  unfolding validate_scope target_key ends_with string_eq is_service_write atlas_scope port_scope
  service_writes_iff target = (
    service_scope_iff "start_service" target refl,
    service_scope_iff "restart_service" target refl,
    service_scope_iff "stop_service" target refl,
  )

  -- In a validated configuration, the scope check of a write lets exactly the targets through that its policy
  -- names, which are those of the tool's kind that are open to writes; the separate test for protected
  -- services then never refuses one of them.
  pub validate_scope_iff :
      (tool target : String)
      → is_action tool ≡ true
      → (validate_scope c tool (field (target_key tool) (str target) end) ≡ none)
        ↔ (contains (action_targets c tool) target ≡ true)
  unfolding is_action
  validate_scope_iff tool target act =
      let (c1, c2, c3) = container_writes_iff target in
      let (s1, s2, s3) = service_writes_iff target in
      by_action (λ t. Admits t target (on_target t target)) c1 c2 c3 s1 s2 s3
        (contains-In _ tool act)

-- The severity that the host reports for a percentage is the one that the backend computes with its default
-- thresholds of 80, 90 and 95 percent.
pub utilization_severity-agrees :
    (percent : ℤ)
    → utilization_severity percent ≡ disk_severity percent (pos 80000) (pos 90000) (pos 95000)
unfolding utilization_severity disk_severity
utilization_severity-agrees percent = refl
