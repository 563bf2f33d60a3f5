-- ===== src/Host/Config.antt =====
-- `GatewayConfig` of diagnostic_gateway/config.py: the scopes that the administrator of the host sets, and their
-- validation. The patterns for identifiers and `urlsplit` are parameters; the length limits of
-- the fields and the rewriting of DNS names are left out. Percentages are in thousandths.
use Prim.Native.String.{count}
use home_ai_agent.Base.{
  ℕ, Bool, not, ◌&&◌, ◌||◌, Option, none, some, List, [], ◌∷◌, ◌++◌, String, ◌==◌, string_eq,
  nat_eq, contains, any, all, map, length, is_empty, starts_with, ends_with, codes, ltb, leb,
  Result, ok, err, value_error, guard, ◌>>◌, if◌then◌else◌,
}
use Prim.Native.String.{◌++◌ as ◌<>◌}
use home_ai_agent.Json.Number.{ℤ, pos}
use home_ai_agent.Autonomy.Evidence.{distinct}
use home_ai_agent.Safety.{less, Severity, critical, high, warning, normal}

pub record ContainerHttp : Type 0 where
  pub container : String
  pub port : ℕ
  pub path : String
  pub network : Option String

pub record TcpAddress : Type 0 where
  pub host : String
  pub port : ℕ

pub record AtlasSeed : Type 0 where
  pub seed : String
  pub shard_hostname_suffix : String
  pub port : ℕ

pub record GatewayConfig : Type 0 where
  pub containers : List String
  pub services : List String
  pub hosts : List String
  pub http_urls : List String
  pub container_http : List (String × ContainerHttp)
  pub tcp_targets : List TcpAddress
  pub atlas_seeds : List AtlasSeed
  pub disk_paths : List String
  pub write_containers : List String
  pub write_services : List String
  pub allowed_actions : List (String × List String)
  pub autonomous_actions : List (String × List String)
  pub writes_enabled : Bool

-- what `urlsplit` reads; a malformed port is an exception
pub record Url : Type 0 where
  pub scheme : String
  pub hostname : String
  pub has_credentials : Bool
  pub has_fragment : Bool

-- `policy.get(target, [])`
unfoldable pub actions_for : List (String × List String) → String → List String
unfolding string_eq
actions_for [] target = []
actions_for ((k, actions) ∷ rest) target = if target == k then actions else actions_for rest target

-- `set(xs).issubset(ys)`
abbrev pub is_subset : List String → List String → Bool
is_subset xs ys = all (contains ys) xs

unfoldable pub is_unique : List String → Bool
unfolding distinct nat_eq
is_unique xs = length xs == length (distinct xs)

unfoldable pub safe_path : String → Bool
unfolding codes nat_eq
safe_path value =
    starts_with value "/"
    && not (starts_with value "//")
    && not (any (λ c. c == 13 || c == 10) (codes value))

unfoldable pub validate_seed_boundary : AtlasSeed → Bool
unfolding string_eq ends_with
validate_seed_boundary a =
    not (a.seed == a.shard_hostname_suffix) && ends_with a.seed ("." <> a.shard_hostname_suffix)

abbrev host_characters : String
host_characters = "abcdefghijklmnopqrstuvwxyzABCDEFGHIJKLMNOPQRSTUVWXYZ0123456789.-:"

unfoldable pub is_host : String → Bool
unfolding string_eq nat_eq codes
is_host host =
    not (host == "") && leb (count host) 253 && all (contains (codes host_characters)) (codes host)

unfoldable pub is_action : String → Bool
unfolding string_eq
is_action = contains (
    "start_container" ∷ "restart_container" ∷ "stop_container" ∷ "start_service" ∷ "restart_service"
    ∷ "stop_service" ∷ [])

-- the targets that no policy may write
unfoldable pub is_protected : String → Bool
unfolding string_eq
is_protected = contains ("docker" ∷ "ssh" ∷ "sshd" ∷ "tailscaled" ∷ [])

module _ (c : GatewayConfig) where
  abbrev pub category_of : String → String
  category_of target = if contains c.write_containers target then "_container" else "_service"

  -- one entry of `allowed_actions`
  unfoldable pub check_allowed : String × List String → Result (Unit {0})
  unfolding string_eq
  check_allowed (target, actions) = do
    guard
        (contains (c.write_containers ++ c.write_services) target
          && not (is_empty actions)
          && is_unique actions)
        (value_error "Action policy target must be a unique configured write target")
    guard (all (λ a. is_action a && ends_with a (category_of target)) actions)
        (value_error "Action policy contains an invalid tool for its target")
    guard
        (not (is_protected target || (target == "cloudflared" && contains actions "stop_service")))
        (value_error "Action policy grants a protected host operation")

  -- one entry of `autonomous_actions`
  unfoldable pub check_autonomous : String × List String → Result (Unit {0})
  check_autonomous (target, actions) =
      guard
        (not (is_empty actions)
          && is_subset actions (actions_for c.allowed_actions target)
          && not (any (λ a. starts_with a "stop_") actions))
        (value_error "Autonomous action must be an allowed start or restart")

  unfoldable pub check_url : (String → Option Url) → String → Result (Unit {0})
  unfolding string_eq codes
  check_url urlsplit url = elim (urlsplit url) [
    | none ↦ err (value_error "Port could not be cast to integer value")
    | some u ↦
        guard
          ((u.scheme == "http" || u.scheme == "https")
            && not (u.hostname == "")
            && not u.has_credentials
            && not u.has_fragment
            && not (any (λ x. ltb x 32) (codes url)))
          (value_error "Configured HTTP URL is unsafe")
        >> guard (contains c.hosts u.hostname)
            (value_error "HTTP hosts must be included in hosts allowlist")
  ]

unfoldable pub check_each {ℓ} : {A : Type ℓ} → (A → Result (Unit {0})) → List A → Result (Unit {0})
check_each check [] = ok tt
check_each check (x ∷ xs) = do check x; check_each check xs

unfoldable pub validate_scopes :
    (String → Bool) → (String → Option Url) → GatewayConfig → Result (Unit {0})
unfolding string_eq
validate_scopes is_identifier urlsplit c = do
  guard
      (all is_identifier (((c.containers ++ c.services) ++ c.write_containers) ++ c.write_services))
      (value_error "Unsafe container or service identifier")
  guard (all is_host (c.hosts ++ map (λ t. t.host) c.tcp_targets))
      (value_error "Unsafe configured host")
  guard (is_unique (map (λ a. a.seed) c.atlas_seeds))
      (value_error "Atlas seed allowlist entries must be unique")
  guard (is_subset c.write_containers c.containers && is_subset c.write_services c.services)
      (value_error "Write targets must be included in the diagnostic allowlist")
  check_each (check_allowed c) c.allowed_actions
  check_each (check_autonomous c) c.autonomous_actions
  guard (all (λ h. contains c.containers h.1.container) c.container_http)
      (value_error "Container HTTP target must be allowlisted")
  check_each (check_url c urlsplit) c.http_urls
  guard (all (λ p. starts_with p "/") c.disk_paths) (value_error "Disk paths must be absolute")

-- 80 to below 90 percent is a warning, 90 to 95 is high, above 95 is critical
unfoldable pub utilization_severity : ℤ → Severity
utilization_severity percent =
    if less (pos 95000) percent
    then critical
    else if not (less percent (pos 90000))
    then high
    else if not (less percent (pos 80000))
    then warning
    else normal
