-- ===== src/Tests/Gateway.antt =====
-- A configuration of the host (diagnostic_gateway/config.py), and runs of its tools.
use home_ai_agent.Base.{
  ◌≡◌, ◌≤◌, ◌+◌, ◌↔◌, refl, ℕ, Bool, true, false, Option, none, some, List, [], ◌∷◌, ◌++◌, String,
  ok, string_eq, nat_eq, arith, length, contains, starts_with, ends_with, codes,
}
use home_ai_agent.Json.{str, obj, end, field}
use home_ai_agent.Json.Number.{pos}
use home_ai_agent.Autonomy.Evidence.{target_key, distinct}
use home_ai_agent.Safety.{disk_severity}
use home_ai_agent.Host.Config.{
  GatewayConfig, Url, actions_for, is_action, is_protected, category_of, check_allowed,
  check_autonomous, check_each, check_url, validate_scopes, is_unique, is_host,
  utilization_severity,
}
use home_ai_agent.Gateway.{
  Registry, ToolEntry, find_tool, lookup_tool, check_risk, check_schema, is_read, is_write,
  validate_tool,
}
use home_ai_agent.Autonomy.{authorize_scope}
use home_ai_agent.Autonomy.Targets.{profile_targets}
use home_ai_agent.Topology.Visit.{visit}
use home_ai_agent.Autonomy.Evidence.{names}
use home_ai_agent.Tests.Autonomous.{settings, accepts_all}
use home_ai_agent.Host.Scope.Published.{authorize_scope-granted}
use home_ai_agent.Host.Scope.{action_targets, autonomous_targets, is_blocked, validate_scope}
use home_ai_agent.Host.Scope.Granted.{
  validate_scopes-granted, validate_scope_iff, utilization_severity-agrees,
}
use home_ai_agent.Host.Exec.{Machine, nothing_read, read_pipes, read_pipes-bounds}
use home_ai_agent.Host.Operations.{
  inspect_command, show_command, restart_container, start_container, stop_container,
  restart_service, start_service, stop_service,
}
use home_ai_agent.Host.Operations.Started.{Began, write_container-Began, write_service-Began}

abbrev config : GatewayConfig
config = record {
  containers = "sandbox" ∷ "api" ∷ [];
  services = "docker" ∷ "cloudflared" ∷ [];
  hosts = "localhost" ∷ [];
  http_urls = "http://localhost" ∷ [];
  container_http = [];
  tcp_targets = [];
  atlas_seeds = [];
  disk_paths = "/" ∷ [];
  write_containers = "sandbox" ∷ [];
  write_services = "cloudflared" ∷ [];
  allowed_actions =
      ("sandbox", "start_container" ∷ "stop_container" ∷ [])
      ∷ ("cloudflared", "restart_service" ∷ [])
      ∷ [];
  autonomous_actions = ("sandbox", "start_container" ∷ []) ∷ [];
  writes_enabled = true;
}

abbrev any_identifier : String → Bool
any_identifier s = true

abbrev split : String → Option Url
split s = some (record {
  scheme = "http";
  hostname = "localhost";
  has_credentials = false;
  has_fragment = false;
})

valid : validate_scopes any_identifier split config ≡ ok tt
unfolding validate_scopes string_eq nat_eq check_each check_allowed check_autonomous check_url
    is_unique is_host distinct codes is_action is_protected ends_with actions_for
valid = refl

validate_scopes-granted_example :
    (contains (actions_for config.allowed_actions "sandbox") "start_container" ≡ true)
    × (starts_with "start_container" "stop_" ≡ false)
    × (is_action "start_container" ≡ true)
    × (ends_with "start_container" (category_of config "sandbox") ≡ true)
    × (contains (config.write_containers ++ config.write_services) "sandbox" ≡ true)
    × (is_protected "sandbox" ≡ false)
    × (is_blocked "start_container" "sandbox" ≡ false)
unfolding actions_for
validate_scopes-granted_example =
    validate_scopes-granted any_identifier split config valid "sandbox" "start_container" granted
  where
    granted : contains (actions_for config.autonomous_actions "sandbox") "start_container" ≡ true
    granted = refl

validate_scope_iff_example :
    (validate_scope config "restart_service"
        (field (target_key "restart_service") (str "cloudflared") end)
      ≡ none)
    ↔ (contains (action_targets config "restart_service") "cloudflared" ≡ true)
unfolding is_action
validate_scope_iff_example =
    validate_scope_iff any_identifier split config valid "restart_service" "cloudflared" act
  where
    act : is_action "restart_service" ≡ true
    act = refl

utilization_severity-agrees_example :
    utilization_severity (pos 91500) ≡ disk_severity (pos 91500) (pos 80000) (pos 90000) (pos 95000)
utilization_severity-agrees_example = utilization_severity-agrees (pos 91500)

abbrev machine : Machine
machine = record {
  has_binary = λ s. true;
  child = λ l argv. some (record { reads = []; exited = 0 });
  decode = λ bs. "";
  redact_text = λ s. s;
  loads = λ s. some (obj (field "name" (str "/sandbox") end));
  splitlines = λ s. [];
  strip = λ s. s;
  lstrip_slash = λ s. s;
  partition = λ s. none;
  show = λ n. "100";
  max_output_bytes = 4096;
}

write_container-Began_example :
    Began machine config config.write_containers "sandbox"
      (("docker" ∷ "container" ∷ "restart" ∷ "--time" ∷ "5" ∷ "--" ∷ "sandbox" ∷ [])
        ∷ inspect_command "sandbox"
        ∷ [])
      []
      (restart_container machine config "sandbox" [])
    × Began machine config config.write_containers "sandbox"
        (("docker" ∷ "container" ∷ "start" ∷ "--" ∷ "sandbox" ∷ [])
          ∷ inspect_command "sandbox"
          ∷ [])
        []
        (start_container machine config "sandbox" [])
    × Began machine config config.write_containers "sandbox"
        (("docker" ∷ "container" ∷ "stop" ∷ "--time" ∷ "5" ∷ "--" ∷ "sandbox" ∷ [])
          ∷ inspect_command "sandbox"
          ∷ [])
        []
        (stop_container machine config "sandbox" [])
write_container-Began_example = write_container-Began machine config "sandbox" []

write_service-Began_example :
    Began machine config config.write_services "cloudflared"
      (("systemctl" ∷ "--no-ask-password" ∷ "restart" ∷ "--" ∷ "cloudflared" ∷ [])
        ∷ show_command "cloudflared"
        ∷ [])
      []
      (restart_service machine config "cloudflared" [])
    × Began machine config config.write_services "cloudflared"
        (("systemctl" ∷ "--no-ask-password" ∷ "start" ∷ "--" ∷ "cloudflared" ∷ [])
          ∷ show_command "cloudflared"
          ∷ [])
        []
        (start_service machine config "cloudflared" [])
    × Began machine config config.write_services "cloudflared"
        (("systemctl" ∷ "--no-ask-password" ∷ "stop" ∷ "--" ∷ "cloudflared" ∷ [])
          ∷ show_command "cloudflared"
          ∷ [])
        []
        (stop_service machine config "cloudflared" [])
write_service-Began_example = write_service-Began machine config "cloudflared" []

abbrev chunks : List (Bool × List ℕ)
chunks = (true, 104 ∷ 105 ∷ []) ∷ (false, 33 ∷ 33 ∷ 33 ∷ []) ∷ []

read_pipes-bounds_example :
    (length (read_pipes 4 chunks nothing_read).stdout
        + length (read_pipes 4 chunks nothing_read).stderr
      ≡ (read_pipes 4 chunks nothing_read).size)
    × ((read_pipes 4 chunks nothing_read).size ≤ 4)
read_pipes-bounds_example = read_pipes-bounds 4 chunks nothing_read refl fits
  where
    fits : 0 ≤ 4
    fits = omega arith

abbrev published_entry : ToolEntry
unfolding autonomous_targets action_targets
published_entry = record {
  risk_level = some "LOW_RISK_WRITE";
  parameters = field "type" (str "object") end;
  autonomous_targets = some (autonomous_targets config "start_container");
}

abbrev published : Registry
published = ("start_container", published_entry) ∷ []

scope_authorized :
    authorize_scope accepts_all settings published "codeduel" "start_container"
      (field (target_key "start_container") (str "sandbox") end)
    ≡ ok (str "sandbox")
unfolding authorize_scope validate_tool lookup_tool check_risk check_schema is_read is_write
    string_eq target_key names profile_targets visit actions_for autonomous_targets action_targets
    ends_with published_entry
scope_authorized = refl

authorize_scope-granted_example :
    (validate_scope config "start_container"
        (field (target_key "start_container") (str "sandbox") end)
      ≡ none)
    × (contains (actions_for config.autonomous_actions "sandbox") "start_container" ≡ true)
unfolding string_eq published_entry
authorize_scope-granted_example =
    authorize_scope-granted any_identifier split config valid accepts_all settings published
      "codeduel" "start_container" "sandbox" published_entry found refl scope_authorized
  where
    found : find_tool published "start_container" ≡ some published_entry
    found = refl
