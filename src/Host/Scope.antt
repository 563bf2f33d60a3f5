-- ===== src/Host/Scope.antt =====
-- The scopes of the host's tools in diagnostic_gateway/tools.py (`DiagnosticTools`): which targets a tool may
-- act on, and what the metadata publishes of them. Descriptions and the schemas of pydantic are left out.
pub mod Granted
pub mod Published
use home_ai_agent.Base.{
  ℕ, Bool, true, false, not, ◌&&◌, ◌||◌, Option, none, some, List, [], ◌∷◌, ◌++◌, String, ◌==◌,
  string_eq, contains, any, map, select, ends_with, is_empty, if◌then◌else◌,
}
use home_ai_agent.Json.{Value, int, str, Fields, get, lookup, value_eq}
use home_ai_agent.Json.Number.{pos}
use home_ai_agent.Autonomy.Evidence.{names}
use home_ai_agent.Host.Server.{Failure, tool_error}
use home_ai_agent.Host.Config.{
  GatewayConfig, AtlasSeed, TcpAddress, ContainerHttp, actions_for, is_protected,
}

unfoldable pub is_container_write : String → Bool
unfolding string_eq
is_container_write = contains ("restart_container" ∷ "start_container" ∷ "stop_container" ∷ [])

unfoldable pub is_service_write : String → Bool
unfolding string_eq
is_service_write = contains ("restart_service" ∷ "start_service" ∷ "stop_service" ∷ [])

-- `blocked`: the tunnel may be restarted but not stopped
unfoldable pub is_blocked : String → String → Bool
unfolding string_eq
is_blocked tool service =
    is_protected service || (tool == "stop_service" && service == "cloudflared")

-- `require`, on a value of any type
unfoldable pub require : Value → List String → String → Option Failure
require value allowed message = if names allowed value then none else some (tool_error message none)

-- the check of one key, if the arguments have it
abbrev pub if_given : String → Fields → (Value → Option Failure) → Option Failure
if_given key arguments check = elim (lookup key arguments) [ none ↦ none | some v ↦ check v ]

-- the first failure
abbrev pub and_then : Option Failure → Option Failure → Option Failure
and_then (some x) rest = some x
and_then none rest = rest

abbrev pub blocks : String → Value → Option Failure
blocks tool v = elim v [
  | str s ↦
      if is_blocked tool s
      then some (tool_error "Service write is prohibited for a protected host capability" none)
      else none
  | _ ↦ none
]

module _ (c : GatewayConfig) where
  unfoldable pub action_targets : String → List String
  unfolding string_eq ends_with
  action_targets tool =
      select (λ target. contains (actions_for c.allowed_actions target) tool)
        (if ends_with tool "_container" then c.write_containers else c.write_services)

  unfoldable pub container_scope : String → Value → Option Failure
  container_scope tool v =
      require v (if is_container_write tool then action_targets tool else c.containers)
        "Container is not allowlisted"

  unfoldable pub service_scope : String → Value → Option Failure
  service_scope tool v =
      and_then
        (require v (if is_service_write tool then action_targets tool else c.services)
          "Service is not allowlisted")
        (if is_service_write tool then blocks tool v else none)

  abbrev pub urls : List String
  urls = c.http_urls ++ map (λ h. h.0) c.container_http

  unfoldable pub has_endpoint : Value → Value → Bool
  unfolding value_eq
  has_endpoint host port =
      any (λ t. value_eq host (str t.host) && value_eq port (int (pos t.port))) c.tcp_targets

  unfoldable pub atlas_scope : String → Fields → Option Failure
  unfolding string_eq
  atlas_scope tool arguments =
      if tool == "mongodb_atlas_connectivity"
      then require (get "seed" arguments) (map (λ a. a.seed) c.atlas_seeds)
          "Atlas seed is not allowlisted"
      else none

  unfoldable pub port_scope : String → Fields → Option Failure
  unfolding string_eq
  port_scope tool arguments =
      if tool == "port_check" && not (has_endpoint (get "host" arguments) (get "port" arguments))
      then some (tool_error "TCP host/port pair is not allowlisted" none)
      else none

  unfoldable pub validate_scope : String → Fields → Option Failure
  unfolding string_eq
  validate_scope tool arguments =
      and_then (if_given "hostname" arguments (λ v. require v c.hosts "Host is not allowlisted")) (
        and_then (if_given "container" arguments (container_scope tool)) (
          and_then (if_given "service" arguments (service_scope tool)) (
            and_then (if_given "url" arguments (λ v. require v urls "HTTP URL is not allowlisted"))
              (and_then
                (if_given "path" arguments
                  (λ v. require v c.disk_paths "Filesystem path is not allowlisted"))
                (and_then (atlas_scope tool arguments) (port_scope tool arguments))))))

  -- `autonomous_targets` of a write in the metadata
  unfoldable pub autonomous_targets : String → List String
  unfolding string_eq
  autonomous_targets tool =
      select (λ target. contains (actions_for c.autonomous_actions target) tool)
        (action_targets tool)

  -- the values of `service` in the schema of a write
  unfoldable pub service_targets : String → List String
  service_targets tool = select (λ name. not (is_blocked tool name)) (action_targets tool)

  -- the tools that are enabled, with whether they are READ_ONLY
  unfoldable pub definitions : String → Option Bool
  unfolding string_eq
  definitions name =
      if contains
        ("dns_lookup" ∷ "ping_host" ∷ "http_check" ∷ "docker_list" ∷ "docker_inspect"
          ∷ "docker_logs" ∷ "service_status" ∷ "is_service_enabled" ∷ "journal_logs"
          ∷ "network_interfaces" ∷ "route_table" ∷ "default_gateway" ∷ "cpu_usage" ∷ "memory_usage"
          ∷ "disk_usage" ∷ "filesystem_mounts" ∷ "temperatures" ∷ "system_uptime" ∷ "process_list"
          ∷ "find_process" ∷ "inspect_process" ∷ "listening_ports" ∷ "port_check"
          ∷ "tailscale_status" ∷ "cloudflared_status" ∷ "docker_stats" ∷ "recent_docker_events"
          ∷ [])
        name
      then some true
      else if name == "mongodb_atlas_connectivity" && not (is_empty c.atlas_seeds)
      then some true
      else if c.writes_enabled && is_container_write name && not (is_empty c.write_containers)
      then some false
      else if c.writes_enabled && is_service_write name && not (is_empty c.write_services)
      then some false
      else none
