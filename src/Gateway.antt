-- ===== src/Gateway.antt =====
-- backend/app/gateway.py: the backend's allowlists and the check of a tool call against the
-- registry that the host gateway publishes. JSON Schema validation is the jsonschema package, so
-- `schema_valid` is a parameter: whether a schema accepts some arguments.
pub mod Policy
use home_ai_agent.Base.{
  Bool, true, false, not, ◌&&◌, ◌||◌, Option, none, some, List, [], ◌∷◌, ◌++◌, String, ◌==◌,
  contains, string_eq, if◌then◌else◌, Result, ok, err, Error, value_error, schema_error, guard,
  ◌>>=◌, ◌>>◌,
}
use home_ai_agent.Json.{Value, Fields, end, field, get, is_str}

abbrev pub read_tools : List String
read_tools =
    "dns_lookup" ∷ "ping_host" ∷ "http_check" ∷ "docker_list" ∷ "docker_inspect" ∷ "docker_logs"
    ∷ "service_status" ∷ "is_service_enabled" ∷ "journal_logs" ∷ "network_interfaces"
    ∷ "route_table" ∷ "default_gateway" ∷ "cpu_usage" ∷ "memory_usage" ∷ "disk_usage"
    ∷ "filesystem_mounts" ∷ "temperatures" ∷ "system_uptime" ∷ "process_list" ∷ "find_process"
    ∷ "inspect_process" ∷ "listening_ports" ∷ "port_check" ∷ "tailscale_status"
    ∷ "cloudflared_status" ∷ "docker_stats" ∷ "recent_docker_events" ∷ "mongodb_atlas_connectivity"
    ∷ "check_application_health" ∷ []

abbrev pub write_tools : List String
write_tools =
    "restart_container" ∷ "start_container" ∷ "stop_container" ∷ "restart_service" ∷ "start_service"
    ∷ "stop_service" ∷ []

-- one entry of the registry; a missing key reads as `none` or as no parameters
pub record ToolEntry : Type 0 where
  pub risk_level : Option String
  pub parameters : Fields
  pub autonomous_targets : Option (List String)

abbrev pub Registry : Type 0
Registry = List (String × ToolEntry)

abbrev pub find_tool : Registry → String → Option ToolEntry
find_tool [] tool = none
find_tool ((k, e) ∷ rest) tool = if tool == k then some e else find_tool rest tool

-- `tool in READ_TOOLS` and `tool in WRITE_TOOLS`
unfoldable pub is_read : String → Bool
unfolding string_eq
is_read = contains read_tools

unfoldable pub is_write : String → Bool
unfolding string_eq
is_write = contains write_tools

abbrev pub has_risk : String → ToolEntry → Bool
has_risk level entry = elim entry.risk_level [ none ↦ false | some r ↦ r == level ]

-- `tool in READ_TOOLS | WRITE_TOOLS and tool in registry`
unfoldable pub lookup_tool : Registry → String → Result ToolEntry
lookup_tool registry tool =
    if is_read tool || is_write tool
    then elim (find_tool registry tool) [
      | none ↦ err (value_error "Tool is not in the explicit backend allowlist")
      | some entry ↦ ok entry
    ]
    else err (value_error "Tool is not in the explicit backend allowlist")

unfoldable pub check_risk : String → Bool → ToolEntry → Result (Unit {0})
check_risk tool allow_write entry =
    if is_write tool
    then guard (allow_write && has_risk "LOW_RISK_WRITE" entry)
        (value_error "Write tools require a persisted authorized action")
    else guard (has_risk "READ_ONLY" entry) (value_error "Tool risk does not match backend policy")

unfoldable pub check_schema : (Fields → Fields → Bool) → ToolEntry → Fields → Result (Unit {0})
check_schema schema_valid entry arguments = do
  guard (is_str "object" (get "type" entry.parameters))
      (value_error "Tool has no valid argument schema")
  guard (schema_valid entry.parameters arguments) (schema_error "Arguments do not match the schema")

unfoldable pub validate_tool :
    (Fields → Fields → Bool) → Registry → String → Fields → Bool → Result ToolEntry
validate_tool schema_valid registry tool arguments allow_write = do
  entry ← lookup_tool registry tool
  check_risk tool allow_write entry
  check_schema schema_valid entry arguments
  ok entry
