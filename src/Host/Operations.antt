-- ===== src/Host/Operations.antt =====
-- The writes of diagnostic_gateway/tools.py and the diagnostics that run host commands. Which commands a handler
-- starts, and with which targets, is in the log of Host/Exec.
pub mod Started
use home_ai_agent.Base.{
  ℕ, zero, suc, ◌+◌, ◌-◌, Bool, true, false, not, ◌&&◌, ◌||◌, Option, none, some, List, [], ◌∷◌,
  ◌++◌, String, ◌==◌, string_eq, nat_eq, contains, length, map, take_chars, leb, if◌then◌else◌,
}
use Prim.Native.String.{◌++◌ as ◌<>◌}
use home_ai_agent.Json.{
  Value, null, bool, str, arr, obj, Items, nil, cons, Fields, end, field, get, get_or, lookup,
  insert, is_str, item_count,
}
use home_ai_agent.Agent.State.{drop_items}
use home_ai_agent.Host.Server.{Failure, tool_error, other_failure}
use home_ai_agent.Host.Config.{GatewayConfig}
use home_ai_agent.Host.Scope.{require}
use home_ai_agent.Host.Exec.{
  H, Machine, CommandResult, Tried, gave, refused, ◌>>=◌, ◌>>◌, pure, raise, lift, check,
  run_command,
}

abbrev inspect_projection : String
inspect_projection =
    "{\"name\":{{json .Name}},\"image\":{{json .Config.Image}},\"state\":{\"status\":{{json .State.Status}},\"running\":{{json .State.Running}},\"restarting\":{{json .State.Restarting}},\"oom_killed\":{{json .State.OOMKilled}},\"exit_code\":{{json .State.ExitCode}},\"started_at\":{{json .State.StartedAt}},\"finished_at\":{{json .State.FinishedAt}}},\"restart_count\":{{json .RestartCount}},\"health\":{{if .State.Health}}{{json .State.Health.Status}}{{else}}null{{end}},\"ports\":{{json .NetworkSettings.Ports}},\"networks\":{{json .NetworkSettings.Networks}}}"

abbrev unit_properties : String
unit_properties =
    "Id,LoadState,ActiveState,SubState,MainPID,Result,ExecMainCode,ExecMainStatus,NRestarts,ActiveEnterTimestamp,UnitFileState"

abbrev pub inspect_command : String → List String
inspect_command container =
    "docker" ∷ "container" ∷ "inspect" ∷ "--format" ∷ inspect_projection ∷ "--" ∷ container ∷ []

abbrev pub show_command : String → List String
show_command service =
    "systemctl" ∷ "show" ∷ "--no-pager" ∷ "--property" ∷ unit_properties ∷ "--" ∷ service ∷ []

-- one entry of `networks`; an entry that is no object has no `get`
abbrev network_items : Fields → Tried Items
network_items end = gave nil
network_items (field name v rest) = elim v [
  | obj network ↦ elim (network_items rest) [
    | gave vs ↦ gave (
        cons
          (obj (
            field "name" (str name) (
              field "ip_address" (get "IPAddress" network)
                (field "gateway" (get "Gateway" network) end))))
          vs)
    | refused x ↦ refused x
  ]
  | _ ↦ refused other_failure
]

module _ (m : Machine) (c : GatewayConfig) where
  allow : String → List String → String → H (Unit {0})
  allow value targets message = check (require (str value) targets message)

  with_networks : Fields → Tried Fields
  with_networks item = elim (get_or "networks" (obj end) item) [
    | obj networks ↦ elim (network_items networks) [
      | gave vs ↦ gave (insert "networks" (arr vs) item)
      | refused x ↦ refused x
    ]
    | _ ↦ refused other_failure
  ]

  -- the name without its slash, and the networks as a list
  reshape : Option Value → Tried Fields
  unfolding with_networks
  reshape (some (obj item)) = elim (lookup "name" item) [
    | some (str name) ↦ with_networks (insert "name" (str (m.lstrip_slash name)) item)
    | _ ↦ refused other_failure
  ]
  reshape _ = refused other_failure

  unfoldable pub read_inspection : CommandResult → H Fields
  unfolding reshape
  read_inspection result =
      if result.truncated
      then raise (tool_error "Container state exceeds diagnostic output limit" none)
      else lift (reshape (m.loads result.stdout))

  unfoldable pub docker_inspect : String → H Fields
  unfolding allow
  docker_inspect container = do
    allow container c.containers "Container is not allowlisted"
    result ← run_command m true (inspect_command container)
    read_inspection result

  -- `dict(line.split('=', 1) for line in … if '=' in line)`
  properties : List String → Fields → Fields
  properties [] values = values
  properties (line ∷ lines) values =
      properties lines
        (elim (m.partition line) [ none ↦ values | some (k, v) ↦ insert k (str v) values ])

  unit_report : String → Fields → Fields
  unit_report service values = field "service" (str service) (
      field "state" (get_or "ActiveState" (str "unknown") values) (
        field "substate" (get "SubState" values) (
          field "loaded" (bool (is_str "loaded" (get "LoadState" values)))
            (field "properties" (obj values) end))))

  unfoldable pub service_status : String → H Fields
  unfolding allow properties unit_report
  service_status service = do
    allow service c.services "Service is not allowlisted"
    result ← run_command m true (show_command service)
    pure (unit_report service (properties (m.splitlines result.stdout) end))

  enabled_states : Value → Bool
  unfolding string_eq
  enabled_states (str s) =
      contains ("enabled" ∷ "enabled-runtime" ∷ "linked" ∷ "linked-runtime" ∷ []) s
  enabled_states _ = false

  enabled_report : String → Value → Fields
  unfolding enabled_states
  enabled_report service state = field "service" (str service) (
      field "unit_file_state" state (
        field "enabled" (bool (enabled_states state)) (
          field "note" (str "Static or generated units may be active without an enablement state.")
            end)))

  unfoldable pub is_service_enabled : String → H Fields
  unfolding enabled_report
  is_service_enabled service = do
    state ← service_status service
    elim (get "properties" state) [
      | obj values ↦ pure (enabled_report service (get_or "UnitFileState" (str "unknown") values))
      | _ ↦ raise other_failure
    ]

  unfoldable pub cloudflared_status : H Fields
  cloudflared_status = service_status "cloudflared"

  text_items : List String → Items
  text_items [] = nil
  text_items (line ∷ lines) = cons (str line) (text_items lines)

  -- `lines[-n:]`, for a positive n
  last_lines : ℕ → Items → Items
  last_lines n vs = drop_items (item_count vs - n) vs

  unfoldable pub docker_logs : String → ℕ → H Fields
  unfolding allow text_items last_lines string_eq nat_eq
  docker_logs container lines = do
    allow container c.containers "Container is not allowlisted"
    result ← run_command m false (
        "docker"
        ∷ "container"
        ∷ "logs"
        ∷ "--timestamps"
        ∷ "--tail"
        ∷ m.show lines
        ∷ "--"
        ∷ container
        ∷ [])
    let text = m.strip ((result.stdout <> "\n") <> result.stderr)
    let excerpt = take_chars 2000 text
    if not (result.returncode == 0) && not result.truncated
        then raise
            (tool_error (if excerpt == "" then "Container logs unavailable" else excerpt) none)
        else pure (
            field "container" (str container) (
              field "lines" (arr (last_lines lines (text_items (m.splitlines text))))
                (field "truncated" (bool result.truncated) end)))

  journal_entry : Fields → Value
  journal_entry item = obj (
      field "timestamp_us" (get "__REALTIME_TIMESTAMP" item) (
        field "priority" (get "PRIORITY" item)
          (field "message" (get "MESSAGE" item) (field "unit" (get "_SYSTEMD_UNIT" item) end))))

  -- a line that is no JSON is skipped if the output was cut
  unfoldable pub journal_entries : Bool → List String → Tried Items
  unfolding journal_entry
  journal_entries truncated [] = gave nil
  journal_entries truncated (line ∷ lines) =
      let rest = journal_entries truncated lines in
      elim (m.loads line) [
        | none ↦
            if truncated
            then rest
            else refused (tool_error "Journal did not return structured output" none)
        | some v ↦ elim v [
          | obj item ↦ elim rest [
            | gave vs ↦ gave (cons (journal_entry item) vs)
            | refused x ↦ refused x
          ]
          | _ ↦ refused other_failure
        ]
      ]

  unfoldable pub journal_logs : String → ℕ → H Fields
  unfolding allow last_lines
  journal_logs service lines = do
    allow service c.services "Service is not allowlisted"
    result ← run_command m true (
        "journalctl"
        ∷ "--unit"
        ∷ service
        ∷ "--lines"
        ∷ m.show lines
        ∷ "--no-pager"
        ∷ "--output"
        ∷ "json"
        ∷ "--output-fields"
        ∷ "__REALTIME_TIMESTAMP,PRIORITY,MESSAGE,_SYSTEMD_UNIT"
        ∷ [])
    entries ← lift (journal_entries result.truncated (m.splitlines result.stdout))
    pure (
        field "service" (str service) (
          field "entries" (arr (last_lines lines entries))
            (field "truncated" (bool result.truncated) end)))

  operation : String → String → String → Fields → Value
  operation tool key target state = obj (
      field "operation" (str tool) (
        field key (str target) (
          field "execution_succeeded" (bool true)
            (field "state" (obj state) (field "verification_required" (bool true) end)))))

  -- what the three writes on containers share; `words` are the verb and its options
  unfoldable pub write_container : String → List String → String → H Value
  unfolding allow operation
  write_container tool words container = do
    allow container c.write_containers "Write container is not allowlisted"
    result ←
        run_command m true (("docker" ∷ "container" ∷ []) ++ (words ++ ("--" ∷ container ∷ [])))
    state ← docker_inspect container
    pure (operation tool "container" container state)

  unfoldable pub restart_container : String → H Value
  restart_container = write_container "restart_container" ("restart" ∷ "--time" ∷ "5" ∷ [])

  unfoldable pub start_container : String → H Value
  start_container = write_container "start_container" ("start" ∷ [])

  unfoldable pub stop_container : String → H Value
  stop_container = write_container "stop_container" ("stop" ∷ "--time" ∷ "5" ∷ [])

  unfoldable pub write_service : String → String → String → H Value
  unfolding allow operation
  write_service tool verb service = do
    allow service c.write_services "Write service is not allowlisted"
    result ← run_command m true ("systemctl" ∷ "--no-ask-password" ∷ verb ∷ "--" ∷ service ∷ [])
    state ← service_status service
    pure (operation tool "service" service state)

  unfoldable pub restart_service : String → H Value
  restart_service = write_service "restart_service" "restart"

  unfoldable pub start_service : String → H Value
  start_service = write_service "start_service" "start"

  unfoldable pub stop_service : String → H Value
  stop_service = write_service "stop_service" "stop"
