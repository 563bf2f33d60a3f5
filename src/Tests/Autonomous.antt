-- ===== src/Tests/Autonomous.antt =====
-- A stopped container of a service that depends on it, and its autonomous start.
use home_ai_agent.Base.{
  ◌≡◌, refl, ◌↔◌, Bool, true, false, none, some, [], ◌∷◌, String, In, string_eq, nat_eq, ok,
  split_dots,
}
use home_ai_agent.Json.{Value, bool, str, obj, Fields, end, field, value_eq, int}
use home_ai_agent.Json.Number.{pos, int_eq}
use home_ai_agent.Json.Matches.{matches, walk, meets, descend, matches-exact}
use home_ai_agent.Model.{Settings, Observation, investigation}
use home_ai_agent.Topology.{Topology}
use home_ai_agent.Topology.Visit.{visit}
use home_ai_agent.Topology.Reach.{Reaches}
use home_ai_agent.Gateway.{
  Registry, ToolEntry, is_write, is_read, lookup_tool, check_risk, check_schema, validate_tool,
}
use home_ai_agent.Gateway.Policy.{IsAllowed, validate_tool_iff}
use home_ai_agent.Autonomy.Targets.{
  profile_targets, own_targets, dependencies, profile_targets-Reaches,
}
use home_ai_agent.Autonomy.Evidence.{
  target_key, state_tool, names, cited, is_fresh, distinct, authorize_evidence, observes,
  last_state, detail, is_unhealthy,
}
use home_ai_agent.Autonomy.Rules.{container_rules, check_redis, needs_redis, check_logs}
use home_ai_agent.Autonomy.{authorize_scope, attempted, authorize_budget, target_rules, authorize}
use home_ai_agent.Autonomy.Granted.{IsGranted, authorize-IsGranted}

abbrev pub sandbox_argument : Fields
sandbox_argument = field "container" (str "sandbox") end

abbrev pub services : Topology
services =
    (
      "codeduel",
      record {
        containers = [];
        systemd_services = [];
        depends_on = "sandbox" ∷ "sandbox" ∷ [];
        health_checks = [];
      },
    )
    ∷ (
      "sandbox",
      record {
        containers = "sandbox" ∷ [];
        systemd_services = [];
        depends_on = "codeduel" ∷ [];
        health_checks =
            record {
              tool = "docker_inspect";
              arguments = sandbox_argument;
              expect = field "state.running" (bool true) end;
            }
            ∷ [];
      },
    )
    ∷ []

abbrev pub settings : Settings
settings = record {
  enable_write_actions = true;
  enable_autonomous_actions = true;
  autonomous_max_actions_per_incident = 6;
  approval_ttl_seconds = 3600;
  agent_max_steps = 18;
  agent_max_model_calls = 18;
  agent_context_chars = 26000;
  rag_retrieve_after_observations = 1;
  disk_warning_percent = pos 80000;
  disk_high_percent = pos 90000;
  disk_critical_percent = pos 95000;
  topology = services;
}

abbrev pub start_entry : ToolEntry
start_entry = record {
  risk_level = some "LOW_RISK_WRITE";
  parameters = field "type" (str "object") end;
  autonomous_targets = none;
}

abbrev pub registry : Registry
registry = ("start_container", start_entry) ∷ []

abbrev pub accepts_all : Fields → Fields → Bool
accepts_all schema arguments = true

abbrev pub str_of : Value → String
str_of v = "None"

abbrev stopped_result : Fields
stopped_result = field "state" (obj (field "running" (bool false) end)) end

abbrev pub inspected : Observation
inspected = record {
  id = "o-1";
  incident_id = "i-1";
  step_number = 1;
  tool_name = "docker_inspect";
  tool_arguments = sandbox_argument;
  raw_result = field "ok" (bool true) end;
  normalized_result = stopped_result;
  phase = investigation;
  created_at = 1000;
}

authorized :
    authorize accepts_all str_of settings registry "codeduel" []
      (inspected ∷ [])
      1100
      "start_container"
      sandbox_argument
      ("o-1" ∷ [])
    ≡ ok ("o-1" ∷ [])
unfolding authorize authorize_scope authorize_budget authorize_evidence last_state target_rules
    container_rules validate_tool lookup_tool check_risk check_schema is_write is_read target_key
    state_tool names profile_targets visit string_eq cited is_fresh distinct observes value_eq
    attempted detail is_unhealthy check_redis needs_redis check_logs nat_eq
authorized = refl

authorize-IsGranted_example :
    IsGranted accepts_all str_of registry settings "codeduel" "start_container" sandbox_argument []
      (inspected ∷ [])
      1100
      ("o-1" ∷ [])
      ("o-1" ∷ [])
authorize-IsGranted_example =
    authorize-IsGranted accepts_all str_of settings registry "codeduel" [] (inspected ∷ []) 1100
      "start_container" sandbox_argument ("o-1" ∷ []) ("o-1" ∷ []) authorized

validate_tool_iff_example :
    (validate_tool accepts_all registry "start_container" sandbox_argument true ≡ ok start_entry)
    ↔ IsAllowed accepts_all registry "start_container" sandbox_argument true start_entry
validate_tool_iff_example =
    validate_tool_iff accepts_all registry "start_container" sandbox_argument true start_entry

profile_targets-Reaches_example : In "sandbox" (profile_targets services "codeduel") ↔ (
    (true ≡ true)
    × ((x : String) × Reaches (dependencies services) "codeduel" x
        × In "sandbox" (own_targets services x)))
unfolding string_eq
profile_targets-Reaches_example = profile_targets-Reaches services "codeduel" "sandbox"

running_expected :
    matches
      (obj (field "state" (obj (field "running" (bool true) end)) end))
      (field "state.running" (bool true) end)
    ≡ true
unfolding matches walk meets split_dots string_eq descend value_eq
running_expected = refl

matches-exact_example :
    walk
      (split_dots "state.running")
      (obj (field "state" (obj (field "running" (bool true) end)) end))
    ≡ some (bool true)
matches-exact_example =
    matches-exact (obj (field "state" (obj (field "running" (bool true) end)) end))
      (field "state.running" (bool true) end) "state.running" (bool true) refl
      (unfold string_eq in refl) running_expected

not_by_number :
    matches (obj (field "ready" (int (pos 1)) end)) (field "ready" (bool true) end) ≡ false
unfolding matches walk meets split_dots string_eq descend value_eq
not_by_number = refl
