-- ===== src/Tests/Recovery.antt =====
-- The service with one incident and one pending proposal, and runs of its operations.
use home_ai_agent.Base.{
  starts_with, is_empty, ◌==◌, ◌≤◌, ◌≡◌, ◌⊎◌, refl, split_dots, true, false, Option, none, some,
  List, [], ◌∷◌, ◌++◌, String, string_eq, nat_eq, ok, In,
}
use home_ai_agent.Json.{get, bool, str, arr, obj, cons, nil, Fields, end, field, value_eq, is_true}
use home_ai_agent.Json.Matches.{matches, walk, meets, descend}
use home_ai_agent.Topology.{CheckSpec}
use home_ai_agent.Topology.Visit.{visit}
use home_ai_agent.Model.{Observation, Incident, waiting_for_approval, Action, pending, not_run}
use home_ai_agent.Gateway.{
  ToolEntry, Registry, validate_tool, is_write, is_read, lookup_tool, check_risk, check_schema,
}
use home_ai_agent.Observations.{record_observation, stored_result, normalize}
use home_ai_agent.Safety.{redact_fields, redact, redact_items, redact_text}
use home_ai_agent.Autonomy.Evidence.{target_key, state_tool}
use home_ai_agent.Service.Checks.{
  stopped_state, verification_checks, visit_checks, unique, for_action, checks_target,
}
use home_ai_agent.Service.Checks.Complete.{
  Alike, IsConfigured, Alike, verification_checks-IsConfigured, verification_checks-target,
}
use home_ai_agent.Service.Dispatch.{execute, send, call_of, texts, evidence_ids}
use home_ai_agent.Service.Dispatch.Sent.{MaySend, execute-sent}
use home_ai_agent.Service.Verify.{
  attempt, check_passes, run_check, run_checks, CheckResult, VerifyResult, settle, finish,
  run_verification, run_if_checked, verify_action, judge, index_history, is_stop, validate_checks,
  extra_attempts, final_status, final_phase,
}
use home_ai_agent.Service.Verdict.{IsChecked, run_check-IsChecked}
use home_ai_agent.Service.Approve.{approve, claim_action, reject_action}
use home_ai_agent.Service.Approve.Claim.{claim, update, is_claimable}
use home_ai_agent.Service.Approve.Gate.{IsApproved, approve-IsApproved}
use home_ai_agent.Service.Steps.{Run, claims, rejects, more, done}
use home_ai_agent.Service.Steps.Once.{claimed, claimed_once}
use home_ai_agent.Agent.Propose.{
  propose_action, preconditions, shows_target, check_container, container_running, is_sick,
  reuse_or_add, add_proposal, is_same_proposal,
}
use home_ai_agent.Agent.Proposed.{Fits, FitsService, IsProposed, propose_action-IsProposed}
use home_ai_agent.Store.{observations_of, Env, Store, change_incident, find_incident}
use home_ai_agent.Tests.Autonomous.{
  services, settings, sandbox_argument, start_entry, accepts_all, str_of, inspected,
}

abbrev inspect_entry : ToolEntry
inspect_entry = record {
  risk_level = some "READ_ONLY";
  parameters = field "type" (str "object") end;
  autonomous_targets = none;
}

abbrev tools : Registry
tools = ("docker_inspect", inspect_entry) ∷ ("start_container", start_entry) ∷ []

abbrev running : Fields
running =
    field "ok" (bool true)
      (field "result" (obj (field "state" (obj (field "running" (bool true) end)) end)) end)

abbrev pub env : Env
env = record {
  settings = settings;
  registry = ok tools;
  schema_valid = accepts_all;
  str_of = str_of;
  uuid = λ n. "o-2";
  host = λ earlier call. ok running;
  signing_secret = true;
  secret_key = λ key. false;
  scrub = λ text. text;
  history = none;
}

abbrev pub incident : Incident
incident = record {
  id = "i-1";
  title = "Sandbox";
  description = "The sandbox does not answer";
  service = "codeduel";
  status = waiting_for_approval;
  resolved_at = none;
  root_cause = none;
  root_cause_confidence = none;
  summary = none;
  report = field "evidence_observation_ids" (arr (cons (str "o-1") nil)) end;
  agent_state = end;
}

abbrev proposal : Action
proposal = record {
  id = "a-1";
  incident_id = "i-1";
  tool_name = "start_container";
  arguments = sandbox_argument;
  requires_approval = true;
  approval_status = pending;
  approved_at = none;
  executed_at = none;
  expires_at = 2000;
  result = end;
  verification_status = not_run;
}

abbrev pub store : Store
store = record {
  incidents = incident ∷ [];
  observations = inspected ∷ [];
  hypotheses = [];
  actions = proposal ∷ [];
  audits = [];
  calls = [];
  issued = 0;
  seen = [];
  asked = 0;
}

abbrev running_check : CheckSpec
running_check = record {
  tool = "docker_inspect";
  arguments = sandbox_argument;
  expect = field "state.running" (bool true) end;
}

planned : verification_checks services "sandbox" (some proposal) ≡ ok (running_check ∷ [])
unfolding verification_checks visit_checks visit string_eq for_action checks_target value_eq
    state_tool target_key unique
planned = refl

verification_checks-IsConfigured_example :
    (In running_check (running_check ∷ []) → IsConfigured services "sandbox" running_check)
    × (IsConfigured services "sandbox" running_check
        → (d : CheckSpec) × In d (running_check ∷ []) × Alike d running_check)
verification_checks-IsConfigured_example =
    verification_checks-IsConfigured services "sandbox" (some proposal) (running_check ∷ []) planned
      refl running_check

verification_checks-target_example :
    (c : CheckSpec) × IsConfigured services "sandbox" c
    × (c.tool ≡ state_tool "start_container")
    × (value_eq
          (get (target_key "start_container") c.arguments)
          (get (target_key "start_container") proposal.arguments)
        ≡ true)
    × (starts_with "start_container" "stop_" ≡ true
        → running_check ∷ []
          ≡ record c { expect = stopped_state (target_key "start_container") } ∷ [])
    × (starts_with "start_container" "stop_" ≡ false
        → (d : CheckSpec) × In d (running_check ∷ []) × Alike d c)
verification_checks-target_example =
    verification_checks-target services "sandbox" proposal (running_check ∷ []) planned

execute-sent_example :
    ((execute env "start_container" sandbox_argument (some proposal) store).1 ≡ store)
    ⊎ (((execute env "start_container" sandbox_argument (some proposal) store).1 ≡ record store {
      calls = [] ++ (call_of env "start_container" sandbox_argument (some proposal) ∷ []);
    })
        × MaySend env "start_container" sandbox_argument (some proposal))
execute-sent_example = execute-sent env "start_container" sandbox_argument (some proposal) store

abbrev passed_once : CheckResult
passed_once = record {
  check = running_check;
  passed = true;
  observation_id = "o-2";
  attempts = (true, "o-2") ∷ [];
}

checked :
    run_check env 1000 "i-1" 6 running_check [] store
    ≡ (ok passed_once, (run_check env 1000 "i-1" 6 running_check [] store).1)
unfolding run_check attempt execute validate_tool lookup_tool check_risk check_schema is_write
    is_read string_eq send check_passes is_true matches walk meets descend value_eq redact
    redact_fields redact_items redact_text record_observation stored_result normalize split_dots
    change_incident
checked = refl

run_check-IsChecked_example : IsChecked 6 running_check [] passed_once
run_check-IsChecked_example =
    run_check-IsChecked env 1000 "i-1" 6 running_check [] store
      (run_check env 1000 "i-1" 6 running_check [] store).1 passed_once checked

approve-IsApproved_example :
    ((approve env 1000 "a-1" store).1.calls ≡ [])
    ⊎ ((a : Action) × IsApproved env 1000 "a-1" store a)
approve-IsApproved_example = approve-IsApproved env 1000 "a-1" store

abbrev claimed_store : Store
claimed_store = (claim_action env 1000 "a-1" "i-1" store).1

won : claim_action env 1000 "a-1" "i-1" store ≡ (ok tt, claimed_store)
unfolding claim_action claim update is_claimable string_eq nat_eq
won = refl

abbrev labels : List (Option String)
labels = some "a-1" ∷ none ∷ []

claim_and_reject : Run env store labels (reject_action env 1001 "a-1" incident claimed_store)
claim_and_reject = more (claims 1000 "a-1" "i-1" won) (more (rejects 1001 "a-1" incident) done)

claimed_once_example : claimed "a-1" labels ≤ 1
claimed_once_example =
    claimed_once env "a-1" store (reject_action env 1001 "a-1" incident claimed_store) labels
      claim_and_reject

abbrev recovering : Store
recovering = record store { incidents = record incident { service = "sandbox" } ∷ [] }

abbrev recovered : VerifyResult
recovered = record { verified = true; error = none; checks = passed_once ∷ [] }

abbrev verified_store : Store
verified_store = (verify_action env 1000 "i-1" none recovering).1

verified : verify_action env 1000 "i-1" none recovering ≡ (ok recovered, verified_store)
unfolding verify_action run_if_checked run_verification validate_checks run_checks extra_attempts
    finish is_stop settle judge index_history verification_checks visit_checks visit unique texts
    evidence_ids final_status final_phase run_check attempt execute validate_tool lookup_tool
    check_risk check_schema is_write is_read string_eq send check_passes is_true matches walk meets
    descend value_eq redact redact_fields redact_items redact_text record_observation stored_result
    normalize split_dots change_incident
verified = refl

abbrev diagnosed : Store
diagnosed = record store { actions = [] }

abbrev proposed_store : Store
proposed_store =
    (propose_action env 1000 "i-1" tools "start_container" sandbox_argument diagnosed).1

proposed :
    propose_action env 1000 "i-1" tools "start_container" sandbox_argument diagnosed
    ≡ (ok "o-2", proposed_store)
unfolding propose_action validate_tool lookup_tool check_risk check_schema is_write is_read
    string_eq preconditions shows_target state_tool target_key value_eq check_container
    container_running is_sick texts evidence_ids reuse_or_add add_proposal is_same_proposal
    change_incident
proposed = refl

propose_action-IsProposed_example :
    (true ≡ true)
    × ((entry : ToolEntry) × (validate_tool accepts_all tools "start_container" sandbox_argument
            true
          ≡ ok entry))
    × (is_write "start_container" ≡ true)
    × ((i : Incident) × (find_incident "i-1" diagnosed ≡ some i)
        × (is_empty (evidence_ids i.report) ≡ false))
    × ((o : Observation) × In o (observations_of "i-1" diagnosed)
        × (shows_target "start_container" sandbox_argument o ≡ true)
        × ((target_key "start_container" == "container") ≡ true
            → Fits "start_container" o.normalized_result)
        × ((target_key "start_container" == "container") ≡ false
            → FitsService "start_container" o.normalized_result))
    × IsProposed env 1000 "i-1" "start_container" sandbox_argument "o-2" diagnosed proposed_store
propose_action-IsProposed_example =
    propose_action-IsProposed env 1000 "i-1" tools "start_container" sandbox_argument "o-2"
      diagnosed proposed_store proposed
