-- ===== src/Tests/Loop.antt =====
-- Runs of an investigation (`investigate` of backend/app/agent.py) and of the compaction of its context.
use home_ai_agent.Base.{
  ◌≡◌, ◌≤◌, ◌+◌, refl, arith, ℕ, true, false, none, some, List, [], ◌∷◌, ◌++◌, All, ok, err, String,
  string_eq, nat_eq, timeout_error, attribute_error, Result, Error, ◌≢◌, ◌⊎◌,
}
use home_ai_agent.Json.{Value, str, arr, obj, cons, nil, Fields, end, field, value_eq, lookup}
use home_ai_agent.Model.{Incident, opened, failed}
use home_ai_agent.Agent.Budget.{Encoder, all_ok, choose, sampled, clipped, compact_result}
use home_ai_agent.Agent.Budget.Compact.{
  compact_context, compact_frame, update_key, in_list, each_object, compact_topology, topology_of,
  services_of, compact_services, set_services, compact_incident, clip_or_empty, clipped_value,
  compact_history, listed, take_results, take_result, result_object, prefer_observations,
  distribute, share, fill, compact_hypothesis, compact_tool, compact_service, clip_text, remove_key,
}
use home_ai_agent.Agent.Budget.Compact.Retained.{compact_context-retains, observation_ids}
use home_ai_agent.Agent.Bounded.{investigate-asked, investigate-IsBacked}
use home_ai_agent.Agent.Ended.{investigate-returns, investigate-failed}
use home_ai_agent.Agent.Decide.{clean}
use home_ai_agent.Agent.Loop.{
  investigate, prior_failure, run, classify, classified, route_and_loop, follow_route, budget_after,
  loop, take_step, retrieve_once, decide, ask, failed_model, allowed_tools, begin, conclude,
}
use home_ai_agent.Agent.Sends.{IsBacked}
use home_ai_agent.Agent.State.{
  Provider, load, change_state, update_state, record_step_timing, with_timing, timing_entry,
  last_items, retrieve_rag,
}
use home_ai_agent.Agent.Context.{context, full_context}
use home_ai_agent.Routing.{initial_diagnostic}
use home_ai_agent.Gateway.{is_write}
use home_ai_agent.Safety.{redact, redact_fields, redact_items, redact_text}
use home_ai_agent.Store.{Store, Call, find_incident, set_incident, change_incident}
use home_ai_agent.Store.Keeps.{ids}
use home_ai_agent.Tests.Recovery.{env, store, incident}

-- a context is short once it is compacted
abbrev size : Value → ℕ
size (obj fs) = elim (lookup "tools" fs) [
  | none ↦ 2
  | some _ ↦ elim (lookup "context_compacted" fs) [ none ↦ 9000 | some _ ↦ 90 ]
]
size _ = 2

abbrev encoder : Encoder
encoder = record {
  size = size;
  shows_error = λ s. false;
  text_of = λ v. "";
  splitlines = λ s. s ∷ [];
}

-- the model does not answer
abbrev provider : Provider
provider = record {
  classify = λ i. err (attribute_error "classify_incident");
  decide = λ n shown. err (timeout_error "timed out");
  dumps = λ fs. "{}";
  encoder = encoder;
  retrieve = none;
  has_service = true;
  interpretation = λ o. "";
  failure_log = λ fs. false;
  tools = nil;
  topology = end;
  type_name = λ x. "TimeoutError";
  ending = end;
  clock = λ n. 1000;
}

abbrev idle : Store
idle = record store { incidents = record incident { status = opened } ∷ [] }

abbrev shown : Fields
shown = field "incident" (obj (field "description" (str "down") end)) (
    field "tools" (arr nil) (
      field "topology" (obj end) (
        field "observations"
          (arr (cons (obj (field "id" (str "o-1") (field "result" (obj end) end))) nil))
          (field "hypotheses" (arr nil) end))))

abbrev compacted : Result Fields
compacted = compact_context encoder shown 4000

abbrev short : Fields
short = field "incident" (obj (field "description" (str "down") end)) (
    field "tools" (arr nil) (
      field "topology" (obj end) (
        field "observations"
          (arr (
            cons
              (obj (
                field "id" (str "o-1")
                  (field "result" (obj end) (field "interpretation" (str "") end))))
              nil))
          (field "hypotheses" (arr nil) (
            field "context_compacted"
              (str
                "Some bulky results are summarized; all observation IDs are retained. Full evidence remains persisted.")
              (field "retrieved_incidents" (arr nil)
                (field "retrieved_runbooks" (arr nil) end)))))))

is_compacted : compact_context encoder shown 4000 ≡ ok short
unfolding compact_context string_eq compact_frame update_key in_list each_object compact_topology
    topology_of services_of compact_services set_services compact_incident clip_or_empty
    clipped_value compact_history listed take_results take_result result_object prefer_observations
    distribute share fill compact_hypothesis compact_tool compact_service clip_text remove_key
    all_ok choose sampled clipped compact_result
is_compacted = refl

compact_context-retains_example : (90 ≤ 4000) × (observation_ids short ≡ str "o-1" ∷ [])
unfolding string_eq
compact_context-retains_example = compact_context-retains encoder shown 4000 short is_compacted

investigate-IsBacked_example :
    (sent : List Call) × ((investigate env provider "i-1" idle).1.calls ≡ [] ++ sent)
    × All (IsBacked env) sent
investigate-IsBacked_example = investigate-IsBacked env provider "i-1" idle

investigate-asked_example :
    ((investigate env provider "i-1" idle).1.asked ≤ 0 + 18)
    × ((investigate env provider "i-1" idle).1.asked ≤ 0 + 18)
    × (ids (investigate env provider "i-1" idle).1 ≡ "i-1" ∷ [])
investigate-asked_example = investigate-asked env provider "i-1" idle

abbrev begun_store : Store
begun_store = (set_incident "i-1" (begin env provider "i-1") idle).1

times_out : (run env provider "i-1" begun_store).0 ≡ err (timeout_error "timed out")
unfolding string_eq nat_eq run classify classified route_and_loop follow_route budget_after loop
    take_step retrieve_once decide ask failed_model allowed_tools begin conclude load change_state
    update_state record_step_timing with_timing timing_entry last_items retrieve_rag
    initial_diagnostic change_incident context full_context compact_context is_write redact
    redact_fields redact_items redact_text value_eq
times_out = refl

abbrev left : Incident
left = elim (find_incident "i-1" (run env provider "i-1" begun_store).1) [
  | none ↦ incident
  | some i ↦ i
]

abbrev prior : Fields
prior = elim (prior_failure env provider "i-1" left.agent_state) [ ok fs ↦ fs | err x ↦ end ]

still_there : find_incident "i-1" (run env provider "i-1" begun_store).1 ≡ some left
unfolding string_eq nat_eq run classify classified route_and_loop follow_route budget_after loop
    take_step retrieve_once decide ask failed_model allowed_tools begin conclude load change_state
    update_state record_step_timing with_timing timing_entry last_items retrieve_rag
    initial_diagnostic change_incident context full_context compact_context is_write redact
    redact_fields redact_items redact_text value_eq
still_there = refl

is_readable : prior_failure env provider "i-1" left.agent_state ≡ ok prior
unfolding prior_failure string_eq nat_eq run classify classified route_and_loop follow_route
    budget_after loop take_step retrieve_once decide ask failed_model allowed_tools begin conclude
    load change_state update_state record_step_timing with_timing timing_entry last_items
    retrieve_rag initial_diagnostic change_incident context full_context compact_context is_write
    redact redact_fields redact_items redact_text value_eq
is_readable = refl

investigate-returns_example :
    ((investigate env provider "i-1" idle).0 ≡ ok tt)
    ⊎ ((j : Incident) × (find_incident "i-1" (run env provider "i-1" begun_store).1 ≡ some j)
        × ((x : Error) × ((run env provider "i-1" begun_store).0 ≡ err x))
        × ((y : Error) × (prior_failure env provider "i-1" j.agent_state ≡ err y)))
investigate-returns_example = investigate-returns env provider "i-1" idle

investigate-failed_example :
    (j : Incident) × (find_incident "i-1" (investigate env provider "i-1" idle).1 ≡ some j)
    × (j.status ≡ failed)
    × ((text : String)
        → timeout_error "timed out" ≡ timeout_error text
        → j.summary ≡ some "Investigation runtime limit reached")
    × (true ≡ false
        → clean env provider "i-1" 1500 "timed out" ≢ ""
        → j.summary ≡ some (clean env provider "i-1" 1500 "timed out"))
    × (true ≡ false
        → clean env provider "i-1" 1500 "timed out" ≡ ""
        → j.summary ≡ some "TimeoutError")
investigate-failed_example =
    investigate-failed env provider "i-1" idle (record incident { status = opened }) left found refl
      still_there prior is_readable (timeout_error "timed out") times_out
  where
    found : find_incident "i-1" idle ≡ some (record incident { status = opened })
    found = ground arith
