-- ===== src/Agent/State.antt =====
-- The small operations of `Agent` in backend/app/agent.py on the state of an incident: `update_state`,
-- `record_step_timing`, `signature` and `retrieve_rag`, and what the agent takes from outside. Measured times
-- are left out.
use home_ai_agent.Base.{
  Error, ℕ, zero, suc, ◌-◌, Bool, true, false, Option, none, some, String, string_eq, Result, ok,
  err, attribute_error, message, if◌then◌else◌,
}
use Prim.Native.String.{◌++◌ as ◌<>◌}
use home_ai_agent.Json.{
  Value, str, int, arr, obj, Items, nil, cons, Fields, end, field, get, insert, is_str, item_count,
}
use home_ai_agent.Json.Number.{pos}
use home_ai_agent.Model.{Incident, Observation}
use home_ai_agent.Failures.{infrastructure_failure, kind_text}
use home_ai_agent.Observations.{redact_all}
use home_ai_agent.Routing.{IncidentSpec}
use home_ai_agent.Safety.{redact_text}
use home_ai_agent.Agent.Budget.{Encoder}
use home_ai_agent.Agent.Decision.{Decision}
use home_ai_agent.Store.{
  Env, M, ◌>>=◌, ◌>>◌, pure, or_raise, when, find_incident, set_incident, audit,
}

-- The libraries and services behind the agent.
pub record Provider : Type 0 where
  -- `classify_incident`, on the incident's title, description and service
  pub classify : Incident → Result IncidentSpec
  -- `decide_next_action`: the answer to the n-th question of a run
  pub decide : ℕ → Fields → Result Decision
  -- `json.dumps(arguments, sort_keys=True)`, and what backend/app/context.py uses of the standard library
  pub dumps : Fields → String
  pub encoder : Encoder
  -- `rag.retrieve`, if retrieval is enabled
  pub retrieve : Option (Incident → Result Items)
  -- `self.service`
  pub has_service : Bool
  -- `interpretation` of an observation, and the log pattern of `evidence_confidence`
  pub interpretation : Observation → String
  pub failure_log : Fields → Bool
  -- the tool metadata and the topology as JSON
  pub tools : Items
  pub topology : Fields
  -- `type(exc).__name__`
  pub type_name : Error → String
  -- the metrics of the provider and the measured times that end a run
  pub ending : Fields
  -- the time at which the n-th step runs
  pub clock : ℕ → ℕ

unfoldable pub signature : (Fields → String) → String → Fields → String
signature dumps tool arguments = (tool <> ":") <> dumps arguments

-- `{**state, **updates}`
abbrev pub merge : Fields → Fields → Fields
merge state end = state
merge state (field k v updates) = merge (insert k v state) updates

abbrev pub number : ℕ → Value
number n = int (pos n)

abbrev pub append_item : Items → Value → Items
append_item nil v = cons v nil
append_item (cons w ws) v = cons w (append_item ws v)

-- the items after the first n
abbrev pub drop_items : ℕ → Items → Items
drop_items zero vs = vs
drop_items (suc n) nil = nil
drop_items (suc n) (cons v vs) = drop_items n vs

-- `values[-n:]`, which is the whole list for n = 0
unfoldable pub last_items : ℕ → Items → Items
last_items zero vs = vs
last_items (suc n) vs = drop_items (item_count vs - suc n) vs

abbrev pub items_of : Value → Items
items_of (arr vs) = vs
items_of _ = nil

-- `step_timings` with one more entry
unfoldable pub with_timing : ℕ → Value → Items → Items
with_timing max_steps entry timings = append_item (last_items (max_steps - 1) timings) entry

-- the entry, with the tool if there is one
unfoldable pub timing_entry : ℕ → String → Option String → Fields
timing_entry step phase tool =
    field "step" (number step)
      (field "phase" (str phase) (elim tool [ none ↦ end | some t ↦ field "tool" (str t) end ]))

unfoldable pub has_kind : String → Value → Bool
unfolding string_eq
has_kind kind (obj fs) = is_str kind (get "kind" fs)
has_kind kind _ = false

-- `[x for x in found if x.get('kind') == kind]`
unfoldable pub of_kind : String → Items → Items
of_kind kind nil = nil
of_kind kind (cons v vs) =
    let rest = of_kind kind vs in if has_kind kind v then cons v rest else rest

module _ (e : Env) (incident_id : String) where
  -- `session.get(Incident, incident_id)`, of which an attribute is read
  unfoldable pub load : M Incident
  load s = or_raise (find_incident incident_id s) (attribute_error "no such incident") s

  unfoldable pub change_state : (Fields → Fields) → M (Unit {0})
  change_state f = do
    incident ← load
    set_incident incident_id (λ i. record i { agent_state = f i.agent_state })

  unfoldable pub update_state : Fields → M (Unit {0})
  update_state updates = change_state (λ state. merge state (redact_all e 16000 updates))

  unfoldable pub record_step_timing : ℕ → String → Option String → M (Unit {0})
  record_step_timing step phase tool = change_state (λ state.
      insert "step_timings"
        (arr (
          with_timing e.settings.agent_max_steps (obj (timing_entry step phase tool))
            (items_of (get "step_timings" state))))
        state)

  -- an answer, or what is noted of a failure
  rag_updates : Result Items → Fields
  rag_updates (ok found) = field "retrieved_incidents" (arr (of_kind "incident" found)) (
      field "retrieved_runbooks" (arr (of_kind "runbook" found))
        (field "rag_status" (str "READY") end))
  rag_updates (err x) = field "rag_status" (str "UNAVAILABLE") (
      field "rag_error" (str (redact_text e.secret_key e.scrub 300 (message x)))
        (field "rag_failure_kind" (str (kind_text infrastructure_failure)) end))

  abbrev failed : Result Items → Bool
  failed (ok found) = false
  failed (err x) = true

  unfoldable pub retrieve_rag : Option (Incident → Result Items) → M (Unit {0})
  unfolding rag_updates
  retrieve_rag none = pure tt
  retrieve_rag (some retrieve) = do
    incident ← load
    let found = retrieve incident
    update_state (rag_updates found)
    when (failed found) (audit incident_id "rag_unavailable")
