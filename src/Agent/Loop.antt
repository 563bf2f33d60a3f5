-- ===== src/Agent/Loop.antt =====
-- `_run` and `investigate` of backend/app/agent.py: the bounded loop of decisions. What `wait_for` cuts off
-- comes as an error from the model or the host; the limit on the whole run
-- and the class names that stand for empty messages are not modelled.
use home_ai_agent.Base.{
  ℕ, zero, suc, ◌+◌, ◌-◌, min, Bool, true, false, not, ◌||◌, Option, none, some, [], ◌∷◌, String,
  string_eq, length, leb, ltb, Result, ok, err, Error, value_error, schema_error, attribute_error,
  message, timeout_error, if◌then◌else◌,
}
use Prim.Native.String.{◌++◌ as ◌<>◌}
use home_ai_agent.Json.{
  Value, bool, str, float, obj, Items, Fields, end, field, get_or, get, lookup, truthy,
}
use home_ai_agent.Json.Number.{pos}
use home_ai_agent.Model.{
  Incident, IncidentStatus, investigating, waiting_for_approval, verifying, resolved, failed,
  Settings,
}
use home_ai_agent.Gateway.{Registry, is_write, validate_tool}
use home_ai_agent.Failures.{
  model_failure_kind, kind_text, infrastructure_failure, model_invalid_output,
}
use home_ai_agent.Routing.{
  IncidentSpec, initial_diagnostic, Category, http_service, container, process, systemd_service,
  network, disk, database, unknown,
}
use home_ai_agent.Agent.Decision.{Decision, validate_decision}
use home_ai_agent.Agent.Context.{context}
use home_ai_agent.Agent.Decide.{
  text_or, Next, again, finished, clean, carry_out, diagnose, next_action,
}
use home_ai_agent.Agent.State.{
  Provider, load, update_state, record_step_timing, retrieve_rag, number, signature, merge,
}
use home_ai_agent.Store.{
  Env, M, ◌>>=◌, ◌>>◌, pure, raise, gets, lift, modify, result_of, when, observations_of,
  find_incident, set_incident, audit,
}

-- `feedback`, `invalid_count` and `rag_retrieved`
pub record Locals : Type 0 where
  pub feedback : String
  pub invalid : ℕ
  pub retrieved : Bool

-- `isinstance(exc, (ValueError, SchemaError))`
abbrev pub is_rejection : Error → Bool
is_rejection (value_error _) = true
is_rejection (schema_error _) = true
is_rejection _ = false

abbrev is_attribute_error : Error → Bool
is_attribute_error (attribute_error _) = true
is_attribute_error _ = false

-- the tools that the deployment allows
unfoldable pub allowed_tools : Bool → Registry → Registry
allowed_tools writes [] = []
allowed_tools writes ((name, entry) ∷ rest) =
    let others = allowed_tools writes rest in
    if not (is_write name) || writes then (name, entry) ∷ others else others

abbrev pub max_decisions : Settings → ℕ
max_decisions s = min s.agent_max_steps s.agent_max_model_calls

abbrev failure_of : String → String → Option ℕ → String → Fields
failure_of kind source step text = field "kind" (str kind) (
    field "source" (str source) (elim step [
      | none ↦ field "message" (str text) end
      | some n ↦ field "step" (number n) (field "message" (str text) end)
    ]))

abbrev category_text : Category → String
category_text http_service = "http_service"
category_text container = "container"
category_text process = "process"
category_text systemd_service = "systemd_service"
category_text network = "network"
category_text disk = "disk"
category_text database = "database"
category_text unknown = "unknown"

-- `spec.model_dump()`, without the symptom
abbrev pub dump_spec : IncidentSpec → Fields
dump_spec spec =
    field "category" (str (category_text spec.category))
      (field "target" (str spec.target) (field "confidence" (float (pos spec.confidence)) end))

abbrev route_reason : String
route_reason = "Deterministic category route"

module _ (e : Env) (p : Provider) (incident_id : String) where
  -- retrieval, once enough was observed
  unfoldable pub retrieve_once : Bool → M Bool
  retrieve_once true = pure true
  retrieve_once false = do
    count ← gets (λ s. length (observations_of incident_id s))
    let ready = leb e.settings.rag_retrieve_after_observations count
    when ready (retrieve_rag e incident_id p.retrieve)
    pure ready

  unfoldable pub failed_model : ℕ → Error → M Decision
  failed_model step x = do
    update_state e incident_id (
        field "phase" (str "MODEL_FAILED") (
          field "last_failure"
            (obj (
              failure_of (kind_text (model_failure_kind x)) "model" (some step)
                (text_or (clean e p incident_id 500 (message x)) (p.type_name x))))
            end))
    audit incident_id "model_failure"
    record_step_timing e incident_id step "MODEL_FAILED" none
    raise x

  unfoldable pub ask : ℕ → Result Decision → M Decision
  ask step (ok d) = do lift (validate_decision d); audit incident_id "model_decision"; pure d
  ask step (err x) = failed_model step x

  -- the question to the model, of which one is counted
  unfoldable pub decide : ℕ → Fields → M Decision
  decide step shown = do
    asked ← gets (λ s. s.asked)
    modify (λ s. record s { asked = suc s.asked })
    ask step (p.decide asked shown)

  -- a rejected decision becomes feedback, and the third one ends the investigation
  unfoldable pub reject : ℕ → Option String → ℕ → Error → M String
  reject step tool invalid x = do
    let feedback = clean e p incident_id 1000 (message x)
    audit incident_id "decision_rejected"
    update_state e incident_id (
        field "validation_failures" (number invalid)
          (field "validation_feedback" (str feedback) end))
    record_step_timing e incident_id step "DECISION_REJECTED" tool
    if ltb invalid 3
        then pure feedback
        else update_state e incident_id (
            field "loop_detected" (bool true) (
              field "loop_reason" (str "REJECTED_DECISION_LIMIT") (
                field "last_failure"
                  (obj (
                    failure_of (kind_text model_invalid_output) "model_policy" (some step)
                      "Repeated rejected model decisions"))
                  end)))
          >> raise
              (value_error ("Investigation stopped after three rejected decisions: " <> feedback))

  abbrev progress : ℕ → ℕ → Fields
  progress step left = field "phase" (str "REASONING") (
      field "step" (number step) (
        field "remaining_steps" (number left) (
          field "model_calls" (number step)
            (field "model_call_budget" (number (step + left - 1)) end))))

  -- what follows a decision: a `return`, or the locals of the next step
  unfoldable pub conclude : ℕ → Option String → Bool → ℕ → Result Next → M (Option Locals)
  conclude step tool retrieved invalid (ok finished) = pure none
  conclude step tool retrieved invalid (ok (again feedback)) =
      pure (some (record { feedback = feedback; invalid = invalid; retrieved = retrieved }))
  conclude step tool retrieved invalid (err x) =
      if is_rejection x
      then (do
        feedback ← reject step tool (suc invalid) x
        pure (some (record { feedback = feedback; invalid = suc invalid; retrieved = retrieved })))
      else raise x

  -- one iteration; `left` counts this one too
  unfoldable pub take_step : Registry → ℕ → ℕ → Locals → M (Option Locals)
  take_step registry step left st = do
    retrieved ← retrieve_once st.retrieved
    update_state e incident_id (progress step left)
    shown ← context e p incident_id st.feedback
    d ← decide step shown
    next ← result_of (carry_out e p incident_id registry (p.clock step) step d)
    conclude step d.tool retrieved st.invalid next

  unfoldable pub exhausted : M (Unit {0})
  exhausted =
      let text =
        if ltb e.settings.agent_max_model_calls e.settings.agent_max_steps
        then "Model decision budget exhausted"
        else "Maximum agent decision steps reached" in
      update_state e incident_id (
        field "loop_detected" (bool true) (
          field "loop_reason"
            (str (
              if ltb e.settings.agent_max_model_calls e.settings.agent_max_steps
              then "MODEL_CALL_BUDGET"
              else "STEP_BUDGET"))
            (field "last_failure"
              (obj (failure_of (kind_text model_invalid_output) "model_policy" none text)) end)))
      >> raise (value_error (text <> " without sufficient evidence"))

  -- `for step in range(max_decisions)`, with `left` iterations to go
  unfoldable pub loop : Registry → ℕ → ℕ → Locals → M (Unit {0})
  loop registry step zero st = exhausted
  loop registry step (suc left) st = do
    next ← take_step registry step (suc left) st
    elim next [ none ↦ pure tt | some later ↦ loop registry (suc step) left later ]

  abbrev unclassified : IncidentSpec
  unclassified = record { category = unknown; target = ""; confidence = 0 }

  -- `incident_spec`; a provider without a classifier is not reported
  unfoldable pub classified : Result IncidentSpec → M IncidentSpec
  classified (ok spec) = pure spec
  classified (err x) =
      if is_attribute_error x
      then pure unclassified
      else audit incident_id "incident_classification_unavailable" >> pure unclassified

  unfoldable pub classify : M IncidentSpec
  classify = do incident ← load e incident_id; classified (p.classify incident)

  unfoldable pub make_diagnostic : Registry → String → Fields → M (Unit {0})
  make_diagnostic registry tool arguments = do
    entry ← lift (validate_tool e.schema_valid registry tool arguments false)
    modify (λ s. record s { seen = signature p.dumps tool arguments ∷ s.seen })
    update_state e incident_id (next_action e p incident_id tool arguments route_reason)
    id ← diagnose e p incident_id (p.clock 0) tool arguments
    audit incident_id "deterministic_diagnostic"

  -- the diagnostic of the deterministic route
  unfoldable pub follow_route : Registry → Option (String × Fields) → M (Unit {0})
  follow_route registry none = pure tt
  follow_route registry (some (tool, arguments)) = make_diagnostic registry tool arguments

  -- it is one decision less for the model
  unfoldable pub budget_after : ℕ → Option (String × Fields) → ℕ
  budget_after budget none = budget
  budget_after budget (some _) = budget - 1

  abbrev is_none : Option (Incident → Result Items) → Bool
  is_none none = true
  is_none (some _) = false

  abbrev pub first_locals : Locals
  first_locals = record { feedback = ""; invalid = 0; retrieved = is_none p.retrieve }

  unfoldable pub route_and_loop : Registry → IncidentSpec → M (Unit {0})
  route_and_loop registry spec = do
    update_state e incident_id (field "incident_spec" (obj (dump_spec spec)) end)
    audit incident_id "incident_classified"
    let route = initial_diagnostic spec registry
    follow_route registry route
    loop registry 1 (budget_after (max_decisions e.settings) route) first_locals

  unfoldable pub run : M (Unit {0})
  run = do
    everything ← lift e.registry
    let registry = allowed_tools e.settings.enable_write_actions everything
    modify (λ s. record s { seen = [] })
    spec ← classify
    route_and_loop registry spec

  -- `incident.agent_state.get('last_failure', {})`, of which the entries are read
  unfoldable pub prior_failure : Fields → Result Fields
  prior_failure state = elim (lookup "last_failure" state) [
    | none ↦ ok end
    | some v ↦ elim v [
      | obj prior ↦ ok prior
      | _ ↦ err (attribute_error "object has no attribute 'get'")
    ]
  ]

  unfoldable pub failure_kind : Fields → Value
  failure_kind prior =
      if truthy (get "kind" prior) then get "kind" prior else str (kind_text infrastructure_failure)

  abbrev pub runtime_limit : Error → Bool
  runtime_limit (timeout_error _) = true
  runtime_limit _ = false

  unfoldable pub failure_source : Error → Fields → Value
  failure_source x prior =
      get_or "source" (str (if runtime_limit x then "agent_runtime" else "agent")) prior

  -- the text of a failed run; an error without a message has the name of its class
  unfoldable pub failed_text : Error → String
  failed_text x =
      if runtime_limit x
      then "Investigation runtime limit reached"
      else text_or (clean e p incident_id 1500 (message x)) (p.type_name x)

  unfoldable pub failed_incident : Error → Fields → Incident → Incident
  failed_incident x prior i = record i {
    status = failed;
    summary = some (failed_text x);
    agent_state = merge i.agent_state (
        field "phase" (str "FAILED") (
          field "error" (str (failed_text x)) (
            field "failure"
              (obj (
                field "kind" (failure_kind prior) (
                  field "message" (str (failed_text x))
                    (field "source" (failure_source x prior) end))))
              end)));
  }

  unfoldable pub fail : Error → M (Unit {0})
  fail x = do
    incident ← load e incident_id
    prior ← lift (prior_failure incident.agent_state)
    set_incident incident_id (failed_incident x prior)
    audit incident_id "investigation_failed"

  abbrev pub is_busy : IncidentStatus → Bool
  is_busy resolved = true
  is_busy verifying = true
  is_busy waiting_for_approval = true
  is_busy _ = false

  unfoldable pub begin : Incident → Incident
  begin i = record i {
    status = investigating;
    agent_state = merge i.agent_state (
        field "phase" (str "STARTING")
          (field "remaining_steps" (number e.settings.agent_max_steps) end));
  }

  unfoldable pub note_end : Result (Unit {0}) → M (Unit {0})
  note_end (ok _) = pure tt
  note_end (err x) = fail x

  -- `try: … except Exception as exc: … finally: …`
  unfoldable pub investigate_open : M (Unit {0})
  investigate_open = do
    set_incident incident_id begin
    ended ← result_of run
    noted ← result_of (note_end ended)
    update_state e incident_id p.ending
    lift noted

  unfoldable pub investigate : M (Unit {0})
  investigate s = elim (find_incident incident_id s) [
    | none ↦ (ok tt, s)
    | some incident ↦ if is_busy incident.status then (ok tt, s) else investigate_open s
  ]
