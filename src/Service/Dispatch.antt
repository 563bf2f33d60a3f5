-- ===== src/Service/Dispatch.antt =====
-- `DiagnosticGateway.execute` of backend/app/gateway.py, which every tool call goes through, and the
-- ownership check of cited evidence (`validate_evidence` of backend/app/agent.py).
pub mod Sent
use home_ai_agent.Base.{
  ℕ, Bool, true, false, not, ◌&&◌, ◌||◌, Option, none, some, List, [], ◌∷◌, ◌++◌, String, ◌==◌,
  string_eq, nat_eq, contains, select, any, is_empty, length, Result, ok, err, Error, value_error,
  message, if◌then◌else◌,
}
use home_ai_agent.Json.{
  Value, bool, str, arr, obj, Items, nil, cons, Fields, end, field, get, is_true,
}
use home_ai_agent.Model.{Action, ApprovalStatus, approved, auto_authorized, Observation}
use home_ai_agent.Gateway.{is_write, validate_tool}
use home_ai_agent.Safety.{redact_fields, redact_text}
use home_ai_agent.Autonomy.Evidence.{distinct}
use home_ai_agent.Store.{
  Env, Store, Call, M, ◌>>=◌, ◌>>◌, pure, gets, lift, require, observations_of,
}

abbrev pub is_authorized : ApprovalStatus → Bool
is_authorized approved = true
is_authorized auto_authorized = true
is_authorized _ = false

module _ (e : Env) where
  -- the status of the approval and a configured signing secret
  unfoldable pub may_write : Option Action → Bool
  may_write none = false
  may_write (some a) = is_authorized a.approval_status && e.signing_secret

  -- the header of a write names the action
  abbrev pub call_of : String → Fields → Option Action → Call
  call_of tool arguments approval = record {
    tool = tool;
    arguments = arguments;
    approval = if is_write tool then (elim approval [ none ↦ none | some a ↦ some a.id ]) else none;
  }

  -- the request, and the host's redacted answer
  unfoldable pub send : Call → M Fields
  send call s = (
    elim (e.host s.calls call) [
      | err x ↦ err x
      | ok answer ↦ ok (redact_fields e.secret_key e.scrub 16000 answer)
    ],
    record s { calls = s.calls ++ (call ∷ []) },
  )

  abbrev pub is_given : Option Action → Bool
  is_given none = false
  is_given (some _) = true

  unfoldable pub execute : String → Fields → Option Action → M Fields
  execute tool arguments approval = do
    registry ← lift e.registry
    entry ← lift (validate_tool e.schema_valid registry tool arguments (is_given approval))
    require (not (is_write tool) || may_write approval)
        (value_error "Authorized action and configured signing secret required")
    send (call_of tool arguments approval)

  -- the envelope for a call that raised
  unfoldable pub failed_read : Error → Fields
  failed_read x = field "ok" (bool false) (
      field "result" (obj end)
        (field "error" (str (redact_text e.secret_key e.scrub 1000 (message x))) end))

  unfoldable pub failed_write : Error → Fields
  failed_write x = field "ok" (bool false) (
      field "error" (str (redact_text e.secret_key e.scrub 1000 (message x)))
        (field "outcome" (str "UNKNOWN_REQUIRES_INSPECTION") (field "result" (obj end) end)))

-- the texts of a JSON list, such as the identifiers in a report
unfoldable pub texts : Items → List String
texts nil = []
texts (cons (str s) rest) = s ∷ texts rest
texts (cons _ rest) = texts rest

-- `report.get('evidence_observation_ids', [])`
unfoldable pub evidence_ids : Fields → List String
unfolding texts
evidence_ids report = elim (get "evidence_observation_ids" report) [ arr ids ↦ texts ids | _ ↦ [] ]

unfoldable pub validate_evidence : String → List String → Store → Result (List Observation)
unfolding distinct
validate_evidence incident_id ids s =
    let cited = select (λ o. contains ids o.id) (observations_of incident_id s) in
    if is_empty ids
    then err (value_error "Diagnosis requires current observations")
    else if not (length cited == length (distinct ids))
    then err (value_error "Diagnosis cites nonexistent or unrelated observation IDs")
    else if any (λ o. is_true (get "ok" o.raw_result)) cited
    then ok cited
    else err (value_error "Failed tool transports alone cannot establish a root cause")
