-- ===== src/Host/Server.antt =====
-- The request handler `execute` of diagnostic_gateway/main.py after authentication. The tools, their argument
-- models and their scopes are parameters, and so are the ledger's; durations and logs are left out.
use Prim.Native.Nat.{◌/◌}
use home_ai_agent.Base.{
  ℕ, ◌+◌, Bool, true, false, Option, none, some, List, [], ◌∷◌, ◌++◌, String, string_eq, length,
  leb, ltb, mentions, if◌then◌else◌,
}
use home_ai_agent.Json.{Value, bool, int, str, obj, Fields, end, field}
use home_ai_agent.Json.Number.{pos}
use home_ai_agent.Host.Ledger.{Approval, Consumed, ApprovalError, consume, complete}

-- how a handler or a scope check fails: a `ToolError`, a `TimeoutError`, or any other exception
pub data Failure : Type 0 where
  tool_error : String → Option String → Failure
  timed_out other_failure : Failure

pub data Outcome : Type 0 where
  returned : Value → Outcome
  failed : Failure → Outcome

pub data Reply : Type 0 where
  not_found too_large unprocessable writes_disabled : Reply
  refused : ApprovalError → Reply
  response : Fields → Reply

-- one execution of a handler, with the approval that a write consumed
pub record Run : Type 0 where
  pub tool : String
  pub arguments : Fields
  pub action_id : Option String

pub record Server : Type 0 where
  -- present if writes are enabled
  pub ledger : Option (List Consumed)
  pub runs : List Run

pub record Request : Type 0 where
  pub now : ℕ
  pub name : String
  pub chunks : List (List ℕ)
  pub action_id : String
  pub expires : String
  pub signature : String

pub record Tools : Type 0 where
  -- whether the risk level is READ_ONLY, for each tool that is enabled
  pub definitions : String → Option Bool
  -- the validated arguments of a body
  pub parse_arguments : String → List ℕ → Option Fields
  pub validate_scope : String → Fields → Option Failure
  pub handler : List Run → String → Fields → Outcome
  pub redact : Value → Value
  pub redact_text : String → String
  -- the encoded size of a value, and the text of its first bytes
  pub encoded_size : Value → ℕ
  pub preview : ℕ → Value → String
  pub max_output_bytes : ℕ
  pub parse_expiry : String → Option ℕ
  pub sign : String → String → String → Fields → String → String
  pub approval_secret : String

-- the body, unless its chunks exceed the limit
unfoldable pub read_body : List (List ℕ) → List ℕ → Option (List ℕ)
read_body [] body = some body
read_body (chunk ∷ chunks) body =
    let rest = read_body chunks (body ++ chunk) in
    if ltb 8192 (length body + length chunk) then none else rest

-- an empty body is `{}`
unfoldable pub default_body : List ℕ → List ℕ
default_body [] = b'{' ∷ b'}' ∷ []
default_body (b ∷ bs) = b ∷ bs

module _ (t : Tools) where
  unfoldable pub bounded_result : Value → Value
  bounded_result result =
      let safe = t.redact result in
      let size = t.encoded_size safe in
      if leb size t.max_output_bytes
      then safe
      else obj (
          field "truncated" (bool true) (
            field "output_limit_bytes" (int (pos t.max_output_bytes)) (
              field "original_bytes" (int (pos size))
                (field "preview" (str (t.preview (t.max_output_bytes / 2) safe)) end))))

  abbrev error_code : String → Option String → String
  error_code message none =
      if mentions ("timeout" ∷ "timed out" ∷ []) message then "TOOL_TIMEOUT" else "TOOL_FAILURE"
  error_code message (some code) = code

  abbrev error_response : String → String → String → Fields
  error_response name message code = field "tool" (str name) (
      field "ok" (bool false) (
        field "result" (obj end) (field "error" (str message) (field "error_code" (str code) end))))

  unfoldable pub respond : String → Outcome → Fields
  unfolding bounded_result
  respond name (returned v) =
      field "tool" (str name) (field "ok" (bool true) (field "result" (bounded_result v) end))
  respond name (failed (tool_error message code)) =
      error_response name (t.redact_text message) (error_code message code)
  respond name (failed timed_out) =
      error_response name "Diagnostic failed; inspect the gateway service state" "TOOL_FAILURE"
  respond name (failed other_failure) =
      error_response name "Diagnostic failed; inspect the gateway service state" "TOOL_FAILURE"

  abbrev pub with_run : String → Fields → Option String → Server → Server
  with_run name arguments id s = record s {
    runs = s.runs ++ (record { tool = name; arguments = arguments; action_id = id } ∷ []);
  }

  -- a write: its approval is consumed first, and then the response is stored with it
  unfoldable pub run_write : Request → Fields → Server → Reply × Server
  unfolding respond
  run_write r arguments s = elim s.ledger [
    | none ↦ (writes_disabled, s)
    | some rows ↦
        let a : Approval = record {
          action_id = r.action_id;
          tool = r.name;
          arguments = arguments;
          expires = r.expires;
          signature = r.signature;
        } in
        let (e, taken) = consume t.parse_expiry t.sign t.approval_secret r.now a rows in
        elim e [
          | some x ↦ (refused x, s)
          | none ↦
              let answer = respond r.name (t.handler s.runs r.name arguments) in
              (
                response answer,
                with_run r.name arguments (some r.action_id)
                    (record s { ledger = some (complete r.action_id answer taken) }),
              )
        ]
  ]

  unfoldable pub run_tool : Request → Bool → Fields → Server → Reply × Server
  unfolding respond
  run_tool r read_only arguments s = elim (t.validate_scope r.name arguments) [
    | some failure ↦ (response (respond r.name (failed failure)), s)
    | none ↦
        if read_only
        then (
          response (respond r.name (t.handler s.runs r.name arguments)),
          with_run r.name arguments none s,
        )
        else run_write r arguments s
  ]

  unfoldable pub execute : Request → Server → Reply × Server
  execute r s = elim (t.definitions r.name) [
    | none ↦ (not_found, s)
    | some read_only ↦ elim (read_body r.chunks []) [
      | none ↦ (too_large, s)
      | some body ↦ elim (t.parse_arguments r.name (default_body body)) [
        | none ↦ (unprocessable, s)
        | some arguments ↦ run_tool r read_only arguments s
      ]
    ]
  ]

  -- requests one after another
  unfoldable pub serve : List Request → Server → Server
  serve [] s = s
  serve (r ∷ rs) s = serve rs (execute r s).1
