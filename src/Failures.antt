-- ===== src/Failures.antt =====
-- backend/app/failures.py: the failure categories and how errors fall into them. `case-folding` is
-- lower-casing of ASCII here; pydantic's `ValidationError` is a `ValueError`.
use home_ai_agent.Base.{
  List, [], ◌∷◌, String, Error, value_error, timeout_error, http_timeout, transport_error,
  http_status_error, message, if◌then◌else◌, mentions,
}
use home_ai_agent.Json.{Value, str, truthy}

pub data FailureKind : Type 0 where
  model_timeout model_unavailable model_invalid_output tool_timeout tool_failure
        infrastructure_failure :
      FailureKind

-- the value of the enumeration, which is its name
abbrev pub kind_text : FailureKind → String
kind_text model_timeout = "MODEL_TIMEOUT"
kind_text model_unavailable = "MODEL_UNAVAILABLE"
kind_text model_invalid_output = "MODEL_INVALID_OUTPUT"
kind_text tool_timeout = "TOOL_TIMEOUT"
kind_text tool_failure = "TOOL_FAILURE"
kind_text infrastructure_failure = "INFRASTRUCTURE_FAILURE"

abbrev unavailable_markers : List String
unavailable_markers =
    "unavailable" ∷ "connection refused" ∷ "connection failed" ∷ "service error" ∷ "http 429"
    ∷ "http 502" ∷ "http 503" ∷ []

abbrev timeout_markers : List String
timeout_markers = "timeout" ∷ "timed out" ∷ "deadline" ∷ []

-- the classes that are tested after the message
by_class : Error → FailureKind
by_class (value_error _) = model_invalid_output
by_class (transport_error _) = model_unavailable
by_class _ = infrastructure_failure

unfoldable pub model_failure_kind : Error → FailureKind
unfolding by_class
model_failure_kind (timeout_error _) = model_timeout
model_failure_kind (http_timeout _) = model_timeout
model_failure_kind (http_status_error _) = model_unavailable
model_failure_kind e =
    if mentions unavailable_markers (message e) then model_unavailable else by_class e

-- a message alone, as an execution envelope carries it
unfoldable pub text_failure_kind : String → FailureKind
text_failure_kind text = if mentions timeout_markers text then tool_timeout else tool_failure

unfoldable pub tool_failure_kind : Error → FailureKind
unfolding text_failure_kind
tool_failure_kind (timeout_error _) = tool_timeout
tool_failure_kind (http_timeout _) = tool_timeout
tool_failure_kind (transport_error _) = infrastructure_failure
tool_failure_kind e = text_failure_kind (message e)

-- `tool_failure_kind(envelope.get('error'))`: `str(error or '')` of the value
unfoldable pub envelope_failure_kind : (Value → String) → Value → FailureKind
envelope_failure_kind str_of (str s) = text_failure_kind s
envelope_failure_kind str_of v = text_failure_kind (if truthy v then str_of v else "")
