-- ===== src/Tests/Host.antt =====
-- One signed restart on the host gateway, sent twice.
use home_ai_agent.Base.{
  ℕ, ◌≤◌, ◌≡◌, refl, true, false, Option, none, some, List, [], ◌∷◌, String, string_eq, nat_eq,
  codes,
}
use home_ai_agent.Json.{null, Fields, end}
use home_ai_agent.Host.Ledger.{
  Approval, Consumed, valid_id, is_consumed, check_signature, consume, complete, already_consumed,
}
use home_ai_agent.Host.Server.{
  Tools, Server, Request, refused, returned, execute, serve, run_tool, run_write, read_body,
  default_body, respond, bounded_result,
}
use home_ai_agent.Host.Once.{IsValid, consume-IsValid, used, serve-once}

abbrev secret : String
secret = "0123456789abcdef0123456789abcdef"

abbrev parse : String → Option ℕ
parse text = some 1100

abbrev sign : String → String → String → Fields → String → String
sign key action tool arguments expires = action

abbrev approval : Approval
approval = record {
  action_id = "action-01";
  tool = "restart_container";
  arguments = end;
  expires = "1100";
  signature = "action-01";
}

abbrev taken : List Consumed
taken = (consume parse sign secret 1000 approval []).1

accepted : consume parse sign secret 1000 approval [] ≡ (none, taken)
unfolding consume valid_id codes check_signature string_eq nat_eq
accepted = refl

consume-IsValid_example :
    IsValid parse sign secret 1000 approval []
    × (is_consumed "action-01" taken ≡ true)
    × ((id : String) → is_consumed id [] ≡ true → is_consumed id taken ≡ true)
consume-IsValid_example = consume-IsValid parse sign secret 1000 approval [] taken accepted

abbrev tools : Tools
tools = record {
  definitions = λ name. some false;
  parse_arguments = λ name body. some end;
  validate_scope = λ name arguments. none;
  handler = λ runs name arguments. returned null;
  redact = λ v. v;
  redact_text = λ text. text;
  encoded_size = λ v. 4;
  preview = λ n v. "";
  max_output_bytes = 32768;
  parse_expiry = parse;
  sign = sign;
  approval_secret = secret;
}

abbrev restart : Request
restart = record {
  now = 1000;
  name = "restart_container";
  chunks = [];
  action_id = "action-01";
  expires = "1100";
  signature = "action-01";
}

abbrev start : Server
start = record { ledger = some []; runs = [] }

replayed : (execute tools restart (execute tools restart start).1).0 ≡ refused already_consumed
unfolding execute read_body default_body run_tool run_write respond bounded_result complete consume
    valid_id codes check_signature string_eq nat_eq
replayed = refl

ran_once : used "action-01" (serve tools (restart ∷ restart ∷ []) start).runs ≡ 1
unfolding serve execute read_body default_body run_tool run_write respond bounded_result complete
    consume valid_id codes check_signature string_eq nat_eq
ran_once = refl

serve-once_example : used "action-01" (serve tools (restart ∷ restart ∷ []) start).runs ≤ 1
serve-once_example = serve-once tools "action-01" (restart ∷ restart ∷ []) (some [])
