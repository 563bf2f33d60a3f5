-- ===== src/Gateway/Policy.antt =====
-- What a call that `validate_tool` accepts is known to satisfy.
use home_ai_agent.Base.{Bool, true, false, some, String, string_eq, ◌≡◌, ◌↔◌, ok, arith, ◌⊎◌}
use home_ai_agent.Json.{Fields, get, is_str, str, is_str-eq}
use home_ai_agent.Gateway.{
  ToolEntry, Registry, find_tool, is_read, is_write, lookup_tool, check_risk, check_schema,
  validate_tool,
}

-- the conditions under which a call may be sent, independent of the order of the tests
pub record IsAllowed (schema_valid : Fields → Fields → Bool) (registry : Registry) (tool : String)
    (arguments : Fields) (allow_write : Bool) (entry : ToolEntry) : Type 0 where
  pub registered : find_tool registry tool ≡ some entry
  pub listed : (is_read tool ≡ true) ⊎ (is_write tool ≡ true)
  pub write_risk :
      is_write tool ≡ true → (allow_write ≡ true) × (entry.risk_level ≡ some "LOW_RISK_WRITE")
  pub read_risk : is_write tool ≡ false → entry.risk_level ≡ some "READ_ONLY"
  pub object_schema : get "type" entry.parameters ≡ str "object"
  pub valid : schema_valid entry.parameters arguments ≡ true

lookup_tool-ok :
    (registry : Registry) (tool : String) {entry : ToolEntry}
    → lookup_tool registry tool ≡ ok entry
    → (find_tool registry tool ≡ some entry) × ((is_read tool ≡ true) ⊎ (is_write tool ≡ true))
unfolding lookup_tool
lookup_tool-ok registry tool h = ground arith

check_risk-write :
    (tool : String) (allow_write : Bool) (entry : ToolEntry)
    → check_risk tool allow_write entry ≡ ok tt
    → is_write tool ≡ true
    → (allow_write ≡ true) × (entry.risk_level ≡ some "LOW_RISK_WRITE")
unfolding check_risk
check_risk-write tool allow_write entry h = ground arith

check_risk-read :
    (tool : String) (allow_write : Bool) (entry : ToolEntry)
    → check_risk tool allow_write entry ≡ ok tt
    → is_write tool ≡ false
    → entry.risk_level ≡ some "READ_ONLY"
unfolding check_risk
check_risk-read tool allow_write entry h = ground arith

check_schema-ok :
    (schema_valid : Fields → Fields → Bool) (entry : ToolEntry) (arguments : Fields)
    → check_schema schema_valid entry arguments ≡ ok tt
    → (is_str "object" (get "type" entry.parameters) ≡ true)
      × (schema_valid entry.parameters arguments ≡ true)
unfolding check_schema
check_schema-ok schema_valid entry arguments h = ground arith

module _ (schema_valid : Fields → Fields → Bool) (registry : Registry) (tool : String)
    (arguments : Fields) (allow_write : Bool) where
  validate_tool-steps :
      {entry : ToolEntry}
      → validate_tool schema_valid registry tool arguments allow_write ≡ ok entry
      → (lookup_tool registry tool ≡ ok entry)
        × (check_risk tool allow_write entry ≡ ok tt)
        × (check_schema schema_valid entry arguments ≡ ok tt)
  unfolding validate_tool
  validate_tool-steps h = ground arith

  validate_tool-IsAllowed :
      (entry : ToolEntry)
      → validate_tool schema_valid registry tool arguments allow_write ≡ ok entry
      → IsAllowed schema_valid registry tool arguments allow_write entry
  validate_tool-IsAllowed entry h =
      let (found, risk, schema) = validate_tool-steps {entry = entry} h in
      let (registered, listed) = lookup_tool-ok registry tool found in
      let (typed, valid) = check_schema-ok schema_valid entry arguments schema in
      record {
        registered = registered;
        listed = listed;
        write_risk = check_risk-write tool allow_write entry risk;
        read_risk = check_risk-read tool allow_write entry risk;
        object_schema = is_str-eq "object" (get "type" entry.parameters) typed;
        valid = valid;
      }

  IsAllowed-validate_tool :
      (entry : ToolEntry)
      → IsAllowed schema_valid registry tool arguments allow_write entry
      → validate_tool schema_valid registry tool arguments allow_write ≡ ok entry
  unfolding validate_tool lookup_tool check_risk check_schema
  IsAllowed-validate_tool entry v = ground arith

  -- A call is accepted exactly when it names a listed and registered tool with arguments that its
  -- object schema accepts, a write tool only where writes were allowed and at low risk, any other only
  -- as read-only.
  pub validate_tool_iff :
      (entry : ToolEntry)
      → (validate_tool schema_valid registry tool arguments allow_write ≡ ok entry)
        ↔ IsAllowed schema_valid registry tool arguments allow_write entry
  validate_tool_iff entry = (validate_tool-IsAllowed entry, IsAllowed-validate_tool entry)
