-- ===== src/Safety.antt =====
-- backend/app/safety.py. The regular expressions are outside the model: which keys are secret, and
-- what the substitutions make of a text, are parameters.
pub mod Confidence
pub mod Severities
pub mod Redaction
use Prim.Native.String.{count}
use home_ai_agent.Base.{
  ℕ, zero, suc, ◌+◌, ◌-◌, ◌≡◌, refl, Bool, true, false, List, [], ◌∷◌, String, if◌then◌else◌, not,
  ltb, leb, arith, take_chars,
}
use Prim.Native.String.{◌++◌ as ◌<>◌}
use home_ai_agent.Json.{
  Value, null, bool, int, float, str, arr, obj, Items, nil, cons, Fields, end, field,
}
use home_ai_agent.Json.Number.{ℤ, pos, negsuc}

-- `a < b` on thousandths
abbrev pub less : ℤ → ℤ → Bool
less (pos a) (pos b) = ltb a b
less (pos a) (negsuc b) = false
less (negsuc a) (pos b) = true
less (negsuc a) (negsuc b) = ltb b a

pub data Severity : Type 0 where
  critical high warning normal : Severity

-- the severity of a disk; the thresholds are `warning`, `high` and `critical` percent
unfoldable pub disk_severity : ℤ → ℤ → ℤ → ℤ → Severity
disk_severity percent at_warning at_high above_critical =
    if less above_critical percent
    then critical
    else if not (less percent at_high)
    then high
    else if not (less percent at_warning)
    then warning
    else normal

abbrev pub severity_text : Severity → String
severity_text critical = "critical"
severity_text high = "high"
severity_text warning = "warning"
severity_text normal = "normal"

module _ (secret_key : String → Bool) (scrub : String → String) (max_string : ℕ) where
  unfoldable pub redact_text : String → String
  redact_text s =
      let clean = scrub s in
      if ltb max_string (count clean) then take_chars max_string clean <> "…[truncated]" else clean

  unfoldable mutual
    unfolding redact_text

    pub redact : Value → Value
    redact null = null
    redact (bool b) = bool b
    redact (int z) = int z
    redact (float z) = float z
    redact (str s) = str (redact_text s)
    redact (arr vs) = arr (redact_items vs 500)
    redact (obj fs) = obj (redact_fields fs)

    -- `value[:500]`
    pub redact_items : Items → ℕ → Items
    redact_items nil left = nil
    redact_items (cons v vs) left =
        let w = redact v in
        let ws = redact_items vs (left - 1) in if ltb 0 left then cons w ws else nil

    pub redact_fields : Fields → Fields
    redact_fields end = end
    redact_fields (field k v fs) =
        let w = redact v in
        field k (if secret_key k then str "[REDACTED]" else w) (redact_fields fs)
