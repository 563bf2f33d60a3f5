-- ===== src/Safety/Redaction.antt =====
-- `redact` of backend/app/safety.py: no value of a secret key is left, at any depth.
use home_ai_agent.Base.{ℕ, ◌-◌, ◌≡◌, refl, Bool, true, ◌&&◌, String, if◌then◌else◌, arith}
use home_ai_agent.Json.{
  Value, null, bool, int, float, str, arr, obj, Items, nil, cons, Fields, end, field, is_str,
}
use home_ai_agent.Safety.{redact, redact_items, redact_fields}

module _ (secret_key : String → Bool) where
  -- every secret key in a value holds the replacement text
  unfoldable mutual
    pub hides : Value → Bool
    hides null = true
    hides (bool b) = true
    hides (int z) = true
    hides (float z) = true
    hides (str s) = true
    hides (arr vs) = hides_items vs
    hides (obj fs) = hides_fields fs

    pub hides_items : Items → Bool
    hides_items nil = true
    hides_items (cons v vs) = let a = hides v in let b = hides_items vs in a && b

    pub hides_fields : Fields → Bool
    hides_fields end = true
    hides_fields (field k v fs) =
        let a = hides v in
        let b = hides_fields fs in (if secret_key k then is_str "[REDACTED]" v else a) && b

  module _ (scrub : String → String) (max_string : ℕ) where
    mutual
      unfolding redact redact_items redact_fields hides hides_items hides_fields

      redact_hides : (v : Value) → hides (redact secret_key scrub max_string v) ≡ true
      redact_hides null = refl
      redact_hides (bool b) = refl
      redact_hides (int z) = refl
      redact_hides (float z) = refl
      redact_hides (str s) = refl
      redact_hides (arr vs) = redact_hides_items vs 500
      redact_hides (obj fs) = redact_hides_fields fs

      redact_hides_items :
          (vs : Items) (n : ℕ) → hides_items (redact_items secret_key scrub max_string vs n) ≡ true
      redact_hides_items nil n = refl
      redact_hides_items (cons v vs) n =
          let a = redact_hides v in let b = redact_hides_items vs (n - 1) in ground arith

      redact_hides_fields :
          (fs : Fields) → hides_fields (redact_fields secret_key scrub max_string fs) ≡ true
      redact_hides_fields end = refl
      redact_hides_fields (field k v fs) =
          let a = redact_hides v in let b = redact_hides_fields fs in ground arith

    -- After redaction every secret key, at any depth of the value, holds the replacement text.
    pub hides-redact : (v : Value) → hides (redact secret_key scrub max_string v) ≡ true
    hides-redact v = redact_hides v
