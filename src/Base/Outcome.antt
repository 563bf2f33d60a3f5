-- ===== src/Base/Outcome.antt =====
-- Python's exceptions as values: by class, with their messages. `timeout_error` is
-- `asyncio.TimeoutError`, `http_timeout` httpx's `TimeoutException`, `transport_error` stands for httpx's other
-- request errors and for `OSError`, `schema_error` for jsonschema's `ValidationError`.
use Prim.Native.String.{String}
use mathlib.Core.Bool.{Bool, true, false}
use mathlib.Core.Path.{◌≡◌, refl}
use mathlib.Core.Logic.{◌⊎◌, inl, inr}

pub data Error : Type 0 where
  value_error lookup_error type_error attribute_error schema_error : String → Error
  timeout_error http_timeout transport_error http_status_error other_error : String → Error

-- `str(exc)`
abbrev pub message : Error → String
message (value_error text) = text
message (lookup_error text) = text
message (type_error text) = text
message (attribute_error text) = text
message (schema_error text) = text
message (timeout_error text) = text
message (http_timeout text) = text
message (transport_error text) = text
message (http_status_error text) = text
message (other_error text) = text

-- how a call ends: it raises, or it returns a value
pub data Result {ℓ} (T : Type ℓ) : Type ℓ where
  err : Error → Result T
  ok : T → Result T

infixl 5 ◌>>=◌ ◌>>◌
abbrev pub ◌>>=◌ {ℓ κ} : {T : Type ℓ} {U : Type κ} → Result T → (T → Result U) → Result U
call >>= rest = elim call [ err raised ↦ err raised | ok value ↦ rest value ]

abbrev pub ◌>>◌ {ℓ} : {U : Type ℓ} → Result (Unit {0}) → Result U → Result U
call >> rest = elim call [ err raised ↦ err raised | ok _ ↦ rest ]

-- `if not condition: raise error`
abbrev pub guard : Bool → Error → Result (Unit {0})
guard condition error = elim condition [ false ↦ err error | true ↦ ok tt ]

pub Result-cases {ℓ} :
    {A : Type ℓ} (r : Result A) → ((e : Error) × (r ≡ err e)) ⊎ ((a : A) × (r ≡ ok a))
Result-cases (err e) = inl (e, refl)
Result-cases (ok a) = inr (a, refl)

-- a value of a sequence comes from a value of its first part
pub then_ok {ℓ κ} :
    {A : Type ℓ} {B : Type κ} (r : Result A) (f : A → Result B) {b : B}
    → (r >>= f) ≡ ok b
    → (a : A) × (r ≡ ok a) × (f a ≡ ok b)
then_ok (err e) f h = absurd (cc)
then_ok (ok a) f h = (a, refl, h)
