-- ===== src/Json.antt =====
-- JSON values as the Python code handles them (tool arguments, results, expectations), with
-- `dict.get` and Python's `==`, under which `True`, `1` and `1.0` are equal.
-- A float is a whole number of thousandths.
pub mod Number
pub mod Matches
pub mod Same
use home_ai_agent.Base.{
  ℕ, zero, suc, ◌+◌, ◌≡◌, refl, arith, Bool, true, false, ◌&&◌, ◌||◌, Option, none, some, List, [],
  ◌∷◌, String, ◌==◌, if◌then◌else◌, string_eq, nat_eq,
}
use Number.{ℤ, thousandths, int_eq}

mutual
  -- the entries of an object, in insertion order
  pub data Fields : Type 0 where
    field : String → Value → Fields → Fields
    end : Fields

  pub data Items : Type 0 where
    cons : Value → Items → Items
    nil : Items

  pub data Value : Type 0 where
    obj : Fields → Value
    arr : Items → Value
    str : String → Value
    int float : ℤ → Value
    bool : Bool → Value
    null : Value

-- `d[k]`, if the key is there
abbrev pub lookup : String → Fields → Option Value
lookup k end = none
lookup k (field j v fs) = if k == j then some v else lookup k fs

-- `d.get(k, default)`
abbrev pub get_or : String → Value → Fields → Value
get_or k d fs = elim (lookup k fs) [ none ↦ d | some v ↦ v ]

-- `d.get(k)`: `None` and JSON's `null` are one value
abbrev pub get : String → Fields → Value
get k fs = get_or k null fs

-- `d[k] = v`
abbrev pub insert : String → Value → Fields → Fields
insert k v end = field k v end
insert k v (field j w fs) = if k == j then field k v fs else field j w (insert k v fs)

abbrev pub field_count : Fields → ℕ
field_count end = 0
field_count (field _ _ fs) = suc (field_count fs)

abbrev pub nth : Items → ℕ → Option Value
nth nil _ = none
nth (cons v vs) zero = some v
nth (cons v vs) (suc n) = nth vs n

abbrev pub item_count : Items → ℕ
item_count nil = 0
item_count (cons _ vs) = suc (item_count vs)

-- the numbers, in thousandths; `bool` is a subclass of `int`
abbrev pub number? : Value → Option ℤ
number? (bool true) = some (thousandths (ℤ.pos 1))
number? (bool false) = some (thousandths (ℤ.pos 0))
number? (int z) = some (thousandths z)
number? (float z) = some z
number? _ = none

abbrev same_number : Option ℤ → Option ℤ → Bool
same_number (some a) (some b) = a == b
same_number _ _ = false

-- `v == w`
unfoldable mutual
  unfolding string_eq nat_eq int_eq

  pub value_eq : Value → Value → Bool
  value_eq null w = elim w [ null ↦ true | _ ↦ false ]
  value_eq (bool b) w = same_number (number? (bool b)) (number? w)
  value_eq (int z) w = same_number (some (thousandths z)) (number? w)
  value_eq (float z) w = same_number (some z) (number? w)
  value_eq (str s) w = elim w [ str t ↦ s == t | _ ↦ false ]
  value_eq (arr vs) w = elim w [ arr ws ↦ items_eq vs ws | _ ↦ false ]
  value_eq (obj fs) w = elim w [
    | obj gs ↦ field_count fs == field_count gs && fields_within fs gs
    | _ ↦ false
  ]

  pub items_eq : Items → Items → Bool
  items_eq nil ws = elim ws [ nil ↦ true | cons _ _ ↦ false ]
  items_eq (cons v vs) ws = elim ws [ nil ↦ false | cons w rest ↦ value_eq v w && items_eq vs rest ]

  -- every key of the first dict has an equal value in the second
  pub fields_within : Fields → Fields → Bool
  fields_within end gs = true
  fields_within (field k v fs) gs =
      elim (lookup k gs) [ none ↦ false | some w ↦ value_eq v w ] && fields_within fs gs

-- `d == e` on dicts, whose keys are distinct
abbrev pub fields_eq : Fields → Fields → Bool
fields_eq fs gs = value_eq (obj fs) (obj gs)

-- `v is True` and `v is False`
abbrev pub is_true : Value → Bool
is_true (bool b) = b
is_true _ = false

abbrev pub is_false : Value → Bool
is_false (bool true) = false
is_false (bool false) = true
is_false _ = false

-- `v == 's'` for a text
abbrev pub is_str : String → Value → Bool
is_str s (str t) = t == s
is_str s _ = false

pub is_str-eq : (s : String) (v : Value) → is_str s v ≡ true → v ≡ str s
is_str-eq s (str t) h = ground arith
is_str-eq s null h = cc
is_str-eq s (bool b) h = cc
is_str-eq s (int z) h = cc
is_str-eq s (float z) h = cc
is_str-eq s (arr vs) h = cc
is_str-eq s (obj fs) h = cc

pub is_true-eq : (v : Value) → is_true v ≡ true → v ≡ bool true
is_true-eq (bool b) h = cc
is_true-eq null h = cc
is_true-eq (str s) h = cc
is_true-eq (int z) h = cc
is_true-eq (float z) h = cc
is_true-eq (arr vs) h = cc
is_true-eq (obj fs) h = cc

pub is_false-eq : (v : Value) → is_false v ≡ true → v ≡ bool false
is_false-eq (bool true) h = cc
is_false-eq (bool false) h = refl
is_false-eq null h = cc
is_false-eq (str s) h = cc
is_false-eq (int z) h = cc
is_false-eq (float z) h = cc
is_false-eq (arr vs) h = cc
is_false-eq (obj fs) h = cc

-- `bool(v)`
abbrev pub truthy : Value → Bool
truthy null = false
truthy (bool b) = b
truthy (int (ℤ.pos zero)) = false
truthy (float (ℤ.pos zero)) = false
truthy (str String.[]) = false
truthy (arr nil) = false
truthy (obj end) = false
truthy _ = true
