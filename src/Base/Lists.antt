-- ===== src/Base/Lists.antt =====
-- Lists under native lengths, with the list comprehensions and searches of the source.
use Prim.Native.Nat.{ℕ, zero, suc, ◌+◌}
use mathlib.Core.Path.{◌≡◌, refl}
use mathlib.Core.Logic.{◌⊎◌, inl, inr}
use mathlib.Core.Bool.{Bool, true, false, ◌&&◌, ◌||◌}
use mathlib.Core.Option.{Option, none, some}
use mathlib.Core.List.{List, [], ◌∷◌, ◌++◌}
use native.Mathlib.Omega.{arith}
use home_ai_agent.Base.Equality.{if◌then◌else◌, Eq, contains, Bool-cases, Option-cases}

module _ {ℓ} {A : Type ℓ} where
  abbrev pub length : List A → ℕ
  length [] = 0
  length (_ ∷ xs) = suc (length xs)

  -- `[x for x in xs if p(x)]`
  abbrev pub select : (A → Bool) → List A → List A
  select p [] = []
  select p (x ∷ xs) = let rest = select p xs in if p x then x ∷ rest else rest

  -- `any(p(x) for x in xs)` and `all(p(x) for x in xs)`
  abbrev pub any : (A → Bool) → List A → Bool
  any p [] = false
  any p (x ∷ xs) = p x || any p xs

  abbrev pub all : (A → Bool) → List A → Bool
  all p [] = true
  all p (x ∷ xs) = p x && all p xs

  -- `next((x for x in xs if p(x)), None)`
  abbrev pub find : (A → Bool) → List A → Option A
  find p [] = none
  find p (x ∷ xs) = if p x then some x else find p xs

  -- `xs[-1] if xs else None`
  abbrev pub last : List A → Option A
  last [] = none
  last (x ∷ xs) = elim (last xs) [ none ↦ some x | some y ↦ some y ]

  abbrev pub is_empty : List A → Bool
  is_empty [] = true
  is_empty (_ ∷ _) = false

  abbrev pub take : ℕ → List A → List A
  take zero xs = []
  take (suc n) [] = []
  take (suc n) (x ∷ xs) = x ∷ take n xs

  -- every entry satisfies `P`
  abbrev pub All {κ} : (A → Type κ) → List A → Type κ
  All P [] = Unit
  All P (x ∷ xs) = P x × All P xs

  -- membership as data, for types without a decided equality
  pub data In (a : A) : List A → Type ℓ where
    head : {x : A} {xs : List A} → a ≡ x → In a (x ∷ xs)
    tail : {x : A} {xs : List A} → In a xs → In a (x ∷ xs)

  pub length-append : (xs ys : List A) → length (xs ++ ys) ≡ length xs + length ys
  length-append [] ys = omega arith
  length-append (x ∷ xs) ys = omega (arith, length-append xs ys)

  pub not_In-nil : {a : A} → ¬ In a []
  not_In-nil i = elim i [ ]

  pub In-cases : {a x : A} {xs : List A} → In a (x ∷ xs) → (a ≡ x) ⊎ In a xs
  In-cases (head e) = inl e
  In-cases (tail i) = inr i

  -- what a comprehension keeps passes its test and stands in the list
  pub select-In : (p : A → Bool) (xs : List A) {a : A} → In a (select p xs) → In a xs × (p a ≡ true)
  select-In p [] i = elim i [ ]
  select-In p (x ∷ xs) {a} i = elim (Bool-cases (p x)) [
    | inl keep ↦ kept keep (select-In p xs) (In-cases (rw keep at i))
    | inr drop ↦ let (j, h) = select-In p xs (rw drop at i) in (tail j, h)
  ]
    where
      kept :
          p x ≡ true
          → (In a (select p xs) → In a xs × (p a ≡ true))
          → (a ≡ x) ⊎ In a (select p xs)
          → In a (x ∷ xs) × (p a ≡ true)
      kept keep more (inl e) = (head e, rw e keep)
      kept keep more (inr j) = (tail (more j).0, (more j).1)

  pub last-In : (xs : List A) {a : A} → last xs ≡ some a → In a xs
  last-In [] e = cc
  last-In (x ∷ xs) {a} e = elim (Option-cases (last xs)) [
    | inl done ↦ head (ground (arith))
    | inr (y, h) ↦ tail (last-In xs (ground (arith)))
  ]

  pub find-In : (p : A → Bool) (xs : List A) {a : A} → find p xs ≡ some a → In a xs × (p a ≡ true)
  find-In p [] e = cc
  find-In p (x ∷ xs) {a} e = elim (Bool-cases (p x)) [
    | inl hit ↦ (head (ground arith), ground arith)
    | inr miss ↦ let (j, h) = find-In p xs (ground arith) in (tail j, h)
  ]

  pub any-In : (p : A → Bool) (xs : List A) → any p xs ≡ true → (a : A) × In a xs × (p a ≡ true)
  any-In p [] e = cc
  any-In p (x ∷ xs) e = elim (Bool-cases (p x)) [
    | inl hit ↦ (x, head refl, hit)
    | inr miss ↦ let (a, j, h) = any-In p xs (ground arith) in (a, tail j, h)
  ]

  -- an entry that passes the test is kept
  pub In-select : (p : A → Bool) {a : A} {xs : List A} → In a xs → p a ≡ true → In a (select p xs)
  In-select p (head {x = x} e) h = let k : p x ≡ true = rw (← e) h in rw k (head e)
  In-select p (tail {x = x} i) h = elim (Bool-cases (p x)) [
    | inl keep ↦ rw keep (tail (In-select p i h))
    | inr drop ↦ rw drop (In-select p i h)
  ]

  pub In-append : (xs : List A) {ys : List A} {a : A} → In a (xs ++ ys) → In a xs ⊎ In a ys
  In-append [] i = inr i
  In-append (x ∷ xs) (head e) = inl (head e)
  In-append (x ∷ xs) (tail i) = elim (In-append xs i) [ inl j ↦ inl (tail j) | inr j ↦ inr j ]

  pub In-left : {a : A} {xs : List A} (ys : List A) → In a xs → In a (xs ++ ys)
  In-left ys (head e) = head e
  In-left ys (tail i) = tail (In-left ys i)

  pub In-right : {a : A} (xs : List A) {ys : List A} → In a ys → In a (xs ++ ys)
  In-right [] i = i
  In-right (x ∷ xs) i = tail (In-right xs i)

  pub All-In {κ} : (P : A → Type κ) {a : A} {xs : List A} → All P xs → In a xs → P a
  All-In P h (head e) = rw e h.0
  All-In P h (tail i) = All-In P h.1 i

module _ {ℓ} {A : Type ℓ} ⦃e : Eq A⦄ where
  pub contains-In : (xs : List A) (a : A) → contains xs a ≡ true → In a xs
  contains-In [] a h = cc
  contains-In (x ∷ xs) a h = elim (e.dec a x) [
    | yes p ↦ head p
    | no n ↦ tail (contains-In xs a (ground arith))
  ]

  pub In-contains : {a : A} {xs : List A} → In a xs → contains xs a ≡ true
  In-contains (head p) = ground arith
  In-contains (tail i) = ground (arith, In-contains i)
