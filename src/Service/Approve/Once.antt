-- ===== src/Service/Approve/Once.antt =====
-- The claim is won at most once for each action, whatever the other operations do to the table of
-- actions meanwhile.
use home_ai_agent.Base.{
  ℕ, ◌≡◌, refl, ap, Bool, true, false, ◌&&◌, Option, none, some, List, [], ◌∷◌, ◌++◌, String, ◌==◌,
  string_eq, nat_eq, if◌then◌else◌, map, arith, In, Bool-cases, inl, inr, head, tail, sym,
}
use home_ai_agent.Model.{Action}
use home_ai_agent.Service.Approve.Claim.{is_claimable, is_row, update, rowcount}
use home_ai_agent.Service.Verify.{expire_all, judge}
use home_ai_agent.Store.{change_action}

-- no row of this name can still be claimed
abbrev pub IsSpent : String → List Action → Type 0
IsSpent id actions = rowcount id actions ≡ 0

pub update-IsSpent :
    (now : ℕ) (id : String) (actions : List Action) → IsSpent id (update now id actions)
unfolding update is_claimable
update-IsSpent now id [] = refl
update-IsSpent now id (a ∷ rest) =
    let r = update-IsSpent now id rest in
    elim (Bool-cases (is_row id a)) [ inl y ↦ ground arith | inr n ↦ ground arith ]

-- a change that keeps the name and does not make a row claimable again
abbrev pub IsTame : (Action → Action) → Type 0
IsTame f = (a : Action) → ((f a).id ≡ a.id) × (is_claimable (f a) ≡ true → is_claimable a ≡ true)

and_false :
    (x y x' y' : Bool) → x' ≡ x → (y' ≡ true → y ≡ true) → (x && y) ≡ false → (x' && y') ≡ false
and_false x y true true e f h = let z = f refl in ground arith
and_false x y true false e f h = refl
and_false x y false y' e f h = refl

module _ (f : Action → Action) (tame : IsTame f) where
  tame-is_row : (id : String) (a : Action) → is_row id a ≡ false → is_row id (f a) ≡ false
  unfolding string_eq
  tame-is_row id a n =
      and_false (a.id == id) (is_claimable a) ((f a).id == id) (is_claimable (f a))
        (ap (λ x. x == id) ((tame a).0)) ((tame a).1) n

  map-IsSpent :
      (id : String) (actions : List Action) → IsSpent id actions → IsSpent id (map f actions)
  map-IsSpent id [] h = refl
  map-IsSpent id (a ∷ rest) h =
      let n : is_row id a ≡ false = ground arith in
      let hr : IsSpent id rest = ground arith in
      let r = map-IsSpent id rest hr in let z = tame-is_row id a n in ground arith

  change_action-map :
      (j : String) (actions : List Action)
      → change_action j f actions ≡ map (λ a. if a.id == j then f a else a) actions
  unfolding change_action
  change_action-map j [] = refl
  change_action-map j (a ∷ rest) =
      ap (◌∷◌ (if a.id == j then f a else a)) (change_action-map j rest)

  guarded-IsTame : (c : Action → Bool) → IsTame (λ a. if c a then f a else a)
  guarded-IsTame c a = elim (Bool-cases (c a)) [
    | inl y ↦ rw y (tame a)
    | inr n ↦ rw n (refl, λ h. h)
  ]

pub change_action-IsSpent :
    (f : Action → Action)
    → IsTame f
    → (j id : String) (actions : List Action) → IsSpent id actions
    → IsSpent id (change_action j f actions)
change_action-IsSpent f tame j id actions h =
    let r =
      map-IsSpent (λ a. if a.id == j then f a else a) (guarded-IsTame f tame (λ a. a.id == j)) id
        actions h in
    rw (change_action-map f tame j actions) r

pub judge-IsSpent :
    (action_id : Option String) (verified : Bool) (id : String) (actions : List Action)
    → IsSpent id actions
    → IsSpent id (judge action_id verified actions)
unfolding judge is_claimable
judge-IsSpent none verified id actions h = h
judge-IsSpent (some j) verified id actions h =
    change_action-IsSpent _ (λ a. (refl, λ y. y)) j id actions h

pub expire_all-IsSpent :
    (incident_id : String) (id : String) (actions : List Action)
    → IsSpent id actions
    → IsSpent id (expire_all incident_id actions)
unfolding expire_all is_claimable
expire_all-IsSpent incident_id id [] h = refl
expire_all-IsSpent incident_id id (a ∷ rest) h =
    let hr : IsSpent id rest = ground arith in
    let r = expire_all-IsSpent incident_id id rest hr in ground arith

pub update-IsSpent_other :
    (now : ℕ) (j id : String) (actions : List Action)
    → IsSpent id actions
    → IsSpent id (update now j actions)
unfolding update is_claimable
update-IsSpent_other now j id [] h = refl
update-IsSpent_other now j id (a ∷ rest) h =
    let hr : IsSpent id rest = ground arith in
    let r = update-IsSpent_other now j id rest hr in ground arith

pub append-IsSpent :
    (a : Action) (id : String) (actions : List Action)
    → IsSpent id actions
    → is_row id a ≡ false
    → IsSpent id (actions ++ (a ∷ []))
append-IsSpent a id [] h n = ground arith
append-IsSpent a id (b ∷ rest) h n =
    let hr : IsSpent id rest = ground arith in let r = append-IsSpent a id rest hr n in ground arith

-- the names of the actions in the table
abbrev pub names : List Action → List String
names = map (λ a. a.id)

pub change_action-names :
    (f : Action → Action)
    → IsTame f
    → (j : String) (actions : List Action) → names (change_action j f actions) ≡ names actions
unfolding change_action
change_action-names f tame j [] = refl
change_action-names f tame j (a ∷ rest) =
    let r = change_action-names f tame j rest in
    let same = (guarded-IsTame f tame (λ b. b.id == j) a).0 in rw (same, r) refl

pub update-names :
    (now : ℕ) (j : String) (actions : List Action) → names (update now j actions) ≡ names actions
unfolding update
update-names now j [] = refl
update-names now j (a ∷ rest) = let r = update-names now j rest in ground arith

pub expire_all-names :
    (incident_id : String) (actions : List Action)
    → names (expire_all incident_id actions) ≡ names actions
unfolding expire_all
expire_all-names incident_id [] = refl
expire_all-names incident_id (a ∷ rest) = let r = expire_all-names incident_id rest in ground arith

pub judge-names :
    (action_id : Option String) (verified : Bool) (actions : List Action)
    → names (judge action_id verified actions) ≡ names actions
unfolding judge is_claimable
judge-names none verified actions = refl
judge-names (some j) verified actions = change_action-names _ (λ a. (refl, λ y. y)) j actions

pub unnamed-IsSpent :
    (id : String) (actions : List Action) → (In id (names actions) → ⊥) → IsSpent id actions
unnamed-IsSpent id [] h = refl
unnamed-IsSpent id (a ∷ rest) h =
    let r = unnamed-IsSpent id rest (λ i. h (tail i)) in
    elim (string_eq.dec a.id id) [
      | yes same ↦ absurd (h (head (sym same)))
      | no other ↦ ground arith
    ]

pub claimed-named :
    (id : String) (actions : List Action) → rowcount id actions ≡ 1 → In id (names actions)
claimed-named id [] h = ground arith
claimed-named id (a ∷ rest) h = elim (string_eq.dec a.id id) [
  | yes same ↦ head (sym same)
  | no other ↦ tail (claimed-named id rest (ground arith))
]
