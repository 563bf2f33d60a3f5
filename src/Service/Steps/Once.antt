-- ===== src/Service/Steps/Once.antt =====
-- Each action is claimed at most once, in any order of the commits (backend/app/service.py).
use home_ai_agent.Base.{
  ℕ, ◌+◌, ◌≤◌, ◌≡◌, refl, Bool, true, false, Option, none, some, List, [], ◌∷◌, ◌++◌, String, ◌==◌,
  string_eq, nat_eq, if◌then◌else◌, arith, In, head, tail, Bool-cases, inl, inr, ◌⊎◌, ok,
}
use home_ai_agent.Json.{truthy, get, Fields}
use home_ai_agent.Model.{Action, Incident, rejected, expired}
use home_ai_agent.Service.Approve.Claim.{is_claimable, is_row, update, rowcount, claim}
use home_ai_agent.Service.Approve.Once.{
  IsSpent, IsTame, update-IsSpent, change_action-IsSpent, judge-IsSpent, expire_all-IsSpent,
  update-IsSpent_other, append-IsSpent, names, change_action-names, update-names, expire_all-names,
  judge-names, claimed-named,
}
use home_ai_agent.Service.Approve.{claim_action, reject_action, expire, note_result}
use home_ai_agent.Service.Verify.{judge, settle}
use home_ai_agent.Store.{Env, Store, change_action}
use home_ai_agent.Service.Steps.{
  Step, claims, rejects, expires, notes, settles, inserts, records, elsewhere, Run, done, more,
}

-- an action that was claimed before, or was never there to be claimed
abbrev Gone : String → List Action → Type 0
Gone id actions = IsSpent id actions × In id (names actions)

claim_action-won :
    (e : Env) (now : ℕ) (id incident_id : String) (s t : Store)
    → claim_action e now id incident_id s ≡ (ok tt, t)
    → (rowcount id s.actions ≡ 1) × (t.actions ≡ update now id s.actions)
unfolding claim_action claim
claim_action-won e now id incident_id s t h = ground arith

change-Gone :
    (f : Action → Action)
    → IsTame f
    → (j id : String) (actions : List Action) → Gone id actions
    → Gone id (change_action j f actions)
change-Gone f tame j id actions (spent, i) =
    (change_action-IsSpent f tame j id actions spent, rw (change_action-names f tame j actions) i)

append-named :
    (a : Action) (id : String) (actions : List Action)
    → In id (names actions)
    → In id (names (actions ++ (a ∷ [])))
append-named a id [] i = elim i [ ]
append-named a id (b ∷ rest) (head same) = head same
append-named a id (b ∷ rest) (tail i) = tail (append-named a id rest i)

append-Gone :
    (a : Action) (id : String) (actions : List Action)
    → (In a.id (names actions) → ⊥)
    → Gone id actions
    → Gone id (actions ++ (a ∷ []))
append-Gone a id actions new (spent, i) =
    (append-IsSpent a id actions spent other, append-named a id actions i)
  where
    other : is_row id a ≡ false
    other = elim (string_eq.dec a.id id) [
      | yes same ↦ absurd (new (rw same i))
      | no differs ↦ ground arith
    ]

module _ (e : Env) (now : ℕ) where
  reject_action-actions :
      (id : String) (i : Incident) (s : Store)
      → (reject_action e now id i s).actions
        ≡ change_action id (λ a. record a { approval_status = rejected }) s.actions
  unfolding reject_action
  reject_action-actions id i s = ground arith

  expire-actions :
      (id incident_id : String) (s : Store)
      → (expire e now id incident_id s).actions
        ≡ change_action id (λ a. record a { approval_status = expired }) s.actions
  unfolding expire
  expire-actions id incident_id s = ground arith

  note_result-Gone :
      (id other incident_id : String) (result : Fields) (s : Store)
      → Gone id s.actions
      → Gone id (note_result e now other incident_id result s).actions
  unfolding note_result is_claimable
  note_result-Gone id other incident_id result s g = elim (Bool-cases (truthy (get "ok" result))) [
    | inl y ↦ rw y (change-Gone _ (λ a. (refl, λ c. c)) other id s.actions g)
    | inr n ↦ rw n (change-Gone _ (λ a. (refl, λ c. c)) other id s.actions g)
  ]

  settle-Gone :
      (id incident_id : String) (action : Option String) (stopped verified : Bool) (s : Store)
      → Gone id s.actions
      → Gone id (settle e now incident_id action stopped verified s).actions
  unfolding settle
  settle-Gone id incident_id action stopped true s (spent, i) = (
    expire_all-IsSpent incident_id id (judge action true s.actions)
        (judge-IsSpent action true id s.actions spent),
    rw
        (
          expire_all-names incident_id (judge action true s.actions),
          judge-names action true s.actions,
        )
        i,
  )
  settle-Gone id incident_id action stopped false s (spent, i) =
      (judge-IsSpent action false id s.actions spent, rw (judge-names action false s.actions) i)

-- a commit does not make an action claimable again
Step-Gone :
    (e : Env) (id : String) (s t : Store) (l : Option String)
    → Step e s l t
    → Gone id s.actions
    → Gone id t.actions
unfolding is_claimable
Step-Gone e id s t l (claims now j inc h) (spent, i) =
    let (one, same) = claim_action-won e now j inc s t h in
    rw same (update-IsSpent_other now j id s.actions spent, rw (update-names now j s.actions) i)
Step-Gone e id s t l (rejects now j inc) g =
    rw (reject_action-actions e now j inc s)
      (change-Gone _ (λ a. (refl, λ y. ground arith)) j id s.actions g)
Step-Gone e id s t l (expires now j inc) g =
    rw (expire-actions e now j inc s)
      (change-Gone _ (λ a. (refl, λ y. ground arith)) j id s.actions g)
Step-Gone e id s t l (notes now j inc result) g = note_result-Gone e now id j inc result s g
Step-Gone e id s t l (settles now inc j stopped verified) g =
    settle-Gone e now id inc j stopped verified s g
Step-Gone e id s t l (inserts a new same) g = rw same (append-Gone a id s.actions new g)
Step-Gone e id s t l (records j result verdict) g =
    change-Gone _ (λ a. (refl, λ y. y)) j id s.actions g
Step-Gone e id s t l (elsewhere same) g = rw same g

-- a claimed action is gone afterwards, and one that is gone cannot be claimed
claim-Gone :
    (e : Env) (now : ℕ) (id incident_id : String) (s t : Store)
    → claim_action e now id incident_id s ≡ (ok tt, t)
    → Gone id t.actions
claim-Gone e now id incident_id s t h =
    let (one, same) = claim_action-won e now id incident_id s t h in
    rw same (
      update-IsSpent now id s.actions,
      rw (update-names now id s.actions) (claimed-named id s.actions one),
    )

-- how often an action was claimed
abbrev pub claim_of : String → Option String → ℕ
claim_of id none = 0
claim_of id (some j) = if j == id then 1 else 0

abbrev pub claimed : String → List (Option String) → ℕ
claimed id [] = 0
claimed id (l ∷ ls) = claim_of id l + claimed id ls

Gone-unclaimed-Step :
    (e : Env) (id : String) (s t : Store) (l : Option String)
    → Step e s l t
    → Gone id s.actions
    → claim_of id l ≡ 0
unfolding string_eq
Gone-unclaimed-Step e id s t l (claims now j inc h) g = elim (string_eq.dec j id) [
  | yes same ↦
      let (one, _) = claim_action-won e now j inc s t h in let z = g.0 in absurd (differ same one z)
  | no other ↦ ground arith
]
  where
    differ : j ≡ id → rowcount j s.actions ≡ 1 → rowcount id s.actions ≡ 0 → ⊥
    differ same one z =
        let one' : rowcount id s.actions ≡ 1 = rw same at one in omega (arith, one', z)
Gone-unclaimed-Step e id s t l (rejects now j inc) g = refl
Gone-unclaimed-Step e id s t l (expires now j inc) g = refl
Gone-unclaimed-Step e id s t l (notes now j inc result) g = refl
Gone-unclaimed-Step e id s t l (settles now inc j stopped verified) g = refl
Gone-unclaimed-Step e id s t l (inserts a new same) g = refl
Gone-unclaimed-Step e id s t l (records j result verdict) g = refl
Gone-unclaimed-Step e id s t l (elsewhere same) g = refl

Gone-unclaimed :
    (e : Env) (id : String) (s t : Store) (ls : List (Option String))
    → Run e s ls t
    → Gone id s.actions
    → claimed id ls ≡ 0
Gone-unclaimed e id s t ls done g = refl
Gone-unclaimed e id s t ls (more {t = u} {l = l} {ls = rest} step run) g =
    let r = Gone-unclaimed e id u t rest run (Step-Gone e id s u l step g) in
    let z = Gone-unclaimed-Step e id s u l step g in omega (arith, r, z)

first_claim :
    (e : Env) (id : String) (s t : Store) (l : Option String)
    → Step e s l t
    → (claim_of id l ≡ 0) ⊎ ((claim_of id l ≡ 1) × Gone id t.actions)
first_claim e id s t l (claims now j inc h) = elim (string_eq.dec j id) [
  | yes same ↦ inr (ground arith, rw same at (claim-Gone e now j inc s t h))
  | no other ↦ inl (ground arith)
]
first_claim e id s t l (rejects now j inc) = inl refl
first_claim e id s t l (expires now j inc) = inl refl
first_claim e id s t l (notes now j inc result) = inl refl
first_claim e id s t l (settles now inc j stopped verified) = inl refl
first_claim e id s t l (inserts a new same) = inl refl
first_claim e id s t l (records j result verdict) = inl refl
first_claim e id s t l (elsewhere same) = inl refl

-- Whatever commits of the service follow one another, in any order, from any store: each action is
-- claimed at most once, where an inserted action has a name that is not in the table.
pub claimed_once :
    (e : Env) (id : String) (s t : Store) (ls : List (Option String))
    → Run e s ls t
    → claimed id ls ≤ 1
claimed_once e id s t ls done = omega arith
claimed_once e id s t ls (more {t = u} {l = l} {ls = rest} step run) =
    elim (first_claim e id s u l step) [
      | inl z ↦ let r = claimed_once e id u t rest run in omega (arith, r, z)
      | inr (one, g) ↦ let r = Gone-unclaimed e id u t rest run g in omega (arith, r, one)
    ]
