-- ===== src/Service/Verdict.antt =====
-- What a verification shows: the attempts of a check, the results of all checks and the verdict
-- (`_verify` of backend/app/service.py).
use home_ai_agent.Base.{
  ℕ, zero, suc, ◌+◌, ◌≤◌, ◌≡◌, refl, Bool, true, false, none, some, List, [], ◌∷◌, ◌++◌, String,
  if◌then◌else◌, arith, Bool-cases, inl, inr, ◌⊎◌, ok, length, length-append, last,
}
use home_ai_agent.Topology.{CheckSpec}
use home_ai_agent.Model.{verification}
use home_ai_agent.Json.{obj, Fields, end, get, get_or, is_true}
use home_ai_agent.Json.Matches.{matches}
use home_ai_agent.Observations.{record_observation}
use home_ai_agent.Service.Dispatch.{execute}
use home_ai_agent.Service.Verify.{attempt, run_check, CheckResult}
use home_ai_agent.Store.{bind-ok, Env, Store, pure, M}

last-append : {A : Type 0} (x : A) (xs : List A) → last (xs ++ (x ∷ [])) ≡ some x
last-append x [] = refl
last-append x (y ∷ ys) = let r = last-append x ys in ground arith

-- what `run_check` promises: `fuel` more attempts are allowed after the ones tried
abbrev pub IsChecked : ℕ → CheckSpec → List (Bool × String) → CheckResult → Type 0
IsChecked fuel c tried r =
    (r.check ≡ c)
    × (last r.attempts ≡ some (r.passed, r.observation_id))
    × (length r.attempts ≤ suc (length tried + fuel))
    × (r.passed ≡ false → length r.attempts ≡ suc (length tried + fuel))

-- the result after one more attempt
abbrev IsLast : CheckSpec → List (Bool × String) → CheckResult → Type 0
IsLast c tried r = (r.check ≡ c) × (r.attempts ≡ tried ++ ((r.passed, r.observation_id) ∷ []))

IsLast-IsChecked :
    (fuel : ℕ) (c : CheckSpec) (tried : List (Bool × String)) (r : CheckResult)
    → IsLast c tried r
    → (r.passed ≡ true) ⊎ (fuel ≡ 0)
    → IsChecked fuel c tried r
IsLast-IsChecked fuel c tried r (same, tries) stop =
    let n = length-append tried ((r.passed, r.observation_id) ∷ []) in
    let m : length r.attempts ≡ length tried + 1 = rw tries n in
    (
      same,
      rw tries (last-append (r.passed, r.observation_id) tried),
      omega (arith, m),
      λ lost. ground arith,
    )

module _ (e : Env) (now : ℕ) (incident_id : String) where
  run_check_zero :
      (c : CheckSpec) (tried : List (Bool × String)) (s t : Store) (r : CheckResult)
      → run_check e now incident_id 0 c tried s ≡ (ok r, t)
      → IsLast c tried r
  unfolding run_check
  run_check_zero c tried s t r h = ground arith

  -- the continuation after an attempt
  abbrev next : ℕ → CheckSpec → List (Bool × String) → Bool → String → M CheckResult
  next fuel c tried b id =
      if b
      then pure (record {
        check = c;
        passed = true;
        observation_id = id;
        attempts = tried ++ ((b, id) ∷ []);
      })
      else run_check e now incident_id fuel c (tried ++ ((b, id) ∷ []))

  run_check-suc :
      (fuel : ℕ) (c : CheckSpec) (tried : List (Bool × String)) (s t : Store) (r : CheckResult)
      → run_check e now incident_id (suc fuel) c tried s ≡ (ok r, t)
      → (IsLast c tried r × (r.passed ≡ true))
        ⊎ ((id : String) × (u : Store) × (run_check e now incident_id fuel c
                (tried ++ ((false, id) ∷ []))
                u
              ≡ (ok r, t)))
  unfolding run_check
  run_check-suc fuel c tried s t r h =
      let (p, u, _, g) =
        bind-ok (attempt e now incident_id c) (λ p. next fuel c tried p.0 p.1) s t r h in
      elim (Bool-cases (p.0)) [ inl y ↦ inl (ground arith) | inr n ↦ inr (p.1, u, ground arith) ]

  -- A check that returns has made at most `fuel` more attempts than its first, all of them if it did not pass;
  -- its verdict and its observation are those of the last attempt.
  pub run_check-IsChecked :
      (fuel : ℕ) (c : CheckSpec) (tried : List (Bool × String)) (s t : Store) (r : CheckResult)
      → run_check e now incident_id fuel c tried s ≡ (ok r, t)
      → IsChecked fuel c tried r
  run_check-IsChecked zero c tried s t r h =
      IsLast-IsChecked 0 c tried r (run_check_zero c tried s t r h) (inr refl)
  run_check-IsChecked (suc fuel) c tried s t r h = elim (run_check-suc fuel c tried s t r h) [
    | inl (l, won) ↦ IsLast-IsChecked (suc fuel) c tried r l (inl won)
    | inr (id, u, g) ↦
        let (same, final, bound, full) =
          run_check-IsChecked fuel c (tried ++ ((false, id) ∷ [])) u t r g in
        let n : length (tried ++ ((false, id) ∷ [])) ≡ length tried + 1 =
          length-append tried ((false, id) ∷ []) in
        (same, final, omega (arith, n, bound), λ lost. let f = full lost in omega (arith, n, f))
  ]

  -- The host answered a request of the check without an approval, the answer is that of a success and matches what
  -- the check expects, and the observation of it is the one that was recorded.
  abbrev pub IsAnswered : CheckSpec → String → Type 0
  IsAnswered c id =
      (u : Store) × (v : Store) × (w : Store) × (observed : Fields) × (execute e c.tool c.arguments
          none u
        ≡ (ok observed, v))
      × (is_true (get "ok" observed) ≡ true)
      × (matches (get_or "result" (obj end) observed) c.expect ≡ true)
      × (record_observation e now incident_id c.tool c.arguments observed verification v
          ≡ (ok id, w))
