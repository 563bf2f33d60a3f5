-- ===== src/Topology/Visit.antt =====
-- The nested function `visit` of `profile_targets` (backend/app/autonomy.py), of
-- `verification_checks` (backend/app/service.py) and of `check_application_health`
-- (backend/app/application_health.py): a depth-first walk along `depends_on` that collects entries
-- before (`pre`) and after (`post`) the dependencies of a name.
use home_ai_agent.Base.{
  ℕ, zero, suc, Bool, ◌||◌, List, [], ◌∷◌, ◌++◌, String, contains, string_eq, if◌then◌else◌,
}

module _ {ℓ} {A : Type ℓ} (deps : String → List String) (skip : String → Bool)
    (pre post : String → List A) where
  -- the loop over the dependencies
  abbrev pub visit_each :
      (String → List String × List A → List String × List A)
      → List String
      → List String × List A
      → List String × List A
  visit_each go [] t = t
  visit_each go (d ∷ ds) t = visit_each go ds (go d t)

  -- names seen so far, and what was collected; the fuel bounds the depth
  unfoldable pub visit : ℕ → String → List String × List A → List String × List A
  visit zero name t = t
  visit (suc fuel) name (seen, found) =
      let inner = visit_each (visit fuel) (deps name) (name ∷ seen, found ++ pre name) in
      if contains seen name || skip name then (seen, found) else (inner.0, inner.1 ++ post name)
