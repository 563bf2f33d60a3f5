-- ===== src/Store/Keeps.antt =====
-- Invariants of the state actions, one rule for each way to build an action. An invariant here may depend on the
-- incidents' identifiers, the requests that were sent and the number of questions to the model.
use home_ai_agent.Base.{
  ℕ, ◌≡◌, refl, ap, Bool, true, false, Option, List, [], ◌∷◌, String, map, string_eq, ◌==◌, Result,
  ok, err, Error, if◌then◌else◌,
}
use home_ai_agent.Model.{Incident}
use home_ai_agent.Store.{
  Store, Call, M, ◌>>=◌, ◌>>◌, pure, raise, lift, gets, catch, result_of, or_raise, require, when,
  change_incident, set_incident,
}

module _ {A B : Type 0} (m : M A) (f : A → M B) where
  -- a sequence whose first part returns goes on with the second
  pub bind-runs : {s t : Store} {a : A} → m s ≡ (ok a, t) → (m >>= f) s ≡ f a t
  bind-runs {s} {t} {a} h = ap continue h
    where
      continue : Result A × Store → Result B × Store
      continue x = elim x.0 [ ok b ↦ f b x.1 | err e ↦ (err e, x.1) ]

-- `m` keeps `P`, whether it returns or raises
pub record Keeps {A : Type 0} (P : Store → Type 0) (m : M A) : Type 0 where
  pub at : (s : Store) → P s → P (m s).1

module _ {P : Store → Type 0} where
  pub Keeps-if :
      {A : Type 0} (b : Bool) {m n : M A}
      → (b ≡ true → Keeps P m)
      → (b ≡ false → Keeps P n)
      → Keeps P (if b then m else n)
  Keeps-if true km kn = km refl
  Keeps-if false km kn = kn refl

  pub Keeps-still : {A : Type 0} {m : M A} → ((s : Store) → (m s).1 ≡ s) → Keeps P m
  Keeps-still same = record { at = λ s h. rw (same s) h }

  -- what follows may use how the first part ended
  pub Keeps-bind_knowing :
      {A B : Type 0} {m : M A} {f : A → M B}
      → Keeps P m
      → ((a : A) (s t : Store) → m s ≡ (ok a, t) → Keeps P (f a))
      → Keeps P (m >>= f)
  Keeps-bind_knowing {A} {B} {m} {f} km kf = record { at = λ s h. go s (m s) refl (km.at s h) }
    where
      continue : Result A × Store → Result B × Store
      continue x = elim x.0 [ ok a ↦ f a x.1 | err e ↦ (err e, x.1) ]

      go : (s : Store) (x : Result A × Store) → m s ≡ x → P x.1 → P (continue x).1
      go s (ok a, t) e h = (kf a s t e).at t h
      go s (err y, t) e h = h

  pub Keeps-bind :
      {A B : Type 0} {m : M A} {f : A → M B}
      → Keeps P m
      → ((a : A) → Keeps P (f a))
      → Keeps P (m >>= f)
  Keeps-bind km kf = Keeps-bind_knowing km (λ a s t e. kf a)

  pub Keeps-then :
      {B : Type 0} {m : M (Unit {0})} {k : M B} → Keeps P m → Keeps P k → Keeps P (m >> k)
  Keeps-then km kk = Keeps-bind km (λ _. kk)

  pub Keeps-result_of : {A : Type 0} {m : M A} → Keeps P m → Keeps P (result_of m)
  Keeps-result_of km = record { at = λ s h. km.at s h }

  pub Keeps-catch :
      {A : Type 0} {m : M A} (handler : Error → A) → Keeps P m → Keeps P (catch m handler)
  Keeps-catch {A} {m} handler km = record { at = λ s h. go (m s) (km.at s h) }
    where
      continue : Result A × Store → Result A × Store
      continue x = elim x.0 [ ok a ↦ (ok a, x.1) | err e ↦ (ok (handler e), x.1) ]

      go : (x : Result A × Store) → P x.1 → P (continue x).1
      go (ok a, t) h = h
      go (err e, t) h = h

  pub Keeps-pure : {A : Type 0} (a : A) → Keeps P (pure a)
  Keeps-pure a = record { at = λ s h. h }

  pub Keeps-raise : {A : Type 0} (e : Error) → Keeps P (raise {A = A} e)
  Keeps-raise e = record { at = λ s h. h }

  pub Keeps-lift : {A : Type 0} (r : Result A) → Keeps P (lift r)
  Keeps-lift r = record { at = λ s h. h }

  pub Keeps-gets : {A : Type 0} (f : Store → A) → Keeps P (gets f)
  Keeps-gets f = record { at = λ s h. h }

  pub Keeps-require : (c : Bool) (e : Error) → Keeps P (require c e)
  Keeps-require c e = record { at = λ s h. h }

  pub Keeps-or_raise : {A : Type 0} (o : Option A) (e : Error) → Keeps P (or_raise o e)
  Keeps-or_raise o e = record { at = λ s h. h }

  pub Keeps-when : (c : Bool) {m : M (Unit {0})} → Keeps P m → Keeps P (when c m)
  Keeps-when true km = record { at = λ s h. km.at s h }
  Keeps-when false km = record { at = λ s h. h }

pub ruleset keeps_rules = (
  Keeps-bind, Keeps-or_raise, Keeps-then, Keeps-if, Keeps-result_of, Keeps-catch, Keeps-pure,
  Keeps-raise, Keeps-lift, Keeps-gets, Keeps-require, Keeps-when,
)

abbrev pub ids : Store → List String
ids s = map (λ (i : Incident). i.id) s.incidents

pub change_incident-ids :
    (id : String) (f : Incident → Incident)
    → ((i : Incident) → (f i).id ≡ i.id)
    → (is : List Incident)
    → map (λ (i : Incident). i.id) (change_incident id f is) ≡ map (λ (i : Incident). i.id) is
unfolding change_incident
change_incident-ids id f same [] = refl
change_incident-ids id f same (i ∷ is) =
    let rest = change_incident-ids id f same is in
    let first = same i in
    elim (i.id == id)
      as (λ b.
        (map (λ (i : Incident). i.id) ((if b then f i else i) ∷ change_incident id f is))
        ≡ map (λ (i : Incident). i.id) (i ∷ is)) [ true ↦ cc | false ↦ cc ]

module _ (Q : List String → List Call → ℕ → Type 0) where
  abbrev pub Frame : Store → Type 0
  Frame s = Q (ids s) s.calls s.asked

  pub Keeps-Frame :
      {A : Type 0} {m : M A}
      → ((s : Store)
          → (ids (m s).1 ≡ ids s) × ((m s).1.calls ≡ s.calls) × ((m s).1.asked ≡ s.asked))
      → Keeps Frame m
  Keeps-Frame same = record { at = λ s h. let (a, b, c) = same s in rw (a, b, c) h }

  pub set_incident-Keeps :
      (id : String) (f : Incident → Incident)
      → ((i : Incident) → (f i).id ≡ i.id)
      → Keeps Frame (set_incident id f)
  set_incident-Keeps id f same =
      Keeps-Frame (λ s. (change_incident-ids id f same s.incidents, refl, refl))
