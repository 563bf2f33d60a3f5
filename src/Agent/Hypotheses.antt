-- ===== src/Agent/Hypotheses.antt =====
-- `update_hypotheses` of backend/app/agent.py: the model's hypotheses are merged into those of the incident,
-- with the confidence that their evidence allows. Case-folding is lower-casing of ASCII.
pub mod Grounded
use home_ai_agent.Base.{
  ℕ, ◌*◌, zero, suc, ◌+◌, ◌≤◌, ◌≡◌, refl, min, Bool, true, false, not, ◌&&◌, ◌||◌, Option, none,
  some, List, [], ◌∷◌, ◌++◌, String, ◌==◌, string_eq, nat_eq, All, arith, select, map, all,
  is_empty, contains, codes, lower, Result, ok, err, Error, value_error, attribute_error,
  if◌then◌else◌, guard, ◌>>=◌, ◌>>◌,
}
use home_ai_agent.Json.{Fields}
use home_ai_agent.Model.{
  Hypothesis, HypothesisStatus, active, supported, eliminated, confirmed, Observation,
}
use home_ai_agent.Safety.{redact_text}
use home_ai_agent.Safety.Confidence.{evidence_confidence}
use home_ai_agent.Store.{Env, Store, observations_of}

pub record HypothesisUpdate : Type 0 where
  pub description : String
  pub confidence : ℕ
  pub status : HypothesisStatus
  pub supporting_observation_ids : List String
  pub contradicting_observation_ids : List String

abbrev pub needs_support : HypothesisStatus → Bool
needs_support supported = true
needs_support confirmed = true
needs_support _ = false

abbrev pub is_eliminated : HypothesisStatus → Bool
is_eliminated eliminated = true
is_eliminated _ = false

-- the cited observations belong to the incident, and the status has its evidence
unfoldable pub check_update : List String → HypothesisUpdate → Result (Unit {0})
unfolding string_eq
check_update ids u = do
  guard (all (contains ids) (u.supporting_observation_ids ++ u.contradicting_observation_ids))
      (value_error "Hypothesis references observations outside this incident")
  guard (not (needs_support u.status && is_empty u.supporting_observation_ids))
      (value_error "Supported hypotheses require supporting observation IDs")
  guard (not (is_eliminated u.status && is_empty u.contradicting_observation_ids))
      (value_error "Eliminated hypotheses require contradicting observation IDs")

-- equal descriptions, up to case
unfoldable pub same_text : String → String → Bool
unfolding codes lower
same_text s t = go (lower (codes s)) (lower (codes t))
  where
    go : List ℕ → List ℕ → Bool
    go [] [] = true
    go [] (y ∷ ys) = false
    go (x ∷ xs) [] = false
    go (x ∷ xs) (y ∷ ys) = x == y && go xs ys

-- `next((h for h in … if …), None)` is replaced, or nothing is found
unfoldable pub change_first :
    (Hypothesis → Bool) → (Hypothesis → Hypothesis) → List Hypothesis → Option (List Hypothesis)
change_first p f [] = none
change_first p f (h ∷ hs) =
    let rest = change_first p f hs in
    if p h then some (f h ∷ hs) else (elim rest [ none ↦ none | some ks ↦ some (h ∷ ks) ])

module _ (e : Env) (failure_log : Fields → Bool) (incident_id : String) where
  abbrev clean : String → String
  clean = redact_text e.secret_key e.scrub 16000

  -- `data['confidence']`
  unfoldable pub allowed_confidence : List Observation → HypothesisUpdate → ℕ
  unfolding string_eq
  allowed_confidence observations u =
      let supporting = select (λ o. contains u.supporting_observation_ids o.id) observations in
      let c =
        evidence_confidence failure_log supporting (1000 * u.confidence)
          u.contradicting_observation_ids in
      if is_eliminated u.status then min c 100 else c

  unfoldable pub as_hypothesis : List Observation → HypothesisUpdate → String → Hypothesis
  as_hypothesis observations u id = record {
    id = id;
    incident_id = incident_id;
    description = clean u.description;
    confidence = allowed_confidence observations u;
    status = u.status;
    supporting_observation_ids = map clean u.supporting_observation_ids;
    contradicting_observation_ids = map clean u.contradicting_observation_ids;
  }

  abbrev pub is_existing : HypothesisUpdate → Hypothesis → Bool
  unfolding string_eq
  is_existing u h = h.incident_id == incident_id && same_text h.description u.description

  -- The rows that were loaded, the rows added so far, which the search does not see, and the next identifier.
  abbrev pub Work : Type 0
  Work = List Hypothesis × List Hypothesis × ℕ

  unfoldable pub apply_update : List Observation → HypothesisUpdate → Work → Work
  apply_update observations u (rows, added, issued) =
      elim (change_first (is_existing u) (λ h. as_hypothesis observations u h.id) rows) [
        | some changed ↦ (changed, added, issued)
        | none ↦ (rows, added ++ (as_hypothesis observations u (e.uuid issued) ∷ []), suc issued)
      ]

  unfoldable pub apply_updates : List Observation → List HypothesisUpdate → Work → Result Work
  apply_updates observations [] work = ok work
  apply_updates observations (u ∷ us) work = do
    check_update (map (λ o. o.id) observations) u
    apply_updates observations us (apply_update observations u work)

  -- an error leaves the session before its commit, so that nothing changes
  unfoldable pub update_hypotheses : List HypothesisUpdate → Store → Result (Unit {0}) × Store
  update_hypotheses updates s =
      elim (apply_updates (observations_of incident_id s) updates (s.hypotheses, [], s.issued)) [
        | err x ↦ (err x, s)
        | ok (rows, added, issued) ↦
            (ok tt, record s { hypotheses = rows ++ added; issued = issued })
      ]
