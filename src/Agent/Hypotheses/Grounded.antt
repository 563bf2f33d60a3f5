-- ===== src/Agent/Hypotheses/Grounded.antt =====
-- The hypotheses that `update_hypotheses` (backend/app/agent.py) leaves have the evidence of their status.
use home_ai_agent.Base.{
  suc, ◌≤◌, ◌≡◌, refl, Bool, true, false, some, List, [], ◌∷◌, ◌++◌, String, map, is_empty, ok, All,
  arith, Bool-cases, Option-cases, Result-cases, inl, inr,
}
use home_ai_agent.Json.{Fields}
use home_ai_agent.Model.{Hypothesis, Observation}
use home_ai_agent.Safety.{redact_text}
use home_ai_agent.Agent.Hypotheses.{
  HypothesisUpdate, needs_support, is_eliminated, check_update, change_first, allowed_confidence,
  as_hypothesis, is_existing, Work, apply_update, apply_updates, update_hypotheses,
}
use home_ai_agent.Store.{Env, Store, observations_of}

-- the evidence that the status of a hypothesis needs
abbrev pub IsGrounded : Hypothesis → Type 0
IsGrounded h =
    (needs_support h.status ≡ true → is_empty h.supporting_observation_ids ≡ false)
    × (is_eliminated h.status ≡ true
        → (is_empty h.contradicting_observation_ids ≡ false) × (h.confidence ≤ 100))

module _ (e : Env) (failure_log : Fields → Bool) (incident_id : String) where
  is_empty-map : (f : String → String) (xs : List String) → is_empty (map f xs) ≡ is_empty xs
  is_empty-map f [] = refl
  is_empty-map f (x ∷ xs) = refl

  as_hypothesis-IsGrounded :
      (ids : List String) (observations : List Observation) (u : HypothesisUpdate) (id : String)
      → check_update ids u ≡ ok tt
      → IsGrounded (as_hypothesis e failure_log incident_id observations u id)
  unfolding check_update as_hypothesis allowed_confidence
  as_hypothesis-IsGrounded ids observations u id h =
      let a = is_empty-map (redact_text e.secret_key e.scrub 16000) u.supporting_observation_ids in
      let b =
        is_empty-map (redact_text e.secret_key e.scrub 16000) u.contradicting_observation_ids in
      (λ y. ground arith, λ y. (ground arith, ground arith))

  change_first-All :
      (p : Hypothesis → Bool) (f : Hypothesis → Hypothesis) (hs ks : List Hypothesis)
      → ((h : Hypothesis) → IsGrounded (f h))
      → All IsGrounded hs
      → change_first p f hs ≡ some ks
      → All IsGrounded ks
  unfolding change_first
  change_first-All p f [] ks g a h = absurd (ground arith)
  change_first-All p f (x ∷ hs) ks g (first, others) h = elim (Bool-cases (p x)) [
    | inl y ↦ let same : ks ≡ f x ∷ hs = ground arith in rw same (g x, others)
    | inr n ↦ elim (Option-cases (change_first p f hs)) [
      | inl q ↦ absurd (ground arith)
      | inr (js, q) ↦
          let same : ks ≡ x ∷ js = ground arith in
          rw same (first, change_first-All p f hs js g others q)
    ]
  ]

  append-All :
      (hs : List Hypothesis) (h : Hypothesis)
      → All IsGrounded hs
      → IsGrounded h
      → All IsGrounded (hs ++ (h ∷ []))
  append-All [] h a g = (g, tt)
  append-All (x ∷ hs) h (first, others) g = (first, append-All hs h others g)

  join-All :
      (hs ks : List Hypothesis) → All IsGrounded hs → All IsGrounded ks → All IsGrounded (hs ++ ks)
  join-All [] ks a b = b
  join-All (x ∷ hs) ks (first, others) b = (first, join-All hs ks others b)

  AllGrounded : Work e failure_log incident_id → Type 0
  AllGrounded work = All IsGrounded work.0 × All IsGrounded work.1

  apply_update-AllGrounded :
      (observations : List Observation) (ids : List String) (u : HypothesisUpdate)
      (work : Work e failure_log incident_id)
      → check_update ids u ≡ ok tt
      → AllGrounded work
      → AllGrounded (apply_update e failure_log incident_id observations u work)
  unfolding apply_update AllGrounded
  apply_update-AllGrounded observations ids u (rows, added, issued) h (a, b) =
      let made = λ (id : String). as_hypothesis-IsGrounded ids observations u id h in
      let f = λ (k : Hypothesis). as_hypothesis e failure_log incident_id observations u k.id in
      let p = is_existing e failure_log incident_id u in
      elim (Option-cases (change_first p f rows)) [
        | inl q ↦
            let new = as_hypothesis e failure_log incident_id observations u (e.uuid issued) in
            let same : apply_update e failure_log incident_id observations u (rows, added, issued)
                ≡ (rows, added ++ (new ∷ []), suc issued) =
              ground arith in
            rw same (a, append-All added new b (made (e.uuid issued)))
        | inr (changed, q) ↦
            let same : apply_update e failure_log incident_id observations u (rows, added, issued)
                ≡ (changed, added, issued) =
              ground arith in
            rw same (change_first-All p f rows changed (λ k. made k.id) a q, b)
      ]

  apply_updates-AllGrounded :
      (observations : List Observation) (us : List HypothesisUpdate)
      (work out : Work e failure_log incident_id)
      → apply_updates e failure_log incident_id observations us work ≡ ok out
      → AllGrounded work
      → AllGrounded out
  unfolding apply_updates
  apply_updates-AllGrounded observations [] work out h a =
      let same : work ≡ out = ground arith in rw same at a
  apply_updates-AllGrounded observations (u ∷ us) work out h a =
      let ids = map (λ o. o.id) observations in
      elim (Result-cases (check_update ids u)) [
        | inl (x, q) ↦ absurd (ground arith)
        | inr (v, q) ↦
            let next = apply_update e failure_log incident_id observations u work in
            let rest : apply_updates e failure_log incident_id observations us next ≡ ok out =
              ground arith in
            apply_updates-AllGrounded observations us next out rest
              (apply_update-AllGrounded observations ids u work q a)
      ]

  -- If every stored hypothesis has the evidence of its status, so does every one after the model's updates, whether
  -- they are taken or refused: support if it is supported or confirmed, and a contradiction and a confidence of at
  -- most 0.1 if it is eliminated.
  pub update_hypotheses-IsGrounded :
      (updates : List HypothesisUpdate) (s : Store)
      → All IsGrounded s.hypotheses
      → All IsGrounded (update_hypotheses e failure_log incident_id updates s).1.hypotheses
  unfolding update_hypotheses AllGrounded
  update_hypotheses-IsGrounded updates s a =
      let start : Work e failure_log incident_id = (s.hypotheses, [], s.issued) in
      elim (Result-cases
        (apply_updates e failure_log incident_id (observations_of incident_id s) updates start)) [
          | inl (x, q) ↦
              let same : (update_hypotheses e failure_log incident_id updates s).1.hypotheses
                  ≡ s.hypotheses =
                ground arith in
              rw same a
          | inr (out, q) ↦
              let (b, c) =
                apply_updates-AllGrounded (observations_of incident_id s) updates start out q
                  (a, tt) in
              let same : (update_hypotheses e failure_log incident_id updates s).1.hypotheses
                  ≡ out.0 ++ out.1 =
                ground arith in
              rw same (join-All (out.0) (out.1) b c)
        ]
