-- ===== src/Agent/Ended.antt =====
-- How an investigation ends (`investigate` of backend/app/agent.py), whatever the model, the host or the checks raise.
use home_ai_agent.Base.{
  ◌≡◌, ◌≢◌, ◌⊎◌, refl, sym, timeout_error, Result-cases, ◌∙◌, ap, true, false, Bool, some, List, [],
  ◌∷◌, String, Result, ok, err, arith, inl, inr, Bool-cases, Option-cases, Error, message, map,
  find, string_eq, ◌==◌,
}
use mathlib.Core.Option
use mathlib.Core.List.{append-nil}
use home_ai_agent.Json.{Fields}
use home_ai_agent.Model.{Incident, failed}
use home_ai_agent.Agent.Bounded.{run-Moves, Since}
use home_ai_agent.Agent.Decide.{clean, text_or}
use home_ai_agent.Agent.Loop.{
  run, fail, failed_incident, begin, note_end, failed_text, prior_failure, runtime_limit,
  investigate_open, investigate, is_busy,
}
use home_ai_agent.Agent.State.{Provider, load, update_state, change_state, merge}
use home_ai_agent.Observations.{redact_all}
use home_ai_agent.Store.{
  Env, Store, find_incident, set_incident, change_incident, audit, ◌>>◌, ◌>>=◌, lift, result_of, M,
}
use home_ai_agent.Store.Keeps.{ids, bind-runs}

module _ (id : String) where
  abbrev named : Incident → Bool
  named i = i.id == id

  find-by_ids :
      (is js : List Incident) {i : Incident}
      → map (λ (k : Incident). k.id) is ≡ map (λ (k : Incident). k.id) js
      → find named is ≡ some i
      → (j : Incident) × (find named js ≡ some j)
  find-by_ids [] js same h = absurd (ground arith)
  find-by_ids (i ∷ is) [] same h = absurd (cc)
  find-by_ids (i ∷ is) (j ∷ js) same h =
      let first : i.id ≡ j.id = cc in
      elim (Bool-cases (i.id == id)) [
        | inl y ↦ (j, rw (sym first, y) refl)
        | inr n ↦
            let rest : map (λ (k : Incident). k.id) is ≡ map (λ (k : Incident). k.id) js = cc in
            let (k, q) = find-by_ids is js rest (rw n at h) in (k, rw (sym first, n) q)
      ]

  find-change_incident :
      (f : Incident → Incident)
      → ((i : Incident) → (f i).id ≡ i.id)
      → (is : List Incident) → find named (change_incident id f is) ≡ Option.map f (find named is)
  unfolding change_incident
  find-change_incident f same [] = refl
  find-change_incident f same (k ∷ is) = elim (Bool-cases (k.id == id)) [
    | inl y ↦ let z : ((f k).id == id) ≡ true = rw (same k) y in rw (y, z) refl
    | inr n ↦ rw (n, n) (find-change_incident f same is)
  ]

module _ (e : Env) (p : Provider) (incident_id : String) where
  -- an action on an incident that is there, which keeps the identifiers, finds it again
  load-found :
      (s : Store) {i : Incident}
      → find_incident incident_id s ≡ some i
      → load e incident_id s ≡ (ok i, s)
  unfolding load
  load-found s h = ground arith

  found-set :
      (f : Incident → Incident)
      → ((i : Incident) → (f i).id ≡ i.id)
      → (s : Store) {i : Incident} → find_incident incident_id s ≡ some i
      → find_incident incident_id (set_incident incident_id f s).1 ≡ some (f i)
  found-set f same s h = find-change_incident incident_id f same s.incidents ∙ ap (Option.map f) h

  abbrev updated : Fields → Incident → Incident
  updated u i = record i { agent_state = merge i.agent_state (redact_all e 16000 u) }

  update_state-runs :
      (u : Fields) (s : Store) {i : Incident}
      → find_incident incident_id s ≡ some i
      → update_state e incident_id u s ≡ (ok tt, (set_incident incident_id (updated u) s).1)
  unfolding update_state change_state
  update_state-runs u s h =
      bind-runs (load e incident_id) (λ _. set_incident incident_id (updated u)) (load-found s h)

  abbrev failing : Error → Fields → Incident → Incident
  failing x prior = failed_incident e p incident_id x prior

  abbrev noting : Error → Incident → M (Unit {0})
  noting x i = do
    prior ← lift (prior_failure e p incident_id i.agent_state)
    set_incident incident_id (failing x prior)
    audit incident_id "investigation_failed"

  fail-runs :
      (x : Error) (s : Store) {i : Incident}
      → find_incident incident_id s ≡ some i
      → (prior : Fields) → prior_failure e p incident_id i.agent_state ≡ ok prior
      → (t : Store) × (fail e p incident_id x s ≡ (ok tt, t))
        × (find_incident incident_id t ≡ some (failing x prior i))
  unfolding fail failed_incident
  fail-runs x s {i} h prior was = (
    ((set_incident incident_id (failing x prior) >> audit incident_id "investigation_failed") s).1,
    bind-runs (load e incident_id) (noting x) (load-found s h)
        ∙ bind-runs (lift (prior_failure e p incident_id i.agent_state))
            (λ r.
              set_incident incident_id (failing x r) >> audit incident_id "investigation_failed")
            (ap (λ r. (r, s)) was),
    found-set (failing x prior) (λ k. refl) s h,
  )

  fail-raises :
      (x : Error) (s : Store) {i : Incident}
      → find_incident incident_id s ≡ some i
      → (y : Error) → prior_failure e p incident_id i.agent_state ≡ err y
      → fail e p incident_id x s ≡ (err y, s)
  unfolding fail
  fail-raises x s {i} h y was = bind-runs (load e incident_id) (noting x) (load-found s h) ∙ raised
    where
      raised : noting x i s ≡ (err y, s)
      raised = rw was refl

  failed_text_kept :
      (x : Error)
      → runtime_limit e p incident_id x ≡ false
      → clean e p incident_id 1500 (message x) ≢ ""
      → failed_text e p incident_id x ≡ clean e p incident_id 1500 (message x)
  unfolding failed_text text_or string_eq
  failed_text_kept x other full = elim (string_eq.dec (clean e p incident_id 1500 (message x)) "") [
    | yes z ↦ absurd (full z)
    | no n ↦ ground arith
  ]

  failed_text_named :
      (x : Error)
      → runtime_limit e p incident_id x ≡ false
      → clean e p incident_id 1500 (message x) ≡ ""
      → failed_text e p incident_id x ≡ p.type_name x
  unfolding failed_text text_or string_eq
  failed_text_named x other bare =
      let same : (clean e p incident_id 1500 (message x) == "") ≡ true = rw bare refl in
      ground arith

  -- the incident as the investigation begins
  abbrev begun : Store → Store
  begun s = (set_incident incident_id (begin e p incident_id) s).1

  run-found :
      (s : Store) {i : Incident}
      → find_incident incident_id s ≡ some i
      → (j : Incident) × (find_incident incident_id (run e p incident_id (begun s)).1 ≡ some j)
  unfolding begin
  run-found s {i} h =
      let b = begun s in
      let start : Since e p incident_id (ids b) b.calls b.asked (ids b) b.calls b.asked =
        (refl, omega arith, ([], sym (append-nil b.calls), tt)) in
      let (same, _, _) = (run-Moves e p incident_id (ids b) b.calls b.asked).at b start in
      find-by_ids incident_id b.incidents (run e p incident_id b).1.incidents (sym same)
        (found-set (begin e p incident_id) (λ k. refl) s h)

  -- what follows the run: the failure is noted, the incident takes the metrics, and what noting raised goes on
  abbrev closing : Result (Unit {0}) → M (Unit {0})
  closing r = do
    noted ← result_of (note_end e p incident_id r)
    update_state e incident_id p.ending
    lift noted

  abbrev ends : Store → Store
  ends t = (set_incident incident_id (updated p.ending) t).1

  closing-runs :
      (r : Result (Unit {0})) (s t : Store) (noted : Result (Unit {0})) {k : Incident}
      → note_end e p incident_id r s ≡ (noted, t)
      → find_incident incident_id t ≡ some k
      → closing r s ≡ (noted, ends t)
  closing-runs r s t noted h there =
      bind-runs (result_of (note_end e p incident_id r))
        (λ c. update_state e incident_id p.ending >> lift c) (ap (λ q. (ok q.0, q.1)) h)
      ∙ bind-runs (update_state e incident_id p.ending) (λ _. lift noted)
          (update_state-runs p.ending t there)

  closing-ends :
      (r : Result (Unit {0})) (s : Store) {i : Incident}
      → find_incident incident_id s ≡ some i
      → (((closing r s).0 ≡ ok tt)
          ⊎ (((x : Error) × (r ≡ err x))
              × ((y : Error) × (prior_failure e p incident_id i.agent_state ≡ err y))))
        × ((x : Error) (prior : Fields)
            → r ≡ err x
            → prior_failure e p incident_id i.agent_state ≡ ok prior
            → (j : Incident) × (find_incident incident_id (closing r s).1 ≡ some j)
              × (j.status ≡ failed)
              × (j.summary ≡ some (failed_text e p incident_id x)))
  unfolding note_end failed_incident
  closing-ends (ok _) s {i} h =
      let ran = closing-runs (ok tt) s s (ok tt) refl h in
      (inl (ap (λ q. q.0) ran), λ x prior y was. absurd (cc))
  closing-ends (err x) s {i} h = elim (Result-cases (prior_failure e p incident_id i.agent_state)) [
    | inl (y, was) ↦ (inr ((x, refl), (y, was)), λ z prior same was'. absurd (cc))
    | inr (prior, was) ↦
        let (t, ran, found) = fail-runs x s h prior was in
        let closed = closing-runs (err x) s t (ok tt) ran found in
        (
          inl (ap (λ q. q.0) closed),
          λ z prior' same was'. (
            updated p.ending (failing x prior i),
            ap (λ q. find_incident incident_id q.1) closed
                ∙ found-set (updated p.ending) (λ k. refl) t found,
            refl,
            let w : x ≡ z = ground arith in ap (λ v. some (failed_text e p incident_id v)) w,
          ),
        )
  ]

  -- the store after the run, before its end is noted
  abbrev after_run : Store → Store
  after_run s = (run e p incident_id (begun s)).1

  -- An investigation returns, whatever the model, the host, the policy or the checks raise, with one exception: the
  -- run raised an error and left the incident with a `last_failure` that is no object, of which the
  -- handler cannot read the kind.
  pub investigate-returns :
      (s : Store)
      → ((investigate e p incident_id s).0 ≡ ok tt)
        ⊎ ((j : Incident) × (find_incident incident_id (after_run s) ≡ some j)
            × ((x : Error) × ((run e p incident_id (begun s)).0 ≡ err x))
            × ((y : Error) × (prior_failure e p incident_id j.agent_state ≡ err y)))
  unfolding investigate investigate_open
  investigate-returns s = elim (Option-cases (find_incident incident_id s)) [
    | inl n ↦ inl (rw (investigate, n) refl)
    | inr (i, y) ↦ elim (Bool-cases (is_busy e p incident_id i.status)) [
      | inl b ↦ inl (rw (investigate, y, b) refl)
      | inr b ↦
          let (j, there) = run-found s y in
          elim (closing-ends (run e p incident_id (begun s)).0 (after_run s) there).0 [
            | inl done ↦ inl (rw (investigate, y, b) done)
            | inr (raised, unread) ↦ inr (j, there, raised, unread)
          ]
    ]
  ]

  -- If the run of an incident that may be investigated raises an error, and the `last_failure` that it leaves can be
  -- read, then the incident is there afterwards with status FAILED. Its summary says that the runtime
  -- limit was reached, if the error is an `asyncio.TimeoutError`; for any other error it is the
  -- redacted message, or the name of the error's class if that is empty.
  pub investigate-failed :
      (s : Store) (i k : Incident)
      → find_incident incident_id s ≡ some i
      → is_busy e p incident_id i.status ≡ false
      → find_incident incident_id (after_run s) ≡ some k
      → (prior : Fields) → prior_failure e p incident_id k.agent_state ≡ ok prior
      → (x : Error) → (run e p incident_id (begun s)).0 ≡ err x
      → (j : Incident) × (find_incident incident_id (investigate e p incident_id s).1 ≡ some j)
        × (j.status ≡ failed)
        × ((text : String)
            → x ≡ timeout_error text
            → j.summary ≡ some "Investigation runtime limit reached")
        × (runtime_limit e p incident_id x ≡ false
            → clean e p incident_id 1500 (message x) ≢ ""
            → j.summary ≡ some (clean e p incident_id 1500 (message x)))
        × (runtime_limit e p incident_id x ≡ false
            → clean e p incident_id 1500 (message x) ≡ ""
            → j.summary ≡ some (p.type_name x))
  unfolding investigate investigate_open failed_text text_or string_eq
  investigate-failed s i k y b left prior was x raised =
      let (j, found, lost, told) =
        (closing-ends (run e p incident_id (begun s)).0 (after_run s) left).1 x prior raised was in
      (
        j,
        rw (investigate, y, b) found,
        lost,
        λ text same. told ∙ ap (λ v. some (failed_text e p incident_id v)) same,
        λ other full. told ∙ ap some (failed_text_kept x other full),
        λ other bare. told ∙ ap some (failed_text_named x other bare),
      )
