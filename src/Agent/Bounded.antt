-- ===== src/Agent/Bounded.antt =====
-- What a whole investigation does (`investigate` of backend/app/agent.py): its questions to the model and its
-- requests to the host.
use home_ai_agent.Base.{
  ℕ, zero, suc, ◌+◌, ◌≤◌, ◌≡◌, refl, sym, ◌∙◌, ap, true, false, Bool, Option, none, some, List, [],
  ◌∷◌, ◌++◌, All, String, Result, ok, err, arith, inl, inr, Bool-cases, Option-cases, Error,
  string_eq,
}
use mathlib.Core.List.{append_assoc, append-nil}
use home_ai_agent.Json.{Fields, field, end, obj}
use home_ai_agent.Gateway.{Registry, validate_tool}
use home_ai_agent.Routing.{IncidentSpec, initial_diagnostic}
use home_ai_agent.Agent.Context.{context}
use home_ai_agent.Agent.Decide.{Next, again, finished}
use home_ai_agent.Agent.Decision.{Decision}
use home_ai_agent.Agent.Loop.{
  Locals, allowed_tools, max_decisions, retrieve_once, failed_model, ask, decide, reject, conclude,
  take_step, exhausted, loop, classified, classify, make_diagnostic, follow_route, budget_after,
  dump_spec, first_locals, route_and_loop, run, fail, failed_incident, prior_failure, begin,
  note_end, investigate_open, investigate, is_busy,
}
use home_ai_agent.Agent.State.{Provider, signature}
use home_ai_agent.Agent.Kept.{update_state-Keeps, retrieve_rag-Keeps, load-Keeps, audit-Keeps}
use home_ai_agent.Agent.Sends.{IsBacked}
use home_ai_agent.Agent.Steps.{state_rules, carry_out-Keeps, diagnose-Keeps}
use home_ai_agent.Store.{
  Env, Store, Call, M, find_incident, set_incident, ◌>>=◌, result_of, pure, modify,
}
use home_ai_agent.Store.Keeps.{
  Keeps, Frame, ids, set_incident-Keeps, keeps_rules, Keeps-bind, Keeps-then, Keeps-pure,
  Keeps-lift, Keeps-result_of,
}

-- `m` takes a state with `P` to one with `P'`
pub record Moves {A : Type 0} (P P' : Store → Type 0) (m : M A) : Type 0 where
  pub at : (s : Store) → P s → P' (m s).1

module _ {P P' P'' : Store → Type 0} where
  Moves-bind :
      {A B : Type 0} {m : M A} {f : A → M B}
      → ((s : Store) → P' s → P'' s)
      → Moves P P' m
      → ((a : A) (s t : Store) → m s ≡ (ok a, t) → Moves P' P'' (f a))
      → Moves P P'' (m >>= f)
  Moves-bind {A} {B} {m} {f} wider km kf = record { at = λ s h. go s (m s) refl (km.at s h) }
    where
      continue : Result A × Store → Result B × Store
      continue x = elim x.0 [ ok a ↦ f a x.1 | err e ↦ (err e, x.1) ]

      go : (s : Store) (x : Result A × Store) → m s ≡ x → P' x.1 → P'' (continue x).1
      go s (ok a, t) y h = (kf a s t y).at t h
      go s (err y, t) _ h = wider t h

  Moves-wider : {A : Type 0} {m : M A} → ((s : Store) → P' s → P'' s) → Moves P P' m → Moves P P'' m
  Moves-wider {A} {m} wider km = record { at = λ s h. wider (m s).1 (km.at s h) }

module _ {P P' : Store → Type 0} where
  Moves-kept : {A : Type 0} {m : M A} → ((s : Store) → P s → P' s) → Keeps P m → Moves P P' m
  Moves-kept {A} {m} wider km = record { at = λ s h. wider (m s).1 (km.at s h) }

  Moves-after :
      {A B : Type 0} {m : M A} {f : A → M B}
      → Moves P P' m
      → ((a : A) → Keeps P' (f a))
      → Moves P P' (m >>= f)
  Moves-after {A} {B} {m} {f} km kf =
      Moves-bind {f = f} (λ s h. h) km (λ a s t y. record { at = (kf a).at })

  Moves-before :
      {A B : Type 0} {m : M A} {f : A → M B}
      → ((s : Store) → P s → P' s)
      → Keeps P m
      → ((a : A) → Moves P P' (f a))
      → Moves P P' (m >>= f)
  Moves-before wider km kf = Moves-bind wider (record { at = km.at }) (λ a s t y. kf a)

module _ (e : Env) (p : Provider) (incident_id : String) (known : List String)
    (before : List Call) where
  -- after at most n questions: the incidents are those known, and the requests since are backed
  abbrev pub Since : ℕ → List String → List Call → ℕ → Type 0
  Since n names calls asked =
      (names ≡ known)
      × (asked ≤ n)
      × ((sent : List Call) × (calls ≡ before ++ sent) × All (IsBacked e) sent)

  All-snoc :
      (cs : List Call) (c : Call)
      → All (IsBacked e) cs
      → IsBacked e c
      → All (IsBacked e) (cs ++ (c ∷ []))
  All-snoc [] c h k = (k, tt)
  All-snoc (d ∷ ds) c (x, h) k = (x, All-snoc ds c h k)

  Since-sends :
      (n : ℕ) (names : List String) (calls : List Call) (asked : ℕ) (c : Call)
      → IsBacked e c
      → Since n names calls asked
      → Since n names (calls ++ (c ∷ [])) asked
  Since-sends n names calls asked c k (a, b, (sent, same, backed)) = (
    a,
    b,
    (
      sent ++ (c ∷ []),
      ap (λ l. l ++ (c ∷ [])) same ∙ append_assoc before sent (c ∷ []),
      All-snoc sent c backed k,
    ),
  )

  abbrev At : ℕ → Store → Type 0
  At n = Frame (Since n)

  Since-wider : {m n : ℕ} → m ≤ n → (s : Store) → At m s → At n s
  Since-wider h s (a, b, c) = (a, omega (arith, h, b), c)

  retrieve_once-Keeps : (n : ℕ) (b : Bool) → Keeps (At n) (retrieve_once e p incident_id b)
  unfolding retrieve_once
  retrieve_once-Keeps n true = Keeps-pure true
  retrieve_once-Keeps n false = search (state_rules, retrieve_rag-Keeps)

  context-Keeps : (n : ℕ) (feedback : String) → Keeps (At n) (context e p incident_id feedback)
  unfolding context
  context-Keeps n feedback = search state_rules

  failed_model-Keeps : (n step : ℕ) (x : Error) → Keeps (At n) (failed_model e p incident_id step x)
  unfolding failed_model
  failed_model-Keeps n step x = search (state_rules) depth 12

  ask-Keeps : (n step : ℕ) (r : Result Decision) → Keeps (At n) (ask e p incident_id step r)
  unfolding ask
  ask-Keeps n step (ok d) = search (state_rules)
  ask-Keeps n step (err x) = failed_model-Keeps n step x

  decide-Moves :
      (n step : ℕ) (shown : Fields) → Moves (At n) (At (suc n)) (decide e p incident_id step shown)
  unfolding decide
  decide-Moves n step shown = record {
    at = λ s (a, b, c).
        (ask-Keeps (suc n) step (p.decide s.asked shown)).at (record s { asked = suc s.asked })
          (a, omega (arith, b), c);
  }

  reject-Keeps :
      (n step : ℕ) (tool : Option String) (k : ℕ) (x : Error)
      → Keeps (At n) (reject e p incident_id step tool k x)
  unfolding reject
  reject-Keeps n step tool k x = search (state_rules) depth 16

  conclude-Keeps :
      (n step : ℕ) (tool : Option String) (b : Bool) (k : ℕ) (r : Result Next)
      → Keeps (At n) (conclude e p incident_id step tool b k r)
  unfolding conclude
  conclude-Keeps n step tool b k (ok finished) = Keeps-pure none
  conclude-Keeps n step tool b k (ok (again f)) = Keeps-pure _
  conclude-Keeps n step tool b k (err x) = search (keeps_rules, reject-Keeps)

  take_step-Moves :
      (n : ℕ) (registry : Registry) (step left : ℕ) (st : Locals)
      → Moves (At n) (At (suc n)) (take_step e p incident_id registry step left st)
  unfolding take_step
  take_step-Moves n registry step left st =
      let wider = Since-wider {m = n} {n = suc n} (omega arith) in
      Moves-before wider (retrieve_once-Keeps n st.retrieved) (λ b.
        Moves-before wider (update_state-Keeps (Since n) e incident_id _) (λ _.
          Moves-before wider (context-Keeps n st.feedback) (λ shown.
            Moves-after (decide-Moves n step shown) (λ d.
              Keeps-bind
                (Keeps-result_of (
                  carry_out-Keeps (Since (suc n)) e p incident_id (Since-sends (suc n)) registry
                    (p.clock step) step d))
                (λ r. conclude-Keeps (suc n) step d.tool b st.invalid r)))))

  exhausted-Keeps : (n : ℕ) → Keeps (At n) (exhausted e p incident_id)
  unfolding exhausted
  exhausted-Keeps n = search state_rules

  later-Moves :
      (n left : ℕ) {f : Locals → M (Unit {0})} (next : Option Locals)
      → ((st : Locals) → Moves (At (suc n)) (At (suc n + left)) (f st))
      → Moves (At (suc n)) (At (n + suc left)) (elim next [ none ↦ pure tt | some st ↦ f st ])
  later-Moves n left none k = Moves-kept (Since-wider (omega arith)) (Keeps-pure tt)
  later-Moves n left (some st) k = Moves-wider (Since-wider (omega arith)) (k st)

  loop-Moves :
      (n : ℕ) (registry : Registry) (step left : ℕ) (st : Locals)
      → Moves (At n) (At (n + left)) (loop e p incident_id registry step left st)
  unfolding loop
  loop-Moves n registry step zero st = Moves-kept (Since-wider (omega arith)) (exhausted-Keeps n)
  loop-Moves n registry step (suc left) st =
      Moves-bind (Since-wider (omega arith)) (take_step-Moves n registry step (suc left) st)
        (λ next s t y.
          later-Moves n left next (λ later. loop-Moves (suc n) registry (suc step) left later))

  classified-Keeps : (n : ℕ) (r : Result IncidentSpec) → Keeps (At n) (classified e p incident_id r)
  unfolding classified
  classified-Keeps n (ok spec) = Keeps-pure spec
  classified-Keeps n (err x) = search state_rules

  classify-Keeps : (n : ℕ) → Keeps (At n) (classify e p incident_id)
  unfolding classify
  classify-Keeps n =
      Keeps-bind (load-Keeps (Since n) e incident_id) (λ i. classified-Keeps n (p.classify i))

  note_signature-Keeps :
      (n : ℕ) (f : Store → List String) → Keeps (At n) (modify (λ s. record s { seen = f s }))
  note_signature-Keeps n f = record { at = λ s h. h }

  make_diagnostic-Keeps :
      (n : ℕ) (registry : Registry) (tool : String) (arguments : Fields)
      → Keeps (At n) (make_diagnostic e p incident_id registry tool arguments)
  unfolding make_diagnostic
  make_diagnostic-Keeps n registry tool arguments =
      Keeps-bind (Keeps-lift (validate_tool e.schema_valid registry tool arguments false)) (λ entry.
        Keeps-then (note_signature-Keeps n (λ s. signature p.dumps tool arguments ∷ s.seen)) (
          Keeps-then (update_state-Keeps (Since n) e incident_id _) (
            Keeps-bind
              (diagnose-Keeps (Since n) e p incident_id (Since-sends n) (p.clock 0) tool arguments)
              (λ id. audit-Keeps (Since n) e incident_id _))))

  follow_route-Keeps :
      (n : ℕ) (registry : Registry) (r : Option (String × Fields))
      → Keeps (At n) (follow_route e p incident_id registry r)
  unfolding follow_route
  follow_route-Keeps n registry none = Keeps-pure tt
  follow_route-Keeps n registry (some (tool, arguments)) =
      make_diagnostic-Keeps n registry tool arguments

  budget_after_le :
      (budget : ℕ) (r : Option (String × Fields)) → budget_after e p incident_id budget r ≤ budget
  unfolding budget_after
  budget_after_le budget none = omega arith
  budget_after_le budget (some r) = omega arith

  route_and_loop-Moves :
      (n : ℕ) (registry : Registry) (spec : IncidentSpec)
      → Moves
          (At n)
          (At (n + max_decisions e.settings))
          (route_and_loop e p incident_id registry spec)
  unfolding route_and_loop
  route_and_loop-Moves n registry spec =
      let most = max_decisions e.settings in
      let route = initial_diagnostic spec registry in
      let fits = budget_after_le most route in
      let wider = Since-wider {m = n} {n = n + most} (omega arith) in
      let classed : Fields = field "incident_spec" (obj (dump_spec spec)) end in
      Moves-before wider (update_state-Keeps (Since n) e incident_id classed) (λ _.
        Moves-before wider (audit-Keeps (Since n) e incident_id "incident_classified") (λ _.
          Moves-before wider (follow_route-Keeps n registry route) (λ _.
            Moves-wider (Since-wider (omega (arith, fits))) (
              loop-Moves n registry 1 (budget_after e p incident_id most route)
                (first_locals e p incident_id)))))

  pub run-Moves : (n : ℕ) → Moves (At n) (At (n + max_decisions e.settings)) (run e p incident_id)
  unfolding run
  run-Moves n =
      let wider = Since-wider {m = n} {n = n + max_decisions e.settings} (omega arith) in
      Moves-before wider (Keeps-lift e.registry) (λ all.
        Moves-before wider (note_signature-Keeps n (λ s. [])) (λ _.
          Moves-before wider (classify-Keeps n) (λ spec.
            route_and_loop-Moves n (allowed_tools e.settings.enable_write_actions all) spec)))

  fail-Keeps : (n : ℕ) (x : Error) → Keeps (At n) (fail e p incident_id x)
  unfolding fail failed_incident
  fail-Keeps n x = Keeps-bind (load-Keeps (Since n) e incident_id) (λ i.
      Keeps-bind (Keeps-lift (prior_failure e p incident_id i.agent_state)) (λ prior.
        Keeps-then
          (set_incident-Keeps (Since n) incident_id (failed_incident e p incident_id x prior)
            (λ j. refl))
          (audit-Keeps (Since n) e incident_id "investigation_failed")))

  note_end-Keeps : (n : ℕ) (r : Result (Unit {0})) → Keeps (At n) (note_end e p incident_id r)
  unfolding note_end
  note_end-Keeps n (ok _) = Keeps-pure tt
  note_end-Keeps n (err x) = fail-Keeps n x

  begin-Keeps : (n : ℕ) → Keeps (At n) (set_incident incident_id (begin e p incident_id))
  unfolding begin
  begin-Keeps n = set_incident-Keeps (Since n) incident_id _ (λ j. refl)

  result_of-Moves :
      {A : Type 0} {P P' : Store → Type 0} {m : M A} → Moves P P' m → Moves P P' (result_of m)
  result_of-Moves km = record { at = λ s h. km.at s h }

  result_of-Keeps : {A : Type 0} {P : Store → Type 0} {m : M A} → Keeps P m → Keeps P (result_of m)
  result_of-Keeps km = record { at = λ s h. km.at s h }

  investigate_open-Moves :
      (n : ℕ) → Moves (At n) (At (n + max_decisions e.settings)) (investigate_open e p incident_id)
  unfolding investigate_open
  investigate_open-Moves n = Moves-before (Since-wider (omega arith)) (begin-Keeps n) (λ _.
      Moves-after (result_of-Moves (run-Moves n)) (λ r.
        Keeps-bind (result_of-Keeps (note_end-Keeps _ r)) (λ noted.
          Keeps-then (update_state-Keeps (Since _) e incident_id p.ending) (Keeps-lift noted))))

module _ (e : Env) (p : Provider) (incident_id : String) (s : Store) where
  -- what was asked and sent since `s`
  abbrev after : Store
  after = (investigate e p incident_id s).1

  investigate-Since :
      Since e p incident_id
        (ids s)
        s.calls
        (s.asked + max_decisions e.settings)
        (ids after)
        after.calls
        after.asked
  unfolding investigate
  investigate-Since = elim (Option-cases (find_incident incident_id s)) [
    | inl n ↦ rw (after, investigate, n) nothing
    | inr (i, y) ↦ elim (Bool-cases (is_busy e p incident_id i.status)) [
      | inl b ↦ rw (after, investigate, y, b) nothing
      | inr b ↦
          rw (after, investigate, y, b)
            ((investigate_open-Moves e p incident_id (ids s) s.calls s.asked).at s start)
    ]
  ]
    where
      start : Since e p incident_id (ids s) s.calls s.asked (ids s) s.calls s.asked
      start = (refl, omega arith, ([], sym (append-nil s.calls), tt))

      nothing :
          Since e p incident_id
            (ids s)
            s.calls
            (s.asked + max_decisions e.settings)
            (ids s)
            s.calls
            s.asked
      nothing = (refl, omega arith, ([], sym (append-nil s.calls), tt))

  -- An investigation asks the model for at most `agent_max_steps` decisions, and at most
  -- `agent_max_model_calls`, and it neither adds nor removes an incident.
  pub investigate-asked :
      ((investigate e p incident_id s).1.asked ≤ s.asked + e.settings.agent_max_steps)
      × ((investigate e p incident_id s).1.asked ≤ s.asked + e.settings.agent_max_model_calls)
      × (ids (investigate e p incident_id s).1 ≡ ids s)
  investigate-asked =
      let (same, few, _) = investigate-Since in (omega (arith, few), omega (arith, few), same)

  -- The requests of an investigation come after those sent before, and each of them is a read, or a write that
  -- names an action while writes and autonomous actions are both enabled.
  pub investigate-IsBacked :
      (sent : List Call) × ((investigate e p incident_id s).1.calls ≡ s.calls ++ sent)
      × All (IsBacked e) sent
  investigate-IsBacked = let (_, _, sends) = investigate-Since in sends
