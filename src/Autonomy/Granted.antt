-- ===== src/Autonomy/Granted.antt =====
-- What an authorization by `authorize` guarantees.
use home_ai_agent.Base.{
  ℕ, ◌+◌, ◌≤◌, ◌<◌, ◌≡◌, refl, sym, ◌∙◌, Bool, true, false, List, [], ◌∷◌, String, In, head, tail,
  contains, not_In-nil, string_eq, length, any, ok, arith, starts_with, map, select, last, some,
  contains-In, Result-cases, inl, inr,
}
use home_ai_agent.Json.{Value, str, Fields, get}
use home_ai_agent.Model.{Settings, Observation, Action}
use home_ai_agent.Topology.Reach.{Reaches}
use home_ai_agent.Gateway.{Registry, ToolEntry, is_write, validate_tool}
use home_ai_agent.Autonomy.Shown.{Shows, target_rules-Shows}
use home_ai_agent.Autonomy.Targets.{
  profile_targets, own_targets, dependencies, profile_targets-Reaches,
}
use home_ai_agent.Autonomy.Evidence.{
  target_key, state_tool, names, max_age, authorize_evidence, observes, last_state, cited, is_fresh,
}
use home_ai_agent.Autonomy.{
  granted_by, authorize_scope, attempted, authorize_budget, target_rules, authorize,
}
use home_ai_agent.Autonomy.Admitted.{
  IsRecovery, Admits, is_write-IsRecovery, names-str, attempted_before, evidence-In, last_state-In,
  target_rules-Admits, evidence_steps,
}

module _ (schema_valid : Fields → Fields → Bool) (s : Settings) (registry : Registry)
    (service tool : String) (arguments : Fields) where
  pub scope_steps :
      {target : Value}
      → authorize_scope schema_valid s registry service tool arguments ≡ ok target
      → (s.enable_write_actions ≡ true)
        × (s.enable_autonomous_actions ≡ true)
        × (is_write tool ≡ true)
        × (starts_with tool "stop_" ≡ false)
        × (target ≡ get (target_key tool) arguments)
        × (names (profile_targets s.topology service) target ≡ true)
  unfolding authorize_scope
  scope_steps h = ground arith

  -- the registry has the tool, and its entry grants the target
  scope_entry :
      {target : Value}
      → authorize_scope schema_valid s registry service tool arguments ≡ ok target
      → (entry : ToolEntry) × (validate_tool schema_valid registry tool arguments true ≡ ok entry)
        × (granted_by schema_valid s registry entry target ≡ true)
  unfolding authorize_scope
  scope_entry h = elim (Result-cases (validate_tool schema_valid registry tool arguments true)) [
    | inl (x, p) ↦ absurd (ground arith)
    | inr (entry, p) ↦
        let (_, _, _, _, same, _) = scope_steps h in
        let granted : granted_by schema_valid s registry entry (get (target_key tool) arguments)
            ≡ true =
          ground arith in
        (entry, p, rw same granted)
  ]

-- the cited observations that are at most fifteen minutes old
abbrev pub evidence_of : ℕ → List String → List Observation → List Observation
evidence_of now ids observations = select (is_fresh now) (cited ids observations)

-- The guarantee, written without reference to the order of the tests.
pub record IsGranted (schema_valid : Fields → Fields → Bool) (str_of : Value → String)
    (registry : Registry) (s : Settings) (service tool : String) (arguments : Fields)
    (actions : List Action) (observations : List Observation) (now : ℕ) (ids granted : List String)
    : Type 0 where
  pub writes_enabled : s.enable_write_actions ≡ true
  pub autonomy_enabled : s.enable_autonomous_actions ≡ true
  pub recovery : IsRecovery tool
  pub target : String
  pub target_named : get (target_key tool) arguments ≡ str target
  pub entry : ToolEntry
  pub policy_allows : validate_tool schema_valid registry tool arguments true ≡ ok entry
  pub gateway_grants :
      (texts : List String) → entry.autonomous_targets ≡ some texts → In target texts
  pub in_topology :
      (x : String) × Reaches (dependencies s.topology) service x
      × In target (own_targets s.topology x)
  pub within_budget : length actions < s.autonomous_max_actions_per_incident
  pub first_attempt :
      (a : Action) → In a actions → attempted (target_key tool) (str target) a ≡ false
  pub cited_fresh :
      (id : String)
      → In id granted
      → (o : Observation) × In o observations
        × (o.id ≡ id)
        × (contains ids id ≡ true)
        × (now ≤ o.created_at + max_age)
  pub witness : Observation
  pub witness_fresh : In witness observations × (now ≤ witness.created_at + max_age)
  pub witness_target : observes (state_tool tool) (target_key tool) (str target) witness ≡ true
  pub witness_last :
      last (
        select
          (observes (state_tool tool) (target_key tool) (str target))
          (evidence_of now ids observations))
      ≡ some witness
  pub witness_admits : Admits (str target) witness.normalized_result tool
  pub shown : Shows str_of (str target) (evidence_of now ids observations) tool

budget_steps :
    (s : Settings) (key : String) (target : Value) (actions : List Action)
    → authorize_budget s key target actions ≡ ok tt
    → (length actions < s.autonomous_max_actions_per_incident)
      × (any (attempted key target) actions ≡ false)
unfolding authorize_budget
budget_steps s key target actions h = ground arith

map-In :
    (evidence : List Observation) {id : String}
    → In id (map (λ (o : Observation). o.id) evidence)
    → (o : Observation) × In o evidence × (o.id ≡ id)
map-In [] i = absurd (not_In-nil i)
map-In (o ∷ evidence) (head e) = (o, head refl, sym e)
map-In (o ∷ evidence) (tail i) = let (p, j, e) = map-In evidence i in (p, tail j, e)

module _ (schema_valid : Fields → Fields → Bool) (str_of : Value → String) (s : Settings)
    (registry : Registry) (service : String) (actions : List Action)
    (observations : List Observation) (now : ℕ) (tool : String) (arguments : Fields)
    (ids : List String) where
  authorize_steps :
      {granted : List String}
      → authorize schema_valid str_of s registry service actions observations now tool arguments ids
        ≡ ok granted
      → (target : Value) × (evidence : List Observation) × (state : Fields) × (authorize_scope
            schema_valid s registry service tool arguments
          ≡ ok target)
        × (authorize_budget s (target_key tool) target actions ≡ ok tt)
        × (authorize_evidence now observations ids ≡ ok evidence)
        × (last_state tool target evidence ≡ ok state)
        × (target_rules str_of tool target evidence state ≡ ok tt)
        × (granted ≡ map (λ (o : Observation). o.id) evidence)
  unfolding authorize
  authorize_steps h = ground arith

  -- Every authorized write is a start or a restart that the policy of the tools allows, on a target that the
  -- gateway publishes for it, if it publishes any, and that the service's own topology has, under both
  -- deployment flags, within the budget and not yet attempted by an autonomous action. Each granted
  -- identifier belongs to a cited observation of the incident at most fifteen minutes old. Among
  -- these, the last successful observation of exactly the target shows a state that admits the write;
  -- a container that needs Redis has one that shows Redis running and healthy; a restart of a
  -- container has a last log of it that blames no dependency; and a restart of the tunnel has a
  -- failing public check and a working one of the local origin.
  pub authorize-IsGranted :
      (granted : List String)
      → authorize schema_valid str_of s registry service actions observations now tool arguments ids
        ≡ ok granted
      → IsGranted schema_valid str_of registry s service tool arguments actions observations now ids
          granted
  unfolding names
  authorize-IsGranted granted h =
      let (target, evidence, state, scope, budget, cites, shown, rules, same) = authorize_steps h in
      let (writes, autonomy, write, not_stop, named, in_targets) =
        scope_steps schema_valid s registry service tool arguments scope in
      let recovery = is_write-IsRecovery tool write not_stop in
      let (t, is_t, t_in) = names-str _ target in_targets in
      let (within, untried) = budget_steps s (target_key tool) target actions budget in
      let (o, o_in, seen, o_last, o_state) = last_state-In tool target evidence shown in
      let (entry, allowed, grants) =
        scope_entry schema_valid s registry service tool arguments scope in
      let selected = evidence_steps now observations ids cites in
      let (o_known, o_cited, o_fresh) = evidence-In now observations ids cites o_in in
      record {
        writes_enabled = writes;
        autonomy_enabled = autonomy;
        recovery = recovery;
        target = t;
        target_named = sym named ∙ is_t;
        entry = entry;
        policy_allows = allowed;
        gateway_grants =
            λ texts p. contains-In texts t (named_by entry t texts p (rw is_t at grants));
        in_topology = ((profile_targets-Reaches s.topology service t).0 t_in).1;
        within_budget = within;
        first_attempt =
            λ a i. attempted_before (target_key tool) (str t) actions (rw (← is_t) untried) i;
        cited_fresh = λ id i. shown_by evidence cites (rw same at i);
        witness = o;
        witness_fresh = (o_known, o_fresh);
        witness_target = rw (← is_t) seen;
        witness_last = rw (← is_t, ← selected) o_last;
        witness_admits =
            rw (← is_t, o_state) (target_rules-Admits str_of target evidence state recovery rules);
        shown =
            rw (← is_t, ← selected)
              (target_rules-Shows str_of target evidence state recovery rules);
      }
    where
      named_by :
          (entry : ToolEntry) (t : String) (texts : List String)
          → entry.autonomous_targets ≡ some texts
          → granted_by schema_valid s registry entry (str t) ≡ true
          → contains texts t ≡ true
      named_by entry t texts p g = rw p at g

      shown_by :
          (evidence : List Observation)
          → authorize_evidence now observations ids ≡ ok evidence
          → {id : String} → In id (map (λ (o : Observation). o.id) evidence)
          → (o : Observation) × In o observations
            × (o.id ≡ id)
            × (contains ids id ≡ true)
            × (now ≤ o.created_at + max_age)
      shown_by evidence cites i =
          let (o, j, e) = map-In evidence i in
          let (k, c, f) = evidence-In now observations ids cites j in (o, k, e, rw (← e) c, f)
