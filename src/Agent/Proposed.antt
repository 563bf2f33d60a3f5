-- ===== src/Agent/Proposed.antt =====
-- What a proposal of the agent shows (`propose_action` of backend/app/agent.py).
use home_ai_agent.Base.{
  ℕ, ◌≡◌, refl, Bool, true, false, none, some, head, tail, not_In-nil, ◌||◌, List, [], ◌∷◌, ◌++◌,
  String, ◌==◌, string_eq, select, find, last, is_empty, ok, arith, ◌⊎◌, inl, inr, In, last-In,
  select-In, find-In, Option-cases, Result-cases, if◌then◌else◌,
}
use home_ai_agent.Json.{Fields, get, is_str, is_true, is_false}
use home_ai_agent.Model.{Incident, Observation, Action}
use home_ai_agent.Gateway.{Registry, ToolEntry, is_write, validate_tool}
use home_ai_agent.Autonomy.Evidence.{target_key}
use home_ai_agent.Service.Dispatch.{evidence_ids}
use home_ai_agent.Agent.Propose.{
  container_running, is_sick, check_container, check_service, shows_target, preconditions,
  is_same_proposal, proposal, add_proposal, reuse_or_add, propose_action,
}
use home_ai_agent.Store.{Env, Store, find_incident, observations_of, actions_of}

-- the rule for the tool, on the state of its container or of its service
abbrev pub FitsService : String → Fields → Type 0
FitsService tool state =
    (tool ≡ "start_service"
      → (is_str "inactive" (get "state" state) || is_str "failed" (get "state" state)) ≡ true)
    × (tool ≡ "restart_service" → is_str "active" (get "state" state) ≡ true)

check_service-FitsService :
    (tool : String) (state : Fields) → check_service tool state ≡ ok tt → FitsService tool state
unfolding check_service string_eq
check_service-FitsService tool state h = (
  λ starts. let z : (tool == "start_service") ≡ true = rw starts refl in ground arith,
  λ restarts.
      let z : (tool == "restart_service") ≡ true = rw restarts refl in
      let y : (tool == "start_service") ≡ false = rw restarts refl in ground arith,
)

abbrev pub Fits : String → Fields → Type 0
Fits tool state =
    (tool ≡ "start_container" → is_false (container_running state) ≡ true)
    × (tool ≡ "restart_container"
        → (is_true (container_running state) ≡ true) × (is_sick state ≡ true))

check_container-Fits :
    (tool : String) (state : Fields) → check_container tool state ≡ ok tt → Fits tool state
unfolding check_container string_eq
check_container-Fits tool state h = (
  λ starts. let z : (tool == "start_container") ≡ true = rw starts refl in ground arith,
  λ restarts.
      let z : (tool == "restart_container") ≡ true = rw restarts refl in
      let y : (tool == "start_container") ≡ false = rw restarts refl in
      (ground arith, ground arith),
)

preconditions_lem :
    (tool : String) (arguments : Fields) (observations : List Observation)
    → preconditions tool arguments observations ≡ ok tt
    → (o : Observation) × In o observations
      × (shows_target tool arguments o ≡ true)
      × ((if target_key tool == "container"
            then check_container tool o.normalized_result
            else check_service tool o.normalized_result)
          ≡ ok tt)
unfolding preconditions
preconditions_lem tool arguments observations h =
    elim (Option-cases (last (select (shows_target tool arguments) observations))) [
      | inl n ↦ absurd (ground arith)
      | inr (o, p) ↦
          let (i, q) = select-In (shows_target tool arguments) observations (last-In _ p) in
          (o, i, q, ground arith)
    ]

find-none :
    {A : Type 0} (p : A → Bool) (xs : List A) → find p xs ≡ none → {a : A} → In a xs → p a ≡ false
find-none p [] h i = absurd (not_In-nil i)
find-none p (x ∷ xs) h (head e) = rw e (ground arith)
find-none p (x ∷ xs) h (tail i) = find-none p xs (ground arith) i

module _ (e : Env) (now : ℕ) (incident_id : String) where
  -- The proposal that is returned is an old one, and nothing changes; or no action of the incident is one, and a
  -- new pending action stands at the end of the table.
  abbrev pub IsProposed : String → Fields → String → Store → Store → Type 0
  IsProposed tool arguments id s t =
      ((a : Action) × In a (actions_of incident_id s)
        × (is_same_proposal tool arguments a ≡ true)
        × (a.id ≡ id)
        × (t ≡ s))
      ⊎ (((a : Action)
            → In a (actions_of incident_id s)
            → is_same_proposal tool arguments a ≡ false)
          × (t.actions ≡ s.actions ++ (proposal e now incident_id id tool arguments ∷ [])))

  reuse_or_add-IsProposed :
      (tool : String) (arguments : Fields) (id : String) (s t : Store)
      → reuse_or_add e now incident_id tool arguments s ≡ (ok id, t)
      → IsProposed tool arguments id s t
  unfolding reuse_or_add add_proposal
  reuse_or_add-IsProposed tool arguments id s t h =
      elim (Option-cases (find (is_same_proposal tool arguments) (actions_of incident_id s))) [
        | inl n ↦
            let same : e.uuid s.issued ≡ id = ground arith in
            let added : t.actions
                ≡ s.actions ++ (proposal e now incident_id (e.uuid s.issued) tool arguments ∷ []) =
              ground arith in
            inr (
              λ a i. find-none (is_same_proposal tool arguments) (actions_of incident_id s) n i,
              rw same at added,
            )
        | inr (a, p) ↦
            let (i, q) = find-In (is_same_proposal tool arguments) (actions_of incident_id s) p in
            inl (a, i, q, ground arith, ground arith)
      ]

  -- The agent proposes only a write that the policy allows, with writes enabled, after a diagnosis that cites
  -- evidence and a successful observation of exactly the target. That observation shows a container
  -- stopped for a start, or running and unhealthy for a restart, and a service inactive or failed for
  -- a start, or active for a restart. If the incident has a pending proposal of the same write, such
  -- a proposal is returned and nothing changes; else one pending action is added.
  pub propose_action-IsProposed :
      (registry : Registry) (tool : String) (arguments : Fields) (id : String) (s t : Store)
      → propose_action e now incident_id registry tool arguments s ≡ (ok id, t)
      → (e.settings.enable_write_actions ≡ true)
        × ((entry : ToolEntry) × (validate_tool e.schema_valid registry tool arguments true
              ≡ ok entry))
        × (is_write tool ≡ true)
        × ((incident : Incident) × (find_incident incident_id s ≡ some incident)
            × (is_empty (evidence_ids incident.report) ≡ false))
        × ((o : Observation) × In o (observations_of incident_id s)
            × (shows_target tool arguments o ≡ true)
            × ((target_key tool == "container") ≡ true → Fits tool o.normalized_result)
            × ((target_key tool == "container") ≡ false → FitsService tool o.normalized_result))
        × IsProposed tool arguments id s t
  unfolding propose_action
  propose_action-IsProposed registry tool arguments id s t h =
      elim (Result-cases (validate_tool e.schema_valid registry tool arguments true)) [
        | inl (x, p) ↦ absurd (ground arith)
        | inr (entry, p) ↦ elim (Option-cases (find_incident incident_id s)) [
          | inl q ↦ absurd (ground arith)
          | inr (incident, q) ↦
              let pre : preconditions tool arguments (observations_of incident_id s) ≡ ok tt =
                ground arith in
              let (o, i, shown, ruled) =
                preconditions_lem tool arguments (observations_of incident_id s) pre in
              let added : reuse_or_add e now incident_id tool arguments s ≡ (ok id, t) =
                ground arith in
              (
                ground arith,
                (entry, p),
                ground arith,
                (incident, q, ground arith),
                (
                  o,
                  i,
                  shown,
                  λ k. check_container-Fits tool o.normalized_result (rw k at ruled),
                  λ k. check_service-FitsService tool o.normalized_result (rw k at ruled),
                ),
                reuse_or_add-IsProposed tool arguments id s t added,
              )
        ]
      ]
