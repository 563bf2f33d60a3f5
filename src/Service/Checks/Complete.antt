-- ===== src/Service/Checks/Complete.antt =====
-- `verification_checks` of backend/app/service.py asks for exactly the checks of the profiles that the
-- service depends on, whatever the shape of the dependencies.
use home_ai_agent.Base.{
  suc, ◌≡◌, refl, Bool, true, false, Option, none, some, List, [], ◌∷◌, String, In, head, tail,
  In-select, select-In, select, length, string_eq, ◌⊎◌, inl, inr, arith, Bool-cases, ok,
  starts_with, In-cases,
}
use home_ai_agent.Topology.{Topology, CheckSpec, has_profile, service_names}
use home_ai_agent.Topology.Reach.{Reaches, collected-Reaches, Reaches-collected, unseen-nil}
use home_ai_agent.Autonomy.Targets.{
  dependencies, find_profile-In, length-service_names, dependencies_unknown,
}
use home_ai_agent.Model.{Action}
use home_ai_agent.Json.{get, value_eq}
use home_ai_agent.Autonomy.Evidence.{target_key, state_tool}
use home_ai_agent.Service.Checks.{
  own_checks, visit_checks, same_check, unique, for_action, verification_checks, checks_target,
  stopped_state,
}

module _ (services : Topology) (service : String) where
  -- a check of a profile that the service reaches
  abbrev pub IsConfigured : CheckSpec → Type 0
  IsConfigured c =
      (x : String) × Reaches (dependencies services) service x × In c (own_checks services x)

  visit_checks-IsConfigured :
      (c : CheckSpec) → In c (visit_checks services service) → IsConfigured c
  unfolding visit_checks
  visit_checks-IsConfigured c i =
      let (x, r, _, j) =
        collected-Reaches (dependencies services) (λ _. false) (λ _. []) (own_checks services)
          (suc (length services)) service c i in
      (x, r, j)

  IsConfigured-visit_checks :
      (c : CheckSpec) → IsConfigured c → In c (visit_checks services service)
  unfolding visit_checks
  IsConfigured-visit_checks c (x, r, i) =
      Reaches-collected (dependencies services) (λ _. false) (λ _. []) (own_checks services)
        (service_names services) leaf (λ y h. cc) (suc (length services)) service
        (omega (arith, unseen-nil (service_names services), length-service_names services)) r refl c
        i
    where
      leaf :
          (y : String)
          → In y (service_names services) ⊎ (false ≡ true) ⊎ (dependencies services y ≡ [])
      leaf y = elim (Bool-cases (has_profile services y)) [
        | inl known ↦ inl (find_profile-In services y known)
        | inr new ↦ inr (inr (dependencies_unknown services y (rw new refl)))
      ]

unique-In : (c : CheckSpec) (cs : List CheckSpec) → In c (unique cs) → In c cs
unfolding unique
unique-In c [] i = i
unique-In c (d ∷ cs) i = elim (In-cases i) [
  | inl same ↦ head same
  | inr j ↦ tail (unique-In c cs ((select-In _ (unique cs) j).0))
]

-- two checks that a chain of equal dumps joins
pub data Alike : CheckSpec → CheckSpec → Type 0 where
  itself : {c : CheckSpec} → Alike c c
  link : {d x c : CheckSpec} → same_check d x ≡ true → Alike x c → Alike d c

In-unique :
    (c : CheckSpec) (cs : List CheckSpec) → In c cs → (d : CheckSpec) × In d (unique cs) × Alike d c
unfolding unique
In-unique c [] i = elim i [ ]
In-unique c (d ∷ cs) (head same) = (c, head same, itself)
In-unique c (d ∷ cs) (tail i) =
    let (x, j, e) = In-unique c cs i in
    elim (Bool-cases (same_check d x)) [
      | inl dup ↦ (d, head refl, link dup e)
      | inr new ↦ (x, tail (In-select _ j (rw new refl)), e)
    ]

abbrev pub stops : Option Action → Bool
stops none = false
stops (some a) = starts_with a.tool_name "stop_"

verification_checks-unique :
    (services : Topology) (service : String) (action : Option Action) (cs : List CheckSpec)
    → verification_checks services service action ≡ ok cs
    → stops action ≡ false
    → cs ≡ unique (visit_checks services service)
unfolding verification_checks for_action
verification_checks-unique services service none cs h n = ground arith
verification_checks-unique services service (some a) cs h n = ground arith

-- Unless the action is a deliberate stop, every check that is returned belongs to a profile that the
-- service reaches along `depends_on`, and every check of such a profile has an equal one among them.
pub verification_checks-IsConfigured :
    (services : Topology) (service : String) (action : Option Action) (cs : List CheckSpec)
    → verification_checks services service action ≡ ok cs
    → stops action ≡ false
    → (c : CheckSpec)
    → (In c cs → IsConfigured services service c)
      × (IsConfigured services service c → (d : CheckSpec) × In d cs × Alike d c)
verification_checks-IsConfigured services service action cs h n c =
    let same = verification_checks-unique services service action cs h n in
    (
      λ i.
          visit_checks-IsConfigured services service c
            (unique-In c (visit_checks services service) (rw same at i)),
      λ k. rw same (
          In-unique c (visit_checks services service)
            (IsConfigured-visit_checks services service c k)),
    )

target_found :
    (a : Action) (checks cs : List CheckSpec)
    → for_action a checks ≡ ok cs
    → (c : CheckSpec) × In c (select (checks_target a) checks)
      × (starts_with a.tool_name "stop_" ≡ true
          → cs ≡ record c { expect = stopped_state (target_key a.tool_name) } ∷ [])
unfolding for_action
target_found a checks cs h =
    elim (select (checks_target a) checks)
        as (λ x.
          x ≡ select (checks_target a) checks
          → (c : CheckSpec) × In c x
            × (starts_with a.tool_name "stop_" ≡ true
                → cs ≡ record c { expect = stopped_state (target_key a.tool_name) } ∷ [])) [
                  | [] ↦ λ e. absurd (ground arith)
                  | c ∷ rest ↦ λ e. (c, head refl, λ stop. ground arith)
                ]
      refl

reads_target :
    (a : Action) (c : CheckSpec)
    → checks_target a c ≡ true
    → (c.tool ≡ state_tool a.tool_name)
      × (value_eq
            (get (target_key a.tool_name) c.arguments)
            (get (target_key a.tool_name) a.arguments)
          ≡ true)
unfolding checks_target string_eq
reads_target a c h = elim (string_eq.dec c.tool (state_tool a.tool_name)) [
  | yes e ↦ (e, ground arith)
  | no n ↦ absurd (ground arith)
]

-- For an action, some configured check uses the tool that reads the state of its kind of target, with exactly its
-- target. If the action is a stop, the answer is this check alone, with the stopped state as its
-- expectation; else a check that equals it is in the answer.
pub verification_checks-target :
    (services : Topology) (service : String) (a : Action) (cs : List CheckSpec)
    → verification_checks services service (some a) ≡ ok cs
    → (c : CheckSpec) × IsConfigured services service c
      × (c.tool ≡ state_tool a.tool_name)
      × (value_eq
            (get (target_key a.tool_name) c.arguments)
            (get (target_key a.tool_name) a.arguments)
          ≡ true)
      × (starts_with a.tool_name "stop_" ≡ true
          → cs ≡ record c { expect = stopped_state (target_key a.tool_name) } ∷ [])
      × (starts_with a.tool_name "stop_" ≡ false → (d : CheckSpec) × In d cs × Alike d c)
unfolding verification_checks
verification_checks-target services service a cs h =
    let (c, i, stopped) = target_found a (visit_checks services service) cs (ground arith) in
    let (j, t) = select-In (checks_target a) (visit_checks services service) i in
    let (read, exact) = reads_target a c t in
    let configured = visit_checks-IsConfigured services service c j in
    (
      c,
      configured,
      read,
      exact,
      stopped,
      λ n. (verification_checks-IsConfigured services service (some a) cs h n c).1 configured,
    )
