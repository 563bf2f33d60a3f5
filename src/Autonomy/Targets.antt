-- ===== src/Autonomy/Targets.antt =====
-- `profile_targets` of backend/app/autonomy.py: the containers and units of a service profile and
-- of all that it depends on.
use home_ai_agent.Base.{
  suc, ◌≡◌, Bool, true, not, List, [], ◌∷◌, ◌++◌, String, In, length, string_eq, ◌⊎◌, inl, inr, ◌↔◌,
  none, arith, Option-cases, Bool-cases, if◌then◌else◌, In-left, head, tail, refl, ap, not_In-nil,
}
use mathlib.Core.List.{append-nil}
use home_ai_agent.Topology.{Topology, profile, has_profile, find_profile, service_names}
use home_ai_agent.Topology.Visit.{visit}
use home_ai_agent.Topology.Reach.{Reaches, collected-Reaches, Reaches-collected, unseen-nil}

-- what `found.update` adds at one profile
abbrev pub own_targets : Topology → String → List String
own_targets services name =
    (profile services name).containers ++ (profile services name).systemd_services

abbrev pub dependencies : Topology → String → List String
dependencies services name = (profile services name).depends_on

abbrev unknown : Topology → String → Bool
unknown services name = not (has_profile services name)

-- the call `visit(service)`; the depth never passes the number of profiles, so the fuel is enough
visit_profiles : Topology → String → List String
visit_profiles services service =
    (visit (dependencies services) (unknown services) (own_targets services) (λ _. [])
      (suc (length services)) service ([], [])).1

unfoldable pub profile_targets : Topology → String → List String
unfolding visit_profiles
profile_targets services service =
    if has_profile services service then visit_profiles services service else []

pub find_profile-In :
    (services : Topology) (name : String)
    → has_profile services name ≡ true
    → In name (service_names services)
find_profile-In [] name h = cc
find_profile-In ((k, p) ∷ rest) name h = elim (string_eq.dec name k) [
  | yes same ↦ head same
  | no other ↦ tail (find_profile-In rest name (ground arith))
]

pub length-service_names : (services : Topology) → length (service_names services) ≡ length services
length-service_names [] = refl
length-service_names (_ ∷ rest) = ap suc (length-service_names rest)

pub dependencies_unknown :
    (services : Topology) (name : String)
    → not (has_profile services name) ≡ true
    → dependencies services name ≡ []
dependencies_unknown services name h = ground arith

own_targets-known :
    (services : Topology) (name t : String)
    → In t (own_targets services name)
    → has_profile services name ≡ true
own_targets-known services name t i = elim (Option-cases (find_profile services name)) [
  | inl e ↦ absurd (not_In-nil (nothing e))
  | inr (p, e) ↦ rw (e, has_profile) refl
]
  where
    nothing : find_profile services name ≡ none → In t []
    nothing e = let h : own_targets services name ≡ [] = ground arith in rw h at i

visit_profiles-Reaches :
    (services : Topology) (service t : String)
    → In t (visit_profiles services service)
    → (x : String) × Reaches (dependencies services) service x × In t (own_targets services x)
unfolding visit_profiles
visit_profiles-Reaches services service t i =
    let (x, r, entered, j) =
      collected-Reaches (dependencies services) (unknown services) (own_targets services) (λ _. [])
        (suc (length services)) service t i in
    (x, r, rw append-nil at j)

Reaches-visit_profiles :
    (services : Topology) (service x t : String)
    → Reaches (dependencies services) service x
    → In t (own_targets services x)
    → In t (visit_profiles services service)
unfolding visit_profiles
Reaches-visit_profiles services service x t r i =
    Reaches-collected (dependencies services) (unknown services) (own_targets services) (λ _. [])
      (service_names services) leaf (dependencies_unknown services) (suc (length services)) service
      (omega (arith, unseen-nil (service_names services), length-service_names services)) r
      (ground (arith, own_targets-known services x t i)) t (In-left [] i)
  where
    leaf :
        (y : String)
        → In y (service_names services)
          ⊎ (unknown services y ≡ true)
          ⊎ (dependencies services y ≡ [])
    leaf y = elim (Bool-cases (has_profile services y)) [
      | inl known ↦ inl (find_profile-In services y known)
      | inr new ↦ inr (inl (rw new refl))
    ]

-- The targets of a service are exactly the containers and units of the profiles that it reaches
-- along `depends_on`, in any number of steps; a service with no profile has none.
pub profile_targets-Reaches :
    (services : Topology) (service t : String)
    → In t (profile_targets services service) ↔ (
        (has_profile services service ≡ true)
        × ((x : String) × Reaches (dependencies services) service x
            × In t (own_targets services x)))
unfolding profile_targets
profile_targets-Reaches services service t = (
  λ i. elim (Bool-cases (has_profile services service)) [
    | inl known ↦ (known, visit_profiles-Reaches services service t (rw known at i))
    | inr new ↦ absurd (not_In-nil (rw new at i))
  ],
  λ (known, found). rw known (Reaches-visit_profiles services service found.0 t found.1 found.2),
)
