-- ===== src/Topology.antt =====
-- Service profiles of backend/app/topology.py, as `load_topology` returns them: a key that the
-- profile leaves out reads as its default.
pub mod Visit
pub mod Reach
use home_ai_agent.Base.{
  List, [], ◌∷◌, String, Option, none, some, ◌==◌, if◌then◌else◌, string_eq, map, Bool, true, false,
}
use home_ai_agent.Json.{Fields}

pub record CheckSpec : Type 0 where
  pub tool : String
  pub arguments : Fields
  pub expect : Fields

pub record ServiceProfile : Type 0 where
  pub containers : List String
  pub systemd_services : List String
  pub depends_on : List String
  pub health_checks : List CheckSpec

-- `topology['services']`, whose keys are distinct
abbrev pub Topology : Type 0
Topology = List (String × ServiceProfile)

abbrev pub find_profile : Topology → String → Option ServiceProfile
find_profile [] name = none
find_profile ((k, p) ∷ rest) name = if name == k then some p else find_profile rest name

abbrev pub empty_profile : ServiceProfile
empty_profile = record {
  containers = [];
  systemd_services = [];
  depends_on = [];
  health_checks = [];
}

-- `services.get(name, {})`
abbrev pub profile : Topology → String → ServiceProfile
profile services name = elim (find_profile services name) [ none ↦ empty_profile | some p ↦ p ]

-- `name in services`
abbrev pub has_profile : Topology → String → Bool
has_profile services name = elim (find_profile services name) [ none ↦ false | some _ ↦ true ]

abbrev pub service_names : Topology → List String
service_names = map (λ (k, _). k)
