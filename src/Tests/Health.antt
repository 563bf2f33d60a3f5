-- ===== src/Tests/Health.antt =====
-- An application of two components, one of which fails its check.
use home_ai_agent.Base.{◌≡◌, refl, ◌↔◌, true, List, [], ◌∷◌, String, string_eq, In}
use home_ai_agent.Health.{
  unhealthy, is_unhealthy, CheckStatus, own_of, component_status, application_status,
  component_names,
}
use home_ai_agent.Health.Statuses.{application_status_iff}
use home_ai_agent.Topology.Visit.{visit}
use home_ai_agent.Tests.Autonomous.{services}

abbrev stopped : CheckStatus
stopped = record { component = "sandbox"; status = unhealthy }

abbrev names : List String
names = "codeduel" ∷ "sandbox" ∷ []

walked : component_names services "codeduel" ≡ names
unfolding component_names visit string_eq
walked = refl

fails : application_status names (stopped ∷ []) ≡ unhealthy
unfolding application_status component_status own_of string_eq
fails = refl

application_status_iff_example : (is_unhealthy (application_status names (stopped ∷ [])) ≡ true) ↔ (
    (c : CheckStatus) × In c (stopped ∷ []) × In c.component names × (is_unhealthy c.status ≡ true))
application_status_iff_example = application_status_iff names (stopped ∷ [])
