-- ===== src/Tests/Policies.antt =====
-- Redaction, severities, confidence and routing at concrete values.
use home_ai_agent.Base.{
  ◌↔◌, ◌*◌, ◌+◌, ℕ, ◌≤◌, ◌≡◌, refl, ◌==◌, Bool, true, false, ltb, some, none, [], ◌∷◌, String,
  string_eq, In, arith,
}
use home_ai_agent.Json.{Value, str, arr, obj, nil, cons, end, field, value_eq}
use home_ai_agent.Json.Number.{pos}
use home_ai_agent.Tests.Autonomous.{inspected as observed}
use home_ai_agent.Safety.{less, disk_severity, redact, redact_items, redact_fields, redact_text}
use home_ai_agent.Safety.Severities.{rank, disk_severity_iff}
use home_ai_agent.Safety.Redaction.{hides, hides-redact}
use home_ai_agent.Safety.Confidence.{
  ceiling, evidence_confidence, ceiling_mono, evidence_confidence-bounds,
}
use home_ai_agent.Gateway.{Registry, ToolEntry}
use home_ai_agent.Routing.{
  IncidentSpec, container, routes, initial_diagnostic, first_usable, constrained_arguments,
  constrained_values, constrained_value, names_target, is_target, item_in,
}
use home_ai_agent.Routing.Granted.{IsUsable, initial_diagnostic-IsUsable}

abbrev is_secret : String → Bool
unfolding string_eq
is_secret k = k == "token"

abbrev keep : String → String
keep s = s

abbrev leaking : Value
leaking = obj (field "env" (arr (cons (obj (field "token" (str "abc") end)) nil)) end)

redacted :
    redact is_secret keep 100 leaking
    ≡ obj (field "env" (arr (cons (obj (field "token" (str "[REDACTED]") end)) nil)) end)
unfolding redact redact_items redact_fields redact_text string_eq
redacted = refl

hides-redact_example : hides is_secret (redact is_secret keep 100 leaking) ≡ true
hides-redact_example = hides-redact is_secret keep 100 leaking

disk_severity_iff_example :
    ((1 ≤ rank (disk_severity (pos 95000) (pos 80000) (pos 90000) (pos 95000)))
      ↔ (less (pos 95000) (pos 80000) ≡ false))
    × ((2 ≤ rank (disk_severity (pos 95000) (pos 80000) (pos 90000) (pos 95000)))
        ↔ (less (pos 95000) (pos 90000) ≡ false))
    × ((3 ≤ rank (disk_severity (pos 95000) (pos 80000) (pos 90000) (pos 95000)))
        ↔ (less (pos 95000) (pos 95000) ≡ true))
disk_severity_iff_example =
    disk_severity_iff (pos 80000) (pos 90000) (pos 95000) (pos 95000) refl refl

ceiling_mono_example :
    (ceiling 1 true 2 true ≤ ceiling 3 true 0 false)
    × (150 ≤ ceiling 1 true 2 true)
    × (ceiling 3 true 0 false ≤ 950)
ceiling_mono_example = ceiling_mono 1 3 true 0 2 false true (omega arith) (omega arith) (λ h. refl)

evidence_confidence-bounds_example :
    (1000 * evidence_confidence (λ fs. false) (observed ∷ []) 123600 [] ≤ 123600 + 500)
    × (evidence_confidence (λ fs. false) (observed ∷ []) 123600 [] ≤ 950)
    × (123600 ≤ 150000
        → 123600 ≤ 1000 * evidence_confidence (λ fs. false) (observed ∷ []) 123600 [] + 500)
    × ((k : ℕ)
        → 123600 ≡ 1000 * k
        → evidence_confidence (λ fs. false) (observed ∷ []) 123600 [] ≤ k)
evidence_confidence-bounds_example =
    evidence_confidence-bounds (λ fs. false) (observed ∷ []) 123600 []

abbrev inspect_entry : ToolEntry
inspect_entry = record {
  risk_level = some "READ_ONLY";
  parameters =
      field "properties"
        (obj (field "container" (obj (field "enum" (arr (cons (str "sandbox") nil)) end)) end))
        (field "required" (arr (cons (str "container") nil)) end);
  autonomous_targets = none;
}

abbrev registry : Registry
registry = ("docker_inspect", inspect_entry) ∷ []

abbrev stopped_container : IncidentSpec
stopped_container = record { category = container; target = "sandbox"; confidence = 900 }

inspected :
    initial_diagnostic stopped_container registry
    ≡ some ("docker_inspect", field "container" (str "sandbox") end)
unfolding initial_diagnostic first_usable constrained_arguments constrained_values constrained_value
    names_target is_target item_in string_eq value_eq
inspected = refl

initial_diagnostic-IsUsable_example :
    In "docker_inspect" (routes container)
    × IsUsable registry "sandbox" "docker_inspect" (field "container" (str "sandbox") end)
    × (ltb 900 500 ≡ false)
initial_diagnostic-IsUsable_example =
    initial_diagnostic-IsUsable stopped_container registry "docker_inspect"
      (field "container" (str "sandbox") end) inspected
