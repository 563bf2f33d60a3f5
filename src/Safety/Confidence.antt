-- ===== src/Safety/Confidence.antt =====
-- `evidence_confidence` of backend/app/safety.py in thousandths: a ceiling on the confidence of the model,
-- from the families of diagnostics that answered. The log pattern is a parameter.
use Prim.Native.Nat.{◌/◌, ◌%◌}
use home_ai_agent.Base.{
  ℕ, ◌+◌, ◌-◌, ◌*◌, ◌≤◌, ◌≡◌, refl, min, max, Bool, true, false, ◌&&◌, List, [], ◌∷◌, String, ◌==◌,
  string_eq, nat_eq, contains, any, select, map, length, ltb, if◌then◌else◌, arith,
}
use home_ai_agent.Json.{Fields, get, is_true}
use home_ai_agent.Model.{Observation}
use home_ai_agent.Autonomy.Evidence.{distinct}

-- `groups.get(item.tool_name, item.tool_name)`
unfoldable pub family : String → String
unfolding string_eq
family tool =
    if contains ("docker_list" ∷ "docker_inspect" ∷ []) tool
    then "container_state"
    else if contains ("docker_logs" ∷ "journal_logs" ∷ []) tool
    then "logs"
    else if contains ("service_status" ∷ "cloudflared_status" ∷ []) tool
    then "service_state"
    else if tool == "http_check"
    then "http"
    else if tool == "port_check"
    then "tcp"
    else if tool == "ping_host"
    then "network_probe"
    else if tool == "network_interfaces"
    then "interfaces"
    else if tool == "route_table"
    then "routes"
    else tool

unfoldable pub successful : List Observation → List Observation
successful = select (λ o. is_true (get "ok" o.raw_result))

unfoldable pub families : List Observation → List String
unfolding distinct
families observations = distinct (map (λ o. family o.tool_name) observations)

-- from the number of families that answered
unfoldable pub base : ℕ → ℕ
base families = if ltb 0 families then min 850 (250 + 150 * families) else 150

unfoldable pub with_log : Bool → ℕ → ℕ
with_log direct ceiling = if direct then min 950 (ceiling + 100) else ceiling

unfoldable pub with_conflicts : ℕ → ℕ → ℕ
with_conflicts conflicts ceiling =
    if ltb 0 conflicts then max 150 (ceiling - min 400 (200 * conflicts)) else ceiling

unfoldable pub with_failed : Bool → ℕ → ℕ
with_failed partial ceiling = if partial then max 150 (ceiling - 100) else ceiling

-- from the families, a failure in a log, the conflicts, and whether an observation failed
abbrev pub ceiling : ℕ → Bool → ℕ → Bool → ℕ
ceiling families direct conflicts partial =
    with_failed partial (with_conflicts conflicts (with_log direct (base families)))

-- `round(x, 3)`, from millionths to thousandths; a tie goes to the even neighbour
unfoldable pub rounded : ℕ → ℕ
unfolding nat_eq
rounded n =
    let below = n / 1000 in
    let rest = n % 1000 in
    if ltb rest 500
    then below
    else if ltb 500 rest
    then below + 1
    else if below % 2 == 0
    then below
    else below + 1

module _ (failure_log : Fields → Bool) where
  unfoldable pub direct_failure : List Observation → Bool
  unfolding string_eq
  direct_failure = any (λ o.
      contains ("docker_logs" ∷ "journal_logs" ∷ []) o.tool_name && failure_log o.normalized_result)

  unfoldable pub evidence_ceiling : List Observation → List String → ℕ
  unfolding distinct
  evidence_ceiling observations contradictions =
      let good = successful observations in
      ceiling (length (families good)) (direct_failure good) (length (distinct contradictions))
        (ltb (length good) (length observations))

  -- the proposal is in millionths
  unfoldable pub evidence_confidence : List Observation → ℕ → List String → ℕ
  unfolding rounded
  evidence_confidence observations proposed contradictions =
      rounded (min proposed (1000 * evidence_ceiling observations contradictions))

base_mono : {f g : ℕ} → f ≤ g → (base f ≤ base g) × (150 ≤ base f) × (base g ≤ 850)
unfolding base
base_mono h = (ground arith, ground arith, ground arith)

with_log_mono :
    (direct : Bool) {x y : ℕ}
    → x ≤ y
    → 150 ≤ x
    → y ≤ 850
    → (with_log direct x ≤ with_log direct y)
      × (150 ≤ with_log direct x)
      × (with_log direct y ≤ 950)
unfolding with_log
with_log_mono direct h k l = (ground arith, ground arith, ground arith)

with_conflicts_mono :
    {c d x y : ℕ}
    → c ≤ d
    → x ≤ y
    → 150 ≤ x
    → y ≤ 950
    → (with_conflicts d x ≤ with_conflicts c y)
      × (150 ≤ with_conflicts d x)
      × (with_conflicts c y ≤ 950)
unfolding with_conflicts
with_conflicts_mono h i k l = (ground arith, ground arith, ground arith)

-- `true` is at least `false`
abbrev Implies : Bool → Bool → Type 0
Implies p q = p ≡ true → q ≡ true

with_failed_mono :
    (p q : Bool) {x y : ℕ}
    → Implies p q
    → x ≤ y
    → 150 ≤ x
    → y ≤ 950
    → (with_failed q x ≤ with_failed p y) × (150 ≤ with_failed q x) × (with_failed p y ≤ 950)
unfolding with_failed
with_failed_mono true true j h k l = (ground arith, ground arith, ground arith)
with_failed_mono true false j h k l = let z = j refl in (ground arith, ground arith, ground arith)
with_failed_mono false q j h k l = (ground arith, ground arith, ground arith)

-- The ceiling lies between 0.15 and 0.95. More families of evidence do not lower it; more contradictions
-- or a failed observation do not raise it.
pub ceiling_mono :
    (f g : ℕ) (direct : Bool) (c d : ℕ) (p q : Bool)
    → f ≤ g
    → c ≤ d
    → (p ≡ true → q ≡ true)
    → (ceiling f direct d q ≤ ceiling g direct c p)
      × (150 ≤ ceiling f direct d q)
      × (ceiling g direct c p ≤ 950)
ceiling_mono f g direct c d p q h k j =
    let (a1, a2, a3) = base_mono h in
    let (b1, b2, b3) = with_log_mono direct a1 a2 a3 in
    let (c1, c2, c3) = with_conflicts_mono k b1 b2 b3 in with_failed_mono p q j c1 c2 c3

rounded-near : (n : ℕ) → (1000 * rounded n ≤ n + 500) × (n ≤ 1000 * rounded n + 500)
unfolding rounded
rounded-near n = (ground arith, ground arith)

rounded-thousandths : (k : ℕ) → rounded (1000 * k) ≡ k
rounded-thousandths k = let (a, b) = rounded-near (1000 * k) in omega (arith, a, b)

-- The confidence is at most 0.95 and lies at most half a thousandth above what the model proposed. A proposal of
-- at most 0.15 is kept up to half a thousandth, and one in whole thousandths is never raised.
pub evidence_confidence-bounds :
    (failure_log : Fields → Bool) (observations : List Observation) (proposed : ℕ)
    (contradictions : List String)
    → (1000 * evidence_confidence failure_log observations proposed contradictions ≤ proposed + 500)
      × (evidence_confidence failure_log observations proposed contradictions ≤ 950)
      × (proposed ≤ 150000
          → proposed
            ≤ 1000 * evidence_confidence failure_log observations proposed contradictions + 500)
      × ((k : ℕ)
          → proposed ≡ 1000 * k
          → evidence_confidence failure_log observations proposed contradictions ≤ k)
unfolding evidence_confidence evidence_ceiling
evidence_confidence-bounds failure_log observations proposed contradictions =
    let good = successful observations in
    let n = length (families good) in
    let c = length (distinct contradictions) in
    let direct = direct_failure failure_log good in
    let part = ltb (length good) (length observations) in
    let (_, low, top) =
      ceiling_mono n n direct c c part part (omega arith) (omega arith) (λ y. y) in
    let (above, below) = rounded-near (min proposed (1000 * ceiling n direct c part)) in
    (
      omega (arith, above),
      omega (arith, above, low, top),
      λ h. omega (arith, below, low, h),
      λ k h. omega (arith, above, h),
    )
