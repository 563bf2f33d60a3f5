-- ===== src/Autonomy/Evidence.antt =====
-- The observations that `authorize` of backend/app/autonomy.py admits as evidence, and how it reads
-- the state that they show.
use home_ai_agent.Base.{
  ℕ, ◌+◌, Bool, true, false, not, ◌&&◌, none, some, List, [], ◌∷◌, String, ◌==◌, contains,
  string_eq, nat_eq, if◌then◌else◌, leb, select, last, length, is_empty, ends_with, Result, ok, err,
  value_error, attribute_error, guard, ◌>>=◌, ◌>>◌,
}
use home_ai_agent.Json.{
  Value, str, arr, obj, Fields, end, field, get, get_or, fields_eq, is_true, is_str,
}
use home_ai_agent.Model.{Observation}

-- `'container' if tool.endswith('_container') else 'service'`, and the tool that reads its state
unfoldable pub target_key : String → String
unfolding ends_with
target_key tool = if ends_with tool "_container" then "container" else "service"

unfoldable pub state_tool : String → String
unfolding target_key string_eq
state_tool tool = if target_key tool == "container" then "docker_inspect" else "service_status"

-- `target in texts` for a target of any type
unfoldable pub names : List String → Value → Bool
names texts (str s) = contains texts s
names texts _ = false

abbrev pub hashable : Value → Bool
hashable (arr _) = false
hashable (obj _) = false
hashable _ = true

-- `len(set(ids))`
unfoldable pub distinct : List String → List String
unfolding string_eq
distinct [] = []
distinct (x ∷ xs) = let rest = distinct xs in if contains xs x then rest else x ∷ rest

-- the observations that the caller cites, all of which must exist, and of those the fresh ones
abbrev pub max_age : ℕ
max_age = 900

unfoldable pub cited : List String → List Observation → List Observation
cited ids observations = select (λ o. contains ids o.id) observations

unfoldable pub is_fresh : ℕ → Observation → Bool
is_fresh now o = leb now (o.created_at + max_age)

unfoldable pub authorize_evidence : ℕ → List Observation → List String → Result (List Observation)
authorize_evidence now observations ids = do
  let evidence = cited ids observations
  guard (not (is_empty evidence) && length evidence == length (distinct ids))
      (value_error "Current incident evidence IDs are required")
  let fresh = select (is_fresh now) evidence
  guard (not (is_empty fresh))
      (value_error "Fresh observations are required before autonomous write")
  ok fresh

-- `o.tool_name == tool and o.tool_arguments == {key: target} and o.raw_result.get('ok') is True`
unfoldable pub observes : String → String → Value → Observation → Bool
observes tool key target o =
    (o.tool_name == tool && fields_eq o.tool_arguments (field key target end))
    && is_true (get "ok" o.raw_result)

unfoldable pub last_state : String → Value → List Observation → Result Fields
last_state tool target evidence =
    elim (last (select (observes (state_tool tool) (target_key tool) target) evidence)) [
      | none ↦
          err (value_error "A successful exact-target state observation is required before a write")
      | some o ↦ ok o.normalized_result
    ]

-- `state.get('state', {}).get(key)`: a state that is no dict has no `get`
unfoldable pub detail : String → Fields → Result Value
detail key state = elim (get_or "state" (obj end) state) [
  | obj fs ↦ ok (get key fs)
  | _ ↦ err (attribute_error "object has no attribute 'get'")
]

-- `any(...)` over a test that may raise, which stops at the first hit
unfoldable pub any_or_raise {ℓ} : {A : Type ℓ} → (A → Result Bool) → List A → Result Bool
any_or_raise p [] = ok false
any_or_raise p (x ∷ xs) =
    let rest = any_or_raise p xs in p x >>= λ hit. if hit then ok true else rest

-- `a and b` where the second test may raise
abbrev pub and_then : Bool → Result Bool → Result Bool
and_then true r = r
and_then false r = ok false

-- `state.get('health') == 'unhealthy' or state.get('state', {}).get('restarting') is True`
unfoldable pub is_unhealthy : Fields → Result Bool
is_unhealthy state =
    if is_str "unhealthy" (get "health" state)
    then ok true
    else detail "restarting" state >>= λ v. ok (is_true v)
