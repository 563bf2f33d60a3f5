-- ===== src/Autonomy/Rules.antt =====
-- The rules of `authorize` (backend/app/autonomy.py) for each kind of target: which observed state
-- admits which write. `str_of` is Python's `str` on a value that is no text. Lower-casing is
-- modelled for ASCII, and the log lines are a list, as the host gateway returns them.
use home_ai_agent.Base.{
  codes, lower, is_infix, ℕ, zero, suc, ◌-◌, ℕ, zero, suc, ◌-◌, Bool, not, ◌&&◌, ◌||◌, none, some,
  List, [], ◌∷◌, ◌++◌, String, ◌==◌, string_eq, if◌then◌else◌, select, any, last, length,
  starts_with, Result, ok, err, value_error, type_error, attribute_error, guard, ◌>>=◌, ◌>>◌,
}
use home_ai_agent.Json.{
  Value, str, arr, Items, nil, cons, Fields, get, get_or, value_eq, is_true, is_false, is_str, int,
}
use home_ai_agent.Json.Number.{pos}
use home_ai_agent.Model.{Observation}
use home_ai_agent.Autonomy.Evidence.{observes, detail, any_or_raise, and_then, is_unhealthy}

unfoldable pub redis_healthy : Observation → Result Bool
redis_healthy o = and_then (observes "docker_inspect" "container" (str "codeduel-redis-1") o) do
  running ← detail "running" o.normalized_result
  ok (is_true running && is_str "healthy" (get "health" o.normalized_result))

unfoldable pub needs_redis : Value → Bool
needs_redis target = is_str "codeduel-api-1" target || is_str "codeduel-worker-1" target

unfoldable pub check_redis : Value → List Observation → Result (Unit {0})
unfolding needs_redis
check_redis target evidence =
    if needs_redis target
    then (any_or_raise redis_healthy evidence >>= λ ready.
        guard ready (value_error "Inspect and restore healthy Redis before the API or worker"))
    else ok tt

drop : ℕ → List ℕ → List ℕ
drop zero xs = xs
drop (suc n) [] = []
drop (suc n) (x ∷ xs) = drop n xs

-- `text[-5000:]`
excerpt : List ℕ → List ℕ
unfolding drop
excerpt text = drop (length text - 5000) text

abbrev markers : List String
markers = "mongoserverselectionerror" ∷ "mongodb atlas" ∷ "redis connection refused" ∷ []

module _ (str_of : Value → String) where
  text_of : Value → String
  text_of (str s) = s
  text_of v = str_of v

  -- `'\n'.join(str(line) for line in lines)`
  join_lines : Items → List ℕ
  join_lines nil = []
  join_lines (cons v nil) = codes (text_of v)
  join_lines (cons v (cons w rest)) = codes (text_of v) ++ (10 ∷ join_lines (cons w rest))

  unfoldable pub blames_dependency : Items → Bool
  unfolding join_lines text_of lower excerpt is_infix codes
  blames_dependency lines =
      any (λ m. is_infix (codes m) (lower (excerpt (join_lines lines)))) markers

  unfoldable pub is_log_of : Value → Observation → Bool
  is_log_of target o =
      (o.tool_name == "docker_logs" && value_eq (get "container" o.tool_arguments) target)
      && is_true (get "ok" o.raw_result)

  unfoldable pub check_logs : Value → List Observation → Result (Unit {0})
  check_logs target evidence = elim (last (select (is_log_of target) evidence)) [
    | none ↦ err (value_error "Inspect current target logs before autonomous restart")
    | some o ↦ elim (get_or "lines" (arr nil) o.normalized_result) [
      | arr lines ↦
          guard (not (blames_dependency lines))
            (value_error "Dependency failure evidence; restarting this container is not justified")
      | _ ↦ err (type_error "log lines are no list")
    ]
  ]

  unfoldable pub container_rules : String → Value → List Observation → Fields → Result (Unit {0})
  container_rules tool target evidence state = do
    check_redis target evidence
    running ← detail "running" state
    unhealthy ← is_unhealthy state
    guard (not (tool == "start_container") || is_false running)
        (value_error "Start requires evidence that the container is stopped")
    guard (not (tool == "restart_container") || (is_true running && unhealthy))
        (value_error "Restart requires a running but unhealthy/restarting container")
    if tool == "restart_container" then check_logs target evidence else ok tt

-- `o.tool_arguments.get('url', '')` of an HTTP check
url_of : Observation → Value
url_of o = get_or "url" (str "") o.tool_arguments

unfoldable pub public_fails : Observation → Result Bool
unfolding url_of
public_fails o = and_then (o.tool_name == "http_check") (elim (url_of o) [
  | str url ↦
      ok (
        starts_with url "https://codeduel.online" && is_false (get "reachable" o.normalized_result))
  | _ ↦ err (attribute_error "object has no attribute 'startswith'")
])

unfoldable pub origin_works : Observation → Bool
origin_works o =
    o.tool_name == "http_check"
    && ((is_str "http://127.0.0.1:8085" (get "url" o.tool_arguments)
          || is_str "http://127.0.0.1:8085/" (get "url" o.tool_arguments))
        && (is_true (get "reachable" o.normalized_result)
            && value_eq (get "status_code" o.normalized_result) (int (pos 200))))

-- both tests are made, whatever the first one says
unfoldable pub check_tunnel : List Observation → Result (Unit {0})
check_tunnel evidence = do
  public_bad ← any_or_raise public_fails evidence
  guard (public_bad && any origin_works evidence)
      (value_error "Tunnel restart requires failed public and healthy local origin evidence")

unfoldable pub service_rules : String → Value → List Observation → Fields → Result (Unit {0})
service_rules tool target evidence state = do
  guard
      (not (tool == "start_service")
        || (is_str "inactive" (get "state" state) || is_str "failed" (get "state" state)))
      (value_error "Start requires an inactive or failed unit")
  guard
      (not (tool == "restart_service")
        || (is_str "cloudflared" target && is_str "active" (get "state" state)))
      (value_error "Active service restart is not authorized for this target/state")
  if tool == "restart_service" then check_tunnel evidence else ok tt
