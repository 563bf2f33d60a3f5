-- ===== src/Autonomy/Shown.antt =====
-- What the cited evidence has to show besides the state of the target, before `authorize` of
-- backend/app/autonomy.py lets a write through.
use home_ai_agent.Base.{
  ◌≡◌, ◌⊎◌, inl, inr, refl, Bool, true, false, some, List, [], ◌∷◌, String, In, head, tail, last,
  select, ok, Result, arith, string_eq, Bool-cases, Option-cases, Result-cases, ◌∙◌, any-In,
}
use home_ai_agent.Json.{
  Value, null, bool, str, obj, arr, nil, Items, Fields, get, get_or, lookup, is_true, is_str,
  is_true-eq, is_str-eq, int, float,
}
use home_ai_agent.Model.{Observation}
use home_ai_agent.Autonomy.Evidence.{observes, detail, any_or_raise, target_key}
use home_ai_agent.Autonomy.Rules.{
  redis_healthy, needs_redis, check_redis, is_log_of, blames_dependency, check_logs, public_fails,
  origin_works, check_tunnel, container_rules, service_rules,
}
use home_ai_agent.Autonomy.{target_rules}
use home_ai_agent.Autonomy.Admitted.{
  IsRecovery, start_container, restart_container, start_service, restart_service, detail-ok,
}

any_or_raise-In :
    {A : Type 0} (p : A → Result Bool) (xs : List A)
    → any_or_raise p xs ≡ ok true
    → (x : A) × In x xs × (p x ≡ ok true)
unfolding any_or_raise
any_or_raise-In p [] h = absurd (ground arith)
any_or_raise-In p (x ∷ xs) h = elim (Result-cases (p x)) [
  | inl (e, raised) ↦ absurd (ground arith)
  | inr (true, hit) ↦ (x, head refl, hit)
  | inr (false, missed) ↦ let (y, i, hit) = any_or_raise-In p xs (ground arith) in (y, tail i, hit)
]

-- a successful inspection that finds Redis running and healthy
abbrev pub IsRedisHealthy : Observation → Type 0
IsRedisHealthy o =
    (observes "docker_inspect" "container" (str "codeduel-redis-1") o ≡ true)
    × ((details : Fields) × (lookup "state" o.normalized_result ≡ some (obj details))
        × (get "running" details ≡ bool true))
    × (get "health" o.normalized_result ≡ str "healthy")

redis_healthy_steps :
    (o : Observation)
    → redis_healthy o ≡ ok true
    → (observes "docker_inspect" "container" (str "codeduel-redis-1") o ≡ true)
      × ((v : Value) × (detail "running" o.normalized_result ≡ ok v)
          × (is_true v ≡ true)
          × (is_str "healthy" (get "health" o.normalized_result) ≡ true))
unfolding redis_healthy
redis_healthy_steps o h =
    elim (Bool-cases (observes "docker_inspect" "container" (str "codeduel-redis-1") o)) [
      | inr n ↦ absurd (ground arith)
      | inl y ↦ elim (Result-cases (detail "running" o.normalized_result)) [
        | inl (x, p) ↦ absurd (ground arith)
        | inr (v, p) ↦ (y, (v, p, ground arith, ground arith))
      ]
    ]

redis_healthy-IsRedisHealthy : (o : Observation) → redis_healthy o ≡ ok true → IsRedisHealthy o
redis_healthy-IsRedisHealthy o h =
    let (seen, (v, d, t, w)) = redis_healthy_steps o h in
    let (details, e, g) = detail-ok "running" o.normalized_result d (λ p. cc (is_true-eq v t, p)) in
    (seen, (details, e, g ∙ is_true-eq v t), is_str-eq _ _ w)

module _ (str_of : Value → String) (target : Value) (evidence : List Observation) where
  -- the API and the worker need a healthy Redis
  abbrev Redis : Type 0
  Redis =
      (target ≡ str "codeduel-api-1") ⊎ (target ≡ str "codeduel-worker-1")
      → (o : Observation) × In o evidence × IsRedisHealthy o

  -- the last log of the target that was read blames no dependency
  abbrev Logs : Type 0
  Logs =
      (o : Observation) × (lines : Items) × (last (select (is_log_of str_of target) evidence)
        ≡ some o)
      × (get_or "lines" (arr nil) o.normalized_result ≡ arr lines)
      × (blames_dependency str_of lines ≡ false)

  -- the public endpoint was unreachable, and the local origin answered
  abbrev Tunnel : Type 0
  Tunnel =
      ((o : Observation) × In o evidence × (public_fails o ≡ ok true))
      × ((o : Observation) × In o evidence × (origin_works o ≡ true))

  pub data Shows : String → Type 0 where
    for_start : Redis → Shows "start_container"
    for_restart : Redis → Logs → Shows "restart_container"
    for_service : Shows "start_service"
    for_tunnel : Tunnel → Shows "restart_service"

  check_redis-Redis : check_redis target evidence ≡ ok tt → Redis
  unfolding check_redis needs_redis string_eq
  check_redis-Redis h who =
      let needed : needs_redis target ≡ true = elim who [ inl e ↦ rw e refl | inr e ↦ rw e refl ] in
      let (o, i, healthy) = any_or_raise-In redis_healthy evidence (ground arith) in
      (o, i, redis_healthy-IsRedisHealthy o healthy)

  check_logs-Logs : check_logs str_of target evidence ≡ ok tt → Logs
  unfolding check_logs
  check_logs-Logs h = elim (Option-cases (last (select (is_log_of str_of target) evidence))) [
    | inl n ↦ absurd (ground arith)
    | inr (o, p) ↦ of_lines o p (get_or "lines" (arr nil) o.normalized_result) refl
  ]
    where
      of_lines :
          (o : Observation)
          → last (select (is_log_of str_of target) evidence) ≡ some o
          → (v : Value) → get_or "lines" (arr nil) o.normalized_result ≡ v
          → Logs
      of_lines o p (arr lines) e = (o, lines, p, e, ground arith)
      of_lines o p null e = absurd (ground arith)
      of_lines o p (bool b) e = absurd (ground arith)
      of_lines o p (int z) e = absurd (ground arith)
      of_lines o p (float z) e = absurd (ground arith)
      of_lines o p (str t) e = absurd (ground arith)
      of_lines o p (obj fs) e = absurd (ground arith)

  check_tunnel-Tunnel : check_tunnel evidence ≡ ok tt → Tunnel
  unfolding check_tunnel
  check_tunnel-Tunnel h =
      let (o, i, fails) = any_or_raise-In public_fails evidence (ground arith) in
      let (p, j, works) = any-In origin_works evidence (ground arith) in
      ((o, i, fails), (p, j, works))

  container_steps :
      (tool : String) (state : Fields)
      → container_rules str_of tool target evidence state ≡ ok tt
      → (check_redis target evidence ≡ ok tt)
        × (tool ≡ "restart_container" → check_logs str_of target evidence ≡ ok tt)
  unfolding container_rules string_eq
  container_steps tool state h = (
    ground arith,
    λ e.
        let z : container_rules str_of "restart_container" target evidence state ≡ ok tt =
          rw e at h in
        ground arith,
  )

  service_steps :
      (state : Fields)
      → service_rules "restart_service" target evidence state ≡ ok tt
      → check_tunnel evidence ≡ ok tt
  unfolding service_rules string_eq
  service_steps state h = ground arith

  pub target_rules-Shows :
      {tool : String} (state : Fields)
      → IsRecovery tool
      → target_rules str_of tool target evidence state ≡ ok tt
      → Shows tool
  unfolding target_rules target_key string_eq
  target_rules-Shows state start_container h =
      for_start (check_redis-Redis (container_steps "start_container" state h).0)
  target_rules-Shows state restart_container h =
      let (redis, logs) = container_steps "restart_container" state h in
      for_restart (check_redis-Redis redis) (check_logs-Logs (logs refl))
  target_rules-Shows state start_service h = for_service
  target_rules-Shows state restart_service h =
      for_tunnel (check_tunnel-Tunnel (service_steps state h))
