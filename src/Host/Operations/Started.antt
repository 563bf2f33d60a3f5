-- ===== src/Host/Operations/Started.antt =====
-- Which host commands the writes of diagnostic_gateway/tools.py start.
use mathlib.Core.List.{append_assoc, append-nil}
use home_ai_agent.Base.{
  ◌≡◌, refl, sym, ap, ◌∙◌, Bool, true, false, Option, none, some, List, [], ◌∷◌, ◌++◌, String,
  string_eq, contains, arith, ◌⊎◌, inl, inr, Bool-cases, if◌then◌else◌,
}
use home_ai_agent.Json.{Value}
use home_ai_agent.Autonomy.Evidence.{names}
use home_ai_agent.Host.Server.{Failure, tool_error}
use home_ai_agent.Host.Config.{GatewayConfig}
use home_ai_agent.Host.Scope.{require}
use home_ai_agent.Host.Exec.{
  H, Log, Machine, CommandResult, Tried, gave, refused, ◌>>=◌, pure, raise, lift, check,
  run_command, start, conclude,
}
use home_ai_agent.Host.Operations.{
  inspect_command, show_command, docker_inspect, read_inspection, service_status, write_container,
  write_service, restart_container, start_container, stop_container, restart_service, start_service,
  stop_service,
}

-- `m` starts these commands in this order; if it fails, the first of them
pub record Starts {A : Type 0} (commands : Log) (m : H A) : Type 0 where
  pub at :
      (l : Log)
      → ((a : A) × (m l ≡ (gave a, l ++ commands)))
        ⊎ ((x : Failure) × (k : Log) × (rest : Log) × (m l ≡ (refused x, l ++ k))
            × (k ++ rest ≡ commands))

Starts-tried : {A : Type 0} (t : Tried A) → Starts [] (lift t)
Starts-tried (gave a) = record { at = λ l. inl (a, ap (λ k. (gave a, k)) (sym (append-nil l))) }
Starts-tried (refused x) = record {
  at = λ l. inr (x, [], [], ap (λ k. (refused x, k)) (sym (append-nil l)), refl);
}

Starts-check : (o : Option Failure) → Starts [] (check o)
Starts-check none = record { at = (Starts-tried (gave tt)).at }
Starts-check (some x) = record { at = (Starts-tried (refused x)).at }

module _ {A B : Type 0} where
  Starts-bind :
      {m : H A} {f : A → H B} {cs ds : Log}
      → Starts cs m
      → ((a : A) → Starts ds (f a))
      → Starts (cs ++ ds) (m >>= f)
  Starts-bind {m} {f} {cs} {ds} km kf = record { at = go }
    where
      continue : Tried A × Log → Tried B × Log
      continue x = elim x.0 [ gave a ↦ f a x.1 | refused y ↦ (refused y, x.1) ]

      go :
          (l : Log)
          → ((b : B) × ((m >>= f) l ≡ (gave b, l ++ (cs ++ ds))))
            ⊎ ((x : Failure) × (k : Log) × (rest : Log) × ((m >>= f) l ≡ (refused x, l ++ k))
                × (k ++ rest ≡ cs ++ ds))
      go l = elim (km.at l) [
        | inr (x, k, rest, y, same) ↦
            inr (
              x,
              k,
              rest ++ ds,
              ap continue y,
              sym (append_assoc k rest ds) ∙ ap (λ z. z ++ ds) same,
            )
        | inl (a, y) ↦ elim ((kf a).at (l ++ cs)) [
          | inl (b, z) ↦ inl (b, ap continue y ∙ z ∙ ap (λ w. (gave b, w)) (append_assoc l cs ds))
          | inr (x, k, rest, z, same) ↦ inr (
            x,
            cs ++ k,
            rest,
            ap continue y ∙ z ∙ ap (λ w. (refused x, w)) (append_assoc l cs k),
            append_assoc cs k rest ∙ ap (λ w. cs ++ w) same,
          )
        ]
      ]

Starts-if :
    {A : Type 0} (c : Bool) {m n : H A} {cs : Log}
    → Starts cs m
    → Starts cs n
    → Starts cs (if c then m else n)
Starts-if true h k = h
Starts-if false h k = k

-- a command is started, however it ends
Starts-told :
    {A : Type 0} (t : Log → Tried A) (argv : List String)
    → Starts (argv ∷ []) (λ l. (t l, l ++ (argv ∷ [])))
Starts-told {A} t argv = record { at = λ l. ended l (t l) }
  where
    report : Log → Tried A → Tried A × Log
    report l u = (u, l ++ (argv ∷ []))

    ended :
        (l : Log) (u : Tried A)
        → ((a : A) × (report l u ≡ (gave a, l ++ (argv ∷ []))))
          ⊎ ((x : Failure) × (k : Log) × (rest : Log) × (report l u ≡ (refused x, l ++ k))
              × (k ++ rest ≡ argv ∷ []))
    ended l (gave a) = inl (a, refl)
    ended l (refused x) = inr (x, argv ∷ [], [], refl, refl)

Starts-raise : {A : Type 0} (x : Failure) (cs : Log) → Starts cs (raise {A = A} x)
Starts-raise x cs = record {
  at = λ l. inr (x, [], cs, ap (λ k. (refused x, k)) (sym (append-nil l)), refl);
}

Starts-pure : {A : Type 0} (a : A) → Starts [] (pure a)
Starts-pure a = Starts-tried (gave a)

ruleset starts_rules = (Starts-tried, Starts-check, Starts-if, Starts-raise, Starts-pure)

module _ (m : Machine) where
  start-Starts : (b : Bool) (argv : List String) → Starts (argv ∷ []) (start m b argv)
  unfolding start
  start-Starts b argv =
      Starts-told
        (λ l. elim (m.child l argv) [
          | none ↦ refused (tool_error "Host command exceeded its timeout" none)
          | some k ↦ conclude m b k
        ])
        argv

  run_command-Starts : (b : Bool) (argv : List String) → Starts (argv ∷ []) (run_command m b argv)
  unfolding run_command
  run_command-Starts b argv = search (starts_rules, start-Starts)

module _ (m : Machine) (c : GatewayConfig) where
  read_inspection-Starts : (r : CommandResult) → Starts [] (read_inspection m c r)
  unfolding read_inspection
  read_inspection-Starts r = search starts_rules

  docker_inspect-Starts :
      (container : String) → Starts (inspect_command container ∷ []) (docker_inspect m c container)
  unfolding docker_inspect
  docker_inspect-Starts container = Starts-bind (Starts-check _) (λ _.
      Starts-bind (run_command-Starts m true (inspect_command container)) read_inspection-Starts)

  service_status-Starts :
      (service : String) → Starts (show_command service ∷ []) (service_status m c service)
  unfolding service_status
  service_status-Starts service = Starts-bind (Starts-check _) (λ _.
      Starts-bind (run_command-Starts m true (show_command service)) (λ result. Starts-pure _))

  abbrev container_command : List String → String → List String
  container_command words container =
      ("docker" ∷ "container" ∷ []) ++ (words ++ ("--" ∷ container ∷ []))

  abbrev service_command : String → String → List String
  service_command verb service = "systemctl" ∷ "--no-ask-password" ∷ verb ∷ "--" ∷ service ∷ []

  write_container-Starts :
      (tool : String) (words : List String) (container : String)
      → Starts
          (container_command words container ∷ inspect_command container ∷ [])
          (write_container m c tool words container)
  unfolding write_container
  write_container-Starts tool words container = Starts-bind (Starts-check _) (λ _.
      Starts-bind (run_command-Starts m true (container_command words container))
        (λ result. Starts-bind (docker_inspect-Starts container) (λ state. Starts-pure _)))

  write_service-Starts :
      (tool verb service : String)
      → Starts
          (service_command verb service ∷ show_command service ∷ [])
          (write_service m c tool verb service)
  unfolding write_service
  write_service-Starts tool verb service = Starts-bind (Starts-check _) (λ _.
      Starts-bind (run_command-Starts m true (service_command verb service))
        (λ result. Starts-bind (service_status-Starts service) (λ state. Starts-pure _)))

  -- a success has started all the commands; an error has started the first of them, or none
  abbrev pub Ran : {A : Type 0} → List (List String) → Log → Tried A × Log → Type 0
  Ran {A} commands l r =
      ((a : A) × (r ≡ (gave a, l ++ commands)))
      ⊎ ((x : Failure) × (began : Log) × (rest : Log) × (r ≡ (refused x, l ++ began))
          × (began ++ rest ≡ commands))

  -- a write on a target that is not open is refused and starts nothing
  abbrev pub Began : List String → String → Log → Log → Tried Value × Log → Type 0
  Began open_targets target commands l r =
      ((contains open_targets target ≡ false) × ((x : Failure) × (r ≡ (refused x, l))))
      ⊎ ((contains open_targets target ≡ true) × Ran commands l r)

  container_commands :
      (tool : String) (words : List String) (container : String) (l : Log)
      → Began c.write_containers container
          (container_command words container ∷ inspect_command container ∷ [])
          l
          (write_container m c tool words container l)
  unfolding write_container require names
  container_commands tool words container l =
      elim (Bool-cases (contains c.write_containers container)) [
        | inl y ↦ inr (y, (write_container-Starts tool words container).at l)
        | inr n ↦ inl (n, (tool_error "Write container is not allowlisted" none, ground arith))
      ]

  service_commands :
      (tool verb service : String) (l : Log)
      → Began c.write_services service
          (service_command verb service ∷ show_command service ∷ [])
          l
          (write_service m c tool verb service l)
  unfolding write_service require names
  service_commands tool verb service l = elim (Bool-cases (contains c.write_services service)) [
    | inl y ↦ inr (y, (write_service-Starts tool verb service).at l)
    | inr n ↦ inl (n, (tool_error "Write service is not allowlisted" none, ground arith))
  ]

  -- A restart, start or stop of a container that is not open to writes is refused and starts no command. If the
  -- container is open and the write succeeds, it has started exactly two commands: `docker container`
  -- with the verb of the tool on that container, and then the inspection of its state. If it fails,
  -- it has started only the first of these, both or none.
  pub write_container-Began :
      (container : String) (l : Log)
      → Began c.write_containers container
          (("docker" ∷ "container" ∷ "restart" ∷ "--time" ∷ "5" ∷ "--" ∷ container ∷ [])
            ∷ inspect_command container
            ∷ [])
          l
          (restart_container m c container l)
        × Began c.write_containers container
            (("docker" ∷ "container" ∷ "start" ∷ "--" ∷ container ∷ [])
              ∷ inspect_command container
              ∷ [])
            l
            (start_container m c container l)
        × Began c.write_containers container
            (("docker" ∷ "container" ∷ "stop" ∷ "--time" ∷ "5" ∷ "--" ∷ container ∷ [])
              ∷ inspect_command container
              ∷ [])
            l
            (stop_container m c container l)
  unfolding restart_container start_container stop_container
  write_container-Began container l = (
    container_commands "restart_container" ("restart" ∷ "--time" ∷ "5" ∷ []) container l,
    container_commands "start_container" ("start" ∷ []) container l,
    container_commands "stop_container" ("stop" ∷ "--time" ∷ "5" ∷ []) container l,
  )

  -- A restart, start or stop of a service that is not open to writes is refused and starts no command. If the
  -- service is open and the write succeeds, it has started exactly two commands: `systemctl` with the
  -- verb of the tool on that unit, without asking for a password, and then the reading of its state.
  -- If it fails, it has started only the first of these, both or none.
  pub write_service-Began :
      (service : String) (l : Log)
      → Began c.write_services service
          (("systemctl" ∷ "--no-ask-password" ∷ "restart" ∷ "--" ∷ service ∷ [])
            ∷ show_command service
            ∷ [])
          l
          (restart_service m c service l)
        × Began c.write_services service
            (("systemctl" ∷ "--no-ask-password" ∷ "start" ∷ "--" ∷ service ∷ [])
              ∷ show_command service
              ∷ [])
            l
            (start_service m c service l)
        × Began c.write_services service
            (("systemctl" ∷ "--no-ask-password" ∷ "stop" ∷ "--" ∷ service ∷ [])
              ∷ show_command service
              ∷ [])
            l
            (stop_service m c service l)
  unfolding restart_service start_service stop_service
  write_service-Began service l = (
    service_commands "restart_service" "restart" service l,
    service_commands "start_service" "start" service l,
    service_commands "stop_service" "stop" service l,
  )
