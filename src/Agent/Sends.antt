-- ===== src/Agent/Sends.antt =====
-- Every request of an investigation is a read, or a write of an enabled autonomous executor with an action.
use home_ai_agent.Base.{
  ℕ, zero, suc, ◌≡◌, refl, true, Bool, Option, none, some, List, [], ◌∷◌, ◌++◌, String, Result, ok,
  err, arith, ◌⊎◌, inl, inr, Option-cases, message,
}
use home_ai_agent.Json.{Fields}
use home_ai_agent.Model.{Action, verifying}
use home_ai_agent.Topology.{CheckSpec}
use home_ai_agent.Gateway.{is_write, Registry}
use home_ai_agent.Autonomy.{authorize, authorize_scope}
use home_ai_agent.Service.Dispatch.{execute, call_of}
use home_ai_agent.Service.Dispatch.Sent.{execute-sent, MaySend}
use home_ai_agent.Service.Autonomous.{plan, insert_action, inspect, execute_autonomous}
use home_ai_agent.Service.Verify.{
  validate_checks, attempt, run_check, run_checks, CheckResult, settle, index_history, is_stop,
  finish, run_verification, verify_action, verify, blocked_by, run_if_checked, mark_blocked,
  extra_attempts,
}
use home_ai_agent.Agent.Kept.{record_observation-Keeps, base_rules}
use home_ai_agent.Store.{Env, Store, Call, M, set_action, set_incident, modify, ◌>>=◌}
use home_ai_agent.Store.Keeps.{
  Keeps, Frame, Keeps-Frame, set_incident-Keeps, Keeps-bind, Keeps-then, Keeps-bind_knowing,
  Keeps-lift, Keeps-pure, Keeps-when, change_incident-ids,
}

abbrev pub Enabled : Env → Type 0
Enabled e = (e.settings.enable_write_actions ≡ true) × (e.settings.enable_autonomous_actions ≡ true)

-- a write needs the autonomous executor and names its action
abbrev pub IsBacked : Env → Call → Type 0
IsBacked e c = is_write c.tool ≡ true → Enabled e × ((id : String) × (c.approval ≡ some id))

module _ (Q : List String → List Call → ℕ → Type 0) (e : Env) (incident_id : String)
    (sends : (ids : List String) (calls : List Call) (n : ℕ) (c : Call)
      → IsBacked e c
      → Q ids calls n
      → Q ids (calls ++ (c ∷ [])) n) where
  call_of-IsBacked :
      (tool : String) (arguments : Fields) (approval : Option Action)
      → (approval ≡ none) ⊎ Enabled e
      → MaySend e tool arguments approval
      → IsBacked e (call_of e tool arguments approval)
  call_of-IsBacked tool arguments approval (inl n) (_, w) h = let (a, p, _, _) = w h in absurd (cc)
  call_of-IsBacked tool arguments approval (inr y) (_, w) h =
      let (a, p, _, _) = w h in (y, (a.id, rw (h, p) refl))

  execute-Keeps :
      (tool : String) (arguments : Fields) (approval : Option Action)
      → (approval ≡ none) ⊎ Enabled e
      → Keeps (Frame Q) (execute e tool arguments approval)
  execute-Keeps tool arguments approval k = record {
    at = λ s h. elim (execute-sent e tool arguments approval s) [
      | inl same ↦ rw same h
      | inr (same, may) ↦ rw same (sends _ _ _ _ (call_of-IsBacked tool arguments approval k may) h)
    ];
  }

  pub read-Keeps :
      (tool : String) (arguments : Fields) → Keeps (Frame Q) (execute e tool arguments none)
  read-Keeps tool arguments = execute-Keeps tool arguments none (inl refl)

  pub ruleset send_rules = (base_rules, record_observation-Keeps, read-Keeps)

  attempt-Keeps : (now : ℕ) (c : CheckSpec) → Keeps (Frame Q) (attempt e now incident_id c)
  unfolding attempt
  attempt-Keeps now c = search send_rules

  run_check-Keeps :
      (now n : ℕ) (c : CheckSpec) (tried : List (Bool × String))
      → Keeps (Frame Q) (run_check e now incident_id n c tried)
  unfolding run_check
  run_check-Keeps now zero c tried = search (send_rules, attempt-Keeps)
  run_check-Keeps now (suc n) c tried = search (send_rules, attempt-Keeps, run_check-Keeps now n)

  run_checks-Keeps :
      (now : ℕ) (extra : CheckSpec → ℕ) (cs : List CheckSpec)
      → Keeps (Frame Q) (run_checks e now incident_id extra cs)
  unfolding run_checks
  run_checks-Keeps now extra [] = search send_rules
  run_checks-Keeps now extra (c ∷ cs) =
      Keeps-bind (run_check-Keeps now (extra c) c [])
        (λ r. Keeps-bind (run_checks-Keeps now extra cs) (λ rs. Keeps-pure _))

  validate_checks-Keeps :
      (registry : Registry) (cs : List CheckSpec) → Keeps (Frame Q) (validate_checks e registry cs)
  unfolding validate_checks
  validate_checks-Keeps registry [] = search send_rules
  validate_checks-Keeps registry (c ∷ cs) =
      Keeps-bind (Keeps-lift _) (λ entry. validate_checks-Keeps registry cs)

  settle-Keeps :
      (now : ℕ) (id : Option String) (stopped verified : Bool)
      → Keeps (Frame Q) (modify (settle e now incident_id id stopped verified))
  unfolding settle
  settle-Keeps now id stopped verified =
      Keeps-Frame Q (λ s. (change_incident-ids incident_id _ (λ i. refl) s.incidents, refl, refl))

  is_stop-Keeps : (now : ℕ) (id : Option String) → Keeps (Frame Q) (is_stop e now incident_id id)
  unfolding is_stop
  is_stop-Keeps now none = search send_rules
  is_stop-Keeps now (some id) = search send_rules

  index_history-Keeps : (now : ℕ) (b : Bool) → Keeps (Frame Q) (index_history e now incident_id b)
  unfolding index_history
  index_history-Keeps now b = elim (Option-cases e.history) [
    | inl n ↦ rw n (Keeps-pure tt)
    | inr (r, y) ↦ rw y (Keeps-when b (set_incident-Keeps Q incident_id _ (λ i. refl)))
  ]

  ruleset verify_rules = (
    send_rules, run_checks-Keeps, validate_checks-Keeps, settle-Keeps, is_stop-Keeps,
    index_history-Keeps,
  )

  finish-Keeps :
      (now : ℕ) (id : Option String) (rs : List CheckResult)
      → Keeps (Frame Q) (finish e now incident_id id rs)
  unfolding finish
  finish-Keeps now id rs = search verify_rules

  ruleset finish_rules = (verify_rules, finish-Keeps)

  run_verification-Keeps :
      (now : ℕ) (registry : Registry) (id : Option String) (a : Option Action) (cs : List CheckSpec)
      → Keeps (Frame Q) (run_verification e now incident_id registry id a cs)
  unfolding run_verification
  run_verification-Keeps now registry id a cs =
      let begun : Keeps (Frame Q)
          (set_incident incident_id (λ i. record i { status = verifying })) =
        set_incident-Keeps Q incident_id (λ i. record i { status = verifying }) (λ i. refl) in
      Keeps-then (validate_checks-Keeps registry cs) (
        Keeps-then begun
          (Keeps-bind (run_checks-Keeps now (extra_attempts a) cs) (λ rs. finish-Keeps now id rs)))

  blocked_by-Keeps :
      (now : ℕ) (a : Option Action) (text : String)
      → Keeps (Frame Q) (blocked_by e now incident_id a text)
  unfolding blocked_by
  blocked_by-Keeps now a text =
      Keeps-then (set_incident-Keeps Q incident_id _ (λ i. refl))
        (Keeps-then (marked a) (Keeps-pure _))
    where
      marked : (o : Option Action) → Keeps (Frame Q) (mark_blocked e now incident_id o)
      marked none = Keeps-pure tt
      marked (some x) = record { at = λ s h. h }

  run_if_checked-Keeps :
      (now : ℕ) (registry : Registry) (id : Option String) (a : Option Action)
      (r : Result (List CheckSpec))
      → Keeps (Frame Q) (run_if_checked e now incident_id registry id a r)
  unfolding run_if_checked
  run_if_checked-Keeps now registry id a (err x) = blocked_by-Keeps now a (message x)
  run_if_checked-Keeps now registry id a (ok cs) = run_verification-Keeps now registry id a cs

  verify_action-Keeps :
      (now : ℕ) (id : Option String) → Keeps (Frame Q) (verify_action e now incident_id id)
  unfolding verify_action
  verify_action-Keeps now id = search (finish_rules, run_if_checked-Keeps) depth 20

  pub verify-Keeps : (now : ℕ) (id : Option String) → Keeps (Frame Q) (verify e now incident_id id)
  unfolding verify
  verify-Keeps now (some id) = record { at = (verify_action-Keeps now (some id)).at }
  verify-Keeps now none = record { at = λ s h. (verify_action-Keeps now _).at s h }

  plan-Keeps :
      (now : ℕ) (registry : Registry) (tool : String) (arguments : Fields) (ids : List String)
      → Keeps (Frame Q) (plan e now incident_id registry tool arguments ids)
  unfolding plan
  plan-Keeps now registry tool arguments ids = search verify_rules depth 14

  insert_action-Keeps :
      (now : ℕ) (tool : String) (arguments : Fields) (ids : List String)
      → Keeps (Frame Q) (insert_action e now incident_id tool arguments ids)
  unfolding insert_action
  insert_action-Keeps now tool arguments ids = record { at = λ s h. h }

  set_action-Keeps : (id : String) (f : Action → Action) → Keeps (Frame Q) (set_action id f)
  set_action-Keeps id f = record { at = λ s h. h }

  inspect-Keeps :
      (now : ℕ) (a : Action) (ids : List String) (checks : List CheckSpec) (result : Fields)
      → Keeps (Frame Q) (inspect e now incident_id a ids checks result)
  unfolding inspect
  inspect-Keeps now a ids checks result = search (verify_rules, set_action-Keeps)

  plan-Enabled :
      (now : ℕ) (registry : Registry) (tool : String) (arguments : Fields) (ids : List String)
      (r : List String × List CheckSpec) (s t : Store)
      → plan e now incident_id registry tool arguments ids s ≡ (ok r, t)
      → Enabled e
  unfolding plan authorize authorize_scope
  plan-Enabled now registry tool arguments ids r s t h = (ground arith, ground arith)

  -- what follows the plan may use that autonomous writes are enabled
  plan_then-Keeps :
      {B : Type 0} (now : ℕ) (registry : Registry) (tool : String) (arguments : Fields)
      (ids : List String) {f : List String × List CheckSpec → M B}
      → (Enabled e → (r : List String × List CheckSpec) → Keeps (Frame Q) (f r))
      → Keeps (Frame Q) (plan e now incident_id registry tool arguments ids >>= f)
  plan_then-Keeps now registry tool arguments ids k =
      Keeps-bind_knowing (plan-Keeps now registry tool arguments ids)
        (λ r s t h. k (plan-Enabled now registry tool arguments ids r s t h) r)

  write-Keeps :
      (tool : String) (arguments : Fields) (a : Action)
      → Enabled e
      → Keeps (Frame Q) (execute e tool arguments (some a))
  write-Keeps tool arguments a y = execute-Keeps tool arguments (some a) (inr y)

  pub execute_autonomous-Keeps :
      (now : ℕ) (tool : String) (arguments : Fields) (ids : List String)
      → Keeps (Frame Q) (execute_autonomous e now incident_id tool arguments ids)
  unfolding execute_autonomous
  execute_autonomous-Keeps now tool arguments ids =
      search
        (
          verify_rules, plan_then-Keeps, insert_action-Keeps, write-Keeps, inspect-Keeps,
          set_action-Keeps,
        )
        depth 24
