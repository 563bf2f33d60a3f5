-- ===== src/Autonomy/Admitted.antt =====
-- The states of a target that admit a recovery, and the parts of `authorize` (backend/app/autonomy.py)
-- that establish them.
use home_ai_agent.Base.{
  ℕ, ◌+◌, ◌≤◌, ◌≡◌, ◌≢◌, refl, ◌∙◌, true, false, Option, none, some, List, [], ◌∷◌, String, In,
  head, tail, select-In, last-In, last, contains, contains-In, not_In-nil, string_eq, ap, ◌⊎◌, inl,
  inr, any, ok, arith, starts_with, select, Bool-cases,
}
use home_ai_agent.Json.{
  Value, null, bool, str, obj, Fields, get, is_true, is_false, is_str, int, float, arr, is_true-eq,
  is_false-eq, is_str-eq, lookup,
}
use home_ai_agent.Model.{Observation, Action}
use home_ai_agent.Gateway.{is_write, write_tools}
use home_ai_agent.Autonomy.Evidence.{
  target_key, state_tool, names, max_age, cited, is_fresh, authorize_evidence, observes, last_state,
  detail, is_unhealthy,
}
use home_ai_agent.Autonomy.Rules.{container_rules, service_rules}
use home_ai_agent.Autonomy.{attempted, target_rules}

-- the starts and restarts
pub data IsRecovery : String → Type 0 where
  start_container : IsRecovery "start_container"
  restart_container : IsRecovery "restart_container"
  start_service : IsRecovery "start_service"
  restart_service : IsRecovery "restart_service"

pub IsRecovery-In :
    {tool : String} → In tool write_tools → starts_with tool "stop_" ≡ false → IsRecovery tool
IsRecovery-In (head e) n = rw e restart_container
IsRecovery-In (tail (head e)) n = rw e start_container
IsRecovery-In (tail (tail (head e))) n = cc (n, ap (λ t. starts_with t "stop_") e)
IsRecovery-In (tail (tail (tail (head e)))) n = rw e restart_service
IsRecovery-In (tail (tail (tail (tail (head e))))) n = rw e start_service
IsRecovery-In (tail (tail (tail (tail (tail (head e)))))) n =
    cc (n, ap (λ t. starts_with t "stop_") e)
IsRecovery-In (tail (tail (tail (tail (tail (tail i)))))) n = absurd (not_In-nil i)

pub is_write-IsRecovery :
    (tool : String) → is_write tool ≡ true → starts_with tool "stop_" ≡ false → IsRecovery tool
unfolding is_write
is_write-IsRecovery tool w n = IsRecovery-In (contains-In write_tools tool w) n

pub names-str :
    (texts : List String) (v : Value)
    → names texts v ≡ true
    → (t : String) × (v ≡ str t) × In t texts
unfolding names
names-str texts (str t) h = (t, refl, contains-In texts t h)
names-str texts null h = cc
names-str texts (bool b) h = cc
names-str texts (obj b) h = cc
names-str texts (int z) h = cc
names-str texts (float z) h = cc
names-str texts (arr vs) h = cc

-- an earlier autonomous action on the same target
pub attempted_before :
    (key : String) (target : Value) (actions : List Action)
    → any (attempted key target) actions ≡ false
    → {a : Action} → In a actions
    → attempted key target a ≡ false
attempted_before key target [] h i = absurd (not_In-nil i)
attempted_before key target (a ∷ actions) h (head e) = ground arith
attempted_before key target (a ∷ actions) h (tail i) =
    attempted_before key target actions (ground arith) i

-- which observed state admits which write
pub data Admits (target : Value) (state : Fields) : String → Type 0 where
  stopped :
      (details : Fields)
      → lookup "state" state ≡ some (obj details)
      → get "running" details ≡ bool false
      → Admits target state "start_container"
  unhealthy :
      (details : Fields)
      → lookup "state" state ≡ some (obj details)
      → get "running" details ≡ bool true
      → (get "health" state ≡ str "unhealthy") ⊎ (get "restarting" details ≡ bool true)
      → Admits target state "restart_container"
  inactive :
      (get "state" state ≡ str "inactive") ⊎ (get "state" state ≡ str "failed")
      → Admits target state "start_service"
  tunnel :
      target ≡ str "cloudflared"
      → get "state" state ≡ str "active"
      → Admits target state "restart_service"

pub detail-ok :
    (key : String) (state : Fields) {v : Value}
    → detail key state ≡ ok v
    → v ≢ null
    → (details : Fields) × (lookup "state" state ≡ some (obj details)) × (get key details ≡ v)
unfolding detail
detail-ok key state {v} h n = go (lookup "state" state) refl
  where
    go :
        (o : Option Value)
        → lookup "state" state ≡ o
        → (details : Fields) × (lookup "state" state ≡ some (obj details)) × (get key details ≡ v)
    go none e = absurd (n (ground arith))
    go (some (obj fs)) e = (fs, e, ground arith)
    go (some null) e = absurd (ground arith)
    go (some (bool b)) e = absurd (ground arith)
    go (some (int z)) e = absurd (ground arith)
    go (some (float z)) e = absurd (ground arith)
    go (some (str t)) e = absurd (ground arith)
    go (some (arr vs)) e = absurd (ground arith)

pub container_start :
    (str_of : Value → String) (target : Value) (evidence : List Observation) (state : Fields)
    → container_rules str_of "start_container" target evidence state ≡ ok tt
    → (v : Value) × (detail "running" state ≡ ok v) × (is_false v ≡ true)
unfolding container_rules
container_start str_of target evidence state h = ground arith

pub container_restart :
    (str_of : Value → String) (target : Value) (evidence : List Observation) (state : Fields)
    → container_rules str_of "restart_container" target evidence state ≡ ok tt
    → (v : Value) × (detail "running" state ≡ ok v)
      × (is_true v ≡ true)
      × (is_unhealthy state ≡ ok true)
unfolding container_rules
container_restart str_of target evidence state h = ground arith

pub service_start :
    (target : Value) (evidence : List Observation) (state : Fields)
    → service_rules "start_service" target evidence state ≡ ok tt
    → (is_str "inactive" (get "state" state) ≡ true) ⊎ (is_str "failed" (get "state" state) ≡ true)
unfolding service_rules
service_start target evidence state h = ground arith

pub service_restart :
    (target : Value) (evidence : List Observation) (state : Fields)
    → service_rules "restart_service" target evidence state ≡ ok tt
    → (is_str "cloudflared" target ≡ true) × (is_str "active" (get "state" state) ≡ true)
unfolding service_rules
service_restart target evidence state h = ground arith

pub evidence_steps :
    (now : ℕ) (observations : List Observation) (ids : List String) {evidence : List Observation}
    → authorize_evidence now observations ids ≡ ok evidence
    → evidence ≡ select (is_fresh now) (cited ids observations)
unfolding authorize_evidence
evidence_steps now observations ids h = ground arith

pub evidence-In :
    (now : ℕ) (observations : List Observation) (ids : List String) {evidence : List Observation}
    → authorize_evidence now observations ids ≡ ok evidence
    → {o : Observation} → In o evidence
    → In o observations × (contains ids o.id ≡ true) × (now ≤ o.created_at + max_age)
unfolding cited is_fresh
evidence-In now observations ids h i =
    let (j, fresh) =
      select-In (is_fresh now) (cited ids observations)
        (rw (evidence_steps now observations ids h) at i) in
    let (k, known) = select-In _ observations j in (k, known, ground arith)

pub last_state-In :
    (tool : String) (target : Value) (evidence : List Observation) {state : Fields}
    → last_state tool target evidence ≡ ok state
    → (o : Observation) × In o evidence
      × (observes (state_tool tool) (target_key tool) target o ≡ true)
      × (last (select (observes (state_tool tool) (target_key tool) target) evidence) ≡ some o)
      × (o.normalized_result ≡ state)
unfolding last_state
last_state-In tool target evidence {state} h =
    go (last (select (observes (state_tool tool) (target_key tool) target) evidence)) refl
  where
    go :
        (r : Option Observation)
        → last (select (observes (state_tool tool) (target_key tool) target) evidence) ≡ r
        → (o : Observation) × In o evidence
          × (observes (state_tool tool) (target_key tool) target o ≡ true)
          × (last (select (observes (state_tool tool) (target_key tool) target) evidence) ≡ some o)
          × (o.normalized_result ≡ state)
    go none e = absurd (ground arith)
    go (some o) e =
        let (i, seen) = select-In _ evidence (last-In _ e) in (o, i, seen, e, ground arith)

pub is_unhealthy-shown :
    (state details : Fields)
    → lookup "state" state ≡ some (obj details)
    → is_unhealthy state ≡ ok true
    → (get "health" state ≡ str "unhealthy") ⊎ (get "restarting" details ≡ bool true)
unfolding is_unhealthy detail
is_unhealthy-shown state details e h = elim (Bool-cases (is_str "unhealthy" (get "health" state))) [
  | inl sick ↦ inl (is_str-eq _ _ sick)
  | inr well ↦ inr (is_true-eq _ (ground arith))
]

pub target_rules-Admits :
    (str_of : Value → String) {tool : String} (target : Value) (evidence : List Observation)
    (state : Fields)
    → IsRecovery tool
    → target_rules str_of tool target evidence state ≡ ok tt
    → Admits target state tool
unfolding target_rules target_key string_eq
target_rules-Admits str_of target evidence state start_container h =
    let (v, d, f) = container_start str_of target evidence state h in
    let (details, e, g) = detail-ok "running" state d (λ p. cc (is_false-eq v f, p)) in
    stopped details e (g ∙ is_false-eq v f)
target_rules-Admits str_of target evidence state restart_container h =
    let (v, d, f, u) = container_restart str_of target evidence state h in
    let (details, e, g) = detail-ok "running" state d (λ p. cc (is_true-eq v f, p)) in
    unhealthy details e (g ∙ is_true-eq v f) (is_unhealthy-shown state details e u)
target_rules-Admits str_of target evidence state start_service h =
    inactive (elim (service_start target evidence state h) [
      | inl e ↦ inl (is_str-eq _ _ e)
      | inr e ↦ inr (is_str-eq _ _ e)
    ])
target_rules-Admits str_of target evidence state restart_service h =
    let (t, active) = service_restart target evidence state h in
    tunnel (is_str-eq _ _ t) (is_str-eq _ _ active)
