-- ===== src/Service/Steps.antt =====
-- The commits of the incident service (backend/app/service.py) and of the agent's proposals as steps on
-- the store, in any order and of any number of requests.
pub mod Once
use home_ai_agent.Base.{
  ℕ, ◌+◌, ◌≤◌, ◌≡◌, refl, Bool, true, false, Option, none, some, List, [], ◌∷◌, ◌++◌, String, ◌==◌,
  string_eq, nat_eq, if◌then◌else◌, arith, In, head, tail, Bool-cases, inl, inr, ◌⊎◌, ok,
}
use home_ai_agent.Json.{truthy, get, Fields}
use home_ai_agent.Model.{Action, Incident, rejected, expired, VerificationStatus}
use home_ai_agent.Service.Approve.Claim.{is_claimable, is_row, update, rowcount, claim}
use home_ai_agent.Service.Approve.Once.{
  IsSpent, IsTame, update-IsSpent, change_action-IsSpent, judge-IsSpent, expire_all-IsSpent,
  update-IsSpent_other, append-IsSpent, names, change_action-names, update-names, expire_all-names,
  judge-names, claimed-named,
}
use home_ai_agent.Service.Approve.{claim_action, reject_action, expire, note_result}
use home_ai_agent.Service.Verify.{judge, settle}
use home_ai_agent.Store.{Env, Store, change_action, set_action}

-- One commit. The label is the action that the commit claims for a dispatch.
pub data Step (e : Env) : Store → Option String → Store → Type 0 where
  claims :
      {s t : Store}
      → (now : ℕ) (id incident_id : String) → claim_action e now id incident_id s ≡ (ok tt, t)
      → Step e s (some id) t
  rejects :
      {s : Store}
      → (now : ℕ) (id : String) (i : Incident) → Step e s none (reject_action e now id i s)
  expires :
      {s : Store}
      → (now : ℕ) (id incident_id : String) → Step e s none (expire e now id incident_id s)
  notes :
      {s : Store}
      → (now : ℕ) (id incident_id : String) (result : Fields)
      → Step e s none (note_result e now id incident_id result s)
  settles :
      {s : Store}
      → (now : ℕ) (incident_id : String) (id : Option String) (stopped verified : Bool)
      → Step e s none (settle e now incident_id id stopped verified s)
  -- an action with a new name: a proposal of the agent, or a claimed autonomous action
  inserts :
      {s t : Store}
      → (a : Action) → (In a.id (names s.actions) → ⊥)
      → t.actions ≡ s.actions ++ (a ∷ [])
      → Step e s none t
  -- the result and the verdict of an action are stored
  records :
      {s : Store}
      → (id : String) (result : Action → Fields) (verdict : Action → VerificationStatus)
      → Step e s none
          ((set_action id (λ a. record a { result = result a; verification_status = verdict a }))
            s).1
  -- incidents, observations, requests and audits
  elsewhere : {s t : Store} → t.actions ≡ s.actions → Step e s none t

pub data Run (e : Env) : Store → List (Option String) → Store → Type 0 where
  done : {s : Store} → Run e s [] s
  more :
      {s t u : Store} {l : Option String} {ls : List (Option String)}
      → Step e s l t
      → Run e t ls u
      → Run e s (l ∷ ls) u
