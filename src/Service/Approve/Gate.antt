-- ===== src/Service/Approve/Gate.antt =====
-- What has to hold before `approve` (backend/app/service.py) sends anything to the host.
use home_ai_agent.Base.{
  ℕ, ◌≡◌, refl, true, false, ◌&&◌, some, List, [], ◌∷◌, String, ok, err, Error, arith, ◌⊎◌, inl,
  inr, Bool-cases, Option-cases, Result-cases, leb,
}
use home_ai_agent.Topology.{CheckSpec}
use home_ai_agent.Model.{Action, Incident}
use home_ai_agent.Gateway.{Registry}
use home_ai_agent.Service.Checks.{verification_checks}
use home_ai_agent.Service.Verify.{validate_checks}
use home_ai_agent.Service.Approve.Claim.{is_claimable}
use home_ai_agent.Service.Approve.{
  check_approval, claim_action, run_approval, refuse_expired, expire, approve, is_waiting,
}
use home_ai_agent.Store.{Env, Store, find_action, find_incident}

module _ (e : Env) where
  validate_checks-same :
      (registry : Registry) (checks : List CheckSpec) (s : Store)
      → (validate_checks e registry checks s).1 ≡ s
  unfolding validate_checks
  validate_checks-same registry [] s = refl
  validate_checks-same registry (c ∷ cs) s =
      let r = validate_checks-same registry cs s in ground arith

  module _ (now : ℕ) (id : String) where
    check_approval-same :
        (registry : Registry) (a : Action) (i : Incident) (s : Store)
        → (check_approval e now id registry a i s).1 ≡ s
    unfolding check_approval
    check_approval-same registry a i s =
        elim (Result-cases (verification_checks e.settings.topology i.service (some a))) [
          | inl (x, p) ↦ ground arith
          | inr (checks, p) ↦ let r = validate_checks-same registry checks s in ground arith
        ]

    expire-calls :
        (incident_id : String) (s : Store) → (expire e now id incident_id s).calls ≡ s.calls
    unfolding expire
    expire-calls incident_id s = ground arith

    -- what is known when the claim of an action has been won
    abbrev pub IsApproved : Store → Action → Type 0
    IsApproved s a =
        (e.settings.enable_write_actions ≡ true)
        × (find_action id s ≡ some a)
        × (is_claimable a ≡ true)
        × (leb a.expires_at now ≡ false)
        × ((incident : Incident) × (t : Store) × (find_incident a.incident_id s ≡ some incident)
            × (is_waiting incident.status ≡ true)
            × (claim_action e now id a.incident_id s ≡ (ok tt, t)))

    check_approval-waiting :
        (registry : Registry) (a : Action) (i : Incident) (s : Store)
        → (check_approval e now id registry a i s).0 ≡ ok tt
        → is_waiting i.status ≡ true
    unfolding check_approval
    check_approval-waiting registry a i s h = ground arith

    claim_action-refused :
        (incident_id : String) (s : Store) (x : Error)
        → (claim_action e now id incident_id s).0 ≡ err x
        → (claim_action e now id incident_id s).1 ≡ s
    unfolding claim_action
    claim_action-refused incident_id s x h = ground arith

    run_approval-calls :
        (registry : Registry) (a : Action) (s : Store)
        → ((run_approval e now id registry a s).1.calls ≡ s.calls)
          ⊎ ((incident : Incident) × (t : Store) × (find_incident a.incident_id s ≡ some incident)
              × (is_waiting incident.status ≡ true)
              × (claim_action e now id a.incident_id s ≡ (ok tt, t)))
    unfolding run_approval
    run_approval-calls registry a s = elim (Option-cases (find_incident a.incident_id s)) [
      | inl p ↦ inl (ground arith)
      | inr (i, p) ↦
          let same = check_approval-same registry a i s in
          elim (Result-cases ((check_approval e now id registry a i s).0)) [
            | inl (x, q) ↦ inl (ground arith)
            | inr (u, q) ↦ elim (Result-cases ((claim_action e now id a.incident_id s).0)) [
              | inl (x, w) ↦ let z = claim_action-refused a.incident_id s x w in inl (ground arith)
              | inr (v, w) ↦ inr (
                i,
                (claim_action e now id a.incident_id s).1,
                p,
                check_approval-waiting registry a i s q,
                ground arith,
              )
            ]
          ]
    ]

    refuse_expired-calls :
        (a : Action) (s : Store) → (refuse_expired e now id a s).1.calls ≡ s.calls
    unfolding refuse_expired
    refuse_expired-calls a s = elim (Option-cases (find_incident a.incident_id s)) [
      | inl p ↦ ground arith
      | inr (i, p) ↦ let z = expire-calls i.id s in ground arith
    ]

    -- `approve` sends a request only if writes are enabled and the action is pending, not executed and not
    -- expired, its incident waits for it, and the claim was won.
    pub approve-IsApproved :
        (s : Store) → ((approve e now id s).1.calls ≡ s.calls) ⊎ ((a : Action) × IsApproved s a)
    unfolding approve
    approve-IsApproved s = elim (Result-cases e.registry) [
      | inl (x, r) ↦ inl (ground arith)
      | inr (registry, r) ↦ elim (Option-cases (find_action id s)) [
        | inl p ↦ inl (ground arith)
        | inr (a, p) ↦ elim (Bool-cases (e.settings.enable_write_actions && is_claimable a)) [
          | inr n ↦ inl (ground arith)
          | inl y ↦ elim (Bool-cases (leb a.expires_at now)) [
            | inl late ↦ inl (let z = refuse_expired-calls a s in ground arith)
            | inr early ↦ elim (run_approval-calls registry a s) [
              | inl same ↦ inl (ground arith)
              | inr won ↦ inr (a, (ground arith, p, ground arith, early, won))
            ]
          ]
        ]
      ]
    ]
