-- ===== src/Service/Dispatch/Sent.antt =====
-- What `execute` sends to the host (`DiagnosticGateway.execute` of backend/app/gateway.py).
use home_ai_agent.Base.{
  ◌≡◌, refl, true, not, ◌||◌, Option, some, [], ◌∷◌, ◌++◌, String, ok, arith, ◌⊎◌, inl, inr,
  Bool-cases, Result-cases,
}
use home_ai_agent.Json.{Fields}
use home_ai_agent.Model.{Action}
use home_ai_agent.Gateway.{is_write, validate_tool, ToolEntry, Registry}
use home_ai_agent.Service.Dispatch.{is_authorized, may_write, call_of, send, execute, is_given}
use home_ai_agent.Store.{Env, Store, Call}

module _ (e : Env) (tool : String) (arguments : Fields) (approval : Option Action) where
  -- the policy lets the call through, and a write has an authorized action and a signature
  abbrev pub MaySend : Type 0
  MaySend =
      ((registry : Registry) × (entry : ToolEntry) × (e.registry ≡ ok registry)
        × (validate_tool e.schema_valid registry tool arguments (is_given e approval) ≡ ok entry))
      × (is_write tool ≡ true
          → (a : Action) × (approval ≡ some a)
            × (is_authorized a.approval_status ≡ true)
            × (e.signing_secret ≡ true))

  may_write_lem :
      may_write e approval ≡ true
      → (a : Action) × (approval ≡ some a)
        × (is_authorized a.approval_status ≡ true)
        × (e.signing_secret ≡ true)
  unfolding may_write
  may_write_lem h = ground arith

  send-calls : (c : Call) (s : Store) → (send e c s).1 ≡ record s { calls = s.calls ++ (c ∷ []) }
  unfolding send
  send-calls c s = refl

  -- A call either changes nothing, or it sends exactly one request, whether or not the host answers; then the
  -- policy allows the tool, and a write has an approved action and a signing secret.
  pub execute-sent :
      (s : Store)
      → ((execute e tool arguments approval s).1 ≡ s)
        ⊎ (((execute e tool arguments approval s).1
              ≡ record s { calls = s.calls ++ (call_of e tool arguments approval ∷ []) })
            × MaySend)
  unfolding execute send
  execute-sent s = elim (Result-cases e.registry) [
    | inl (x, p) ↦ inl (ground arith)
    | inr (registry, p) ↦
        elim (Result-cases
          (validate_tool e.schema_valid registry tool arguments (is_given e approval))) [
            | inl (x, q) ↦ inl (ground arith)
            | inr (entry, q) ↦ elim (Bool-cases (not (is_write tool) || may_write e approval)) [
              | inl y ↦
                  inr (ground arith, ((registry, entry, p, q), λ w. may_write_lem (ground arith)))
              | inr n ↦ inl (ground arith)
            ]
          ]
  ]
