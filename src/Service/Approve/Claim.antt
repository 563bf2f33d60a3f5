-- ===== src/Service/Approve/Claim.antt =====
-- The atomic claim in `_approve` of backend/app/service.py: an update of the rows that are still pending
-- and not executed, which must touch one row.
use home_ai_agent.Base.{
  ℕ, Bool, true, false, ◌&&◌, Option, none, some, List, [], ◌∷◌, String, ◌==◌, string_eq, nat_eq,
  select, length, if◌then◌else◌,
}
use home_ai_agent.Json.{str, field, end}
use home_ai_agent.Model.{Action, approved}
use home_ai_agent.Service.Verify.{is_pending}

abbrev pub not_executed : Option ℕ → Bool
not_executed none = true
not_executed (some _) = false

unfoldable pub is_claimable : Action → Bool
is_claimable a = is_pending a.approval_status && not_executed a.executed_at

-- the `where` clause of the update
abbrev pub is_row : String → Action → Bool
is_row id a = a.id == id && is_claimable a

abbrev pub claimed_at : ℕ → Action → Action
claimed_at now a = record a {
  approval_status = approved;
  approved_at = some now;
  executed_at = some now;
  result = field "dispatch_status" (str "CLAIMED") end;
}

unfoldable pub update : ℕ → String → List Action → List Action
update now id [] = []
update now id (a ∷ rest) = (if is_row id a then claimed_at now a else a) ∷ update now id rest

-- `claimed.rowcount`
abbrev pub rowcount : String → List Action → ℕ
rowcount id actions = length (select (is_row id) actions)

unfoldable pub claim : ℕ → String → List Action → Option (List Action)
unfolding update
claim now id actions = if rowcount id actions == 1 then some (update now id actions) else none
