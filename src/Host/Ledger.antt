-- ===== src/Host/Ledger.antt =====
-- `ApprovalLedger` of diagnostic_gateway/safety.py: a signed approval is consumed once. The table is a list;
-- the signature of the payload, and the reading of the expiry as an integer
-- (a negative one reads as 0, which is as late), are parameters.
use Prim.Native.String.{count}
use home_ai_agent.Base.{
  ℕ, ◌+◌, Bool, not, ◌&&◌, ◌||◌, Option, none, some, List, [], ◌∷◌, ◌++◌, String, ◌==◌, string_eq,
  nat_eq, any, all, length, leb, ltb, codes, if◌then◌else◌,
}
use home_ai_agent.Json.{Fields}

pub record Approval : Type 0 where
  pub action_id : String
  pub tool : String
  pub arguments : Fields
  pub expires : String
  pub signature : String

-- a row of `consumed_approvals`
pub record Consumed : Type 0 where
  pub action_id : String
  pub tool : String
  pub consumed_at : ℕ
  pub result : Option Fields

pub data ApprovalError : Type 0 where
  invalid no_expiry expired bad_signature already_consumed : ApprovalError

-- `[A-Za-z0-9_-]`
abbrev is_word : ℕ → Bool
is_word c =
    (leb b'A' c && leb c b'Z')
    || (leb b'a' c && leb c b'z')
    || (leb b'0' c && leb c b'9')
    || c == b'_'
    || c == b'-'

-- `re.fullmatch(r"[A-Za-z0-9_-]{8,128}", action_id)`
unfoldable pub valid_id : String → Bool
unfolding nat_eq
valid_id id = let cs = codes id in let n = length cs in leb 8 n && leb n 128 && all is_word cs

abbrev pub is_consumed : String → List Consumed → Bool
is_consumed id = any (λ row. row.action_id == id)

abbrev pub in_lifetime : ℕ → ℕ → Bool
in_lifetime now expiry = ltb now expiry && leb expiry (now + 600)

abbrev read_expiry : (String → Option ℕ) → ℕ → String → Option Bool
read_expiry parse now text = elim (parse text) [
  | none ↦ none
  | some expiry ↦ some (in_lifetime now expiry)
]

module _ (parse : String → Option ℕ) (sign : String → String → String → Fields → String → String)
    (secret : String) where
  unfoldable pub check_signature : Approval → Bool
  unfolding string_eq
  check_signature a = a.signature == sign secret a.action_id a.tool a.arguments a.expires

  -- the exception, or the table with one more row
  unfoldable pub consume : ℕ → Approval → List Consumed → Option ApprovalError × List Consumed
  consume now a ledger =
      if ltb (count secret) 32 || not (valid_id a.action_id)
      then (some invalid, ledger)
      else (elim (read_expiry parse now a.expires) [
        | none ↦ (some no_expiry, ledger)
        | some current ↦
            if not current
            then (some expired, ledger)
            else if not (check_signature a)
            then (some bad_signature, ledger)
            else if is_consumed a.action_id ledger
            then (some already_consumed, ledger)
            else (
              none,
              ledger
                  ++ (record {
                    action_id = a.action_id;
                    tool = a.tool;
                    consumed_at = now;
                    result = none;
                  }
                      ∷ []),
            )
      ])

-- `UPDATE … SET result=? WHERE action_id=?`
unfoldable pub complete : String → Fields → List Consumed → List Consumed
complete id result [] = []
complete id result (row ∷ rows) =
    (if row.action_id == id then record row { result = some result } else row)
    ∷ complete id result rows
