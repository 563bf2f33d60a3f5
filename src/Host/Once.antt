-- ===== src/Host/Once.antt =====
-- A signed approval is used at most once by the host gateway, whatever requests arrive.
use home_ai_agent.Base.{
  ℕ, ◌+◌, ◌≤◌, ◌≡◌, refl, ◌∙◌, Bool, true, false, Option, none, some, List, [], ◌∷◌, ◌++◌, String,
  ◌==◌, string_eq, if◌then◌else◌, arith, ◌⊎◌, inl, inr, Bool-cases, Option-cases, ltb,
}
use Prim.Native.String.{count}
use home_ai_agent.Json.{Fields}
use home_ai_agent.Host.Ledger.{
  Approval, Consumed, valid_id, is_consumed, check_signature, consume, complete, in_lifetime,
}
use home_ai_agent.Host.Server.{
  Tools, Server, Request, Run, run_write, run_tool, read_body, default_body, execute, serve,
  with_run, respond,
}

module _ (parse : String → Option ℕ) (sign : String → String → String → Fields → String → String)
    (secret : String) where
  -- what a consumed approval shows
  abbrev pub IsValid : ℕ → Approval → List Consumed → Type 0
  IsValid now a ledger =
      (ltb (count secret) 32 ≡ false)
      × (valid_id a.action_id ≡ true)
      × ((expiry : ℕ) × (parse a.expires ≡ some expiry) × (in_lifetime now expiry ≡ true))
      × (a.signature ≡ sign secret a.action_id a.tool a.arguments a.expires)
      × (is_consumed a.action_id ledger ≡ false)

  check_signature_lem :
      (a : Approval)
      → check_signature parse sign secret a ≡ true
      → a.signature ≡ sign secret a.action_id a.tool a.arguments a.expires
  unfolding check_signature
  check_signature_lem a h = ground arith

  is_consumed-append :
      (row : Consumed) (ledger : List Consumed)
      → is_consumed row.action_id (ledger ++ (row ∷ [])) ≡ true
  is_consumed-append row [] = ground arith
  is_consumed-append row (r ∷ rs) = let z = is_consumed-append row rs in ground arith

  is_consumed-more :
      (id : String) (row : Consumed) (ledger : List Consumed)
      → is_consumed id ledger ≡ true
      → is_consumed id (ledger ++ (row ∷ [])) ≡ true
  is_consumed-more id row [] h = ground arith
  is_consumed-more id row (r ∷ rs) h = elim (Bool-cases (is_consumed id rs)) [
    | inl y ↦ let z = is_consumed-more id row rs y in ground arith
    | inr n ↦ ground arith
  ]

  -- An approval is consumed only with a secret of at least 32 characters, a well-formed action, an expiry in the
  -- next ten minutes, the signature of its payload, and if it was not consumed before; then it is.
  pub consume-IsValid :
      (now : ℕ) (a : Approval) (ledger taken : List Consumed)
      → consume parse sign secret now a ledger ≡ (none, taken)
      → IsValid now a ledger
        × (is_consumed a.action_id taken ≡ true)
        × ((id : String) → is_consumed id ledger ≡ true → is_consumed id taken ≡ true)
  unfolding consume
  consume-IsValid now a ledger taken h = elim (Option-cases (parse a.expires)) [
    | inl n ↦ absurd (ground arith)
    | inr (expiry, p) ↦
        let row : Consumed = record {
          action_id = a.action_id;
          tool = a.tool;
          consumed_at = now;
          result = none;
        } in
        let t : taken ≡ ledger ++ (row ∷ []) = ground arith in
        let c : check_signature parse sign secret a ≡ true = ground arith in
        (
          (
            ground arith,
            ground arith,
            (expiry, p, ground arith),
            check_signature_lem a c,
            ground arith,
          ),
          rw t (is_consumed-append row ledger),
          λ id y. rw t (is_consumed-more id row ledger y),
        )
  ]

is_consumed-complete :
    (id j : String) (result : Fields) (ledger : List Consumed)
    → is_consumed id (complete j result ledger) ≡ is_consumed id ledger
unfolding complete
is_consumed-complete id j result [] = refl
is_consumed-complete id j result (r ∷ rs) =
    let z = is_consumed-complete id j result rs in ground arith

-- how many handlers ran with an approval
abbrev pub used : String → List Run → ℕ
used id [] = 0
used id (run ∷ runs) =
    (elim run.action_id [ none ↦ 0 | some j ↦ if j == id then 1 else 0 ]) + used id runs

abbrev is_taken : String → Server → Bool
is_taken id s = elim s.ledger [ none ↦ false | some rows ↦ is_consumed id rows ]

-- an approval was not used, or it was used once and is consumed
abbrev pub IsSingle : String → Server → Type 0
IsSingle id s = (used id s.runs ≡ 0) ⊎ ((used id s.runs ≡ 1) × (is_taken id s ≡ true))

used-append :
    (id : String) (runs : List Run) (run : Run)
    → used id (runs ++ (run ∷ [])) ≡ used id runs + used id (run ∷ [])
used-append id [] run = omega arith
used-append id (r ∷ rs) run = let z = used-append id rs run in omega (arith, z)

module _ (t : Tools) where
  -- the server after a write whose approval was not consumed before
  won :
      (id : String) (r : Request) (s : Server) (arguments : Fields) (rows taken : List Consumed)
      (answer : Fields)
      → s.ledger ≡ some rows
      → is_consumed r.action_id rows ≡ false
      → is_consumed r.action_id taken ≡ true
      → (is_consumed id rows ≡ true → is_consumed id taken ≡ true)
      → IsSingle id s
      → IsSingle id (
          with_run t r.name arguments
            (some r.action_id)
            (record s { ledger = some (complete r.action_id answer taken) }))
  won id r s arguments rows taken answer p new own others h =
      let run : Run = record {
        tool = r.name;
        arguments = arguments;
        action_id = some r.action_id;
      } in
      let z = used-append id s.runs run in
      let c = is_consumed-complete id r.action_id answer taken in
      elim (string_eq.dec r.action_id id) [
        | yes same ↦
            let fresh : is_consumed id rows ≡ false = rw same at new in
            let mine : is_consumed id taken ≡ true = rw same at own in
            let one : used id (run ∷ []) ≡ 1 = ground arith in
            elim h [
              | inl u ↦ inr (omega (arith, z, one, u), c ∙ mine)
              | inr (u, k) ↦ absurd (ground arith)
            ]
        | no differs ↦
            let unmatched : used id (run ∷ []) ≡ 0 = ground arith in
            elim h [
              | inl u ↦ inl (omega (arith, z, unmatched, u))
              | inr (u, k) ↦
                  let l : is_consumed id rows ≡ true = ground arith in
                  inr (omega (arith, z, unmatched, u), c ∙ others l)
            ]
      ]

  run_write-IsSingle :
      (id : String) (r : Request) (arguments : Fields) (s : Server)
      → IsSingle id s
      → IsSingle id (run_write t r arguments s).1
  unfolding run_write
  run_write-IsSingle id r arguments s h = elim (Option-cases s.ledger) [
    | inl n ↦ ground arith
    | inr (rows, p) ↦
        let a : Approval = record {
          action_id = r.action_id;
          tool = r.name;
          arguments = arguments;
          expires = r.expires;
          signature = r.signature;
        } in
        elim (Option-cases ((consume t.parse_expiry t.sign t.approval_secret r.now a rows).0)) [
          | inr (x, q) ↦ ground arith
          | inl q ↦
              let taken = (consume t.parse_expiry t.sign t.approval_secret r.now a rows).1 in
              let (valid, own, others) =
                consume-IsValid t.parse_expiry t.sign t.approval_secret r.now a rows taken
                  (ground arith) in
              let new = valid.4 in
              let answer = respond t r.name (t.handler s.runs r.name arguments) in
              let next : (run_write t r arguments s).1
                  ≡ with_run t r.name arguments (some r.action_id)
                      (record s { ledger = some (complete r.action_id answer taken) }) =
                ground arith in
              rw next (won id r s arguments rows taken answer p new own (others id) h)
        ]
  ]

  run_tool-IsSingle :
      (id : String) (r : Request) (read_only : Bool) (arguments : Fields) (s : Server)
      → IsSingle id s
      → IsSingle id (run_tool t r read_only arguments s).1
  unfolding run_tool
  run_tool-IsSingle id r true arguments s h =
      let z =
        used-append id s.runs (record { tool = r.name; arguments = arguments; action_id = none }) in
      ground arith
  run_tool-IsSingle id r false arguments s h =
      let z = run_write-IsSingle id r arguments s h in ground arith

  execute-IsSingle :
      (id : String) (r : Request) (s : Server) → IsSingle id s → IsSingle id (execute t r s).1
  unfolding execute
  execute-IsSingle id r s h = elim (Option-cases (t.definitions r.name)) [
    | inl n ↦ ground arith
    | inr (risk, p) ↦ elim (Option-cases (read_body r.chunks [])) [
      | inl n ↦ ground arith
      | inr (bytes, q) ↦ elim (Option-cases (t.parse_arguments r.name (default_body bytes))) [
        | inl n ↦ ground arith
        | inr (arguments, m) ↦ let z = run_tool-IsSingle id r risk arguments s h in ground arith
      ]
    ]
  ]

  serve-IsSingle :
      (id : String) (rs : List Request) (s : Server) → IsSingle id s → IsSingle id (serve t rs s)
  unfolding serve
  serve-IsSingle id [] s h = h
  serve-IsSingle id (r ∷ rs) s h =
      serve-IsSingle id rs (execute t r s).1 (execute-IsSingle id r s h)

  -- Over any requests to a gateway that has run nothing yet, at most one handler runs with the approval of an action.
  pub serve-once :
      (id : String) (rs : List Request) (ledger : Option (List Consumed))
      → used id (serve t rs (record { ledger = ledger; runs = [] })).runs ≤ 1
  serve-once id rs ledger =
      let z = serve-IsSingle id rs (record { ledger = ledger; runs = [] }) (inl refl) in
      elim z [ inl a ↦ omega (arith, a) | inr (a, _) ↦ omega (arith, a) ]
