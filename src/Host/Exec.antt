-- ===== src/Host/Exec.antt =====
-- Host commands: `run_command` of diagnostic_gateway/safety.py and `DiagnosticTools.command` of
-- diagnostic_gateway/tools.py. The operating system is a parameter: which executables there are, and the
-- chunks and the exit code of a process. A handler is a state action on the processes that were started.
use home_ai_agent.Base.{
  ℕ, zero, suc, ◌+◌, ◌-◌, ◌≤◌, ◌≡◌, min, Bool, true, false, not, ◌&&◌, Option, none, some, List, [],
  ◌∷◌, ◌++◌, String, ◌==◌, string_eq, nat_eq, contains, any, codes, length, take, ltb, arith,
  take_chars, if◌then◌else◌, length-append,
}
use Prim.Native.String.{◌++◌ as ◌<>◌}
use home_ai_agent.Json.{Value}
use home_ai_agent.Host.Server.{Failure, tool_error}

pub data Tried (A : Type 0) : Type 0 where
  gave : A → Tried A
  refused : Failure → Tried A

-- the processes that were started, by their arguments
abbrev pub Log : Type 0
Log = List (List String)

abbrev pub H : Type 0 → Type 0
H A = Log → Tried A × Log

infixl 5 ◌>>=◌ ◌>>◌
abbrev pub ◌>>=◌ : {A B : Type 0} → H A → (A → H B) → H B
◌>>=◌ m f l = let (r, k) = m l in elim r [ gave a ↦ f a k | refused x ↦ (refused x, k) ]

abbrev pub ◌>>◌ : {A B : Type 0} → H A → H B → H B
m >> n = m >>= λ _. n

abbrev pub pure : {A : Type 0} → A → H A
pure a l = (gave a, l)

abbrev pub raise : {A : Type 0} → Failure → H A
raise x l = (refused x, l)

abbrev pub lift : {A : Type 0} → Tried A → H A
lift r l = (r, l)

abbrev pub check : Option Failure → H (Unit {0})
check o l = (elim o [ none ↦ gave tt | some x ↦ refused x ], l)

-- what a process writes, each chunk with whether it is on `stdout`, and its exit code
pub record Child : Type 0 where
  pub reads : List (Bool × List ℕ)
  pub exited : ℕ

pub record Machine : Type 0 where
  -- `shutil.which`, and the process, unless it times out
  pub has_binary : String → Bool
  pub child : Log → List String → Option Child
  -- UTF-8 with replacement, the redaction, and the codecs of the standard library
  pub decode : List ℕ → String
  pub redact_text : String → String
  pub loads : String → Option Value
  pub splitlines : String → List String
  pub strip : String → String
  pub lstrip_slash : String → String
  -- `line.split('=', 1)`, if there is the sign
  pub partition : String → Option (String × String)
  pub show : ℕ → String
  pub max_output_bytes : ℕ

pub record CommandResult : Type 0 where
  pub stdout : String
  pub stderr : String
  pub returncode : ℕ
  pub truncated : Bool

-- `buffers`, `size` and `truncated`
pub record Captured : Type 0 where
  pub stdout : List ℕ
  pub stderr : List ℕ
  pub size : ℕ
  pub truncated : Bool

-- one read of at most 4096 bytes, of which what has room is kept
unfoldable pub capture : ℕ → Bool → List ℕ → Captured → Captured
capture max_bytes is_stdout bytes b =
    let room = max_bytes - b.size in
    let chunk = take (min 4096 (room + 1)) bytes in
    let kept = take room chunk in
    record {
      stdout = if is_stdout then b.stdout ++ kept else b.stdout;
      stderr = if is_stdout then b.stderr else b.stderr ++ kept;
      size = b.size + min (length chunk) room;
      truncated = ltb room (length chunk);
    }

-- the loop over the pipes, which ends when the limit is passed
unfoldable pub read_pipes : ℕ → List (Bool × List ℕ) → Captured → Captured
read_pipes max_bytes [] b = b
read_pipes max_bytes ((is_stdout, bytes) ∷ reads) b =
    let after = capture max_bytes is_stdout bytes b in
    if after.truncated then after else read_pipes max_bytes reads after

abbrev pub nothing_read : Captured
nothing_read = record { stdout = []; stderr = []; size = 0; truncated = false }

abbrev allowed_commands : List String
allowed_commands = "docker" ∷ "systemctl" ∷ "journalctl" ∷ "ip" ∷ "ping" ∷ "tailscale" ∷ []

-- an allowlisted command without a NUL in its arguments
unfoldable pub is_command : List String → Bool
unfolding string_eq nat_eq codes
is_command [] = false
is_command (name ∷ arguments) =
    contains allowed_commands name && not (any (λ s. contains (codes s) 0) (name ∷ arguments))

abbrev program : List String → String
program [] = ""
program (name ∷ _) = name

module _ (m : Machine) where
  -- `result.stderr[:2000] or 'Host command failed'`, redacted
  unfoldable pub failure_text : String → String
  unfolding string_eq
  failure_text stderr =
      let text = take_chars 2000 stderr in
      m.redact_text (if text == "" then "Host command failed" else text)

  unfoldable pub conclude : Bool → Child → Tried CommandResult
  unfolding nat_eq
  conclude must_succeed c =
      let b = read_pipes m.max_output_bytes c.reads nothing_read in
      if must_succeed && not (c.exited == 0) && not b.truncated
      then refused (tool_error (failure_text (m.decode b.stderr)) none)
      else gave (record {
        stdout = m.decode b.stdout;
        stderr = m.decode b.stderr;
        returncode = c.exited;
        truncated = b.truncated;
      })

  unfoldable pub start : Bool → List String → H CommandResult
  start must_succeed argv l = (
    elim (m.child l argv) [
      | none ↦ refused (tool_error "Host command exceeded its timeout" none)
      | some c ↦ conclude must_succeed c
    ],
    l ++ (argv ∷ []),
  )

  unfoldable pub run_command : Bool → List String → H CommandResult
  run_command must_succeed argv =
      if not (is_command argv)
      then raise (tool_error "Command is not allowlisted" none)
      else if not (m.has_binary (program argv))
      then raise (tool_error ("Required host executable is unavailable: " <> program argv) none)
      else start must_succeed argv

take-length : {A : Type 0} (n : ℕ) (xs : List A) → length (take n xs) ≡ min (length xs) n
take-length zero [] = omega arith
take-length zero (x ∷ xs) = omega arith
take-length (suc n) [] = omega arith
take-length (suc n) (x ∷ xs) = let rest = take-length n xs in omega (arith, rest)

abbrev Counts : ℕ → Captured → Type 0
Counts max_bytes b = (length b.stdout + length b.stderr ≡ b.size) × (b.size ≤ max_bytes)

capture-Counts :
    (max_bytes : ℕ) (is_stdout : Bool) (bytes : List ℕ) (b : Captured)
    → Counts max_bytes b
    → Counts max_bytes (capture max_bytes is_stdout bytes b)
unfolding capture
capture-Counts max_bytes true bytes b (sum, fits) =
    let room = max_bytes - b.size in
    let chunk = take (min 4096 (room + 1)) bytes in
    let kept = take-length room chunk in
    let longer = length-append b.stdout (take room chunk) in
    (omega (arith, sum, kept, longer), omega (arith, fits))
capture-Counts max_bytes false bytes b (sum, fits) =
    let room = max_bytes - b.size in
    let chunk = take (min 4096 (room + 1)) bytes in
    let kept = take-length room chunk in
    let longer = length-append b.stderr (take room chunk) in
    (omega (arith, sum, kept, longer), omega (arith, fits))

if-Counts :
    (max_bytes : ℕ) (c : Bool) (x y : Captured)
    → Counts max_bytes x
    → Counts max_bytes y
    → Counts max_bytes (if c then x else y)
if-Counts max_bytes true x y h k = h
if-Counts max_bytes false x y h k = k

-- However much a process writes, the two buffers together hold as many bytes as are counted, and at most the
-- limit.
pub read_pipes-bounds :
    (max_bytes : ℕ) (reads : List (Bool × List ℕ)) (b : Captured)
    → length b.stdout + length b.stderr ≡ b.size
    → b.size ≤ max_bytes
    → (length (read_pipes max_bytes reads b).stdout + length (read_pipes max_bytes reads b).stderr
        ≡ (read_pipes max_bytes reads b).size)
      × ((read_pipes max_bytes reads b).size ≤ max_bytes)
unfolding read_pipes
read_pipes-bounds max_bytes [] b sum fits = (sum, fits)
read_pipes-bounds max_bytes ((is_stdout, bytes) ∷ reads) b sum fits =
    let (sum', fits') = capture-Counts max_bytes is_stdout bytes b (sum, fits) in
    if-Counts max_bytes (capture max_bytes is_stdout bytes b).truncated _ _ (sum', fits')
      (read_pipes-bounds max_bytes reads (capture max_bytes is_stdout bytes b) sum' fits')
