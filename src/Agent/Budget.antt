-- ===== src/Agent/Budget.antt =====
-- backend/app/context.py: the context of the model is cut to a budget. Abbreviating values is here, the whole
-- context in Budget/Compact. The encoder of the standard library, the log pattern and the text of a
-- value that is no text are parameters.
pub mod Compact
use Prim.Native.String.{count, ◌++◌ as ◌<>◌}
use home_ai_agent.Base.{
  ℕ, zero, suc, ◌+◌, ◌-◌, min, max, Bool, true, false, not, ◌&&◌, ◌||◌, Option, none, some, List,
  [], ◌∷◌, ◌++◌, String, ◌==◌, string_eq, nat_eq, contains, select, any, map, length, take,
  take_chars, leb, ltb, find, is_empty, Result, ok, err, type_error, attribute_error, ◌>>=◌,
  if◌then◌else◌,
}
use home_ai_agent.Json.{
  Value, null, bool, str, int, float, arr, obj, Items, nil, cons, Fields, end, field, get, get_or,
  lookup, insert, is_false, is_str, truthy, item_count,
}
use home_ai_agent.Json.Number.{pos}

unfoldable pub clipped : String → ℕ → String
clipped value limit =
    if leb (count value) limit then value else take_chars (limit - 14) value <> "…[abbreviated]"

abbrev annotations : List String
annotations =
    "title" ∷ "description" ∷ "default" ∷ "examples" ∷ "$comment" ∷ "deprecated" ∷ "readOnly"
    ∷ "writeOnly" ∷ []

abbrev named : List String
named = "properties" ∷ "patternProperties" ∷ "$defs" ∷ "definitions" ∷ "dependentSchemas" ∷ []

abbrev children : List String
children =
    "items" ∷ "additionalItems" ∷ "additionalProperties" ∷ "unevaluatedItems"
    ∷ "unevaluatedProperties" ∷ "contains" ∷ "propertyNames" ∷ "not" ∷ "if" ∷ "then" ∷ "else" ∷ []

abbrev branches : List String
branches = "allOf" ∷ "anyOf" ∷ "oneOf" ∷ "prefixItems" ∷ []

unfoldable mutual
  unfolding string_eq

  -- annotations are removed, but no names, enumerations, constants or constraints
  pub compact_schema : Value → Result Value
  compact_schema (obj fs) = schema_fields fs >>= λ gs. ok (obj gs)
  compact_schema v = ok v

  pub schema_fields : Fields → Result Fields
  schema_fields end = ok end
  schema_fields (field k v fs) =
      let rest = schema_fields fs in
      let as_names = named_value v in
      let as_child = compact_schema v in
      let as_branches = branch_value v in
      if contains annotations k
      then rest
      else ((if contains named k
            then as_names
            else if contains children k
            then as_child
            else if contains branches k
            then as_branches
            else ok v)
          >>= λ w. rest >>= λ gs. ok (field k w gs))

  -- `{name: compact_schema(child) for name, child in value.items()}`
  pub named_value : Value → Result Value
  named_value (obj fs) = named_fields fs >>= λ gs. ok (obj gs)
  named_value _ = err (attribute_error "object has no attribute 'items'")

  pub named_fields : Fields → Result Fields
  named_fields end = ok end
  named_fields (field k v fs) =
      let rest = named_fields fs in compact_schema v >>= λ w. rest >>= λ gs. ok (field k w gs)

  -- a list of schemas; another value is refused, although Python iterates over texts and keys
  pub branch_value : Value → Result Value
  branch_value (arr vs) = schema_items vs >>= λ ws. ok (arr ws)
  branch_value _ = err (type_error "object is not iterable")

  pub schema_items : Items → Result Items
  schema_items nil = ok nil
  schema_items (cons v vs) =
      let rest = schema_items vs in compact_schema v >>= λ w. rest >>= λ ws. ok (cons w ws)

unfoldable pub is_important : String → Bool
unfolding string_eq
is_important = contains (
    "error" ∷ "error_code" ∷ "state" ∷ "status" ∷ "running" ∷ "health" ∷ "healthy" ∷ "resolved"
    ∷ "reachable" ∷ "tcp_reachable" ∷ "tls_reachable" ∷ "open" ∷ "status_code" ∷ "severity"
    ∷ "used_percent" ∷ "percent" ∷ "restart_count" ∷ "oom_killed" ∷ "exit_code" ∷ "rfkill"
    ∷ "soft_blocked" ∷ "hard_blocked" ∷ "name" ∷ "container" ∷ "address" ∷ "addresses"
    ∷ "interfaces" ∷ "containers" ∷ "missing_configured_containers" ∷ [])

abbrev drop {ℓ} : {A : Type ℓ} → ℕ → List A → List A
drop zero ys = ys
drop (suc k) [] = []
drop (suc k) (y ∷ ys) = drop k ys

-- `xs[-n:]`, for a positive n
unfoldable pub last_of {ℓ} : {A : Type ℓ} → ℕ → List A → List A
last_of n xs = drop (length xs - n) xs

module _ {A : Type 0} where
  -- `chosen`: the failures are kept before the rest
  unfoldable pub choose : ℕ → List (Bool × A) → List (Bool × A)
  unfolding nat_eq
  choose item_limit xs =
      let failures = select (λ x. x.0) xs in
      if leb (length xs) item_limit
      then xs
      else if ltb item_limit (length failures)
      then (if item_limit == 1
          then take 1 failures
          else take 1 failures ++ last_of (item_limit - 1) failures)
      else take item_limit (failures ++ select (λ x. not x.0) xs)

-- the results of a list of calls, or the first exception
unfoldable pub all_ok : {A : Type 0} → List (Bool × Result A) → Result (List A)
all_ok [] = ok []
all_ok ((_, r) ∷ rs) = r >>= λ a. all_ok rs >>= λ as_. ok (a ∷ as_)

abbrev pub to_items : List Value → Items
to_items [] = nil
to_items (v ∷ vs) = cons v (to_items vs)

-- `dict.fromkeys(texts)`
unfoldable pub once : List String → List String → List String
unfolding string_eq
once seen [] = []
once seen (t ∷ ts) = if contains seen t then once seen ts else t ∷ once (t ∷ seen) ts

abbrev pub is_log_key : String → Bool
is_log_key k = contains ("lines" ∷ "entries" ∷ "output" ∷ []) k

abbrev pub updates_of : List Fields → Fields → Fields
updates_of [] result = result
updates_of (u ∷ us) result = updates_of us (merge u result)
  where
    merge : Fields → Fields → Fields
    merge end fs = fs
    merge (field k v rest) fs = merge rest (insert k v fs)

-- the encoder, the pattern and the texts of the standard library
pub record Encoder : Type 0 where
  pub size : Value → ℕ
  pub shows_error : String → Bool
  pub text_of : Value → String
  pub splitlines : String → List String

module _ (x : Encoder) where
  unfoldable pub interesting : Value → Bool
  unfolding string_eq
  interesting (obj fs) =
      is_false (get "healthy" fs)
      || is_false (get "open" fs)
      || is_false (get "reachable" fs)
      || is_str "unhealthy" (get "health" fs)
      || is_str "starting" (get "health" fs)
      || is_str "exited" (get "state" fs)
      || is_str "restarting" (get "state" fs)
      || is_str "dead" (get "state" fs)
      || is_str "DOWN" (get "state" fs)
      || is_str "inactive" (get "state" fs)
      || truthy (get "soft_blocked" fs)
      || truthy (get "hard_blocked" fs)
  interesting (str s) = x.shows_error s
  interesting v = x.shows_error (x.text_of v)

  -- the text of an entry; a message that is no text cannot be searched
  entry_text : Value → Result String
  entry_text (obj fs) = elim (get_or "message" (str "") fs) [
    | str s ↦ ok s
    | _ ↦ err (type_error "expected string or bytes-like object")
  ]
  entry_text (str s) = ok s
  entry_text v = ok (x.text_of v)

  unfoldable pub log_lines : Items → Result (List String)
  unfolding entry_text
  log_lines nil = ok []
  log_lines (cons v vs) = entry_text v >>= λ t. log_lines vs >>= λ ts. ok (t ∷ ts)

  -- the first and the last error, or else the last two lines
  excerpts : List String → List String
  excerpts lines = elim (select x.shows_error lines) [
    | [] ↦ last_of 2 lines
    | e ∷ es ↦ (e ∷ []) ++ last_of 1 (e ∷ es)
  ]

  -- the lines of a log, if the value has lines
  lines_of : Value → Option (Result (List String))
  lines_of (str s) = some (ok (x.splitlines s))
  lines_of (arr vs) = some (log_lines vs)
  lines_of _ = none

  module _ (text_limit item_limit : ℕ) where
    log_fields : String → List String → Fields
    unfolding excerpts once
    log_fields k lines =
        field k
          (arr (
            to_items (
              take (min 2 item_limit)
                (map (λ l. str (clipped l text_limit)) (once [] (excerpts lines))))))
          (field "_context_total_log_entries" (int (pos (length lines))) end)

    -- what a key that is no log adds to the result
    plain_fields : String → Value → Value → Fields
    plain_fields k v w = field k w (elim v [
      | arr vs ↦
          if ltb item_limit (item_count vs)
          then field ("_context_total_" <> k) (int (pos (item_count vs))) end
          else end
      | _ ↦ end
    ])

    entry_fields : String → Value → Result Value → Result Fields
    unfolding string_eq lines_of log_fields plain_fields
    entry_fields k v sampled_value = elim (if is_log_key k then lines_of v else none) [
      | some lines ↦ lines >>= λ ls. ok (log_fields k ls)
      | none ↦ sampled_value >>= λ w. ok (plain_fields k v w)
    ]

    -- the important keys first, of which twenty are kept
    ordered : List (Bool × Result Fields) → List (Bool × Result Fields)
    ordered entries = take 20 (select (λ y. y.0) entries ++ select (λ y. not y.0) entries)

    omitted : Fields
    omitted =
        field "_context_note" (str "Nested details omitted; original observation is persisted.") end

    unfoldable mutual
      unfolding entry_fields ordered omitted interesting

      pub sampled : Value → ℕ → Result Value
      sampled (str s) depth = ok (str (clipped s text_limit))
      sampled (arr vs) depth =
          all_ok (choose item_limit (sampled_items vs (suc depth))) >>= λ ws. ok (arr (to_items ws))
      sampled (obj fs) depth =
          let entries = sampled_entries fs (suc depth) in
          if ltb 4 depth
          then ok (obj omitted)
          else all_ok (ordered entries) >>= λ us. ok (obj (updates_of us end))
      sampled v depth = ok v

      pub sampled_items : Items → ℕ → List (Bool × Result Value)
      sampled_items nil depth = []
      sampled_items (cons v vs) depth = (interesting v, sampled v depth) ∷ sampled_items vs depth

      pub sampled_entries : Fields → ℕ → List (Bool × Result Fields)
      sampled_entries end depth = []
      sampled_entries (field k v fs) depth =
          (is_important k, entry_fields k v (sampled v depth)) ∷ sampled_entries fs depth

    -- `candidate`, if it fits
    unfoldable pub candidate : Fields → Result (Option Fields)
    candidate result = sampled (obj result) 0 >>= λ v. elim v [
      | obj fs ↦ ok (some (insert "_context_abbreviated" (bool true) fs))
      | _ ↦ ok none
    ]

  -- the first candidate that fits, from the widest limits to the narrowest
  unfoldable pub first_fitting : ℕ → Fields → List (ℕ × ℕ) → Result (Option Fields)
  first_fitting budget result [] = ok none
  first_fitting budget result ((text_limit, item_limit) ∷ limits) =
      candidate text_limit item_limit result >>= λ o. elim o [
        | some fs ↦
            if leb (x.size (obj fs)) budget
            then ok (some fs)
            else first_fitting budget result limits
        | none ↦ first_fitting budget result limits
      ]

  important_line : Items → Option String
  important_line nil = none
  important_line (cons v vs) =
      let rest = important_line vs in
      elim v [ str s ↦ if x.shows_error s then some s else rest | _ ↦ rest ]

  unfoldable pub error_line : ℕ → Fields → Option Fields
  unfolding important_line string_eq
  error_line budget result = elim (get "lines" result) [
    | arr vs ↦ elim (important_line vs) [
      | some s ↦
          let fs =
            field "lines" (arr (cons (str (clipped s (max 20 (budget - 55)))) nil))
              (field "_context_abbreviated" (bool true) end) in
          if not (s == "") && leb (x.size (obj fs)) budget then some fs else none
      | none ↦ none
    ]
    | _ ↦ none
  ]

  unfoldable pub compact_result : Fields → ℕ → String → Result Fields
  compact_result result budget summary =
      if leb (x.size (obj result)) budget
      then ok result
      else (first_fitting budget result ((220, 6) ∷ (140, 4) ∷ (90, 2) ∷ (60, 1) ∷ []) >>= λ o.
          elim o [
            | some fs ↦ ok fs
            | none ↦ elim (error_line budget result) [
              | some fs ↦ ok fs
              | none ↦ ok (field "_context_summary" (str (clipped summary (budget - 40))) end)
            ]
          ])
