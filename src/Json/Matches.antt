-- ===== src/Json/Matches.antt =====
-- `matches` of backend/app/service.py: an administrator's expectation against a tool result.
-- Python's `int` on a path part is modelled for ASCII digits.
use Prim.Native.Char.{code}
use mathlib.Core.List.{reverse}
use home_ai_agent.Base.{
  ℕ, zero, suc, ◌+◌, ◌-◌, ◌*◌, ◌≡◌, ap, Bool, true, false, ◌&&◌, ◌||◌, Option, none, some, List, [],
  ◌∷◌, String, ◌==◌, if◌then◌else◌, leb, ltb, nat_eq, string_eq, split_dots, arith,
}
use home_ai_agent.Json.Number.{ℤ, pos, negsuc, int_eq}
use home_ai_agent.Json.{
  Value, null, bool, int, float, str, arr, obj, Items, Fields, end, field, lookup, nth, item_count,
  value_eq,
}

codes : String → List ℕ
codes String.[] = []
codes (String.◌∷◌ c s) = code c ∷ codes s

is_space : ℕ → Bool
is_space c = c == 32 || (leb 9 c && leb c 13) || (leb 28 c && leb c 31)

strip_left : List ℕ → List ℕ
unfolding is_space nat_eq
strip_left [] = []
strip_left (c ∷ cs) = let rest = strip_left cs in if is_space c then rest else c ∷ cs

-- digits with single underscores between them; the flag is set behind a digit
digits : ℕ → Bool → List ℕ → Option ℕ
unfolding nat_eq
digits acc after [] = if after then some acc else none
digits acc after (c ∷ cs) =
    let more = digits (acc * 10 + (c - 48)) true cs in
    let joined = digits acc false cs in
    if leb 48 c && leb c 57 then more else if c == b'_' && after then joined else none

negated : ℕ → ℤ
negated zero = pos 0
negated (suc n) = negsuc n

signed : List ℕ → Option ℤ
unfolding digits negated nat_eq
signed [] = none
signed (c ∷ cs) =
    if c == b'-'
    then elim (digits 0 false cs) [ none ↦ none | some n ↦ some (negated n) ]
    else if c == b'+'
    then elim (digits 0 false cs) [ none ↦ none | some n ↦ some (pos n) ]
    else elim (digits 0 false (c ∷ cs)) [ none ↦ none | some n ↦ some (pos n) ]

-- `int(s)`; `none` is a `ValueError`
unfoldable pub int_of : String → Option ℤ
unfolding codes strip_left signed
int_of s = signed (reverse (strip_left (reverse (strip_left (codes s)))))

-- `xs[i]`, a negative index counting from the end; `none` is an `IndexError`
unfoldable pub index : Items → ℤ → Option Value
index xs (pos n) = nth xs n
index xs (negsuc n) = if ltb n (item_count xs) then nth xs (item_count xs - suc n) else none

-- one round of the inner loop; `none` stands for the exceptions that it catches
unfoldable pub descend : Value → String → Option Value
unfolding int_of index
descend (arr xs) key = elim (int_of key) [ none ↦ none | some i ↦ index xs i ]
descend (obj fs) key = lookup key fs
descend _ key = none

unfoldable pub walk : List String → Value → Option Value
unfolding descend
walk [] v = some v
walk (key ∷ keys) v = elim (descend v key) [ none ↦ none | some w ↦ walk keys w ]

-- `isinstance(v, bool)`
abbrev pub is_bool : Value → Bool
is_bool (bool _) = true
is_bool _ = false

abbrev same_bool : Bool → Bool → Bool
same_bool true b = b
same_bool false true = false
same_bool false false = true

-- the test on the value that the path leads to
unfoldable pub meets : Option Value → Value → Bool
unfolding value_eq
meets none target = false
meets (some v) target = value_eq v target && same_bool (is_bool target) (is_bool v)

unfoldable pub matches : Value → Fields → Bool
matches result end = true
matches result (field path target rest) =
    meets (walk (split_dots path) result) target && matches result rest

-- the targets for which Python's `==` leaves one value: `None`, flags and texts
abbrev pub is_exact : Value → Bool
is_exact null = true
is_exact (bool _) = true
is_exact (str _) = true
is_exact _ = false

meets-exact : (v t : Value) → is_exact t ≡ true → meets (some v) t ≡ true → v ≡ t
unfolding meets value_eq
meets-exact v null e h = ground arith
meets-exact v (bool true) e h = ground arith
meets-exact v (bool false) e h = ground arith
meets-exact v (str t) e h = ground arith
meets-exact v (int z) e h = cc
meets-exact v (float z) e h = cc
meets-exact v (arr xs) e h = cc
meets-exact v (obj fs) e h = cc

matches-lookup :
    (r : Value) (e : Fields) (path : String) (target : Value)
    → lookup path e ≡ some target
    → matches r e ≡ true
    → meets (walk (split_dots path) r) target ≡ true
unfolding matches
matches-lookup r end path target l h = cc
matches-lookup r (field k v e) path target l h = ground (arith, matches-lookup r e path target)

-- An expected flag, text or null is met only by that very value at its path: a missing path fails,
-- and the numbers 1 and 0 do not pass for true and false.
pub matches-exact :
    (r : Value) (e : Fields) (path : String) (target : Value)
    → is_exact target ≡ true
    → lookup path e ≡ some target
    → matches r e ≡ true
    → walk (split_dots path) r ≡ some target
unfolding meets
matches-exact r e path target x l h =
    go (walk (split_dots path) r) (matches-lookup r e path target l h)
  where
    go : (o : Option Value) → meets o target ≡ true → o ≡ some target
    go none m = cc
    go (some v) m = ap some (meets-exact v target x m)
