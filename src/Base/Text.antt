-- ===== src/Base/Text.antt =====
-- The string methods of the source that the libraries lack.
use Prim.Native.Nat.{ℕ, zero, suc, ◌+◌}
use Prim.Native.Char.{Char, code}
use Prim.Native.String.{String}
use mathlib.Core.Path.{◌≡◌, refl}
use mathlib.Core.Bool.{Bool, true, false, ◌||◌, ◌&&◌}
use mathlib.Core.List.{List, [], ◌∷◌}
use home_ai_agent.Base.Equality.{if◌then◌else◌, leb, ◌==◌, string_eq, nat_eq}

-- `s.endswith(t)`
unfoldable pub ends_with : String → String → Bool
unfolding string_eq
ends_with String.[] t = String.[] == t
ends_with (String.◌∷◌ c s) t = (String.◌∷◌ c s) == t || ends_with s t

abbrev push_char : Char → List String → List String
push_char c [] = (String.◌∷◌ c String.[]) ∷ []
push_char c (s ∷ rest) = (String.◌∷◌ c s) ∷ rest

-- `s.split('.')`: the separator is one character, and the empty text gives one empty part
unfoldable pub split_dots : String → List String
unfolding nat_eq
split_dots String.[] = String.[] ∷ []
split_dots (String.◌∷◌ c s) =
    let rest = split_dots s in if code c == b'.' then String.[] ∷ rest else push_char c rest

test_split : split_dots "state.running" ≡ "state" ∷ "running" ∷ []
unfolding split_dots
test_split = refl

test_ends : ends_with "start_container" "_container" ≡ true
unfolding ends_with
test_ends = refl

-- the code points of a text
unfoldable pub codes : String → List ℕ
codes String.[] = []
codes (String.◌∷◌ c s) = code c ∷ codes s

-- `text.lower()`, for ASCII
unfoldable pub lower : List ℕ → List ℕ
lower [] = []
lower (c ∷ cs) = (if leb b'A' c && leb c b'Z' then c + 32 else c) ∷ lower cs

abbrev is_prefix : List ℕ → List ℕ → Bool
is_prefix [] ys = true
is_prefix (x ∷ xs) [] = false
is_prefix (x ∷ xs) (y ∷ ys) = x == y && is_prefix xs ys

-- `part in text`
unfoldable pub is_infix : List ℕ → List ℕ → Bool
unfolding nat_eq
is_infix xs [] = is_prefix xs []
is_infix xs (y ∷ ys) = is_prefix xs (y ∷ ys) || is_infix xs ys

-- `any(marker in text for marker in markers)` on a lower-cased text
unfoldable pub mentions : List String → String → Bool
unfolding codes lower is_infix
mentions [] text = false
mentions (m ∷ ms) text = is_infix (codes m) (lower (codes text)) || mentions ms text

-- `text[:n]`, in characters
unfoldable pub take_chars : ℕ → String → String
take_chars zero s = String.[]
take_chars (suc n) String.[] = String.[]
take_chars (suc n) (String.◌∷◌ c s) = String.◌∷◌ c (take_chars n s)
