-- ===== src/Base/Text.antt =====
-- Python's `lower` and `in` on texts, over their code points. `lower` is that of ASCII.
use Prim.Native.Nat.{ℕ, ◌+◌}
use Prim.Native.Char.{code}
use Prim.Native.String.{String}
use mathlib.Core.Bool.{Bool, true, false, ◌&&◌, ◌||◌}
use mathlib.Core.List.{List, [], ◌∷◌, map}
use peanut_trade_internship.Base.Tests.{leb, ◌==◌, if◌then◌else◌}

abbrev pub codes : String → List ℕ
codes String.[] = []
codes (String.◌∷◌ c s) = code c ∷ codes s

abbrev lower_code : ℕ → ℕ
lower_code c = if leb b'A' c && leb c b'Z' then c + 32 else c

is_prefix : List ℕ → List ℕ → Bool
is_prefix [] ys = true
is_prefix (x ∷ xs) [] = false
is_prefix (x ∷ xs) (y ∷ ys) = x == y && is_prefix xs ys

occurs : List ℕ → List ℕ → Bool
unfolding is_prefix
occurs xs [] = is_prefix xs []
occurs xs (y ∷ ys) = is_prefix xs (y ∷ ys) || occurs xs ys

-- `pattern in text.lower()`
unfoldable pub in_lower : String → String → Bool
unfolding occurs
in_lower pattern text = occurs (codes pattern) (map lower_code (codes text))

-- `text.startswith(pattern)`
unfoldable pub starts_with : String → String → Bool
unfolding is_prefix
starts_with pattern text = is_prefix (codes pattern) (codes text)

-- `s + t`
abbrev pub append : String → String → String
append String.[] t = t
append (String.◌∷◌ c s) t = String.◌∷◌ c (append s t)

-- `text.split("/")[0]`
abbrev pub before_slash : String → String
before_slash String.[] = String.[]
before_slash (String.◌∷◌ c s) = if code c == b'/' then String.[] else String.◌∷◌ c (before_slash s)

-- `text.split("/")[1]`, of a text with one slash
abbrev pub after_slash : String → String
after_slash String.[] = String.[]
after_slash (String.◌∷◌ c s) = if code c == b'/' then s else after_slash s
