-- ===== src/Core/Amount/Laws.antt =====
-- Laws of the arithmetic of `TokenAmount` (core/types.py).
use native.Mathlib.Nat.{mul-div_left, one-le-pow}
use peanut_trade_internship.Base.{
  ℕ, ◌^◌, ◌<◌, String, Option, none, some, ◌≡◌, refl, arith, ok, ◌>>=◌, str_eq_iff,
}
use peanut_trade_internship.Base.Int.{pos, ◌+ℤ◌, ◌-ℤ◌, ◌*ℤ◌, ◌≤ℤ◌, +ℤ_parts, -ℤ_parts, eq_of_parts}
use peanut_trade_internship.Core.Amount.{
  TokenAmount, from_human, human, add, sub, merge_symbol, trunc_div,
}

trunc_mul : (n d : ℕ) → 0 < d → trunc_div (pos n *ℤ pos d) d ≡ pos n
unfolding ◌*ℤ◌
trunc_mul n d h = ground (arith, mul-div_left n h)

-- Printing an amount as a decimal and reading it back with the same decimals gives the amount.
pub from_human-human :
    (n decimals : ℕ) (symbol : Option String)
    → let a : TokenAmount = record { raw = pos n; decimals = decimals; symbol = symbol } in
      from_human (human a) decimals symbol ≡ ok a
unfolding from_human human
from_human-human n decimals symbol =
    ground (arith, trunc_mul n (10 ^ decimals) (one-le-pow decimals 10 (omega arith)))

merge_same : (s t : Option String) → s ≡ t → merge_symbol s t ≡ s
merge_same none none h = refl
merge_same (some s) (some t) h = ground (arith, str_eq_iff s t)
merge_same none (some t) h = cc
merge_same (some s) none h = cc

merge_absorb : (s t : Option String) → s ≡ t → merge_symbol (merge_symbol s t) t ≡ s
merge_absorb s t h = rw (merge_same s t h) (merge_same s t h)

-- Subtracting what was added gives the first amount back, with the decimals of both.
pub sub-add :
    (a b : TokenAmount)
    → a.decimals ≡ b.decimals
    → pos 0 ≤ℤ a.raw
    → a.symbol ≡ b.symbol
    → (add a b >>= λ c. sub c b) ≡ ok a
unfolding add sub
sub-add a b same nonneg sym = ground (
  arith,
  +ℤ_parts a.raw b.raw,
  -ℤ_parts (a.raw +ℤ b.raw) b.raw,
  eq_of_parts (a.raw +ℤ b.raw -ℤ b.raw) a.raw,
  merge_absorb a.symbol b.symbol sym,
)
