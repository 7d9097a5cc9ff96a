-- ===== src/Core/Amount.antt =====
-- `TokenAmount` of core/types.py. `raw` is a Python int. A finite `Decimal` is its signed
-- coefficient and the number of its decimal places; products are exact, as they are while they fit
-- the 28 digits of the default decimal context.
pub mod Laws
use peanut_trade_internship.Base.{
  ℕ, ◌*◌, ◌/◌, ◌^◌, String, Bool, true, false, not, ◌&&◌, ◌||◌, Option, none, some, ◌==◌, str_eq,
  if◌then◌else◌, Outcome, ok, raised, ◌>>=◌, ◌>>◌, raise_if,
}
use peanut_trade_internship.Base.Int.{
  ℤ, pos, negsuc, ◌+ℤ◌, ◌-ℤ◌, ◌*ℤ◌, neg, ltb_ℤ, eqb_ℤ, pos_part, neg_part,
}

-- coefficient / 10 ^ places
pub record Decimal : Type 0 where
  pub coefficient : ℤ
  pub places : ℕ

pub record TokenAmount : Type 0 where
  pub raw : ℤ
  pub decimals : ℕ
  pub symbol : Option String

pub data AmountError : Type 0 where
  negative_amount different_decimals negative_result : AmountError

-- `int(x)` of a quotient rounds towards zero.
abbrev pub trunc_div : ℤ → ℕ → ℤ
trunc_div (pos n) d = pos (n / d)
trunc_div (negsuc n) d = neg (pos (neg_part (negsuc n) / d))

pub from_human : Decimal → ℕ → Option String → Outcome AmountError TokenAmount
from_human d decimals symbol = do
  raise_if (ltb_ℤ d.coefficient (pos 0)) AmountError.negative_amount
  ok (record {
    raw = trunc_div (d.coefficient *ℤ pos (10 ^ decimals)) (10 ^ d.places);
    decimals = decimals;
    symbol = symbol;
  })

pub human : TokenAmount → Decimal
human a = record { coefficient = a.raw; places = a.decimals }

abbrev option_str_eq : Option String → Option String → Bool
option_str_eq none none = true
option_str_eq (some s) (some t) = str_eq s t
option_str_eq _ _ = false

-- `self.symbol if self.symbol == other.symbol else None`
abbrev merge_symbol : Option String → Option String → Option String
merge_symbol s t = if option_str_eq s t then s else none

pub add : TokenAmount → TokenAmount → Outcome AmountError TokenAmount
add a b = do
  raise_if (not (a.decimals == b.decimals)) AmountError.different_decimals
  ok (record {
    raw = a.raw +ℤ b.raw;
    decimals = a.decimals;
    symbol = merge_symbol a.symbol b.symbol;
  })

pub sub : TokenAmount → TokenAmount → Outcome AmountError TokenAmount
sub a b = do
  raise_if (not (a.decimals == b.decimals)) AmountError.different_decimals
  raise_if (ltb_ℤ a.raw b.raw) AmountError.negative_result
  ok (record {
    raw = a.raw -ℤ b.raw;
    decimals = a.decimals;
    symbol = merge_symbol a.symbol b.symbol;
  })

-- `__mul__` by an int.
pub mul : TokenAmount → ℤ → TokenAmount
mul a factor = record a { raw = a.raw *ℤ factor }

-- `__mul__` by a `Decimal`.
pub mul_decimal : TokenAmount → Decimal → TokenAmount
mul_decimal a factor = record a {
  raw = trunc_div (a.raw *ℤ factor.coefficient) (10 ^ factor.places);
}

-- `__eq__` looks at the amount and the decimals, not at the symbol.
pub amount_eq : TokenAmount → TokenAmount → Bool
amount_eq a b = eqb_ℤ a.raw b.raw && a.decimals == b.decimals

pub lt : TokenAmount → TokenAmount → Outcome AmountError Bool
lt a b = do
  raise_if (not (a.decimals == b.decimals)) AmountError.different_decimals
  ok (ltb_ℤ a.raw b.raw)

-- `__le__`: `self == other or self < other`, where the second is looked at only if needed.
pub le : TokenAmount → TokenAmount → Outcome AmountError Bool
unfolding amount_eq lt
le a b = if amount_eq a b then ok true else lt a b
