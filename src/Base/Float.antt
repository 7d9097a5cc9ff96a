-- ===== src/Base/Float.antt =====
-- The floating-point numbers of the source, as an interface: their operations and tests, with no
-- law. What is proved over it holds for every rounding.
use Prim.Native.Nat.{ℕ}
use mathlib.Core.Bool.{Bool}
use peanut_trade_internship.Base.Int.{ℤ}

pub record Float : Type 1 where
  pub Num : Type 0
  -- the literal m / 10 ^ n
  pub literal : ℤ → ℕ → Num
  pub add : Num → Num → Num
  pub sub : Num → Num → Num
  pub mul : Num → Num → Num
  -- by a divisor that is not 0
  pub div : Num → Num → Num
  -- `a < b`, `a <= b`
  pub lt : Num → Num → Bool
  pub le : Num → Num → Bool
  -- `a == 0`
  pub is_zero : Num → Bool
