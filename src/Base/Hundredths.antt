-- ===== src/Base/Hundredths.antt =====
-- Floats rounded to whole hundredths, at which the theorems over any floats are tried out.
use Prim.Native.Nat.{◌*◌, ◌/◌, ◌^◌}
use peanut_trade_internship.Base.Int.{ℤ, pos, pos_part, ◌+ℤ◌, ◌-ℤ◌, ltb_ℤ, leb_ℤ, eqb_ℤ}
use peanut_trade_internship.Base.Float.{Float}

abbrev pub hundredths : Float
hundredths = record {
  Num = ℤ;
  literal = λ m n. pos (100 * pos_part m / 10 ^ n);
  add = λ a b. a +ℤ b;
  sub = λ a b. a -ℤ b;
  mul = λ a b. pos (pos_part a * pos_part b / 100);
  div = λ a b. pos (100 * pos_part a / pos_part b);
  lt = λ a b. ltb_ℤ a b;
  le = λ a b. leb_ℤ a b;
  is_zero = λ a. eqb_ℤ a (pos 0);
}
