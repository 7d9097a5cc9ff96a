-- ===== src/Pricing/AmmV3/Bounds.antt =====
-- What the swap arithmetic of pricing/amm_v3.py promises.
use native.Mathlib.Nat.{
  div-zero, le_of_mul-le-mul_right, div-mul-le_self, le-div_iff_mul-le, mul-le-mul_left,
  mul-le-mul_right,
}
use peanut_trade_internship.Base.{
  ℕ, ◌+◌, ◌-◌, ◌*◌, ◌/◌, ◌≤◌, ◌<◌, ◌≡◌, subst, zero, suc, arith, mul-pos,
}
use peanut_trade_internship.Pricing.AmmV3.{zero_for_one, one_for_zero, net_input, fee_denom}

div_mono : (a b k : ℕ) → a ≤ b → a / k ≤ b / k
div_mono a b zero h = omega (arith, div-zero a)
div_mono a b (suc k) h =
    (le-div_iff_mul-le {k = suc k} (omega arith)).1 (omega (arith, div-mul-le_self a (suc k)))

div_antitone : (a k l : ℕ) → 0 < k → k ≤ l → a / l ≤ a / k
div_antitone a k l hk h =
    (le-div_iff_mul-le hk).1 (omega (arith, div-mul-le_self a l, mul-le-mul_left (a / l) h))

-- At most the input is left after the fee.
pub net_input-le : (fee a : ℕ) → net_input fee a ≤ a
net_input-le fee a =
    omega (arith, mul-le-mul_left {m = fee_denom - fee} {n = fee_denom} a (omega arith))

pub net_input_mono : (fee a b : ℕ) → a ≤ b → net_input fee a ≤ net_input fee b
net_input_mono fee a b h =
    div_mono (a * (fee_denom - fee)) (b * (fee_denom - fee)) fee_denom
      (mul-le-mul_right (fee_denom - fee) h)

-- The pool pays no more of token1 than its virtual reserve, liquidity * sqrt / q.
pub zero_for_one-le-reserve : (q sqrt l n : ℕ) → zero_for_one q sqrt l n ≤ l * sqrt / q
unfolding zero_for_one
zero_for_one-le-reserve q sqrt l n = div_mono _ (l * sqrt) q (mul-le-mul_left l (omega arith))

pub zero_for_one_mono :
    (q sqrt l m n : ℕ) → 0 < l → m ≤ n → zero_for_one q sqrt l m ≤ zero_for_one q sqrt l n
unfolding zero_for_one
zero_for_one_mono q sqrt l m n hl h =
    let x = (m * sqrt + q - 1) / q in
    let y = (n * sqrt + q - 1) / q in
    let grows : x ≤ y =
      div_mono (m * sqrt + q - 1) (n * sqrt + q - 1) q (omega (arith, mul-le-mul_right sqrt h)) in
    div_mono _ _ q (
      mul-le-mul_left l
        (omega (arith, div_antitone (l * sqrt) (l + x) (l + y) (omega arith) (omega arith))))

-- What a rise of the root price by `d` pays of token0.
pay : ℕ → ℕ → ℕ → ℕ → ℕ
pay q s l d = l * d * q / (s * (s + d))

pay_le : (q s l d : ℕ) → 0 < s → pay q s l d * s ≤ l * q
unfolding pay
pay_le q s l d hs =
    le_of_mul-le-mul_right {k = s + d} (omega (arith, div-mul-le_self (l * d * q) (s * (s + d))))
      (omega arith)

pay_mono_add : (q s l d e : ℕ) → 0 < s → pay q s l d ≤ pay q s l (d + e)
pay_mono_add q s l d e hs =
    unfold pay in
    (le-div_iff_mul-le {k = s * (s + (d + e))} (mul-pos s (s + (d + e)) hs (omega arith))).1 (
      omega
        (arith, div-mul-le_self (l * d * q) (s * (s + d)), mul-le-mul_right e (pay_le q s l d hs)))

pay_mono : (q s l c d : ℕ) → 0 < s → c ≤ d → pay q s l c ≤ pay q s l d
pay_mono q s l c d hs h =
    let e : c + (d - c) ≡ d = omega arith in
    subst (λ (n : ℕ). pay q s l c ≤ pay q s l n) e (pay_mono_add q s l c (d - c) hs)

one_for_zero-pay : (q s l n : ℕ) → one_for_zero q s l n ≡ pay q s l (n * q / l)
unfolding one_for_zero pay
one_for_zero-pay q s l n = let e : s + n * q / l - s ≡ n * q / l = omega arith in rw e

-- The pool pays no more of token0 than its virtual reserve, liquidity * q / sqrt.
pub one_for_zero-le-reserve : (q sqrt l n : ℕ) → 0 < sqrt → one_for_zero q sqrt l n * sqrt ≤ l * q
one_for_zero-le-reserve q sqrt l n hs =
    rw (one_for_zero-pay q sqrt l n) (pay_le q sqrt l (n * q / l) hs)

pub one_for_zero_mono :
    (q sqrt l m n : ℕ) → 0 < sqrt → m ≤ n → one_for_zero q sqrt l m ≤ one_for_zero q sqrt l n
one_for_zero_mono q sqrt l m n hs h =
    rw (one_for_zero-pay q sqrt l m, one_for_zero-pay q sqrt l n)
      (pay_mono q sqrt l (m * q / l) (n * q / l) hs
        (div_mono (m * q) (n * q) l (mul-le-mul_right q h)))
