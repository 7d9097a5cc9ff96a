-- ===== src/Pricing/AmmV3/Quotes.antt =====
-- What `UniswapV3Pool` (pricing/amm_v3.py) promises of its quotes.
use native.Mathlib.Nat.{le-div_iff_mul-le, div-mul-le_self, mul-le-mul_left, lt_of_mul-lt-mul_right}
use peanut_trade_internship.Base.{
  ℕ, ◌+◌, ◌-◌, ◌*◌, ◌/◌, ◌≤◌, ◌<◌, false, true, ◌≡◌, inl, inr, Bool-cases, mul-pos, arith, ok, suc,
  zero, if◌then◌else◌,
}
use peanut_trade_internship.Base.Int.{ℤ, ◌≤ℤ◌, pos_part}
use peanut_trade_internship.Core.Token.{Address, Token, token_eq}
use peanut_trade_internship.Pricing.AmmV3.{
  Pool, q96, make, get_amount_out, zero_for_one, one_for_zero, net_input,
}
use peanut_trade_internship.Pricing.AmmV3.Bounds.{
  net_input_mono, zero_for_one_mono, one_for_zero_mono, zero_for_one-le-reserve,
  one_for_zero-le-reserve,
}

-- What `__post_init__` lets through.
pub record IsValid (p : Pool) : Type 0 where
  pub price_pos : 0 < p.sqrt_price_x96
  pub liquidity_pos : 0 < p.liquidity
  pub fee_le : p.fee_ppm ≤ 10000
  pub tokens_differ : token_eq p.token0 p.token1 ≡ false

pub make-IsValid :
    (address : Address) (token0 token1 : Token) (sqrt_price liquidity fee tick : ℤ) {p : Pool}
    → make address token0 token1 sqrt_price liquidity fee tick ≡ ok p
    → IsValid p
unfolding make
make-IsValid address token0 token1 sqrt_price liquidity fee tick h = ground arith

-- The formula for the direction of `t`.
abbrev pub output : Pool → Token → ℕ → ℕ
output p t n =
    if token_eq t p.token0
    then zero_for_one q96 p.sqrt_price_x96 p.liquidity n
    else one_for_zero q96 p.sqrt_price_x96 p.liquidity n

get_amount_out-inv :
    (p : Pool) (n : ℤ) (t : Token) {y : ℕ}
    → get_amount_out p n t ≡ ok y
    → y ≡ output p t (net_input p.fee_ppm (pos_part n))
unfolding get_amount_out
get_amount_out-inv p n t h = ground arith

output_mono : (p : Pool) (t : Token) (m n : ℕ) → IsValid p → m ≤ n → output p t m ≤ output p t n
output_mono p t m n v h = elim (Bool-cases (token_eq t p.token0)) [
  | inl first ↦ rw first (zero_for_one_mono q96 p.sqrt_price_x96 p.liquidity m n v.liquidity_pos h)
  | inr second ↦ rw second (one_for_zero_mono q96 p.sqrt_price_x96 p.liquidity m n v.price_pos h)
]

-- On a valid pool a larger input of the same token never brings in less.
pub v3_get_amount_out_mono :
    (p : Pool) (m n : ℤ) (t : Token) {x y : ℕ}
    → IsValid p
    → m ≤ℤ n
    → get_amount_out p m t ≡ ok x
    → get_amount_out p n t ≡ ok y
    → x ≤ y
v3_get_amount_out_mono p m n t v h hx hy =
    rw (get_amount_out-inv p m t hx, get_amount_out-inv p n t hy)
      (output_mono p t _ _ v (net_input_mono p.fee_ppm (pos_part m) (pos_part n) (ground arith)))

-- A quote of a valid pool is at most the virtual reserve of the token that is paid: liquidity * sqrt_price / 2 ^ 96
-- of token1, and liquidity * 2 ^ 96 / sqrt_price of token0.
pub v3_get_amount_out_le_reserve :
    (p : Pool) (n : ℤ) (t : Token) {y : ℕ}
    → IsValid p
    → get_amount_out p n t ≡ ok y
    → (token_eq t p.token0 ≡ true → y ≤ p.liquidity * p.sqrt_price_x96 / q96)
      × (token_eq t p.token0 ≡ false → y * p.sqrt_price_x96 ≤ p.liquidity * q96)
v3_get_amount_out_le_reserve p n t v h =
    let net = net_input p.fee_ppm (pos_part n) in
    let quoted = get_amount_out-inv p n t h in
    (
      λ first. rw (quoted, first) (zero_for_one-le-reserve q96 p.sqrt_price_x96 p.liquidity net),
      λ second.
          rw (quoted, second)
            (one_for_zero-le-reserve q96 p.sqrt_price_x96 p.liquidity net v.price_pos),
    )

div_unique : (a k n : ℕ) → 0 < k → n * k ≤ a → a < (n + 1) * k → a / k ≡ n
div_unique a k n hk lo hi = omega (
  arith,
  (le-div_iff_mul-le hk).1 lo,
  lt_of_mul-lt-mul_right k {m = a / k} {n = n + 1} (omega (arith, div-mul-le_self a k)),
)

p_le : (p n c : ℕ) → n ≤ c → p * n ≤ p * c
p_le p n c h = mul-le-mul_left p h

root_above : (p c n : ℕ) → n < c → p * (c * suc p + n) ≤ c * suc p * suc p
root_above p c n h = omega (arith, p_le p n c (omega arith))

root_below : (p c n : ℕ) → 0 < n → c * suc p * suc p < (p + 1) * (c * suc p + n)
root_below p c n h = omega (arith, mul-pos (suc p) n (omega arith) h)

-- At a price of 1 and with the liquidity c * q, every net input below c pays out c: rounding the
-- new root price down favours the trader.
zero_for_one_overpays : (q c n : ℕ) → 0 < n → n < c → 0 < q → zero_for_one q q (c * q) n ≡ c
unfolding zero_for_one
zero_for_one_overpays zero c n hn hc hq = omega arith
zero_for_one_overpays (suc p) c n hn hc hq =
    let extra : (n * suc p + suc p - 1) / suc p ≡ n =
      div_unique (n * suc p + suc p - 1) (suc p) n hq (omega arith) (omega arith) in
    let root : c * suc p * suc p / (c * suc p + n) ≡ p =
      div_unique (c * suc p * suc p) (c * suc p + n) p (omega arith) (root_above p c n hc)
        (root_below p c n hn) in
    let step : suc p - p ≡ 1 = omega arith in
    rw (extra, root, step) (div_unique (c * suc p * 1) (suc p) c hq (omega arith) (omega arith))
