-- ===== src/Pricing/Amm/Swap.antt =====
-- What the methods of `UniswapV2Pair` (pricing/amm.py) promise, on valid pairs.
use peanut_trade_internship.Base.{
  ℕ, ◌+◌, ◌-◌, ◌*◌, ◌≤◌, ◌<◌, false, ◌≡◌, inl, inr, arith, ok, Bool-cases, if◌then◌else◌,
}
use peanut_trade_internship.Base.Int.{ℤ, pos, ◌+ℤ◌, ◌≤ℤ◌, pos_part, pos-sub-pos}
use peanut_trade_internship.Core.Token.{Address, Token, token_eq, token_eq_refl}
use peanut_trade_internship.Pricing.Amm.{Pair, make, get_amount_out, simulate_swap, swap_output}
use peanut_trade_internship.Pricing.Amm.Bounds.{swap_output-lt, swap_output_mono, product-le}

-- What `__post_init__` lets through.
pub record IsValid (p : Pair) : Type 0 where
  pub reserve0_pos : 0 < p.reserve0
  pub reserve1_pos : 0 < p.reserve1
  pub fee_small : p.fee_bps < 10000
  pub tokens_differ : token_eq p.token0 p.token1 ≡ false

-- The other token of a pair.
abbrev pub other_token : Pair → Token → Token
other_token p t = if token_eq t p.token0 then p.token1 else p.token0

pub make-IsValid :
    (address : Address) (token0 token1 : Token) (reserve0 reserve1 fee_bps : ℤ) {p : Pair}
    → make address token0 token1 reserve0 reserve1 fee_bps ≡ ok p
    → IsValid p
unfolding make
make-IsValid address token0 token1 reserve0 reserve1 fee_bps h = ground arith

-- The reserve that a swap of `t` pays into, and the one that it pays out of.
abbrev pub in_reserve : Pair → Token → ℕ
in_reserve p t = if token_eq t p.token0 then p.reserve0 else p.reserve1

abbrev pub out_reserve : Pair → Token → ℕ
out_reserve p t = if token_eq t p.token0 then p.reserve1 else p.reserve0

pub in_reserve-pos : (p : Pair) (t : Token) → IsValid p → 0 < in_reserve p t
in_reserve-pos p t v = ground arith

pub out_reserve-pos : (p : Pair) (t : Token) → IsValid p → 0 < out_reserve p t
out_reserve-pos p t v = ground arith

-- A quote that does not raise is for a positive amount, and is the formula's.
pub get_amount_out-inv :
    (p : Pair) (n : ℤ) (t : Token) {y : ℕ}
    → get_amount_out p n t ≡ ok y
    → (pos 1 ≤ℤ n) × (y ≡ swap_output p.fee_bps (pos_part n) (in_reserve p t) (out_reserve p t))
unfolding get_amount_out
get_amount_out-inv p n t h = ground arith

-- A quote is below the reserve that it is paid from, so no swap drains a valid pair.
pub get_amount_out-lt-reserve :
    (p : Pair) (n : ℤ) (t : Token) {y : ℕ}
    → IsValid p
    → get_amount_out p n t ≡ ok y
    → y < out_reserve p t
get_amount_out-lt-reserve p n t v h =
    let (_, e) = get_amount_out-inv p n t h in
    rw e (
      swap_output-lt p.fee_bps (pos_part n) (in_reserve p t) (out_reserve p t)
        (in_reserve-pos p t v) (out_reserve-pos p t v))

-- On a valid pair a larger input of the same token never brings in less.
pub get_amount_out_mono :
    (p : Pair) (m n : ℤ) (t : Token) {x y : ℕ}
    → IsValid p
    → m ≤ℤ n
    → get_amount_out p m t ≡ ok x
    → get_amount_out p n t ≡ ok y
    → x ≤ y
get_amount_out_mono p m n t v h hx hy =
    let (px, ex) = get_amount_out-inv p m t hx in
    let (py, ey) = get_amount_out-inv p n t hy in
    rw (ex, ey)
      (swap_output_mono p.fee_bps (pos_part m) (pos_part n) (in_reserve p t) (out_reserve p t)
        (in_reserve-pos p t v) (ground arith))

-- The pair after `t` has brought in `a` and paid out `y`.
abbrev pub swapped : Pair → ℕ → ℕ → Token → Pair
swapped p a y t =
    if token_eq t p.token0
    then record p { reserve0 = p.reserve0 + a; reserve1 = p.reserve1 - y }
    else record p { reserve0 = p.reserve0 - y; reserve1 = p.reserve1 + a }

swapped-IsValid :
    (p : Pair) (a y : ℕ) (t : Token) → IsValid p → y < out_reserve p t → IsValid (swapped p a y t)
swapped-IsValid p a y t v h = ground arith

make-swapped :
    (p : Pair) (a b : ℤ)
    → IsValid p
    → pos 1 ≤ℤ a
    → pos 1 ≤ℤ b
    → make p.address p.token0 p.token1 a b (pos p.fee_bps)
      ≡ ok (record p { reserve0 = pos_part a; reserve1 = pos_part b })
unfolding make
make-swapped p a b v ha hb = ground arith

add_part : (r : ℕ) (n : ℤ) → pos 1 ≤ℤ n → pos r +ℤ n ≡ pos (r + pos_part n)
unfolding ◌+ℤ◌
add_part r n h = ground arith

pub simulate_swap-swapped :
    (p : Pair) (n : ℤ) (t : Token) {y : ℕ}
    → IsValid p
    → get_amount_out p n t ≡ ok y
    → simulate_swap p n t ≡ ok (swapped p (pos_part n) y t)
unfolding simulate_swap
simulate_swap-swapped p n t {y} v h =
    let lt = get_amount_out-lt-reserve p n t v h in
    let (pn, _) = get_amount_out-inv p n t h in
    elim (Bool-cases (token_eq t p.token0)) [
      | inl e ↦
          let yl : y < p.reserve1 = rw e at lt in
          rw (h, e, add_part p.reserve0 n pn, pos-sub-pos p.reserve1 y (omega arith))
            (make-swapped p (pos (p.reserve0 + pos_part n)) (pos (p.reserve1 - y)) v (omega arith)
              (omega arith))
      | inr e ↦
          let yl : y < p.reserve0 = rw e at lt in
          rw (h, e, add_part p.reserve1 n pn, pos-sub-pos p.reserve0 y (omega arith))
            (make-swapped p (pos (p.reserve0 - y)) (pos (p.reserve1 + pos_part n)) v (omega arith)
              (omega arith))
    ]

swapped_product :
    (p : Pair) (a : ℕ) (t : Token) {y : ℕ}
    → y ≡ swap_output p.fee_bps a (in_reserve p t) (out_reserve p t)
    → p.reserve0 * p.reserve1 ≤ (swapped p a y t).reserve0 * (swapped p a y t).reserve1
swapped_product p a t e = elim (Bool-cases (token_eq t p.token0)) [
  | inl first ↦ rw (e, first) (omega (arith, product-le p.fee_bps a p.reserve0 p.reserve1))
  | inr second ↦ rw (e, second) (omega (arith, product-le p.fee_bps a p.reserve1 p.reserve0))
]

-- Where the quote of a valid pair does not raise, the swap does not raise: its pair is valid, has
-- the input added to the reserve that is paid into and the output taken from the other one, and the
-- product of its reserves is not smaller.
pub simulate_swap_grows :
    (p : Pair) (n : ℤ) (t : Token) {y : ℕ}
    → IsValid p
    → get_amount_out p n t ≡ ok y
    → (q : Pair) × (simulate_swap p n t ≡ ok q)
      × IsValid q
      × (in_reserve q t ≡ in_reserve p t + pos_part n)
      × (out_reserve q t + y ≡ out_reserve p t)
      × (p.reserve0 * p.reserve1 ≤ q.reserve0 * q.reserve1)
simulate_swap_grows p n t {y} v h =
    let (pn, e) = get_amount_out-inv p n t h in
    (
      swapped p (pos_part n) y t,
      simulate_swap-swapped p n t v h,
      swapped-IsValid p (pos_part n) y t v (get_amount_out-lt-reserve p n t v h),
      ground (arith, token_eq_refl t),
      ground (arith, get_amount_out-lt-reserve p n t v h),
      swapped_product p (pos_part n) t e,
    )
