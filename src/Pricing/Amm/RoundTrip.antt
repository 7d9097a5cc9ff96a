-- ===== src/Pricing/Amm/RoundTrip.antt =====
-- Quotes there and back: the methods of `UniswapV2Pair` (pricing/amm.py) against one another.
use peanut_trade_internship.Base.{
  ℕ, ◌+◌, ◌-◌, ◌*◌, ◌≤◌, ◌<◌, ◌≡◌, inl, inr, arith, mul-pos, ◌==◌, ==_iff, Outcome-cases, ok,
  ok_injective, Bool-cases, if◌then◌else◌, subst,
}
use peanut_trade_internship.Base.Int.{
  ℤ, pos, ◌+ℤ◌, ◌-ℤ◌, ◌*ℤ◌, ◌≤ℤ◌, pos_part, +ℤ_parts, pos-*ℤ-pos, pos-sub-pos,
}
use peanut_trade_internship.Core.Token.{Token}
use peanut_trade_internship.Pricing.Amm.{
  Pair, Fraction, get_amount_out, get_amount_in, get_price_impact, get_spot_price,
  get_execution_price, reserves_for_token_in, simulate_swap, swap_output, swap_input,
}
use peanut_trade_internship.Pricing.Amm.Bounds.{
  swap_output-swap_input, swap_input-minimal, swap_back-le, swap_output-spot,
}
use peanut_trade_internship.Pricing.Amm.Swap.{
  IsValid, other_token, in_reserve, out_reserve, in_reserve-pos, out_reserve-pos, swapped,
  get_amount_out-inv, simulate_swap-swapped,
}

-- The sides of the pair that a swap leaves, seen from the other token.
in_reserve-swapped :
    (p : Pair) (a y : ℕ) (t : Token)
    → IsValid p
    → in_reserve (swapped p a y t) (other_token p t) ≡ out_reserve p t - y
in_reserve-swapped p a y t v = ground arith

out_reserve-swapped :
    (p : Pair) (a y : ℕ) (t : Token)
    → IsValid p
    → out_reserve (swapped p a y t) (other_token p t) ≡ in_reserve p t + a
out_reserve-swapped p a y t v = ground arith

fee-swapped : (p : Pair) (a y : ℕ) (t : Token) → (swapped p a y t).fee_bps ≡ p.fee_bps
fee-swapped p a y t = ground arith

get_amount_out-other :
    (p : Pair) (a : ℕ) (t : Token)
    → IsValid p
    → 0 < a
    → get_amount_out p (pos a) (other_token p t)
      ≡ ok (
          swap_output p.fee_bps a
            (in_reserve p (other_token p t))
            (out_reserve p (other_token p t)))
unfolding get_amount_out
get_amount_out-other p a t v h = ground arith

get_amount_in-inv :
    (p : Pair) (n : ℤ) (t : Token) {x : ℕ}
    → IsValid p
    → get_amount_in p n t ≡ ok x
    → let t' = other_token p t in
      (pos 1 ≤ℤ n)
      × (pos_part n < out_reserve p t')
      × (x ≡ swap_input p.fee_bps (pos_part n) (in_reserve p t') (out_reserve p t'))
unfolding get_amount_in
get_amount_in-inv p n t v h = ground arith

swap_input-pos : (f y i o : ℕ) → 0 < swap_input f y i o
unfolding swap_input
swap_input-pos f y i o = omega arith

-- Selling the output of a swap on a valid pair back to the pool that the swap leaves returns no more
-- than was paid.
pub swap_there_and_back :
    (p q : Pair) (n : ℤ) (t : Token) {y z : ℕ}
    → IsValid p
    → get_amount_out p n t ≡ ok y
    → simulate_swap p n t ≡ ok q
    → get_amount_out q (pos y) (other_token p t) ≡ ok z
    → pos z ≤ℤ n
swap_there_and_back p q n t {y} {z} v h hq hz =
    let (pn, e) = get_amount_out-inv p n t h in
    let same : q ≡ swapped p (pos_part n) y t = ok_injective hq (simulate_swap-swapped p n t v h) in
    let (_, e') =
      get_amount_out-inv (swapped p (pos_part n) y t) (pos y) (other_token p t)
        (subst (λ (r : Pair). get_amount_out r (pos y) (other_token p t) ≡ ok z) same hz) in
    let le : z ≤ pos_part n =
      rw
        (
          e',
          fee-swapped p (pos_part n) y t,
          in_reserve-swapped p (pos_part n) y t v,
          out_reserve-swapped p (pos_part n) y t v,
          e,
        )
        (swap_back-le p.fee_bps (pos_part n) (in_reserve p t) (out_reserve p t)
          (out_reserve-pos p t v)) in
    ground arith

-- Paying what `get_amount_in` of a valid pair asks for does not raise, and brings in at least the
-- amount that was wanted.
pub get_amount_out-get_amount_in :
    (p : Pair) (n : ℤ) (t : Token) {x : ℕ}
    → IsValid p
    → get_amount_in p n t ≡ ok x
    → (y : ℕ) × (get_amount_out p (pos x) (other_token p t) ≡ ok y) × (n ≤ℤ pos y)
get_amount_out-get_amount_in p n t {x} v h =
    let t' = other_token p t in
    let (pn, lt, e) = get_amount_in-inv p n t v h in
    let le : pos_part n ≤ swap_output p.fee_bps x (in_reserve p t') (out_reserve p t') = rw e (
      swap_output-swap_input p.fee_bps (pos_part n) (in_reserve p t') (out_reserve p t') v.fee_small
        lt (in_reserve-pos p t' v)) in
    (
      swap_output p.fee_bps x (in_reserve p t') (out_reserve p t'),
      get_amount_out-other p x t v
          (rw e (swap_input-pos p.fee_bps (pos_part n) (in_reserve p t') (out_reserve p t'))),
      ground arith,
    )

-- What `get_amount_in` of a valid pair asks for is at most one unit above any input that brings in
-- the amount.
pub get_amount_in_minimal :
    (p : Pair) (n m : ℤ) (t : Token) {x y : ℕ}
    → IsValid p
    → get_amount_in p n t ≡ ok x
    → get_amount_out p m (other_token p t) ≡ ok y
    → n ≤ℤ pos y
    → pos x ≤ℤ m +ℤ pos 1
get_amount_in_minimal p n m t v hx hy h =
    let t' = other_token p t in
    let (pn, lt, e) = get_amount_in-inv p n t v hx in
    let (pm, e') = get_amount_out-inv p m t' hy in
    let bound : pos_part n
        ≤ swap_output p.fee_bps (pos_part m) (in_reserve p t') (out_reserve p t') =
      rw (← e') (ground arith) in
    ground (
      arith,
      e,
      +ℤ_parts m (pos 1),
      swap_input-minimal p.fee_bps (pos_part m) (pos_part n) (in_reserve p t') (out_reserve p t')
          (omega arith) bound,
    )

-- The impact of a quote: the gap between the two prices.
abbrev gap : ℕ → ℕ → ℕ → ℕ → Fraction
gap ri ro a y = record { num = pos ro *ℤ pos a -ℤ pos y *ℤ pos ri; den = ro * a }

gap_bounds :
    (ri ro a y : ℕ)
    → 0 < ro
    → 0 < a
    → y * ri ≤ ro * a
    → let f = gap ri ro a y in (0 < f.den) × (pos 0 ≤ℤ f.num) × (f.num ≤ℤ pos f.den)
gap_bounds ri ro a y ho ha h =
    rw (pos-*ℤ-pos ro a, pos-*ℤ-pos y ri, pos-sub-pos (ro * a) (y * ri) h)
      (mul-pos ro a ho ha, omega arith, omega arith)

get_price_impact-inv :
    (p : Pair) (n : ℤ) (t : Token) {f : Fraction}
    → IsValid p
    → get_price_impact p n t ≡ ok f
    → (y : ℕ) × (get_amount_out p n t ≡ ok y)
      × (f ≡ gap (in_reserve p t) (out_reserve p t) (if y == 0 then 1 else pos_part n) y)
unfolding get_price_impact get_spot_price get_execution_price
get_price_impact-inv p n t v h = elim (Outcome-cases (get_amount_out p n t)) [
  | inl (y, quoted) ↦ (y, quoted, ground (arith, get_amount_out-inv p n t quoted))
  | inr (e, failed) ↦ absurd (ground arith)
]

impact_of_quote :
    (p : Pair) (n : ℤ) (t : Token) (y : ℕ)
    → IsValid p
    → get_amount_out p n t ≡ ok y
    → let f = gap (in_reserve p t) (out_reserve p t) (if y == 0 then 1 else pos_part n) y in
      (0 < f.den) × (pos 0 ≤ℤ f.num) × (f.num ≤ℤ pos f.den)
impact_of_quote p n t y v quoted =
    let (pn, out) = get_amount_out-inv p n t quoted in
    let i = in_reserve p t in
    let o = out_reserve p t in
    let paid : y * i ≤ pos_part n * o =
      rw out (omega (arith, swap_output-spot p.fee_bps (pos_part n) i o)) in
    gap_bounds i o (if y == 0 then 1 else pos_part n) y (out_reserve-pos p t v) (ground arith)
      (elim (Bool-cases (y == 0)) [
        | inl zero ↦ rw ((==_iff y 0).0 zero) (omega arith)
        | inr some ↦ rw some (omega (arith, paid))
      ])

-- The price impact on a valid pair is a fraction between 0 and 1.
pub get_price_impact_bounds :
    (p : Pair) (n : ℤ) (t : Token) {f : Fraction}
    → IsValid p
    → get_price_impact p n t ≡ ok f
    → (0 < f.den) × (pos 0 ≤ℤ f.num) × (f.num ≤ℤ pos f.den)
get_price_impact_bounds p n t v h =
    let (y, quoted, e) = get_price_impact-inv p n t v h in rw e (impact_of_quote p n t y v quoted)

-- A positive amount of a token of the pair has a price impact.
pub get_price_impact_total :
    (p : Pair) (n : ℕ) (t : Token) {reserves : ℕ × ℕ}
    → 0 < n
    → reserves_for_token_in p t ≡ ok reserves
    → (f : Fraction) × (get_price_impact p (pos n) t ≡ ok f)
unfolding get_price_impact get_spot_price get_execution_price get_amount_out
get_price_impact_total p n t h k = elim (Outcome-cases (get_price_impact p (pos n) t)) [
  | inl (f, e) ↦ (f, e)
  | inr (e, failed) ↦ absurd (ground arith)
]
