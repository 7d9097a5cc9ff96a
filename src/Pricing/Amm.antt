-- ===== src/Pricing/Amm.antt =====
-- `UniswapV2Pair` of pricing/amm.py. Amounts and reserves are Python ints: an argument is an
-- integer, and what a valid pair holds is a natural number. `Decimal` quotients are exact fractions.
pub mod Bounds
pub mod Swap
pub mod RoundTrip
mod Tests
use peanut_trade_internship.Base.{
  ℕ, ◌+◌, ◌-◌, ◌*◌, ◌/◌, Bool, true, ◌==◌, not, ◌&&◌, ◌||◌, leb, if◌then◌else◌, Outcome, ok, raised,
  ◌>>=◌, ◌>>◌, raise_if,
}
use peanut_trade_internship.Base.Int.{ℤ, pos, negsuc, ◌+ℤ◌, ◌-ℤ◌, ◌*ℤ◌, leb_ℤ, ltb_ℤ, pos_part}
use peanut_trade_internship.Core.Token.{Address, Token, token_eq}

pub record Pair : Type 0 where
  pub address : Address
  pub token0 : Token
  pub token1 : Token
  pub reserve0 : ℕ
  pub reserve1 : ℕ
  pub fee_bps : ℕ

pub data PairError : Type 0 where
  bad_reserves bad_fee same_token bad_amount not_in_pair insufficient_liquidity : PairError

-- The constructor with its `__post_init__`.
pub make : Address → Token → Token → ℤ → ℤ → ℤ → Outcome PairError Pair
make address token0 token1 reserve0 reserve1 fee_bps = do
  raise_if (leb_ℤ reserve0 (pos 0) || leb_ℤ reserve1 (pos 0)) bad_reserves
  raise_if (not (leb_ℤ (pos 0) fee_bps && ltb_ℤ fee_bps (pos 10000))) bad_fee
  raise_if (token_eq token0 token1) same_token
  ok (record {
    address = address;
    token0 = token0;
    token1 = token1;
    reserve0 = pos_part reserve0;
    reserve1 = pos_part reserve1;
    fee_bps = pos_part fee_bps;
  })

-- The reserves on the input's and on the output's side.
unfoldable pub reserves_for_token_in : Pair → Token → Outcome PairError (ℕ × ℕ)
reserves_for_token_in p token_in =
    if token_eq token_in p.token0
    then ok (p.reserve0, p.reserve1)
    else if token_eq token_in p.token1
    then ok (p.reserve1, p.reserve0)
    else raised not_in_pair

-- The last four lines of `get_amount_out`, on what is read from the pair.
unfoldable pub swap_output : (fee_bps amount_in reserve_in reserve_out : ℕ) → ℕ
swap_output fee_bps amount_in reserve_in reserve_out =
    let amount_in_with_fee = amount_in * (10000 - fee_bps) in
    let numerator = amount_in_with_fee * reserve_out in
    let denominator = reserve_in * 10000 + amount_in_with_fee in numerator / denominator

pub get_amount_out : Pair → ℤ → Token → Outcome PairError ℕ
unfolding reserves_for_token_in
get_amount_out p amount_in token_in = do
  raise_if (leb_ℤ amount_in (pos 0)) bad_amount
  (reserve_in, reserve_out) ← reserves_for_token_in p token_in
  ok (swap_output p.fee_bps (pos_part amount_in) reserve_in reserve_out)

-- The last three lines of `get_amount_in`.
unfoldable pub swap_input : (fee_bps amount_out reserve_in reserve_out : ℕ) → ℕ
swap_input fee_bps amount_out reserve_in reserve_out =
    let numerator = reserve_in * amount_out * 10000 in
    let denominator = (reserve_out - amount_out) * (10000 - fee_bps) in numerator / denominator + 1

-- The reserves for a wanted output token.
abbrev reserves_for_token_out : Pair → Token → Outcome PairError (ℕ × ℕ)
reserves_for_token_out p token_out =
    if token_eq token_out p.token0
    then ok (p.reserve1, p.reserve0)
    else if token_eq token_out p.token1
    then ok (p.reserve0, p.reserve1)
    else raised not_in_pair

pub get_amount_in : Pair → ℤ → Token → Outcome PairError ℕ
get_amount_in p amount_out token_out = do
  raise_if (leb_ℤ amount_out (pos 0)) bad_amount
  (reserve_in, reserve_out) ← reserves_for_token_out p token_out
  raise_if (leb reserve_out (pos_part amount_out)) insufficient_liquidity
  ok (swap_input p.fee_bps (pos_part amount_out) reserve_in reserve_out)

-- A quotient of two integers, kept exact.
pub record Fraction : Type 0 where
  pub num : ℤ
  pub den : ℕ

pub get_spot_price : Pair → Token → Outcome PairError Fraction
unfolding reserves_for_token_in
get_spot_price p token_in = do
  (reserve_in, reserve_out) ← reserves_for_token_in p token_in
  ok (record { num = pos reserve_out; den = reserve_in })

pub get_execution_price : Pair → ℤ → Token → Outcome PairError Fraction
get_execution_price p amount_in token_in = do
  amount_out ← get_amount_out p amount_in token_in
  if amount_out == 0
      then ok (record { num = pos 0; den = 1 })
      else ok (record { num = pos amount_out; den = pos_part amount_in })

-- `(spot - execution) / spot`, for positive denominators and a positive spot price.
abbrev relative_gap : Fraction → Fraction → Fraction
relative_gap spot execution = record {
  num = spot.num *ℤ pos execution.den -ℤ execution.num *ℤ pos spot.den;
  den = pos_part spot.num * execution.den;
}

abbrev is_zero : Fraction → Bool
is_zero f = leb_ℤ f.num (pos 0) && leb_ℤ (pos 0) f.num

pub get_price_impact : Pair → ℤ → Token → Outcome PairError Fraction
get_price_impact p amount_in token_in = do
  spot ← get_spot_price p token_in
  if is_zero spot
      then ok (record { num = pos 0; den = 1 })
      else do execution ← get_execution_price p amount_in token_in; ok (relative_gap spot execution)

-- A new pair, as if the swap had taken place.
pub simulate_swap : Pair → ℤ → Token → Outcome PairError Pair
simulate_swap p amount_in token_in = do
  amount_out ← get_amount_out p amount_in token_in
  if token_eq token_in p.token0
      then make p.address p.token0 p.token1 (pos p.reserve0 +ℤ amount_in)
          (pos p.reserve1 -ℤ pos amount_out) (pos p.fee_bps)
      else make p.address p.token0 p.token1 (pos p.reserve0 -ℤ pos amount_out)
          (pos p.reserve1 +ℤ amount_in) (pos p.fee_bps)
