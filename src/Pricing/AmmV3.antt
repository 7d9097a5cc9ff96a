-- ===== src/Pricing/AmmV3.antt =====
-- `UniswapV3Pool` of pricing/amm_v3.py: the swap arithmetic within one tick, on Python ints.
-- `get_spot_price` is the exact square of a fraction, before `Decimal` rounds it.
pub mod Bounds
pub mod Quotes
mod Tests
use peanut_trade_internship.Base.{
  ℕ, ◌+◌, ◌-◌, ◌*◌, ◌/◌, ◌^◌, Bool, ◌==◌, not, ◌||◌, if◌then◌else◌, Outcome, ok, raised, ◌>>=◌,
  ◌>>◌, raise_if,
}
use peanut_trade_internship.Base.Int.{ℤ, pos, leb_ℤ, eqb_ℤ, pos_part}
use peanut_trade_internship.Core.Token.{Address, Token, token_eq}
use peanut_trade_internship.Pricing.Amm.{Fraction}

-- Q64.96, and the denominator of the fees
abbrev pub q96 : ℕ
q96 = 2 ^ 96

abbrev pub fee_denom : ℕ
fee_denom = 1000000

pub record Pool : Type 0 where
  pub address : Address
  pub token0 : Token
  pub token1 : Token
  pub sqrt_price_x96 : ℕ
  pub liquidity : ℕ
  pub fee_ppm : ℕ
  pub tick : ℤ

pub data PoolError : Type 0 where
  bad_price bad_liquidity bad_fee same_token bad_amount not_in_pool : PoolError

abbrev known_fee : ℤ → Bool
known_fee fee =
    eqb_ℤ fee (pos 100) || eqb_ℤ fee (pos 500) || eqb_ℤ fee (pos 3000) || eqb_ℤ fee (pos 10000)

-- The constructor with its `__post_init__`.
pub make : Address → Token → Token → ℤ → ℤ → ℤ → ℤ → Outcome PoolError Pool
make address token0 token1 sqrt_price_x96 liquidity fee_ppm tick = do
  raise_if (leb_ℤ sqrt_price_x96 (pos 0)) bad_price
  raise_if (leb_ℤ liquidity (pos 0)) bad_liquidity
  raise_if (not (known_fee fee_ppm)) bad_fee
  raise_if (token_eq token0 token1) same_token
  ok (record {
    address = address;
    token0 = token0;
    token1 = token1;
    sqrt_price_x96 = pos_part sqrt_price_x96;
    liquidity = pos_part liquidity;
    fee_ppm = pos_part fee_ppm;
    tick = tick;
  })

abbrev pub net_input : ℕ → ℕ → ℕ
net_input fee_ppm amount_in = amount_in * (fee_denom - fee_ppm) / fee_denom

-- The new root price of a swap of token0, and what it pays; `q` is the fixed-point denominator.
pub zero_for_one : (q sqrt liquidity net_in : ℕ) → ℕ
zero_for_one q sqrt liquidity net_in =
    let extra = (net_in * sqrt + q - 1) / q in
    let new_sqrt = liquidity * sqrt / (liquidity + extra) in liquidity * (sqrt - new_sqrt) / q

pub one_for_zero : (q sqrt liquidity net_in : ℕ) → ℕ
one_for_zero q sqrt liquidity net_in =
    let new_sqrt = sqrt + net_in * q / liquidity in
    let delta = new_sqrt - sqrt in liquidity * delta * q / (sqrt * new_sqrt)

pub get_amount_out : Pool → ℤ → Token → Outcome PoolError ℕ
get_amount_out p amount_in token_in = do
  raise_if (leb_ℤ amount_in (pos 0)) bad_amount
  let net_in = net_input p.fee_ppm (pos_part amount_in)
  if token_eq token_in p.token0
      then ok (zero_for_one q96 p.sqrt_price_x96 p.liquidity net_in)
      else if token_eq token_in p.token1
      then ok (one_for_zero q96 p.sqrt_price_x96 p.liquidity net_in)
      else raised not_in_pool

pub get_spot_price : Pool → Token → Outcome PoolError Fraction
get_spot_price p token_in =
    if token_eq token_in p.token0
    then ok (record { num = pos (p.sqrt_price_x96 ^ 2); den = q96 ^ 2 })
    else if token_eq token_in p.token1
    then ok (record { num = pos (q96 ^ 2); den = p.sqrt_price_x96 ^ 2 })
    else raised not_in_pool
