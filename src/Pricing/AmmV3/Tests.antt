-- ===== src/Pricing/AmmV3/Tests.antt =====
-- Instances of the theorems on `UniswapV3Pool`.
use peanut_trade_internship.Base.{ℕ, ◌≡◌, refl, ok}
use peanut_trade_internship.Base.Int.{pos}
use peanut_trade_internship.Core.Token.{Token}
use peanut_trade_internship.Pricing.AmmV3.{Pool, q96, get_amount_out, one_for_zero}

abbrev token : ℕ → Token
token address = record { address = address; symbol = "T"; decimals = 18 }

abbrev pool : Pool
pool = record {
  address = 9;
  token0 = token 1;
  token1 = token 2;
  sqrt_price_x96 = q96;
  liquidity = 1000000;
  fee_ppm = 3000;
  tick = pos 0;
}

quote_1000 : get_amount_out pool (pos 1000) (token 2) ≡ ok 996
unfolding get_amount_out one_for_zero
quote_1000 = refl

quote_2000 : get_amount_out pool (pos 2000) (token 2) ≡ ok 1990
unfolding get_amount_out one_for_zero
quote_2000 = refl
