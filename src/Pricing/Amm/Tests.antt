-- ===== src/Pricing/Amm/Tests.antt =====
-- Instances of the theorems on `UniswapV2Pair`.
use peanut_trade_internship.Base.{ℕ, ◌+◌, ◌*◌, ◌≤◌, ◌≡◌, refl, arith, ok}
use peanut_trade_internship.Base.Int.{pos, ◌≤ℤ◌, ◌+ℤ◌, ◌-ℤ◌, ◌*ℤ◌}
use peanut_trade_internship.Core.Token.{Token}
use peanut_trade_internship.Pricing.Amm.{
  Pair, get_amount_out, get_amount_in, get_price_impact, get_spot_price, get_execution_price,
  simulate_swap, reserves_for_token_in, swap_output, swap_input, make,
}
use peanut_trade_internship.Pricing.Amm.Swap.{IsValid, in_reserve, out_reserve, simulate_swap_grows}
use peanut_trade_internship.Pricing.Amm.RoundTrip.{
  swap_there_and_back, get_amount_out-get_amount_in,
}

abbrev weth : Token
weth = record { address = 1; symbol = "WETH"; decimals = 18 }

abbrev usdc : Token
usdc = record { address = 2; symbol = "USDC"; decimals = 6 }

abbrev pair_with : ℕ → ℕ → Pair
pair_with reserve0 reserve1 = record {
  address = 9;
  token0 = weth;
  token1 = usdc;
  reserve0 = reserve0;
  reserve1 = reserve1;
  fee_bps = 30;
}

abbrev pair : Pair
pair = pair_with 1000 2000

pair-IsValid : IsValid pair
pair-IsValid = record {
  reserve0_pos = omega arith;
  reserve1_pos = omega arith;
  fee_small = omega arith;
  tokens_differ = refl;
}

quote_10 : get_amount_out pair (pos 10) weth ≡ ok 19
unfolding get_amount_out reserves_for_token_in swap_output
quote_10 = refl

quote_100 : get_amount_out pair (pos 100) weth ≡ ok 181
unfolding get_amount_out reserves_for_token_in swap_output
quote_100 = refl

wanted_19 : get_amount_in pair (pos 19) usdc ≡ ok 10
unfolding get_amount_in swap_input
wanted_19 = refl

after_10 : simulate_swap pair (pos 10) weth ≡ ok (pair_with 1010 1981)
unfolding simulate_swap get_amount_out reserves_for_token_in swap_output make ◌+ℤ◌ ◌-ℤ◌
after_10 = refl

back_19 : get_amount_out (pair_with 1010 1981) (pos 19) usdc ≡ ok 9
unfolding get_amount_out reserves_for_token_in swap_output
back_19 = refl

impact_100 : get_price_impact pair (pos 100) weth ≡ ok (record { num = pos 19000; den = 200000 })
unfolding get_price_impact get_spot_price get_execution_price get_amount_out reserves_for_token_in
    swap_output ◌-ℤ◌ ◌*ℤ◌
impact_100 = refl

simulate_swap_grows_example :
    (q : Pair) × (simulate_swap pair (pos 10) weth ≡ ok q)
    × IsValid q
    × (in_reserve q weth ≡ 1000 + 10)
    × (out_reserve q weth + 19 ≡ 2000)
    × (1000 * 2000 ≤ q.reserve0 * q.reserve1)
simulate_swap_grows_example = simulate_swap_grows pair (pos 10) weth pair-IsValid quote_10

swap_there_and_back_example : pos 9 ≤ℤ pos 10
swap_there_and_back_example =
    swap_there_and_back pair (pair_with 1010 1981) (pos 10) weth pair-IsValid quote_10 after_10
      back_19

get_amount_out-get_amount_in_example :
    (y : ℕ) × (get_amount_out pair (pos 10) weth ≡ ok y) × (pos 19 ≤ℤ pos y)
get_amount_out-get_amount_in_example =
    get_amount_out-get_amount_in pair (pos 19) usdc pair-IsValid wanted_19
