-- ===== src/Pricing/Impact/Tests.antt =====
-- Instances of the theorems on the price impact.
use peanut_trade_internship.Base.{ℕ, some, ◌≡◌, refl, arith, ok}
use peanut_trade_internship.Base.Int.{pos}
use peanut_trade_internship.Core.Token.{Token}
use peanut_trade_internship.Pricing.Amm.{Pair, Fraction, reserves_for_token_in}
use peanut_trade_internship.Pricing.Impact.{find_max_size_for_impact, is_within, hundredth}
use peanut_trade_internship.Pricing.Impact.Largest.{IsLargest, find_max_size_for_impact-IsLargest}

abbrev weth : Token
weth = record { address = 1; symbol = "WETH"; decimals = 18 }

abbrev a_pair : Pair
a_pair = record {
  address = 9;
  token0 = weth;
  token1 = record { address = 2; symbol = "USDC"; decimals = 6 };
  reserve0 = 1000;
  reserve1 = 2000;
  fee_bps = 30;
}

abbrev five_percent : Fraction
five_percent = record { num = pos 5; den = 1 }

reserves_of_weth : reserves_for_token_in a_pair weth ≡ ok (1000, 2000)
unfolding reserves_for_token_in
reserves_of_weth = refl

find_max_size_for_impact-IsLargest_example :
    (size : ℕ) × (find_max_size_for_impact 501 a_pair weth five_percent ≡ some (ok size))
    × IsLargest (is_within a_pair weth (hundredth five_percent)) 500 size
find_max_size_for_impact-IsLargest_example =
    find_max_size_for_impact-IsLargest 501 a_pair weth five_percent (omega arith) reserves_of_weth
      (omega arith)
