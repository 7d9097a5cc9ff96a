-- ===== src/Pricing/Arbitrage/Tests.antt =====
-- Instances of the theorems on arbitrage: one unit of token 1 buys 3 of token 2 in one pool and 5 in
-- another, and 2 of token 2 bring back one unit of token 1 in a third.
use peanut_trade_internship.Base.{ℕ, ◌*◌, ◌/◌, ◌==◌, if◌then◌else◌, [], ◌∷◌, ◌≡◌, refl, ok, All}
use peanut_trade_internship.Base.Int.{pos, pos_part, ◌-ℤ◌, ◌*ℤ◌}
use peanut_trade_internship.Core.Token.{Token}
use peanut_trade_internship.Pricing.Router.{AmmPool}
use peanut_trade_internship.Pricing.Arbitrage.{
  ArbitrageOpportunity, circular, find_circular_arbitrage, gwei, visit_edges,
}
use peanut_trade_internship.Pricing.Arbitrage.Circular.{IsCycle}
use peanut_trade_internship.Pricing.Arbitrage.Sorted.{IsDescending, find_circular_arbitrage-IsCycle}

abbrev token : ℕ → Token
token address = record { address = address; symbol = "T"; decimals = 18 }

-- A pool is its identity, and what it pays of token 2 for token 1 and of token 1 for token 2.
abbrev Rated : Type 0
Rated = ℕ × ℕ × ℕ

abbrev rated_pools : AmmPool Rated (Unit {0})
rated_pools = record {
  id = λ p. p.0;
  token0 = λ p. token 1;
  token1 = λ p. token 2;
  get_amount_out = λ p amount t.
      ok (if t.address == 1 then pos_part amount * p.1 / 10 else pos_part amount * p.2 / 10);
}

abbrev cheap : Rated
cheap = (1, 30, 2)

abbrev dear : Rated
dear = (2, 10, 5)

abbrev cycle : ArbitrageOpportunity Rated
cycle = record {
  route = record { pools = cheap ∷ dear ∷ []; path = token 1 ∷ token 2 ∷ token 1 ∷ [] };
  amount_in = pos 10;
  gross_profit = pos 5;
  gas_cost = pos 350_000_000_000_000;
  token = token 1;
  strategy = circular;
}

found :
    find_circular_arbitrage rated_pools (cheap ∷ dear ∷ []) (token 1) (pos 10) (pos 1) 3
    ≡ ok (cycle ∷ [])
unfolding find_circular_arbitrage visit_edges ◌-ℤ◌ ◌*ℤ◌
found = refl

find_circular_arbitrage-IsCycle_example :
    All
      (IsCycle rated_pools
        (cheap ∷ dear ∷ [])
        (token 1)
        (pos 10)
        (gwei (pos 1))
        3
        (token 1)
        []
        []
        (token 1 ∷ []))
      (cycle ∷ [])
    × IsDescending (cycle ∷ [])
find_circular_arbitrage-IsCycle_example =
    find_circular_arbitrage-IsCycle rated_pools (cheap ∷ dear ∷ []) (token 1) (pos 10) (pos 1) 2
      (cycle ∷ []) found
