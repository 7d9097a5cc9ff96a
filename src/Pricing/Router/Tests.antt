-- ===== src/Pricing/Router/Tests.antt =====
-- Instances of the theorems on the router: two pools from token 1 to token 2, paying 300 and 500
-- for one unit, and one from 2 to 3.
use peanut_trade_internship.Base.{ℕ, ◌*◌, List, [], ◌∷◌, ◌≡◌, refl, ok, All}
use peanut_trade_internship.Base.Int.{pos, pos_part, ◌-ℤ◌, ◌*ℤ◌}
use peanut_trade_internship.Core.Token.{Token}
use peanut_trade_internship.Pricing.Router.{
  AmmPool, Route, Comparison, find_all_routes, find_best_route, compare_routes, compare_route,
  compare_all, sort_by_net, insert_by_net, dfs, visit_all, output_along,
}
use peanut_trade_internship.Pricing.Router.Search.{Extends, find_all_routes-Extends}
use peanut_trade_internship.Pricing.Router.Compare.{compare_routes-find_best_route}

abbrev token : ℕ → Token
token address = record { address = address; symbol = "T"; decimals = 18 }

-- A pool is its identity, its two tokens and its rate.
abbrev Flat : Type 0
Flat = ℕ × ℕ × ℕ × ℕ

abbrev flat_pools : AmmPool Flat (Unit {0})
flat_pools = record {
  id = λ p. p.0;
  token0 = λ p. token p.1;
  token1 = λ p. token p.2;
  get_amount_out = λ p amount t. ok (pos_part amount * p.3);
}

abbrev pool_a : Flat
pool_a = (1, 1, 2, 300)

abbrev pool_b : Flat
pool_b = (2, 1, 2, 500)

abbrev pools : List Flat
pools = pool_a ∷ pool_b ∷ (3, 2, 3, 7) ∷ []

abbrev by : Flat → Route Flat
by p = record { pools = p ∷ []; path = token 1 ∷ token 2 ∷ [] }

abbrev compared : Flat → ℕ → Comparison Flat
compared p n = record {
  route = by p;
  gross_output = pos n;
  gas_estimate = 250000;
  gas_cost = pos 0;
  net_output = pos n;
}

both_found :
    find_all_routes flat_pools pools (token 1) (token 2) 3 ≡ ok (by pool_a ∷ by pool_b ∷ [])
unfolding dfs visit_all
both_found = refl

find_all_routes-Extends_example :
    All
      (Extends flat_pools pools (token 2) 3 (token 1) [] [] (token 1 ∷ []))
      (by pool_a ∷ by pool_b ∷ [])
find_all_routes-Extends_example =
    find_all_routes-Extends flat_pools pools (token 1) (token 2) 3 (by pool_a ∷ by pool_b ∷ [])
      both_found

both_compared :
    compare_routes flat_pools pools (token 1) (token 2) (pos 1) (pos 0)
    ≡ ok (compared pool_b 500 ∷ compared pool_a 300 ∷ [])
unfolding compare_routes dfs visit_all compare_all compare_route output_along sort_by_net
    insert_by_net ◌-ℤ◌ ◌*ℤ◌
both_compared = refl

compare_routes-find_best_route_example :
    find_best_route flat_pools pools (token 1) (token 2) (pos 1) (pos 0) 3 ≡ ok (by pool_b, pos 500)
compare_routes-find_best_route_example =
    compare_routes-find_best_route flat_pools pools (token 1) (token 2) (pos 1) (pos 0)
      (compared pool_b 500) (compared pool_a 300 ∷ []) both_compared
