-- ===== src/Inventory/CostBasis/Tests.antt =====
-- Two purchases and a sale.
use mathlib.Core.Bool.{false≢true}
use peanut_trade_internship.Base.{String, List, [], ◌∷◌, none, ◌≡◌, refl, arith}
use peanut_trade_internship.Base.Int.{ℤ, pos, negsuc, ◌+ℤ◌, ◌-ℤ◌, ◌*ℤ◌}
use peanut_trade_internship.Inventory.CostBasis.{
  new_tracker, get_position, record_fill, filled, bought, sold,
}
use peanut_trade_internship.Inventory.CostBasis.Bounds.{
  FillCall, IsWithin, fill_all, fill_all-IsWithin,
}

abbrev fill_eth : String → ℤ → ℤ → FillCall
fill_eth side qty price = record {
  asset = "ETH";
  side = side;
  qty = qty;
  price = price;
  fee = pos 1;
  timestamp = none;
  now = pos 0;
}

abbrev fills : List FillCall
fills =
    fill_eth "buy" (pos 2) (pos 10)
    ∷ fill_eth "buy" (pos 2) (pos 20)
    ∷ fill_eth "sell" (pos 1) (pos 30)
    ∷ fill_eth "sell" (negsuc 0) (pos 5)
    ∷ []

half_way :
    (get_position "ETH" (fill_all fills new_tracker)).avg_cost ≡ record { cost = 120; units = 8 }
unfolding get_position record_fill filled bought sold ◌+ℤ◌ ◌-ℤ◌ ◌*ℤ◌
half_way = refl

fill_all-IsWithin_example : IsWithin 10 20 (get_position "ETH" (fill_all fills new_tracker))
fill_all-IsWithin_example = fill_all-IsWithin "ETH" 10 20 fills (
  λ asset buys. (omega arith, omega arith),
  (
    λ asset buys. (omega arith, omega arith),
    (λ asset buys. absurd (false≢true buys), (λ asset buys. absurd (false≢true buys), tt)),
  ),
)
