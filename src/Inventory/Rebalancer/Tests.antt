-- ===== src/Inventory/Rebalancer/Tests.antt =====
-- Instances of the theorems on the rebalancer.
use peanut_trade_internship.Base.{
  ℕ, ◌*◌, ◌/◌, List, [], ◌∷◌, string_eq, Option, none, some, ◌≡◌, refl, arith,
}
use peanut_trade_internship.Base.Int.{ℤ, pos, pos_part, ◌+ℤ◌, ◌-ℤ◌}
use peanut_trade_internship.Base.Hundredths.{hundredths}
use peanut_trade_internship.Inventory.Tracker.{InventoryTracker, new_tracker}
use peanut_trade_internship.Inventory.Skew.{Skew, skew, amount_at}
use peanut_trade_internship.Inventory.Rebalancer.{
  TransferPlan, tenths_of_mill, transfers, plan, transfer, surplus_of, deficit_of, is_due,
}
use peanut_trade_internship.Inventory.Rebalancer.Ends.{surplus, deficit, plan_ends, plan_hangs}
use peanut_trade_internship.Inventory.Rebalancer.Sound.{Moves, plan-Moves}

-- All of the ether is on the exchange.
abbrev on_exchange : ℕ → InventoryTracker
on_exchange n = record (new_tracker ("binance" ∷ "wallet" ∷ [])) {
  balances =
      ("binance", ("ETH", record { free = tenths_of_mill n; locked = pos 0 }) ∷ [])
      ∷ ("wallet", [])
      ∷ [];
}

abbrev percent_of : ℤ → ℤ → ℤ
percent_of amount all = pos (10_000 * pos_part amount / pos_part all)

abbrev part_of : ℤ → ℤ → ℤ
part_of all ratio = pos (pos_part all * pos_part ratio / 100)

abbrev planned : ℕ → ℕ → Option (List TransferPlan)
planned fuel n = plan hundredths part_of percent_of fuel none (pos 3_000) "ETH" (on_exchange n)

abbrev skewed : ℕ → Skew hundredths
skewed n = skew hundredths percent_of "ETH" (on_exchange n)

-- 1.2 ether: 0.6 are moved.
plans_surplus :
    planned 3 12_000 ≡ some (transfer "ETH" "binance" "wallet" (tenths_of_mill 6_000) ∷ [])
unfolding plan skew surplus_of deficit_of transfers ◌+ℤ◌ ◌-ℤ◌
plans_surplus = refl

plan_ends_example : (ps : List TransferPlan) × (planned 1_000_000_000_000_000_000 12_000 ≡ some ps)
unfolding skew surplus_of amount_at ◌+ℤ◌ ◌-ℤ◌
plan_ends_example =
    plan_ends hundredths part_of percent_of 1_000_000_000_000_000_000 none (pos 3_000) "ETH"
      (on_exchange 12_000) (omega arith) (omega arith)

plan-Moves_example :
    Moves "ETH"
      (amount_at "ETH" (on_exchange 12_000))
      (surplus hundredths part_of none (skewed 12_000))
      (deficit hundredths part_of none (skewed 12_000))
      (transfer "ETH" "binance" "wallet" (tenths_of_mill 6_000) ∷ [])
plan-Moves_example =
    plan-Moves hundredths part_of percent_of 3 none (pos 3_000) "ETH" (on_exchange 12_000)
      plans_surplus

-- 0.4 ether: the exchange can give nothing.
plan_hangs_example : planned 1_000 4_000 ≡ none
unfolding skew surplus_of deficit_of is_due amount_at ◌+ℤ◌ ◌-ℤ◌
plan_hangs_example =
    plan_hangs hundredths part_of percent_of 1_000 none (pos 3_000) "ETH" (on_exchange 4_000)
      {src = "binance"} {dst = "wallet"} {a = tenths_of_mill 2_000} {n = tenths_of_mill 2_000} refl
      refl refl (omega arith)
