-- ===== src/Inventory/Tests.antt =====
-- Instances of the theorems on the inventory.
use peanut_trade_internship.Base.{str_eq, true, [], ◌∷◌, ◌≡◌, refl, if◌then◌else◌}
use peanut_trade_internship.Base.Int.{pos}
use peanut_trade_internship.Inventory.Tracker.{
  InventoryTracker, new_tracker, get_available, can_execute, record_trade,
}
use peanut_trade_internship.Inventory.Tracker.Moves.{traded, record_trade_available}

abbrev a_tracker : InventoryTracker
a_tracker = record (new_tracker ("binance" ∷ "wallet" ∷ [])) {
  balances =
      ("binance", ("USDT", record { free = pos 500; locked = pos 0 }) ∷ [])
      ∷ ("wallet", ("ETH", record { free = pos 3; locked = pos 0 }) ∷ [])
      ∷ [];
}

record_trade_available_example :
    get_available "binance" "USDT"
      (record_trade "binance" "buy" "ETH" "USDT" (pos 1) (pos 100) (pos 2) "USDT" a_tracker)
    ≡ (if str_eq "binance" "binance"
        then traded "buy" "ETH" "USDT"
            (pos 1)
            (pos 100)
            (pos 2)
            "USDT"
            "USDT"
            (get_available "binance" "USDT" a_tracker)
        else get_available "binance" "USDT" a_tracker)
record_trade_available_example =
    record_trade_available "binance" "buy" "ETH" "USDT" (pos 1) (pos 100) (pos 2) "USDT" "binance"
      "USDT" a_tracker

passes :
    (can_execute "binance" "USDT" (pos 100) "wallet" "ETH" (pos 1) a_tracker).can_execute ≡ true
unfolding can_execute get_available
passes = refl
