-- ===== src/Inventory/Pnl/Tests.antt =====
-- A ledger of two trades in different hours, one won and one lost.
use peanut_trade_internship.Base.{ℕ, String, List, [], ◌∷◌, ◌≡◌, refl, map, nat_eq}
use peanut_trade_internship.Base.Int.{ℤ, pos, negsuc, ◌-ℤ◌, ◌+ℤ◌, ◌*ℤ◌}
use peanut_trade_internship.Base.Hundredths.{hundredths}
use peanut_trade_internship.Inventory.Pnl.{
  TradeLeg, ArbRecord, PnLEngine, summary, net_pnl, sum, max_from, min_from,
}

abbrev leg : String → String → ℕ → ℕ → ℕ → TradeLeg
leg venue side timestamp amount price = record {
  id = side;
  timestamp = timestamp;
  venue = venue;
  symbol = "ETH/USDT";
  side = side;
  amount = pos amount;
  price = pos price;
  fee = pos 1;
  fee_asset = "USDT";
}

abbrev arb : String → ℕ → ℕ → ℕ → ArbRecord
arb id timestamp bought sold = record {
  id = id;
  timestamp = timestamp;
  buy_leg = leg "wallet" "buy" timestamp 2 bought;
  sell_leg = leg "binance" "sell" timestamp 2 sold;
  gas_cost_usd = pos 1;
}

abbrev won : ArbRecord
won = arb "won" 3700 10 20

abbrev lost : ArbRecord
lost = arb "lost" 7300 10 11

abbrev spread : List ℤ → ℤ
spread [] = pos 0
spread (x ∷ xs) = max_from x xs -ℤ min_from x xs

abbrev two_trades : PnLEngine
two_trades = won ∷ lost ∷ []

profits : map net_pnl two_trades ≡ pos 17 ∷ negsuc 0 ∷ []
unfolding net_pnl ◌+ℤ◌ ◌-ℤ◌ ◌*ℤ◌
profits = refl

hours :
    (summary hundredths (λ x. x) spread sum two_trades).pnl_by_hour
    ≡ (1, pos 17) ∷ (2, negsuc 0) ∷ []
unfolding net_pnl summary ◌+ℤ◌ ◌-ℤ◌ ◌*ℤ◌
hours = refl
