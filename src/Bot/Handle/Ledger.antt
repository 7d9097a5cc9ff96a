-- ===== src/Bot/Handle/Ledger.antt =====
-- `execution_to_arb_record` of scripts/arb_bot.py: the entry of an execution in the ledger.
-- `datetime.fromtimestamp` gives the local time, so `timestamp` counts its seconds.
use peanut_trade_internship.Base.{ℕ, String, Option, none, some, Outcome, ok, ◌>>=◌, if◌then◌else◌}
use Prim.Native.String.{◌++◌}
use peanut_trade_internship.Base.Int.{ℤ, pos}
use peanut_trade_internship.Base.Float.{Float}
use peanut_trade_internship.Base.Text.{after_slash}
use peanut_trade_internship.Strategy.Fees.{FeeStructure, FeeError, fee_usd}
use peanut_trade_internship.Executor.Engine.{ExecutionContext, Venue, cex, dex}
use peanut_trade_internship.Inventory.Pnl.{TradeLeg, ArbRecord}

-- The first leg counts as the purchase, the second one as the sale.
abbrev pub buy_venue : Option Venue → String
buy_venue (some cex) = "binance"
buy_venue _ = "wallet"

abbrev pub sell_venue : Option Venue → String
sell_venue (some dex) = "wallet"
sell_venue _ = "binance"

abbrev pub finished_or_started : Option ℤ → ℤ → ℤ
finished_or_started none started = started
finished_or_started (some finished) started = finished

-- `x or 0`
abbrev pub or_nought : (F : Float) → Option F.Num → F.Num
or_nought F none = F.literal (pos 0) 0
or_nought F (some x) = x

module _ {F : Float} (coins money : F.Num → ℤ) (timestamp : ℤ → ℕ) where
  open F use {Num, literal, mul, div, lt}

  abbrev pub leg :
      ExecutionContext F
      → (suffix side venue : String) → ℤ
      → (amount price : Option Num) → ℤ
      → TradeLeg
  leg ctx suffix side venue time amount price fee = record {
    id = ctx.signal.signal_id ++ suffix;
    timestamp = timestamp time;
    venue = venue;
    symbol = ctx.signal.pair;
    side = side;
    amount = coins (or_nought F amount);
    price = coins (or_nought F price);
    fee = fee;
    fee_asset = after_slash ctx.signal.pair;
  }

  abbrev pub record_of : ExecutionContext F → ℤ → ArbRecord
  record_of ctx fee = record {
    id = ctx.signal.signal_id;
    timestamp = timestamp ctx.started_at;
    buy_leg =
        leg ctx "_buy" "buy" (buy_venue ctx.leg1_venue) ctx.started_at ctx.leg1_fill_size
          ctx.leg1_fill_price fee;
    sell_leg =
        leg ctx "_sell" "sell" (sell_venue ctx.leg2_venue)
          (finished_or_started ctx.finished_at ctx.started_at) ctx.leg2_fill_size
          ctx.leg2_fill_price fee;
    gas_cost_usd = pos 0;
  }

  abbrev pub with_fee : ExecutionContext F → Outcome FeeError Num → Outcome FeeError ArbRecord
  with_fee ctx total_fee = do
    total ← total_fee
    ok (record_of ctx (money (div total (literal (pos 2) 0))))

  -- The bot always has a fee structure.
  unfoldable pub execution_to_arb_record :
      ExecutionContext F → FeeStructure F → Outcome FeeError ArbRecord
  execution_to_arb_record ctx fees =
      let trade_value = mul (or_nought F ctx.leg1_fill_size) (or_nought F ctx.leg1_fill_price) in
      if lt (literal (pos 0) 0) trade_value
      then with_fee ctx (fee_usd F fees trade_value)
      else ok (record_of ctx (pos 0))
