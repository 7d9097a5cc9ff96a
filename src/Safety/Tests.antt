-- ===== src/Safety/Tests.antt =====
-- Instances of the theorems on the gates in front of a trade, in units of 1/100.
use peanut_trade_internship.Base.{none, ◌≡◌, refl, arith, ok}
use peanut_trade_internship.Base.Int.{pos, negsuc, neg, ◌≤ℤ◌, ◌-ℤ◌, ◌*ℤ◌}
use peanut_trade_internship.Safety.Risk.{
  RiskLimits, RiskManager, new_manager, check_pre_trade, judge, check_limits, maybe_reset_daily,
  prune_trade_times, drop_old, record_trade,
}
use peanut_trade_internship.Safety.Risk.Ledger.{begun, traded, IsKept, Trades-IsKept}

-- The defaults of the code.
abbrev default_limits : RiskLimits
default_limits = record {
  max_trade_usd = pos 700;
  max_trade_pct = pos 20;
  max_position_per_token = pos 3000;
  max_open_positions = 1;
  max_loss_per_trade = pos 500;
  max_daily_loss = pos 1000;
  max_drawdown_pct = pos 20;
  max_trades_per_hour = 20;
  consecutive_loss_limit = 3;
}

abbrev a_manager : RiskManager
a_manager = new_manager default_limits (pos 10000) 86400

passes : (check_pre_trade 100 3600 5 86400 5 a_manager (pos 5) (pos 10000)).0 ≡ ok none
unfolding check_pre_trade judge check_limits maybe_reset_daily prune_trade_times drop_old ◌-ℤ◌ ◌*ℤ◌
passes = refl

abbrev after_a_loss : RiskManager
after_a_loss =
    record_trade 6 86400 6 (negsuc 99)
      (check_pre_trade 100 3600 5 86400 5 a_manager (pos 5) (pos 10000)).1

loss_small : neg (pos 500) ≤ℤ negsuc 99
unfolding ◌-ℤ◌
loss_small = omega arith

Trades-IsKept_example : IsKept (pos 500) after_a_loss
Trades-IsKept_example =
    Trades-IsKept 100 3600 (pos 500) default_limits (pos 10000) 86400 after_a_loss (omega arith)
      (omega arith)
      (traded a_manager 5 86400 5 6 86400 6 (pos 5) (pos 10000) (negsuc 99) begun passes loss_small)
