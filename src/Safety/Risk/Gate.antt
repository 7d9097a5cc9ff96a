-- ===== src/Safety/Risk/Gate.antt =====
-- What `RiskManager.check_pre_trade` (safety/risk.py) lets through.
use peanut_trade_internship.Base.{ℕ, ◌<◌, none, ◌≡◌, ◌↔◌, arith, length, ok}
use peanut_trade_internship.Base.Int.{ℤ, pos, neg, ◌-ℤ◌, ◌*ℤ◌, ◌≤ℤ◌, ◌<ℤ◌, eqb_ℤ_iff}
use peanut_trade_internship.Safety.Risk.{
  RiskManager, check_pre_trade, judge, check_limits, refreshed, maybe_reset_daily,
  prune_trade_times,
}

-- The trade is within every limit of a manager whose peak capital is positive.
pub record IsWithin (unit : ℕ) (m : RiskManager) (size price : ℤ) : Type 0 where
  pub above_daily_loss : neg m.limits.max_daily_loss <ℤ m.daily_loss
  pub below_drawdown :
      (m.peak_capital -ℤ m.capital) *ℤ pos unit <ℤ m.limits.max_drawdown_pct *ℤ m.peak_capital
  pub few_losses : m.consecutive_losses < m.limits.consecutive_loss_limit
  pub few_trades : length m.trade_times < m.limits.max_trades_per_hour
  pub small_trade : size *ℤ price ≤ℤ m.limits.max_trade_usd *ℤ pos unit
  pub small_share : pos 0 <ℤ m.capital → size *ℤ price ≤ℤ m.limits.max_trade_pct *ℤ m.capital
  pub no_share : m.capital ≤ℤ pos 0 → pos unit ≤ℤ m.limits.max_trade_pct
  pub small_position : size ≤ℤ m.limits.max_position_per_token

limits-IsWithin :
    (unit : ℕ) (m : RiskManager) (size price : ℤ)
    → pos 0 <ℤ m.peak_capital
    → judge unit m size price ≡ ok none
    → IsWithin unit m size price
unfolding judge check_limits
limits-IsWithin unit m size price v h = ground (arith, eqb_ℤ_iff m.peak_capital (pos 0))

IsWithin-limits :
    (unit : ℕ) (m : RiskManager) (size price : ℤ)
    → pos 0 <ℤ m.peak_capital
    → IsWithin unit m size price
    → judge unit m size price ≡ ok none
unfolding judge check_limits
IsWithin-limits unit m size price v h = ground (arith, eqb_ℤ_iff m.peak_capital (pos 0))

refreshed-peak_capital :
    (unit hour now next_midnight clock : ℕ) (m : RiskManager)
    → (refreshed unit hour now next_midnight clock m).peak_capital ≡ m.peak_capital
unfolding maybe_reset_daily prune_trade_times
refreshed-peak_capital unit hour now next_midnight clock m = ground arith

-- With a positive peak capital, the check passes exactly the trades that are within every
-- configured limit once the day's loss has been reset and the old trade times dropped.
check_pre_trade-IsWithin :
    (unit hour now next_midnight clock : ℕ) (m : RiskManager) (size price : ℤ)
    → pos 0 <ℤ m.peak_capital
    → ((check_pre_trade unit hour now next_midnight clock m size price).0 ≡ ok none)
      ↔ IsWithin unit (refreshed unit hour now next_midnight clock m) size price
unfolding check_pre_trade
check_pre_trade-IsWithin unit hour now next_midnight clock m size price v =
    let r = refreshed unit hour now next_midnight clock m in
    let w : pos 0 <ℤ r.peak_capital =
      rw (refreshed-peak_capital unit hour now next_midnight clock m) v in
    (limits-IsWithin unit r size price w, IsWithin-limits unit r size price w)
