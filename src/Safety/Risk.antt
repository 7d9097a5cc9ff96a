-- ===== src/Safety/Risk.antt =====
-- `RiskLimits` and `RiskManager` of safety/risk.py. Money, sizes and prices are integers in units
-- of 1/unit, and a percentage is one in units of 1/unit too, so that `size * price` is in units of
-- 1/unit^2; the code's quotients are compared by their products. The two clocks and the next
-- midnight are arguments of the operations. The messages are left out: a refusal names its check.
pub mod Gate
pub mod Ledger
use peanut_trade_internship.Base.{
  ℕ, suc, ◌+◌, ◌*◌, Bool, Option, none, some, List, [], ◌∷◌, ◌++◌, leb, ltb, length, if◌then◌else◌,
  Outcome, ok, raised,
}
use peanut_trade_internship.Base.Int.{ℤ, pos, neg, ◌+ℤ◌, ◌-ℤ◌, ◌*ℤ◌, ltb_ℤ, leb_ℤ, eqb_ℤ, max_ℤ}

pub record RiskLimits : Type 0 where
  pub max_trade_usd : ℤ
  pub max_trade_pct : ℤ
  pub max_position_per_token : ℤ
  pub max_open_positions : ℕ
  pub max_loss_per_trade : ℤ
  pub max_daily_loss : ℤ
  pub max_drawdown_pct : ℤ
  pub max_trades_per_hour : ℕ
  pub consecutive_loss_limit : ℕ

pub record RiskManager : Type 0 where
  pub limits : RiskLimits
  pub capital : ℤ
  pub peak_capital : ℤ
  pub daily_loss : ℤ
  pub daily_reset : ℕ
  pub consecutive_losses : ℕ
  pub trade_times : List ℕ

pub data Check : Type 0 where
  daily_loss_limit : Check
  drawdown_limit : Check
  consecutive_losses_limit : Check
  hourly_limit : Check
  trade_usd_limit : Check
  trade_pct_limit : Check
  position_limit : Check

pub data RiskError : Type 0 where
  zero_division : RiskError

abbrev pub new_manager : RiskLimits → ℤ → ℕ → RiskManager
new_manager limits initial_capital next_midnight = record {
  limits = limits;
  capital = initial_capital;
  peak_capital = initial_capital;
  daily_loss = pos 0;
  daily_reset = next_midnight;
  consecutive_losses = 0;
  trade_times = [];
}

-- `now` is `time.time()`.
unfoldable pub maybe_reset_daily : (now next_midnight : ℕ) → RiskManager → RiskManager
maybe_reset_daily now next_midnight m =
    if leb m.daily_reset now
    then record m { daily_loss = pos 0; consecutive_losses = 0; daily_reset = next_midnight }
    else m

-- A time goes when it lies before `time.monotonic() - 3600`; `hour` is 3600 s in the clock's unit.
unfoldable pub drop_old : (hour clock : ℕ) → List ℕ → List ℕ
drop_old hour clock [] = []
drop_old hour clock (t ∷ ts) = if ltb (t + hour) clock then drop_old hour clock ts else t ∷ ts

unfoldable pub prune_trade_times : (hour clock : ℕ) → RiskManager → RiskManager
prune_trade_times hour clock m = record m { trade_times = drop_old hour clock m.trade_times }

-- `num / den >= pct` for den ≠ 0, with `pct` in units of 1/unit.
abbrev pub ratio_at_least : (unit : ℕ) (num den pct : ℤ) → Bool
ratio_at_least unit num den pct =
    if ltb_ℤ (pos 0) den
    then leb_ℤ (pct *ℤ den) (num *ℤ pos unit)
    else leb_ℤ (num *ℤ pos unit) (pct *ℤ den)

-- `capital_pct > pct`, where capital_pct is 1 without capital; `trade` is in units of 1/unit^2.
abbrev pub pct_above : (unit : ℕ) (trade capital pct : ℤ) → Bool
pct_above unit trade capital pct =
    if ltb_ℤ (pos 0) capital then ltb_ℤ (pct *ℤ capital) trade else ltb_ℤ pct (pos unit)

-- The checks after the daily loss and the drawdown.
unfoldable pub check_limits : (unit : ℕ) → RiskManager → (size cex_price : ℤ) → Option Check
check_limits unit m size cex_price =
    let trade = size *ℤ cex_price in
    if leb m.limits.consecutive_loss_limit m.consecutive_losses
    then some consecutive_losses_limit
    else if leb m.limits.max_trades_per_hour (length m.trade_times)
    then some hourly_limit
    else if ltb_ℤ (m.limits.max_trade_usd *ℤ pos unit) trade
    then some trade_usd_limit
    else if pct_above unit trade m.capital m.limits.max_trade_pct
    then some trade_pct_limit
    else if ltb_ℤ m.limits.max_position_per_token size
    then some position_limit
    else none

unfoldable pub judge :
    (unit : ℕ) → RiskManager → (size cex_price : ℤ) → Outcome RiskError (Option Check)
unfolding check_limits
judge unit m size cex_price =
    if leb_ℤ m.daily_loss (neg m.limits.max_daily_loss)
    then ok (some daily_loss_limit)
    else if eqb_ℤ m.peak_capital (pos 0)
    then raised zero_division
    else if ratio_at_least unit (m.peak_capital -ℤ m.capital) m.peak_capital
        m.limits.max_drawdown_pct
    then ok (some drawdown_limit)
    else ok (check_limits unit m size cex_price)

module _ (unit hour now next_midnight clock : ℕ) where
  abbrev pub refreshed : RiskManager → RiskManager
  refreshed m = prune_trade_times hour clock (maybe_reset_daily now next_midnight m)

  unfoldable pub check_pre_trade :
      RiskManager → (size cex_price : ℤ) → Outcome RiskError (Option Check) × RiskManager
  unfolding judge maybe_reset_daily prune_trade_times
  check_pre_trade m size cex_price = (judge unit (refreshed m) size cex_price, refreshed m)

  abbrev pub daily_loss : RiskManager → ℤ × RiskManager
  daily_loss m = let m = maybe_reset_daily now next_midnight m in (m.daily_loss, m)

  abbrev pub trades_this_hour : RiskManager → ℕ × RiskManager
  trades_this_hour m = let m = prune_trade_times hour clock m in (length m.trade_times, m)

abbrev pub set_current_capital : ℤ → RiskManager → RiskManager
set_current_capital value m = record m { capital = value }

abbrev pub book_pnl : ℤ → ℕ → RiskManager → RiskManager
book_pnl pnl clock m =
    let capital = m.capital +ℤ pnl in
    let lost = ltb_ℤ pnl (pos 0) in
    record m {
      capital = capital;
      peak_capital = max_ℤ m.peak_capital capital;
      daily_loss = if lost then m.daily_loss +ℤ pnl else m.daily_loss;
      consecutive_losses = if lost then m.consecutive_losses + 1 else 0;
      trade_times = m.trade_times ++ (clock ∷ []);
    }

unfoldable pub record_trade : (now next_midnight clock : ℕ) → ℤ → RiskManager → RiskManager
unfolding maybe_reset_daily
record_trade now next_midnight clock pnl m =
    book_pnl pnl clock (maybe_reset_daily now next_midnight m)
