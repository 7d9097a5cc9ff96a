-- ===== src/Safety/Limits.antt =====
-- `safety_check` of safety/constants.py. Money is an integer number of units of 1/unit dollar.
pub mod Gate
use peanut_trade_internship.Base.{ℕ, ◌*◌, Option, none, some, leb, if◌then◌else◌}
use peanut_trade_internship.Base.Int.{ℤ, pos, neg, ltb_ℤ, leb_ℤ}

pub data Refusal : Type 0 where
  trade_exceeds_max : Refusal
  daily_loss_reached : Refusal
  capital_below_min : Refusal
  hourly_limit_reached : Refusal

abbrev pub absolute_max_trade_usd : ℕ
absolute_max_trade_usd = 25

abbrev pub absolute_max_daily_loss : ℕ
absolute_max_daily_loss = 20

abbrev pub absolute_min_capital : ℕ
absolute_min_capital = 50

abbrev pub absolute_max_trades_per_hour : ℕ
absolute_max_trades_per_hour = 30

-- None stands for (True, "OK").
unfoldable pub safety_check :
    (unit : ℕ) (trade_usd daily_loss total_capital : ℤ) → ℕ → Option Refusal
safety_check unit trade_usd daily_loss total_capital trades_this_hour =
    if ltb_ℤ (pos (absolute_max_trade_usd * unit)) trade_usd
    then some trade_exceeds_max
    else if leb_ℤ daily_loss (neg (pos (absolute_max_daily_loss * unit)))
    then some daily_loss_reached
    else if ltb_ℤ total_capital (pos (absolute_min_capital * unit))
    then some capital_below_min
    else if leb absolute_max_trades_per_hour trades_this_hour
    then some hourly_limit_reached
    else none
