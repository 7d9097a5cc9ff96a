-- ===== src/Safety/Limits/Gate.antt =====
-- What `safety_check` (safety/constants.py) lets through.
use peanut_trade_internship.Base.{ℕ, ◌*◌, ◌<◌, none, ◌≡◌, ◌↔◌, arith}
use peanut_trade_internship.Base.Int.{ℤ, pos, neg, ◌≤ℤ◌, ◌<ℤ◌}
use peanut_trade_internship.Safety.Limits.{
  safety_check, absolute_max_trade_usd, absolute_max_daily_loss, absolute_min_capital,
  absolute_max_trades_per_hour,
}

abbrev pub IsSafe : (unit : ℕ) (trade_usd daily_loss total_capital : ℤ) → ℕ → Type 0
IsSafe unit trade_usd daily_loss total_capital trades =
    (trade_usd ≤ℤ pos (absolute_max_trade_usd * unit))
    × (neg (pos (absolute_max_daily_loss * unit)) <ℤ daily_loss)
    × (pos (absolute_min_capital * unit) ≤ℤ total_capital)
    × (trades < absolute_max_trades_per_hour)

-- The gate passes exactly the trades within all four absolute limits.
pub safety_check-IsSafe :
    (unit : ℕ) (trade_usd daily_loss total_capital : ℤ) (trades : ℕ)
    → (safety_check unit trade_usd daily_loss total_capital trades ≡ none)
      ↔ IsSafe unit trade_usd daily_loss total_capital trades
unfolding safety_check
safety_check-IsSafe unit trade_usd daily_loss total_capital trades =
    (λ h. ground arith, λ h. ground arith)
