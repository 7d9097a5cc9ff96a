-- ===== src/Safety/Validator/Sane.antt =====
-- What `PreTradeValidator` (safety/risk.py) lets through.
use peanut_trade_internship.Base.{ℕ, ◌*◌, true, none, ◌≡◌, ◌↔◌, arith}
use peanut_trade_internship.Base.Int.{ℤ, pos, ◌-ℤ◌, ◌≤ℤ◌, ◌<ℤ◌}
use peanut_trade_internship.Safety.Validator.{Quote, validate_signal, ttl_of, max_sane_spread_bps}

abbrev pub IsSane : ℕ → ℤ → Quote → Type 0
IsSane unit now s =
    (pos 0 <ℤ s.cex_price)
    × (pos 0 <ℤ s.dex_price)
    × (pos 0 <ℤ s.size)
    × (pos 0 <ℤ s.spread_bps)
    × (s.spread_bps ≤ℤ pos (max_sane_spread_bps * unit))
    × (s.within_limits ≡ true)
    × (now -ℤ s.timestamp ≤ℤ ttl_of unit s)

-- The validator passes exactly the signals with positive prices, size and spread, a spread of at
-- most 500 bps, the inventory check passed, and an age of at most its time to live.
pub validate_signal-IsSane :
    (unit : ℕ) (now : ℤ) (s : Quote) → (validate_signal unit now s ≡ none) ↔ IsSane unit now s
unfolding validate_signal
validate_signal-IsSane unit now s = (λ h. ground arith, λ h. ground arith)
