-- ===== src/Safety/Validator.antt =====
-- `PreTradeValidator` of safety/risk.py. `signal.timestamp` and `time.time()` are integers of one
-- unit and `unit` is its count in a second, the unit of the prices, the size and the spread too.
pub mod Sane
use peanut_trade_internship.Base.{ℕ, ◌*◌, Bool, not, Option, none, some, if◌then◌else◌}
use peanut_trade_internship.Base.Int.{ℤ, pos, ◌-ℤ◌, ltb_ℤ, leb_ℤ}

-- What the validator reads of a signal. `signal_ttl_seconds` is 5 s where the signal has none.
pub record Quote : Type 0 where
  pub cex_price : ℤ
  pub dex_price : ℤ
  pub size : ℤ
  pub spread_bps : ℤ
  pub within_limits : Bool
  pub timestamp : ℤ
  pub signal_ttl_seconds : Option ℤ

pub data Defect : Type 0 where
  bad_cex_price : Defect
  bad_dex_price : Defect
  bad_size : Defect
  no_spread : Defect
  insane_spread : Defect
  not_within_limits : Defect
  expired : Defect

abbrev pub max_sane_spread_bps : ℕ
max_sane_spread_bps = 500

abbrev pub ttl_of : ℕ → Quote → ℤ
ttl_of unit s = elim s.signal_ttl_seconds [ none ↦ pos (5 * unit) | some t ↦ t ]

unfoldable pub validate_signal : (unit : ℕ) (now : ℤ) → Quote → Option Defect
validate_signal unit now s =
    if leb_ℤ s.cex_price (pos 0)
    then some bad_cex_price
    else if leb_ℤ s.dex_price (pos 0)
    then some bad_dex_price
    else if leb_ℤ s.size (pos 0)
    then some bad_size
    else if leb_ℤ s.spread_bps (pos 0)
    then some no_spread
    else if ltb_ℤ (pos (max_sane_spread_bps * unit)) s.spread_bps
    then some insane_spread
    else if not s.within_limits
    then some not_within_limits
    else if ltb_ℤ (ttl_of unit s) (now -ℤ s.timestamp)
    then some expired
    else none
