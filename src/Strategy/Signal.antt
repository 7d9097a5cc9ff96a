-- ===== src/Strategy/Signal.antt =====
-- `Direction` and `Signal` of strategy/signal.py. Times are integers in one small unit of the clock;
-- prices and sizes are floats.
use peanut_trade_internship.Base.{String, Bool, ◌&&◌}
use peanut_trade_internship.Base.Int.{ℤ, ltb_ℤ, ◌-ℤ◌}
use peanut_trade_internship.Base.Float.{Float}

pub data Direction : Type 0 where
  buy_cex_sell_dex buy_dex_sell_cex : Direction

module _ (F : Float) where
  open F use {Num, mul}

  pub record Signal : Type 0 where
    pub signal_id : String
    pub pair : String
    pub direction : Direction
    pub cex_price : Num
    pub dex_price : Num
    pub spread_bps : Num
    pub size : Num
    pub expected_gross_pnl : Num
    pub expected_fees : Num
    pub expected_net_pnl : Num
    pub score : Num
    pub timestamp : ℤ
    pub expiry : ℤ
    pub inventory_ok : Bool
    pub within_limits : Bool
    pub bid_ask_spread_bps : Num

module _ {F : Float} where
  -- at the time `now`
  unfoldable pub is_valid : Signal F → ℤ → Bool
  is_valid s now = ltb_ℤ now s.expiry && s.inventory_ok && s.within_limits

  unfoldable pub age_seconds : Signal F → ℤ → ℤ
  age_seconds s now = now -ℤ s.timestamp

  unfoldable pub time_to_expiry : Signal F → ℤ → ℤ
  time_to_expiry s now = s.expiry -ℤ now

  unfoldable pub notional_usd : Signal F → F.Num
  notional_usd s = F.mul s.size s.cex_price
