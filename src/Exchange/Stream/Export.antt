-- ===== src/Exchange/Stream/Export.antt =====
-- The dict that `snapshot` of exchange/ws_orderbook.py returns, with exact fractions for its
-- quotients.
use peanut_trade_internship.Base.{ℕ, String, not, ◌&&◌, List, if◌then◌else◌}
use peanut_trade_internship.Base.Int.{ℤ, pos, ◌+ℤ◌, ◌-ℤ◌, ◌*ℤ◌, ltb_ℤ, eqb_ℤ, pos_part}
use peanut_trade_internship.Pricing.Amm.{Fraction}
use peanut_trade_internship.Exchange.Stream.{
  Level, OrderBookStream, snapshot_bids, snapshot_asks, best,
}

pub record Exported : Type 0 where
  pub symbol : String
  pub timestamp : ℕ
  pub bids : List Level
  pub asks : List Level
  pub best_bid : Level
  pub best_ask : Level
  pub mid_price : Fraction
  pub spread_bps : Fraction
  pub last_update_id : ℕ

abbrev zero_fraction : Fraction
zero_fraction = record { num = pos 0; den = 1 }

abbrev mid_of : (bid ask : ℤ) → Fraction
mid_of bid ask =
    if not (eqb_ℤ bid (pos 0)) && not (eqb_ℤ ask (pos 0))
    then record { num = bid +ℤ ask; den = 2 }
    else zero_fraction

abbrev spread_of : (bid ask : ℤ) → Fraction → Fraction
spread_of bid ask mid =
    if ltb_ℤ (pos 0) mid.num
    then record { num = (ask -ℤ bid) *ℤ pos mid.den *ℤ pos 10000; den = pos_part mid.num }
    else zero_fraction

-- `now` is the time of the clock, in milliseconds.
abbrev export : (symbol : String) (now : ℕ) → OrderBookStream → Exported
export symbol now o =
    let bids = snapshot_bids o in
    let asks = snapshot_asks o in
    let bid = (best bids).0 in
    let ask = (best asks).0 in
    record {
      symbol = symbol;
      timestamp = now;
      bids = bids;
      asks = asks;
      best_bid = best bids;
      best_ask = best asks;
      mid_price = mid_of bid ask;
      spread_bps = spread_of bid ask (mid_of bid ask);
      last_update_id = o.last_update_id;
    }
