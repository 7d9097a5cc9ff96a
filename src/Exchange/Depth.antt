-- ===== src/Exchange/Depth.antt =====
-- `OrderBookAnalyzer` of exchange/order_book.py. Prices and quantities in a book are natural
-- numbers of one unit; the size that is asked for is an integer.
pub mod Vwap
use peanut_trade_internship.Base.{
  ℕ, suc, ◌+◌, ◌-◌, ◌*◌, min, String, str_eq, Bool, not, ◌||◌, ◌==◌, leb, Option, none, some, List,
  [], ◌∷◌, take, select, if◌then◌else◌, Outcome, ok, raised, ◌>>=◌, ◌>>◌, raise_if,
}
use peanut_trade_internship.Base.Int.{ℤ, pos, ◌-ℤ◌, leb_ℤ, pos_part}
use peanut_trade_internship.Pricing.Amm.{Fraction}

abbrev pub Level : Type 0
Level = ℕ × ℕ

pub record OrderBookAnalyzer : Type 0 where
  pub bids : List Level
  pub asks : List Level
  pub mid : ℕ

pub data AnalyzerError : Type 0 where
  bad_size : AnalyzerError
  bad_side : AnalyzerError

pub record DepthLevel : Type 0 where
  pub price : ℕ
  pub qty : ℕ
  pub cumulative_qty : ℕ
  pub cumulative_value : ℕ

-- The loop of `vwap_to_fill`: what remains to fill, and what was paid.
unfoldable pub fill : List Level → (remaining total_value : ℕ) → ℕ × ℕ
fill [] remaining total_value = (remaining, total_value)
fill ((price, qty) ∷ levels) remaining total_value =
    let taken = min remaining qty in
    let rest = fill levels (remaining - taken) (total_value + price * taken) in
    if leb (remaining - taken) 0 then (remaining - taken, total_value + price * taken) else rest

abbrev pub side_levels : OrderBookAnalyzer → String → List Level
side_levels b side = if str_eq side "buy" then b.asks else b.bids

unfoldable pub vwap_to_fill :
    OrderBookAnalyzer → String → ℤ → Outcome AnalyzerError (Option Fraction)
vwap_to_fill b side size = do
  raise_if (leb_ℤ size (pos 0)) bad_size
  raise_if (not (str_eq side "buy" || str_eq side "sell")) bad_side
  let (remaining, total_value) = fill (side_levels b side) (pos_part size) 0
  if leb 1 remaining
      then ok none
      else ok (some (record { num = pos total_value; den = pos_part size }))

-- The loop of `depth_levels`, from the sums so far.
unfoldable pub accumulate : List Level → (cum_qty cum_val : ℕ) → List DepthLevel
accumulate [] cum_qty cum_val = []
accumulate ((price, qty) ∷ levels) cum_qty cum_val =
    record {
      price = price;
      qty = qty;
      cumulative_qty = cum_qty + qty;
      cumulative_value = cum_val + price * qty;
    }
    ∷ accumulate levels (cum_qty + qty) (cum_val + price * qty)

pub depth_levels : OrderBookAnalyzer → String → ℕ → Outcome AnalyzerError (List DepthLevel)
depth_levels b side n = do
  raise_if (not (str_eq side "bid" || str_eq side "ask")) bad_side
  ok (accumulate (take n (if str_eq side "ask" then b.asks else b.bids)) 0 0)

-- `liquidity_walls`, for each side.
abbrev pub liquidity_walls : OrderBookAnalyzer → ℕ → List Level × List Level
liquidity_walls b min_qty =
    (select (λ l. leb min_qty l.1) b.bids, select (λ l. leb min_qty l.1) b.asks)

abbrev pub sum_qty : List Level → ℕ
sum_qty [] = 0
sum_qty ((price, qty) ∷ levels) = qty + sum_qty levels

abbrev pub sum_value : List Level → ℕ
sum_value [] = 0
sum_value ((price, qty) ∷ levels) = price * qty + sum_value levels

unfoldable pub book_imbalance : OrderBookAnalyzer → ℕ → Fraction
book_imbalance b depth =
    let bid_qty = sum_qty (take depth b.bids) in
    let ask_qty = sum_qty (take depth b.asks) in
    if bid_qty + ask_qty == 0
    then record { num = pos 0; den = 1 }
    else record { num = pos bid_qty -ℤ pos ask_qty; den = bid_qty + ask_qty }

pub record NearMid : Type 0 where
  pub bid_qty : ℕ
  pub ask_qty : ℕ
  pub bid_value : ℕ
  pub ask_value : ℕ

-- The levels within `bps` = m / n basis points of the mid price.
abbrev pub bids_within : (mid m n : ℕ) → List Level → List Level
bids_within mid m n = select (λ l. leb (mid * (n * 10000)) (l.0 * (n * 10000) + mid * m))

abbrev pub asks_within : (mid m n : ℕ) → List Level → List Level
asks_within mid m n = select (λ l. leb (l.0 * (n * 10000)) (mid * (n * 10000 + m)))

unfoldable pub depth_at_bps : OrderBookAnalyzer → (m n : ℕ) → NearMid
depth_at_bps b m n =
    let near_bids = bids_within b.mid m n b.bids in
    let near_asks = asks_within b.mid m n b.asks in
    if b.mid == 0
    then record { bid_qty = 0; ask_qty = 0; bid_value = 0; ask_value = 0 }
    else record {
      bid_qty = sum_qty near_bids;
      ask_qty = sum_qty near_asks;
      bid_value = sum_value near_bids;
      ask_value = sum_value near_asks;
    }

abbrev pub spread_of : (bids asks : List Level) → ℤ
spread_of ((bid, bid_qty) ∷ bids) ((ask, ask_qty) ∷ asks) = pos ask -ℤ pos bid
spread_of _ _ = pos 0

abbrev pub spread : OrderBookAnalyzer → ℤ
spread b = spread_of b.bids b.asks
