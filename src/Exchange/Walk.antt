-- ===== src/Exchange/Walk.antt =====
-- `OrderBookAnalyzer` of exchange/orderbook.py, the other analyzer of a book. Prices and quantities
-- are natural numbers of one unit, a size is an integer of it, and quotients are exact fractions, of
-- which n / 0 does not occur. Imbalances are floats.
pub mod Agree
use peanut_trade_internship.Base.{
  ℕ, ◌+◌, ◌-◌, ◌*◌, min, String, str_eq, Bool, not, ◌&&◌, ◌||◌, ◌==◌, leb, ltb, List, [], ◌∷◌, ◌++◌,
  take, select, map, length, if◌then◌else◌, Outcome, ok, raised, ◌>>=◌, ◌>>◌, raise_if,
}
use peanut_trade_internship.Base.Int.{ℤ, pos, ◌-ℤ◌, ◌*ℤ◌, leb_ℤ, pos_part}
use peanut_trade_internship.Base.Float.{Float}
use peanut_trade_internship.Pricing.Amm.{Fraction}
use peanut_trade_internship.Exchange.Depth.{Level, AnalyzerError, bad_size, bad_side}

pub record Book : Type 0 where
  pub bids : List Level
  pub asks : List Level
  pub symbol : String
  pub timestamp : ℕ
  pub mid : ℕ
  pub best_bid : Level
  pub best_ask : Level

pub record Fill : Type 0 where
  pub price : ℕ
  pub qty : ℕ
  pub cost : ℕ

pub record Walk : Type 0 where
  pub avg_price : Fraction
  pub total_cost : ℕ
  pub slippage_bps : Fraction
  pub levels_consumed : ℕ
  pub fully_filled : Bool
  pub fills : List Fill

-- What the loop of `walk_the_book` changes.
pub record Filling : Type 0 where
  pub remaining : ℕ
  pub fills : List Fill
  pub total_cost : ℕ

abbrev pub take_level : ℕ → ℕ → Filling → Filling
take_level price avail_qty s =
    let taken = min s.remaining avail_qty in
    let cost = price * taken in
    record {
      remaining = s.remaining - taken;
      fills = s.fills ++ record { price = price; qty = taken; cost = cost } ∷ [];
      total_cost = s.total_cost + cost;
    }

unfoldable pub walk : List Level → Filling → Filling
walk [] s = s
walk ((price, avail_qty) ∷ levels) s =
    let rest = walk levels (take_level price avail_qty s) in if leb s.remaining 0 then s else rest

abbrev pub no_fraction : Fraction
no_fraction = record { num = pos 0; den = 1 }

abbrev pub walk_side : Book → String → List Level
walk_side b side = if str_eq side "buy" then b.asks else b.bids

abbrev pub best_of : List Level → ℕ
best_of [] = 0
best_of ((price, qty) ∷ levels) = price

-- A difference of natural numbers stops at 0, as `max(slippage_bps, 0)` does.
abbrev pub slippage : String → (best_price total_cost filled_qty : ℕ) → Fraction
slippage side best_price total_cost filled_qty =
    if ltb 0 best_price && ltb 0 filled_qty
    then record {
      num = pos (
          if str_eq side "buy"
          then (total_cost - best_price * filled_qty) * 10000
          else (best_price * filled_qty - total_cost) * 10000);
      den = best_price * filled_qty;
    }
    else no_fraction

abbrev pub average : ℕ → Filling → Fraction
average qty s =
    let filled_qty = qty - s.remaining in
    if ltb 0 filled_qty then record { num = pos s.total_cost; den = filled_qty } else no_fraction

abbrev pub walk_result : String → ℕ → List Level → Filling → Walk
walk_result side qty levels s =
    let filled_qty = qty - s.remaining in
    record {
      avg_price = average qty s;
      total_cost = s.total_cost;
      slippage_bps = slippage side (best_of levels) s.total_cost filled_qty;
      levels_consumed = length s.fills;
      fully_filled = leb s.remaining 0;
      fills = s.fills;
    }

abbrev pub unfilled : ℕ → Filling
unfilled qty = record { remaining = qty; fills = []; total_cost = 0 }

unfoldable pub walk_the_book : Book → String → ℤ → Outcome AnalyzerError Walk
walk_the_book b side qty = do
  raise_if (not (str_eq side "buy" || str_eq side "sell")) bad_side
  raise_if (leb_ℤ qty (pos 0)) bad_size
  let levels = walk_side b side
  ok (walk_result side (pos_part qty) levels (walk levels (unfilled (pos_part qty))))

abbrev pub quantity : List Level → ℕ
quantity [] = 0
quantity ((price, qty) ∷ levels) = qty + quantity levels

-- The levels within `bps` = m / n basis points of the best price.
abbrev pub near_bid : (best m n : ℕ) → List Level → List Level
near_bid best m n = select (λ l. leb (best * (n * 10000)) (l.0 * (n * 10000) + best * m))

abbrev pub near_ask : (best m n : ℕ) → List Level → List Level
near_ask best m n = select (λ l. leb (l.0 * (n * 10000)) (best * (n * 10000 + m)))

unfoldable pub depth_at_bps : Book → String → (m n : ℕ) → Outcome AnalyzerError ℕ
depth_at_bps b side m n = do
  raise_if (not (str_eq side "bid" || str_eq side "ask")) bad_side
  if str_eq side "bid"
      then ok (quantity (near_bid (best_of b.bids) m n b.bids))
      else ok (quantity (near_ask (best_of b.asks) m n b.asks))

unfoldable pub effective_spread : Book → ℤ → Outcome AnalyzerError Fraction
effective_spread b qty = do
  buy_result ← walk_the_book b "buy" qty
  sell_result ← walk_the_book b "sell" qty
  let ask = buy_result.avg_price
  let bid = sell_result.avg_price
  if b.mid == 0 || pos_part ask.num == 0 || pos_part bid.num == 0
      then ok no_fraction
      else ok (record {
        num = (ask.num *ℤ pos bid.den -ℤ bid.num *ℤ pos ask.den) *ℤ pos 10000;
        den = ask.den * bid.den * b.mid;
      })

abbrev pub quoted_spread_bps : Book → Fraction
quoted_spread_bps b =
    if b.mid == 0 || b.best_bid.0 == 0 || b.best_ask.0 == 0
    then no_fraction
    else record { num = (pos b.best_ask.0 -ℤ pos b.best_bid.0) *ℤ pos 10000; den = b.mid }

module _ (F : Float) (float : ℕ → F.Num) where
  abbrev pub imbalance : Book → (levels : ℕ) → F.Num
  imbalance b levels =
      let bid_qty = float (quantity (take levels b.bids)) in
      let ask_qty = float (quantity (take levels b.asks)) in
      let all_qty = F.add bid_qty ask_qty in
      if F.is_zero all_qty then F.literal (pos 0) 0 else F.div (F.sub bid_qty ask_qty) all_qty
