-- ===== src/Inventory/Pnl.antt =====
-- `TradeLeg`, `ArbRecord` and `PnLEngine` of inventory/pnl.py. Prices and amounts are integers of
-- 10^-18, money is integers of 10^-36, and quotients are exact fractions. A timestamp counts the
-- seconds of UTC since 1970. `stdev` and `sum` of floats are parameters, as is the float of money.
pub mod Totals
pub mod Recent
mod Tests
use mathlib.Core.List.{reverse}
use peanut_trade_internship.Base.{
  ℕ, zero, suc, ◌-◌, ◌*◌, ◌/◌, ◌%◌, String, Bool, true, false, not, List, [], ◌∷◌, ◌++◌, map,
  if◌then◌else◌, length, ltb, leb, select, drop, nat_eq,
}
use peanut_trade_internship.Base.Dict.{Dict, lookup_or, insert}
use peanut_trade_internship.Base.Int.{ℤ, pos, negsuc, ◌+ℤ◌, ◌-ℤ◌, ◌*ℤ◌, ltb_ℤ, eqb_ℤ, max_ℤ}
use peanut_trade_internship.Base.Float.{Float}

-- num / den
pub record Ratio : Type 0 where
  pub num : ℤ
  pub den : ℤ

abbrev pub no_ratio : Ratio
no_ratio = record { num = pos 0; den = pos 1 }

abbrev pub add_ratio : Ratio → Ratio → Ratio
add_ratio a b = record { num = a.num *ℤ b.den +ℤ b.num *ℤ a.den; den = a.den *ℤ b.den }

-- a / n, for an n above 0.
abbrev pub div_ratio : Ratio → ℕ → Ratio
div_ratio a n = record { num = a.num; den = a.den *ℤ pos n }

pub record TradeLeg : Type 0 where
  pub id : String
  pub timestamp : ℕ
  pub venue : String
  pub symbol : String
  pub side : String
  pub amount : ℤ
  pub price : ℤ
  pub fee : ℤ
  pub fee_asset : String

pub record ArbRecord : Type 0 where
  pub id : String
  pub timestamp : ℕ
  pub buy_leg : TradeLeg
  pub sell_leg : TradeLeg
  pub gas_cost_usd : ℤ

abbrev pub notional : ArbRecord → ℤ
notional t = t.buy_leg.price *ℤ t.buy_leg.amount

abbrev pub gross_pnl : ArbRecord → ℤ
gross_pnl t =
    let sell_revenue = t.sell_leg.price *ℤ t.sell_leg.amount in
    let buy_cost = t.buy_leg.price *ℤ t.buy_leg.amount in sell_revenue -ℤ buy_cost

abbrev pub total_fees : ArbRecord → ℤ
total_fees t = t.buy_leg.fee +ℤ t.sell_leg.fee +ℤ t.gas_cost_usd

unfoldable pub net_pnl : ArbRecord → ℤ
net_pnl t = gross_pnl t -ℤ total_fees t

unfoldable pub net_pnl_bps : ArbRecord → Ratio
net_pnl_bps t =
    if eqb_ℤ (notional t) (pos 0)
    then no_ratio
    else record { num = net_pnl t *ℤ pos 10000; den = notional t }

-- `self.trades`
abbrev pub PnLEngine : Type 0
PnLEngine = List ArbRecord

unfoldable pub record_arb : ArbRecord → PnLEngine → PnLEngine
record_arb trade trades = trades ++ trade ∷ []

-- `sum(xs, Decimal("0"))`, from what has been added so far.
abbrev pub sum_from : ℤ → List ℤ → ℤ
sum_from a [] = a
sum_from a (x ∷ xs) = sum_from (a +ℤ x) xs

abbrev pub sum : List ℤ → ℤ
sum xs = sum_from (pos 0) xs

abbrev pub sum_ratios : Ratio → List Ratio → Ratio
sum_ratios a [] = a
sum_ratios a (x ∷ xs) = sum_ratios (add_ratio a x) xs

abbrev pub smaller : ℤ → ℤ → ℤ
smaller a b = if ltb_ℤ b a then b else a

-- `max` and `min` of a list, from the best so far.
abbrev pub max_from : ℤ → List ℤ → ℤ
max_from a [] = a
max_from a (x ∷ xs) = max_from (max_ℤ a x) xs

abbrev pub min_from : ℤ → List ℤ → ℤ
min_from a [] = a
min_from a (x ∷ xs) = min_from (smaller a x) xs

-- `timestamp.hour`
abbrev pub hour : ArbRecord → ℕ
hour t = t.timestamp / 3600 % 24

-- The loop that builds `pnl_by_hour`.
abbrev pub by_hour : List ArbRecord → Dict ℕ ℤ → Dict ℕ ℤ
by_hour [] d = d
by_hour (t ∷ ts) d = by_hour ts (insert (hour t) (lookup_or (hour t) (pos 0) d +ℤ net_pnl t) d)

pub record Summary (F : Float) : Type 0 where
  pub total_trades : ℕ
  pub total_pnl_usd : ℤ
  pub total_fees_usd : ℤ
  pub avg_pnl_per_trade : Ratio
  pub avg_pnl_bps : Ratio
  pub win_rate : F.Num
  pub best_trade_pnl : ℤ
  pub worst_trade_pnl : ℤ
  pub total_notional : ℤ
  pub sharpe_estimate : F.Num
  pub pnl_by_hour : Dict ℕ ℤ

abbrev pub wins : List ℤ → ℕ
wins pnls = length (select (λ p. ltb_ℤ (pos 0) p) pnls)

module _ (F : Float) (float : ℤ → F.Num) (stdev sum_floats : List F.Num → F.Num) where
  abbrev pub sharpe : List ℤ → F.Num
  sharpe pnls =
      if leb 2 (length pnls)
      then (let pnls_float = map float pnls in
          let std_f = stdev pnls_float in
          let mean_f = F.div (sum_floats pnls_float) (F.literal (pos (length pnls)) 0) in
          if not (F.is_zero std_f) then F.div mean_f std_f else F.literal (pos 0) 0)
      else F.literal (pos 0) 0

  unfoldable pub summary : PnLEngine → Summary F
  summary [] = record {
    total_trades = 0;
    total_pnl_usd = pos 0;
    total_fees_usd = pos 0;
    avg_pnl_per_trade = no_ratio;
    avg_pnl_bps = no_ratio;
    win_rate = F.literal (pos 0) 0;
    best_trade_pnl = pos 0;
    worst_trade_pnl = pos 0;
    total_notional = pos 0;
    sharpe_estimate = F.literal (pos 0) 0;
    pnl_by_hour = [];
  }
  summary (t ∷ ts) =
      let trades = t ∷ ts in
      let pnls = map net_pnl trades in
      let n = length trades in
      let share = F.div (F.literal (pos (wins pnls)) 0) (F.literal (pos n) 0) in
      record {
        total_trades = n;
        total_pnl_usd = sum pnls;
        total_fees_usd = sum (map total_fees trades);
        avg_pnl_per_trade = div_ratio (record { num = sum pnls; den = pos 1 }) n;
        avg_pnl_bps = div_ratio (sum_ratios no_ratio (map net_pnl_bps trades)) n;
        win_rate = F.mul share (F.literal (pos 100) 0);
        best_trade_pnl = max_from (net_pnl t) (map net_pnl ts);
        worst_trade_pnl = min_from (net_pnl t) (map net_pnl ts);
        total_notional = sum (map notional trades);
        sharpe_estimate = sharpe pnls;
        pnl_by_hour = by_hour trades [];
      }

-- A line of the display.
pub record Line : Type 0 where
  pub id : String
  pub timestamp : ℕ
  pub symbol : String
  pub buy_venue : String
  pub sell_venue : String
  pub gross_pnl_of : ℤ
  pub net_pnl_of : ℤ
  pub net_pnl_bps_of : Ratio
  pub total_fees_of : ℤ
  pub notional_of : ℤ

abbrev pub line : ArbRecord → Line
line t = record {
  id = t.id;
  timestamp = t.timestamp;
  symbol = t.buy_leg.symbol;
  buy_venue = t.buy_leg.venue;
  sell_venue = t.sell_leg.venue;
  gross_pnl_of = gross_pnl t;
  net_pnl_of = net_pnl t;
  net_pnl_bps_of = net_pnl_bps t;
  total_fees_of = total_fees t;
  notional_of = notional t;
}

-- `trades[-n:]`: -0 is 0, which slices from the start, and a negative n counts from the start.
abbrev pub from_end : ℤ → PnLEngine → PnLEngine
from_end (pos zero) trades = trades
from_end (pos n) trades = drop (length trades - n) trades
from_end (negsuc n) trades = drop (suc n) trades

abbrev pub slice : ℤ → PnLEngine → PnLEngine
slice n trades = if ltb_ℤ n (pos (length trades)) then from_end n trades else trades

unfoldable pub recent : ℤ → PnLEngine → List Line
recent n trades = map line (reverse (slice n trades))
