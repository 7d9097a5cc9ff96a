-- ===== src/Inventory/CostBasis.antt =====
-- `CostBasisTracker` of inventory/tracker.py, and `PositionPnLEngine` of inventory/pnl.py over it.
-- Quantities, prices and fees are integers of one small unit, of which those that pass the checks
-- are natural numbers; costs are exact fractions of it, money is an exact fraction of its square.
pub mod Bounds
mod Tests
use peanut_trade_internship.Base.{
  ℕ, ◌+◌, ◌-◌, ◌*◌, min, String, str_eq, Bool, true, false, not, ◌||◌, ◌==◌, ltb, List, [], ◌∷◌,
  ◌++◌, Option, none, some, if◌then◌else◌, Outcome, ok, raised, ◌>>=◌, ◌>>◌, raise_if, select,
  string_eq,
}
use peanut_trade_internship.Base.Dict.{Dict, lookup, lookup_or, insert, keep_values}
use peanut_trade_internship.Base.Int.{ℤ, pos, ◌+ℤ◌, ◌-ℤ◌, ◌*ℤ◌, leb_ℤ, ltb_ℤ, pos_part}
use peanut_trade_internship.Pricing.Amm.{Fraction}

pub record Trade : Type 0 where
  pub asset : String
  pub side : String
  pub qty : ℕ
  pub price : ℕ
  pub fee : ℕ
  pub timestamp : ℤ

-- cost / units
pub record UnitPrice : Type 0 where
  pub cost : ℕ
  pub units : ℕ

pub record Position : Type 0 where
  pub asset : String
  pub qty : ℕ
  pub avg_cost : UnitPrice
  pub realized_pnl : Fraction
  pub total_fees : ℕ

pub record CostBasisTracker : Type 0 where
  pub positions : Dict String Position
  pub trades : List Trade

abbrev pub new_tracker : CostBasisTracker
new_tracker = record { positions = []; trades = [] }

pub data FillError : Type 0 where
  bad_qty bad_price bad_fee bad_side : FillError

abbrev pub no_cost : UnitPrice
no_cost = record { cost = 0; units = 1 }

abbrev pub no_pnl : Fraction
no_pnl = record { num = pos 0; den = 1 }

abbrev pub new_position : String → Position
new_position asset = record {
  asset = asset;
  qty = 0;
  avg_cost = no_cost;
  realized_pnl = no_pnl;
  total_fees = 0;
}

abbrev pub add_fraction : Fraction → Fraction → Fraction
add_fraction a b = record { num = a.num *ℤ pos b.den +ℤ b.num *ℤ pos a.den; den = a.den * b.den }

abbrev pub whole : ℕ → UnitPrice
whole price = record { cost = price; units = 1 }

-- `(price - avg_cost) * qty`
abbrev pub gain : UnitPrice → UnitPrice → ℕ → Fraction
gain price avg_cost qty = record {
  num = (pos (price.cost * avg_cost.units) -ℤ pos (avg_cost.cost * price.units)) *ℤ pos qty;
  den = price.units * avg_cost.units;
}

unfoldable pub bought : (qty price : ℕ) → Position → Position
bought qty price p = record p {
  qty = p.qty + qty;
  avg_cost = record {
    cost = p.avg_cost.cost * p.qty + price * qty * p.avg_cost.units;
    units = p.avg_cost.units * (p.qty + qty);
  };
}

unfoldable pub sold : (qty price fee : ℕ) → Position → Position
sold qty price fee p =
    let sell_qty = min qty p.qty in
    let less_fee : Fraction = record { num = pos 0 -ℤ pos fee; den = 1 } in
    let realized = add_fraction (gain (whole price) p.avg_cost sell_qty) less_fee in
    if ltb 0 sell_qty
    then record p {
      realized_pnl = add_fraction p.realized_pnl realized;
      qty = p.qty - sell_qty;
      avg_cost = if p.qty - sell_qty == 0 then no_cost else p.avg_cost;
    }
    else p

-- What `record_fill` does to a position.
unfoldable pub filled : (side : String) (qty price fee : ℕ) → Position → Position
filled side qty price fee p =
    let q = record p { total_fees = p.total_fees + fee } in
    if str_eq side "buy" then bought qty price q else sold qty price fee q

-- `now` is the time of the clock, in milliseconds.
unfoldable pub record_fill :
    (asset side : String) (qty price fee : ℤ) (timestamp : Option ℤ) (now : ℤ)
    → CostBasisTracker
    → Outcome FillError CostBasisTracker
record_fill asset side qty price fee timestamp now t = do
  raise_if (leb_ℤ qty (pos 0)) bad_qty
  raise_if (leb_ℤ price (pos 0)) bad_price
  raise_if (ltb_ℤ fee (pos 0)) bad_fee
  raise_if (not (str_eq side "buy" || str_eq side "sell")) bad_side
  let trade : Trade = record {
    asset = asset;
    side = side;
    qty = pos_part qty;
    price = pos_part price;
    fee = pos_part fee;
    timestamp = elim timestamp [ none ↦ now | some ts ↦ ts ];
  }
  let p = lookup_or asset (new_position asset) t.positions
  let q = filled side (pos_part qty) (pos_part price) (pos_part fee) p
  ok (record { positions = insert asset q t.positions; trades = t.trades ++ trade ∷ [] })

unfoldable pub get_position : String → CostBasisTracker → Position
get_position asset t = lookup_or asset (new_position asset) t.positions

abbrev pub all_positions : CostBasisTracker → Dict String Position
all_positions t = keep_values (λ p. ltb 0 p.qty) t.positions

unfoldable pub unrealized_pnl : String → UnitPrice → CostBasisTracker → Fraction
unrealized_pnl asset mark_price t =
    let p = get_position asset t in if p.qty == 0 then no_pnl else gain mark_price p.avg_cost p.qty

abbrev pub exposure : Dict String ℕ → Dict String Position → ℕ
exposure prices [] = 0
exposure prices ((asset, p) ∷ positions) =
    elim (lookup asset prices) [ none ↦ 0 | some price ↦ p.qty * price ] + exposure prices positions

abbrev pub total_exposure : Dict String ℕ → CostBasisTracker → ℕ
total_exposure prices t = exposure prices (all_positions t)

abbrev pub trade_history : Option String → CostBasisTracker → List Trade
trade_history none t = t.trades
trade_history (some asset) t = select (λ trade. str_eq trade.asset asset) t.trades

pub record PnLSnapshot : Type 0 where
  pub asset : String
  pub qty : ℕ
  pub avg_cost : UnitPrice
  pub mark_price : UnitPrice
  pub unrealized_pnl : Fraction
  pub realized_pnl : Fraction
  pub total_fees : ℕ
  pub total_pnl : Fraction
  pub return_pct : Fraction

-- unrealized / (avg_cost * qty), for a positive cost.
abbrev pub return_on : Fraction → UnitPrice → ℕ → Fraction
return_on unrealized avg_cost qty =
    if ltb 0 (avg_cost.cost * qty)
    then record {
      num = unrealized.num *ℤ pos avg_cost.units;
      den = unrealized.den * (avg_cost.cost * qty);
    }
    else no_pnl

-- The snapshot of a position, of which `unrealized` is the unrealized profit.
abbrev pub snapshot_of : String → UnitPrice → Position → Fraction → PnLSnapshot
snapshot_of asset mark_price p unrealized = record {
  asset = asset;
  qty = p.qty;
  avg_cost = p.avg_cost;
  mark_price = mark_price;
  unrealized_pnl = unrealized;
  realized_pnl = p.realized_pnl;
  total_fees = p.total_fees;
  total_pnl = add_fraction p.realized_pnl unrealized;
  return_pct = return_on unrealized p.avg_cost p.qty;
}

unfoldable pub asset_pnl : String → UnitPrice → CostBasisTracker → PnLSnapshot
asset_pnl asset mark_price t =
    snapshot_of asset mark_price (get_position asset t) (unrealized_pnl asset mark_price t)

pub record PortfolioPnL : Type 0 where
  pub snapshots : List PnLSnapshot
  pub total_unrealized : Fraction
  pub total_realized : Fraction
  pub total_fees : ℕ
  pub net_pnl : Fraction

-- What the loop of `snapshot` adds up.
abbrev pub add_snapshot : PnLSnapshot → PortfolioPnL → PortfolioPnL
add_snapshot s sums =
    let unrealized = add_fraction sums.total_unrealized s.unrealized_pnl in
    let realized = add_fraction sums.total_realized s.realized_pnl in
    record {
      snapshots = sums.snapshots ++ s ∷ [];
      total_unrealized = unrealized;
      total_realized = realized;
      total_fees = sums.total_fees + s.total_fees;
      net_pnl = add_fraction realized unrealized;
    }

module _ (mark_prices : Dict String UnitPrice) (t : CostBasisTracker) where
  abbrev pub snapshot_from : Dict String Position → PortfolioPnL → PortfolioPnL
  snapshot_from [] sums = sums
  snapshot_from ((asset, p) ∷ positions) sums =
      let mark = lookup_or asset p.avg_cost mark_prices in
      let s = snapshot_of asset mark p (unrealized_pnl asset mark t) in
      snapshot_from positions (add_snapshot s sums)

  unfoldable pub snapshot : PortfolioPnL
  snapshot = snapshot_from t.positions (record {
    snapshots = [];
    total_unrealized = no_pnl;
    total_realized = no_pnl;
    total_fees = 0;
    net_pnl = add_fraction no_pnl no_pnl;
  })
