-- ===== src/Exchange/Stream.antt =====
-- The local book of `OrderBookStream` (exchange/ws_orderbook.py). Prices and quantities are
-- integers of one unit, and a book is a dict from price to quantity. The connection and the URL
-- helpers are left out; events are what `json.loads` made of the messages.
pub mod Book
pub mod Sorted
pub mod Export
use peanut_trade_internship.Base.{
  ℕ, Bool, true, false, List, [], ◌∷◌, Option, none, some, leb, take, select, if◌then◌else◌, int_eq,
}
use peanut_trade_internship.Base.Dict.{Dict, insert, pop}
use peanut_trade_internship.Base.Int.{ℤ, pos, ltb_ℤ, eqb_ℤ}

abbrev pub Level : Type 0
Level = ℤ × ℤ

abbrev pub Side : Type 0
Side = Dict ℤ ℤ

pub record Snapshot : Type 0 where
  pub last_update_id : ℕ
  pub bids : List Level
  pub asks : List Level

-- `first_id` is `U`, which the code does not read; `final_id` is `u`, 0 where the event has none.
pub record DiffEvent : Type 0 where
  pub first_id : ℕ
  pub final_id : ℕ
  pub bids : List Level
  pub asks : List Level

pub record OrderBookStream : Type 0 where
  pub depth_limit : ℕ
  pub bids : Side
  pub asks : Side
  pub last_update_id : ℕ
  pub synced : Bool

-- `{p: q for p, q in levels if q > 0}`, onto what is there.
unfoldable pub fill_side : List Level → Side → Side
fill_side [] side = side
fill_side ((price, qty) ∷ levels) side =
    fill_side levels (if ltb_ℤ (pos 0) qty then insert price qty side else side)

unfoldable pub apply_snapshot : Snapshot → OrderBookStream → OrderBookStream
apply_snapshot s o = record o {
  last_update_id = s.last_update_id;
  bids = fill_side s.bids [];
  asks = fill_side s.asks [];
  synced = true;
}

-- One turn of the loops over the updates of a side.
unfoldable pub update_side : Level → Side → Side
update_side (price, qty) side = if eqb_ℤ qty (pos 0) then pop price side else insert price qty side

unfoldable pub update_all : List Level → Side → Side
unfolding update_side
update_all [] side = side
update_all (l ∷ levels) side = update_all levels (update_side l side)

unfoldable pub apply_event : DiffEvent → OrderBookStream → Bool × OrderBookStream
apply_event e o = if leb e.final_id o.last_update_id then (false, o) else (
  true,
  record o {
    bids = update_all e.bids o.bids;
    asks = update_all e.asks o.asks;
    last_update_id = e.final_id;
  },
)

-- `sorted(items, key=price)`, where `first` tells which of two prices comes first.
unfoldable pub insert_level : (ℤ → ℤ → Bool) → Level → List Level → List Level
insert_level first l [] = l ∷ []
insert_level first l (m ∷ ms) = if first m.0 l.0 then m ∷ insert_level first l ms else l ∷ m ∷ ms

unfoldable pub sort_levels : (ℤ → ℤ → Bool) → List Level → List Level
unfolding insert_level
sort_levels first [] = []
sort_levels first (l ∷ ls) = insert_level first l (sort_levels first ls)

abbrev pub lower_first : ℤ → ℤ → Bool
lower_first a b = ltb_ℤ a b

abbrev pub higher_first : ℤ → ℤ → Bool
higher_first a b = ltb_ℤ b a

-- What `snapshot` gives of the two sides.
unfoldable pub snapshot_bids : OrderBookStream → List Level
snapshot_bids o = take o.depth_limit (sort_levels higher_first o.bids)

unfoldable pub snapshot_asks : OrderBookStream → List Level
snapshot_asks o = take o.depth_limit (sort_levels lower_first o.asks)

-- `x[0] if x else (0, 0)`
abbrev pub best : List Level → Level
best [] = (pos 0, pos 0)
best (l ∷ ls) = l
