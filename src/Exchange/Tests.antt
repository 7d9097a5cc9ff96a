-- ===== src/Exchange/Tests.antt =====
-- Instances of the theorems on the order books.
use peanut_trade_internship.Base.{
  ◌≤◌, ◌<◌, if◌then◌else◌, none, some, [], ◌∷◌, ◌≡◌, refl, arith, true, false, ok, int_eq,
}
use peanut_trade_internship.Base.Dict.{lookup}
use peanut_trade_internship.Base.Int.{ℤ, pos}
use peanut_trade_internship.Exchange.Stream.{
  OrderBookStream, Snapshot, DiffEvent, apply_snapshot, apply_event,
}
use peanut_trade_internship.Exchange.Stream.Book.{
  IsBook, apply_events, last_quantity, apply_event_levels, stream-IsBook,
}
use peanut_trade_internship.Exchange.Depth.{OrderBookAnalyzer, vwap_to_fill}
use peanut_trade_internship.Exchange.Walk.{Book, Walk, walk_the_book}
use peanut_trade_internship.Exchange.Walk.Agree.{walk_the_book-vwap_to_fill}

abbrev a_stream : OrderBookStream
a_stream = record {
  depth_limit = 2;
  bids = (pos 99, pos 4) ∷ (pos 100, pos 1) ∷ [];
  asks = (pos 103, pos 2) ∷ [];
  last_update_id = 7;
  synced = true;
}

abbrev an_event : DiffEvent
an_event = record {
  first_id = 8;
  final_id = 9;
  bids = (pos 100, pos 0) ∷ [];
  asks = (pos 102, pos 5) ∷ [];
}

abbrev a_snapshot : Snapshot
a_snapshot = record { last_update_id = 7; bids = (pos 99, pos 4) ∷ (pos 98, pos 0) ∷ []; asks = [] }

apply_event_levels_example :
    let (changed, o') = apply_event an_event a_stream in
    (7 < 9
      → (changed ≡ true)
        × (o'.last_update_id ≡ 9)
        × ((price : ℤ)
            → lookup price o'.bids ≡ last_quantity an_event.bids price (lookup price a_stream.bids))
        × ((price : ℤ)
            → lookup price o'.asks
              ≡ last_quantity an_event.asks price (lookup price a_stream.asks)))
    × (9 ≤ 7 → (changed ≡ false) × (o' ≡ a_stream))
apply_event_levels_example = apply_event_levels an_event a_stream

stream-IsBook_example : IsBook (apply_events (an_event ∷ []) (apply_snapshot a_snapshot a_stream))
stream-IsBook_example = stream-IsBook a_snapshot (an_event ∷ []) a_stream

abbrev a_book : OrderBookAnalyzer
a_book = record { bids = (99, 4) ∷ []; asks = (101, 2) ∷ (103, 5) ∷ []; mid = 100 }

abbrev another_book : Book
another_book = record {
  bids = (99, 4) ∷ [];
  asks = (101, 2) ∷ (103, 5) ∷ [];
  symbol = "ETH/USDT";
  timestamp = 0;
  mid = 100;
  best_bid = (99, 4);
  best_ask = (101, 2);
}

walk_the_book-vwap_to_fill_example :
    (w : Walk) × (walk_the_book another_book "buy" (pos 3) ≡ ok w)
    × (vwap_to_fill a_book "buy" (pos 3) ≡ ok (if w.fully_filled then some w.avg_price else none))
walk_the_book-vwap_to_fill_example =
    walk_the_book-vwap_to_fill another_book "buy" 3 (omega arith) refl
