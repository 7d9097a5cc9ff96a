-- ===== src/Exchange/Stream/Book.antt =====
-- What the local book of exchange/ws_orderbook.py holds after a snapshot and its events.
use peanut_trade_internship.Base.{
  ◌≤◌, ◌<◌, true, false, List, [], ◌∷◌, ◌≡◌, refl, Option, none, some, leb, leb→le, leb-false,
  arith, if◌then◌else◌, int_eq, Bool-cases, inl, inr, ◌≢◌,
}
use peanut_trade_internship.Base.Dict.{
  lookup, insert, lookup-insert, lookup-pop, Unique, Unique-insert, Unique-pop,
}
use peanut_trade_internship.Base.Int.{ℤ, pos, ltb_ℤ, eqb_ℤ, eqb_ℤ_iff}
use peanut_trade_internship.Exchange.Stream.{
  Level, Side, OrderBookStream, Snapshot, DiffEvent, fill_side, apply_snapshot, update_side,
  update_all, apply_event,
}

-- A quantity of 0 stands for no level.
abbrev pub shown : ℤ → Option ℤ
shown qty = if eqb_ℤ qty (pos 0) then none else some qty

-- The quantity at `price` once the updates are read: the last one for this price counts.
abbrev pub last_quantity : List Level → ℤ → Option ℤ → Option ℤ
last_quantity [] price before = before
last_quantity ((p, qty) ∷ levels) price before =
    last_quantity levels price (if eqb_ℤ p price then shown qty else before)

update_side-lookup :
    (p qty : ℤ) (side : Side) (price : ℤ)
    → lookup price (update_side (p, qty) side)
      ≡ (if eqb_ℤ p price then shown qty else lookup price side)
unfolding update_side
update_side-lookup p qty side price = elim (Bool-cases (eqb_ℤ qty (pos 0))) [
  | inl gone ↦ rw gone (lookup-pop p price side)
  | inr kept ↦ rw kept (lookup-insert p price qty side)
]

update_all-lookup :
    (levels : List Level) (side : Side) (price : ℤ)
    → lookup price (update_all levels side) ≡ last_quantity levels price (lookup price side)
unfolding update_all
update_all-lookup [] side price = refl
update_all-lookup ((p, qty) ∷ levels) side price =
    rw (← update_side-lookup p qty side price)
      (update_all-lookup levels (update_side (p, qty) side) price)

-- An event is fresh if its `u` is greater than the book's last update id, whatever its `U` is, so also
-- after a gap. A fresh event leaves at each price of a side the quantity of the last update that names it, none
-- if that is 0, and the old quantity where no update names the price; an event that is not newer
-- than the book changes nothing and is not reported.
pub apply_event_levels :
    (e : DiffEvent) (o : OrderBookStream)
    → let (changed, o') = apply_event e o in
      (o.last_update_id < e.final_id
        → (changed ≡ true)
          × (o'.last_update_id ≡ e.final_id)
          × ((price : ℤ) → lookup price o'.bids ≡ last_quantity e.bids price (lookup price o.bids))
          × ((price : ℤ) → lookup price o'.asks ≡ last_quantity e.asks price (lookup price o.asks)))
      × (e.final_id ≤ o.last_update_id → (changed ≡ false) × (o' ≡ o))
unfolding apply_event
apply_event_levels e o = elim (Bool-cases (leb e.final_id o.last_update_id)) [
  | inl stale ↦
      rw stale
        (λ h. absurd (omega (arith, leb→le e.final_id o.last_update_id stale)), λ h. (refl, refl))
  | inr fresh ↦ rw fresh (
    λ h. (refl, refl, update_all-lookup e.bids o.bids, update_all-lookup e.asks o.asks),
    λ h. absurd (omega (arith, leb-false e.final_id o.last_update_id fresh)),
  )
]

-- A side of the book names no price twice and holds no empty level.
pub record IsSide (side : Side) : Type 0 where
  pub unique : Unique side
  pub no_empty : (price : ℤ) → lookup price side ≢ some (pos 0)

pub record IsBook (o : OrderBookStream) : Type 0 where
  pub bids_side : IsSide o.bids
  pub asks_side : IsSide o.asks

insert-IsSide :
    (p qty : ℤ) (side : Side) → eqb_ℤ qty (pos 0) ≡ false → IsSide side → IsSide (insert p qty side)
insert-IsSide p qty side h v = record {
  unique = Unique-insert p qty side v.unique;
  no_empty = λ price k.
      ground (arith, lookup-insert p price qty side, v.no_empty price, eqb_ℤ_iff qty (pos 0), k);
}

update_side-IsSide : (p qty : ℤ) (side : Side) → IsSide side → IsSide (update_side (p, qty) side)
unfolding update_side
update_side-IsSide p qty side v = elim (Bool-cases (eqb_ℤ qty (pos 0))) [
  | inl gone ↦ rw gone (record {
    unique = Unique-pop p side v.unique;
    no_empty = λ price k. ground (arith, lookup-pop p price side, v.no_empty price, k);
  })
  | inr kept ↦ rw kept (insert-IsSide p qty side kept v)
]

update_all-IsSide :
    (levels : List Level) (side : Side) → IsSide side → IsSide (update_all levels side)
unfolding update_all
update_all-IsSide [] side v = v
update_all-IsSide ((p, qty) ∷ levels) side v =
    update_all-IsSide levels (update_side (p, qty) side) (update_side-IsSide p qty side v)

fill_side-IsSide :
    (levels : List Level) (side : Side) → IsSide side → IsSide (fill_side levels side)
unfolding fill_side
fill_side-IsSide [] side v = v
fill_side-IsSide ((p, qty) ∷ levels) side v = elim (Bool-cases (ltb_ℤ (pos 0) qty)) [
  | inl some_left ↦
      rw some_left
        (fill_side-IsSide levels (insert p qty side) (insert-IsSide p qty side (ground arith) v))
  | inr empty ↦ rw empty (fill_side-IsSide levels side v)
]

new-IsSide : IsSide []
new-IsSide = record { unique = tt; no_empty = λ price k. cc }

-- Events applied one after the other.
pub apply_events : List DiffEvent → OrderBookStream → OrderBookStream
apply_events [] o = o
apply_events (e ∷ es) o = apply_events es (apply_event e o).1

apply_event-IsBook : (e : DiffEvent) (o : OrderBookStream) → IsBook o → IsBook (apply_event e o).1
unfolding apply_event
apply_event-IsBook e o v = elim (Bool-cases (leb e.final_id o.last_update_id)) [
  | inl stale ↦ rw stale v
  | inr fresh ↦ rw fresh (record {
    bids_side = update_all-IsSide e.bids o.bids v.bids_side;
    asks_side = update_all-IsSide e.asks o.asks v.asks_side;
  })
]

apply_events-IsBook :
    (es : List DiffEvent) (o : OrderBookStream) → IsBook o → IsBook (apply_events es o)
unfolding apply_events
apply_events-IsBook [] o v = v
apply_events-IsBook (e ∷ es) o v =
    apply_events-IsBook es (apply_event e o).1 (apply_event-IsBook e o v)

-- Whatever events follow a snapshot, no price stands twice in a side of the book, and no level of
-- it is empty.
pub stream-IsBook :
    (s : Snapshot) (es : List DiffEvent) (o : OrderBookStream)
    → IsBook (apply_events es (apply_snapshot s o))
unfolding apply_snapshot
stream-IsBook s es o = apply_events-IsBook es _ (record {
  bids_side = fill_side-IsSide s.bids [] new-IsSide;
  asks_side = fill_side-IsSide s.asks [] new-IsSide;
})
