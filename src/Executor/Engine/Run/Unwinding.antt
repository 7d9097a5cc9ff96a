-- ===== src/Executor/Engine/Run/Unwinding.antt =====
-- What `Executor._unwind` of executor/engine.py does with a leg that stands alone.
use peanut_trade_internship.Base.{
  false, Option, none, some, List, ◌∷◌, ok, ◌≡◌, refl, inl, inr, Bool-cases,
}
use peanut_trade_internship.Base.Float.{Float}
use peanut_trade_internship.Strategy.Signal.{Signal, Direction, buy_cex_sell_dex, buy_dex_sell_cex}
use peanut_trade_internship.Executor.Engine.{
  ExecutionContext, ExecutorConfig, Venue, Side, buy, sell, Event, market_order, dex_unwind,
  unwind_failed, Reply, answered, broke, DexUnwind, zero_amount, unsent, sent, Venues, World,
}
use peanut_trade_internship.Executor.Engine.Legs.{
  unwind, unwind_size, unwind_leg, cex_side, unwind_side, unwind_dex_leg, log_failure,
}

abbrev pub opposite : Side → Side
opposite buy = sell
opposite sell = buy

module _ {F : Float} (config : ExecutorConfig F) (venues : Venues F) where
  open F use {Num, is_zero}

  -- What is done to take a fill of leg 1 back, after what was done before: on the exchange a market
  -- order to the other side, on the DEX the swap back where there is an amount to swap and none of
  -- the steps before the swap fails; and each failure is logged for manual intervention.
  pub data Unwound (s : Signal F) (price : Option Num) (amount : Num) (before : List (Event F))
      : Venue → List (Event F) → Type 0 where
    ordered :
        venues.create_market_order before s.pair (opposite (cex_side s.direction)) amount
          ≡ answered tt
        → Unwound s price amount before Venue.cex
            (market_order s.pair (opposite (cex_side s.direction)) amount ∷ before)
    order_failed :
        venues.create_market_order before s.pair (opposite (cex_side s.direction)) amount ≡ broke
        → Unwound s price amount before Venue.cex (
            unwind_failed Venue.cex s
            ∷ market_order s.pair (opposite (cex_side s.direction)) amount
            ∷ before)
    swapped :
        venues.unwind_dex_leg_sync before s price amount ≡ sent (answered tt)
        → Unwound s price amount before Venue.dex (dex_unwind s amount ∷ before)
    swap_failed :
        venues.unwind_dex_leg_sync before s price amount ≡ sent broke
        → Unwound s price amount before Venue.dex
            (unwind_failed Venue.dex s ∷ dex_unwind s amount ∷ before)
    not_sent :
        venues.unwind_dex_leg_sync before s price amount ≡ unsent
        → Unwound s price amount before Venue.dex (unwind_failed Venue.dex s ∷ before)
    nothing_to_swap :
        venues.unwind_dex_leg_sync before s price amount ≡ zero_amount
        → Unwound s price amount before Venue.dex before

  order_answered :
      (s : Signal F) (price : Option Num) (amount : Num) (w : World F) (r : Reply F (Unit {0}))
      → venues.create_market_order w.events s.pair (opposite (cex_side s.direction)) amount ≡ r
      → Unwound s price amount w.events Venue.cex
          (log_failure config venues Venue.cex s r (record w {
            events = market_order s.pair (opposite (cex_side s.direction)) amount ∷ w.events;
          })).1.events
  order_answered s price amount w (answered t) e = ordered e
  order_answered s price amount w broke e = order_failed e

  swap_answered :
      (s : Signal F) (price : Option Num) (amount : Num) (w : World F) (r : DexUnwind F)
      → venues.unwind_dex_leg_sync w.events s price amount ≡ r
      → Unwound s price amount w.events Venue.dex
          (unwind_dex_leg config venues s amount r w).1.events
  swap_answered s price amount w zero_amount e = nothing_to_swap e
  swap_answered s price amount w unsent e = not_sent e
  swap_answered s price amount w (sent (answered t)) e = swapped e
  swap_answered s price amount w (sent broke) e = swap_failed e

  unwind_side-opposite : (d : Direction) → unwind_side d ≡ opposite (cex_side d)
  unwind_side-opposite buy_cex_sell_dex = refl
  unwind_side-opposite buy_dex_sell_cex = refl

  unwind_leg-Unwound :
      (v : Venue) (s : Signal F) (price : Option Num) (amount : Num) (w : World F)
      → Unwound s price amount w.events v
          (unwind_leg config venues (some v) s price amount w).1.events
  unfolding unwind_leg
  unwind_leg-Unwound Venue.cex s price amount w =
      rw (unwind_side-opposite s.direction) (order_answered s price amount w _ refl)
  unwind_leg-Unwound Venue.dex s price amount w = swap_answered s price amount w _ refl

  pub unwind-Unwound :
      (ctx : ExecutionContext F) (v : Venue) (amount : Num) (w : World F)
      → ctx.leg1_venue ≡ some v
      → ctx.leg1_fill_size ≡ some amount
      → config.simulation_mode ≡ false
      → is_zero amount ≡ false
      → Unwound ctx.signal ctx.leg1_fill_price amount w.events v
          (unwind config venues ctx w).1.events
  unfolding unwind unwind_size
  unwind-Unwound ctx v amount w hv ha live nonzero =
      simp (hv, ha, live, nonzero) (unwind_leg-Unwound v ctx.signal ctx.leg1_fill_price amount w)

  log_failure-returns :
      (v : Venue) (s : Signal F) (r : Reply F (Unit {0})) (w : World F)
      → (log_failure config venues v s r w).0 ≡ ok tt
  log_failure-returns v s (answered t) w = refl
  log_failure-returns v s broke w = refl

  unwind_dex_leg-returns :
      (s : Signal F) (amount : Num) (r : DexUnwind F) (w : World F)
      → (unwind_dex_leg config venues s amount r w).0 ≡ ok tt
  unwind_dex_leg-returns s amount zero_amount w = refl
  unwind_dex_leg-returns s amount unsent w = refl
  unwind_dex_leg-returns s amount (sent r) w = log_failure-returns Venue.dex s r _

  unwind_leg-returns :
      (v : Option Venue) (s : Signal F) (price : Option Num) (amount : Num) (w : World F)
      → (unwind_leg config venues v s price amount w).0 ≡ ok tt
  unfolding unwind_leg
  unwind_leg-returns none s price amount w = refl
  unwind_leg-returns (some Venue.cex) s price amount w =
      log_failure-returns Venue.cex s (venues.create_market_order w.events s.pair _ amount) _
  unwind_leg-returns (some Venue.dex) s price amount w =
      unwind_dex_leg-returns s amount (venues.unwind_dex_leg_sync w.events s price amount) w

  unwind_size-returns :
      (size : Option Num) (ctx : ExecutionContext F) (w : World F)
      → (unwind_size config venues size ctx w).0 ≡ ok tt
  unfolding unwind_size
  unwind_size-returns none ctx w = refl
  unwind_size-returns (some size) ctx w = elim (Bool-cases (is_zero size)) [
    | inl zero ↦ rw zero
    | inr nonzero ↦
        rw nonzero (unwind_leg-returns ctx.leg1_venue ctx.signal ctx.leg1_fill_price size w)
  ]

  pub unwind-returns :
      (ctx : ExecutionContext F) (w : World F) → (unwind config venues ctx w).0 ≡ ok tt
  unfolding unwind
  unwind-returns ctx w = elim (Bool-cases config.simulation_mode) [
    | inl sim ↦ rw sim
    | inr live ↦ rw live (unwind_size-returns ctx.leg1_fill_size ctx w)
  ]
