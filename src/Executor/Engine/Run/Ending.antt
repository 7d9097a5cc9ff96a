-- ===== src/Executor/Engine/Run/Ending.antt =====
-- How an execution of executor/engine.py can end.
use peanut_trade_internship.Base.{
  String, false, Option, none, some, List, ◌≡◌, refl, inl, inr, Bool-cases,
}
use Prim.Native.String.{◌++◌}
use peanut_trade_internship.Base.Float.{Float}
use peanut_trade_internship.Executor.Engine.{
  done, failed, unwinding, ExecutionContext, ExecutorConfig, Venue, Event, filled, rejected, Venues,
  World,
}
use peanut_trade_internship.Executor.Engine.Legs.{
  Awaited, result, timeout, wait_for, execute_dex_leg, cex_with_retry, calculate_pnl,
}
use peanut_trade_internship.Executor.Engine.Run.{
  leg1_started, fail, leg1_done, unwound, dex_second, cex_filled, execute_cex_first, cex_second,
  dex_filled, execute_dex_first, run_legs,
}
use peanut_trade_internship.Executor.Engine.Run.Unwinding.{Unwound, unwind-Unwound, unwind-returns}
use peanut_trade_internship.Executor.Engine.Run.Ends.{Ends, Ends-seq, Ends-if}

module _ {F : Float} where
  -- A context in which nothing has happened yet.
  pub record Fresh (ctx : ExecutionContext F) : Type 0 where
    pub no_error : ctx.error ≡ none
    pub no_fill : ctx.leg1_fill_size ≡ none
    pub no_pnl : ctx.actual_net_pnl ≡ none

  record Filled (v : Venue) (price amount : F.Num) (ctx : ExecutionContext F) : Type 0 where
    no_error : ctx.error ≡ none
    venue : ctx.leg1_venue ≡ some v
    price1 : ctx.leg1_fill_price ≡ some price
    amount1 : ctx.leg1_fill_size ≡ some amount
    no_pnl : ctx.actual_net_pnl ≡ none

module _ {F : Float} (config : ExecutorConfig F) (venues : Venues F) where
  open F use {Num, is_zero}

  -- The three ways to end. Both legs are filled; or no fill of leg 1 is recorded; or leg 1 stands
  -- alone, and then, in live mode, the last thing done was to unwind it.
  pub data Ended (ctx : ExecutionContext F) (w : World F) : Type 0 where
    completed :
        (v : Venue) (price1 amount1 price2 amount2 : Num)
        → ctx.state ≡ done
        → ctx.error ≡ none
        → ctx.leg1_venue ≡ some v
        → ctx.leg1_fill_price ≡ some price1
        → ctx.leg1_fill_size ≡ some amount1
        → ctx.leg2_fill_price ≡ some price2
        → ctx.leg2_fill_size ≡ some amount2
        → ctx.actual_net_pnl
          ≡ some (calculate_pnl config venues ctx.signal.direction v price1 amount1 price2)
        → Ended ctx w
    nothing_filled :
        (e : String)
        → ctx.state ≡ failed
        → ctx.error ≡ some e
        → ctx.leg1_fill_size ≡ none
        → ctx.actual_net_pnl ≡ none
        → Ended ctx w
    leg1_alone :
        (e : String) (v : Venue) (amount : Num)
        → ctx.state ≡ failed
        → ctx.error ≡ some e
        → ctx.leg1_venue ≡ some v
        → ctx.leg1_fill_size ≡ some amount
        → ctx.actual_net_pnl ≡ none
        → (config.simulation_mode ≡ false
            → is_zero amount ≡ false
            → (before : List (Event F)) × Unwound config venues ctx.signal ctx.leg1_fill_price
                amount before v w.events)
        → Ended ctx w

  unwound-Ended :
      (ctx : ExecutionContext F) (e : String) (v : Venue) (price amount : Num) (w : World F)
      → Filled v price amount ctx
      → Ends Ended (unwound config venues ctx e w)
  unfolding unwound
  unwound-Ended ctx e v price amount w f =
      let ctx' = record ctx { state = unwinding } in
      rw (unwind-returns config venues ctx' w) (
        leg1_alone e v amount refl refl f.venue f.amount1 f.no_pnl λ live nonzero.
          (w.events, unwind-Unwound config venues ctx' v amount w f.venue f.amount1 live nonzero))

  pub fail-Ended :
      (ctx : ExecutionContext F) → Fresh ctx → (e : String) (w : World F) → Ended (fail ctx e) w
  fail-Ended ctx f e w = nothing_filled e refl refl f.no_fill f.no_pnl

  dex_second-Ended :
      (ctx : ExecutionContext F) (price amount : Num) (r : Awaited F) (w : World F)
      → Filled Venue.cex price amount ctx
      → Ends Ended (dex_second config venues ctx price amount r w)
  unfolding dex_second
  dex_second-Ended ctx price amount timeout w f = unwound-Ended ctx _ Venue.cex price amount w f
  dex_second-Ended ctx price amount (result (rejected e)) w f =
      unwound-Ended ctx _ Venue.cex price amount w f
  dex_second-Ended ctx price amount (result (filled p a)) w f =
      completed Venue.cex price amount p a refl f.no_error f.venue f.price1 f.amount1 refl refl refl

  cex_second-Ended :
      (ctx : ExecutionContext F) (price amount : Num) (r : Option (Num × Num) × String)
      (w : World F)
      → Filled Venue.dex price amount ctx
      → Ends Ended (cex_second config venues ctx price amount r w)
  unfolding cex_second
  cex_second-Ended ctx price amount (none, e) w f = unwound-Ended ctx _ Venue.dex price amount w f
  cex_second-Ended ctx price amount (some (p, a), e) w f =
      completed Venue.dex price amount p a refl f.no_error f.venue f.price1 f.amount1 refl refl refl

  leg1_done-Filled :
      (ctx : ExecutionContext F) (v next : Venue) (price amount : Num)
      → Fresh ctx
      → ctx.leg1_venue ≡ some v
      → Filled v price amount (leg1_done ctx price amount next)
  leg1_done-Filled ctx v next price amount f e = record {
    no_error = f.no_error;
    venue = e;
    price1 = refl;
    amount1 = refl;
    no_pnl = f.no_pnl;
  }

  cex_filled-Ended :
      (ctx : ExecutionContext F) (r : Option (Num × Num) × String) (w : World F)
      → Fresh ctx
      → ctx.leg1_venue ≡ some Venue.cex
      → Ends Ended (cex_filled config venues ctx r w)
  unfolding cex_filled
  cex_filled-Ended ctx (none, e) w f v = fail-Ended ctx f e w
  cex_filled-Ended ctx (some (price, amount), e) w f v =
      elim (Bool-cases (is_zero ctx.signal.size)) [
        | inl zero ↦ rw zero tt
        | inr nonzero ↦
            elim (Bool-cases (F.lt (F.div amount ctx.signal.size) config.min_fill_ratio)) [
              | inl low ↦ rw (nonzero, low) (fail-Ended ctx f _ w)
              | inr enough ↦
                  rw (nonzero, enough)
                    (Ends-seq Ended
                      (wait_for config venues (execute_dex_leg config venues ctx.signal amount))
                      (dex_second config venues (leg1_done ctx price amount Venue.dex) price amount)
                      w
                      λ leg2 w' _.
                        dex_second-Ended (leg1_done ctx price amount Venue.dex) price amount leg2 w'
                          (leg1_done-Filled ctx Venue.cex Venue.dex price amount f v))
            ]
      ]

  dex_filled-Ended :
      (ctx : ExecutionContext F) (r : Awaited F) (w : World F)
      → Fresh ctx
      → ctx.leg1_venue ≡ some Venue.dex
      → Ends Ended (dex_filled config venues ctx r w)
  unfolding dex_filled
  dex_filled-Ended ctx timeout w f v = fail-Ended ctx f _ w
  dex_filled-Ended ctx (result (rejected e)) w f v = fail-Ended ctx f e w
  dex_filled-Ended ctx (result (filled price amount)) w f v =
      Ends-seq Ended
        (cex_with_retry config venues ctx.signal (some amount)
          (some (ctx.signal.signal_id ++ "_" ++ venues.order_tag w.events)))
        (cex_second config venues (leg1_done ctx price amount Venue.cex) price amount) w
        λ leg2 w' _.
          cex_second-Ended (leg1_done ctx price amount Venue.cex) price amount leg2 w'
            (leg1_done-Filled ctx Venue.dex Venue.cex price amount f v)

  record_of_Fresh : (ctx : ExecutionContext F) (v : Venue) → Fresh ctx → Fresh (leg1_started ctx v)
  record_of_Fresh ctx v f = record { no_error = f.no_error; no_fill = f.no_fill; no_pnl = f.no_pnl }

  pub run_legs-Ended :
      (ctx : ExecutionContext F) (w : World F)
      → Fresh ctx
      → Ends Ended (run_legs config venues ctx w)
  unfolding run_legs execute_cex_first execute_dex_first
  run_legs-Ended ctx w f =
      Ends-if Ended config.use_flashbots (execute_dex_first config venues ctx)
        (execute_cex_first config venues ctx) w
        (λ _.
          Ends-seq Ended
            (wait_for config venues (execute_dex_leg config venues ctx.signal ctx.signal.size))
            (dex_filled config venues (leg1_started ctx Venue.dex)) w
            λ leg1 w' _.
              dex_filled-Ended (leg1_started ctx Venue.dex) leg1 w'
                (record_of_Fresh ctx Venue.dex f) refl)
        (λ _.
          Ends-seq Ended
            (cex_with_retry config venues ctx.signal none
              (some (ctx.signal.signal_id ++ "_" ++ venues.order_tag w.events)))
            (cex_filled config venues (leg1_started ctx Venue.cex)) w
            λ leg1 w' _.
              cex_filled-Ended (leg1_started ctx Venue.cex) leg1 w'
                (record_of_Fresh ctx Venue.cex f) refl)
