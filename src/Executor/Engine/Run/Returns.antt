-- ===== src/Executor/Engine/Run/Returns.antt =====
-- When `Executor.execute` of executor/engine.py returns.
use Prim.Native.String.{◌++◌}
use peanut_trade_internship.Base.{String, Bool, true, false, Option, none, some, ◌≡◌, refl, ok}
use peanut_trade_internship.Base.Float.{Float}
use peanut_trade_internship.Strategy.Signal.{Signal, is_valid}
use peanut_trade_internship.Executor.Recovery.{is_open, is_duplicate}
use peanut_trade_internship.Executor.Engine.{
  ExecutionContext, ExecutorConfig, Venue, filled, rejected, Venues, World, validating, unwinding,
}
use peanut_trade_internship.Executor.Engine.Action.{pure}
use peanut_trade_internship.Executor.Engine.Legs.{
  Awaited, result, timeout, execute_dex_leg, wait_for, cex_with_retry, unwind,
}
use peanut_trade_internship.Executor.Engine.Legs.Returns.{
  Returns, Answers, Returns-bind, Returns-if, execute_dex_leg-Returns, wait_for-Returns,
  cex_with_retry-Returns, unwind-Returns,
}
use peanut_trade_internship.Executor.Engine.Run.{
  new_context, fail, leg1_started, leg1_done, unwound, dex_second, cex_filled, execute_cex_first,
  cex_second, dex_filled, execute_dex_first, breaker_open, duplicate, mark, report, succeeded,
  run_legs, note_end, run_valid, run_unique, run_closed, execute,
}

module _ {F : Float} (config : ExecutorConfig F) (venues : Venues F)
    (answers : Answers venues) where
  unwound-Returns : (ctx : ExecutionContext F) (e : String) → Returns (unwound config venues ctx e)
  unfolding unwound
  unwound-Returns ctx e =
      Returns-bind (unwind config venues (record ctx { state = unwinding }))
        (λ _. pure (fail ctx e))
        (unwind-Returns config venues answers (record ctx { state = unwinding })) (λ _ w. (_, refl))

  dex_second-Returns :
      (ctx : ExecutionContext F) (price amount : F.Num) (r : Awaited F)
      → Returns (dex_second config venues ctx price amount r)
  unfolding dex_second
  dex_second-Returns ctx price amount timeout = unwound-Returns ctx "DEX timeout - unwound"
  dex_second-Returns ctx price amount (result (rejected e)) =
      unwound-Returns ctx "DEX failed - unwound"
  dex_second-Returns ctx price amount (result (filled p a)) = λ w. (_, refl)

  cex_second-Returns :
      (ctx : ExecutionContext F) (price amount : F.Num) (r : Option (F.Num × F.Num) × String)
      → Returns (cex_second config venues ctx price amount r)
  unfolding cex_second
  cex_second-Returns ctx price amount (none, e) = unwound-Returns ctx _
  cex_second-Returns ctx price amount (some (p, a), e) = λ w. (_, refl)

  cex_filled-Returns :
      (ctx : ExecutionContext F) (r : Option (F.Num × F.Num) × String)
      → F.is_zero ctx.signal.size ≡ false
      → Returns (cex_filled config venues ctx r)
  unfolding cex_filled
  cex_filled-Returns ctx (none, e) z = λ w. (_, refl)
  cex_filled-Returns ctx (some (price, amount), e) z = rw z (
      Returns-if (F.lt (F.div amount ctx.signal.size) config.min_fill_ratio) _ _ (λ w. (_, refl))
        (Returns-bind (wait_for config venues (execute_dex_leg config venues ctx.signal amount)) _
          (wait_for-Returns config venues answers _
            (execute_dex_leg-Returns config venues answers ctx.signal amount))
          (dex_second-Returns (leg1_done ctx price amount Venue.dex) price amount)))

  dex_filled-Returns :
      (ctx : ExecutionContext F) (r : Awaited F) → Returns (dex_filled config venues ctx r)
  unfolding dex_filled
  dex_filled-Returns ctx timeout w = (_, refl)
  dex_filled-Returns ctx (result (rejected e)) w = (_, refl)
  dex_filled-Returns ctx (result (filled price amount)) w =
      Returns-bind
        (cex_with_retry config venues ctx.signal (some amount)
          (some (ctx.signal.signal_id ++ "_" ++ venues.order_tag w.events)))
        _ (cex_with_retry-Returns config venues answers ctx.signal (some amount) _)
        (cex_second-Returns (leg1_done ctx price amount Venue.cex) price amount) w

  execute_dex_first-Returns :
      (ctx : ExecutionContext F) → Returns (execute_dex_first config venues ctx)
  unfolding execute_dex_first
  execute_dex_first-Returns ctx =
      Returns-bind
        (wait_for config venues (execute_dex_leg config venues ctx.signal ctx.signal.size)) _
        (wait_for-Returns config venues answers _
          (execute_dex_leg-Returns config venues answers ctx.signal ctx.signal.size))
        (dex_filled-Returns (leg1_started ctx Venue.dex))

  execute_cex_first-Returns :
      (ctx : ExecutionContext F)
      → F.is_zero ctx.signal.size ≡ false
      → Returns (execute_cex_first config venues ctx)
  unfolding execute_cex_first
  execute_cex_first-Returns ctx z w =
      Returns-bind
        (cex_with_retry config venues ctx.signal none
          (some (ctx.signal.signal_id ++ "_" ++ venues.order_tag w.events)))
        _ (cex_with_retry-Returns config venues answers ctx.signal none _)
        (λ r. cex_filled-Returns (leg1_started ctx Venue.cex) r z) w

  run_legs-Returns :
      (ctx : ExecutionContext F)
      → F.is_zero ctx.signal.size ≡ false
      → Returns (run_legs config venues ctx)
  unfolding run_legs
  run_legs-Returns ctx z =
      Returns-if config.use_flashbots _ _ (execute_dex_first-Returns ctx)
        (execute_cex_first-Returns ctx z)

  report-Returns : (b : Bool) → Returns (report config venues b)
  unfolding report
  report-Returns true w = (tt, refl)
  report-Returns false w = (tt, refl)

  note_end-Returns :
      (signal : Signal F) (ctx : ExecutionContext F) → Returns (note_end config venues signal ctx)
  unfolding note_end mark
  note_end-Returns signal ctx w =
      Returns-bind (report config venues (succeeded config venues ctx.state)) _
        (report-Returns (succeeded config venues ctx.state)) (λ _ v. (_, refl)) _

  run_valid-Returns :
      (ctx : ExecutionContext F)
      → F.is_zero ctx.signal.size ≡ false
      → Returns (run_valid config venues ctx)
  unfolding run_valid
  run_valid-Returns ctx z =
      Returns-bind (run_legs config venues ctx) _ (run_legs-Returns ctx z)
        (note_end-Returns ctx.signal)

  run_unique-Returns :
      (ctx : ExecutionContext F)
      → F.is_zero ctx.signal.size ≡ false
      → Returns (run_unique config venues ctx)
  unfolding run_unique
  run_unique-Returns ctx z w =
      Returns-if (is_valid ctx.signal (venues.clock w.clock_reads)) _ _
        (run_valid-Returns (record ctx { state = validating }) z) (λ v. (_, refl)) _

  run_closed-Returns :
      (ctx : ExecutionContext F)
      → F.is_zero ctx.signal.size ≡ false
      → Returns (run_closed config venues ctx)
  unfolding run_closed duplicate
  run_closed-Returns ctx z w =
      Returns-if
        (is_duplicate w.replay_protection ctx.signal.signal_id (venues.clock w.clock_reads)).0 _ _
        (λ v. (_, refl)) (run_unique-Returns ctx z) _

  -- If every order and every swap is answered, be it by a failure or too late, and the size is not 0,
  -- then the execution returns a context: no exception leaves it.
  pub execute_returns :
      (signal : Signal F) (w : World F)
      → F.is_zero signal.size ≡ false
      → (ctx : ExecutionContext F) × ((execute config venues signal w).0 ≡ ok ctx)
  unfolding execute breaker_open
  execute_returns signal w z =
      Returns-if (is_open w.circuit_breaker _).0 _ _ (λ v. (_, refl))
        (run_closed-Returns (new_context signal (venues.clock w.clock_reads)) z) _
