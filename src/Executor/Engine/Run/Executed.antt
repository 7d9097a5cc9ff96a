-- ===== src/Executor/Engine/Run/Executed.antt =====
-- `Executor.execute` (executor/engine.py) ends in one of the three ways.
use peanut_trade_internship.Base.{
  Bool, true, false, some, ok, ◌≡◌, refl, sym, subst, ◌+◌, if◌then◌else◌,
}
use peanut_trade_internship.Base.Int.{ℤ}
use peanut_trade_internship.Base.Float.{Float}
use peanut_trade_internship.Strategy.Signal.{Signal, is_valid}
use peanut_trade_internship.Executor.Engine.{
  validating, ExecutionContext, ExecutorConfig, Venues, World,
}
use peanut_trade_internship.Executor.Engine.Run.{
  new_context, fail, mark, report, succeeded, note_end, run_legs, run_valid, run_unique, run_closed,
  breaker_open, duplicate, execute,
}
use peanut_trade_internship.Executor.Engine.Action.{pure}
use peanut_trade_internship.Executor.Engine.Run.Ends.{Ends, Ends-seq, Ends-bind, Ends-if}
use peanut_trade_internship.Executor.Engine.Run.Unwinding.{Unwound}
use peanut_trade_internship.Executor.Engine.Run.Ending.{
  Ended, completed, nothing_filled, leg1_alone, Fresh, fail-Ended, run_legs-Ended,
}

module _ {F : Float} (config : ExecutorConfig F) (venues : Venues F) where
  -- The clock reading at the end, and what is noted in the guards, change nothing of this.
  finished-Ended :
      (ctx : ExecutionContext F) (w w' : World F) (now : ℤ)
      → w'.events ≡ w.events
      → Ended config venues ctx w
      → Ended config venues (record ctx { finished_at = some now }) w'
  finished-Ended ctx w w' now same (completed v p a q b hs he hv hp ha hq hb hn) =
      completed v p a q b hs he hv hp ha hq hb hn
  finished-Ended ctx w w' now same (nothing_filled e hs he ha hn) = nothing_filled e hs he ha hn
  finished-Ended ctx w w' now same (leg1_alone e v a hs he hv ha hn last) =
      leg1_alone e v a hs he hv ha hn λ live nonzero.
        let (before, h) = last live nonzero in
        (before, subst (Unwound config venues _ _ a before v) (sym same) h)

  report-events :
      (b : Bool) (w : World F)
      → ((report config venues b w).0 ≡ ok tt) × ((report config venues b w).1.events ≡ w.events)
  unfolding report
  report-events true w = (refl, refl)
  report-events false w = (refl, refl)

  note_end-Ended :
      (signal : Signal F) (ctx : ExecutionContext F) (w : World F)
      → Ended config venues ctx w
      → Ends (Ended config venues) (note_end config venues signal ctx w)
  unfolding note_end
  note_end-Ended signal ctx w h =
      let w1 = (mark config venues signal w).1 in
      let b = succeeded config venues ctx.state in
      rw (report-events b w1).0 (finished-Ended ctx w _ _ (report-events b w1).1 h)

  run_valid-Ended :
      (ctx : ExecutionContext F) (w : World F)
      → Fresh ctx
      → Ends (Ended config venues) (run_valid config venues ctx w)
  unfolding run_valid
  run_valid-Ended ctx w f =
      Ends-bind (Ended config venues) (Ended config venues) (run_legs config venues ctx w)
        (note_end config venues ctx.signal) (run_legs-Ended config venues ctx w f)
        (note_end-Ended ctx.signal)

  run_unique-Ended :
      (ctx : ExecutionContext F) (w : World F)
      → Fresh ctx
      → Ends (Ended config venues) (run_unique config venues ctx w)
  unfolding run_unique
  run_unique-Ended ctx w f =
      let w1 = record w { clock_reads = w.clock_reads + 1 } in
      let ctx1 = record ctx { state = validating } in
      Ends-if (Ended config venues) (is_valid ctx.signal (venues.clock w.clock_reads))
        (run_valid config venues ctx1) (pure (fail ctx "Signal invalid")) w1
        (λ _.
          run_valid-Ended ctx1 w1
            (record { no_error = f.no_error; no_fill = f.no_fill; no_pnl = f.no_pnl }))
        (λ _. fail-Ended config venues ctx f _ w1)

  run_closed-Ended :
      (ctx : ExecutionContext F) (w : World F)
      → Fresh ctx
      → Ends (Ended config venues) (run_closed config venues ctx w)
  unfolding run_closed
  run_closed-Ended ctx w f =
      Ends-seq (Ended config venues) (duplicate config venues ctx.signal)
        (λ seen. if seen then pure (fail ctx "Duplicate signal") else run_unique config venues ctx)
        w
        λ seen w1 _.
          Ends-if (Ended config venues) seen (pure (fail ctx "Duplicate signal"))
            (run_unique config venues ctx) w1 (λ _. fail-Ended config venues ctx f _ w1)
            (λ _. run_unique-Ended ctx w1 f)

  -- An execution that returns has ended in one of three ways. Either both legs are filled, and the
  -- result is the profit of these fills; or it failed with no fill of leg 1 recorded; or it failed
  -- after leg 1, and in live mode the last thing it did, for a fill that is not 0, was to unwind
  -- leg 1: on the exchange it sent a market order to the other side over the filled amount, and
  -- logged the failure if this raised; on the DEX it sent the swap back, and logged the failure if
  -- this raised, or logged a failure before the swap without sending it, or found no amount to swap.
  pub execute-Ended :
      (signal : Signal F) (w : World F)
      → Ends (Ended config venues) (execute config venues signal w)
  unfolding execute
  execute-Ended signal w =
      let ctx = new_context signal (venues.clock w.clock_reads) in
      let w0 = record w { clock_reads = w.clock_reads + 1 } in
      let fresh : Fresh ctx = record { no_error = refl; no_fill = refl; no_pnl = refl } in
      Ends-seq (Ended config venues) (breaker_open config venues)
        (λ blocked.
          if blocked then pure (fail ctx "Circuit breaker open") else run_closed config venues ctx)
        w0
        λ blocked w1 _.
          Ends-if (Ended config venues) blocked (pure (fail ctx "Circuit breaker open"))
            (run_closed config venues ctx) w1 (λ _. fail-Ended config venues ctx fresh _ w1)
            (λ _. run_closed-Ended ctx w1 fresh)
