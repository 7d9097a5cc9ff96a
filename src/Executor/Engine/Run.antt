-- ===== src/Executor/Engine/Run.antt =====
-- `Executor.execute` of executor/engine.py with its two orders of legs.
pub mod Ends
pub mod Unwinding
pub mod Ending
pub mod Executed
pub mod Effects
pub mod Again
pub mod Guards
pub mod Returns
mod Tests
use peanut_trade_internship.Base.{
  String, Bool, true, false, Option, none, some, ◌∷◌, ok, raised, Outcome, if◌then◌else◌,
}
use Prim.Native.String.{◌++◌}
use peanut_trade_internship.Base.Int.{ℤ}
use peanut_trade_internship.Base.Float.{Float}
use peanut_trade_internship.Strategy.Signal.{Signal, is_valid}
use peanut_trade_internship.Executor.Recovery.{
  is_open, record_failure, record_success, is_duplicate, mark_executed,
}
use peanut_trade_internship.Executor.Engine.{
  ExecutorState, idle, validating, leg1_pending, leg1_filled, leg2_pending, done, failed, unwinding,
  ExecutionContext, ExecutorConfig, Venue, cex, dex, Leg, filled, rejected, Venues, World, Act,
  zero_division,
}
use peanut_trade_internship.Executor.Engine.Action.{
  pure, raise, ◌>>=◌, ◌>>◌, done_so_far, read_clock,
}
use peanut_trade_internship.Executor.Engine.Legs.{
  Awaited, result, timeout, execute_dex_leg, wait_for, cex_with_retry, unwind, calculate_pnl,
}

module _ {F : Float} where
  -- `ExecutionContext(signal=signal)`
  abbrev pub new_context : Signal F → ℤ → ExecutionContext F
  new_context signal now = record {
    signal = signal;
    state = idle;
    leg1_venue = none;
    leg1_fill_price = none;
    leg1_fill_size = none;
    leg2_venue = none;
    leg2_fill_price = none;
    leg2_fill_size = none;
    started_at = now;
    finished_at = none;
    actual_net_pnl = none;
    error = none;
  }

  abbrev pub fail : ExecutionContext F → String → ExecutionContext F
  fail ctx error = record ctx { state = failed; error = some error }

  abbrev pub leg1_started : ExecutionContext F → Venue → ExecutionContext F
  leg1_started ctx venue = record ctx { state = leg1_pending; leg1_venue = some venue }

  abbrev pub leg1_done : ExecutionContext F → F.Num → F.Num → Venue → ExecutionContext F
  leg1_done ctx price amount next_venue = record ctx {
    leg1_fill_price = some price;
    leg1_fill_size = some amount;
    state = leg2_pending;
    leg2_venue = some next_venue;
  }

module _ {F : Float} (config : ExecutorConfig F) (venues : Venues F) where
  open F use {Num, lt, div, is_zero}

  -- The end of both orders: leg 2 is filled.
  abbrev pub both_done : ExecutionContext F → Venue → Num → Num → Num → Num → ExecutionContext F
  both_done ctx leg1_venue price1 amount1 price2 amount2 = record ctx {
    leg2_fill_price = some price2;
    leg2_fill_size = some amount2;
    actual_net_pnl =
        some (calculate_pnl config venues ctx.signal.direction leg1_venue price1 amount1 price2);
    state = done;
  }

  -- Leg 1 stands alone: it is unwound, and the execution has failed.
  unwound : ExecutionContext F → String → Act F (ExecutionContext F)
  unwound ctx error = do
    unwind config venues (record ctx { state = unwinding })
    pure (fail ctx error)

  dex_second : ExecutionContext F → Num → Num → Awaited F → Act F (ExecutionContext F)
  unfolding unwound
  dex_second ctx price1 amount1 timeout = unwound ctx "DEX timeout - unwound"
  dex_second ctx price1 amount1 (result (rejected error)) = unwound ctx "DEX failed - unwound"
  dex_second ctx price1 amount1 (result (filled price2 amount2)) =
      pure (both_done ctx cex price1 amount1 price2 amount2)

  cex_filled : ExecutionContext F → Option (Num × Num) × String → Act F (ExecutionContext F)
  unfolding dex_second
  cex_filled ctx (none, error) = pure (fail ctx error)
  cex_filled ctx (some (price, amount), _) =
      if is_zero ctx.signal.size
      then raise zero_division
      else if lt (div amount ctx.signal.size) config.min_fill_ratio
      then pure (fail ctx "Partial fill below threshold")
      else do
        let ctx1 = leg1_done ctx price amount dex
        leg2 ← wait_for config venues (execute_dex_leg config venues ctx.signal amount)
        dex_second ctx1 price amount leg2

  unfoldable pub execute_cex_first : ExecutionContext F → Act F (ExecutionContext F)
  unfolding cex_filled
  execute_cex_first ctx = do
    before ← done_so_far
    let ctx0 = leg1_started ctx cex
    let order_id = ctx.signal.signal_id ++ "_" ++ venues.order_tag before
    leg1 ← cex_with_retry config venues ctx.signal none (some order_id)
    cex_filled ctx0 leg1

  cex_second :
      ExecutionContext F → Num → Num → Option (Num × Num) × String → Act F (ExecutionContext F)
  unfolding unwound
  cex_second ctx price1 amount1 (none, error) =
      unwound ctx ("CEX failed after DEX - unwound (" ++ error ++ ")")
  cex_second ctx price1 amount1 (some (price2, amount2), _) =
      pure (both_done ctx dex price1 amount1 price2 amount2)

  dex_filled : ExecutionContext F → Awaited F → Act F (ExecutionContext F)
  unfolding cex_second
  dex_filled ctx timeout = pure (fail ctx "DEX timeout")
  dex_filled ctx (result (rejected error)) = pure (fail ctx error)
  dex_filled ctx (result (filled price amount)) = do
    before ← done_so_far
    let ctx1 = leg1_done ctx price amount cex
    let order_id = ctx.signal.signal_id ++ "_" ++ venues.order_tag before
    leg2 ← cex_with_retry config venues ctx.signal (some amount) (some order_id)
    cex_second ctx1 price amount leg2

  unfoldable pub execute_dex_first : ExecutionContext F → Act F (ExecutionContext F)
  unfolding dex_filled
  execute_dex_first ctx = do
    let ctx0 = leg1_started ctx dex
    leg1 ← wait_for config venues (execute_dex_leg config venues ctx.signal ctx.signal.size)
    dex_filled ctx0 leg1

  -- `circuit_breaker.is_open()`, `replay_protection.is_duplicate(signal)`
  unfoldable pub breaker_open : Act F Bool
  breaker_open = do
    now ← read_clock venues
    λ w.
        let (answer, b) = is_open w.circuit_breaker now in
        (ok answer, record w { circuit_breaker = b })

  pub duplicate : Signal F → Act F Bool
  duplicate signal = do
    now ← read_clock venues
    λ w.
        let (answer, r) = is_duplicate w.replay_protection signal.signal_id now in
        (ok answer, record w { replay_protection = r })

  pub mark : Signal F → Act F (Unit {0})
  mark signal = do
    now ← read_clock venues
    λ w. (
      ok tt,
      record w { replay_protection = mark_executed w.replay_protection signal.signal_id now },
    )

  succeeded : ExecutorState → Bool
  succeeded done = true
  succeeded _ = false

  -- `record_success` reads no clock.
  pub report : Bool → Act F (Unit {0})
  report true = λ w. (ok tt, record w { circuit_breaker = record_success w.circuit_breaker })
  report false = do
    now ← read_clock venues
    λ w. (ok tt, record w { circuit_breaker = record_failure w.circuit_breaker now })

  pub run_legs : ExecutionContext F → Act F (ExecutionContext F)
  run_legs ctx = if config.use_flashbots then execute_dex_first ctx else execute_cex_first ctx

  -- After the legs: the signal is marked, the breaker hears of the result.
  pub note_end : Signal F → ExecutionContext F → Act F (ExecutionContext F)
  unfolding mark report succeeded
  note_end signal ctx = do
    mark signal
    report (succeeded ctx.state)
    now ← read_clock venues
    pure (record ctx { finished_at = some now })

  -- After the three checks.
  pub run_valid : ExecutionContext F → Act F (ExecutionContext F)
  run_valid ctx = do ctx1 ← run_legs ctx; note_end ctx.signal ctx1

  -- `signal.is_valid()`, which reads the clock.
  pub run_unique : ExecutionContext F → Act F (ExecutionContext F)
  run_unique ctx = do
    now ← read_clock venues
    if is_valid ctx.signal now
        then run_valid (record ctx { state = validating })
        else pure (fail ctx "Signal invalid")

  pub run_closed : ExecutionContext F → Act F (ExecutionContext F)
  run_closed ctx = do
    seen ← duplicate ctx.signal
    if seen then pure (fail ctx "Duplicate signal") else run_unique ctx

  unfoldable pub execute : Signal F → Act F (ExecutionContext F)
  unfolding breaker_open duplicate note_end run_legs run_valid run_unique run_closed
  execute signal = do
    started ← read_clock venues
    let ctx = new_context signal started
    blocked ← breaker_open
    if blocked then pure (fail ctx "Circuit breaker open") else run_closed ctx
