-- ===== src/Executor/Engine/Run/Effects.antt =====
-- How the two orders of legs of executor/engine.py change the world, for any relation between
-- worlds that every event respects.
use peanut_trade_internship.Base.{String, Option, none, some, ◌∷◌}
use Prim.Native.String.{◌++◌}
use peanut_trade_internship.Base.Float.{Float}
use peanut_trade_internship.Executor.Engine.{
  ExecutionContext, ExecutorConfig, Venue, unwinding, Event, filled, rejected, Venues, World, Act,
}
use peanut_trade_internship.Executor.Engine.Action.{pure, ◌>>=◌}
use peanut_trade_internship.Executor.Engine.Legs.{
  Awaited, result, timeout, execute_dex_leg, wait_for, cex_with_retry, unwind,
}
use peanut_trade_internship.Executor.Engine.Legs.Effects
use peanut_trade_internship.Executor.Engine.Run.{
  leg1_started, leg1_done, fail, unwound, dex_second, cex_filled, execute_cex_first, cex_second,
  dex_filled, execute_dex_first, run_legs,
}

module _ {F : Float} (R : World F → World F → Type 0) (R-refl : (w : World F) → R w w)
    (R-trans : (u v w : World F) → R u v → R v w → R u w)
    (R-event : (e : Event F) (w : World F) → R w (record w { events = e ∷ w.events }))
    (config : ExecutorConfig F) (venues : Venues F) where
  abbrev Keeps : {A : Type 0} → Act F A → Type 0
  Keeps m = (w : World F) → R w (m w).1

  bind :
      {A B : Type 0} (m : Act F A) (f : A → Act F B)
      → Keeps m
      → ((a : A) → Keeps (f a))
      → Keeps (m >>= f)
  bind = Effects.Keeps-bind R R-refl R-trans R-event config venues

  unwound-Keeps : (ctx : ExecutionContext F) (e : String) → Keeps (unwound config venues ctx e)
  unfolding unwound
  unwound-Keeps ctx e =
      bind (unwind config venues (record ctx { state = unwinding })) (λ _. pure (fail ctx e))
        (Effects.unwind-Keeps R R-refl R-trans R-event config venues
          (record ctx { state = unwinding }))
        (λ _. R-refl)

  dex_second-Keeps :
      (ctx : ExecutionContext F) (price amount : F.Num) (r : Awaited F)
      → Keeps (dex_second config venues ctx price amount r)
  unfolding dex_second
  dex_second-Keeps ctx price amount timeout = unwound-Keeps ctx "DEX timeout - unwound"
  dex_second-Keeps ctx price amount (result (rejected e)) = unwound-Keeps ctx "DEX failed - unwound"
  dex_second-Keeps ctx price amount (result (filled p a)) = R-refl

  cex_second-Keeps :
      (ctx : ExecutionContext F) (price amount : F.Num) (r : Option (F.Num × F.Num) × String)
      → Keeps (cex_second config venues ctx price amount r)
  unfolding cex_second
  cex_second-Keeps ctx price amount (none, e) = unwound-Keeps ctx _
  cex_second-Keeps ctx price amount (some (p, a), e) = R-refl

  cex_filled-Keeps :
      (ctx : ExecutionContext F) (r : Option (F.Num × F.Num) × String)
      → Keeps (cex_filled config venues ctx r)
  unfolding cex_filled
  cex_filled-Keeps ctx (none, e) = R-refl
  cex_filled-Keeps ctx (some (price, amount), e) =
      Effects.Keeps-if R R-refl R-trans R-event config venues (F.is_zero ctx.signal.size) _ _ R-refl
        (Effects.Keeps-if R R-refl R-trans R-event config venues
          (F.lt (F.div amount ctx.signal.size) config.min_fill_ratio) _ _ R-refl
          (bind (wait_for config venues (execute_dex_leg config venues ctx.signal amount)) _
            (Effects.wait_for-Keeps R R-refl R-trans R-event config venues _ (
              Effects.execute_dex_leg-Keeps R R-refl R-trans R-event config venues ctx.signal
                amount))
            (dex_second-Keeps (leg1_done ctx price amount Venue.dex) price amount)))

  dex_filled-Keeps :
      (ctx : ExecutionContext F) (r : Awaited F) → Keeps (dex_filled config venues ctx r)
  unfolding dex_filled
  dex_filled-Keeps ctx timeout = R-refl
  dex_filled-Keeps ctx (result (rejected e)) = R-refl
  dex_filled-Keeps ctx (result (filled price amount)) = λ w.
      bind
        (cex_with_retry config venues ctx.signal (some amount)
          (some (ctx.signal.signal_id ++ "_" ++ venues.order_tag w.events)))
        _
        (Effects.cex_with_retry-Keeps R R-refl R-trans R-event config venues ctx.signal
          (some amount) _)
        (cex_second-Keeps (leg1_done ctx price amount Venue.cex) price amount) w

  execute_dex_first-Keeps : (ctx : ExecutionContext F) → Keeps (execute_dex_first config venues ctx)
  unfolding execute_dex_first
  execute_dex_first-Keeps ctx =
      bind (wait_for config venues (execute_dex_leg config venues ctx.signal ctx.signal.size)) _
        (Effects.wait_for-Keeps R R-refl R-trans R-event config venues _ (
          Effects.execute_dex_leg-Keeps R R-refl R-trans R-event config venues ctx.signal
            ctx.signal.size))
        (dex_filled-Keeps (leg1_started ctx Venue.dex))

  execute_cex_first-Keeps : (ctx : ExecutionContext F) → Keeps (execute_cex_first config venues ctx)
  unfolding execute_cex_first
  execute_cex_first-Keeps ctx = λ w.
      bind
        (cex_with_retry config venues ctx.signal none
          (some (ctx.signal.signal_id ++ "_" ++ venues.order_tag w.events)))
        _ (Effects.cex_with_retry-Keeps R R-refl R-trans R-event config venues ctx.signal none _)
        (cex_filled-Keeps (leg1_started ctx Venue.cex)) w

  pub run_legs-Keeps : (ctx : ExecutionContext F) → Keeps (run_legs config venues ctx)
  unfolding run_legs
  run_legs-Keeps ctx =
      Effects.Keeps-if R R-refl R-trans R-event config venues config.use_flashbots _ _
        (execute_dex_first-Keeps ctx) (execute_cex_first-Keeps ctx)
