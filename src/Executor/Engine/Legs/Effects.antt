-- ===== src/Executor/Engine/Legs/Effects.antt =====
-- How the legs of executor/engine.py change the world, for any relation between worlds that
-- every event respects: it holds between the world before the legs and the world after them, also
-- where they raise.
use peanut_trade_internship.Base.{
  ℕ, zero, suc, String, Bool, true, false, Option, none, some, Outcome, ok, raised, ◌∷◌, Bool-cases,
  inl, inr, if◌then◌else◌,
}
use peanut_trade_internship.Base.Int.{pos}
use peanut_trade_internship.Base.Float.{Float}
use peanut_trade_internship.Strategy.Signal.{Signal}
use peanut_trade_internship.Executor.Engine.{
  ExecutionContext, ExecutorConfig, Venue, Event, OrderRequest, OrderResult, Leg, filled, rejected,
  Reply, answered, broke, TradingRules, limit_order, dex_swap, dex_unwind, market_order, DexUnwind,
  zero_amount, unsent, sent, Venues, World, Act, ExecuteError,
}
use peanut_trade_internship.Executor.Engine.Action.{continue, pure, ◌>>=◌}
use peanut_trade_internship.Executor.Engine.Legs.{
  Awaited, result, timeout, is_permanent, or_raise, leg_of_reply, submit, order_request, settle,
  place_order, checked_order, execute_cex_leg, execute_dex_leg, wait_for, pause_before,
  after_attempt, attempts, cex_with_retry, unwind, unwind_size, unwind_leg, unwind_dex_leg,
  log_failure, unwind_side,
}

module _ {F : Float} (R : World F → World F → Type 0) (R-refl : (w : World F) → R w w)
    (R-trans : (u v w : World F) → R u v → R v w → R u w)
    (R-event : (e : Event F) (w : World F) → R w (record w { events = e ∷ w.events }))
    (config : ExecutorConfig F) (venues : Venues F) where
  -- A coroutine all of whose runs are related.
  abbrev pub Keeps : {A : Type 0} → Act F A → Type 0
  Keeps m = (w : World F) → R w (m w).1

  pub Keeps-continue :
      {A B : Type 0} (r : Outcome ExecuteError A) (f : A → Act F B) (u w : World F)
      → R u w
      → ((a : A) → R w (f a w).1)
      → R u (continue r f w).1
  Keeps-continue (ok a) f u w h k = R-trans u w (f a w).1 h (k a)
  Keeps-continue (raised e) f u w h k = h

  pub Keeps-bind :
      {A B : Type 0} (m : Act F A) (f : A → Act F B)
      → Keeps m
      → ((a : A) → Keeps (f a))
      → Keeps (m >>= f)
  Keeps-bind m f hm hf w = let (r, w') = m w in Keeps-continue r f w w' (hm w) (λ a. hf a w')

  pub Keeps-if :
      {A : Type 0} (b : Bool) (m n : Act F A) → Keeps m → Keeps n → Keeps (if b then m else n)
  Keeps-if true m n hm hn = hm
  Keeps-if false m n hm hn = hn

  after_event : (e : Event F) (w w' : World F) → R (record w { events = e ∷ w.events }) w' → R w w'
  after_event e w w' h = R-trans w (record w { events = e ∷ w.events }) w' (R-event e w) h

  or_raise-Keeps : {A : Type 0} (r : Reply F A) → Keeps (or_raise config venues r)
  unfolding or_raise
  or_raise-Keeps (answered a) w = R-refl w
  or_raise-Keeps broke w = R-refl w

  leg_of_reply-Keeps : (r : Reply F (OrderResult F)) → Keeps (leg_of_reply config venues r)
  unfolding leg_of_reply
  leg_of_reply-Keeps (answered a) w = R-refl w
  leg_of_reply-Keeps broke w = R-refl w

  submit-Keeps : (request : OrderRequest F) → Keeps (submit config venues request)
  unfolding submit
  submit-Keeps request w =
      after_event (limit_order request) w _
        (leg_of_reply-Keeps (venues.create_limit_ioc_order w.events request) _)

  checked_order-Keeps :
      (reason : Option String) (signal : Signal F) (size price : F.Num) (id : Option String)
      (rules : TradingRules F)
      → Keeps (checked_order config venues reason signal size price id rules)
  unfolding checked_order place_order
  checked_order-Keeps (some reason) signal size price id rules w = R-refl w
  checked_order-Keeps none signal size price id rules w =
      submit-Keeps (order_request config venues w.events signal size price id rules) w

  pub execute_cex_leg-Keeps :
      (signal : Signal F) (size : Option F.Num) (id : Option String)
      → Keeps (execute_cex_leg config venues signal size id)
  unfolding execute_cex_leg
  execute_cex_leg-Keeps signal size id w =
      Keeps-if config.simulation_mode _ _ R-refl
        (checked_order-Keeps _ signal _ _ id (venues.trading_rules signal.pair)) w

  pub execute_dex_leg-Keeps :
      (signal : Signal F) (size : F.Num) → Keeps (execute_dex_leg config venues signal size)
  unfolding execute_dex_leg
  execute_dex_leg-Keeps signal size w = elim (Bool-cases config.simulation_mode) [
    | inl sim ↦ simp sim (R-refl w)
    | inr live ↦ simp live (
        after_event (dex_swap signal size) w _
          (or_raise-Keeps (venues.execute_dex_leg_sync w.events signal size) _))
  ]

  pub wait_for-Keeps : (m : Act F (Leg F)) → Keeps m → Keeps (wait_for config venues m)
  unfolding wait_for
  wait_for-Keeps m h w =
      let (r, w') = m w in
      Keeps-continue r (λ leg v. (ok (settle config venues (venues.times_out v.events) leg), v)) w
        w' (h w) (λ a. R-refl w')

  pause_before-Keeps : (left : ℕ) (delay : F.Num) → Keeps (pause_before config venues left delay)
  unfolding pause_before
  pause_before-Keeps zero delay w = R-refl w
  pause_before-Keeps (suc left) delay w = R-event _ w

  after_attempt-Keeps :
      (r : Awaited F) (again : String → Act F (Option (F.Num × F.Num) × String))
      → ((e : String) → Keeps (again e))
      → Keeps (after_attempt config venues r again)
  unfolding after_attempt
  after_attempt-Keeps (result (filled p a)) again h w = R-refl w
  after_attempt-Keeps (result (rejected e)) again h w =
      Keeps-if (is_permanent e) (pure (none, e)) (again e) R-refl (h e) w
  after_attempt-Keeps timeout again h w = h "CEX timeout" w

  attempts-Keeps :
      (left : ℕ) (delay : F.Num) (last : String) (signal : Signal F) (size : Option F.Num)
      (id : Option String)
      → Keeps (attempts config venues left delay last signal size id)
  unfolding attempts
  attempts-Keeps zero delay last signal size id = R-refl
  attempts-Keeps (suc left) delay last signal size id =
      Keeps-bind (wait_for config venues (execute_cex_leg config venues signal size id)) _
        (wait_for-Keeps _ (execute_cex_leg-Keeps signal size id))
        λ r. after_attempt-Keeps r _ λ e.
          Keeps-bind (pause_before config venues left delay) _ (pause_before-Keeps left delay)
            λ _. attempts-Keeps left (F.mul delay (F.literal (pos 2) 0)) e signal size id

  pub cex_with_retry-Keeps :
      (signal : Signal F) (size : Option F.Num) (id : Option String)
      → Keeps (cex_with_retry config venues signal size id)
  unfolding cex_with_retry
  cex_with_retry-Keeps signal size id =
      attempts-Keeps (suc config.leg1_max_retries) config.leg1_retry_base_delay "CEX timeout" signal
        size id

  log_failure-Keeps :
      (v : Venue) (signal : Signal F) (r : Reply F (Unit {0}))
      → Keeps (log_failure config venues v signal r)
  log_failure-Keeps v signal (answered t) w = R-refl w
  log_failure-Keeps v signal broke w = R-event _ w

  unwind_dex_leg-Keeps :
      (signal : Signal F) (size : F.Num) (r : DexUnwind F)
      → Keeps (unwind_dex_leg config venues signal size r)
  unwind_dex_leg-Keeps signal size zero_amount w = R-refl w
  unwind_dex_leg-Keeps signal size unsent w = R-event _ w
  unwind_dex_leg-Keeps signal size (sent r) w =
      after_event (dex_unwind signal size) w _ (log_failure-Keeps Venue.dex signal r _)

  unwind_leg-Keeps :
      (v : Option Venue) (signal : Signal F) (price : Option F.Num) (size : F.Num)
      → Keeps (unwind_leg config venues v signal price size)
  unfolding unwind_leg
  unwind_leg-Keeps none signal price size w = R-refl w
  unwind_leg-Keeps (some Venue.cex) signal price size w =
      after_event (market_order signal.pair (unwind_side signal.direction) size) w _ (
        log_failure-Keeps Venue.cex signal (venues.create_market_order w.events signal.pair _ size)
          _)
  unwind_leg-Keeps (some Venue.dex) signal price size w =
      unwind_dex_leg-Keeps signal size (venues.unwind_dex_leg_sync w.events signal price size) w

  unwind_size-Keeps :
      (size : Option F.Num) (ctx : ExecutionContext F) → Keeps (unwind_size config venues size ctx)
  unfolding unwind_size
  unwind_size-Keeps none ctx = R-refl
  unwind_size-Keeps (some size) ctx =
      Keeps-if (F.is_zero size) _ _ R-refl
        (unwind_leg-Keeps ctx.leg1_venue ctx.signal ctx.leg1_fill_price size)

  pub unwind-Keeps : (ctx : ExecutionContext F) → Keeps (unwind config venues ctx)
  unfolding unwind
  unwind-Keeps ctx =
      Keeps-if config.simulation_mode _ _ R-refl (unwind_size-Keeps ctx.leg1_fill_size ctx)
