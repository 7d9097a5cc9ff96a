-- ===== src/Executor/Engine/Legs/Returns.antt =====
-- When the legs of executor/engine.py return: the only exceptions are those of the venues.
use peanut_trade_internship.Base.{
  ℕ, zero, suc, String, Bool, true, false, Option, none, some, List, ◌≡◌, refl, Outcome, ok, raised,
  if◌then◌else◌, Bool-cases, inl, inr,
}
use peanut_trade_internship.Base.Int.{pos}
use peanut_trade_internship.Base.Float.{Float}
use peanut_trade_internship.Strategy.Signal.{Signal}
use peanut_trade_internship.Executor.Engine.{
  ExecutionContext, ExecutorConfig, Event, Leg, filled, rejected, OrderResult, OrderRequest, Reply,
  answered, broke, TradingRules, Venue, Venues, World, Act, ExecuteError, DexUnwind, zero_amount,
  unsent, sent,
}
use peanut_trade_internship.Executor.Engine.Action.{continue, pure, ◌>>=◌}
use peanut_trade_internship.Executor.Engine.Legs.{
  Awaited, result, timeout, is_permanent, or_raise, leg_of_reply, submit, checked_order,
  place_order, order_request, execute_cex_leg, execute_dex_leg, settle, wait_for, pause_before,
  after_attempt, attempts, cex_with_retry, log_failure, unwind_dex_leg, unwind_leg, unwind_size,
  unwind,
}

module _ {F : Float} where
  -- In every world the coroutine returns.
  abbrev pub Returns : {A : Type 0} → Act F A → Type 0
  Returns {A} m = (w : World F) → (a : A) × ((m w).0 ≡ ok a)

  Returns-continue :
      {A B : Type 0} (r : Outcome ExecuteError A) (f : A → Act F B) (w : World F) {a : A}
      → r ≡ ok a
      → ((x : A) → Returns (f x))
      → (b : B) × ((continue r f w).0 ≡ ok b)
  Returns-continue (ok x) f w h k = k x w
  Returns-continue (raised e) f w h k = absurd (cc)

  pub Returns-bind :
      {A B : Type 0} (m : Act F A) (f : A → Act F B)
      → Returns m
      → ((a : A) → Returns (f a))
      → Returns (m >>= f)
  Returns-bind m f hm hf w = Returns-continue (m w).0 f (m w).1 (hm w).1 hf

  pub Returns-if :
      {A : Type 0} (b : Bool) (m n : Act F A) → Returns m → Returns n → Returns (if b then m else n)
  Returns-if true m n hm hn = hm
  Returns-if false m n hm hn = hn

  -- A venue that answers every call.
  pub record Answers (venues : Venues F) : Type 0 where
    pub orders :
        (before : List (Event F)) (r : OrderRequest F)
        → (o : OrderResult F) × (venues.create_limit_ioc_order before r ≡ answered o)
    pub swaps :
        (before : List (Event F)) (s : Signal F) (size : F.Num)
        → (l : Leg F) × (venues.execute_dex_leg_sync before s size ≡ answered l)

module _ {F : Float} (config : ExecutorConfig F) (venues : Venues F)
    (answers : Answers venues) where
  or_raise-Returns :
      {A : Type 0} (r : Reply F A) {a : A} → r ≡ answered a → Returns (or_raise config venues r)
  unfolding or_raise
  or_raise-Returns (answered a) h w = (a, refl)
  or_raise-Returns broke h w = absurd (cc)

  leg_of_reply-Returns :
      (r : Reply F (OrderResult F)) {o : OrderResult F}
      → r ≡ answered o
      → Returns (leg_of_reply config venues r)
  unfolding leg_of_reply
  leg_of_reply-Returns (answered o) h w = (_, refl)
  leg_of_reply-Returns broke h w = absurd (cc)

  submit-Returns : (request : OrderRequest F) → Returns (submit config venues request)
  unfolding submit
  submit-Returns request w =
      leg_of_reply-Returns (venues.create_limit_ioc_order w.events request)
        (answers.orders w.events request).1 _

  checked_order-Returns :
      (reason : Option String) (signal : Signal F) (size price : F.Num) (id : Option String)
      (rules : TradingRules F)
      → Returns (checked_order config venues reason signal size price id rules)
  unfolding checked_order place_order
  checked_order-Returns (some reason) signal size price id rules w = (_, refl)
  checked_order-Returns none signal size price id rules w =
      submit-Returns (order_request config venues w.events signal size price id rules) w

  execute_cex_leg-Returns :
      (signal : Signal F) (size : Option F.Num) (id : Option String)
      → Returns (execute_cex_leg config venues signal size id)
  unfolding execute_cex_leg
  execute_cex_leg-Returns signal size id =
      Returns-if config.simulation_mode _ _ (λ w. (_, refl))
        (checked_order-Returns _ signal _ _ id (venues.trading_rules signal.pair))

  pub execute_dex_leg-Returns :
      (signal : Signal F) (size : F.Num) → Returns (execute_dex_leg config venues signal size)
  unfolding execute_dex_leg
  execute_dex_leg-Returns signal size w = elim (Bool-cases config.simulation_mode) [
    | inl sim ↦ simp sim (_, refl)
    | inr live ↦ simp live (
        or_raise-Returns (venues.execute_dex_leg_sync w.events signal size)
          (answers.swaps w.events signal size).1 _)
  ]

  pub wait_for-Returns : (m : Act F (Leg F)) → Returns m → Returns (wait_for config venues m)
  unfolding wait_for
  wait_for-Returns m h w =
      Returns-continue (m w).0
        (λ leg v. (ok (settle config venues (venues.times_out v.events) leg), v)) (m w).1 (h w).1
        (λ a v. (_, refl))

  pause_before-Returns :
      (left : ℕ) (delay : F.Num) → Returns (pause_before config venues left delay)
  unfolding pause_before
  pause_before-Returns zero delay w = (tt, refl)
  pause_before-Returns (suc left) delay w = (tt, refl)

  after_attempt-Returns :
      (r : Awaited F) (again : String → Act F (Option (F.Num × F.Num) × String))
      → ((e : String) → Returns (again e))
      → Returns (after_attempt config venues r again)
  unfolding after_attempt
  after_attempt-Returns (result (filled p a)) again h w = (_, refl)
  after_attempt-Returns (result (rejected e)) again h w =
      Returns-if (is_permanent e) (pure (none, e)) (again e) (λ v. (_, refl)) (h e) w
  after_attempt-Returns timeout again h w = h "CEX timeout" w

  attempts-Returns :
      (left : ℕ) (delay : F.Num) (last : String) (signal : Signal F) (size : Option F.Num)
      (id : Option String)
      → Returns (attempts config venues left delay last signal size id)
  unfolding attempts
  attempts-Returns zero delay last signal size id = λ w. (_, refl)
  attempts-Returns (suc left) delay last signal size id =
      Returns-bind (wait_for config venues (execute_cex_leg config venues signal size id)) _
        (wait_for-Returns _ (execute_cex_leg-Returns signal size id))
        λ r. after_attempt-Returns r _ λ e.
          Returns-bind (pause_before config venues left delay) _ (pause_before-Returns left delay)
            λ _. attempts-Returns left (F.mul delay (F.literal (pos 2) 0)) e signal size id

  pub cex_with_retry-Returns :
      (signal : Signal F) (size : Option F.Num) (id : Option String)
      → Returns (cex_with_retry config venues signal size id)
  unfolding cex_with_retry
  cex_with_retry-Returns signal size id =
      attempts-Returns (suc config.leg1_max_retries) config.leg1_retry_base_delay "CEX timeout"
        signal size id

  pub log_failure-Returns :
      (v : Venue) (signal : Signal F) (r : Reply F (Unit {0}))
      → Returns (log_failure config venues v signal r)
  log_failure-Returns v signal (answered t) w = (tt, refl)
  log_failure-Returns v signal broke w = (tt, refl)

  unwind_dex_leg-Returns :
      (signal : Signal F) (size : F.Num) (r : DexUnwind F)
      → Returns (unwind_dex_leg config venues signal size r)
  unwind_dex_leg-Returns signal size zero_amount w = (tt, refl)
  unwind_dex_leg-Returns signal size unsent w = (tt, refl)
  unwind_dex_leg-Returns signal size (sent r) w = log_failure-Returns Venue.dex signal r _

  pub unwind_leg-Returns :
      (v : Option Venue) (signal : Signal F) (price : Option F.Num) (size : F.Num)
      → Returns (unwind_leg config venues v signal price size)
  unfolding unwind_leg
  unwind_leg-Returns none signal price size w = (tt, refl)
  unwind_leg-Returns (some Venue.cex) signal price size w =
      log_failure-Returns Venue.cex signal (venues.create_market_order w.events signal.pair _ size)
        _
  unwind_leg-Returns (some Venue.dex) signal price size w =
      unwind_dex_leg-Returns signal size (venues.unwind_dex_leg_sync w.events signal price size) w

  unwind_size-Returns :
      (size : Option F.Num) (ctx : ExecutionContext F)
      → Returns (unwind_size config venues size ctx)
  unfolding unwind_size
  unwind_size-Returns none ctx = λ w. (tt, refl)
  unwind_size-Returns (some size) ctx =
      Returns-if (F.is_zero size) _ _ (λ w. (tt, refl))
        (unwind_leg-Returns ctx.leg1_venue ctx.signal ctx.leg1_fill_price size)

  pub unwind-Returns : (ctx : ExecutionContext F) → Returns (unwind config venues ctx)
  unfolding unwind
  unwind-Returns ctx =
      Returns-if config.simulation_mode _ _ (λ w. (tt, refl))
        (unwind_size-Returns ctx.leg1_fill_size ctx)
