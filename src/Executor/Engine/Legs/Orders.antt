-- ===== src/Executor/Engine/Legs/Orders.antt =====
-- The orders that `_cex_with_retry` of executor/engine.py submits.
use mathlib.Core.List.{append_assoc}
use peanut_trade_internship.Base.{
  ℕ, zero, suc, ◌+◌, ◌≤◌, String, Bool, true, false, Option, none, some, List, [], ◌∷◌, ◌++◌,
  Outcome, ok, raised, ◌≡◌, ◌∙◌, refl, sym, ap, arith, All, All-append, if◌then◌else◌,
}
use peanut_trade_internship.Base.Int.{pos}
use peanut_trade_internship.Base.Float.{Float}
use peanut_trade_internship.Strategy.Signal.{Signal}
use peanut_trade_internship.Executor.Engine.{
  ExecutorConfig, Event, OrderRequest, OrderResult, filled, rejected, Reply, answered, broke,
  TradingRules, limit_order, market_order, dex_swap, dex_unwind, pause, unwind_failed, Venues,
  World, Act, ExecuteError,
}
use peanut_trade_internship.Executor.Engine.Action.{continue, pure, ◌>>=◌}
use peanut_trade_internship.Executor.Engine.Legs.{
  Awaited, result, timeout, is_permanent, leg_of_reply, submit, order_request, settle, place_order,
  checked_order, execute_cex_leg, wait_for, pause_before, after_attempt, attempts, cex_with_retry,
}

module _ {F : Float} where
  -- The number of limit orders among some events.
  abbrev pub orders : List (Event F) → ℕ
  orders [] = 0
  orders (limit_order r ∷ es) = suc (orders es)
  orders (market_order p s a ∷ es) = orders es
  orders (dex_swap s a ∷ es) = orders es
  orders (dex_unwind s a ∷ es) = orders es
  orders (pause d ∷ es) = orders es
  orders (unwind_failed v s ∷ es) = orders es

  orders-append : (xs ys : List (Event F)) → orders (xs ++ ys) ≡ orders xs + orders ys
  orders-append [] ys = omega arith
  orders-append (limit_order r ∷ xs) ys = omega (arith, orders-append xs ys)
  orders-append (market_order p s a ∷ xs) ys = orders-append xs ys
  orders-append (dex_swap s a ∷ xs) ys = orders-append xs ys
  orders-append (dex_unwind s a ∷ xs) ys = orders-append xs ys
  orders-append (pause d ∷ xs) ys = orders-append xs ys
  orders-append (unwind_failed v s ∷ xs) ys = orders-append xs ys

  -- A limit order with this client order id, or a pause.
  abbrev pub Carries : Option String → Event F → Type 0
  Carries id (limit_order r) = r.client_order_id ≡ id
  Carries id (pause d) = Unit
  Carries id (market_order p s a) = ⊥
  Carries id (dex_swap s a) = ⊥
  Carries id (dex_unwind s a) = ⊥
  Carries id (unwind_failed v s) = ⊥

  -- Between two moments at most `limit` limit orders were sent, all with this client order id, and
  -- nothing else was done but to pause.
  pub record Submits (id : Option String) (limit : ℕ) (before after : List (Event F)) : Type 0 where
    pub sent : List (Event F)
    pub extends : after ≡ sent ++ before
    pub AtMost : orders sent ≤ limit
    pub carried : All (Carries id) sent

  Submits-refl : (id : Option String) (n : ℕ) (es : List (Event F)) → Submits id n es es
  Submits-refl id n es = record { sent = []; extends = refl; AtMost = omega arith; carried = tt }

  Submits-trans :
      (id : Option String) (m n : ℕ) (a b c : List (Event F))
      → Submits id m a b
      → Submits id n b c
      → Submits id (m + n) a c
  Submits-trans id m n a b c h k = record {
    sent = k.sent ++ h.sent;
    extends =
        k.extends
        ∙ (ap (λ (l : List (Event F)). k.sent ++ l) h.extends ∙ sym (append_assoc k.sent h.sent a));
    AtMost = omega (arith, orders-append k.sent h.sent, k.AtMost, h.AtMost);
    carried = All-append (Carries id) k.sent h.sent k.carried h.carried;
  }

  Submits-more :
      (id : Option String) (m n : ℕ) (a b : List (Event F))
      → m ≤ n
      → Submits id m a b
      → Submits id n a b
  Submits-more id m n a b le h = record {
    sent = h.sent;
    extends = h.extends;
    AtMost = omega (arith, h.AtMost);
    carried = h.carried;
  }

module _ {F : Float} (config : ExecutorConfig F) (venues : Venues F) (id : Option String) where
  -- A coroutine that sends at most `n` limit orders with the id.
  abbrev AtMost : {A : Type 0} → ℕ → Act F A → Type 0
  AtMost n m = (w : World F) → Submits id n w.events (m w).1.events

  AtMost-continue :
      {A B : Type 0} (m n : ℕ) (r : Outcome ExecuteError A) (g : A → Act F B) (w w' : World F)
      → Submits id m w.events w'.events
      → ((a : A) → Submits id n w'.events (g a w').1.events)
      → Submits id (m + n) w.events (continue r g w').1.events
  AtMost-continue m n (ok a) g w w' h k =
      Submits-trans id m n w.events w'.events (g a w').1.events h (k a)
  AtMost-continue m n (raised e) g w w' h k =
      Submits-more id m (m + n) w.events w'.events (omega arith) h

  AtMost-bind :
      {A B : Type 0} (m n : ℕ) (f : Act F A) (g : A → Act F B)
      → AtMost m f
      → ((a : A) → AtMost n (g a))
      → AtMost (m + n) (f >>= g)
  AtMost-bind m n f g hf hg w =
      let (r, w') = f w in AtMost-continue m n r g w w' (hf w) (λ a. hg a w')

  quiet : {A : Type 0} (r : Outcome ExecuteError A) (n : ℕ) → AtMost n (λ w. (r, w))
  quiet r n w = Submits-refl id n w.events

  AtMost-if :
      {A : Type 0} (n : ℕ) (b : Bool) (f g : Act F A)
      → AtMost n f
      → AtMost n g
      → AtMost n (if b then f else g)
  AtMost-if n true f g hf hg = hf
  AtMost-if n false f g hf hg = hg

  leg_of_reply-events :
      (r : Reply F (OrderResult F)) (w : World F) → (leg_of_reply config venues r w).1 ≡ w
  unfolding leg_of_reply
  leg_of_reply-events (answered a) w = refl
  leg_of_reply-events broke w = refl

  submit-AtMost :
      (request : OrderRequest F)
      → request.client_order_id ≡ id
      → AtMost 1 (submit config venues request)
  unfolding submit
  submit-AtMost request same w = record {
    sent = limit_order request ∷ [];
    extends =
        ap (λ (v : World F). v.events)
          (leg_of_reply-events (venues.create_limit_ioc_order w.events request)
            (record w { events = limit_order request ∷ w.events }));
    AtMost = omega arith;
    carried = (same, tt);
  }

  checked_order-AtMost :
      (reason : Option String) (signal : Signal F) (size price : F.Num) (rules : TradingRules F)
      → AtMost 1 (checked_order config venues reason signal size price id rules)
  unfolding checked_order place_order order_request
  checked_order-AtMost (some reason) signal size price rules w = Submits-refl id 1 w.events
  checked_order-AtMost none signal size price rules w =
      submit-AtMost (order_request config venues w.events signal size price id rules) refl w

  attempt-AtMost :
      (signal : Signal F) (size : Option F.Num)
      → AtMost 1 (wait_for config venues (execute_cex_leg config venues signal size id))
  unfolding wait_for execute_cex_leg
  attempt-AtMost signal size =
      AtMost-bind 1 0 (execute_cex_leg config venues signal size id)
        (λ leg v. (ok (settle config venues (venues.times_out v.events) leg), v))
        (AtMost-if 1 config.simulation_mode _ _ (λ w. Submits-refl id 1 w.events)
          (checked_order-AtMost _ signal _ _ (venues.trading_rules signal.pair)))
        (λ leg w. Submits-refl id 0 w.events)

  pause_before-AtMost :
      (left : ℕ) (delay : F.Num) → AtMost 0 (pause_before config venues left delay)
  unfolding pause_before
  pause_before-AtMost zero delay w = Submits-refl id 0 w.events
  pause_before-AtMost (suc left) delay w = record {
    sent = _ ∷ [];
    extends = refl;
    AtMost = omega arith;
    carried = (tt, tt);
  }

  after_attempt-AtMost :
      (n : ℕ) (r : Awaited F) (again : String → Act F (Option (F.Num × F.Num) × String))
      → ((e : String) → AtMost n (again e))
      → AtMost n (after_attempt config venues r again)
  unfolding after_attempt
  after_attempt-AtMost n (result (filled p a)) again h = λ w. Submits-refl id n w.events
  after_attempt-AtMost n (result (rejected e)) again h =
      AtMost-if n (is_permanent e) (pure (none, e)) (again e) (λ w. Submits-refl id n w.events)
        (h e)
  after_attempt-AtMost n timeout again h = h "CEX timeout"

  attempts-AtMost :
      (left : ℕ) (delay : F.Num) (last : String) (signal : Signal F) (size : Option F.Num)
      → AtMost left (attempts config venues left delay last signal size id)
  unfolding attempts
  attempts-AtMost zero delay last signal size = λ w. Submits-refl id 0 w.events
  attempts-AtMost (suc left) delay last signal size = λ w.
      Submits-more id (1 + left) (suc left) w.events _ (omega arith) (
        AtMost-bind 1 left (wait_for config venues (execute_cex_leg config venues signal size id)) _
          (attempt-AtMost signal size)
          (λ r. after_attempt-AtMost left r _ λ e v.
            Submits-more id (0 + left) left v.events _ (omega arith) (
              AtMost-bind 0 left (pause_before config venues left delay) _
                (pause_before-AtMost left delay)
                (λ _. attempts-AtMost left (F.mul delay (F.literal (pos 2) 0)) e signal size) v))
          w)

  -- Whatever the exchange replies, one call of `_cex_with_retry` submits at most one limit order
  -- more than the retries that are configured, all under the client order id that it was given,
  -- and does nothing else but to pause.
  pub cex_with_retry-Submits :
      (signal : Signal F) (size : Option F.Num) (w : World F)
      → Submits id
          (config.leg1_max_retries + 1)
          w.events
          (cex_with_retry config venues signal size id w).1.events
  unfolding cex_with_retry
  cex_with_retry-Submits signal size w =
      Submits-more id (suc config.leg1_max_retries) (config.leg1_max_retries + 1) w.events _
        (omega arith)
        (attempts-AtMost (suc config.leg1_max_retries) config.leg1_retry_base_delay "CEX timeout"
          signal size w)
