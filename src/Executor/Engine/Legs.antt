-- ===== src/Executor/Engine/Legs.antt =====
-- The legs of an execution: `_execute_cex_leg`, `_cex_with_retry`, `_execute_dex_leg`, `_unwind` and
-- `_calculate_pnl` of executor/engine.py. A live DEX leg (`_execute_dex_leg_sync`) and its unwinding
-- (`_unwind_dex_leg_sync`) are replies of the venues.
pub mod Effects
pub mod Orders
pub mod Returns
use peanut_trade_internship.Base.{
  ℕ, zero, suc, String, Bool, true, false, Option, none, some, List, [], ◌∷◌, ok, raised,
  if◌then◌else◌, any, str_eq, ◌==◌,
}
use Prim.Native.String.{◌++◌}
use peanut_trade_internship.Base.Int.{ℤ, pos, negsuc}
use peanut_trade_internship.Base.Float.{Float}
use peanut_trade_internship.Base.Text.{in_lower}
use peanut_trade_internship.Strategy.Signal.{Signal, Direction, buy_cex_sell_dex, buy_dex_sell_cex}
use peanut_trade_internship.Executor.Engine.{
  ExecutionContext, ExecutorConfig, Venue, Side, buy, sell, Event, OrderRequest, OrderResult, Leg,
  filled, rejected, Reply, answered, broke, TradingRules, Venues, World, Act, ExecuteError,
  venue_error, limit_order, market_order, dex_swap, dex_unwind, pause, unwind_failed, DexUnwind,
  zero_amount, unsent, sent,
}
use peanut_trade_internship.Executor.Engine.Action.{pure, raise, ◌>>=◌, ◌>>◌, emit, done_so_far}

abbrev pub permanent_cex_errors : List String
permanent_cex_errors =
    "insufficient" ∷ "balance" ∷ "rejected" ∷ "invalid" ∷ "forbidden" ∷ "not found" ∷ "duplicate"
    ∷ "permission" ∷ []

unfoldable pub is_permanent : String → Bool
is_permanent error = any (λ p. in_lower p error) permanent_cex_errors

abbrev pub cex_side : Direction → Side
cex_side buy_cex_sell_dex = buy
cex_side buy_dex_sell_cex = sell

abbrev pub unwind_side : Direction → Side
unwind_side buy_cex_sell_dex = sell
unwind_side buy_dex_sell_cex = buy

-- What `asyncio.wait_for` gives for a leg.
pub data Awaited (F : Float) : Type 0 where
  result : Leg F → Awaited F
  timeout : Awaited F

module _ {F : Float} (config : ExecutorConfig F) (venues : Venues F) where
  open F use {Num, literal, add, sub, mul, div, lt, is_zero}

  unfoldable pub or_raise : {A : Type 0} → Reply F A → Act F A
  or_raise (answered a) = pure a
  or_raise broke = raise venue_error

  -- `size or signal.size`
  abbrev pub size_or : Option Num → Num → Num
  size_or none default = default
  size_or (some size) default = if is_zero size then default else size

  -- The price of the order after the refresh of the book, which is skipped if it fails.
  abbrev pub near : Option Num → Num → Num → TradingRules F → Num
  near none factor price rules = price
  near (some best) factor price rules =
      if is_zero best then price else rules.round_price (mul best factor)

  unfoldable pub refreshed_price :
      Reply F (Option Num × Option Num) → Side → Num → TradingRules F → Num
  refreshed_price broke side price rules = price
  refreshed_price (answered (best_bid, best_ask)) sell price rules =
      near best_bid (literal (pos 9995) 4) price rules
  refreshed_price (answered (best_bid, best_ask)) buy price rules =
      near best_ask (literal (pos 10005) 4) price rules

  unfoldable pub leg_of_order : OrderResult F → Leg F
  leg_of_order r =
      if str_eq r.status "filled"
      then filled r.avg_fill_price r.amount_filled
      else rejected r.status

  unfoldable pub leg_of_reply : Reply F (OrderResult F) → Act F (Leg F)
  unfolding leg_of_order
  leg_of_reply (answered order) = pure (leg_of_order order)
  leg_of_reply broke = raise venue_error

  unfoldable pub order_request :
      List (Event F) → Signal F → Num → Num → Option String → TradingRules F → OrderRequest F
  unfolding refreshed_price
  order_request before signal actual_size price order_id rules =
      let side = cex_side signal.direction in
      let book = venues.fetch_order_book before signal.pair in
      record {
        symbol = signal.pair;
        side = side;
        amount = actual_size;
        price = refreshed_price book side price rules;
        client_order_id = order_id;
      }

  unfoldable pub submit : OrderRequest F → Act F (Leg F)
  unfolding leg_of_reply
  submit request = do
    before ← done_so_far
    emit (limit_order request)
    leg_of_reply (venues.create_limit_ioc_order before request)

  unfoldable pub place_order : Signal F → Num → Num → Option String → TradingRules F → Act F (Leg F)
  unfolding submit
  place_order signal actual_size price order_id rules = do
    before ← done_so_far
    submit (order_request before signal actual_size price order_id rules)

  unfoldable pub checked_order :
      Option String → Signal F → Num → Num → Option String → TradingRules F → Act F (Leg F)
  unfolding place_order
  checked_order (some reason) signal actual_size price order_id rules =
      pure (rejected ("Trading rules: " ++ reason))
  checked_order none signal actual_size price order_id rules =
      place_order signal actual_size price order_id rules

  unfoldable pub execute_cex_leg : Signal F → Option Num → Option String → Act F (Leg F)
  unfolding checked_order
  execute_cex_leg signal size order_id =
      let actual_size = size_or size signal.size in
      let rules = venues.trading_rules signal.pair in
      let price_for_order = rules.round_price (mul signal.cex_price (literal (pos 1001) 3)) in
      let quantity = rules.round_quantity actual_size in
      if config.simulation_mode
      then pure (filled (mul signal.cex_price (literal (pos 10001) 4)) actual_size)
      else checked_order (rules.validate quantity price_for_order) signal quantity price_for_order
          order_id rules

  unfoldable pub execute_dex_leg : Signal F → Num → Act F (Leg F)
  unfolding or_raise
  execute_dex_leg signal size =
      if config.simulation_mode
      then pure (filled (mul signal.dex_price (literal (pos 9998) 4)) size)
      else do
        before ← done_so_far
        emit (dex_swap signal size)
        or_raise (venues.execute_dex_leg_sync before signal size)

  -- `asyncio.wait_for(leg, timeout)`: what the leg has done stays done when its result is dropped.
  unfoldable pub settle : Bool → Leg F → Awaited F
  settle true leg = timeout
  settle false leg = result leg

  unfoldable pub wait_for : Act F (Leg F) → Act F (Awaited F)
  unfolding settle
  wait_for start = do leg ← start; after ← done_so_far; pure (settle (venues.times_out after) leg)

  -- The pause before the next attempt, if there is one.
  unfoldable pub pause_before : ℕ → Num → Act F (Unit {0})
  pause_before zero delay = pure tt
  pause_before (suc left) delay = do
    before ← done_so_far
    let jitter =
        mul (mul delay (literal (pos 2) 1)) (sub (venues.random before) (literal (pos 5) 1))
    emit (pause (add delay jitter))

  -- What follows an attempt; `again` goes on with the loop after an error that may pass.
  unfoldable pub after_attempt :
      Awaited F
      → (String → Act F (Option (Num × Num) × String))
      → Act F (Option (Num × Num) × String)
  after_attempt (result (filled price amount)) again = pure (some (price, amount), "")
  after_attempt (result (rejected error)) again =
      if is_permanent error then pure (none, error) else again error
  after_attempt timeout again = again "CEX timeout"

  -- The loop, on the number of attempts that are left.
  unfoldable pub attempts :
      ℕ → Num → String → Signal F → Option Num → Option String → Act F (Option (Num × Num) × String)
  unfolding after_attempt pause_before
  attempts zero delay last_error signal size order_id = pure (none, last_error)
  attempts (suc left) delay last_error signal size order_id = do
    outcome ← wait_for (execute_cex_leg signal size order_id)
    after_attempt outcome λ error. do
      pause_before left delay
      attempts left (mul delay (literal (pos 2) 0)) error signal size order_id

  -- The fill, or `None` with the error.
  unfoldable pub cex_with_retry :
      Signal F → Option Num → Option String → Act F (Option (Num × Num) × String)
  unfolding attempts
  cex_with_retry signal size order_id =
      attempts (suc config.leg1_max_retries) config.leg1_retry_base_delay "CEX timeout" signal size
        order_id

  -- An exception of the unwinding is logged and dropped.
  abbrev pub log_failure : Venue → Signal F → Reply F (Unit {0}) → Act F (Unit {0})
  log_failure venue signal (answered done) = pure tt
  log_failure venue signal broke = emit (unwind_failed venue signal)

  abbrev pub unwind_dex_leg : Signal F → Num → DexUnwind F → Act F (Unit {0})
  unwind_dex_leg signal size zero_amount = pure tt
  unwind_dex_leg signal size unsent = log_failure Venue.dex signal broke
  unwind_dex_leg signal size (sent reply) = do
    emit (dex_unwind signal size)
    log_failure Venue.dex signal reply

  unfoldable pub unwind_leg : Option Venue → Signal F → Option Num → Num → Act F (Unit {0})
  unwind_leg none signal price size = pure tt
  unwind_leg (some Venue.cex) signal price size = do
    before ← done_so_far
    let side = unwind_side signal.direction
    emit (market_order signal.pair side size)
    log_failure Venue.cex signal (venues.create_market_order before signal.pair side size)
  unwind_leg (some Venue.dex) signal price size = do
    before ← done_so_far
    unwind_dex_leg signal size (venues.unwind_dex_leg_sync before signal price size)

  unfoldable pub unwind_size : Option Num → ExecutionContext F → Act F (Unit {0})
  unfolding unwind_leg
  unwind_size none ctx = pure tt
  unwind_size (some size) ctx =
      if is_zero size
      then pure tt
      else unwind_leg ctx.leg1_venue ctx.signal ctx.leg1_fill_price size

  unfoldable pub unwind : ExecutionContext F → Act F (Unit {0})
  unfolding unwind_size
  unwind ctx = if config.simulation_mode then pure tt else unwind_size ctx.leg1_fill_size ctx

  abbrev pub or_zero : Num → Num
  or_zero x = if is_zero x then literal (pos 0) 0 else x

  abbrev pub larger : Num → Num → Num
  larger a b = if lt a b then b else a

  abbrev pub prices : Venue → Num → Num → Num × Num
  prices Venue.cex leg1_price leg2_price = (leg1_price, leg2_price)
  prices Venue.dex leg1_price leg2_price = (leg2_price, leg1_price)

  abbrev pub gross_pnl : Direction → Num → Num → Num → Num
  gross_pnl buy_dex_sell_cex cex_price dex_price size = mul (sub cex_price dex_price) size
  gross_pnl buy_cex_sell_dex cex_price dex_price size = mul (sub dex_price cex_price) size

  abbrev pub fees : Option (Num → Num) → Num → Num
  fees (some fee_usd) trade_value = fee_usd trade_value
  fees none trade_value = mul trade_value (literal (pos 4) 3)

  -- For the venue of leg 1, its price and size, and the price of leg 2.
  unfoldable pub calculate_pnl : Direction → Venue → Num → Num → Num → Num
  calculate_pnl direction leg1_venue leg1_price leg1_size leg2_price =
      let (cex_price, dex_price) = prices leg1_venue leg1_price leg2_price in
      let trade_value = mul leg1_size (larger (or_zero cex_price) (or_zero leg1_price)) in
      sub (gross_pnl direction cex_price dex_price leg1_size)
        (fees config.fee_structure trade_value)
