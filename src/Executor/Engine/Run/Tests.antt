-- ===== src/Executor/Engine/Run/Tests.antt =====
-- Instances of the theorems on executor/engine.py at a small executor.
use peanut_trade_internship.Base.{◌/◌, true, false, none, some, [], ◌∷◌, ok, ◌≡◌, ◌≢◌, refl}
use peanut_trade_internship.Base.Int.{ℤ, pos, ◌+ℤ◌, ◌-ℤ◌, ltb_ℤ, leb_ℤ, eqb_ℤ, pos_part}
use peanut_trade_internship.Base.Float.{Float}
use peanut_trade_internship.Strategy.Signal.{Signal, Direction, is_valid}
use peanut_trade_internship.Executor.Recovery.{
  is_open_at, cleanup, new_breaker, is_open, is_duplicate, mark_executed, record_success,
}
use peanut_trade_internship.Executor.Engine.{
  ExecutionContext, ExecutorConfig, ExecutorState, Venue, Leg, Venues, World, Reply, DexUnwind,
}
use peanut_trade_internship.Executor.Engine.Legs.{
  cex_with_retry, attempts, after_attempt, pause_before, wait_for, settle, execute_cex_leg,
  checked_order, place_order, submit, leg_of_reply, leg_of_order, order_request, refreshed_price,
  execute_dex_leg, or_raise, calculate_pnl,
}
use peanut_trade_internship.Executor.Engine.Legs.Orders.{Submits, cex_with_retry-Submits}
use peanut_trade_internship.Executor.Engine.Run.{
  execute, execute_cex_first, new_context, run_legs, run_closed, run_valid, run_unique, note_end,
  breaker_open, duplicate, mark, succeeded, report, cex_filled, dex_second,
}
use peanut_trade_internship.Executor.Engine.Legs.Returns.{Answers}
use peanut_trade_internship.Executor.Engine.Run.Returns.{execute_returns}
use peanut_trade_internship.Executor.Engine.Run.Ends.{Ends}
use peanut_trade_internship.Executor.Engine.Run.Ending.{Ended, run_legs-Ended}
use peanut_trade_internship.Executor.Engine.Run.Executed.{execute-Ended}
use peanut_trade_internship.Executor.Engine.Run.Again.{after}
use peanut_trade_internship.Executor.Engine.Run.Guards.{execute_twice}

-- Whole numbers in place of floats.
abbrev whole : Float
whole = record {
  Num = ℤ;
  literal = λ m n. m;
  add = λ a b. a +ℤ b;
  sub = λ a b. a -ℤ b;
  mul = λ a b. a;
  div = λ a b. pos (pos_part a / pos_part b);
  lt = λ a b. ltb_ℤ a b;
  le = λ a b. leb_ℤ a b;
  is_zero = λ a. eqb_ℤ a (pos 0);
}

abbrev a_signal : Signal whole
a_signal = record {
  signal_id = "s1";
  pair = "ETH/USDC";
  direction = Direction.buy_cex_sell_dex;
  cex_price = pos 100;
  dex_price = pos 103;
  spread_bps = pos 300;
  size = pos 10;
  expected_gross_pnl = pos 30;
  expected_fees = pos 4;
  expected_net_pnl = pos 26;
  score = pos 80;
  timestamp = pos 0;
  expiry = pos 5;
  inventory_ok = true;
  within_limits = true;
  bid_ask_spread_bps = pos 2;
}

abbrev a_config : ExecutorConfig whole
a_config = record {
  min_fill_ratio = pos 1;
  use_flashbots = false;
  simulation_mode = false;
  fee_structure = none;
  leg1_max_retries = 2;
  leg1_retry_base_delay = pos 1;
}

-- The exchange fills `amount` of every order, the DEX all of every swap.
abbrev venues_filling : ℤ → Venues whole
venues_filling amount = record {
  clock = λ n. pos 1;
  order_tag = λ before. "0";
  random = λ before. pos 0;
  trading_rules =
      λ pair. record { round_price = λ x. x; round_quantity = λ x. x; validate = λ q p. none };
  fetch_order_book = λ before pair. Reply.broke;
  create_limit_ioc_order = λ before r.
      Reply.answered
        (record { status = "filled"; avg_fill_price = r.price; amount_filled = amount });
  execute_dex_leg_sync = λ before s size. Reply.answered (Leg.filled s.dex_price size);
  create_market_order = λ before pair side size. Reply.answered tt;
  unwind_dex_leg_sync = λ before s price size. DexUnwind.sent (Reply.answered tt);
  times_out = λ before. false;
}

abbrev a_world : World whole
a_world = record {
  circuit_breaker =
      new_breaker
        (record { failure_threshold = 3; window_seconds = pos 60; cooldown_seconds = pos 30 });
  replay_protection = record { executed = []; ttl = pos 60 };
  events = [];
  clock_reads = 0;
}

abbrev a_context : ExecutionContext whole
a_context = new_context a_signal (pos 1)

venues-Answers : Answers (venues_filling (pos 10))
venues-Answers = record { orders = λ before r. (_, refl); swaps = λ before s size. (_, refl) }

execute_returns_example :
    (ctx : ExecutionContext whole) × ((execute a_config
        (venues_filling (pos 10))
        a_signal
        a_world).0
      ≡ ok ctx)
execute_returns_example =
    execute_returns a_config (venues_filling (pos 10)) venues-Answers a_signal a_world refl

execute-Ended_example :
    Ends
      (Ended a_config (venues_filling (pos 10)))
      (execute a_config (venues_filling (pos 10)) a_signal a_world)
execute-Ended_example = execute-Ended a_config (venues_filling (pos 10)) a_signal a_world

run_legs-Ended_example :
    Ends
      (Ended a_config (venues_filling (pos 10)))
      (run_legs a_config (venues_filling (pos 10)) a_context a_world)
run_legs-Ended_example =
    run_legs-Ended a_config (venues_filling (pos 10)) a_context a_world
      (record { no_error = refl; no_fill = refl; no_pnl = refl })

cex_with_retry-Submits_example :
    Submits
      (some "s1_0")
      3
      []
      (cex_with_retry a_config
        (venues_filling (pos 10))
        a_signal
        none
        (some "s1_0")
        a_world).1.events
cex_with_retry-Submits_example =
    cex_with_retry-Submits a_config (venues_filling (pos 10)) (some "s1_0") a_signal none a_world

-- The end of the execution, as it was computed.
abbrev a_end : ExecutionContext whole
a_end = record a_context {
  state = ExecutorState.done;
  leg1_venue = some Venue.cex;
  leg1_fill_price = some (pos 100);
  leg1_fill_size = some (pos 10);
  leg2_venue = some Venue.dex;
  leg2_fill_price = some (pos 103);
  leg2_fill_size = some (pos 10);
  actual_net_pnl = some (
      calculate_pnl a_config (venues_filling (pos 10)) Direction.buy_cex_sell_dex Venue.cex
        (pos 100) (pos 10) (pos 103));
  finished_at = some (pos 1);
}

abbrev world_after : World whole
world_after = (execute a_config (venues_filling (pos 10)) a_signal a_world).1

executed_once :
    execute a_config (venues_filling (pos 10)) a_signal a_world ≡ (ok a_end, world_after)
unfolding execute is_open is_open_at is_duplicate cleanup is_valid execute_cex_first cex_with_retry
    attempts after_attempt pause_before wait_for settle execute_cex_leg checked_order place_order
    submit leg_of_reply leg_of_order order_request refreshed_price execute_dex_leg or_raise run_legs
    run_closed run_valid run_unique note_end breaker_open duplicate mark succeeded report cex_filled
    dex_second mark_executed record_success ◌-ℤ◌
executed_once = refl

sent_something : world_after.events ≢ a_world.events
unfolding execute is_open is_open_at is_duplicate cleanup is_valid execute_cex_first cex_with_retry
    attempts after_attempt pause_before wait_for settle execute_cex_leg checked_order place_order
    submit leg_of_reply leg_of_order order_request refreshed_price execute_dex_leg or_raise run_legs
    run_closed run_valid run_unique note_end breaker_open duplicate mark succeeded report cex_filled
    dex_second mark_executed record_success ◌-ℤ◌
sent_something = λ e. cc

within_ttl : ltb_ℤ (pos 1 -ℤ pos 60) (pos 1) ≡ true
unfolding ◌-ℤ◌
within_ttl = refl

abbrev another_signal : Signal whole
another_signal = record a_signal { signal_id = "s2" }

execute_twice_example :
    (execute a_config
      (venues_filling (pos 10))
      a_signal
      (after a_config (venues_filling (pos 10)) (another_signal ∷ []) world_after)).1.events
    ≡ (after a_config (venues_filling (pos 10)) (another_signal ∷ []) world_after).events
execute_twice_example =
    execute_twice a_config (venues_filling (pos 10)) a_signal (another_signal ∷ []) a_world
      world_after a_end tt (λ i j. within_ttl) executed_once sent_something
