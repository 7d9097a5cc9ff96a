-- ===== src/Bot/Tests.antt =====
-- Instances of the theorems on scripts/arb_bot.py at a small bot that trades one pair.
use peanut_trade_internship.Base.{
  if◌then◌else◌, true, false, [], ◌∷◌, none, some, ◌≡◌, refl, arith, ok,
}
use peanut_trade_internship.Base.Int.{pos}
use peanut_trade_internship.Base.Hundredths.{hundredths}
use peanut_trade_internship.Strategy.Signal.{Signal, buy_dex_sell_cex}
use peanut_trade_internship.Strategy.Generator.{Readings, direct}
use peanut_trade_internship.Strategy.Scorer.{default_config, new_scorer}
use peanut_trade_internship.Inventory.Tracker.{new_tracker}
use peanut_trade_internship.Executor.Recovery.{new_breaker}
use peanut_trade_internship.Executor.Engine.{ExecutorConfig, Leg, Venues, Reply, DexUnwind}
use peanut_trade_internship.Safety.Risk.{RiskLimits, new_manager}
use peanut_trade_internship.Bot.{
  Settings, Outside, Bot, Times, CexBalances, WalletBalances, stop, sync_balances, verify_balances,
}
use peanut_trade_internship.Bot.Arrive.{Arrival}
use peanut_trade_internship.Bot.Tick.{Input, drain, run}
use peanut_trade_internship.Bot.Tick.Fuel.{drain_fuel}
use peanut_trade_internship.Bot.Tick.Silent.{run_dry, run_killed}
use peanut_trade_internship.Bot.Tick.Verify.{drift, verify_balances-sync_balances}

abbrev settings : Settings hundredths
settings = record {
  score_threshold = pos 1_000;
  min_profit_usd = pos 5;
  max_dex_buy_trades = 2;
  trade_size = pos 30;
  trade_usd = pos 0;
  one_shot = false;
  dry_run = false;
  fees = record { cex_taker_bps = pos 0; dex_swap_bps = pos 0; gas_cost_usd = pos 0 };
  mock_balances = [];
  has_chain_client = true;
  balance_sync_interval = 60;
  unit = 100;
  hour = 3_600;
}

abbrev balances : CexBalances
balances = ("USDC", (pos 50_000, pos 0)) ∷ ("LINK", (pos 2_000, pos 0)) ∷ []

abbrev wallet_balances : WalletBalances
wallet_balances = ("LINK", pos 1_000) ∷ ("USDC", pos 40_000) ∷ []

abbrev outside : Outside hundredths
outside = record {
  units = λ a. a;
  coins = λ a. a;
  money = λ a. a;
  timestamp = λ t. 7;
  amount = λ a. a;
  floor = λ a. a;
  round1 = λ a. a;
  seconds = λ a. a;
  get_skews = λ t. [];
  fetch_balance = λ k events. some balances;
  fetch_wallet_balances = λ k events. some wallet_balances;
}

abbrev config : ExecutorConfig hundredths
config = record {
  min_fill_ratio = pos 80;
  use_flashbots = false;
  simulation_mode = false;
  fee_structure = none;
  leg1_max_retries = 2;
  leg1_retry_base_delay = pos 1;
}

-- Every order and every swap is filled.
abbrev venues : Venues hundredths
venues = record {
  clock = λ n. pos 103;
  order_tag = λ before. "0";
  random = λ before. pos 0;
  trading_rules =
      λ pair. record { round_price = λ x. x; round_quantity = λ x. x; validate = λ q p. none };
  fetch_order_book = λ before pair. Reply.broke;
  create_limit_ioc_order = λ before r.
      Reply.answered
        (record { status = "filled"; avg_fill_price = r.price; amount_filled = pos 30 });
  execute_dex_leg_sync = λ before s size. Reply.answered (Leg.filled s.dex_price size);
  create_market_order = λ before pair side size. Reply.answered tt;
  unwind_dex_leg_sync = λ before s price size. DexUnwind.sent (Reply.answered tt);
  times_out = λ before. false;
}

abbrev times : Times
times = record { at = pos 103; now = 2; next_midnight = 86_400; clock = 2 }

abbrev readings : Readings hundredths
readings = record {
  now = pos 100;
  at_expiry = pos 101;
  at_create = pos 102;
  at_mark = pos 103;
  fresh_id = "LINKUSDC_1";
}

-- 20.00 and 20.01 at the exchange, 19.00 and 20.60 on the chain
abbrev arrival : Arrival settings outside
arrival = record {
  pair = "LINK/USDC";
  book = none;
  readings = readings;
  best = ok (some (pos 2_000), some (pos 2_001));
  pricing = direct (ok (some (pos 1_900, pos 2_060)));
  times = times;
}

abbrev a_signal : Signal hundredths
a_signal = record {
  signal_id = "LINKUSDC_0";
  pair = "LINK/USDC";
  direction = buy_dex_sell_cex;
  cex_price = pos 2_000;
  dex_price = pos 1_900;
  spread_bps = pos 50_000;
  size = pos 30;
  expected_gross_pnl = pos 30;
  expected_fees = pos 0;
  expected_net_pnl = pos 30;
  score = pos 7_800;
  timestamp = pos 102;
  expiry = pos 151;
  inventory_ok = true;
  within_limits = true;
  bid_ask_spread_bps = pos 0;
}

abbrev input : Input settings outside config venues
input = record { operator = none; clock = 61; arrivals = arrival ∷ []; times = λ k. times }

abbrev limits : RiskLimits
limits = record {
  max_trade_usd = pos 700;
  max_trade_pct = pos 20;
  max_position_per_token = pos 3000;
  max_open_positions = 1;
  max_loss_per_trade = pos 500;
  max_daily_loss = pos 1000;
  max_drawdown_pct = pos 20;
  max_trades_per_hour = 20;
  consecutive_loss_limit = 3;
}

abbrev bot : Bot hundredths
bot = record {
  running = true;
  kill_switch = false;
  queue = record { maxsize = 100; heap = []; seq = 0 };
  generator = record {
    fees = settings.fees;
    min_spread_bps = pos 5_000;
    min_profit_usd = pos 5;
    max_position_usd = pos 1_000_000;
    signal_ttl = pos 50;
    cooldown = pos 20;
    last_signal_time = [];
  };
  scorer = new_scorer hundredths (default_config hundredths);
  risk_manager = new_manager limits (pos 10_000) 86_400;
  inventory = new_tracker ("binance" ∷ "wallet" ∷ []);
  pnl_engine = [];
  world = record {
    circuit_breaker =
        new_breaker
          (record { failure_threshold = 3; window_seconds = pos 60; cooldown_seconds = pos 30 });
    replay_protection = record { executed = []; ttl = pos 60 };
    events = [];
    clock_reads = 0;
  };
  signals_seen = 0;
  skipped_reasons = [];
  dex_buy_trade_count = 0;
  dry_run_count = 0;
  dry_run_log = [];
  last_balance_sync = 0;
  balance_reads = 0;
  error_times = [];
}

abbrev after : Bot hundredths
after = run settings outside config venues (input ∷ []) bot

abbrev IsHere : Times → Type 0
IsHere t = t ≡ times

abbrev dry_settings : Settings hundredths
dry_settings = record settings { dry_run = true }

abbrev dry_input : Input dry_settings outside config venues
dry_input = record {
  operator = none;
  clock = 61;
  arrivals =
      record {
        pair = "LINK/USDC";
        book = none;
        readings = readings;
        best = arrival.best;
        pricing = arrival.pricing;
        times = times;
      }
      ∷ [];
  times = λ k. times;
}

run_dry_example : (run dry_settings outside config venues (dry_input ∷ []) bot).world.events ≡ []
run_dry_example = run_dry dry_settings outside config venues (dry_input ∷ []) bot refl

abbrev killed : Bot hundredths
killed = record bot { kill_switch = true }

run_killed_example : run settings outside config venues (input ∷ input ∷ []) killed ≡ killed
run_killed_example =
    run_killed settings outside config venues (input ∷ input ∷ []) killed (tt, (tt, tt)) refl

-- The bot with two copies of a signal in its queue.
abbrev waiting : Bot hundredths
waiting = record bot {
  queue = record {
    maxsize = 100;
    heap =
        record { priority = pos 0; sequence = 0; signal = a_signal }
        ∷ record { priority = pos 0; sequence = 1; signal = a_signal }
        ∷ [];
    seq = 2;
  };
}

drain_fuel_example :
    drain settings outside config venues (λ k. times) 3 0 waiting
    ≡ drain settings outside config venues (λ k. times) 9 0 waiting
drain_fuel_example =
    drain_fuel settings outside config venues (λ k. times) 3 9 0 waiting (omega arith) (omega arith)

abbrev verified : Bot hundredths
verified = record (sync_balances settings outside bot) { balance_reads = 2 }

verify_balances-sync_balances_example :
    verify_balances settings outside "LINK/USDC" (sync_balances settings outside bot) ≡ (
      if drift settings outside
        (some balances)
        balances
        (some wallet_balances)
        wallet_balances
        "LINK/USDC"
      then stop verified
      else verified)
verify_balances-sync_balances_example =
    verify_balances-sync_balances settings outside "LINK/USDC" bot balances wallet_balances refl
      refl refl (refl, (refl, tt)) (refl, (refl, tt))
