-- ===== src/Bot/Handle.antt =====
-- The second loop of `_tick` of scripts/arb_bot.py: what happens to the signals of the queue.
pub mod Ledger
pub mod Quiet
pub mod Cleared
use peanut_trade_internship.Base.{
  ℕ, zero, suc, ◌+◌, ◌*◌, String, Bool, true, false, not, ◌&&◌, List, [], ◌∷◌, ◌++◌, Option, none,
  some, Outcome, ok, raised, if◌then◌else◌, leb, ltb, length,
}
use peanut_trade_internship.Base.Int.{ℤ, pos, ltb_ℤ, ◌*ℤ◌}
use peanut_trade_internship.Base.Float.{Float}
use peanut_trade_internship.Strategy.Signal.{
  Signal, is_valid, Direction, buy_dex_sell_cex, buy_cex_sell_dex,
}
use peanut_trade_internship.Strategy.Scorer.{apply_decay, record_result}
use peanut_trade_internship.Executor.Queue.{get}
use peanut_trade_internship.Executor.Recovery.{is_open}
use peanut_trade_internship.Executor.Engine.{
  ExecutionContext, ExecutorConfig, ExecutorState, done, ExecuteError, Venues, World,
}
use peanut_trade_internship.Executor.Engine.Run.{execute, breaker_open}
use peanut_trade_internship.Strategy.Fees.{FeeError}
use peanut_trade_internship.Inventory.Pnl.{ArbRecord, record_arb}
use peanut_trade_internship.Safety.Risk.{RiskManager, record_trade, daily_loss, trades_this_hour}
use peanut_trade_internship.Safety.Limits.{Refusal, safety_check, absolute_min_capital}
use peanut_trade_internship.Bot.{
  Settings, Outside, Bot, Step, Times, BotError, executor_error, fee_error, pure, ◌>>=◌, ◌>>◌,
  modify, stop, trigger_kill_switch, sync_balances, verify_balances,
}
use peanut_trade_internship.Bot.Arrive.{score_of}
use peanut_trade_internship.Bot.Handle.Ledger.{execution_to_arb_record}

-- Whether the loop goes on.
abbrev pub GoesOn : Type 0
GoesOn = Bool

abbrev pub is_done : ExecutorState → Bool
is_done done = true
is_done _ = false

abbrev pub buys_on_chain : Direction → Bool
buys_on_chain buy_dex_sell_cex = true
buys_on_chain buy_cex_sell_dex = false

module _ {F : Float} (settings : Settings F) (outside : Outside F) (config : ExecutorConfig F)
    (venues : Venues F) where
  open F use {Num, literal, mul, lt, le}

  abbrev pub executed :
      Bot F
      → Outcome ExecuteError (ExecutionContext F) × World F
      → Outcome BotError (ExecutionContext F) × Bot F
  executed b (ok ctx, w) = (ok ctx, record b { world = w })
  executed b (raised e, w) = (raised (executor_error e), record b { world = w })

  -- `self.executor.execute(signal)`
  abbrev pub run_executor : Signal F → Step F (ExecutionContext F)
  run_executor s b = executed b (execute config venues s b.world)

  abbrev pub reached_maximum : ℕ → Bool
  reached_maximum count = ltb 0 settings.max_dex_buy_trades && leb settings.max_dex_buy_trades count

  -- A trade that bought on the chain is counted.
  unfoldable pub count_dex_buy : Direction → Bot F → Bot F
  count_dex_buy d b =
      let counted = record b { dex_buy_trade_count = b.dex_buy_trade_count + 1 } in
      if buys_on_chain d
      then if reached_maximum counted.dex_buy_trade_count then stop counted else counted
      else b

  -- A completed trade that is not a dry run.
  abbrev pub after_done : ExecutionContext F → Bot F → Bot F
  after_done ctx b =
      if is_done ctx.state && not settings.dry_run
      then count_dex_buy ctx.signal.direction
          (verify_balances settings outside ctx.signal.pair (sync_balances settings outside b))
      else b

  -- The switch is armed below the capital floor, and by the last of too many losses in a row.
  unfoldable pub arm : ℤ → Bot F → Bot F
  arm pnl b =
      let m = b.risk_manager in
      let poor = ltb_ℤ m.capital (pos (absolute_min_capital * settings.unit)) in
      let losing = ltb_ℤ pnl (pos 0) && leb m.limits.consecutive_loss_limit m.consecutive_losses in
      if poor then trigger_kill_switch b else if losing then trigger_kill_switch b else b

  abbrev pub recorded : Times → ℤ → Bot F → Bot F
  recorded t pnl b = record b {
    risk_manager = record_trade t.now t.next_midnight t.clock pnl b.risk_manager;
  }

  abbrev pub entered : Times → ℤ → Outcome FeeError ArbRecord → Step F (Unit {0})
  entered t pnl (raised e) b = (raised (fee_error e), b)
  entered t pnl (ok entry) b =
      (ok tt, arm pnl (recorded t pnl (record b { pnl_engine = record_arb entry b.pnl_engine })))

  -- The books, by state and profit of the execution.
  unfoldable pub book : Times → ExecutionContext F → Option Num → Step F (Unit {0})
  unfolding arm
  book t ctx none = pure tt
  book t ctx (some pnl) =
      if is_done ctx.state
      then entered t (outside.units pnl)
          (execution_to_arb_record outside.coins outside.money outside.timestamp ctx settings.fees)
      else modify (recorded t (outside.units pnl))

  abbrev pub scored : ExecutionContext F → Bot F → Bot F
  scored ctx b = record b { scorer = record_result F ctx.signal.pair (is_done ctx.state) b.scorer }

  abbrev pub stop_if_one_shot : Bot F → Bot F
  stop_if_one_shot b = if settings.one_shot then stop b else b

  abbrev pub answered :
      Bot F → Outcome ExecuteError Bool × World F → Outcome BotError GoesOn × Bot F
  answered b (ok opened, w) = (ok (not opened), record b { world = w })
  answered b (raised e, w) = (raised (executor_error e), record b { world = w })

  -- `cb.is_open()`, which reads the clock.
  abbrev pub ask_breaker : Step F GoesOn
  ask_breaker b = answered b (breaker_open config venues b.world)

  -- The records of an execution, before the books.
  abbrev pub settled : ExecutionContext F → Bot F → Bot F
  settled ctx b = after_done ctx (stop_if_one_shot (scored ctx b))

  abbrev pub close_trade : Unit {0} → Step F GoesOn
  close_trade _ = modify (sync_balances settings outside) >>= λ _. ask_breaker

  abbrev pub book_trade : Times → ExecutionContext F → Unit {0} → Step F GoesOn
  book_trade t ctx _ = book t ctx ctx.actual_net_pnl >>= close_trade

  abbrev pub after_execution : Times → ExecutionContext F → Step F GoesOn
  after_execution t ctx = modify (settled ctx) >>= book_trade t ctx

  -- After the gates: the execution, and all that follows it.
  unfoldable pub trade : Times → Signal F → Step F GoesOn
  unfolding count_dex_buy book
  trade t s = run_executor s >>= after_execution t

  abbrev pub logged_dry_run : Signal F → Bot F → Bot F
  logged_dry_run s b = record b {
    dry_run_count = b.dry_run_count + 1;
    dry_run_log = b.dry_run_log ++ (s.spread_bps, s.expected_net_pnl, s.score) ∷ [];
  }

  abbrev pub only_log : Signal F → Step F GoesOn
  only_log s = modify (logged_dry_run s) >>= λ _. pure true

  unfoldable pub trade_or_log : Times → Signal F → Step F GoesOn
  unfolding trade
  trade_or_log t s = if settings.dry_run then only_log s else trade t s

  abbrev pub judged : Times → Signal F → Option Refusal → Step F GoesOn
  judged t s (some refusal) = pure true
  judged t s none = trade_or_log t s

  -- `safety_check` on the trade's dollars; its last two arguments bring the risk manager up to date.
  unfoldable pub check_safety : Times → Signal F → Step F GoesOn
  unfolding trade_or_log
  check_safety t s b =
      let (loss, m) =
        daily_loss settings.unit settings.hour t.now t.next_midnight t.clock b.risk_manager in
      let (count, m') =
        trades_this_hour settings.unit settings.hour t.now t.next_midnight t.clock m in
      judged t s
        (safety_check settings.unit (outside.units (mul s.size s.cex_price)) loss m.capital count)
        (record b { risk_manager = m' })

  abbrev pub decayed : Signal F → ℤ → Num
  decayed s now = apply_decay F outside.seconds s now

  unfoldable pub handle : Times → Signal F → Step F GoesOn
  unfolding check_safety
  handle t s =
      if lt (decayed s t.at) (mul settings.score_threshold (literal (pos 5) 1))
      then pure true
      else if config.simulation_mode
      then trade_or_log t s
      else check_safety t s
