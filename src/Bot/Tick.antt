-- ===== src/Bot/Tick.antt =====
-- `_tick` and the loop of `run` of scripts/arb_bot.py. An arrival is a pair whose generator has
-- returned, and arrivals stand in the order of their returns; one that raises ends the tick, and those
-- after it count as arrivals of a later tick. The loop over the queue has fuel.
pub mod Trace
pub mod Rounds
pub mod Gates
pub mod Fuel
pub mod Silent
pub mod Verify
use peanut_trade_internship.Base.{
  ℕ, zero, suc, ◌+◌, Bool, true, false, List, [], ◌∷◌, ◌++◌, Option, none, some, Outcome, ok,
  raised, if◌then◌else◌, leb, ltb, length,
}
use peanut_trade_internship.Base.Float.{Float}
use peanut_trade_internship.Strategy.Signal.{Signal, is_valid}
use peanut_trade_internship.Executor.Queue.{get}
use peanut_trade_internship.Executor.Engine.{ExecutorConfig, Venues}
use peanut_trade_internship.Safety.Risk.{drop_old}
use peanut_trade_internship.Bot.{
  Settings, Outside, Bot, Step, Times, BotError, pure, ◌>>=◌, ◌>>◌, modify, trigger_kill_switch,
  sync_balances,
}
use peanut_trade_internship.Bot.Arrive.{Arrival, generate_one, score_of}
use peanut_trade_internship.Bot.Handle.{GoesOn, handle, ask_breaker}

module _ {F : Float} (settings : Settings F) (outside : Outside F) (config : ExecutorConfig F)
    (venues : Venues F) where
  unfoldable pub arrive_all : List (Arrival settings outside) → Step F (Unit {0})
  arrive_all [] = pure tt
  arrive_all (a ∷ as') = do generate_one settings outside a; arrive_all as'

  abbrev pub handled : Times → Step F (Unit {0}) → Option (Signal F) → Step F (Unit {0})
  handled t rest none = pure tt
  handled t rest (some s) = do
    goes_on ← handle settings outside config venues t s
    if goes_on then rest else pure tt

  -- `while True: signal = self._queue.get()`, from round k; `times k` are the readings of that round.
  unfoldable pub drain : (times : ℕ → Times) (fuel k : ℕ) → Step F (Unit {0})
  drain times zero k b = (ok tt, b)
  drain times (suc fuel) k b =
      let (found, q) = get (score_of settings outside) (λ s. is_valid s (times k).at) b.queue in
      handled (times k) (drain times fuel (suc k)) found (record b { queue = q })

  -- `operator` is what an operator has done to the file of the kill switch before the tick.
  pub record Input : Type 0 where
    pub operator : Option Bool
    pub clock : ℕ
    pub arrivals : List (Arrival settings outside)
    pub times : ℕ → Times

  abbrev pub sync_if_due : ℕ → Bot F → Bot F
  sync_if_due now b =
      if leb (b.last_balance_sync + settings.balance_sync_interval) now
      then record (sync_balances settings outside b) { last_balance_sync = now }
      else b

  -- The circuit breaker is closed: the pairs, and then every signal of the queue.
  unfoldable pub work : Input → Step F (Unit {0})
  unfolding arrive_all drain
  work i = do arrive_all i.arrivals; λ b. drain i.times (suc (length b.queue.heap)) 0 b

  abbrev pub decided : Input → GoesOn → Step F (Unit {0})
  decided i closed = if closed then work i else pure tt

  abbrev pub asked : Input → Step F (Unit {0})
  asked i = ask_breaker settings outside config venues >>= decided i

  -- The breaker is asked twice, for the metric and for the decision.
  unfoldable pub tick_on : Input → Step F (Unit {0})
  unfolding work
  tick_on i b =
      (ask_breaker settings outside config venues >>= λ _. asked i) (sync_if_due i.clock b)

  unfoldable pub tick : Input → Step F (Unit {0})
  unfolding tick_on
  tick i b = if b.kill_switch then (ok tt, b) else tick_on i b

  -- More than fifty errors within an hour arm the kill switch.
  unfoldable pub note_error : ℕ → Bot F → Bot F
  note_error now b =
      let times = drop_old settings.hour now (b.error_times ++ now ∷ []) in
      let noted = record b { error_times = times } in
      if ltb 50 (length times) then trigger_kill_switch noted else noted

  abbrev pub ended : ℕ → Outcome BotError (Unit {0}) × Bot F → Bot F
  ended now (ok _, b) = b
  ended now (raised e, b) = note_error now b

  abbrev pub operated : Option Bool → Bot F → Bot F
  operated none b = b
  operated (some armed) b = record b { kill_switch = armed }

  abbrev pub one_tick : Input → Bot F → Bot F
  one_tick i b = ended i.clock (tick i (operated i.operator b))

  -- `while self.running`
  unfoldable pub run : List Input → Bot F → Bot F
  run [] b = b
  run (i ∷ is) b = let rest = run is (one_tick i b) in if b.running then rest else b
