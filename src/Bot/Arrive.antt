-- ===== src/Bot/Arrive.antt =====
-- `_generate_one` of scripts/arb_bot.py, from the price of the trade size to the queue. The calls of
-- the generator run beside each other; what follows each of them runs without interruption.
pub mod Vetted
use peanut_trade_internship.Base.{
  ℕ, ◌+◌, String, Bool, true, false, Option, none, some, Outcome, ok, raised, if◌then◌else◌,
}
use peanut_trade_internship.Base.Int.{ℤ, pos}
use peanut_trade_internship.Base.Float.{Float}
use peanut_trade_internship.Strategy.Signal.{Signal}
use peanut_trade_internship.Strategy.Fees.{FeeError}
use peanut_trade_internship.Strategy.Generator.{
  SignalGenerator, Readings, Best, Pricing, PriceError, generate, Generated,
}
use peanut_trade_internship.Strategy.Scorer.{score}
use peanut_trade_internship.Executor.Queue.{QueueError, SignalQueue, put}
use peanut_trade_internship.Safety.Risk.{RiskError, Check, RiskManager, check_pre_trade}
use peanut_trade_internship.Safety.Validator.{Quote, Defect, validate_signal}
use peanut_trade_internship.Bot.{
  Settings, Outside, Bot, Step, Times, BotError, fee_error, zero_division, index_error, pure, ◌>>=◌,
  ◌>>◌, modify, skip,
}

module _ {F : Float} (settings : Settings F) (outside : Outside F) where
  open F use {Num, literal, add, mul, div, lt}

  -- The size of the trade: dollars at the middle of the book, rounded down to hundredths, or the
  -- configured size.
  abbrev pub size_at_mid : Num → Num
  size_at_mid mid =
      if lt (literal (pos 0) 0) mid
      then div (outside.floor (mul (div settings.trade_usd mid) (literal (pos 100) 0)))
          (literal (pos 100) 0)
      else settings.trade_size

  abbrev pub size_in_book : Option (Num × Num) → Num
  size_in_book none = settings.trade_size
  size_in_book (some (bid, ask)) = size_at_mid (div (add bid ask) (literal (pos 2) 0))

  abbrev pub dyn_size : Option (Num × Num) → Num
  dyn_size book =
      if lt (literal (pos 0) 0) settings.trade_usd then size_in_book book else settings.trade_size

  -- A signal has no `signal_ttl_seconds`.
  abbrev pub quote_of : Signal F → Quote
  quote_of s = record {
    cex_price = outside.units s.cex_price;
    dex_price = outside.units s.dex_price;
    size = outside.units s.size;
    spread_bps = outside.units s.spread_bps;
    within_limits = s.within_limits;
    timestamp = s.timestamp;
    signal_ttl_seconds = none;
  }

  -- `signal.score` orders the queue.
  abbrev pub score_of : Signal F → ℤ
  score_of s = outside.units s.score

  abbrev pub put_answer :
      Bot F
      → Outcome QueueError (Bool × SignalQueue (Signal F))
      → Outcome BotError (Unit {0}) × Bot F
  put_answer b (ok (taken, q)) = (ok tt, record b { queue = q })
  put_answer b (raised e) = (raised index_error, b)

  abbrev pub enqueue : Signal F → Step F (Unit {0})
  enqueue s b = put_answer b (put score_of (λ _. true) b.queue s)

  -- The two thresholds, for a signal that has its score.
  unfoldable pub admit : Signal F → Step F (Unit {0})
  admit s =
      if lt s.expected_net_pnl settings.min_profit_usd
      then modify (skip "low_profit")
      else if lt s.score settings.score_threshold
      then modify (skip "low_score")
      else enqueue s

  unfoldable pub score_and_admit : Signal F → Step F (Unit {0})
  unfolding admit
  score_and_admit s b =
      let scored = (score F outside.round1 b.scorer s (outside.get_skews b.inventory)).1 in
      admit scored (record b { signals_seen = b.signals_seen + 1 })

  abbrev pub checked : Signal F → Outcome RiskError (Option Check) → Step F (Unit {0})
  checked s (raised e) b = (raised zero_division, b)
  checked s (ok (some refusal)) b = modify (skip "risk") b
  checked s (ok none) b = score_and_admit s b

  unfoldable pub check_risk : Times → Signal F → Step F (Unit {0})
  unfolding score_and_admit
  check_risk t s b =
      let (answer, m) =
        check_pre_trade settings.unit settings.hour t.now t.next_midnight t.clock b.risk_manager
          (outside.units s.size) (outside.units s.cex_price) in
      checked s answer (record b { risk_manager = m })

  abbrev pub validated : Times → Signal F → Option Defect → Step F (Unit {0})
  validated t s (some defect) = modify (skip "validation")
  validated t s none = check_risk t s

  unfoldable pub arrive : Times → Signal F → Step F (Unit {0})
  unfolding check_risk
  arrive t s = validated t s (validate_signal settings.unit t.at (quote_of s))

  -- One pair: the book for the size, and what the generator reads of clock, exchange and chain.
  pub record Arrival : Type 0 where
    pub pair : String
    pub book : Option (Num × Num)
    pub readings : Readings F
    pub best : Outcome PriceError (Best F)
    pub pricing : Pricing Num
    pub times : Times

  abbrev pub generated : Times → Generated F outside.amount → Step F (Unit {0})
  generated t (raised e) b = (raised (fee_error e), b)
  generated t (ok (none, g)) b = (ok tt, record b { generator = g })
  generated t (ok (some s, g)) b = arrive t s (record b { generator = g })

  unfoldable pub generate_one : Arrival → Step F (Unit {0})
  unfolding arrive
  generate_one a b =
      generated a.times
        (generate F outside.amount b.generator b.inventory a.readings a.best a.pricing a.pair
          (dyn_size a.book))
        b
