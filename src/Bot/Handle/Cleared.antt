-- ===== src/Bot/Handle/Cleared.antt =====
-- What the handling of a signal of the queue executes (scripts/arb_bot.py).
use mathlib.Core.Bool.{false≢true}
use peanut_trade_internship.Base.{
  Bool, true, false, Option, none, some, ◌≡◌, refl, ◌∙◌, Outcome, ok, raised, if◌then◌else◌, length,
  sym,
}
use peanut_trade_internship.Base.Int.{pos}
use peanut_trade_internship.Base.Float.{Float}
use peanut_trade_internship.Strategy.Signal.{Signal}
use peanut_trade_internship.Strategy.Fees.{FeeError}
use peanut_trade_internship.Inventory.Pnl.{ArbRecord, record_arb}
use peanut_trade_internship.Executor.Engine.{
  ExecutionContext, ExecutorConfig, ExecuteError, Venues, World,
}
use peanut_trade_internship.Executor.Engine.Run.{execute}
use peanut_trade_internship.Safety.Risk.{
  refreshed, RiskManager, maybe_reset_daily, prune_trade_times,
}
use peanut_trade_internship.Safety.Limits.{Refusal, safety_check}
use peanut_trade_internship.Bot.{Settings, Outside, Bot, Times, pure, continue, sync_balances}
use peanut_trade_internship.Bot.Arrive.Vetted.{IsRenewed}
use peanut_trade_internship.Bot.Handle.{
  executed, ask_breaker, entered, recorded, book, trade, only_log, trade_or_log, judged,
  check_safety, decayed, handle, close_trade, book_trade, after_execution, is_done,
}
use peanut_trade_internship.Bot.Steps.{Kept, continue-Inv, choose_at}
use peanut_trade_internship.Bot.Handle.Quiet.{
  Quiet, ask_breaker-Quiet, settled-Quiet, synced-Quiet, arm-Quiet,
}

module _ {F : Float} (settings : Settings F) (outside : Outside F) (config : ExecutorConfig F)
    (venues : Venues F) (IsRead : Times → Type 0) where
  open F use {Num, literal, mul, lt}

  abbrev has_faded : Times → Signal F → Bool
  has_faded t s =
      lt (decayed settings outside config venues s t.at)
        (mul settings.score_threshold (literal (pos 5) 1))

  -- The answer of the absolute limits.
  abbrev refusal : RiskManager → Signal F → Option Refusal
  refusal m s =
      safety_check settings.unit (outside.units (mul s.size s.cex_price)) m.daily_loss m.capital
        (length m.trade_times)

  -- The gates behind the queue, at times that were read: the bot trades, the decayed score is not
  -- too low, and unless the mode is a simulation, in which the safety check is not made, this risk
  -- manager is brought up to date and stays within the absolute limits.
  pub record IsCleared (m : RiskManager) (s : Signal F) : Type 0 where
    pub live : settings.dry_run ≡ false
    pub times : Times
    pub read : IsRead times
    pub fresh : has_faded times s ≡ false
    pub safe :
        config.simulation_mode ≡ false
        → IsRenewed settings outside IsRead times m × (refusal m s ≡ none)

  -- What an execution returned.
  abbrev pub returned : Outcome ExecuteError (ExecutionContext F) → Option (ExecutionContext F)
  returned (ok ctx) = some ctx
  returned (raised e) = none

  -- What is kept by the quiet steps, by the risk manager, and by the executions of a signal that is
  -- cleared, where the last execution is known until its profit is booked.
  module _ (Inv : Option (ExecutionContext F) → Bot F → Type 0)
      (quiet : (last : Option (ExecutionContext F)) (b b' : Bot F)
        → Quiet settings outside config venues b b'
        → Inv last b
        → Inv last b')
      (renew : (last : Option (ExecutionContext F)) (t : Times) (b : Bot F)
        → IsRead t
        → Inv last b
        → Inv last (record b {
          risk_manager =
              refreshed settings.unit settings.hour t.now t.next_midnight t.clock b.risk_manager;
        }))
      (note : (t : Times) (ctx : ExecutionContext F) (pnl : Num) (b : Bot F)
        → IsRead t
        → ctx.actual_net_pnl ≡ some pnl
        → Inv (some ctx) b
        → Inv none (recorded settings outside config venues t (outside.units pnl) b))
      (s : Signal F)
      (keep : (last : Option (ExecutionContext F)) (b : Bot F)
        → IsCleared b.risk_manager s
        → Inv last b
        → Inv
            (returned (execute config venues s b.world).0)
            (record b { world = (execute config venues s b.world).1 })) where
    -- Whatever the last execution was.
    abbrev pub Any : Bot F → Type 0
    Any b = (last : Option (ExecutionContext F)) × Inv last b

    entered-Any :
        (t : Times) (ctx : ExecutionContext F) (pnl : Num) (b : Bot F)
        (r : Outcome FeeError ArbRecord)
        → IsRead t
        → ctx.actual_net_pnl ≡ some pnl
        → Inv (some ctx) b
        → Any (entered settings outside config venues t (outside.units pnl) r b).1
    entered-Any t ctx pnl b (raised e) r p h = (some ctx, h)
    entered-Any t ctx pnl b (ok entry) r p h =
        let b' = record b { pnl_engine = record_arb entry b.pnl_engine } in
        let noted = note t ctx pnl b' r p (quiet (some ctx) b b' (refl, refl, refl) h) in
        let b'' = recorded settings outside config venues t (outside.units pnl) b' in
        (
          none,
          quiet none b'' _ (arm-Quiet settings outside config venues (outside.units pnl) b'') noted,
        )

    book-Any :
        (t : Times) (ctx : ExecutionContext F) (pnl : Option Num) (b : Bot F)
        → IsRead t
        → ctx.actual_net_pnl ≡ pnl
        → Inv (some ctx) b
        → Any (book settings outside config venues t ctx pnl b).1
    unfolding book
    book-Any t ctx none b r p h = (some ctx, h)
    book-Any t ctx (some pnl) b r p h =
        choose_at Any (is_done ctx.state) _ _ b (λ _. entered-Any t ctx pnl b _ r p h)
          (λ _. (none, note t ctx pnl b r p h))

    close_trade-Kept : (u : Unit {0}) → Kept Any (close_trade settings outside config venues u)
    close_trade-Kept u b h =
        let b' = sync_balances settings outside b in
        let asked = (ask_breaker settings outside config venues b').1 in
        (
          h.0,
          quiet h.0 b' asked (ask_breaker-Quiet settings outside config venues b')
              (quiet h.0 b b' (synced-Quiet settings outside config venues b) h.1),
        )

    book_trade-Any :
        (t : Times) (ctx : ExecutionContext F) (u : Unit {0}) (b : Bot F)
        → IsRead t
        → Inv (some ctx) b
        → Any (book_trade settings outside config venues t ctx u b).1
    book_trade-Any t ctx u b r h =
        let m = book settings outside config venues t ctx ctx.actual_net_pnl b in
        continue-Inv Any m.0 (close_trade settings outside config venues) m.1
          (book-Any t ctx ctx.actual_net_pnl b r refl h) close_trade-Kept

    after_execution-Any :
        (t : Times) (ctx : ExecutionContext F) (b : Bot F)
        → IsRead t
        → Inv (some ctx) b
        → Any (after_execution settings outside config venues t ctx b).1
    after_execution-Any t ctx b r h =
        book_trade-Any t ctx tt _ r
          (quiet (some ctx) b _ (settled-Quiet settings outside config venues ctx b) h)

    traded-Any :
        (t : Times) (b : Bot F) (r : Outcome ExecuteError (ExecutionContext F) × World F)
        → IsRead t
        → Inv (returned r.0) (record b { world = r.1 })
        → Any
            (continue
              (executed settings outside config venues b r).0
              (after_execution settings outside config venues t)
              (executed settings outside config venues b r).1).1
    traded-Any t b (ok ctx, w) r h = after_execution-Any t ctx (record b { world = w }) r h
    traded-Any t b (raised e, w) r h = (none, h)

    trade-Any :
        (t : Times) (last : Option (ExecutionContext F)) (b : Bot F)
        → IsRead t
        → IsCleared b.risk_manager s
        → Inv last b
        → Any (trade settings outside config venues t s b).1
    unfolding trade
    trade-Any t last b r c h = traded-Any t b (execute config venues s b.world) r (keep last b c h)

    trade_or_log-Any :
        (t : Times) (last : Option (ExecutionContext F)) (b : Bot F)
        → IsRead t
        → (settings.dry_run ≡ false → IsCleared b.risk_manager s)
        → Inv last b
        → Any (trade_or_log settings outside config venues t s b).1
    unfolding trade_or_log
    trade_or_log-Any t last b r c h =
        choose_at Any settings.dry_run (only_log settings outside config venues s)
          (trade settings outside config venues t s) b
          (λ dry. (last, quiet last b _ (refl, refl, refl) h))
          (λ live. trade-Any t last b r (c live) h)

    judged-Any :
        (t : Times) (last : Option (ExecutionContext F)) (b : Bot F) (answer : Option Refusal)
        → IsRead t
        → (answer ≡ none → settings.dry_run ≡ false → IsCleared b.risk_manager s)
        → Inv last b
        → Any (judged settings outside config venues t s answer b).1
    judged-Any t last b (some refusal) r c h = (last, h)
    judged-Any t last b none r c h = trade_or_log-Any t last b r (c refl) h

    -- The record of a signal that the first gate of the loop lets through.
    cleared :
        (t : Times) (m : RiskManager)
        → IsRead t
        → has_faded t s ≡ false
        → (config.simulation_mode ≡ false
            → IsRenewed settings outside IsRead t m × (refusal m s ≡ none))
        → settings.dry_run ≡ false
        → IsCleared m s
    cleared t m r f a live = record { live = live; times = t; read = r; fresh = f; safe = a }

    check_safety-Any :
        (t : Times) (last : Option (ExecutionContext F)) (b : Bot F)
        → IsRead t
        → has_faded t s ≡ false
        → Inv last b
        → Any (check_safety settings outside config venues t s b).1
    unfolding check_safety maybe_reset_daily prune_trade_times
    check_safety-Any t last b r f h =
        let m =
          refreshed settings.unit settings.hour t.now t.next_midnight t.clock b.risk_manager in
        judged-Any t last (record b { risk_manager = m }) _ r
          (λ e. cleared t m r f (λ _. ((b.risk_manager, refl), e))) (renew last t b r h)

    pub handle-Any :
        (t : Times) (last : Option (ExecutionContext F)) (b : Bot F)
        → IsRead t
        → Inv last b
        → Any (handle settings outside config venues t s b).1
    unfolding handle
    handle-Any t last b r h =
        choose_at Any (has_faded t s) (pure true)
          (if config.simulation_mode
            then trade_or_log settings outside config venues t s
            else check_safety settings outside config venues t s)
          b (λ old. (last, h))
          (λ fresh.
            choose_at Any config.simulation_mode (trade_or_log settings outside config venues t s)
              (check_safety settings outside config venues t s) b
              (λ simulated.
                trade_or_log-Any t last b r
                  (cleared t b.risk_manager r fresh
                    (λ real. absurd (false≢true (sym real ∙ simulated))))
                  h)
              (λ real. check_safety-Any t last b r fresh h))
