-- ===== src/Bot/Tick/Gates.antt =====
-- What a tick, and a run, of scripts/arb_bot.py executes.
use peanut_trade_internship.Base.{
  All, ℕ, suc, ◌+◌, Bool, List, [], ◌∷◌, ◌++◌, Option, none, some, refl, Outcome, ok, raised,
  Bool-cases, inl, inr, length, leb, ltb,
}
use peanut_trade_internship.Base.Member.{IsIn}
use peanut_trade_internship.Base.Float.{Float}
use peanut_trade_internship.Strategy.Signal.{Signal}
use peanut_trade_internship.Executor.Queue.Members.{Every}
use peanut_trade_internship.Executor.Engine.{ExecutionContext, ExecutorConfig, Venues}
use peanut_trade_internship.Safety.Risk.{drop_old}
use peanut_trade_internship.Bot.{Settings, Outside, Bot, Times, BotError, pure}
use peanut_trade_internship.Bot.Handle.{GoesOn, ask_breaker}
use peanut_trade_internship.Bot.Tick.{
  Input, arrive_all, drain, sync_if_due, work, decided, asked, tick_on, tick, ended, note_error,
  operated, run,
}
use peanut_trade_internship.Bot.Handle.Quiet.{Quiet, synced-Quiet}
use peanut_trade_internship.Bot.Tick.Trace.{Traded, nothing, waiting, waiting-IsIn}
use peanut_trade_internship.Bot.Tick.Rounds.{
  Safe, Quiet-Safe, ask_breaker-Safe, arrive_all-Kept, drain-Kept,
}
use peanut_trade_internship.Bot.Steps.{Kept, bind-Kept, choose-Kept, choice-Inv}

module _ {F : Float} (settings : Settings F) (outside : Outside F) (config : ExecutorConfig F)
    (venues : Venues F) (IsRead : Times → Type 0) where
  open F use {Num, literal, mul, lt}

  sync_if_due-Quiet :
      (now : ℕ) (b : Bot F)
      → Quiet settings outside config venues b (sync_if_due settings outside config venues now b)
  sync_if_due-Quiet now b =
      elim (Bool-cases (leb (b.last_balance_sync + settings.balance_sync_interval) now)) [
        | inl due ↦ rw due (synced-Quiet settings outside config venues b)
        | inr early ↦ rw early (refl, refl, refl)
      ]

  -- The times at which a tick does something are among those that are read.
  abbrev pub Reads : Input settings outside config venues → Type 0
  Reads i = ((k : ℕ) → IsRead (i.times k)) × All (λ a. IsRead a.times) i.arrivals

  module _ (start : Bot F) where
    abbrev Holds : Bot F → Type 0
    Holds = Safe settings outside config venues IsRead start

    work-Kept :
        (i : Input settings outside config venues)
        → Reads i
        → Kept Holds (work settings outside config venues i)
    unfolding work
    work-Kept i r =
        bind-Kept Holds (arrive_all settings outside config venues i.arrivals)
          (λ _ b. drain settings outside config venues i.times (suc (length b.queue.heap)) 0 b)
          ((arrive_all-Kept settings outside config venues IsRead start) i.arrivals r.1)
          (λ _ b h.
            (drain-Kept settings outside config venues IsRead start) i.times
              (suc (length b.queue.heap)) 0 r.0 b h)

    decided-Kept :
        (i : Input settings outside config venues) (closed : GoesOn)
        → Reads i
        → Kept Holds (decided settings outside config venues i closed)
    decided-Kept i closed r =
        choose-Kept Holds closed (work settings outside config venues i) (pure tt)
          (λ _. work-Kept i r) (λ _ b h. h)

    asked-Kept :
        (i : Input settings outside config venues)
        → Reads i
        → Kept Holds (asked settings outside config venues i)
    asked-Kept i r =
        bind-Kept Holds (ask_breaker settings outside config venues)
          (decided settings outside config venues i)
          (ask_breaker-Safe settings outside config venues IsRead start)
          (λ closed. decided-Kept i closed r)

    tick_on-Kept :
        (i : Input settings outside config venues)
        → Reads i
        → Kept Holds (tick_on settings outside config venues i)
    unfolding tick_on
    tick_on-Kept i r b h =
        bind-Kept Holds (ask_breaker settings outside config venues)
          (λ _. asked settings outside config venues i)
          (ask_breaker-Safe settings outside config venues IsRead start) (λ _. asked-Kept i r) _
          ((Quiet-Safe settings outside config venues IsRead start) b _
            (sync_if_due-Quiet i.clock b) h)

    tick-Kept :
        (i : Input settings outside config venues)
        → Reads i
        → Kept Holds (tick settings outside config venues i)
    unfolding tick
    tick-Kept i r b h =
        choice-Inv Holds b.kill_switch (ok tt, b) (tick_on settings outside config venues i b) h
          (tick_on-Kept i r b h)

    ended-Safe :
        (now : ℕ) (r : Outcome BotError (Unit {0})) (b : Bot F)
        → Holds b
        → Holds (ended settings outside config venues now (r, b))
    unfolding note_error
    ended-Safe now (ok _) b h = h
    ended-Safe now (raised e) b h =
        elim (Bool-cases
          (ltb 50 (length (drop_old settings.hour now (b.error_times ++ now ∷ []))))) [
            | inl many ↦
                rw many (record {
                  approved = h.approved;
                  last = h.last;
                  kept = h.kept;
                  queued = h.queued;
                })
            | inr few ↦
                rw few (record {
                  approved = h.approved;
                  last = h.last;
                  kept = h.kept;
                  queued = h.queued;
                })
          ]

    operated-Safe :
        (o : Option Bool) (b : Bot F)
        → Holds b
        → Holds (operated settings outside config venues o b)
    operated-Safe none b h = h
    operated-Safe (some armed) b h = record {
      approved = h.approved;
      last = h.last;
      kept = h.kept;
      queued = h.queued;
    }

    run-Safe :
        (is : List (Input settings outside config venues)) (b : Bot F)
        → All Reads is
        → Holds b
        → Holds (run settings outside config venues is b)
    unfolding run
    run-Safe [] b r h = h
    run-Safe (i ∷ is) b r h = elim (Bool-cases b.running) [
      | inl on ↦ simp (on) (
          run-Safe is _ r.1 (
            ended-Safe i.clock _ _ (
              tick-Kept i r.0 (operated settings outside config venues i.operator b)
                (operated-Safe i.operator b h))))
      | inr off ↦ simp (off) h
    ]

  pub run-Traded :
      (is : List (Input settings outside config venues)) (b : Bot F)
      → All Reads is
      → (approved : List (Signal F)) × (last : Option (ExecutionContext F)) × Traded settings
          outside config venues IsRead b
          (run settings outside config venues is b).risk_manager
          (run settings outside config venues is b).world.events
          approved
          last
        × Every (λ s. IsIn s approved) (run settings outside config venues is b).queue.heap
  run-Traded is b r =
      let h = run-Safe b is b r (record {
        approved = waiting b.queue.heap;
        last = none;
        kept = nothing;
        queued = waiting-IsIn b.queue.heap;
      }) in
      (h.approved, h.last, h.kept, h.queued)
