-- ===== src/Executor/Engine/Run/Again.antt =====
-- What any executions of executor/engine.py leave in the replay guard.
use peanut_trade_internship.Base.{
  ℕ, ◌+◌, Bool, true, false, some, List, [], ◌∷◌, ◌≡◌, ◌∙◌, inl, inr, Bool-cases, str_eq, string_eq,
  if◌then◌else◌,
}
use peanut_trade_internship.Base.Dict.{lookup}
use peanut_trade_internship.Base.Int.{ℤ, ◌-ℤ◌, ltb_ℤ}
use peanut_trade_internship.Base.Float.{Float}
use peanut_trade_internship.Strategy.Signal.{Signal, is_valid}
use peanut_trade_internship.Executor.Recovery.{mark_executed, is_open}
use peanut_trade_internship.Executor.Recovery.Replay.{
  IsValid, is_duplicate-IsValid, is_duplicate-ttl, is_duplicate-lookup, mark_executed-IsValid,
  mark_executed-lookup, is_duplicate_noted,
}
use peanut_trade_internship.Executor.Engine.{
  validating, ExecutionContext, ExecutorConfig, Event, Venues, World, Act,
}
use peanut_trade_internship.Executor.Engine.Action.{pure, ◌>>=◌, read_clock}
use peanut_trade_internship.Executor.Engine.Legs.Effects
use peanut_trade_internship.Executor.Engine.Run.{
  new_context, fail, mark, report, succeeded, note_end, run_legs, run_valid, run_unique, run_closed,
  breaker_open, duplicate, execute,
}
use peanut_trade_internship.Executor.Engine.Run.Effects.{run_legs-Keeps}

module _ {F : Float} (config : ExecutorConfig F) (venues : Venues F) where
  -- The world after some executions, each of which returns or raises.
  abbrev pub after : List (Signal F) → World F → World F
  after [] w = w
  after (s ∷ ss) w = after ss (execute config venues s w).1

module _ {F : Float} (config : ExecutorConfig F) (venues : Venues F) (signal : Signal F)
    (ttl : ℤ) where
  -- The signal is marked at some reading of the clock.
  pub record Remembers (w : World F) : Type 0 where
    pub valid : IsValid w.replay_protection
    pub time_to_live : w.replay_protection.ttl ≡ ttl
    pub reading : ℕ
    pub noted : lookup signal.signal_id w.replay_protection.executed ≡ some (venues.clock reading)

  module _ (within : (i j : ℕ) → ltb_ℤ (venues.clock j -ℤ ttl) (venues.clock i) ≡ true) where
    abbrev R : World F → World F → Type 0
    R u w = Remembers u → Remembers w

    R-event : (e : Event F) (w : World F) → R w (record w { events = e ∷ w.events })
    R-event e w h = record {
      valid = h.valid;
      time_to_live = h.time_to_live;
      reading = h.reading;
      noted = h.noted;
    }

    abbrev Keeps : {A : Type 0} → Act F A → Type 0
    Keeps m = (w : World F) → R w (m w).1

    bind :
        {A B : Type 0} (m : Act F A) (f : A → Act F B)
        → Keeps m
        → ((a : A) → Keeps (f a))
        → Keeps (m >>= f)
    bind = Effects.Keeps-bind R (λ w h. h) (λ u v w h k x. k (h x)) R-event config venues

    choose :
        {A : Type 0} (b : Bool) (m n : Act F A) → Keeps m → Keeps n → Keeps (if b then m else n)
    choose true m n hm hn = hm
    choose false m n hm hn = hn

    read_clock-Keeps : Keeps (read_clock venues)
    read_clock-Keeps w h = record {
      valid = h.valid;
      time_to_live = h.time_to_live;
      reading = h.reading;
      noted = h.noted;
    }

    breaker_open-Keeps : Keeps (breaker_open config venues)
    unfolding breaker_open
    breaker_open-Keeps w h = record {
      valid = h.valid;
      time_to_live = h.time_to_live;
      reading = h.reading;
      noted = h.noted;
    }

    young :
        (w : World F) (h : Remembers w) (j : ℕ)
        → ltb_ℤ (venues.clock j -ℤ w.replay_protection.ttl) (venues.clock h.reading) ≡ true
    young w h j = rw h.time_to_live (within h.reading j)

    duplicate-Keeps : (s : Signal F) → Keeps (duplicate config venues s)
    unfolding duplicate
    duplicate-Keeps s w h =
        let r = w.replay_protection in
        let now = venues.clock w.clock_reads in
        record {
          valid = is_duplicate-IsValid r s.signal_id now h.valid;
          time_to_live = is_duplicate-ttl r s.signal_id now ∙ h.time_to_live;
          reading = h.reading;
          noted =
              is_duplicate-lookup r s.signal_id signal.signal_id now (venues.clock h.reading)
                h.valid h.noted (young w h w.clock_reads);
        }

    marked_at :
        (s : Signal F) (w : World F)
        → Remembers w
        → (n : ℕ) × (lookup signal.signal_id
              (mark_executed w.replay_protection s.signal_id (venues.clock w.clock_reads)).executed
            ≡ some (venues.clock n))
    marked_at s w h =
        let e =
          mark_executed-lookup w.replay_protection s.signal_id signal.signal_id
            (venues.clock w.clock_reads) in
        elim (Bool-cases (str_eq s.signal_id signal.signal_id)) [
          | inl same ↦ (w.clock_reads, e ∙ rw same)
          | inr other ↦ (h.reading, e ∙ rw other h.noted)
        ]

    mark-Keeps : (s : Signal F) → Keeps (mark config venues s)
    unfolding mark mark_executed
    mark-Keeps s w h =
        let (n, e) = marked_at s w h in
        record {
          valid =
              mark_executed-IsValid w.replay_protection s.signal_id (venues.clock w.clock_reads)
                h.valid;
          time_to_live = h.time_to_live;
          reading = n;
          noted = e;
        }

    report-Keeps : (b : Bool) → Keeps (report config venues b)
    unfolding report
    report-Keeps true w h = record {
      valid = h.valid;
      time_to_live = h.time_to_live;
      reading = h.reading;
      noted = h.noted;
    }
    report-Keeps false w h = record {
      valid = h.valid;
      time_to_live = h.time_to_live;
      reading = h.reading;
      noted = h.noted;
    }

    abbrev end_at : ExecutionContext F → ℤ → Act F (ExecutionContext F)
    end_at ctx now = pure (record ctx { finished_at = some now })

    note_end-Keeps :
        (s : Signal F) (ctx : ExecutionContext F) → Keeps (note_end config venues s ctx)
    unfolding note_end
    note_end-Keeps s ctx =
        let told = report config venues (succeeded config venues ctx.state) in
        let last = read_clock venues >>= end_at ctx in
        bind (mark config venues s) (λ _. told >>= λ _. last) (mark-Keeps s)
          λ _.
            bind told (λ _. last) (report-Keeps (succeeded config venues ctx.state))
              λ _. bind (read_clock venues) (end_at ctx) read_clock-Keeps (λ now w h. h)

    run_valid-Keeps : (ctx : ExecutionContext F) → Keeps (run_valid config venues ctx)
    unfolding run_valid
    run_valid-Keeps ctx =
        bind (run_legs config venues ctx) (note_end config venues ctx.signal)
          (run_legs-Keeps R (λ w h. h) (λ u v w h k x. k (h x)) R-event config venues ctx)
          (note_end-Keeps ctx.signal)

    run_unique-Keeps : (ctx : ExecutionContext F) → Keeps (run_unique config venues ctx)
    unfolding run_unique
    run_unique-Keeps ctx =
        let run = run_valid config venues (record ctx { state = validating }) in
        let refuse = pure (fail ctx "Signal invalid") in
        bind (read_clock venues) (λ now. if is_valid ctx.signal now then run else refuse)
          read_clock-Keeps
          λ now.
            choose (is_valid ctx.signal now) run refuse
              (run_valid-Keeps (record ctx { state = validating })) (λ w h. h)

    run_closed-Keeps : (ctx : ExecutionContext F) → Keeps (run_closed config venues ctx)
    unfolding run_closed
    run_closed-Keeps ctx =
        let run = run_unique config venues ctx in
        let refuse = pure (fail ctx "Duplicate signal") in
        bind (duplicate config venues ctx.signal) (λ seen. if seen then refuse else run)
          (duplicate-Keeps ctx.signal)
          λ seen. choose seen refuse run (λ w h. h) (run_unique-Keeps ctx)

    blocked_or :
        (ctx : ExecutionContext F)
        → Keeps (
            breaker_open config venues >>= λ blocked.
            if blocked
            then pure (fail ctx "Circuit breaker open")
            else run_closed config venues ctx)
    blocked_or ctx =
        let run = run_closed config venues ctx in
        let refuse = pure (fail ctx "Circuit breaker open") in
        bind (breaker_open config venues) (λ blocked. if blocked then refuse else run)
          breaker_open-Keeps λ blocked. choose blocked refuse run (λ w h. h) (run_closed-Keeps ctx)

    execute-Keeps : (s : Signal F) → Keeps (execute config venues s)
    unfolding execute
    execute-Keeps s w h =
        blocked_or (new_context s (venues.clock w.clock_reads)) (read_clock venues w).1
          (read_clock-Keeps w h)

    pub after-Remembers :
        (ss : List (Signal F)) (w : World F) → Remembers w → Remembers (after config venues ss w)
    after-Remembers [] w h = h
    after-Remembers (s ∷ ss) w h = after-Remembers ss _ (execute-Keeps s w h)

    -- A signal that is remembered is refused.
    pub execute_refused :
        (w : World F) → Remembers w → (execute config venues signal w).1.events ≡ w.events
    unfolding execute breaker_open run_closed duplicate
    execute_refused w h =
        let n = w.clock_reads in
        let answer = is_open w.circuit_breaker (venues.clock (n + 1)) in
        let seen =
          is_duplicate_noted w.replay_protection signal.signal_id (venues.clock (n + 1 + 1))
            (venues.clock h.reading) h.valid h.noted (young w h (n + 1 + 1)) in
        elim (Bool-cases answer.0) [ inl blocked ↦ rw blocked | inr closed ↦ rw (closed, seen) ]
