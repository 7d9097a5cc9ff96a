-- ===== src/Executor/Engine/Run/Guards.antt =====
-- The replay guard within `Executor.execute` (executor/engine.py): no signal is executed twice.
use text.Mathlib.TextPositions.{eq_refl}
use peanut_trade_internship.Base.{
  ℕ, ◌+◌, List, string_eq, Bool, true, false, Outcome, ok, ◌∷◌, ◌≡◌, ◌≢◌, ◌∙◌, refl, sym, ap, subst,
  ◌⊎◌, inl, inr,
}
use peanut_trade_internship.Base.Dict.{lookup}
use peanut_trade_internship.Base.Int.{ℤ, ◌-ℤ◌, ltb_ℤ}
use peanut_trade_internship.Base.Float.{Float}
use peanut_trade_internship.Strategy.Signal.{Signal, is_valid}
use peanut_trade_internship.Executor.Recovery.{
  ReplayProtection, mark_executed, is_duplicate, is_open,
}
use peanut_trade_internship.Executor.Recovery.Replay.{
  IsValid, is_duplicate-IsValid, is_duplicate-ttl, mark_executed-IsValid, mark_executed-lookup,
}
use peanut_trade_internship.Executor.Engine.{
  validating, ExecutionContext, ExecutorConfig, ExecuteError, Event, Venues, World,
}
use peanut_trade_internship.Executor.Engine.Action.{pure}
use peanut_trade_internship.Executor.Engine.Run.{
  new_context, fail, mark, report, succeeded, note_end, run_legs, run_valid, run_unique, run_closed,
  breaker_open, duplicate, execute,
}
use peanut_trade_internship.Executor.Engine.Run.Ends.{Ends, Ends-seq, Ends-if}
use peanut_trade_internship.Executor.Engine.Run.Again.{
  Remembers, after, after-Remembers, execute_refused,
}
use peanut_trade_internship.Executor.Engine.Run.Effects.{run_legs-Keeps}

module _ {F : Float} where
  -- The legs do not touch the guards.
  record Quiet (u w : World F) : Type 0 where
    same_replay : w.replay_protection ≡ u.replay_protection
    same_breaker : w.circuit_breaker ≡ u.circuit_breaker

  Quiet-refl : (w : World F) → Quiet w w
  Quiet-refl w = record { same_replay = refl; same_breaker = refl }

  Quiet-trans : (u v w : World F) → Quiet u v → Quiet v w → Quiet u w
  Quiet-trans u v w h k = record {
    same_replay = k.same_replay ∙ h.same_replay;
    same_breaker = k.same_breaker ∙ h.same_breaker;
  }

  Quiet-event : (e : Event F) (w : World F) → Quiet w (record w { events = e ∷ w.events })
  Quiet-event e w = record { same_replay = refl; same_breaker = refl }

module _ {F : Float} (config : ExecutorConfig F) (venues : Venues F) (signal : Signal F)
    (ttl : ℤ) where
  -- The guard is well-formed and has this time to live.
  record Guarded (w : World F) : Type 0 where
    valid : IsValid w.replay_protection
    time_to_live : w.replay_protection.ttl ≡ ttl

  -- The signal was marked at some reading of the clock.
  record Marked (w : World F) : Type 0 where
    guard : ReplayProtection
    reading : ℕ
    valid : IsValid guard
    time_to_live : guard.ttl ≡ ttl
    marked : w.replay_protection ≡ mark_executed guard signal.signal_id (venues.clock reading)

  module _ (w : World F) where
    abbrev Noted : ExecutionContext F → World F → Type 0
    Noted ctx w1 = (w1.events ≡ w.events) ⊎ Marked w1

    report-replay :
        (b : Bool) (v : World F)
        → ((report config venues b v).0 ≡ ok tt)
          × ((report config venues b v).1.replay_protection ≡ v.replay_protection)
    unfolding report
    report-replay true v = (refl, refl)
    report-replay false v = (refl, refl)

    note_end-Noted :
        (ctx : ExecutionContext F) (v : World F)
        → Guarded v
        → Ends Noted (note_end config venues signal ctx v)
    unfolding note_end
    note_end-Noted ctx v g =
        let v1 = (mark config venues signal v).1 in
        let b = succeeded config venues ctx.state in
        rw (report-replay b v1).0 (
          inr (record {
            guard = v.replay_protection;
            reading = v.clock_reads;
            valid = g.valid;
            time_to_live = g.time_to_live;
            marked = (report-replay b v1).1;
          }))

    run_valid-Noted :
        (ctx : ExecutionContext F) (v : World F)
        → ctx.signal ≡ signal
        → Guarded v
        → Ends Noted (run_valid config venues ctx v)
    unfolding run_valid
    run_valid-Noted ctx v same g =
        Ends-seq Noted (run_legs config venues ctx) (note_end config venues ctx.signal) v
          λ ctx1 v1 e.
            let quiet : Quiet v v1 =
              subst (λ (u : Outcome _ _ × World F). Quiet v u.1) e
                (run_legs-Keeps Quiet Quiet-refl Quiet-trans Quiet-event config venues ctx v) in
            subst (λ (s : Signal F). Ends Noted (note_end config venues s ctx1 v1)) (sym same)
              (note_end-Noted ctx1 v1 (record {
                valid = subst IsValid (sym quiet.same_replay) g.valid;
                time_to_live =
                    ap (λ (r : ReplayProtection). r.ttl) quiet.same_replay ∙ g.time_to_live;
              }))

    -- A return before the legs has sent nothing.
    quiet-Noted : (ctx : ExecutionContext F) (v : World F) → v.events ≡ w.events → Noted ctx v
    quiet-Noted ctx v e = inl e

    run_unique-Noted :
        (ctx : ExecutionContext F) (v : World F)
        → ctx.signal ≡ signal
        → v.events ≡ w.events
        → Guarded v
        → Ends Noted (run_unique config venues ctx v)
    unfolding run_unique
    run_unique-Noted ctx v same e g =
        let v1 = record v { clock_reads = v.clock_reads + 1 } in
        let ctx1 = record ctx { state = validating } in
        Ends-if Noted (is_valid ctx.signal (venues.clock v.clock_reads))
          (run_valid config venues ctx1) (pure (fail ctx "Signal invalid")) v1
          (λ _.
            run_valid-Noted ctx1 v1 same
              (record { valid = g.valid; time_to_live = g.time_to_live }))
          (λ _. quiet-Noted (fail ctx "Signal invalid") v1 e)

    run_closed-Noted :
        (ctx : ExecutionContext F) (v : World F)
        → ctx.signal ≡ signal
        → v.events ≡ w.events
        → Guarded v
        → Ends Noted (run_closed config venues ctx v)
    unfolding run_closed duplicate
    run_closed-Noted ctx v same e g =
        let now = venues.clock v.clock_reads in
        let id = ctx.signal.signal_id in
        let answer = is_duplicate v.replay_protection id now in
        let v1 = record v { clock_reads = v.clock_reads + 1; replay_protection = answer.1 } in
        Ends-if Noted answer.0 (pure (fail ctx "Duplicate signal")) (run_unique config venues ctx)
          v1 (λ _. quiet-Noted (fail ctx "Duplicate signal") v1 e)
          (λ _. run_unique-Noted ctx v1 same e (record {
            valid = is_duplicate-IsValid v.replay_protection id now g.valid;
            time_to_live = is_duplicate-ttl v.replay_protection id now ∙ g.time_to_live;
          }))

  -- An execution that returns has sent nothing, or has marked its signal.
  execute-Noted : (w : World F) → Guarded w → Ends (Noted w) (execute config venues signal w)
  unfolding execute breaker_open
  execute-Noted w g =
      let ctx = new_context signal (venues.clock w.clock_reads) in
      let answer = is_open w.circuit_breaker (venues.clock (w.clock_reads + 1)) in
      let v = record w { clock_reads = w.clock_reads + 1 + 1; circuit_breaker = answer.1 } in
      Ends-if (Noted w) answer.0 (pure (fail ctx "Circuit breaker open"))
        (run_closed config venues ctx) v
        (λ _. quiet-Noted w (fail ctx "Circuit breaker open") v refl)
        (λ _.
          run_closed-Noted w ctx v refl refl
            (record { valid = g.valid; time_to_live = g.time_to_live }))

  -- A mark that was just made is remembered.
  Marked-Remembers : (w : World F) → Marked w → Remembers config venues signal ttl w
  unfolding mark_executed
  Marked-Remembers w m = record {
    valid =
        subst IsValid (sym m.marked)
          (mark_executed-IsValid m.guard signal.signal_id (venues.clock m.reading) m.valid);
    time_to_live = ap (λ (r : ReplayProtection). r.ttl) m.marked ∙ m.time_to_live;
    reading = m.reading;
    noted =
        ap (λ (r : ReplayProtection). lookup signal.signal_id r.executed) m.marked
        ∙ (mark_executed-lookup m.guard signal.signal_id signal.signal_id (venues.clock m.reading)
            ∙ rw (eq_refl signal.signal_id));
  }

-- If one execution of a signal that returns has sent anything to a venue, then executing that signal
-- again sends nothing, also after any other executions in between, of whatever signals, that return
-- or raise; as long as all readings of the clock lie within the time to live of the replay guard, in
-- which no signal stands twice. An execution that raises marks nothing: of it nothing is said.
pub execute_twice :
    {F : Float} (config : ExecutorConfig F) (venues : Venues F) (signal : Signal F)
    (between : List (Signal F)) (w w1 : World F) (ctx : ExecutionContext F)
    → IsValid w.replay_protection
    → ((i j : ℕ) → ltb_ℤ (venues.clock j -ℤ w.replay_protection.ttl) (venues.clock i) ≡ true)
    → execute config venues signal w ≡ (ok ctx, w1)
    → w1.events ≢ w.events
    → (execute config venues signal (after config venues between w1)).1.events
      ≡ (after config venues between w1).events
execute_twice config venues signal between w w1 ctx v within run sent =
    let ttl = w.replay_protection.ttl in
    let noted : Noted config venues signal ttl w ctx w1 =
      subst
        (λ (u : Outcome ExecuteError (ExecutionContext _) × World _).
          Ends (Noted config venues signal ttl w) u)
        run
        (execute-Noted config venues signal ttl w (record { valid = v; time_to_live = refl })) in
    elim noted [
      | inl same ↦ absurd (sent same)
      | inr m ↦ execute_refused config venues signal ttl within (after config venues between w1) (
          after-Remembers config venues signal ttl within between w1
            (Marked-Remembers config venues signal ttl w1 m))
    ]
