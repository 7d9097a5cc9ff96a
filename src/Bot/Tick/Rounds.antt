-- ===== src/Bot/Tick/Rounds.antt =====
-- What the two loops within a tick of scripts/arb_bot.py keep: over the pairs and over the queue.
use peanut_trade_internship.Base.{
  All, ℕ, zero, suc, List, [], ◌∷◌, Option, none, some, if◌then◌else◌,
}
use peanut_trade_internship.Base.Member.{IsIn}
use peanut_trade_internship.Base.Float.{Float}
use peanut_trade_internship.Strategy.Signal.{Signal, is_valid}
use peanut_trade_internship.Executor.Queue.{get}
use peanut_trade_internship.Executor.Queue.Members.{Every, Found, get-Found}
use peanut_trade_internship.Executor.Engine.{ExecutionContext, ExecutorConfig, Venues}
use peanut_trade_internship.Bot.{Settings, Outside, Bot, Step, Times, pure}
use peanut_trade_internship.Bot.Arrive.{Arrival, generate_one, score_of}
use peanut_trade_internship.Bot.Arrive.Vetted.{IsSafe, generate_one-Keeps}
use peanut_trade_internship.Bot.Handle.{ask_breaker, handle}
use peanut_trade_internship.Bot.Tick.{arrive_all, handled, drain}
use peanut_trade_internship.Bot.Handle.Quiet.{Quiet, ask_breaker-Quiet}
use peanut_trade_internship.Bot.Handle.Cleared.{handle-Any}
use peanut_trade_internship.Bot.Tick.Trace.{Traded, renewed, approval, execution, booking}
use peanut_trade_internship.Bot.Steps.{Kept, continue-Inv, bind-Kept, choose-Kept}

module _ {F : Float} (settings : Settings F) (outside : Outside F) (config : ExecutorConfig F)
    (venues : Venues F) (IsRead : Times → Type 0) where
  open F use {Num}

  module _ (start : Bot F) where
    abbrev pub Safe : Bot F → Type 0
    Safe =
        IsSafe settings outside IsRead (Traded settings outside config venues IsRead start) renewed
          approval

    -- A safe bot that handles a signal which was approved.
    record Handles (s : Signal F) (last : Option (ExecutionContext F)) (b : Bot F) : Type 0 where
      approved : List (Signal F)
      traded :
          Traded settings outside config venues IsRead start b.risk_manager b.world.events approved
            last
      queued : Every (λ x. IsIn x approved) b.queue.heap
      member : IsIn s approved

    pub Quiet-Safe : (b b' : Bot F) → Quiet settings outside config venues b b' → Safe b → Safe b'
    Quiet-Safe b b' q h = record {
      approved = h.approved;
      last = h.last;
      kept = rw (q.0, q.2) h.kept;
      queued = rw q.1 h.queued;
    }

    Quiet-Handles :
        (s : Signal F) (last : Option (ExecutionContext F)) (b b' : Bot F)
        → Quiet settings outside config venues b b'
        → Handles s last b
        → Handles s last b'
    Quiet-Handles s last b b' q h = record {
      approved = h.approved;
      traded = rw (q.0, q.2) h.traded;
      queued = rw q.1 h.queued;
      member = h.member;
    }

    handled_one-Safe :
        (t : Times) (s : Signal F) (b : Bot F)
        → IsRead t
        → (h : Safe b) → IsIn s h.approved
        → Safe (handle settings outside config venues t s b).1
    handled_one-Safe t s b r h v =
        let (last, h') =
          handle-Any settings outside config venues IsRead (Handles s) (Quiet-Handles s)
            (λ last u c k h. record {
              approved = h.approved;
              traded = renewed c.risk_manager c.world.events h.approved last u k h.traded;
              queued = h.queued;
              member = h.member;
            })
            (λ u ctx pnl c k p h. record {
              approved = h.approved;
              traded = booking c.risk_manager c.world.events h.approved ctx pnl u k p h.traded;
              queued = h.queued;
              member = h.member;
            })
            s
            (λ last c cleared h. record {
              approved = h.approved;
              traded = execution c.risk_manager c.world h.approved last s h.member cleared h.traded;
              queued = h.queued;
              member = h.member;
            })
            t h.last b r
            (record { approved = h.approved; traded = h.kept; queued = h.queued; member = v }) in
        record { approved = h'.approved; last = last; kept = h'.traded; queued = h'.queued }

    pub ask_breaker-Safe : Kept Safe (ask_breaker settings outside config venues)
    ask_breaker-Safe b h = Quiet-Safe b _ (ask_breaker-Quiet settings outside config venues b) h

    pub arrive_all-Kept :
        (as' : List (Arrival settings outside))
        → All (λ a. IsRead a.times) as'
        → Kept Safe (arrive_all settings outside config venues as')
    unfolding arrive_all
    arrive_all-Kept [] r = λ b h. h
    arrive_all-Kept (a ∷ as') r =
        bind-Kept Safe (generate_one settings outside a)
          (λ _. arrive_all settings outside config venues as')
          (generate_one-Keeps settings outside IsRead
            (Traded settings outside config venues IsRead start) renewed approval a r.0)
          (λ _. arrive_all-Kept as' r.1)

    handled-Safe :
        (t : Times) (rest : Step F (Unit {0})) (found : Option (Signal F)) (b : Bot F)
        → Kept Safe rest
        → IsRead t
        → (h : Safe b) → Found (λ s. IsIn s h.approved) found
        → Safe (handled settings outside config venues t rest found b).1
    handled-Safe t rest none b k r h v = h
    handled-Safe t rest (some s) b k r h v =
        let m = handle settings outside config venues t s b in
        continue-Inv Safe m.0 (λ goes_on. if goes_on then rest else pure tt) m.1
          (handled_one-Safe t s b r h v)
          (λ goes_on. choose-Kept Safe goes_on rest (pure tt) (λ _. k) (λ _ c h'. h'))

    pub drain-Kept :
        (times : ℕ → Times) (fuel k : ℕ)
        → ((j : ℕ) → IsRead (times j))
        → Kept Safe (drain settings outside config venues times fuel k)
    unfolding drain
    drain-Kept times zero k r b h = h
    drain-Kept times (suc fuel) k r b h =
        let g =
          get-Found (λ s. IsIn s h.approved) (score_of settings outside)
            (λ s. is_valid s (times k).at) b.queue h.queued in
        handled-Safe (times k) (drain settings outside config venues times fuel (suc k)) _
          (record b {
            queue = (get (score_of settings outside) (λ s. is_valid s (times k).at) b.queue).1;
          })
          (drain-Kept times fuel (suc k) r) (r k)
          (record { approved = h.approved; last = h.last; kept = h.kept; queued = g.1 }) g.0
