-- ===== src/Bot/Tick/Trace.antt =====
-- A run of scripts/arb_bot.py up to a point, as far as it concerns the gates in front of a trade.
use peanut_trade_internship.Base.{List, [], ◌∷◌, Option, none, some, ◌≡◌, refl, inl}
use peanut_trade_internship.Base.Member.{IsIn, All-IsIn-more}
use peanut_trade_internship.Base.Float.{Float}
use peanut_trade_internship.Strategy.Signal.{Signal}
use peanut_trade_internship.Executor.Queue.{Entry}
use peanut_trade_internship.Executor.Queue.Members.{Every}
use peanut_trade_internship.Executor.Engine.{Event, ExecutionContext, ExecutorConfig, Venues, World}
use peanut_trade_internship.Executor.Engine.Run.{execute}
use peanut_trade_internship.Safety.Risk.{RiskManager, refreshed, record_trade}
use peanut_trade_internship.Bot.{Settings, Outside, Bot, Times}
use peanut_trade_internship.Bot.Arrive.Vetted.{IsVetted}
use peanut_trade_internship.Bot.Handle.Cleared.{IsCleared, returned}

-- The signals that wait in a queue.
abbrev pub waiting : {S : Type 0} → List (Entry S) → List S
waiting [] = []
waiting (e ∷ es) = e.signal ∷ waiting es

pub waiting-IsIn : {S : Type 0} (es : List (Entry S)) → Every (λ s. IsIn s (waiting es)) es
waiting-IsIn [] = tt
waiting-IsIn (e ∷ es) =
    (inl refl, All-IsIn-more (λ x. x.signal) e.signal (waiting es) es (waiting-IsIn es))

module _ {F : Float} (settings : Settings F) (outside : Outside F) (config : ExecutorConfig F)
    (venues : Venues F) (IsRead : Times → Type 0) where
  open F use {Num}

  -- A run up to a point: the risk manager, what has been sent, the signals that waited at the start
  -- or were approved since, and the last execution if its profit is not booked yet. The manager
  -- changes only when it is brought up to date at times that were read, and when the profit of the
  -- last execution is booked. A signal is approved by the manager of this point. Things are sent by
  -- executions of signals that waited or were approved before and that are cleared at this point, in
  -- any state of the executor that has sent what is sent so far.
  pub data Traded (start : Bot F)
      : RiskManager → List (Event F) → List (Signal F) → Option (ExecutionContext F) → Type 0 where
    nothing : Traded start start.risk_manager start.world.events (waiting start.queue.heap) none
    renewed :
        (m : RiskManager) (es : List (Event F)) (approved : List (Signal F))
        (last : Option (ExecutionContext F)) (t : Times)
        → IsRead t
        → Traded start m es approved last
        → Traded start
            (refreshed settings.unit settings.hour t.now t.next_midnight t.clock m)
            es
            approved
            last
    approval :
        (m : RiskManager) (es : List (Event F)) (approved : List (Signal F))
        (last : Option (ExecutionContext F)) (s : Signal F)
        → IsVetted settings outside IsRead m s
        → Traded start m es approved last
        → Traded start m es (s ∷ approved) last
    execution :
        (m : RiskManager) (w : World F) (approved : List (Signal F))
        (last : Option (ExecutionContext F)) (s : Signal F)
        → IsIn s approved
        → IsCleared settings outside config venues IsRead m s
        → Traded start m w.events approved last
        → Traded start m
            (execute config venues s w).1.events
            approved
            (returned settings outside config venues IsRead (execute config venues s w).0)
    booking :
        (m : RiskManager) (es : List (Event F)) (approved : List (Signal F))
        (ctx : ExecutionContext F) (pnl : Num) (t : Times)
        → IsRead t
        → ctx.actual_net_pnl ≡ some pnl
        → Traded start m es approved (some ctx)
        → Traded start
            (record_trade t.now t.next_midnight t.clock (outside.units pnl) m)
            es
            approved
            none
