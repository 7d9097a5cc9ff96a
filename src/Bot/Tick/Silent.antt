-- ===== src/Bot/Tick/Silent.antt =====
-- When a run of scripts/arb_bot.py sends nothing.
use mathlib.Core.Bool.{false≢true}
use peanut_trade_internship.Base.{
  Bool, true, false, List, [], ◌∷◌, All, Option, none, some, ◌≡◌, refl, sym, ◌∙◌, ap, ok,
  if◌then◌else◌,
}
use peanut_trade_internship.Base.Float.{Float}
use peanut_trade_internship.Safety.Risk.{RiskManager}
use peanut_trade_internship.Strategy.Signal.{Signal}
use peanut_trade_internship.Executor.Engine.{Event, ExecutionContext, ExecutorConfig, Venues}
use peanut_trade_internship.Bot.{Settings, Outside, Bot}
use peanut_trade_internship.Bot.Arrive.{Arrival}
use peanut_trade_internship.Bot.Tick.{Input, tick_on, tick, ended, operated, one_tick, run}
use peanut_trade_internship.Bot.Tick.Gates.{Reads, run-Traded}
use peanut_trade_internship.Bot.Tick.Trace.{Traded, nothing, renewed, approval, execution, booking}

same_choice : {A : Type 0} (c : Bool) (x y : A) → x ≡ y → (if c then x else y) ≡ y
same_choice true x y h = h
same_choice false x y h = refl

module _ {F : Float} (settings : Settings F) (outside : Outside F) (config : ExecutorConfig F)
    (venues : Venues F) where
  nothing-Traded :
      {start : Bot F} {m : RiskManager} {events : List (Event F)} {approved : List (Signal F)}
      {last : Option (ExecutionContext F)}
      → settings.dry_run ≡ true
      → Traded settings outside config venues (λ _. Unit {0}) start m events approved last
      → events ≡ start.world.events
  nothing-Traded dry nothing = refl
  nothing-Traded dry (renewed m es a l u r h) = nothing-Traded dry h
  nothing-Traded dry (approval m es a l s v h) = nothing-Traded dry h
  nothing-Traded dry (execution m w a l s i c h) = absurd (false≢true (sym c.live ∙ dry))
  nothing-Traded dry (booking m es a ctx p u r e h) = nothing-Traded dry h

  all_times : (as' : List (Arrival settings outside)) → All (λ _. Unit {0}) as'
  all_times [] = tt
  all_times (a ∷ as') = (tt, all_times as')

  all_read :
      (is : List (Input settings outside config venues))
      → All (Reads settings outside config venues (λ _. Unit {0})) is
  all_read [] = tt
  all_read (i ∷ is) = (((λ _. tt), all_times i.arrivals), all_read is)

  -- In a dry run nothing is sent to the exchange or the chain, in whatever mode the executor is.
  pub run_dry :
      (is : List (Input settings outside config venues)) (b : Bot F)
      → settings.dry_run ≡ true
      → (run settings outside config venues is b).world.events ≡ b.world.events
  run_dry is b dry =
      let (approved, last, t, q) =
        run-Traded settings outside config venues (λ _. Unit {0}) is b (all_read is) in
      nothing-Traded dry t

  -- The operator does not remove the file of the kill switch.
  abbrev pub Stays : Option Bool → Type 0
  Stays none = Unit
  Stays (some armed) = armed ≡ true

  operated-Stays :
      (o : Option Bool) (b : Bot F)
      → Stays o
      → b.kill_switch ≡ true
      → operated settings outside config venues o b ≡ b
  operated-Stays none b h k = refl
  operated-Stays (some armed) b h k = ap (λ c. record b { kill_switch = c }) (h ∙ sym k)

  one_tick_killed :
      (i : Input settings outside config venues) (b : Bot F)
      → Stays i.operator
      → b.kill_switch ≡ true
      → one_tick settings outside config venues i b ≡ b
  unfolding tick
  one_tick_killed i b h k =
      ap
        (λ b'.
          ended settings outside config venues i.clock (tick settings outside config venues i b'))
        (operated-Stays i.operator b h k)
      ∙ ap
          (λ c.
            ended settings outside config venues i.clock
              (if c then (ok tt, b) else tick_on settings outside config venues i b))
          k

  -- While the kill switch is armed and nobody removes it, a bot changes nothing at all.
  pub run_killed :
      (is : List (Input settings outside config venues)) (b : Bot F)
      → All (λ i. Stays i.operator) is
      → b.kill_switch ≡ true
      → run settings outside config venues is b ≡ b
  unfolding run
  run_killed [] b h k = refl
  run_killed (i ∷ is) b h k = same_choice b.running _ b (
      ap (run settings outside config venues is) (one_tick_killed i b h.0 k)
      ∙ run_killed is b h.1 k)
