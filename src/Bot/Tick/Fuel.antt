-- ===== src/Bot/Tick/Fuel.antt =====
-- The loop over the queue of scripts/arb_bot.py ends.
use peanut_trade_internship.Base.{
  ℕ, zero, suc, ◌<◌, true, false, Option, none, some, ◌≡◌, refl, ◌∙◌, Outcome, ok, raised,
  if◌then◌else◌, length, arith,
}
use peanut_trade_internship.Base.Float.{Float}
use peanut_trade_internship.Strategy.Signal.{Signal, is_valid}
use peanut_trade_internship.Executor.Queue.Members.{Took, get-Took}
use peanut_trade_internship.Executor.Engine.{ExecutorConfig, Venues}
use peanut_trade_internship.Bot.{Settings, Outside, Bot, Step, Times, BotError, pure, continue}
use peanut_trade_internship.Bot.Arrive.{score_of}
use peanut_trade_internship.Bot.Handle.{GoesOn, handle}
use peanut_trade_internship.Bot.Handle.Cleared.{handle-Any}
use peanut_trade_internship.Bot.Tick.{handled, drain}

module _ {F : Float} (settings : Settings F) (outside : Outside F) (config : ExecutorConfig F)
    (venues : Venues F) where
  handle-queue :
      (t : Times) (s : Signal F) (b : Bot F)
      → (handle settings outside config venues t s b).1.queue ≡ b.queue
  handle-queue t s b =
      (handle-Any settings outside config venues (λ _. Unit) (λ _ b'. b'.queue ≡ b.queue)
        (λ _ _ _ q h. q.1 ∙ h) (λ _ _ _ _ h. h) (λ _ _ _ _ _ _ h. h) s (λ _ _ _ h. h) t none b tt
        refl).1

  continue-rest :
      (r : Outcome BotError GoesOn) (rest rest' : Step F (Unit {0})) (b : Bot F)
      → rest b ≡ rest' b
      → continue r (λ goes_on. if goes_on then rest else pure tt) b
        ≡ continue r (λ goes_on. if goes_on then rest' else pure tt) b
  continue-rest (raised e) rest rest' b h = refl
  continue-rest (ok true) rest rest' b h = h
  continue-rest (ok false) rest rest' b h = refl

  handled-rest :
      (t : Times) (rest rest' : Step F (Unit {0})) (found : Option (Signal F)) (b : Bot F)
      (before : ℕ)
      → Took found (length b.queue.heap) before
      → ((b' : Bot F) → length b'.queue.heap < before → rest b' ≡ rest' b')
      → handled settings outside config venues t rest found b
        ≡ handled settings outside config venues t rest' found b
  handled-rest t rest rest' none b before took agree = refl
  handled-rest t rest rest' (some s) b before took agree =
      continue-rest (handle settings outside config venues t s b).0 rest rest'
        (handle settings outside config venues t s b).1 (agree _ (rw (handle-queue t s b) took))

  -- With more fuel than there are signals in the queue the loop over it comes to its end: result and
  -- state are the same for every such fuel.
  pub drain_fuel :
      (times : ℕ → Times) (fuel fuel' k : ℕ) (b : Bot F)
      → length b.queue.heap < fuel
      → length b.queue.heap < fuel'
      → drain settings outside config venues times fuel k b
        ≡ drain settings outside config venues times fuel' k b
  unfolding drain
  drain_fuel times zero fuel' k b h h' = absurd (omega arith)
  drain_fuel times (suc fuel) zero k b h h' = absurd (omega arith)
  drain_fuel times (suc fuel) (suc fuel') k b h h' =
      handled-rest (times k) (drain settings outside config venues times fuel (suc k))
        (drain settings outside config venues times fuel' (suc k)) _ _ (length b.queue.heap)
        (get-Took (score_of settings outside) (λ s. is_valid s (times k).at) b.queue)
        (λ b' l. drain_fuel times fuel fuel' (suc k) b' (omega arith) (omega arith))
