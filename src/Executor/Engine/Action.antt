-- ===== src/Executor/Engine/Action.antt =====
-- A coroutine of the executor: a function of the world that returns or raises.
use peanut_trade_internship.Base.{◌+◌, List, ◌∷◌, Outcome, ok, raised}
use peanut_trade_internship.Base.Int.{ℤ}
use peanut_trade_internship.Base.Float.{Float}
use peanut_trade_internship.Executor.Engine.{Event, Act, ExecuteError, Venues}

module _ {F : Float} where
  abbrev pub pure : {A : Type 0} → A → Act F A
  pure a w = (ok a, w)

  abbrev pub raise : {A : Type 0} → ExecuteError → Act F A
  raise e w = (raised e, w)

  abbrev pub continue : {A B : Type 0} → Outcome ExecuteError A → (A → Act F B) → Act F B
  continue (ok a) f w = f a w
  continue (raised e) f w = (raised e, w)

  infixl 5 ◌>>=◌ ◌>>◌
  abbrev pub ◌>>=◌ : {A B : Type 0} → Act F A → (A → Act F B) → Act F B
  ◌>>=◌ m f w = let (r, w') = m w in continue r f w'

  abbrev pub ◌>>◌ : {A B : Type 0} → Act F A → Act F B → Act F B
  m >> k = m >>= λ _. k

  abbrev pub emit : Event F → Act F (Unit {0})
  emit e w = (ok tt, record w { events = e ∷ w.events })

  abbrev pub done_so_far : Act F (List (Event F))
  done_so_far w = (ok w.events, w)

  abbrev pub read_clock : Venues F → Act F ℤ
  read_clock v w = (ok (v.clock w.clock_reads), record w { clock_reads = w.clock_reads + 1 })
