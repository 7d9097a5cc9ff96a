-- ===== src/Executor/Engine/Run/Ends.antt =====
-- What a coroutine of executor/engine.py ends in: a predicate on its result and the world after it.
use peanut_trade_internship.Base.{Outcome, ok, raised, ◌≡◌, refl, Bool, true, false, if◌then◌else◌}
use peanut_trade_internship.Base.Float.{Float}
use peanut_trade_internship.Executor.Engine.{World, Act, ExecuteError}
use peanut_trade_internship.Executor.Engine.Action.{continue, ◌>>=◌}

module _ {F : Float} where
  -- A run that raises promises nothing.
  abbrev pub Ends :
      {A : Type 0} → (A → World F → Type 0) → Outcome ExecuteError A × World F → Type 0
  Ends P (ok a, w) = P a w
  Ends P (raised e, w) = Unit

  pub Ends-continue :
      {A B : Type 0} (P : B → World F → Type 0) (r : Outcome ExecuteError A) (f : A → Act F B)
      (w : World F)
      → ((a : A) → r ≡ ok a → Ends P (f a w))
      → Ends P (continue r f w)
  Ends-continue P (ok a) f w h = h a refl
  Ends-continue P (raised e) f w h = tt

  -- A weaker promise.
  pub Ends-map :
      {A : Type 0} (P Q : A → World F → Type 0) (r : Outcome ExecuteError A × World F)
      → ((a : A) (w : World F) → P a w → Q a w)
      → Ends P r
      → Ends Q r
  Ends-map P Q (ok a, w) h e = h a w e
  Ends-map P Q (raised x, w) h e = tt

  -- Each step promises what the next one asks for.
  pub Ends-bind :
      {A B : Type 0} (P : A → World F → Type 0) (Q : B → World F → Type 0)
      (r : Outcome ExecuteError A × World F) (f : A → Act F B)
      → Ends P r
      → ((a : A) (w : World F) → P a w → Ends Q (f a w))
      → Ends Q (continue r.0 f r.1)
  Ends-bind P Q (ok a, w) f e h = h a w e
  Ends-bind P Q (raised x, w) f e h = tt

  -- A step that promises nothing.
  pub Ends-seq :
      {A B : Type 0} (P : B → World F → Type 0) (m : Act F A) (f : A → Act F B) (w : World F)
      → ((a : A) (w' : World F) → m w ≡ (ok a, w') → Ends P (f a w'))
      → Ends P ((m >>= f) w)
  Ends-seq P m f w h = let (r, w') = m w in Ends-continue P r f w' (λ a e. h a w' (λ i. (e i, w')))

  pub Ends-if :
      {A : Type 0} (P : A → World F → Type 0) (b : Bool) (m n : Act F A) (w : World F)
      → (b ≡ true → Ends P (m w))
      → (b ≡ false → Ends P (n w))
      → Ends P ((if b then m else n) w)
  Ends-if P true m n w hm hn = hm refl
  Ends-if P false m n w hm hn = hn refl
