-- ===== src/Bot/Steps.antt =====
-- What a step of scripts/arb_bot.py keeps, whether it returns or raises.
use peanut_trade_internship.Base.{Bool, true, false, ◌≡◌, refl, Outcome, ok, raised, if◌then◌else◌}
use peanut_trade_internship.Base.Float.{Float}
use peanut_trade_internship.Bot.{Bot, Step, BotError, ◌>>=◌, continue}

module _ {F : Float} (Inv : Bot F → Type 0) where
  abbrev pub Kept : {A : Type 0} → Step F A → Type 0
  Kept m = (b : Bot F) → Inv b → Inv (m b).1

  pub continue-Inv :
      {A B : Type 0} (r : Outcome BotError A) (f : A → Step F B) (b : Bot F)
      → Inv b
      → ((a : A) → Kept (f a))
      → Inv (continue r f b).1
  continue-Inv (ok a) f b h k = k a b h
  continue-Inv (raised e) f b h k = h

  pub bind-Kept :
      {A B : Type 0} (m : Step F A) (f : A → Step F B)
      → Kept m
      → ((a : A) → Kept (f a))
      → Kept (m >>= f)
  bind-Kept m f hm hf b h = continue-Inv (m b).0 f (m b).1 (hm b h) hf

  pub choose-Kept :
      {A : Type 0} (c : Bool) (m k : Step F A)
      → (c ≡ true → Kept m)
      → (c ≡ false → Kept k)
      → Kept (if c then m else k)
  choose-Kept true m k hm hk = hm refl
  choose-Kept false m k hm hk = hk refl

  pub choice-Inv :
      {A : Type 0} (c : Bool) (x y : Outcome BotError A × Bot F)
      → Inv x.1
      → Inv y.1
      → Inv (if c then x else y).1
  choice-Inv true x y h k = h
  choice-Inv false x y h k = k

  pub choose_at :
      {A : Type 0} (c : Bool) (m k : Step F A) (b : Bot F)
      → (c ≡ true → Inv (m b).1)
      → (c ≡ false → Inv (k b).1)
      → Inv ((if c then m else k) b).1
  choose_at true m k b hm hk = hm refl
  choose_at false m k b hm hk = hk refl
