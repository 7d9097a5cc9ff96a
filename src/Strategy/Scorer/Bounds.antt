-- ===== src/Strategy/Scorer/Bounds.antt =====
-- The range of `SignalScorer.score` (strategy/scorer.py).
use peanut_trade_internship.Base.{true, false, List, ◌≡◌, refl, inl, inr, Bool-cases}
use peanut_trade_internship.Base.Float.{Float}
use peanut_trade_internship.Strategy.Signal.{Signal}
use peanut_trade_internship.Inventory.Skew.{Skew}
use peanut_trade_internship.Strategy.Scorer.{SignalScorer, score, clamp, whole}

module _ (F : Float) where
  -- x is not below 0 and not above 100.
  abbrev pub InRange : F.Num → Type 0
  InRange x = (F.lt x (whole F 0) ≡ false) × (F.lt (whole F 100) x ≡ false)

  not_below_itself :
      ((x y : F.Num) → F.lt x y ≡ true → F.lt y x ≡ false) → (x : F.Num) → F.lt x x ≡ false
  not_below_itself asym x = elim (Bool-cases (F.lt x x)) [ inl e ↦ asym x x e | inr e ↦ e ]

  clamp-InRange :
      ((x y : F.Num) → F.lt x y ≡ true → F.lt y x ≡ false)
      → F.lt (whole F 0) (whole F 100) ≡ true
      → (x : F.Num) → InRange (clamp F x)
  clamp-InRange asym apart x = elim (Bool-cases (F.lt x (whole F 100))) [
    | inl low ↦ elim (Bool-cases (F.lt (whole F 0) x)) [
      | inl high ↦ rw (low, high) (asym _ _ high, asym _ _ low)
      | inr not_high ↦ rw (low, not_high) (not_below_itself asym _, asym _ _ apart)
    ]
    | inr not_low ↦ rw (not_low, apart) (asym _ _ apart, not_below_itself asym _)
  ]

  -- If no two floats are below each other, 0 is below 100 and rounding to one place leaves no number
  -- of this range below 0 or above 100, then the score of every signal lies between 0 and 100, also
  -- where a component is not a number, and it is the score that the signal then bears.
  pub score-InRange :
      ((x y : F.Num) → F.lt x y ≡ true → F.lt y x ≡ false)
      → F.lt (whole F 0) (whole F 100) ≡ true
      → (round1 : F.Num → F.Num) → ((x : F.Num) → InRange x → InRange (round1 x))
      → (s : SignalScorer F) (signal : Signal F) (inventory_state : List (Skew F))
      → InRange (score F round1 s signal inventory_state).0
        × ((score F round1 s signal inventory_state).1.score
            ≡ (score F round1 s signal inventory_state).0)
  unfolding score
  score-InRange asym apart round1 rounds s signal inventory_state =
      (rounds _ (clamp-InRange asym apart _), refl)
