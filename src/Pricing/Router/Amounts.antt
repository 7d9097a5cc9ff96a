-- ===== src/Pricing/Router/Amounts.antt =====
-- The two walks along a route of pricing/router.py.
use peanut_trade_internship.Base.{
  List, [], ◌∷◌, ◌≡◌, refl, ◌∙◌, Outcome, ok, raised, ◌>>=◌, Outcome-cases, inl, inr,
}
use peanut_trade_internship.Base.Int.{ℤ}
use peanut_trade_internship.Core.Token.{Token}
use peanut_trade_internship.Pricing.Router.{
  AmmPool, RouterError, Route, hop, output_along, amounts_along, get_output,
  get_intermediate_amounts,
}

abbrev pub last_or : ℤ → List ℤ → ℤ
last_or a [] = a
last_or a (b ∷ bs) = last_or b bs

module _ {P E : Type 0} (amm : AmmPool P E) where
  last_of_cons :
      (a b : ℤ) (m : Outcome (RouterError E) (List ℤ))
      → (m >>= λ found. ok (last_or a found))
        ≡ ((m >>= λ found. ok (a ∷ found)) >>= λ found. ok (last_or b found))
  last_of_cons a b (ok found) = refl
  last_of_cons a b (raised e) = refl

  output_along-amounts_along :
      (ps : List P) (ts : List Token) (amount default : ℤ)
      → output_along amm ps ts amount
        ≡ (amounts_along amm ps ts amount >>= λ found. ok (last_or default found))
  unfolding output_along amounts_along
  output_along-amounts_along [] ts amount default = refl
  output_along-amounts_along (p ∷ ps) [] amount default = refl
  output_along-amounts_along (p ∷ ps) (t ∷ ts) amount default =
      elim (Outcome-cases (hop amm p t amount)) [
        | inl (out, paid) ↦ rw paid (
            output_along-amounts_along ps ts out amount
            ∙ last_of_cons amount default (amounts_along amm ps ts out))
        | inr (e, failed) ↦ rw failed refl
      ]

  -- `get_output` is the last of the amounts of `get_intermediate_amounts`, and raises where that
  -- raises, with the same error.
  pub get_output-get_intermediate_amounts :
      (r : Route P) (amount_in : ℤ)
      → get_output amm r amount_in
        ≡ (get_intermediate_amounts amm r amount_in >>= λ found. ok (last_or amount_in found))
  get_output-get_intermediate_amounts r amount_in =
      output_along-amounts_along r.pools r.path amount_in amount_in
