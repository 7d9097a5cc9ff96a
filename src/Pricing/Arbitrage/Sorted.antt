-- ===== src/Pricing/Arbitrage/Sorted.antt =====
-- The answers of `find_circular_arbitrage` of pricing/arbitrage.py.
use peanut_trade_internship.Base.{
  ℕ, suc, List, [], ◌∷◌, ◌≡◌, refl, inl, inr, arith, ok, >>=-eq-ok, ok_values, Bool-cases, All,
  subst,
}
use peanut_trade_internship.Base.Int.{ℤ, ◌≤ℤ◌, ltb_ℤ}
use peanut_trade_internship.Core.Token.{Token}
use peanut_trade_internship.Pricing.Router.{AmmPool, build_graph}
use peanut_trade_internship.Base.Member.{all-IsIn}
use peanut_trade_internship.Pricing.Router.Search.{add_pools-Adjacent}
use peanut_trade_internship.Pricing.Arbitrage.{
  ArbitrageOpportunity, dfs_circular, find_circular_arbitrage, insert_by_gross, sort_by_gross, gwei,
}
use peanut_trade_internship.Pricing.Arbitrage.Circular.{IsCycle, dfs_circular-Finds}

module _ {P : Type 0} where
  All-insert_by_gross :
      (Q : ArbitrageOpportunity P → Type 0) (o : ArbitrageOpportunity P)
      (os : List (ArbitrageOpportunity P))
      → Q o
      → All Q os
      → All Q (insert_by_gross o os)
  unfolding insert_by_gross
  All-insert_by_gross Q o [] h a = (h, tt)
  All-insert_by_gross Q o (x ∷ xs) h a = elim (Bool-cases (ltb_ℤ o.gross_profit x.gross_profit)) [
    | inl e ↦ rw e (a.0, All-insert_by_gross Q o xs h a.1)
    | inr e ↦ rw e (h, a)
  ]

  pub All-sort_by_gross :
      (Q : ArbitrageOpportunity P → Type 0) (os : List (ArbitrageOpportunity P))
      → All Q os
      → All Q (sort_by_gross os)
  unfolding sort_by_gross
  All-sort_by_gross Q [] a = tt
  All-sort_by_gross Q (o ∷ os) a =
      All-insert_by_gross Q o (sort_by_gross os) a.0 (All-sort_by_gross Q os a.1)

  abbrev pub AtMost : ArbitrageOpportunity P → List (ArbitrageOpportunity P) → Type 0
  AtMost o = All (λ x. x.gross_profit ≤ℤ o.gross_profit)

  -- None gains more than one before it.
  abbrev pub IsDescending : List (ArbitrageOpportunity P) → Type 0
  IsDescending [] = Unit
  IsDescending (o ∷ os) = AtMost o os × IsDescending os

  AtMost-trans :
      (o x : ArbitrageOpportunity P) (os : List (ArbitrageOpportunity P))
      → x.gross_profit ≤ℤ o.gross_profit
      → AtMost x os
      → AtMost o os
  AtMost-trans o x [] h a = tt
  AtMost-trans o x (y ∷ ys) h a = (omega arith, AtMost-trans o x ys h a.1)

  insert_by_gross-IsDescending :
      (o : ArbitrageOpportunity P) (os : List (ArbitrageOpportunity P))
      → IsDescending os
      → IsDescending (insert_by_gross o os)
  unfolding insert_by_gross
  insert_by_gross-IsDescending o [] d = (tt, tt)
  insert_by_gross-IsDescending o (x ∷ xs) d =
      elim (Bool-cases (ltb_ℤ o.gross_profit x.gross_profit)) [
        | inl e ↦
            rw e
              (All-insert_by_gross _ o xs (ground arith) d.0, insert_by_gross-IsDescending o xs d.1)
        | inr e ↦ rw e ((ground arith, AtMost-trans o x xs (ground arith) d.0), d)
      ]

  pub sort_by_gross-IsDescending :
      (os : List (ArbitrageOpportunity P)) → IsDescending (sort_by_gross os)
  unfolding sort_by_gross
  sort_by_gross-IsDescending [] = tt
  sort_by_gross-IsDescending (o ∷ os) =
      insert_by_gross-IsDescending o (sort_by_gross os) (sort_by_gross-IsDescending os)

module _ {P E : Type 0} (amm : AmmPool P E) where
  -- Every opportunity that the circular search returns is a cycle from the token back to it, of at
  -- most max_hops swaps (max_hops is at least 1), each in a pool of the detector that trades the token
  -- before it for the one after it, no pool twice; the router's output of this route for the amount is the amount and
  -- the reported profit, which is more than 0; its gas cost is that of the route at the given price;
  -- and no opportunity gains more than one before it.
  pub find_circular_arbitrage-IsCycle :
      (pools : List P) (token : Token) (amount_in gas_price_gwei : ℤ) (left : ℕ)
      (os : List (ArbitrageOpportunity P))
      → find_circular_arbitrage amm pools token amount_in gas_price_gwei (suc left) ≡ ok os
      → All
          (IsCycle amm pools token amount_in
            (gwei gas_price_gwei)
            (suc left)
            token
            []
            []
            (token ∷ []))
          os
        × IsDescending os
  unfolding find_circular_arbitrage
  find_circular_arbitrage-IsCycle pools token amount_in gas_price_gwei left os h =
      let graph = build_graph amm pools in
      let (found, hf, h') =
        >>=-eq-ok
          (dfs_circular amm token amount_in (gwei gas_price_gwei) graph (suc left) token amount_in
            [] [] (token ∷ []))
          _ h in
      let cycles =
        dfs_circular-Finds amm pools token amount_in (gwei gas_price_gwei) graph
          (add_pools-Adjacent amm pools pools [] (all-IsIn pools) (λ a. tt)) left token amount_in []
          [] (token ∷ []) found (λ more after. refl) hf in
      subst
        (λ (xs : List (ArbitrageOpportunity P)).
          All
            (IsCycle amm pools token amount_in (gwei gas_price_gwei) (suc left) token [] []
              (token ∷ []))
            xs
          × IsDescending xs)
        (ok_values h') (All-sort_by_gross _ found cycles, sort_by_gross-IsDescending found)
