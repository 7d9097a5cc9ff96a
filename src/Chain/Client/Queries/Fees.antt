-- ===== src/Chain/Client/Queries/Fees.antt =====
-- The priority fees of `get_gas_price` (chain/client.py).
use peanut_trade_internship.Base.{
  ℕ, zero, suc, List, [], ◌∷◌, Option, none, some, ◌≡◌, refl, ap, ◌∙◌, inl, inr, Outcome-cases,
  arith, All, ok, >>=-eq-ok, ok_values, length, subst,
}
use peanut_trade_internship.Base.Int.{ℤ, ◌≤ℤ◌, int_laws}
use peanut_trade_internship.Chain.Builder.{GasPrice}
use peanut_trade_internship.Chain.Client.Queries.{
  Called, entry_at, column, sum, average, avg_percentile, from_history, get_gas_price, or_else,
  no_rewards,
}

-- Each entry is at most the next one.
abbrev pub IsRising : List ℤ → Type 0
IsRising [] = Unit
IsRising (x ∷ []) = Unit
IsRising (x ∷ y ∷ xs) = (x ≤ℤ y) × IsRising (y ∷ xs)

entry_at_rises :
    (idx : ℕ) (row : List ℤ) {x y : ℤ}
    → IsRising row
    → entry_at idx row ≡ ok x
    → entry_at (suc idx) row ≡ ok y
    → x ≤ℤ y
entry_at_rises idx [] r h k = cc
entry_at_rises zero (a ∷ []) r h k = cc
entry_at_rises zero (a ∷ b ∷ row) {x} {y} r h k =
    let p : a ≡ x = ok_values h in let q : b ≡ y = ok_values k in rw (← p, ← q) r.0
entry_at_rises (suc idx) (a ∷ []) r h k = cc
entry_at_rises (suc idx) (a ∷ b ∷ row) r h k = entry_at_rises idx (b ∷ row) r.1 h k

column_rises :
    (idx : ℕ) (rows : List (List ℤ)) {xs ys : List ℤ}
    → All IsRising rows
    → column idx rows ≡ ok xs
    → column (suc idx) rows ≡ ok ys
    → (sum xs ≤ℤ sum ys) × (length xs ≡ length ys)
unfolding column
column_rises idx [] {xs} {ys} r h k =
    let p : [] ≡ xs = ok_values h in
    let q : [] ≡ ys = ok_values k in rw (← p, ← q) (omega arith, refl)
column_rises idx ([] ∷ rows) r h k = column_rises idx rows r.1 h k
column_rises idx ((a ∷ row) ∷ rows) {xs} {ys} r h k =
    let (x, hx, h') = >>=-eq-ok (entry_at idx (a ∷ row)) _ h in
    let (xs', hxs, h'') = >>=-eq-ok (column idx rows) _ h' in
    let (y, ky, k') = >>=-eq-ok (entry_at (suc idx) (a ∷ row)) _ k in
    let (ys', kys, k'') = >>=-eq-ok (column (suc idx) rows) _ k' in
    let p : x ∷ xs' ≡ xs = ok_values h'' in
    let q : y ∷ ys' ≡ ys = ok_values k'' in
    let first = entry_at_rises idx (a ∷ row) r.0 hx ky in
    let (rest, same) = column_rises idx rows r.1 hxs kys in
    rw (← p, ← q) (omega int_laws, ap suc same)

module _ (quotient : ℤ → ℕ → ℤ)
    (rounds : (a b : ℤ) (n : ℕ) → a ≤ℤ b → quotient a n ≤ℤ quotient b n) where
  average_rises :
      (xs ys : List ℤ)
      → sum xs ≤ℤ sum ys
      → length xs ≡ length ys
      → average quotient xs ≤ℤ average quotient ys
  average_rises [] [] h e = omega arith
  average_rises [] (y ∷ ys) h e = absurd (omega arith)
  average_rises (x ∷ xs) [] h e = absurd (omega arith)
  average_rises (x ∷ xs) (y ∷ ys) h e = rw e (rounds (sum (x ∷ xs)) (sum (y ∷ ys)) _ h)

  percentile_rises :
      (rows : List (List ℤ)) (idx : ℕ) {x y : ℤ}
      → All IsRising rows
      → avg_percentile quotient rows idx ≡ ok x
      → avg_percentile quotient rows (suc idx) ≡ ok y
      → x ≤ℤ y
  percentile_rises rows idx {x} {y} r h k =
      let (xs, hxs, h') = >>=-eq-ok (column idx rows) _ h in
      let (ys, kys, k') = >>=-eq-ok (column (suc idx) rows) _ k in
      let p : average quotient xs ≡ x = ok_values h' in
      let q : average quotient ys ≡ y = ok_values k' in
      let (less, same) = column_rises idx rows r hxs kys in
      rw (← p, ← q) (average_rises xs ys less same)

  -- The three priority fees of a gas price.
  abbrev pub IsOrdered : GasPrice → Type 0
  IsOrdered g =
      (g.priority_fee_low ≤ℤ g.priority_fee_medium) × (g.priority_fee_medium ≤ℤ g.priority_fee_high)

  rewards-IsRising :
      (history : Option (List (List ℤ)))
      → ((rows : List (List ℤ)) → history ≡ some rows → All IsRising rows)
      → All IsRising (or_else no_rewards history)
  rewards-IsRising none h = omega arith
  rewards-IsRising (some rows) h = h rows refl

  from_history-IsOrdered :
      (block : Called (Option ℤ)) (history : Called (Option (List (List ℤ)))) {g : GasPrice}
      → ((rows : List (List ℤ)) → history ≡ ok (some rows) → All IsRising rows)
      → from_history quotient block history ≡ ok g
      → IsOrdered g
  from_history-IsOrdered block history {g} r h =
      let (base, hb, h1) = >>=-eq-ok block _ h in
      let (reward, hr, h2) = >>=-eq-ok history _ h1 in
      let rising =
        rewards-IsRising reward
          (λ rows e. r rows (hr ∙ ap (λ (o : Option (List (List ℤ))). ok o) e)) in
      let (low, hl, h3) = >>=-eq-ok (avg_percentile quotient (or_else no_rewards reward) 0) _ h2 in
      let (medium, hm, h4) =
        >>=-eq-ok (avg_percentile quotient (or_else no_rewards reward) 1) _ h3 in
      let (high, hh, h5) = >>=-eq-ok (avg_percentile quotient (or_else no_rewards reward) 2) _ h4 in
      subst IsOrdered (ok_values h5)
        (percentile_rises _ 0 rising hl hm, percentile_rises _ 1 rising hm hh)

  -- If the rewards of each block in the fee history rise with the percentile, and the rounded
  -- average does not fall when the sum grows, then the priority fees of every gas price that
  -- `get_gas_price` returns, from the history or from its fallback, rise from low to high.
  pub get_gas_price-IsOrdered :
      (block : Called (Option ℤ)) (history : Called (Option (List (List ℤ))))
      (later_block : Called (Option ℤ)) {g : GasPrice}
      → ((rows : List (List ℤ)) → history ≡ ok (some rows) → All IsRising rows)
      → get_gas_price quotient block history later_block ≡ ok g
      → IsOrdered g
  unfolding get_gas_price
  get_gas_price-IsOrdered block history later_block {g} r h =
      elim (Outcome-cases (from_history quotient block history)) [
        | inl (g', e) ↦ from_history-IsOrdered block history r (e ∙ (rw e at h))
        | inr (failure, e) ↦
            let (price, hp, h1) = >>=-eq-ok later_block _ (rw e at h) in
            subst IsOrdered (ok_values h1) (omega arith)
      ]
