-- ===== src/Inventory/Pnl/Totals.antt =====
-- How the figures of a summary agree with each other (inventory/pnl.py).
use peanut_trade_internship.Base.{
  ℕ, List, [], ◌∷◌, ◌≡◌, refl, sym, map, if◌then◌else◌, ◌==◌, select, nat_eq, All, none, some, Bool,
  true, false, arith,
}
use peanut_trade_internship.Base.Dict.{Dict, lookup, lookup_or, insert, lookup_or-insert}
use peanut_trade_internship.Base.Int.{
  ℤ, pos, ◌+ℤ◌, ◌-ℤ◌, ◌≤ℤ◌, max_ℤ, int_laws, eq_of_parts, +ℤ_assoc, +ℤ_comm, add_nothing,
}
use peanut_trade_internship.Base.Float.{Float}
use peanut_trade_internship.Inventory.Pnl.{
  ArbRecord, PnLEngine, summary, net_pnl, gross_pnl, total_fees, sum, sum_from, by_hour, hour,
  max_from, min_from, smaller,
}

sum_from_start : (a : ℤ) (xs : List ℤ) → sum_from a xs ≡ a +ℤ sum xs
sum_from_start a [] = sym (add_nothing a)
sum_from_start a (x ∷ xs) =
    rw
      (sum_from_start (a +ℤ x) xs, sum_from_start (pos 0 +ℤ x) xs, +ℤ_comm (pos 0) x, add_nothing x)
      (+ℤ_assoc a x (sum xs))

sum_first : (x : ℤ) (xs : List ℤ) → sum (x ∷ xs) ≡ x +ℤ sum xs
sum_first x xs = rw (sum_from_start (pos 0 +ℤ x) xs, +ℤ_comm (pos 0) x, add_nothing x) refl

-- The trades of one hour.
abbrev pub in_hour : ℕ → List ArbRecord → List ArbRecord
in_hour h = select (λ t. hour t == h)

abbrev pub sum_values : Dict ℕ ℤ → ℤ
sum_values d = sum (map (λ entry. entry.1) d)

-- More on one summand, or on the rest, is more on the sum.
more_first : (x v : ℤ) (xs : List ℤ) → sum ((x +ℤ v) ∷ xs) ≡ sum (x ∷ xs) +ℤ v
more_first x v xs = rw (sum_first (x +ℤ v) xs, sum_first x xs) (eq_of_parts _ _ (omega int_laws))

more_after : (x v : ℤ) (xs ys : List ℤ) → sum ys ≡ sum xs +ℤ v → sum (x ∷ ys) ≡ sum (x ∷ xs) +ℤ v
more_after x v xs ys h = rw (sum_first x ys, sum_first x xs, h) (eq_of_parts _ _ (omega int_laws))

sum_values-insert :
    (k : ℕ) (v : ℤ) (d : Dict ℕ ℤ)
    → sum_values (insert k (lookup_or k (pos 0) d +ℤ v) d) ≡ sum_values d +ℤ v
sum_values-insert k v [] = eq_of_parts _ _ (omega int_laws)
sum_values-insert k v ((j, w) ∷ d) = insert_head (j == k) (sum_values-insert k v d)
  where
    before : Bool → ℤ
    before b = elim (if b then some w else lookup k d) [ none ↦ pos 0 | some u ↦ u ]

    insert_head :
        (b : Bool)
        → sum_values (insert k (before false +ℤ v) d) ≡ sum_values d +ℤ v
        → sum_values (if b then (j, before b +ℤ v) ∷ d else (j, w) ∷ insert k (before b +ℤ v) d)
          ≡ sum_values ((j, w) ∷ d) +ℤ v
    insert_head true h = more_first w v (map (λ entry. entry.1) d)
    insert_head false h =
        more_after w v (map (λ entry. entry.1) d)
          (map (λ entry. entry.1) (insert k (before false +ℤ v) d)) h

-- The hours add up to what the trades add.
sum_values-by_hour :
    (ts : List ArbRecord) (d : Dict ℕ ℤ)
    → sum_values (by_hour ts d) ≡ sum_values d +ℤ sum (map net_pnl ts)
sum_values-by_hour [] d = sym (add_nothing (sum_values d))
sum_values-by_hour (t ∷ ts) d =
    rw
      (
        sum_values-by_hour ts (insert (hour t) (lookup_or (hour t) (pos 0) d +ℤ net_pnl t) d),
        sum_values-insert (hour t) (net_pnl t) d,
        sum_first (net_pnl t) (map net_pnl ts),
      )
      (+ℤ_assoc (sum_values d) (net_pnl t) (sum (map net_pnl ts)))

one_hour :
    (b : Bool) (h : ℕ) (t : ArbRecord) (ts : List ArbRecord) (d : Dict ℕ ℤ)
    → (b ≡ true → hour t ≡ h)
    → (if b then lookup_or (hour t) (pos 0) d +ℤ net_pnl t else lookup_or h (pos 0) d)
        +ℤ sum (map net_pnl ts)
      ≡ lookup_or h (pos 0) d +ℤ sum (map net_pnl (if b then t ∷ ts else ts))
one_hour true h t ts d same =
    rw (same refl, sum_first (net_pnl t) (map net_pnl ts))
      (+ℤ_assoc (lookup_or h (pos 0) d) (net_pnl t) (sum (map net_pnl ts)))
one_hour false h t ts d same = refl

-- Each hour has the trades of that hour.
lookup_or-by_hour :
    (h : ℕ) (ts : List ArbRecord) (d : Dict ℕ ℤ)
    → lookup_or h (pos 0) (by_hour ts d) ≡ lookup_or h (pos 0) d +ℤ sum (map net_pnl (in_hour h ts))
lookup_or-by_hour h [] d = sym (add_nothing (lookup_or h (pos 0) d))
lookup_or-by_hour h (t ∷ ts) d =
    rw
      (
        lookup_or-by_hour h ts (insert (hour t) (lookup_or (hour t) (pos 0) d +ℤ net_pnl t) d),
        lookup_or-insert (hour t) h (lookup_or (hour t) (pos 0) d +ℤ net_pnl t) (pos 0) d,
      )
      (one_hour (hour t == h) h t (in_hour h ts) d (nat_eq.beq_iff (hour t) h).0)

-- The net amounts are the gross amounts less the fees.
sum-net_pnl :
    (ts : List ArbRecord) → sum (map net_pnl ts) ≡ sum (map gross_pnl ts) -ℤ sum (map total_fees ts)
unfolding net_pnl
sum-net_pnl [] = eq_of_parts _ _ (omega int_laws)
sum-net_pnl (t ∷ ts) =
    rw
      (
        sum_first (gross_pnl t -ℤ total_fees t) (map net_pnl ts),
        sum_first (gross_pnl t) (map gross_pnl ts),
        sum_first (total_fees t) (map total_fees ts),
        sum-net_pnl ts,
      )
      (eq_of_parts _ _ (omega int_laws))

max_from_bounds : (a : ℤ) (xs : List ℤ) → (a ≤ℤ max_from a xs) × All (λ x. x ≤ℤ max_from a xs) xs
max_from_bounds a [] = (omega arith, tt)
max_from_bounds a (x ∷ xs) =
    let rest = max_from_bounds (max_ℤ a x) xs in
    (ground (arith, rest.0), (ground (arith, rest.0), rest.1))

min_from_bounds : (a : ℤ) (xs : List ℤ) → (min_from a xs ≤ℤ a) × All (λ x. min_from a xs ≤ℤ x) xs
min_from_bounds a [] = (omega arith, tt)
min_from_bounds a (x ∷ xs) =
    let rest = min_from_bounds (smaller a x) xs in
    (ground (arith, rest.0), (ground (arith, rest.0), rest.1))

only_hours : (ts : List ArbRecord) → sum_values (by_hour ts []) ≡ sum (map net_pnl ts)
only_hours ts =
    rw (sum_values-by_hour ts [], +ℤ_comm (pos 0) (sum (map net_pnl ts)))
      (add_nothing (sum (map net_pnl ts)))

only_hour :
    (h : ℕ) (ts : List ArbRecord)
    → lookup_or h (pos 0) (by_hour ts []) ≡ sum (map net_pnl (in_hour h ts))
only_hour h ts =
    rw (lookup_or-by_hour h ts [], +ℤ_comm (pos 0) (sum (map net_pnl (in_hour h ts))))
      (add_nothing (sum (map net_pnl (in_hour h ts))))

module _ (F : Float) (float : ℤ → F.Num) (stdev sum_floats : List F.Num → F.Num) where
  -- The summary of any ledger adds up: its profit is the gross profit of all trades less their fees;
  -- the amounts of the hours sum to it, each the net profit of the trades in that hour; and the net
  -- profit of every trade lies between the worst and the best.
  summary_adds_up :
      (trades : PnLEngine)
      → (let s = summary F float stdev sum_floats trades in
          (s.total_pnl_usd ≡ sum (map gross_pnl trades) -ℤ s.total_fees_usd)
          × (sum_values s.pnl_by_hour ≡ s.total_pnl_usd)
          × ((h : ℕ) → lookup_or h (pos 0) s.pnl_by_hour ≡ sum (map net_pnl (in_hour h trades)))
          × All (λ p. s.worst_trade_pnl ≤ℤ p) (map net_pnl trades)
          × All (λ p. p ≤ℤ s.best_trade_pnl) (map net_pnl trades))
  unfolding summary
  summary_adds_up [] = (sum-net_pnl [], refl, λ h. refl, tt, tt)
  summary_adds_up (t ∷ ts) = (
    sum-net_pnl (t ∷ ts),
    only_hours (t ∷ ts),
    λ h. only_hour h (t ∷ ts),
    min_from_bounds (net_pnl t) (map net_pnl ts),
    max_from_bounds (net_pnl t) (map net_pnl ts),
  )
