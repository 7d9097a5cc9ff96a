-- ===== src/Pricing/Impact/Largest.antt =====
-- The binary search of `find_max_size_for_impact` (pricing/impact_analyzer.py).
use native.Mathlib.Decide.{dec_le}
use peanut_trade_internship.Base.{
  ℕ, zero, suc, ◌+◌, ◌-◌, ◌/◌, ◌≤◌, ◌<◌, Bool, true, false, leb, Option, some, ◌≡◌, ◌⊎◌, refl, sym,
  inl, inr, arith, Outcome, ok, Bool-cases, subst,
}
use peanut_trade_internship.Base.Int.{pos, leb_ℤ, ◌<ℤ◌}
use peanut_trade_internship.Core.Token.{Token}
use peanut_trade_internship.Pricing.Amm.{Pair, Fraction, reserves_for_token_in}
use peanut_trade_internship.Pricing.Amm.RoundTrip.{get_price_impact_total}
use peanut_trade_internship.Pricing.Impact.{
  ImpactError, search, is_within, hundredth, le_fraction, find_max_size_for_impact,
}

module _ (passes : ℕ → Outcome ImpactError Bool) where
  -- The size is 0 or passes, and it is the top or the next one does not pass. If no size passes above
  -- one that does not, none above it passes.
  pub record IsLargest (top size : ℕ) : Type 0 where
    pub within : size ≤ top
    pub passing : (size ≡ 0) ⊎ (passes size ≡ ok true)
    pub next_fails : (size ≡ top) ⊎ (passes (size + 1) ≡ ok false)
    pub largest :
        ((m n : ℕ) → m ≤ n → passes m ≡ ok false → passes n ≡ ok false)
        → (n : ℕ) → size < n
        → n ≤ top
        → passes n ≡ ok false

  -- What the loop keeps.
  record Halfway (top lo hi best : ℕ) : Type 0 where
    next : lo ≡ best + 1
    in_range : best ≤ hi
    below : hi ≤ top
    passed : (best ≡ 0) ⊎ (passes best ≡ ok true)
    edge : (hi ≡ top) ⊎ (passes (hi + 1) ≡ ok false)
    failed :
        ((m n : ℕ) → m ≤ n → passes m ≡ ok false → passes n ≡ ok false)
        → (n : ℕ) → hi < n
        → n ≤ top
        → passes n ≡ ok false

  abbrev middle : ℕ → ℕ → ℕ
  middle lo hi = (lo + hi) / 2

  search_done :
      (fuel lo hi best : ℕ) → hi < lo → search passes (suc fuel) lo hi best ≡ some (ok best)
  unfolding search
  search_done fuel lo hi best h = let e : leb lo hi ≡ false = ground arith in rw (e, search) refl

  search_up :
      (fuel lo hi best : ℕ)
      → lo ≤ hi
      → passes (middle lo hi) ≡ ok true
      → search passes (suc fuel) lo hi best
        ≡ search passes fuel (middle lo hi + 1) hi (middle lo hi)
  unfolding search
  search_up fuel lo hi best h k =
      let e : leb lo hi ≡ true = ground arith in rw (e, search) (rw k refl)

  search_down :
      (fuel lo hi best : ℕ)
      → lo ≤ hi
      → passes (middle lo hi) ≡ ok false
      → search passes (suc fuel) lo hi best ≡ search passes fuel lo (middle lo hi - 1) best
  unfolding search
  search_down fuel lo hi best h k =
      let e : leb lo hi ≡ true = ground arith in rw (e, search) (rw k refl)

  up-Halfway :
      (top lo hi best : ℕ)
      → Halfway top lo hi best
      → lo ≤ hi
      → passes (middle lo hi) ≡ ok true
      → Halfway top (middle lo hi + 1) hi (middle lo hi)
  up-Halfway top lo hi best h le k = record {
    next = refl;
    in_range = omega arith;
    below = h.below;
    passed = inr k;
    edge = h.edge;
    failed = h.failed;
  }

  down-Halfway :
      (top lo hi best : ℕ)
      → Halfway top lo hi best
      → lo ≤ hi
      → passes (middle lo hi) ≡ ok false
      → Halfway top lo (middle lo hi - 1) best
  down-Halfway top lo hi best h le k =
      let next = h.next in
      record {
        next = h.next;
        in_range = omega arith;
        below = let b = h.below in omega arith;
        passed = h.passed;
        edge =
            let back : middle lo hi ≡ middle lo hi - 1 + 1 = omega arith in
            inr (subst (λ n. passes n ≡ ok false) back k);
        failed = λ up n above n_top. up (middle lo hi) n (omega arith) k;
      }

  done-IsLargest : (top lo hi best : ℕ) → Halfway top lo hi best → hi < lo → IsLargest top best
  done-IsLargest top lo hi best h e =
      let next = h.next in
      let r = h.in_range in
      record {
        within = let b = h.below in omega arith;
        passing = h.passed;
        next_fails =
            let same : hi ≡ best = omega arith in
            subst (λ n. (n ≡ top) ⊎ (passes (n + 1) ≡ ok false)) same h.edge;
        largest = λ up n above n_top. h.failed up n (omega arith) n_top;
      }

  abbrev Searched : ℕ → Option (Outcome ImpactError ℕ) → Type 0
  Searched top o = (size : ℕ) × (o ≡ some (ok size)) × IsLargest top size

  search-IsLargest :
      (top : ℕ)
      → ((n : ℕ) → 0 < n → n ≤ top → (b : Bool) × (passes n ≡ ok b))
      → (fuel lo hi best : ℕ) → Halfway top lo hi best
      → hi + 1 - lo < fuel
      → Searched top (search passes fuel lo hi best)
  search-IsLargest top answers zero lo hi best h f = absurd (omega arith)
  search-IsLargest top answers (suc fuel) lo hi best h f = elim (dec_le lo hi) [
    | no gt ↦
        let lt : hi < lo = omega arith in
        (best, search_done fuel lo hi best lt, done-IsLargest top lo hi best h lt)
    | yes le ↦
        let next = h.next in
        let below = h.below in
        let (b, known) = answers (middle lo hi) (omega arith) (omega arith) in
        elim (Bool-cases b) [
          | inl y ↦
              let good : passes (middle lo hi) ≡ ok true = rw y at known in
              subst (Searched top) (sym (search_up fuel lo hi best le good)) (
                search-IsLargest top answers fuel (middle lo hi + 1) hi (middle lo hi)
                  (up-Halfway top lo hi best h le good) (omega arith))
          | inr y ↦
              let bad : passes (middle lo hi) ≡ ok false = rw y at known in
              subst (Searched top) (sym (search_down fuel lo hi best le bad)) (
                search-IsLargest top answers fuel lo (middle lo hi - 1) best
                  (down-Halfway top lo hi best h le bad) (omega arith))
        ]
  ]

is_within_total :
    (p : Pair) (t : Token) (limit : Fraction) {reserves : ℕ × ℕ}
    → reserves_for_token_in p t ≡ ok reserves
    → (n : ℕ) → 0 < n
    → (b : Bool) × (is_within p t limit n ≡ ok b)
is_within_total p t limit known n h =
    let (impact, e) = get_price_impact_total p n t h known in (le_fraction impact limit, rw e refl)

-- For a token of the pair and a positive limit, the binary search ends, with one round more of fuel
-- than half of the reserve of the token, and without an error. The size that it returns is at most half
-- of the reserve; it is 0 or has an impact within the limit; and it is half of the reserve or the next
-- size is not within the limit. If the impact is monotone, in that no size is within the limit above
-- one that is not, then no size above the returned one, up to half of the reserve, is within it.
pub find_max_size_for_impact-IsLargest :
    (fuel : ℕ) (p : Pair) (t : Token) (max_impact_pct : Fraction) {reserves : ℕ × ℕ}
    → pos 0 <ℤ max_impact_pct.num
    → reserves_for_token_in p t ≡ ok reserves
    → reserves.0 / 2 < fuel
    → (size : ℕ) × (find_max_size_for_impact fuel p t max_impact_pct ≡ some (ok size))
      × IsLargest (is_within p t (hundredth max_impact_pct)) (reserves.0 / 2) size
unfolding find_max_size_for_impact
find_max_size_for_impact-IsLargest fuel p t max_impact_pct {reserves} h known f =
    let positive : leb_ℤ max_impact_pct.num (pos 0) ≡ false = ground arith in
    let limit = hundredth max_impact_pct in
    let (size, found, largest) =
      search-IsLargest (is_within p t limit) (reserves.0 / 2)
        (λ n lo hi. is_within_total p t limit known n lo) fuel 1 (reserves.0 / 2) 0
        (record {
          next = omega arith;
          in_range = omega arith;
          below = omega arith;
          passed = inl refl;
          edge = inl refl;
          failed = λ up n above n_top. absurd (omega arith);
        })
        (omega arith) in
    (size, rw (positive, known) found, largest)
