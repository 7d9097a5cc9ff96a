-- ===== src/Inventory/Rebalancer/Minimum.antt =====
-- The minimum operating balance over several rounds of `RebalancePlanner.plan`
-- (inventory/rebalancer.py): the limit of a round does not count what earlier rounds take.
use peanut_trade_internship.Base.{
  ℕ, suc, String, true, List, [], ◌∷◌, Option, some, ◌≡◌, refl, ap, ◌∙◌, arith, str_eq_iff,
  string_eq,
}
use peanut_trade_internship.Base.Dict.{Dict, lookup_or}
use peanut_trade_internship.Base.Int.{
  ℤ, pos, ◌+ℤ◌, ◌-ℤ◌, ◌≤ℤ◌, ◌<ℤ◌, -ℤ_parts, +ℤ_parts, eq_of_parts, max_ℤ,
}
use peanut_trade_internship.Base.Float.{Float}
use peanut_trade_internship.Inventory.Tracker.{InventoryTracker}
use peanut_trade_internship.Inventory.Skew.{skew, amount_at}
use peanut_trade_internship.Inventory.Rebalancer.{
  TransferPlan, Queue, max_transferable, transfer_amount, transfers, spend, before_rest, is_worth,
  transfer, is_due, plan, min_operating_balance,
}
use peanut_trade_internship.Inventory.Rebalancer.Ends.{surplus, deficit}
use peanut_trade_internship.Inventory.Rebalancer.Sound.{sent}

one_round :
    (asset : String) (held : String → ℤ) (fuel : ℕ) (src dst : String) (a n t : ℤ)
    (ss ds ss' ds' : Queue)
    → transfer_amount asset held src a n ≡ t
    → spend t src a ss ≡ ss'
    → spend t dst n ds ≡ ds'
    → is_worth asset t ≡ true
    → transfers asset held (suc fuel) ((src, a) ∷ ss) ((dst, n) ∷ ds)
      ≡ before_rest true (transfer asset src dst t) (transfers asset held fuel ss' ds')
unfolding transfers
one_round asset held fuel src dst a n t ss ds ss' ds' e p q w = rw (e, p, q, w) refl

room_first :
    (asset : String) (held : String → ℤ) (src : String) (a : ℤ)
    → max_transferable asset (held src) <ℤ a
    → transfer_amount asset held src a a ≡ max_transferable asset (held src)
room_first asset held src a less = ground arith

rest_next :
    (asset : String) (held : String → ℤ) (src : String) (a : ℤ)
    → a ≤ℤ max_transferable asset (held src)
    → transfer_amount asset held src a a ≡ a
rest_next asset held src a less = ground arith

spend_part : (v : String) (r a : ℤ) → r <ℤ a → spend r v a [] ≡ (v, a -ℤ r) ∷ []
spend_part v r a less = ground (arith, -ℤ_parts a r)

spend_all : (v : String) (a : ℤ) → spend a v a [] ≡ []
spend_all v a = ground (arith, -ℤ_parts a a)

-- The room of a venue is used up in the first round, and again in the second.
transfers_twice :
    (asset : String) (held : String → ℤ) (fuel : ℕ) (src dst : String) (a r : ℤ)
    → max_transferable asset (held src) ≡ r
    → r <ℤ a
    → a -ℤ r ≤ℤ r
    → is_worth asset r ≡ true
    → is_worth asset (a -ℤ r) ≡ true
    → transfers asset held (suc (suc (suc fuel))) ((src, a) ∷ []) ((dst, a) ∷ [])
      ≡ some (transfer asset src dst r ∷ transfer asset src dst (a -ℤ r) ∷ [])
transfers_twice asset held fuel src dst a r room less again w w' =
    let first =
      one_round asset held (suc (suc fuel)) src dst a a r [] [] _ _
        (room_first asset held src a (rw room less) ∙ room) (spend_part src r a less)
        (spend_part dst r a less) w in
    let second =
      one_round asset held (suc fuel) src dst (a -ℤ r) (a -ℤ r) (a -ℤ r) [] [] _ _
        (rest_next asset held src (a -ℤ r) (rw room again)) (spend_all src (a -ℤ r))
        (spend_all dst (a -ℤ r)) w' in
    first ∙ ap (before_rest true (transfer asset src dst r)) (second ∙ no_more)
  where
    no_more :
        before_rest true (transfer asset src dst (a -ℤ r)) (transfers asset held (suc fuel) [] [])
        ≡ some (transfer asset src dst (a -ℤ r) ∷ [])
    no_more = unfold transfers in refl

sum_of_two : (a r : ℤ) → r +ℤ ((a -ℤ r) +ℤ pos 0) ≡ a
sum_of_two a r =
    eq_of_parts _ _
      (omega (arith, -ℤ_parts a r, +ℤ_parts (a -ℤ r) (pos 0), +ℤ_parts r ((a -ℤ r) +ℤ pos 0)))

left_below : (all minimum a : ℤ) → max_ℤ (pos 0) (all -ℤ minimum) <ℤ a → all -ℤ a <ℤ minimum
left_below all minimum a h = ground (arith, -ℤ_parts all minimum, -ℤ_parts all a)

module _ (F : Float) (share : ℤ → F.Num → ℤ) where
  -- If a plan is due between one venue with a surplus and one with an equal deficit, the surplus is
  -- more than the venue can give above the minimum operating balance but not more than twice that,
  -- and both parts are worth their fee, then `plan` takes the whole surplus in two transfers and
  -- leaves the venue less than the minimum operating balance.
  plan_breaks_minimum :
      (pct_of : ℤ → ℤ → F.Num) (fuel : ℕ) (ratios : Option (Dict String F.Num)) (threshold : F.Num)
      (asset : String) (t : InventoryTracker) {src dst : String} {a : ℤ} (r : ℤ)
      → is_due F share threshold (skew F pct_of asset t) ≡ true
      → surplus F share ratios (skew F pct_of asset t) ≡ (src, a) ∷ []
      → deficit F share ratios (skew F pct_of asset t) ≡ (dst, a) ∷ []
      → max_transferable asset (amount_at asset t src) ≡ r
      → r <ℤ a
      → a -ℤ r ≤ℤ r
      → is_worth asset r ≡ true
      → is_worth asset (a -ℤ r) ≡ true
      → (ps : List TransferPlan) × (plan F share pct_of
            (suc (suc (suc fuel)))
            ratios
            threshold
            asset
            t
          ≡ some ps)
        × (amount_at asset t src -ℤ sent src ps <ℤ lookup_or asset (pos 0) min_operating_balance)
  unfolding plan skew
  plan_breaks_minimum pct_of fuel ratios threshold asset t {src} {dst} {a} r due s d room less again
        w w' =
      (
        transfer asset src dst r ∷ transfer asset src dst (a -ℤ r) ∷ [],
        rw (due, s, d)
            (transfers_twice asset (amount_at asset t) fuel src dst a r room less again w w'),
        rw ((str_eq_iff src src).1 refl, sum_of_two a r)
            (left_below (amount_at asset t src) _ a (rw room less)),
      )
