-- ===== src/Inventory/Rebalancer/Ends.antt =====
-- Whether the loop of `RebalancePlanner.plan` ends (inventory/rebalancer.py).
use peanut_trade_internship.Base.{
  ℕ, zero, suc, ◌+◌, ◌<◌, String, Bool, true, List, [], ◌∷◌, Option, none, some, ◌≡◌, refl, inl,
  inr, arith, All, length, subst, Bool-cases, if◌then◌else◌,
}
use peanut_trade_internship.Base.Dict.{Dict}
use peanut_trade_internship.Base.Int.{
  ℤ, pos, pos_part, ◌-ℤ◌, ◌≤ℤ◌, ◌<ℤ◌, ltb_ℤ, leb_ℤ, -ℤ_parts, eq_of_parts,
}
use peanut_trade_internship.Base.Float.{Float}
use peanut_trade_internship.Inventory.Tracker.{InventoryTracker}
use peanut_trade_internship.Inventory.Skew.{Skew, skew, amount_at}
use peanut_trade_internship.Inventory.Rebalancer.{
  TransferPlan, Queue, Shares, max_transferable, transfer_amount, transfers, spend, before_rest,
  is_worth, transfer, surplus_of, deficit_of, is_due, plan, excess,
}

-- Every entry has something left.
abbrev pub IsOwed : Queue → Type 0
IsOwed = All (λ e. pos 0 <ℤ e.1)

-- Every venue of the queue holds more than the minimum operating balance.
abbrev pub HasRoom : String → (String → ℤ) → Queue → Type 0
HasRoom asset held = All (λ e. pos 0 <ℤ max_transferable asset (held e.0))

abbrev pub weight : Queue → ℕ
weight [] = 0
weight ((v, amount) ∷ q) = suc (pos_part amount + weight q)

pub spend-IsOwed :
    (t : ℤ) (v : String) (amount : ℤ) (q : Queue) → IsOwed q → IsOwed (spend t v amount q)
spend-IsOwed t v amount q h = elim (Bool-cases (leb_ℤ (amount -ℤ t) (pos 0))) [
  | inl e ↦ rw e h
  | inr e ↦ rw e (ground arith, h)
]

spend-HasRoom :
    (asset : String) (held : String → ℤ) (t : ℤ) (v : String) (amount : ℤ) (q : Queue)
    → HasRoom asset held ((v, amount) ∷ q)
    → HasRoom asset held (spend t v amount q)
spend-HasRoom asset held t v amount q h = elim (Bool-cases (leb_ℤ (amount -ℤ t) (pos 0))) [
  | inl e ↦ rw e h.1
  | inr e ↦ rw e h
]

weight-spend :
    (t : ℤ) (v : String) (amount : ℤ) (q : Queue)
    → pos 0 <ℤ t
    → weight (spend t v amount q) < weight ((v, amount) ∷ q)
weight-spend t v amount q h = ground (arith, -ℤ_parts amount t)

pub transfer_amount_pos :
    (asset : String) (held : String → ℤ) (src : String) (available need : ℤ)
    → pos 0 <ℤ available
    → pos 0 <ℤ need
    → pos 0 <ℤ max_transferable asset (held src)
    → pos 0 <ℤ transfer_amount asset held src available need
transfer_amount_pos asset held src available need h k r = ground arith

before_rest-some :
    (planned : Bool) (p : TransferPlan) (rest : Option (List TransferPlan))
    → (ps : List TransferPlan) × (rest ≡ some ps)
    → (ps : List TransferPlan) × (before_rest planned p rest ≡ some ps)
before_rest-some planned p rest (ps, e) = (if planned then p ∷ ps else ps, rw e)

pub transfers_end :
    (asset : String) (held : String → ℤ) (fuel : ℕ) (surplus deficit : Queue)
    → IsOwed surplus
    → IsOwed deficit
    → HasRoom asset held surplus
    → weight surplus < fuel
    → (ps : List TransferPlan) × (transfers asset held fuel surplus deficit ≡ some ps)
unfolding transfers
transfers_end asset held zero surplus deficit h k r f = absurd (omega arith)
transfers_end asset held (suc fuel) [] deficit h k r f = ([], refl)
transfers_end asset held (suc fuel) (s ∷ surplus) [] h k r f = ([], refl)
transfers_end asset held (suc fuel) ((src, a) ∷ surplus) ((dst, n) ∷ deficit) h k r f =
    let t = transfer_amount asset held src a n in
    before_rest-some (is_worth asset t) (transfer asset src dst t) _ (
      transfers_end asset held fuel (spend t src a surplus) (spend t dst n deficit)
        (spend-IsOwed t src a surplus h.1) (spend-IsOwed t dst n deficit k.1)
        (spend-HasRoom asset held t src a surplus r)
        (omega (
          arith,
          weight-spend t src a surplus (transfer_amount_pos asset held src a n h.0 k.0 r.0),
        )))

less_nothing : (a t : ℤ) → t ≡ pos 0 → a -ℤ t ≡ a
less_nothing a t h = eq_of_parts _ _ (ground (arith, -ℤ_parts a t))

spend_nothing :
    (t : ℤ) (v : String) (b : ℤ) (q : Queue) → t ≡ pos 0 → pos 0 <ℤ b → spend t v b q ≡ (v, b) ∷ q
spend_nothing t v b q e h = rw (less_nothing b t e) (ground arith)

no_transfer :
    (asset : String) (held : String → ℤ) (src : String) (a n : ℤ)
    → pos 0 <ℤ a
    → pos 0 <ℤ n
    → max_transferable asset (held src) ≤ℤ pos 0
    → transfer_amount asset held src a n ≡ pos 0
no_transfer asset held src a n h k r = ground arith

transfers_hang :
    (asset : String) (held : String → ℤ) (fuel : ℕ) (src dst : String) (a n : ℤ)
    (surplus deficit : Queue)
    → pos 0 <ℤ a
    → pos 0 <ℤ n
    → max_transferable asset (held src) ≤ℤ pos 0
    → transfers asset held fuel ((src, a) ∷ surplus) ((dst, n) ∷ deficit) ≡ none
unfolding transfers
transfers_hang asset held zero src dst a n surplus deficit h k r = refl
transfers_hang asset held (suc fuel) src dst a n surplus deficit h k r =
    let none_moves = no_transfer asset held src a n h k r in
    rw (spend_nothing _ src a surplus none_moves h, spend_nothing _ dst n deficit none_moves k)
      (rw (transfers_hang asset held fuel src dst a n surplus deficit h k r) refl)

module _ (F : Float) (share : ℤ → F.Num → ℤ) where
  pub surplus_of-IsOwed :
      (ratios : Option (Dict String F.Num)) (n : ℕ) (sum : ℤ) (venues : Shares F)
      → IsOwed (surplus_of F share ratios n sum venues)
  unfolding surplus_of
  surplus_of-IsOwed ratios n sum [] = tt
  surplus_of-IsOwed ratios n sum ((v, s) ∷ venues) =
      elim (Bool-cases (ltb_ℤ (pos 0) (excess F share ratios n sum v s.amount))) [
        | inl e ↦ rw e (ground arith, surplus_of-IsOwed ratios n sum venues)
        | inr e ↦ rw e (surplus_of-IsOwed ratios n sum venues)
      ]

  pub deficit_of-IsOwed :
      (ratios : Option (Dict String F.Num)) (n : ℕ) (sum : ℤ) (venues : Shares F)
      → IsOwed (deficit_of F share ratios n sum venues)
  unfolding deficit_of
  deficit_of-IsOwed ratios n sum [] = tt
  deficit_of-IsOwed ratios n sum ((v, s) ∷ venues) =
      let delta = excess F share ratios n sum v s.amount in
      elim (Bool-cases (ltb_ℤ delta (pos 0))) [
        | inl e ↦
            rw e (ground (arith, -ℤ_parts (pos 0) delta), deficit_of-IsOwed ratios n sum venues)
        | inr e ↦ rw e (deficit_of-IsOwed ratios n sum venues)
      ]

  -- the queues of `plan`
  abbrev pub surplus : Option (Dict String F.Num) → Skew F → Queue
  surplus ratios s = surplus_of F share ratios (length s.venues) s.total s.venues

  abbrev pub deficit : Option (Dict String F.Num) → Skew F → Queue
  deficit ratios s = deficit_of F share ratios (length s.venues) s.total s.venues

  -- If every venue with a surplus holds more than the minimum operating balance of the asset, then
  -- `plan` returns: one round more than the surplus counted in units, with one for each venue, is
  -- fuel enough.
  pub plan_ends :
      (pct_of : ℤ → ℤ → F.Num) (fuel : ℕ) (ratios : Option (Dict String F.Num)) (threshold : F.Num)
      (asset : String) (t : InventoryTracker)
      → HasRoom asset (amount_at asset t) (surplus ratios (skew F pct_of asset t))
      → weight (surplus ratios (skew F pct_of asset t)) < fuel
      → (ps : List TransferPlan) × (plan F share pct_of fuel ratios threshold asset t ≡ some ps)
  unfolding plan skew
  plan_ends pct_of fuel ratios threshold asset t r f =
      elim (Bool-cases (is_due F share threshold (skew F pct_of asset t))) [
        | inl e ↦ rw e (
            transfers_end asset (amount_at asset t) fuel _ _ (surplus_of-IsOwed ratios _ _ _)
              (deficit_of-IsOwed ratios _ _ _) r f)
        | inr e ↦ ([], rw e)
      ]

  -- If a plan is due, and the first venue with a surplus holds no more than the minimum operating
  -- balance of the asset, then the loop of `plan` goes on for ever, whatever the fuel.
  pub plan_hangs :
      (pct_of : ℤ → ℤ → F.Num) (fuel : ℕ) (ratios : Option (Dict String F.Num)) (threshold : F.Num)
      (asset : String) (t : InventoryTracker) {src dst : String} {a n : ℤ} {ss ds : Queue}
      → is_due F share threshold (skew F pct_of asset t) ≡ true
      → surplus ratios (skew F pct_of asset t) ≡ (src, a) ∷ ss
      → deficit ratios (skew F pct_of asset t) ≡ (dst, n) ∷ ds
      → max_transferable asset (amount_at asset t src) ≤ℤ pos 0
      → plan F share pct_of fuel ratios threshold asset t ≡ none
  unfolding plan skew
  plan_hangs pct_of fuel ratios threshold asset t {src} {dst} {a} {n} {ss} {ds} due s d r =
      rw (due, s, d)
        (transfers_hang asset (amount_at asset t) fuel src dst a n ss ds
          (subst IsOwed s (surplus_of-IsOwed ratios _ _ _)).0
          (subst IsOwed d (deficit_of-IsOwed ratios _ _ _)).0 r)
