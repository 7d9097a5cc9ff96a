-- ===== src/Inventory/Rebalancer/Sound.antt =====
-- What the transfers of `RebalancePlanner.plan` move (inventory/rebalancer.py).
use peanut_trade_internship.Base.{
  ℕ, zero, suc, String, str_eq, Bool, true, false, List, [], ◌∷◌, Option, none, some, ◌≡◌, refl,
  inl, inr, arith, All, Bool-cases, if◌then◌else◌, subst,
}
use peanut_trade_internship.Base.Dict.{Dict}
use peanut_trade_internship.Base.Int.{
  ℤ, pos, ◌+ℤ◌, ◌-ℤ◌, ◌≤ℤ◌, ◌<ℤ◌, leb_ℤ, -ℤ_parts, +ℤ_parts, int_laws,
}
use peanut_trade_internship.Base.Float.{Float}
use peanut_trade_internship.Inventory.Tracker.{InventoryTracker}
use peanut_trade_internship.Inventory.Skew.{skew, amount_at}
use peanut_trade_internship.Inventory.Rebalancer.{
  TransferPlan, Queue, max_transferable, transfer_amount, transfers, spend, before_rest, is_worth,
  transfer, net_amount, fee_info, is_due, plan,
}
use peanut_trade_internship.Inventory.Rebalancer.Ends.{
  IsOwed, spend-IsOwed, surplus, deficit, surplus_of-IsOwed, deficit_of-IsOwed,
}

-- What the queue holds for a venue.
abbrev pub owed : String → Queue → ℤ
owed v [] = pos 0
owed v ((w, amount) ∷ q) = (if str_eq w v then amount else pos 0) +ℤ owed v q

-- What the transfers take from a venue, and what they bring there.
abbrev pub sent : String → List TransferPlan → ℤ
sent v [] = pos 0
sent v (p ∷ ps) = (if str_eq p.from_venue v then p.amount else pos 0) +ℤ sent v ps

abbrev pub received : String → List TransferPlan → ℤ
received v [] = pos 0
received v (p ∷ ps) = (if str_eq p.to_venue v then p.amount else pos 0) +ℤ received v ps

-- A transfer of the asset that is worth its fee, and that alone leaves its venue the minimum
-- operating balance.
pub record IsFair (asset : String) (held : String → ℤ) (p : TransferPlan) : Type 0 where
  pub of_asset : p.asset ≡ asset
  pub at_least : (fee_info asset).min_withdrawal ≤ℤ p.amount
  pub arrives : pos 0 <ℤ net_amount p
  pub leaves : p.amount ≤ℤ max_transferable asset (held p.from_venue)

-- All that is claimed of the transfers for two queues.
pub record Moves (asset : String) (held : String → ℤ) (surplus deficit : Queue)
    (ps : List TransferPlan) : Type 0 where
  pub fair : All (IsFair asset held) ps
  pub within_surplus : (v : String) → sent v ps ≤ℤ owed v surplus
  pub within_deficit : (v : String) → received v ps ≤ℤ owed v deficit

owed-nonneg : (v : String) (q : Queue) → IsOwed q → pos 0 ≤ℤ owed v q
owed-nonneg v [] h = omega arith
owed-nonneg v ((w, amount) ∷ q) h =
    ground (arith, owed-nonneg v q h.1, +ℤ_parts (if str_eq w v then amount else pos 0) (owed v q))

all_left :
    (c : Bool) (t amount rest : ℤ)
    → t ≤ℤ amount
    → (if c then t else pos 0) +ℤ rest ≤ℤ (if c then amount else pos 0) +ℤ rest
all_left true t amount rest le = omega int_laws
all_left false t amount rest le = omega int_laws

some_left :
    (c : Bool) (t amount rest : ℤ)
    → (if c then t else pos 0) +ℤ ((if c then amount -ℤ t else pos 0) +ℤ rest)
      ≤ℤ (if c then amount else pos 0) +ℤ rest
some_left true t amount rest = omega int_laws
some_left false t amount rest = omega int_laws

-- Spending from the head takes as much from what is owed.
owed-spend :
    (t : ℤ) (v w : String) (amount : ℤ) (q : Queue)
    → t ≤ℤ amount
    → (if str_eq w v then t else pos 0) +ℤ owed v (spend t w amount q) ≤ℤ owed v ((w, amount) ∷ q)
owed-spend t v w amount q le = elim (Bool-cases (leb_ℤ (amount -ℤ t) (pos 0))) [
  | inl e ↦ rw e (all_left (str_eq w v) t amount (owed v q) le)
  | inr e ↦ rw e (some_left (str_eq w v) t amount (owed v q))
]

add_moved :
    (c : Bool) (t moved rest all : ℤ)
    → moved ≤ℤ rest
    → (if c then t else pos 0) +ℤ rest ≤ℤ all
    → (if c then t else pos 0) +ℤ moved ≤ℤ all
add_moved true t moved rest all h k = omega int_laws
add_moved false t moved rest all h k = omega int_laws

not_moved :
    (c : Bool) (t moved rest all : ℤ)
    → pos 0 ≤ℤ t
    → moved ≤ℤ rest
    → (if c then t else pos 0) +ℤ rest ≤ℤ all
    → moved ≤ℤ all
not_moved true t moved rest all z h k = omega int_laws
not_moved false t moved rest all z h k = omega int_laws

transfer_amount_bounds :
    (asset : String) (held : String → ℤ) (src : String) (a n : ℤ)
    → pos 0 <ℤ a
    → pos 0 <ℤ n
    → (pos 0 ≤ℤ transfer_amount asset held src a n)
      × (transfer_amount asset held src a n ≤ℤ a)
      × (transfer_amount asset held src a n ≤ℤ n)
      × (transfer_amount asset held src a n ≤ℤ max_transferable asset (held src))
transfer_amount_bounds asset held src a n h k =
    (ground arith, ground arith, ground arith, ground arith)

transfer-IsFair :
    (asset : String) (held : String → ℤ) (src dst : String) (t : ℤ)
    → is_worth asset t ≡ true
    → t ≤ℤ max_transferable asset (held src)
    → IsFair asset held (transfer asset src dst t)
unfolding net_amount
transfer-IsFair asset held src dst t w le = record {
  of_asset = refl;
  at_least = ground arith;
  arrives = ground (arith, -ℤ_parts t (fee_info asset).withdrawal_fee);
  leaves = le;
}

-- One round before the others.
round-Moves :
    (asset : String) (held : String → ℤ) (src dst : String) (a n t : ℤ) (ss ds : Queue)
    (ps : List TransferPlan)
    → pos 0 ≤ℤ t
    → t ≤ℤ a
    → t ≤ℤ n
    → t ≤ℤ max_transferable asset (held src)
    → Moves asset held (spend t src a ss) (spend t dst n ds) ps
    → Moves asset held
        ((src, a) ∷ ss)
        ((dst, n) ∷ ds)
        (if is_worth asset t then transfer asset src dst t ∷ ps else ps)
round-Moves asset held src dst a n t ss ds ps z la ln lr m = elim (Bool-cases (is_worth asset t)) [
  | inl w ↦ rw w (record {
    fair = (transfer-IsFair asset held src dst t w lr, m.fair);
    within_surplus =
        λ v. add_moved (str_eq src v) t _ _ _ (m.within_surplus v) (owed-spend t v src a ss la);
    within_deficit =
        λ v. add_moved (str_eq dst v) t _ _ _ (m.within_deficit v) (owed-spend t v dst n ds ln);
  })
  | inr w ↦ rw w (record {
    fair = m.fair;
    within_surplus =
        λ v. not_moved (str_eq src v) t _ _ _ z (m.within_surplus v) (owed-spend t v src a ss la);
    within_deficit =
        λ v. not_moved (str_eq dst v) t _ _ _ z (m.within_deficit v) (owed-spend t v dst n ds ln);
  })
]

before_rest-eq-some :
    (planned : Bool) (p : TransferPlan) (rest : Option (List TransferPlan)) {ps : List TransferPlan}
    → before_rest planned p rest ≡ some ps
    → (qs : List TransferPlan) × (rest ≡ some qs) × ((if planned then p ∷ qs else qs) ≡ ps)
before_rest-eq-some planned p none h = cc
before_rest-eq-some planned p (some qs) h = (qs, refl, cc)

nothing-Moves :
    (asset : String) (held : String → ℤ) (ss ds : Queue) {ps : List TransferPlan}
    → IsOwed ss
    → IsOwed ds
    → ◌≡◌ {A = Option (List TransferPlan)} (some []) (some ps)
    → Moves asset held ss ds ps
nothing-Moves asset held ss ds {ps} h k e =
    let e' : [] ≡ ps = cc in
    subst (Moves asset held ss ds) e' (record {
      fair = tt;
      within_surplus = λ v. owed-nonneg v ss h;
      within_deficit = λ v. owed-nonneg v ds k;
    })

transfers-Moves :
    (asset : String) (held : String → ℤ) (fuel : ℕ) (ss ds : Queue) {ps : List TransferPlan}
    → IsOwed ss
    → IsOwed ds
    → transfers asset held fuel ss ds ≡ some ps
    → Moves asset held ss ds ps
unfolding transfers
transfers-Moves asset held zero ss ds h k e = cc
transfers-Moves asset held (suc fuel) [] ds h k e = nothing-Moves asset held [] ds h k e
transfers-Moves asset held (suc fuel) (s ∷ ss) [] h k e = nothing-Moves asset held (s ∷ ss) [] h k e
transfers-Moves asset held (suc fuel) ((src, a) ∷ ss) ((dst, n) ∷ ds) h k e =
    let t = transfer_amount asset held src a n in
    let (z, la, ln, lr) = transfer_amount_bounds asset held src a n h.0 k.0 in
    let (qs, later, whole) = before_rest-eq-some _ _ _ e in
    subst (Moves asset held _ _) whole (
      round-Moves asset held src dst a n t ss ds qs z la ln lr (
        transfers-Moves asset held fuel (spend t src a ss) (spend t dst n ds)
          (spend-IsOwed t src a ss h.1) (spend-IsOwed t dst n ds k.1) later))

module _ (F : Float) (share : ℤ → F.Num → ℤ) where
  -- Every transfer of a plan is of its asset, is at least the minimum withdrawal, arrives with more
  -- than nothing after the fee, and by itself leaves its venue the minimum operating balance. All
  -- transfers together take from no venue more than its surplus over its target, and bring to no
  -- venue more than its deficit.
  pub plan-Moves :
      (pct_of : ℤ → ℤ → F.Num) (fuel : ℕ) (ratios : Option (Dict String F.Num)) (threshold : F.Num)
      (asset : String) (t : InventoryTracker) {ps : List TransferPlan}
      → plan F share pct_of fuel ratios threshold asset t ≡ some ps
      → Moves asset
          (amount_at asset t)
          (surplus F share ratios (skew F pct_of asset t))
          (deficit F share ratios (skew F pct_of asset t))
          ps
  unfolding plan skew
  plan-Moves pct_of fuel ratios threshold asset t h =
      let s = surplus_of-IsOwed F share ratios _ _ _ in
      let d = deficit_of-IsOwed F share ratios _ _ _ in
      elim (Bool-cases (is_due F share threshold (skew F pct_of asset t))) [
        | inl e ↦ transfers-Moves asset (amount_at asset t) fuel _ _ s d (rw e at h)
        | inr e ↦ nothing-Moves asset (amount_at asset t) _ _ s d (rw e at h)
      ]
