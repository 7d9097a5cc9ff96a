-- ===== src/Inventory/Rebalancer.antt =====
-- `RebalancePlanner` of inventory/rebalancer.py. Amounts are integers of 10^-18 coins; `share` is
-- `total * fraction` in that unit. The loop of `plan` has fuel, and `none` means that it ran out.
pub mod Ends
pub mod Sound
pub mod Minimum
mod Tests
use peanut_trade_internship.Base.{
  ℕ, zero, suc, ◌+◌, ◌*◌, ◌^◌, String, str_eq, Bool, true, false, not, ◌&&◌, ◌||◌, ◌==◌, List, [],
  ◌∷◌, Option, none, some, map, if◌then◌else◌, string_eq, length, ltb, is_some,
}
use peanut_trade_internship.Base.Dict.{Dict, lookup, lookup_or, insert}
use peanut_trade_internship.Base.Int.{ℤ, pos, ◌-ℤ◌, ◌+ℤ◌, ltb_ℤ, leb_ℤ, eqb_ℤ, max_ℤ}
use peanut_trade_internship.Base.Float.{Float}
use peanut_trade_internship.Inventory.Tracker.{InventoryTracker}
use peanut_trade_internship.Inventory.Skew.{Skew, VenueShare, skew, amount_at}

-- An entry of `TRANSFER_FEES`.
pub record TransferFee : Type 0 where
  pub withdrawal_fee : ℤ
  pub min_withdrawal : ℤ
  pub estimated_time_min : ℕ

-- n / 10 ^ 4 coins
abbrev pub tenths_of_mill : ℕ → ℤ
tenths_of_mill n = pos (n * 100_000_000_000_000)

abbrev pub transfer_fees : Dict String TransferFee
transfer_fees =
    (
      "ETH",
      record {
        withdrawal_fee = tenths_of_mill 50;
        min_withdrawal = tenths_of_mill 100;
        estimated_time_min = 15;
      },
    )
    ∷ (
      "USDT",
      record {
        withdrawal_fee = tenths_of_mill 10_000;
        min_withdrawal = tenths_of_mill 100_000;
        estimated_time_min = 15;
      },
    )
    ∷ (
      "USDC",
      record {
        withdrawal_fee = tenths_of_mill 10_000;
        min_withdrawal = tenths_of_mill 100_000;
        estimated_time_min = 15;
      },
    )
    ∷ (
      "BTC",
      record {
        withdrawal_fee = tenths_of_mill 5;
        min_withdrawal = tenths_of_mill 10;
        estimated_time_min = 30;
      },
    )
    ∷ []

abbrev pub min_operating_balance : Dict String ℤ
min_operating_balance =
    ("ETH", tenths_of_mill 5_000)
    ∷ ("USDT", tenths_of_mill 5_000_000)
    ∷ ("USDC", tenths_of_mill 5_000_000)
    ∷ ("BTC", tenths_of_mill 100)
    ∷ []

-- `TRANSFER_FEES.get(asset, {})`, each field 0 by default.
abbrev pub fee_info : String → TransferFee
fee_info asset =
    lookup_or asset
      (record { withdrawal_fee = pos 0; min_withdrawal = pos 0; estimated_time_min = 0 })
      transfer_fees

pub record TransferPlan : Type 0 where
  pub from_venue : String
  pub to_venue : String
  pub asset : String
  pub amount : ℤ
  pub estimated_fee : ℤ
  pub estimated_time_min : ℕ

unfoldable pub net_amount : TransferPlan → ℤ
net_amount p = p.amount -ℤ p.estimated_fee

abbrev pub min_ℤ : ℤ → ℤ → ℤ
min_ℤ a b = if ltb_ℤ b a then b else a

-- The venues with too much and those with too little, each with its distance from the target.
abbrev pub Queue : Type 0
Queue = List (String × ℤ)

-- `max_transferable`, of a venue that holds `src_total`.
abbrev pub max_transferable : String → ℤ → ℤ
max_transferable asset src_total =
    max_ℤ (pos 0) (src_total -ℤ lookup_or asset (pos 0) min_operating_balance)

-- The head after a transfer: it leaves the queue once nothing is left.
abbrev pub spend : ℤ → String → ℤ → Queue → Queue
spend t v amount q = let left = amount -ℤ t in if leb_ℤ left (pos 0) then q else (v, left) ∷ q

-- One round of the loop: a transfer that is too small to be worth its fee is not planned.
abbrev pub is_worth : String → ℤ → Bool
is_worth asset t =
    leb_ℤ (fee_info asset).min_withdrawal t && ltb_ℤ (fee_info asset).withdrawal_fee t

abbrev pub transfer : (asset src dst : String) → ℤ → TransferPlan
transfer asset src dst t = record {
  from_venue = src;
  to_venue = dst;
  asset = asset;
  amount = t;
  estimated_fee = (fee_info asset).withdrawal_fee;
  estimated_time_min = (fee_info asset).estimated_time_min;
}

-- `plans.append(...)` before the later rounds.
abbrev pub before_rest :
    Bool → TransferPlan → Option (List TransferPlan) → Option (List TransferPlan)
before_rest planned p none = none
before_rest planned p (some ps) = some (if planned then p ∷ ps else ps)

module _ (asset : String) (held : String → ℤ) where
  -- `min(src_avail, dst_need, max_transferable)`
  abbrev pub transfer_amount : String → ℤ → ℤ → ℤ
  transfer_amount src available need =
      min_ℤ (min_ℤ available need) (max_transferable asset (held src))

  unfoldable pub transfers : ℕ → Queue → Queue → Option (List TransferPlan)
  transfers zero surplus deficit = none
  transfers (suc fuel) [] deficit = some []
  transfers (suc fuel) (s ∷ surplus) [] = some []
  transfers (suc fuel) ((src, available) ∷ surplus) ((dst, need) ∷ deficit) =
      let t = transfer_amount src available need in
      before_rest (is_worth asset t) (transfer asset src dst t)
        (transfers fuel (spend t src available surplus) (spend t dst need deficit))

abbrev pub Shares : Float → Type 0
Shares F = Dict String (VenueShare F)

module _ (F : Float) (share : ℤ → F.Num → ℤ) where
  -- `Decimal("1") / Decimal(str(n))`
  abbrev pub equal_ratio : ℕ → F.Num
  equal_ratio n = F.div (F.literal (pos 1) 0) (F.literal (pos n) 0)

  -- `targets.get(venue_name, 1 / n)`: without given ratios every venue has the default.
  abbrev pub target_of : Option (Dict String F.Num) → ℕ → String → F.Num
  target_of none n venue = equal_ratio n
  target_of (some ratios) n venue = lookup_or venue (equal_ratio n) ratios

  abbrev pub excess : Option (Dict String F.Num) → ℕ → ℤ → String → ℤ → ℤ
  excess ratios n sum venue amount = amount -ℤ share sum (target_of ratios n venue)

  unfoldable pub surplus_of : Option (Dict String F.Num) → ℕ → ℤ → Shares F → Queue
  surplus_of ratios n sum [] = []
  surplus_of ratios n sum ((v, s) ∷ venues) =
      let delta = excess ratios n sum v s.amount in
      if ltb_ℤ (pos 0) delta
      then (v, delta) ∷ surplus_of ratios n sum venues
      else surplus_of ratios n sum venues

  unfoldable pub deficit_of : Option (Dict String F.Num) → ℕ → ℤ → Shares F → Queue
  deficit_of ratios n sum [] = []
  deficit_of ratios n sum ((v, s) ∷ venues) =
      let delta = excess ratios n sum v s.amount in
      if ltb_ℤ delta (pos 0)
      then (v, pos 0 -ℤ delta) ∷ deficit_of ratios n sum venues
      else deficit_of ratios n sum venues

  -- The early returns of `plan`, and its loop.
  unfoldable pub is_due : F.Num → Skew F → Bool
  is_due threshold s =
      not (F.le s.max_deviation_pct threshold)
      && not (eqb_ℤ s.total (pos 0))
      && not (ltb (length s.venues) 2)

  unfoldable pub plan_skew :
      ℕ
      → Option (Dict String F.Num)
      → F.Num
      → Skew F
      → InventoryTracker
      → Option (List TransferPlan)
  unfolding is_due
  plan_skew fuel ratios threshold s t =
      if is_due threshold s
      then transfers s.asset (amount_at s.asset t) fuel
          (surplus_of ratios (length s.venues) s.total s.venues)
          (deficit_of ratios (length s.venues) s.total s.venues)
      else some []

  unfoldable pub plan :
      (ℤ → ℤ → F.Num)
      → ℕ
      → Option (Dict String F.Num)
      → F.Num
      → String
      → InventoryTracker
      → Option (List TransferPlan)
  unfolding plan_skew
  plan pct_of fuel ratios threshold asset t =
      plan_skew fuel ratios threshold (skew F pct_of asset t) t
