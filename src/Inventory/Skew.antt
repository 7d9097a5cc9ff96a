-- ===== src/Inventory/Skew.antt =====
-- `InventoryTracker.skew` of inventory/tracker.py. Percentages are floats, and `pct_of amount total`
-- is `float(amount / total * 100)` for a positive total.
use peanut_trade_internship.Base.{
  ℕ, String, Bool, List, [], ◌∷◌, Option, none, some, if◌then◌else◌, string_eq, length,
}
use peanut_trade_internship.Base.Dict.{Dict, lookup, lookup_or, insert}
use peanut_trade_internship.Base.Int.{ℤ, pos, ◌+ℤ◌, ltb_ℤ}
use peanut_trade_internship.Base.Float.{Float}
use peanut_trade_internship.Inventory.Tracker.{InventoryTracker, Balance, total}

abbrev pub total_of : Option Balance → ℤ
total_of none = pos 0
total_of (some b) = total b

-- `bal.total` of the asset at the venue, 0 without a balance.
unfoldable pub amount_at : String → InventoryTracker → String → ℤ
amount_at asset t venue = total_of (lookup asset (lookup_or venue [] t.balances))

-- The first loop: the sum, and the amount of each venue.
unfoldable pub venue_amounts : (String → ℤ) → List String → ℤ × Dict String ℤ → ℤ × Dict String ℤ
venue_amounts amount [] (sum, d) = (sum, d)
venue_amounts amount (v ∷ vs) (sum, d) =
    venue_amounts amount vs (sum +ℤ amount v, insert v (amount v) d)

module _ (F : Float) where
  open F use {Num}

  pub record VenueShare : Type 0 where
    pub amount : ℤ
    pub pct : Num
    pub deviation_pct : Num

  pub record Skew : Type 0 where
    pub asset : String
    pub total : ℤ
    pub venues : Dict String VenueShare
    pub max_deviation_pct : Num
    pub needs_rebalance : Bool

module _ (F : Float) (pct_of : ℤ → ℤ → F.Num) where
  abbrev nought : F.Num
  nought = F.literal (pos 0) 0

  abbrev pub equal_pct : ℕ → F.Num
  equal_pct n =
      if ltb_ℤ (pos 0) (pos n) then F.div (F.literal (pos 100) 0) (F.literal (pos n) 0) else nought

  -- `abs(pct - equal_pct)`
  abbrev distance : F.Num → F.Num → F.Num
  distance a b = let gap = F.sub a b in if F.lt gap nought then F.sub nought gap else gap

  unfoldable pub venue_share : ℕ → ℤ → ℤ → VenueShare F
  venue_share n sum amount =
      if ltb_ℤ (pos 0) sum
      then record {
        amount = amount;
        pct = pct_of amount sum;
        deviation_pct = distance (pct_of amount sum) (equal_pct n);
      }
      else record { amount = amount; pct = nought; deviation_pct = nought }

  -- The second loop: the share of each venue, and the largest deviation.
  unfoldable pub venue_shares :
      ℕ
      → ℤ
      → Dict String ℤ
      → F.Num × Dict String (VenueShare F)
      → F.Num × Dict String (VenueShare F)
  venue_shares n sum [] (largest, shares) = (largest, shares)
  venue_shares n sum ((v, amount) ∷ d) (largest, shares) =
      let share = venue_share n sum amount in
      venue_shares n sum d (
        if F.lt largest share.deviation_pct then share.deviation_pct else largest,
        insert v share shares,
      )

  unfoldable pub skew : String → InventoryTracker → Skew F
  unfolding venue_amounts venue_shares venue_share amount_at
  skew asset t =
      let (sum, d) = venue_amounts (amount_at asset t) t.venues (pos 0, []) in
      let (largest, shares) = venue_shares (length t.venues) sum d (nought, []) in
      record {
        asset = asset;
        total = sum;
        venues = shares;
        max_deviation_pct = largest;
        needs_rebalance = F.lt (F.literal (pos 30) 0) largest;
      }
