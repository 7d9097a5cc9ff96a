-- ===== src/Inventory/Snapshot.antt =====
-- `InventoryTracker.snapshot` of inventory/tracker.py, without its time.
use peanut_trade_internship.Base.{
  String, Bool, true, false, [], ◌∷◌, ◌≡◌, refl, sym, if◌then◌else◌, string_eq, str_eq, str_eq_iff,
}
use peanut_trade_internship.Base.Dict.{Dict, lookup_or, insert, lookup_or-insert}
use peanut_trade_internship.Base.Int.{ℤ, pos, ◌+ℤ◌, +ℤ_assoc, add_nothing}
use peanut_trade_internship.Inventory.Tracker.{InventoryTracker, Balance, Balances, total}

pub record Line : Type 0 where
  pub free : ℤ
  pub locked : ℤ
  pub total_of : ℤ

pub record Portfolio : Type 0 where
  pub venues : Dict String (Dict String Line)
  pub totals : Dict String ℤ

abbrev lines_of : Balances → Dict String Line → Dict String Line
lines_of [] d = d
lines_of ((asset, b) ∷ bs) d =
    lines_of bs (insert asset (record { free = b.free; locked = b.locked; total_of = total b }) d)

abbrev venues_of :
    Dict String Balances → Dict String (Dict String Line) → Dict String (Dict String Line)
venues_of [] d = d
venues_of ((venue, assets) ∷ venues) d = venues_of venues (insert venue (lines_of assets []) d)

-- `totals[asset] = totals.get(asset, 0) + bal.total`, for each asset of a venue.
abbrev add_assets : Balances → Dict String ℤ → Dict String ℤ
add_assets [] d = d
add_assets ((asset, b) ∷ bs) d =
    add_assets bs (insert asset (lookup_or asset (pos 0) d +ℤ total b) d)

abbrev add_venues : Dict String Balances → Dict String ℤ → Dict String ℤ
add_venues [] d = d
add_venues ((venue, assets) ∷ venues) d = add_venues venues (add_assets assets d)

unfoldable pub snapshot : InventoryTracker → Portfolio
snapshot t = record { venues = venues_of t.balances []; totals = add_venues t.balances [] }

-- What a venue holds of an asset, and what all of them hold.
abbrev at_venue : String → Balances → ℤ
at_venue asset [] = pos 0
at_venue asset ((other, b) ∷ bs) =
    let rest = at_venue asset bs in if str_eq other asset then total b +ℤ rest else rest

abbrev everywhere : String → Dict String Balances → ℤ
everywhere asset [] = pos 0
everywhere asset ((venue, assets) ∷ venues) = at_venue asset assets +ℤ everywhere asset venues

one_asset :
    (c : Bool) (asset other : String) (b : Balance) (rest : ℤ) (d : Dict String ℤ)
    → (c ≡ true → other ≡ asset)
    → (if c then lookup_or other (pos 0) d +ℤ total b else lookup_or asset (pos 0) d) +ℤ rest
      ≡ lookup_or asset (pos 0) d +ℤ (if c then total b +ℤ rest else rest)
one_asset true asset other b rest d same =
    rw (same refl) (+ℤ_assoc (lookup_or asset (pos 0) d) (total b) rest)
one_asset false asset other b rest d same = refl

lookup_or-add_assets :
    (asset : String) (bs : Balances) (d : Dict String ℤ)
    → lookup_or asset (pos 0) (add_assets bs d) ≡ lookup_or asset (pos 0) d +ℤ at_venue asset bs
lookup_or-add_assets asset [] d = sym (add_nothing (lookup_or asset (pos 0) d))
lookup_or-add_assets asset ((other, b) ∷ bs) d =
    rw
      (
        lookup_or-add_assets asset bs (insert other (lookup_or other (pos 0) d +ℤ total b) d),
        lookup_or-insert other asset (lookup_or other (pos 0) d +ℤ total b) (pos 0) d,
      )
      (one_asset (str_eq other asset) asset other b (at_venue asset bs) d
        (str_eq_iff other asset).0)

lookup_or-add_venues :
    (asset : String) (venues : Dict String Balances) (d : Dict String ℤ)
    → lookup_or asset (pos 0) (add_venues venues d)
      ≡ lookup_or asset (pos 0) d +ℤ everywhere asset venues
lookup_or-add_venues asset [] d = sym (add_nothing (lookup_or asset (pos 0) d))
lookup_or-add_venues asset ((venue, assets) ∷ venues) d =
    rw
      (lookup_or-add_venues asset venues (add_assets assets d), lookup_or-add_assets asset assets d)
      (+ℤ_assoc (lookup_or asset (pos 0) d) (at_venue asset assets) (everywhere asset venues))

-- The total of each asset is what all venues hold of it.
lookup_or-snapshot :
    (asset : String) (t : InventoryTracker)
    → lookup_or asset (pos 0) (snapshot t).totals ≡ pos 0 +ℤ everywhere asset t.balances
unfolding snapshot
lookup_or-snapshot asset t = lookup_or-add_venues asset t.balances []
