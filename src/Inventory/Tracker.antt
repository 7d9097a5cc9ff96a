-- ===== src/Inventory/Tracker.antt =====
-- `InventoryTracker` of inventory/tracker.py. Amounts are integers of one unit. A venue is the
-- value of its enum member.
pub mod Moves
use peanut_trade_internship.Base.{
  ℕ, String, str_eq, Bool, true, false, List, [], ◌∷◌, ◌++◌, Option, none, some, map, if◌then◌else◌,
  string_eq,
}
use peanut_trade_internship.Base.Dict.{Dict, lookup, lookup_or, insert, contains}
use peanut_trade_internship.Base.Int.{ℤ, pos, ◌+ℤ◌, ◌-ℤ◌, ltb_ℤ}

-- `venue` and `asset` are the keys under which a balance stands.
pub record Balance : Type 0 where
  pub free : ℤ
  pub locked : ℤ

abbrev pub total : Balance → ℤ
total b = b.free +ℤ b.locked

abbrev pub Balances : Type 0
Balances = Dict String Balance

pub record InventoryTracker : Type 0 where
  pub venues : List String
  pub balances : Dict String Balances

abbrev pub no_balances : List String → Dict String Balances
no_balances [] = []
no_balances (v ∷ vs) = insert v [] (no_balances vs)

abbrev pub new_tracker : List String → InventoryTracker
new_tracker venues = record { venues = venues; balances = no_balances venues }

-- The dict that the loops build; an entry that is not a dict is skipped by the caller of `float`.
abbrev pub snapshot_from_cex : List (String × ℤ × ℤ) → Balances → Balances
snapshot_from_cex [] d = d
snapshot_from_cex ((asset, free, locked) ∷ infos) d =
    snapshot_from_cex infos (insert asset (record { free = free; locked = locked }) d)

abbrev pub snapshot_from_wallet : List (String × ℤ) → Balances → Balances
snapshot_from_wallet [] d = d
snapshot_from_wallet ((asset, amount) ∷ amounts) d =
    snapshot_from_wallet amounts (insert asset (record { free = amount; locked = pos 0 }) d)

unfoldable pub update_from_cex :
    String → List (String × ℤ × ℤ) → InventoryTracker → InventoryTracker
update_from_cex venue infos t = record t {
  balances = insert venue (snapshot_from_cex infos []) t.balances;
}

unfoldable pub update_from_wallet : String → List (String × ℤ) → InventoryTracker → InventoryTracker
update_from_wallet venue amounts t = record t {
  balances = insert venue (snapshot_from_wallet amounts []) t.balances;
}

abbrev pub free_of : Option Balance → ℤ
free_of none = pos 0
free_of (some b) = b.free

unfoldable pub get_available : String → String → InventoryTracker → ℤ
get_available venue asset t = free_of (lookup asset (lookup_or venue [] t.balances))

-- The two legs of a trade before it.
pub record Preflight : Type 0 where
  pub can_execute : Bool
  pub buy_venue_available : ℤ
  pub sell_venue_available : ℤ

unfoldable pub can_execute :
    (buy_venue buy_asset : String)
    → ℤ
    → (sell_venue sell_asset : String) → ℤ
    → InventoryTracker
    → Preflight
unfolding get_available
can_execute buy_venue buy_asset buy_amount sell_venue sell_asset sell_amount t =
    let buy_available = get_available buy_venue buy_asset t in
    let sell_available = get_available sell_venue sell_asset t in
    record {
      can_execute =
          if ltb_ℤ buy_available buy_amount
          then false
          else if ltb_ℤ sell_available sell_amount
          then false
          else true;
      buy_venue_available = buy_available;
      sell_venue_available = sell_available;
    }

-- `_ensure(asset)`
abbrev pub ensure : String → Balances → Balances
ensure asset d =
    if contains asset d then d else insert asset (record { free = pos 0; locked = pos 0 }) d

-- `_ensure(asset).free += delta`: the object in the dict changes.
abbrev pub add_free_to : Option Balance → String → ℤ → Balances → Balances
add_free_to none asset delta d = d
add_free_to (some b) asset delta d = insert asset (record b { free = b.free +ℤ delta }) d

unfoldable pub add_free : String → ℤ → Balances → Balances
add_free asset delta d = let e = ensure asset d in add_free_to (lookup asset e) asset delta e

-- Every side but "buy" is a sale.
unfoldable pub move :
    (side base quote : String) → (base_amount quote_amount : ℤ) → Balances → Balances
move side base quote base_amount quote_amount d =
    let e = ensure quote (ensure base d) in
    if str_eq side "buy"
    then add_free quote (pos 0 -ℤ quote_amount) (add_free base base_amount e)
    else add_free quote quote_amount (add_free base (pos 0 -ℤ base_amount) e)

unfoldable pub record_trade :
    (venue side base_asset quote_asset : String)
    → (base_amount quote_amount fee : ℤ) → String
    → InventoryTracker
    → InventoryTracker
record_trade venue side base quote base_amount quote_amount fee fee_asset t =
    let d = lookup_or venue [] t.balances in
    record t {
      balances =
          insert venue
            (add_free fee_asset (pos 0 -ℤ fee) (move side base quote base_amount quote_amount d))
            t.balances;
    }
