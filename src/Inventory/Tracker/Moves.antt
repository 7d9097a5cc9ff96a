-- ===== src/Inventory/Tracker/Moves.antt =====
-- What a trade moves between the balances of inventory/tracker.py.
use peanut_trade_internship.Base.{
  String, str_eq, str_eq_iff, true, false, some, [], ◌≡◌, refl, arith, if◌then◌else◌, string_eq,
  Bool-cases, inl, inr, Option-cases, ◌∙◌, ap, sym,
}
use peanut_trade_internship.Base.Dict.{lookup, lookup_or, lookup-insert, lookup_or-insert}
use peanut_trade_internship.Base.Int.{ℤ, pos, ◌+ℤ◌, ◌-ℤ◌, ◌≤ℤ◌, +ℤ_parts, -ℤ_parts, eq_of_parts}
use peanut_trade_internship.Inventory.Tracker.{
  Balance, Balances, InventoryTracker, free_of, get_available, can_execute, ensure, add_free,
  add_free_to, move, record_trade,
}

-- The free amount of an asset at one venue.
abbrev pub free_in : String → Balances → ℤ
free_in asset d = free_of (lookup asset d)

add_zero : (x : ℤ) → x +ℤ pos 0 ≡ x
add_zero x = eq_of_parts (x +ℤ pos 0) x (omega (arith, +ℤ_parts x (pos 0)))

ensure-free : (asset a : String) (d : Balances) → free_in a (ensure asset d) ≡ free_in a d
ensure-free asset a d =
    ground
      (arith, lookup-insert asset a (record { free = pos 0; locked = pos 0 }) d, str_eq_iff asset a)

ensure-has :
    (asset : String) (d : Balances) → (b : Balance) × (lookup asset (ensure asset d) ≡ some b)
ensure-has asset d = elim (Option-cases (lookup asset d)) [
  | inl missing ↦ (
    record { free = pos 0; locked = pos 0 },
    rw missing (
        lookup-insert asset asset (record { free = pos 0; locked = pos 0 }) d
        ∙ (rw ((str_eq_iff asset asset).1 refl) refl)),
  )
  | inr (b, has) ↦ (b, rw has has)
]

-- `delta` for the asset that is moved, 0 for any other.
abbrev pub change : String → ℤ → String → ℤ
change asset delta a = if str_eq asset a then delta else pos 0

add_free_to-free :
    (asset : String) (delta : ℤ) (a : String) (d : Balances) (b : Balance)
    → lookup asset d ≡ some b
    → free_in a (add_free_to (some b) asset delta d) ≡ free_in a d +ℤ change asset delta a
add_free_to-free asset delta a d b h = elim (Bool-cases (str_eq asset a)) [
  | inl same ↦
      let e = (str_eq_iff asset a).0 same in
      rw (lookup-insert asset a (record b { free = b.free +ℤ delta }) d, same) (rw (← e, h) refl)
  | inr other ↦
      rw (lookup-insert asset a (record b { free = b.free +ℤ delta }) d, other)
        (sym (add_zero (free_in a d)))
]

add_free-free :
    (asset : String) (delta : ℤ) (a : String) (d : Balances)
    → free_in a (add_free asset delta d) ≡ free_in a d +ℤ change asset delta a
unfolding add_free
add_free-free asset delta a d =
    let (b, has) = ensure-has asset d in
    rw has (
      add_free_to-free asset delta a (ensure asset d) b has
      ∙ ap (λ x. x +ℤ change asset delta a) (ensure-free asset a d))

-- What a trade does to the free amount of `a`: the base and the quote move against each other, and
-- the fee goes off.
abbrev pub traded :
    (side base quote : String) → (base_amount quote_amount fee : ℤ) → (fee_asset a : String) → ℤ → ℤ
traded side base quote base_amount quote_amount fee fee_asset a before =
    (if str_eq side "buy"
      then before +ℤ change base base_amount a +ℤ change quote (pos 0 -ℤ quote_amount) a
      else before +ℤ change base (pos 0 -ℤ base_amount) a +ℤ change quote quote_amount a)
    +ℤ change fee_asset (pos 0 -ℤ fee) a

move-free :
    (side base quote : String) (base_amount quote_amount : ℤ) (a : String) (d : Balances)
    → free_in a (move side base quote base_amount quote_amount d) ≡ (
        if str_eq side "buy"
        then free_in a d +ℤ change base base_amount a +ℤ change quote (pos 0 -ℤ quote_amount) a
        else free_in a d +ℤ change base (pos 0 -ℤ base_amount) a +ℤ change quote quote_amount a)
unfolding move
move-free side base quote base_amount quote_amount a d =
    let e = ensure quote (ensure base d) in
    let same : free_in a e ≡ free_in a d =
      ensure-free quote a (ensure base d) ∙ ensure-free base a d in
    elim (Bool-cases (str_eq side "buy")) [
      | inl buys ↦
          rw
            (
              buys,
              add_free-free quote (pos 0 -ℤ quote_amount) a (add_free base base_amount e),
              add_free-free base base_amount a e,
              same,
            )
            refl
      | inr sells ↦
          rw
            (
              sells,
              add_free-free quote quote_amount a (add_free base (pos 0 -ℤ base_amount) e),
              add_free-free base (pos 0 -ℤ base_amount) a e,
              same,
            )
            refl
    ]

-- A trade moves what is available of every asset at its venue by the amounts bought, sold and paid
-- as a fee, also where these assets coincide, and nothing at any other venue.
pub record_trade_available :
    (venue side base quote : String) (base_amount quote_amount fee : ℤ) (fee_asset v a : String)
    (t : InventoryTracker)
    → get_available v a
        (record_trade venue side base quote base_amount quote_amount fee fee_asset t)
      ≡ (if str_eq venue v
          then traded side base quote base_amount quote_amount fee fee_asset a
              (get_available venue a t)
          else get_available v a t)
unfolding get_available record_trade
record_trade_available venue side base quote base_amount quote_amount fee fee_asset v a t =
    let d = lookup_or venue [] t.balances in
    let m = move side base quote base_amount quote_amount d in
    let e = add_free fee_asset (pos 0 -ℤ fee) m in
    elim (Bool-cases (str_eq venue v)) [
      | inl same ↦
          rw
            (
              lookup_or-insert venue v e [] t.balances,
              same,
              add_free-free fee_asset (pos 0 -ℤ fee) a m,
              move-free side base quote base_amount quote_amount a d,
            )
            refl
      | inr other ↦ rw (lookup_or-insert venue v e [] t.balances, other) refl
    ]

-- Where the pre-flight check passes, the buying leg leaves no less than 0 of the asset that it pays
-- with, as long as it buys another asset and the fee is paid in another asset.
can_execute_covers :
    (venue base quote : String) (base_amount quote_amount fee : ℤ)
    (fee_asset sell_venue sell_asset : String) (sell_amount : ℤ) (t : InventoryTracker)
    → str_eq base quote ≡ false
    → str_eq fee_asset quote ≡ false
    → (can_execute venue quote quote_amount sell_venue sell_asset sell_amount t).can_execute ≡ true
    → pos 0
      ≤ℤ get_available venue quote
          (record_trade venue "buy" base quote base_amount quote_amount fee fee_asset t)
unfolding can_execute
can_execute_covers venue base quote base_amount quote_amount fee fee_asset sell_venue sell_asset
      sell_amount t other fee_other passes =
    let paid = pos 0 -ℤ quote_amount in
    rw
      (
        record_trade_available venue "buy" base quote base_amount quote_amount fee fee_asset venue
            quote t,
        (str_eq_iff venue venue).1 refl,
        (str_eq_iff quote quote).1 refl,
        other,
        fee_other,
        add_zero (get_available venue quote t),
        add_zero (get_available venue quote t +ℤ paid),
      )
      (ground (arith, +ℤ_parts (get_available venue quote t) paid, -ℤ_parts (pos 0) quote_amount))
