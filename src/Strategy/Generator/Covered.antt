-- ===== src/Strategy/Generator/Covered.antt =====
-- The balances behind a signal of strategy/generator.py, and the pre-flight check of
-- inventory/tracker.py.
use peanut_trade_internship.Base.{
  String, true, false, ◌&&◌, some, ◌≡◌, refl, sym, ◌∙◌, subst, arith, Outcome, ok,
}
use peanut_trade_internship.Base.Int.{ℤ, leb_ℤ, ltb_ℤ}
use peanut_trade_internship.Base.Text.{before_slash, after_slash}
use peanut_trade_internship.Base.Float.{Float}
use peanut_trade_internship.Strategy.Signal.{Signal, Direction, buy_cex_sell_dex, buy_dex_sell_cex}
use peanut_trade_internship.Inventory.Tracker.{InventoryTracker, get_available, can_execute}
use peanut_trade_internship.Strategy.Generator.{
  SignalGenerator, Best, Readings, Pricing, PriceError, generate, check_inventory, needed_quote,
}
use peanut_trade_internship.Strategy.Generator.Choice.{generate-some}
use peanut_trade_internship.Strategy.Generator.Best.{IsTransitive, both_true}

-- The venue that is paid, and the venue that delivers.
abbrev pub buy_venue : Direction → String
buy_venue buy_cex_sell_dex = "binance"
buy_venue buy_dex_sell_cex = "wallet"

abbrev pub sell_venue : Direction → String
sell_venue buy_cex_sell_dex = "wallet"
sell_venue buy_dex_sell_cex = "binance"

module _ (F : Float) (amount : ℤ → F.Num) where
  check_inventory_by_venue :
      (t : InventoryTracker) (pair : String) (d : Direction) (size price : F.Num)
      → check_inventory F amount t pair d size price ≡ (
          F.le
            (needed_quote F amount size price)
            (amount (get_available (buy_venue d) (after_slash pair) t))
          && F.le size (amount (get_available (sell_venue d) (before_slash pair) t)))
  unfolding check_inventory
  check_inventory_by_venue t pair buy_cex_sell_dex size price = refl
  check_inventory_by_venue t pair buy_dex_sell_cex size price = refl

  module _ (trans : IsTransitive F)
      (exact : (a b : ℤ) → F.le (amount a) (amount b) ≡ leb_ℤ a b) where
    enough_held :
        (wanted held : ℤ) (needed : F.Num)
        → F.le (amount wanted) needed ≡ true
        → F.le needed (amount held) ≡ true
        → ltb_ℤ held wanted ≡ false
    enough_held wanted held needed h k =
        let e : leb_ℤ wanted held ≡ true = sym (exact wanted held) ∙ trans _ _ _ h k in ground arith

    covers :
        (t : InventoryTracker) (pair : String) (d : Direction) (size price : F.Num)
        (base_amount quote_amount : ℤ)
        → check_inventory F amount t pair d size price ≡ true
        → F.le (amount base_amount) size ≡ true
        → F.le (amount quote_amount) (needed_quote F amount size price) ≡ true
        → (can_execute
            (buy_venue d)
            (after_slash pair)
            quote_amount
            (sell_venue d)
            (before_slash pair)
            base_amount
            t).can_execute
          ≡ true
    unfolding can_execute
    covers t pair d size price base_amount quote_amount h base quote =
        let (paid, delivered) =
          both_true F _ _ (sym (check_inventory_by_venue t pair d size price) ∙ h) in
        let q =
          enough_held quote_amount (get_available (buy_venue d) (after_slash pair) t) _ quote
            paid in
        let b =
          enough_held base_amount (get_available (sell_venue d) (before_slash pair) t) _ base
            delivered in
        rw (q, b) refl

    -- If numbers compare as the balances do, and their order is transitive, then a signal that is
    -- marked as covered by the inventory passes the pre-flight check of the tracker, at the venues of
    -- its direction, for every amount of the base up to its size and every amount of the quote up to
    -- its value with the buffer of one per cent.
    pub generate-can_execute :
        (g : SignalGenerator F) (t : InventoryTracker) (r : Readings F)
        (book : Outcome PriceError (Best F)) (pricing : Pricing F.Num) (pair : String)
        (size : F.Num) {s : Signal F} {g' : SignalGenerator F} (base_amount quote_amount : ℤ)
        → generate F amount g t r book pricing pair size ≡ ok (some s, g')
        → s.inventory_ok ≡ true
        → F.le (amount base_amount) s.size ≡ true
        → F.le (amount quote_amount) (needed_quote F amount s.size s.cex_price) ≡ true
        → (can_execute
            (buy_venue s.direction)
            (after_slash s.pair)
            quote_amount
            (sell_venue s.direction)
            (before_slash s.pair)
            base_amount
            t).can_execute
          ≡ true
    generate-can_execute g t r book pricing pair size {s} base_amount quote_amount h covered base
          quote =
        let (warm, e) = generate-some F amount g t r pair size book pricing h in
        let checked : s.inventory_ok
            ≡ check_inventory F amount t s.pair s.direction s.size s.cex_price =
          subst
            (λ (x : Signal F).
              x.inventory_ok ≡ check_inventory F amount t x.pair x.direction x.size x.cex_price)
            e.made.built refl in
        covers t s.pair s.direction s.size s.cex_price base_amount quote_amount
          (sym checked ∙ covered) base quote
