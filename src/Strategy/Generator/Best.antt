-- ===== src/Strategy/Generator/Best.antt =====
-- The trade that a signal of strategy/generator.py stands for.
use peanut_trade_internship.Base.{
  String, Bool, true, false, ◌&&◌, Option, none, some, ◌≡◌, ◌⊎◌, refl, sym, subst, inl, inr,
  Outcome, ok, Bool-cases,
}
use peanut_trade_internship.Base.Int.{ℤ}
use peanut_trade_internship.Base.Float.{Float}
use peanut_trade_internship.Strategy.Signal.{Signal, Direction, buy_cex_sell_dex, buy_dex_sell_cex}
use peanut_trade_internship.Strategy.Fees.{fee_usd, usd_of}
use peanut_trade_internship.Inventory.Tracker.{InventoryTracker}
use peanut_trade_internship.Strategy.Generator.{
  SignalGenerator, Prices, Best, Readings, Pricing, PriceError, Chosen, generate, fetch_prices,
  choose, spread_a, spread_b,
}
use peanut_trade_internship.Strategy.Generator.Choice.{generate-some}

module _ (F : Float) where
  -- Buying at one venue's price and selling at the other's, with the spread between these two.
  abbrev pub Trades : Prices F → Direction → (spread_bps cex_price dex_price : F.Num) → Type 0
  Trades p buy_cex_sell_dex spread_bps cex_price dex_price =
      (spread_bps ≡ spread_a F p) × (cex_price ≡ p.cex_ask) × (dex_price ≡ p.dex_sell)
  Trades p buy_dex_sell_cex spread_bps cex_price dex_price =
      (spread_bps ≡ spread_b F p) × (cex_price ≡ p.cex_bid) × (dex_price ≡ p.dex_buy)

  abbrev pub IsTotal : Type 0
  IsTotal = (x y : F.Num) → (F.le x y ≡ true) ⊎ (F.le y x ≡ true)

  abbrev pub IsTransitive : Type 0
  IsTransitive = (x y z : F.Num) → F.le x y ≡ true → F.le y z ≡ true → F.le x z ≡ true

  -- At least the minimum, and at least both spreads.
  pub record IsWidest (minimum : F.Num) (p : Prices F) (spread_bps : F.Num) : Type 0 where
    pub enough : F.le minimum spread_bps ≡ true
    pub over_a : F.le (spread_a F p) spread_bps ≡ true
    pub over_b : F.le (spread_b F p) spread_bps ≡ true

  le_refl : IsTotal → (x : F.Num) → F.le x x ≡ true
  le_refl total x = elim (total x x) [ inl e ↦ e | inr e ↦ e ]

  -- Where the first test fails and the second passes, the second spread is the wider one.
  second_wins :
      IsTotal
      → IsTransitive
      → (minimum a b : F.Num) → (F.le b a && F.le minimum a) ≡ false
      → F.le minimum b ≡ true
      → F.le a b ≡ true
  second_wins total trans minimum a b h k = elim (total a b) [
    | inl e ↦ e
    | inr e ↦
        let over : F.le minimum a ≡ true = trans minimum b a k e in
        let both : (F.le b a && F.le minimum a) ≡ true = rw (e, over) refl in absurd (cc)
  ]

  -- A choice, of the spread and the prices of its direction.
  abbrev pub IsGood : F.Num → Prices F → Chosen F → Type 0
  IsGood minimum p c =
      Trades p c.direction c.spread_bps c.cex_price c.dex_price × IsWidest minimum p c.spread_bps

  abbrev by_a : Prices F → Chosen F
  by_a p = record {
    direction = buy_cex_sell_dex;
    spread_bps = spread_a F p;
    cex_price = p.cex_ask;
    dex_price = p.dex_sell;
  }

  abbrev by_b : Prices F → Chosen F
  by_b p = record {
    direction = buy_dex_sell_cex;
    spread_bps = spread_b F p;
    cex_price = p.cex_bid;
    dex_price = p.dex_buy;
  }

  pub both_true : (x y : Bool) → (x && y) ≡ true → (x ≡ true) × (y ≡ true)
  both_true true y h = (refl, h)
  both_true false y h = cc

  choose-IsGood :
      IsTotal
      → IsTransitive
      → (minimum : F.Num) (p : Prices F) {c : Chosen F} → choose F minimum p ≡ some c
      → IsGood minimum p c
  unfolding choose
  choose-IsGood total trans minimum p {c} h =
      let a = spread_a F p in
      let b = spread_b F p in
      elim (Bool-cases (F.le b a && F.le minimum a)) [
        | inl e ↦
            let e' : some (by_a p) ≡ some c = rw e at h in
            let same : by_a p ≡ c = cc in
            let (wider, enough) = both_true _ _ e in
            subst (IsGood minimum p) same (
              (refl, refl, refl),
              record { enough = enough; over_a = le_refl total a; over_b = wider },
            )
        | inr e ↦ elim (Bool-cases (F.le minimum b)) [
          | inl k ↦
              let e' : some (by_b p) ≡ some c = rw (e, k) at h in
              let same : by_b p ≡ c = cc in
              subst (IsGood minimum p) same (
                (refl, refl, refl),
                record {
                  enough = k;
                  over_a = second_wins total trans minimum a b e k;
                  over_b = le_refl total b;
                },
              )
          | inr k ↦ let e' : ◌≡◌ {A = Option (Chosen F)} none (some c) = rw (e, k) at h in cc
        ]
      ]

  -- What a signal claims of the prices that were fetched.
  pub record IsSound (g : SignalGenerator F) (p : Prices F) (s : Signal F) : Type 0 where
    pub trades : Trades p s.direction s.spread_bps s.cex_price s.dex_price
    pub widest : IsWidest g.min_spread_bps p s.spread_bps
    pub pays : F.lt s.expected_net_pnl g.min_profit_usd ≡ false
    pub charged : fee_usd F g.fees (F.mul s.size s.cex_price) ≡ ok s.expected_fees
    pub net :
        s.expected_net_pnl
        ≡ F.sub (usd_of F s.spread_bps (F.mul s.size s.cex_price)) s.expected_fees
    pub limited : s.within_limits ≡ F.le (F.mul s.size s.cex_price) g.max_position_usd

  -- If the order of the numbers is total and transitive, then every signal that `generate` returns
  -- stands for a trade at the prices that were fetched: it buys at the asking price of the exchange
  -- and sells at the price of the chain, or buys on the chain and sells at the bid; its spread is the
  -- one between these two, is at least the configured minimum and at least the spread of either
  -- direction; its fees are those of its notional value, and its net profit, the spread's share of
  -- the value less these fees, is not below the minimum; and it is within limits exactly if its value
  -- is at most the maximum position.
  pub generate-IsSound :
      IsTotal
      → IsTransitive
      → (amount : ℤ → F.Num) (g : SignalGenerator F) (t : InventoryTracker) (r : Readings F)
        (book : Outcome PriceError (Best F)) (pricing : Pricing F.Num) (pair : String)
        (size : F.Num) {s : Signal F} {g' : SignalGenerator F}
      → generate F amount g t r book pricing pair size ≡ ok (some s, g')
      → (p : Prices F) × (fetch_prices F book pricing ≡ some p) × IsSound g p s
  generate-IsSound total trans amount g t r book pricing pair size h =
      let (warm, e) = generate-some F amount g t r pair size book pricing h in
      let good = choose-IsGood total trans g.min_spread_bps e.prices e.chose in
      (
        e.prices,
        e.found,
        subst (IsSound g e.prices) e.made.built (record {
          trades = good.0;
          widest = good.1;
          pays =
              subst (λ (x : Signal F). F.lt x.expected_net_pnl g.min_profit_usd ≡ false)
                (sym e.made.built) e.made.pays;
          charged = e.made.charged;
          net = refl;
          limited = refl;
        }),
      )
