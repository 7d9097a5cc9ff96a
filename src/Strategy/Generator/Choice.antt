-- ===== src/Strategy/Generator/Choice.antt =====
-- What `SignalGenerator.generate` chooses (strategy/generator.py).
use peanut_trade_internship.Base.{
  String, false, Option, none, some, ◌≡◌, refl, subst, inl, inr, Outcome, ok, >>=-eq-ok, Bool-cases,
  string_eq,
}
use peanut_trade_internship.Base.Dict.{insert}
use peanut_trade_internship.Base.Int.{ℤ}
use peanut_trade_internship.Base.Float.{Float}
use peanut_trade_internship.Strategy.Signal.{Signal}
use peanut_trade_internship.Strategy.Fees.{fee_usd}
use peanut_trade_internship.Inventory.Tracker.{InventoryTracker}
use peanut_trade_internship.Strategy.Generator.{
  SignalGenerator, Prices, Best, Readings, Pricing, PriceError, Chosen, Generated, generate,
  in_cooldown, fetch_prices, choose, signal_of, emit, evaluate, with_prices,
}

module _ (F : Float) (amount : ℤ → F.Num) where
  abbrev pub marked : SignalGenerator F → ℤ → String → SignalGenerator F
  marked g at_mark pair = record g { last_signal_time = insert pair at_mark g.last_signal_time }

  -- What follows from a choice at given prices.
  pub record Built (g : SignalGenerator F) (t : InventoryTracker) (r : Readings F) (pair : String)
      (size : F.Num) (s : Signal F) (g' : SignalGenerator F) (prices : Prices F) (chosen : Chosen F)
      : Type 0 where
    pub fees : F.Num
    pub charged : fee_usd F g.fees (F.mul size chosen.cex_price) ≡ ok fees
    pub pays : F.lt s.expected_net_pnl g.min_profit_usd ≡ false
    pub built : signal_of F amount g t r pair size fees prices chosen ≡ s
    pub cools : marked g r.at_mark pair ≡ g'

  -- All that stands behind a signal.
  pub record Emitted (g : SignalGenerator F) (t : InventoryTracker) (r : Readings F) (pair : String)
      (size : F.Num) (s : Signal F) (g' : SignalGenerator F) (fetched : Option (Prices F))
      : Type 0 where
    pub prices : Prices F
    pub chosen : Chosen F
    pub found : fetched ≡ some prices
    pub chose : choose F g.min_spread_bps prices ≡ some chosen
    pub made : Built g t r pair size s g' prices chosen

  emit-some :
      (g : SignalGenerator F) (at_mark : ℤ) (pair : String) (s s' : Signal F)
      {g' : SignalGenerator F}
      → emit F amount g at_mark pair s ≡ ok (some s', g')
      → (F.lt s.expected_net_pnl g.min_profit_usd ≡ false) × (s ≡ s') × (marked g at_mark pair ≡ g')
  emit-some g at_mark pair s s' {g'} h =
      elim (Bool-cases (F.lt s.expected_net_pnl g.min_profit_usd)) [
        | inl e ↦
            let e' : ◌≡◌ {A = Generated F amount} (ok (none, g)) (ok (some s', g')) = rw e at h in
            cc
        | inr e ↦
            let e' : ◌≡◌ {A = Generated F amount} (ok (some s, marked g at_mark pair))
                (ok (some s', g')) =
              rw e at h in
            (e, cc, cc)
      ]

  module _ (g : SignalGenerator F) (t : InventoryTracker) (r : Readings F) (pair : String)
      (size : F.Num) {s : Signal F} {g' : SignalGenerator F} where
    evaluate-some :
        (p : Prices F) (c : Chosen F)
        → evaluate F amount g t r pair size p (some c) ≡ ok (some s, g')
        → Built g t r pair size s g' p c
    evaluate-some p c h =
        let (fees, charged, h') = >>=-eq-ok (fee_usd F g.fees (F.mul size c.cex_price)) _ h in
        let (pays, same, cools) =
          emit-some g r.at_mark pair (signal_of F amount g t r pair size fees p c) s h' in
        record {
          fees = fees;
          charged = charged;
          pays =
              subst (λ (x : Signal F). F.lt x.expected_net_pnl g.min_profit_usd ≡ false) same pays;
          built = same;
          cools = cools;
        }

    choice_some :
        (p : Prices F) (o : Option (Chosen F))
        → evaluate F amount g t r pair size p o ≡ ok (some s, g')
        → (c : Chosen F) × (o ≡ some c) × Built g t r pair size s g' p c
    choice_some p none h = cc
    choice_some p (some c) h = (c, refl, evaluate-some p c h)

    with_prices-some :
        (o : Option (Prices F))
        → with_prices F amount g t r pair size o ≡ ok (some s, g')
        → Emitted g t r pair size s g' o
    with_prices-some none h = cc
    with_prices-some (some p) h =
        let (c, chose, made) = choice_some p (choose F g.min_spread_bps p) h in
        record { prices = p; chosen = c; found = refl; chose = chose; made = made }

    pub generate-some :
        (book : Outcome PriceError (Best F)) (pricing : Pricing F.Num)
        → generate F amount g t r book pricing pair size ≡ ok (some s, g')
        → (in_cooldown F g pair r.now ≡ false)
          × Emitted g t r pair size s g' (fetch_prices F book pricing)
    unfolding generate
    generate-some book pricing h = elim (Bool-cases (in_cooldown F g pair r.now)) [
      | inl cool ↦
          let e : ◌≡◌ {A = Generated F amount} (ok (none, g)) (ok (some s, g')) = rw cool at h in cc
      | inr warm ↦ (warm, with_prices-some (fetch_prices F book pricing) (rw warm at h))
    ]
