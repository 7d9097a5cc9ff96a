-- ===== src/Strategy/Generator/Cooldown.antt =====
-- The cooldown of a pair in strategy/generator.py.
use peanut_trade_internship.Base.{
  String, str_eq, str_eq_iff, true, ◌&&◌, Option, none, some, is_some, ◌≡◌, refl, sym, ap, subst,
  ◌∙◌, inl, inr, arith, Outcome, ok, >>=-eq-ok, Bool-cases, if◌then◌else◌, string_eq,
}
use peanut_trade_internship.Base.Dict.{lookup_or-insert}
use peanut_trade_internship.Base.Int.{ℤ, pos, ◌-ℤ◌, ltb_ℤ, ◌<ℤ◌}
use peanut_trade_internship.Base.Float.{Float}
use peanut_trade_internship.Strategy.Signal.{Signal}
use peanut_trade_internship.Strategy.Fees.{fee_usd}
use peanut_trade_internship.Inventory.Tracker.{InventoryTracker}
use peanut_trade_internship.Strategy.Generator.{
  SignalGenerator, Prices, Best, Readings, Pricing, PriceError, Chosen, Generated, generate,
  in_cooldown, fetch_prices, choose, signal_of, emit, evaluate, with_prices,
}
use peanut_trade_internship.Strategy.Generator.Choice.{marked, generate-some}

module _ (F : Float) (amount : ℤ → F.Num) where
  -- A pair cools down from its mark; the other pairs are as before.
  in_cooldown-marked :
      (g : SignalGenerator F) (at_mark : ℤ) (pair j : String) (now : ℤ)
      → in_cooldown F (marked F amount g at_mark pair) j now
        ≡ (if str_eq pair j then ltb_ℤ (now -ℤ at_mark) g.cooldown else in_cooldown F g j now)
  unfolding in_cooldown
  in_cooldown-marked g at_mark pair j now = elim (Bool-cases (str_eq pair j)) [
    | inl e ↦ rw (lookup_or-insert pair j at_mark (pos 0) g.last_signal_time, e) refl
    | inr e ↦ rw (lookup_or-insert pair j at_mark (pos 0) g.last_signal_time, e) refl
  ]

  none_values :
      {g g' : SignalGenerator F}
      → ◌≡◌ {A = Generated F amount} (ok (none, g)) (ok (none, g'))
      → g ≡ g'
  none_values h = cc

  emit-none :
      (g : SignalGenerator F) (at_mark : ℤ) (pair : String) (s : Signal F) {g' : SignalGenerator F}
      → emit F amount g at_mark pair s ≡ ok (none, g')
      → g ≡ g'
  emit-none g at_mark pair s {g'} h = elim (Bool-cases (F.lt s.expected_net_pnl g.min_profit_usd)) [
    | inl e ↦ none_values (rw e at h)
    | inr e ↦
        let e' : ◌≡◌ {A = Generated F amount} (ok (some s, marked F amount g at_mark pair))
            (ok (none, g')) =
          rw e at h in
        cc
  ]

  module _ (g : SignalGenerator F) (t : InventoryTracker) (r : Readings F) (pair : String)
      (size : F.Num) {g' : SignalGenerator F} where
    evaluate-none :
        (p : Prices F) (o : Option (Chosen F))
        → evaluate F amount g t r pair size p o ≡ ok (none, g')
        → g ≡ g'
    evaluate-none p none h = none_values h
    evaluate-none p (some c) h =
        let (fees, charged, h') = >>=-eq-ok (fee_usd F g.fees (F.mul size c.cex_price)) _ h in
        emit-none g r.at_mark pair (signal_of F amount g t r pair size fees p c) h'

    with_prices-none :
        (o : Option (Prices F)) → with_prices F amount g t r pair size o ≡ ok (none, g') → g ≡ g'
    with_prices-none none h = none_values h
    with_prices-none (some p) h = evaluate-none p (choose F g.min_spread_bps p) h

    generate-none :
        (book : Outcome PriceError (Best F)) (pricing : Pricing F.Num)
        → generate F amount g t r book pricing pair size ≡ ok (none, g')
        → g ≡ g'
    unfolding generate
    generate-none book pricing h = elim (Bool-cases (in_cooldown F g pair r.now)) [
      | inl cool ↦ none_values (rw cool at h)
      | inr warm ↦ with_prices-none (fetch_prices F book pricing) (rw warm at h)
    ]

  -- After a call that returns, a pair is cooling down just as before, except that the pair of a
  -- signal that was returned cools down for the configured time from the mark of the call.
  pub generate-in_cooldown :
      (g : SignalGenerator F) (t : InventoryTracker) (r : Readings F)
      (book : Outcome PriceError (Best F)) (pricing : Pricing F.Num) (pair : String) (size : F.Num)
      {o : Option (Signal F)} {g' : SignalGenerator F}
      → generate F amount g t r book pricing pair size ≡ ok (o, g')
      → (j : String) (now : ℤ)
      → in_cooldown F g' j now ≡ (
          if is_some o && str_eq pair j
          then ltb_ℤ (now -ℤ r.at_mark) g.cooldown
          else in_cooldown F g j now)
  generate-in_cooldown g t r book pricing pair size {o = none} h j now =
      ap (λ (x : SignalGenerator F). in_cooldown F x j now)
        (sym (generate-none g t r pair size book pricing h))
  generate-in_cooldown g t r book pricing pair size {o = some s} h j now =
      let (warm, e) = generate-some F amount g t r pair size book pricing h in
      rw (← e.made.cools) (in_cooldown-marked g r.at_mark pair j now)

  -- One call of `generate`: for a pair, at some readings, prices, balances and size.
  pub record Request : Type 0 where
    pub inventory : InventoryTracker
    pub readings : Readings F
    pub book : Outcome PriceError (Best F)
    pub pricing : Pricing F.Num
    pub pair : String
    pub size : F.Num

  abbrev pub answer : SignalGenerator F → Request → Generated F amount
  answer g q = generate F amount g q.inventory q.readings q.book q.pricing q.pair q.size

  -- A sequence of calls that return, for any pairs.
  pub data Calls (start : SignalGenerator F) : SignalGenerator F → Type 0 where
    begun : Calls start start
    called :
        {g : SignalGenerator F} (q : Request) (o : Option (Signal F)) (g' : SignalGenerator F)
        → Calls start g
        → answer g q ≡ ok (o, g')
        → Calls start g'

  -- The reading of the clock is before the end of the cooldown from the mark.
  abbrev pub IsEarly : (cooldown at_mark : ℤ) → Request → Type 0
  IsEarly cooldown at_mark q = q.readings.now -ℤ at_mark <ℤ cooldown

  -- Of the calls for the pair itself, each is early.
  abbrev pub AreEarly :
      (cooldown at_mark : ℤ) (pair : String) {start g : SignalGenerator F} → Calls start g → Type 0
  AreEarly cooldown at_mark pair begun = Unit
  AreEarly cooldown at_mark pair (called q o g' before returned) =
      (q.pair ≡ pair → IsEarly cooldown at_mark q) × AreEarly cooldown at_mark pair before

  -- The pair is cooling down from the mark.
  record Cools (cooldown at_mark : ℤ) (pair : String) (g : SignalGenerator F) : Type 0 where
    cold : (now : ℤ) → now -ℤ at_mark <ℤ cooldown → in_cooldown F g pair now ≡ true

  cold-answer :
      (cooldown at_mark : ℤ) (g : SignalGenerator F) (q : Request)
      → Cools cooldown at_mark q.pair g
      → IsEarly cooldown at_mark q
      → answer g q ≡ ok (none, g)
  unfolding generate
  cold-answer cooldown at_mark g q c early = rw (c.cold q.readings.now early) refl

  unchanged :
      {o : Option (Signal F)} {g g' : SignalGenerator F}
      → ◌≡◌ {A = Generated F amount} (ok (none, g)) (ok (o, g'))
      → g ≡ g'
  unchanged h = cc

  cooldown_of :
      (g : SignalGenerator F) (q : Request) {o : Option (Signal F)} {g' : SignalGenerator F}
      → answer g q ≡ ok (o, g')
      → (j : String) (now : ℤ)
      → in_cooldown F g' j now ≡ (
          if is_some o && str_eq q.pair j
          then ltb_ℤ (now -ℤ q.readings.at_mark) g.cooldown
          else in_cooldown F g j now)
  cooldown_of g q h = generate-in_cooldown g q.inventory q.readings q.book q.pricing q.pair q.size h

  marked-Cools :
      (g g1 : SignalGenerator F) (q : Request) (s : Signal F)
      → answer g q ≡ ok (some s, g1)
      → Cools g.cooldown q.readings.at_mark q.pair g1
  marked-Cools g g1 q s h = record {
    cold = λ now early.
        let soon : ltb_ℤ (now -ℤ q.readings.at_mark) g.cooldown ≡ true = ground arith in
        cooldown_of g q h q.pair now ∙ (rw ((str_eq_iff q.pair q.pair).1 refl, soon) refl);
  }

  called-Cools :
      (cooldown at_mark : ℤ) (pair : String) (g g' : SignalGenerator F) (q : Request)
      (o : Option (Signal F))
      → Cools cooldown at_mark pair g
      → (q.pair ≡ pair → IsEarly cooldown at_mark q)
      → answer g q ≡ ok (o, g')
      → Cools cooldown at_mark pair g'
  called-Cools cooldown at_mark pair g g' q o c early h = elim (Bool-cases (str_eq q.pair pair)) [
    | inl same ↦
        let e = (str_eq_iff q.pair pair).0 same in
        let here = subst (λ p. Cools cooldown at_mark p g) (sym e) c in
        subst (Cools cooldown at_mark pair)
          (unchanged (sym (cold-answer cooldown at_mark g q here (early e)) ∙ h)) c
    | inr other ↦ record {
      cold = λ now soon. cooldown_of g q h pair now ∙ (elim (Bool-cases (is_some o)) [
        | inl signal ↦ rw (signal, other) (c.cold now soon)
        | inr no_signal ↦ rw no_signal (c.cold now soon)
      ]);
    }
  ]

  Calls-Cools :
      (cooldown at_mark : ℤ) (pair : String) {start g : SignalGenerator F}
      → Cools cooldown at_mark pair start
      → (cs : Calls start g) → AreEarly cooldown at_mark pair cs
      → Cools cooldown at_mark pair g
  Calls-Cools cooldown at_mark pair c begun e = c
  Calls-Cools cooldown at_mark pair c (called {g} q o g' before h) e =
      called-Cools cooldown at_mark pair g g' q o (Calls-Cools cooldown at_mark pair c before e.1)
        e.0 h

  -- After a signal and then any calls for this and for other pairs, a call for the pair of the signal
  -- returns no signal and changes nothing, whatever the prices, the balances and the size are, if it and
  -- the calls for the pair before it look at the clock before the cooldown from the signal's mark has
  -- passed.
  pub generate_cools_down :
      (g g1 g2 : SignalGenerator F) (q q' : Request) (s : Signal F)
      → answer g q ≡ ok (some s, g1)
      → (cs : Calls g1 g2) → AreEarly g.cooldown q.readings.at_mark q.pair cs
      → q'.pair ≡ q.pair
      → IsEarly g.cooldown q.readings.at_mark q'
      → answer g2 q' ≡ ok (none, g2)
  generate_cools_down g g1 g2 q q' s h cs early same soon =
      cold-answer g.cooldown q.readings.at_mark g2 q'
        (subst (λ p. Cools g.cooldown q.readings.at_mark p g2) (sym same)
          (Calls-Cools g.cooldown q.readings.at_mark q.pair (marked-Cools g g1 q s h) cs early))
        soon
