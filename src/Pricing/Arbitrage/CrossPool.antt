-- ===== src/Pricing/Arbitrage/CrossPool.antt =====
-- The search across two pools of pricing/arbitrage.py.
use peanut_trade_internship.Base.{
  ℕ, ◌==◌, Bool, true, false, List, [], ◌∷◌, ◌≡◌, refl, ◌∙◌, inl, inr, arith, select, Outcome,
  Outcome-cases, ok, raised, ◌>>=◌, Bool-cases, All, All-append,
}
use peanut_trade_internship.Base.Int.{ℤ, pos, ◌-ℤ◌, ◌<ℤ◌, leb_ℤ}
use peanut_trade_internship.Core.Token.{Token}
use peanut_trade_internship.Pricing.Router.{AmmPool, hop, has, output_along, get_output}
use peanut_trade_internship.Pricing.Arbitrage.{
  ArbitrageOpportunity, shares_pair, unique, profit_of, cross_pool_pair, pair_with, all_pairs,
  find_cross_pool_arbitrage, gwei, gas_for,
}
use peanut_trade_internship.Pricing.Arbitrage.Sorted.{
  All-sort_by_gross, IsDescending, sort_by_gross-IsDescending,
}

ok_bind : {E A : Type 0} (m : Outcome E A) → (m >>= λ a. ok a) ≡ m
ok_bind (ok a) = refl
ok_bind (raised e) = refl

two_hops :
    {E A : Type 0} (m : Outcome E A) (k : A → Outcome E A)
    → (m >>= λ x. (k x >>= λ y. ok y)) ≡ (m >>= k)
two_hops (ok a) k = ok_bind (k a)
two_hops (raised e) k = refl

module _ {P E : Type 0} (amm : AmmPool P E) where
  -- No two pools are one object.
  abbrev pub Apart : P → List P → Type 0
  Apart p = All (λ q. (amm.id p == amm.id q) ≡ false)

  abbrev pub AllApart : List P → Type 0
  AllApart [] = Unit
  AllApart (p ∷ ps) = Apart p ps × AllApart ps

  All-unique :
      (Q : P → Type 0) (seen : List ℕ) (ps : List P) → All Q ps → All Q (unique amm seen ps)
  unfolding unique
  All-unique Q seen [] a = tt
  All-unique Q seen (p ∷ ps) a = elim (Bool-cases (has (amm.id p) seen)) [
    | inl e ↦ rw e (All-unique Q seen ps a.1)
    | inr e ↦ rw e (a.0, All-unique Q (amm.id p ∷ seen) ps a.1)
  ]

  unseen_before :
      (p q : P) (seen : List ℕ)
      → has (amm.id q) (amm.id p ∷ seen) ≡ false
      → has (amm.id q) seen ≡ false
  unseen_before p q seen h = ground arith

  unique-unseen :
      (seen : List ℕ) (ps : List P) → All (λ q. has (amm.id q) seen ≡ false) (unique amm seen ps)
  unfolding unique
  unique-unseen seen [] = tt
  unique-unseen seen (p ∷ ps) = elim (Bool-cases (has (amm.id p) seen)) [
    | inl e ↦ rw e (unique-unseen seen ps)
    | inr e ↦ rw e (e, weaker _ (unique-unseen (amm.id p ∷ seen) ps))
  ]
    where
      weaker :
          (qs : List P)
          → All (λ q. has (amm.id q) (amm.id p ∷ seen) ≡ false) qs
          → All (λ q. has (amm.id q) seen ≡ false) qs
      weaker [] a = tt
      weaker (q ∷ qs) a = (unseen_before p q seen a.0, weaker qs a.1)

  new-Apart :
      (p : P) (seen : List ℕ) (qs : List P)
      → All (λ q. has (amm.id q) (amm.id p ∷ seen) ≡ false) qs
      → Apart p qs
  new-Apart p seen [] a = tt
  new-Apart p seen (q ∷ qs) a = (ground (arith, a.0), new-Apart p seen qs a.1)

  unique-AllApart : (seen : List ℕ) (ps : List P) → AllApart (unique amm seen ps)
  unfolding unique
  unique-AllApart seen [] = tt
  unique-AllApart seen (p ∷ ps) = elim (Bool-cases (has (amm.id p) seen)) [
    | inl e ↦ rw e (unique-AllApart seen ps)
    | inr e ↦ rw e (
      new-Apart p seen _ (unique-unseen (amm.id p ∷ seen) ps),
      unique-AllApart (amm.id p ∷ seen) ps,
    )
  ]

  All-select : (test : P → Bool) (ps : List P) → All (λ p. test p ≡ true) (select test ps)
  All-select test [] = tt
  All-select test (p ∷ ps) = elim (Bool-cases (test p)) [
    | inl e ↦ rw e (e, All-select test ps)
    | inr e ↦ rw e (All-select test ps)
  ]

  module _ (token_in token_out : Token) (amount_in gas_cost : ℤ) where
    -- Buying in one pool and selling in another, with a profit.
    pub record IsRoundTrip (o : ArbitrageOpportunity P) : Type 0 where
      pub buy : P
      pub sell : P
      pub buy_shares : shares_pair amm token_in token_out buy ≡ true
      pub sell_shares : shares_pair amm token_in token_out sell ≡ true
      pub apart : (amm.id buy == amm.id sell) ≡ false
      pub route_eq :
          o.route ≡ record { pools = buy ∷ sell ∷ []; path = token_in ∷ token_out ∷ token_in ∷ [] }
      pub out : ℤ
      pub pays_out : get_output amm o.route amount_in ≡ ok out
      pub gross : o.gross_profit ≡ out -ℤ amount_in
      pub gains : pos 0 <ℤ o.gross_profit
      pub gas : o.gas_cost ≡ gas_cost

    abbrev Shares : P → Type 0
    Shares p = shares_pair amm token_in token_out p ≡ true

    abbrev profits : P → P → ℤ → List (ArbitrageOpportunity P)
    profits = profit_of amm token_in token_out amount_in gas_cost

    profit_of-IsRoundTrip :
        (buy sell : P) (out : ℤ)
        → Shares buy
        → Shares sell
        → (amm.id buy == amm.id sell) ≡ false
        → (hop amm buy token_in amount_in >>= λ mid. hop amm sell token_out mid) ≡ ok out
        → All IsRoundTrip (profits buy sell out)
    unfolding output_along
    profit_of-IsRoundTrip buy sell out b s apart h =
        elim (Bool-cases (leb_ℤ (out -ℤ amount_in) (pos 0))) [
          | inl e ↦ rw e tt
          | inr e ↦ rw e (
            record {
              buy = buy;
              sell = sell;
              buy_shares = b;
              sell_shares = s;
              apart = apart;
              route_eq = refl;
              out = out;
              pays_out = two_hops (hop amm buy token_in amount_in) (hop amm sell token_out) ∙ h;
              gross = refl;
              gains = ground arith;
              gas = refl;
            },
            tt,
          )
        ]

    cross_pool_pair-IsRoundTrip :
        (buy sell : P)
        → Shares buy
        → Shares sell
        → (amm.id buy == amm.id sell) ≡ false
        → All IsRoundTrip (cross_pool_pair amm token_in token_out amount_in gas_cost buy sell)
    unfolding cross_pool_pair
    cross_pool_pair-IsRoundTrip buy sell b s apart =
        let trip = hop amm buy token_in amount_in >>= λ mid. hop amm sell token_out mid in
        elim (Outcome-cases trip) [
          | inl (out, e) ↦ rw e (profit_of-IsRoundTrip buy sell out b s apart e)
          | inr (failure, e) ↦ rw e tt
        ]

    apart_sym : (p q : P) → (amm.id p == amm.id q) ≡ false → (amm.id q == amm.id p) ≡ false
    apart_sym p q h = ground arith

    pair_with-IsRoundTrip :
        (p : P) (qs : List P)
        → Shares p
        → All Shares qs
        → Apart p qs
        → All IsRoundTrip (pair_with amm token_in token_out amount_in gas_cost p qs)
    unfolding pair_with
    pair_with-IsRoundTrip p [] s ss a = tt
    pair_with-IsRoundTrip p (q ∷ qs) s ss a =
        All-append _ (cross_pool_pair amm token_in token_out amount_in gas_cost p q) _
          (cross_pool_pair-IsRoundTrip p q s ss.0 a.0)
          (All-append _ (cross_pool_pair amm token_in token_out amount_in gas_cost q p) _
            (cross_pool_pair-IsRoundTrip q p ss.0 s (apart_sym p q a.0))
            (pair_with-IsRoundTrip p qs s ss.1 a.1))

    all_pairs-IsRoundTrip :
        (ps : List P)
        → All Shares ps
        → AllApart ps
        → All IsRoundTrip (all_pairs amm token_in token_out amount_in gas_cost ps)
    unfolding all_pairs
    all_pairs-IsRoundTrip [] ss a = tt
    all_pairs-IsRoundTrip (p ∷ ps) ss a =
        All-append _ (pair_with amm token_in token_out amount_in gas_cost p ps) _
          (pair_with-IsRoundTrip p ps ss.0 ss.1 a.0) (all_pairs-IsRoundTrip ps ss.1 a.1)

  -- Every opportunity across two pools buys in one pool and sells in another one, both of which trade
  -- the two tokens; the router's output of this route for the amount is the amount and the reported
  -- profit, which is more than 0; its gas cost is that of two swaps; and no opportunity gains more
  -- than one before it.
  pub find_cross_pool_arbitrage-IsRoundTrip :
      (pools : List P) (token_in token_out : Token) (amount_in gas_price_gwei : ℤ)
      → All
          (IsRoundTrip token_in token_out amount_in (gas_for (gwei gas_price_gwei) 2))
          (find_cross_pool_arbitrage amm pools token_in token_out amount_in gas_price_gwei)
        × IsDescending
            (find_cross_pool_arbitrage amm pools token_in token_out amount_in gas_price_gwei)
  unfolding find_cross_pool_arbitrage
  find_cross_pool_arbitrage-IsRoundTrip pools token_in token_out amount_in gas_price_gwei =
      let candidates = select (shares_pair amm token_in token_out) pools in
      let gas = gas_for (gwei gas_price_gwei) 2 in
      let found = all_pairs amm token_in token_out amount_in gas (unique amm [] candidates) in
      (
        All-sort_by_gross _ found (
            all_pairs-IsRoundTrip token_in token_out amount_in gas (unique amm [] candidates)
              (All-unique _ [] candidates (All-select _ pools)) (unique-AllApart [] candidates)),
        sort_by_gross-IsDescending found,
      )
