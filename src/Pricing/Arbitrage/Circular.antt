-- ===== src/Pricing/Arbitrage/Circular.antt =====
-- The circular search of pricing/arbitrage.py.
use mathlib.Core.List.{append_assoc}
use peanut_trade_internship.Base.{
  ℕ, suc, zero, Bool, ◌==◌, subst, true, false, not, ◌&&◌, any, List, [], ◌∷◌, ◌++◌, ◌≡◌, refl, sym,
  ◌∙◌, inl, inr, arith, length, ok, >>=-eq-ok, ok_values, Bool-cases, All, All-append, nat_eq,
}
use peanut_trade_internship.Base.Dict.{Dict}
use peanut_trade_internship.Base.Int.{ℤ, pos, ◌-ℤ◌, ◌*ℤ◌, ◌<ℤ◌, ltb_ℤ}
use peanut_trade_internship.Core.Token.{Address, Token, token_eq}
use peanut_trade_internship.Pricing.Router.{
  AmmPool, Route, has, hop, make_route, estimate_gas, output_along, get_output,
}
use peanut_trade_internship.Pricing.Router.Search.{Trades, Adjacent, Extends, make_route-eq}
use peanut_trade_internship.Pricing.Arbitrage.{
  ArbitrageOpportunity, Search, nothing_found, close, proceed, visit_edges, dfs_circular, gas_for,
  opportunity, circular,
}

left_of : (x y : Bool) → (x && y) ≡ true → x ≡ true
left_of true y h = refl
left_of false y h = cc

module _ {P E : Type 0} (amm : AmmPool P E) (finder : List P) (start : Token)
    (amount_in gas_price_wei : ℤ) where
  -- A cycle that goes on from `pools` and `path`, and brings back what its profit says.
  pub record IsCycle (left : ℕ) (t : Token) (seen : List ℕ) (pools : List P) (path : List Token)
      (o : ArbitrageOpportunity P) : Type 0 where
    pub extends : Extends amm finder start left t seen pools path o.route
    pub out : ℤ
    pub pays_out : get_output amm o.route amount_in ≡ ok out
    pub gross : o.gross_profit ≡ out -ℤ amount_in
    pub gains : pos 0 <ℤ o.gross_profit
    pub gas : o.gas_cost ≡ gas_price_wei *ℤ pos (estimate_gas o.route)
    pub input : o.amount_in ≡ amount_in

  -- The amount is what the pools so far pay out along the path.
  abbrev pub Carries : Token → ℤ → List P → List Token → Type 0
  Carries t amount pools path =
      (more : List P) (after : List Token)
      → output_along amm (pools ++ more) (path ++ after) amount_in
        ≡ output_along amm more (t ∷ after) amount

  abbrev pub Finds : ℕ → Search amm → Type 0
  Finds left search =
      (t : Token) (amount : ℤ) (seen : List ℕ) (pools : List P) (path : List Token)
      (os : List (ArbitrageOpportunity P))
      → Carries t amount pools path
      → search t amount seen pools path ≡ ok os
      → All (IsCycle left t seen pools path) os

  nothing-Finds : (left : ℕ) → Finds left (nothing_found amm)
  nothing-Finds left t amount seen pools path [] c h = tt
  nothing-Finds left t amount seen pools path (o ∷ os) c h = cc

  Carries-step :
      (t b : Token) (p : P) (amount out : ℤ) (pools : List P) (path : List Token)
      → Carries t amount pools path
      → hop amm p t amount ≡ ok out
      → Carries b out (pools ++ p ∷ []) (path ++ b ∷ [])
  unfolding output_along
  Carries-step t b p amount out pools path c h more after =
      rw (append_assoc pools (p ∷ []) more, append_assoc path (b ∷ []) after)
        (c (p ∷ more) (b ∷ after) ∙ (rw h refl))

  deeper-IsCycle :
      (left : ℕ) (t b : Token) (p : P) (seen : List ℕ) (pools : List P) (path : List Token)
      (os : List (ArbitrageOpportunity P))
      → Trades amm finder t.address (p, b)
      → has (amm.id p) seen ≡ false
      → All (IsCycle left b (amm.id p ∷ seen) (pools ++ p ∷ []) (path ++ b ∷ [])) os
      → All (IsCycle (suc left) t seen pools path) os
  deeper-IsCycle left t b p seen pools path [] h k a = tt
  deeper-IsCycle left t b p seen pools path (o ∷ os) h k (first, rest) = (
    record {
      extends = record {
        more = p ∷ first.extends.more;
        after = b ∷ first.extends.after;
        pools_eq = first.extends.pools_eq ∙ append_assoc pools (p ∷ []) first.extends.more;
        path_eq = first.extends.path_eq ∙ append_assoc path (b ∷ []) first.extends.after;
        leads = (h, k, first.extends.leads);
      };
      out = first.out;
      pays_out = first.pays_out;
      gross = first.gross;
      gains = first.gains;
      gas = first.gas;
      input = first.input;
    },
    deeper-IsCycle left t b p seen pools path os h k rest,
  )

  -- The cycle that one more swap closes.
  module _ (t b : Token) (p : P) (amount out : ℤ) (seen : List ℕ) (pools : List P)
      (path : List Token) (carries : Carries t amount pools path)
      (paid : hop amm p t amount ≡ ok out) where
    abbrev closing : Route P → ArbitrageOpportunity P
    closing r =
        opportunity start amount_in circular (out -ℤ amount_in)
          (gas_for gas_price_wei (length r.pools)) r

    abbrev closed : Route P
    closed = record { pools = pools ++ p ∷ []; path = path ++ b ∷ [] }

    closed_pays : get_output amm closed amount_in ≡ ok out
    unfolding output_along
    closed_pays = carries (p ∷ []) (b ∷ []) ∙ (rw paid refl)

    closing-IsCycle :
        (left : ℕ)
        → Trades amm finder t.address (p, b)
        → has (amm.id p) seen ≡ false
        → token_eq b start ≡ true
        → pos 0 <ℤ out -ℤ amount_in
        → IsCycle (suc left) t seen pools path (closing closed)
    closing-IsCycle left trades new home gain = record {
      extends = record {
        more = p ∷ [];
        after = b ∷ [];
        pools_eq = refl;
        path_eq = refl;
        leads = (trades, new, home);
      };
      out = out;
      pays_out = closed_pays;
      gross = refl;
      gains = gain;
      gas = refl;
      input = refl;
    }

    close-IsCycle :
        (left : ℕ) (os : List (ArbitrageOpportunity P))
        → Trades amm finder t.address (p, b)
        → has (amm.id p) seen ≡ false
        → token_eq b start ≡ true
        → close amm start amount_in gas_price_wei out (pools ++ p ∷ []) (path ++ b ∷ []) ≡ ok os
        → All (IsCycle (suc left) t seen pools path) os
    close-IsCycle left os trades new home h = elim (Bool-cases (ltb_ℤ (pos 0) (out -ℤ amount_in))) [
      | inl gain ↦
          let (r, made, h') =
            >>=-eq-ok (make_route {E = E} (pools ++ p ∷ []) (path ++ b ∷ [])) _ (rw gain at h) in
          let is_made = make_route-eq (pools ++ p ∷ []) (path ++ b ∷ []) r made in
          let cycle = closing-IsCycle left trades new home (ground arith) in
          let same : closing r ∷ [] ≡ os = ok_values h' in
          let here : IsCycle (suc left) t seen pools path (closing r) =
            subst (λ (x : Route P). IsCycle (suc left) t seen pools path (closing x)) (sym is_made)
              cycle in
          let both : All (IsCycle (suc left) t seen pools path) (closing r ∷ []) = (here, tt) in
          subst (All (IsCycle (suc left) t seen pools path)) same both
      | inr loss ↦ nothing-Finds (suc left) t amount seen pools path os carries (rw loss at h)
    ]

  proceed-IsCycle :
      (left : ℕ) (deeper : Search amm)
      → Finds left deeper
      → (t b : Token) (p : P) (amount out : ℤ) (seen : List ℕ) (pools : List P) (path : List Token)
        (os : List (ArbitrageOpportunity P))
      → Trades amm finder t.address (p, b)
      → has (amm.id p) seen ≡ false
      → Carries t amount pools path
      → hop amm p t amount ≡ ok out
      → proceed amm start amount_in gas_price_wei deeper p b out seen pools path ≡ ok os
      → All (IsCycle (suc left) t seen pools path) os
  proceed-IsCycle left deeper ih t b p amount out seen pools path os trades new c paid h =
      elim (Bool-cases (token_eq b start && not (length pools == 0))) [
        | inl home ↦
            close-IsCycle t b p amount out seen pools path c paid left os trades new
              (left_of (token_eq b start) _ home) (rw home at h)
        | inr away ↦ elim (Bool-cases (any (token_eq b) path)) [
          | inl again ↦
              nothing-Finds (suc left) t amount seen pools path os c (rw (away, again) at h)
          | inr first ↦ deeper-IsCycle left t b p seen pools path os trades new (
              ih b out _ _ _ os (Carries-step t b p amount out pools path c paid)
                (rw (away, first) at h))
        ]
      ]

  visit_edges-Finds :
      (left : ℕ) (deeper : Search amm)
      → Finds left deeper
      → (edges : List (P × Token)) (t : Token) → All (Trades amm finder t.address) edges
      → (amount : ℤ) (seen : List ℕ) (pools : List P) (path : List Token)
        (os : List (ArbitrageOpportunity P))
      → Carries t amount pools path
      → visit_edges amm start amount_in gas_price_wei deeper edges t amount seen pools path ≡ ok os
      → All (IsCycle (suc left) t seen pools path) os
  unfolding visit_edges
  visit_edges-Finds left deeper ih [] t a amount seen pools path os c h =
      nothing-Finds (suc left) t amount seen pools path os c h
  visit_edges-Finds left deeper ih ((p, b) ∷ edges) t a amount seen pools path os c h =
      elim (Bool-cases (has (amm.id p) seen)) [
        | inl old ↦
            visit_edges-Finds left deeper ih edges t a.1 amount seen pools path os c (rw old at h)
        | inr new ↦
            let (out, paid, h') = >>=-eq-ok (hop amm p t amount) _ (rw new at h) in
            let (here, hh, h'') =
              >>=-eq-ok (proceed amm start amount_in gas_price_wei deeper p b out seen pools path) _
                h' in
            let (others, ho, h''') = >>=-eq-ok _ _ h'' in
            subst (All (IsCycle (suc left) t seen pools path)) (ok_values h''') (
              All-append _ here others
                (proceed-IsCycle left deeper ih t b p amount out seen pools path here a.0 new c paid
                  hh)
                (visit_edges-Finds left deeper ih edges t a.1 amount seen pools path others c ho))
      ]

  pub dfs_circular-Finds :
      (graph : Dict Address (List (P × Token)))
      → Adjacent amm finder graph
      → (left : ℕ)
      → Finds (suc left) (dfs_circular amm start amount_in gas_price_wei graph (suc left))
  unfolding dfs_circular
  dfs_circular-Finds graph adjacent zero t = λ amount seen pools path os c h.
      visit_edges-Finds zero (nothing_found amm) (nothing-Finds zero) _ t (adjacent t.address)
        amount seen pools path os c h
  dfs_circular-Finds graph adjacent (suc left) t = λ amount seen pools path os c h.
      visit_edges-Finds (suc left) _ (dfs_circular-Finds graph adjacent left) _ t
        (adjacent t.address) amount seen pools path os c h
