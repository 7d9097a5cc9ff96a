-- ===== src/Pricing/Router/Search.antt =====
-- What the search of pricing/router.py finds.
use mathlib.Core.List.{append_assoc, append-nil}
use peanut_trade_internship.Base.{
  ℕ, suc, zero, ◌==◌, ==_iff, subst, true, false, not, ◌&&◌, List, [], ◌∷◌, ◌++◌, ◌≡◌, refl, sym,
  ap, ◌∙◌, ◌⊎◌, inl, inr, arith, Outcome, ok, >>=-eq-ok, ok_values, Bool-cases, All, All-append,
  nat_eq,
}
use peanut_trade_internship.Base.Member.{IsIn, all-IsIn}
use peanut_trade_internship.Base.Dict.{Dict, lookup_or, lookup_or-insert}
use peanut_trade_internship.Core.Token.{Address, Token, token_eq}
use peanut_trade_internship.Pricing.Router.{
  AmmPool, RouterError, Route, has, single, make_route, add_edge, add_pools, build_graph, dfs,
  visit_all, find_all_routes,
}

none_found :
    {E A : Type 0} (Q : A → Type 0) (rs : List A)
    → ◌≡◌ {A = Outcome E (List A)} (ok []) (ok rs)
    → All Q rs
none_found Q [] h = tt
none_found Q (r ∷ rs) h = cc

pub make_route-eq :
    {P E : Type 0} (pools : List P) (path : List Token) (r : Route P)
    → make_route {E = E} pools path ≡ ok r
    → r ≡ record { pools = pools; path = path }
make_route-eq pools path r h = ground arith

module _ {P E : Type 0} (amm : AmmPool P E) (finder : List P) where
  -- `pool` is one of the finder, and trades the token at `a` for `b`.
  abbrev pub Trades : Address → P × Token → Type 0
  Trades a (pool, b) =
      IsIn pool finder
      × (((amm.token0 pool).address ≡ a) × (amm.token1 pool ≡ b)
          ⊎ ((amm.token1 pool).address ≡ a) × (amm.token0 pool ≡ b))

  abbrev pub Adjacent : Dict Address (List (P × Token)) → Type 0
  Adjacent graph = (a : Address) → All (Trades a) (lookup_or a [] graph)

  add_edge-Adjacent :
      (t : Token) (pool : P) (other : Token) (graph : Dict Address (List (P × Token)))
      → Trades t.address (pool, other)
      → Adjacent graph
      → Adjacent (add_edge amm t pool other graph)
  add_edge-Adjacent t pool other graph h g a = elim (Bool-cases (t.address == a)) [
    | inl same ↦
        let e = (==_iff t.address a).0 same in
        rw (lookup_or-insert t.address a _ [] graph, same)
          (All-append _ _ _ (subst (λ k. All (Trades a) (lookup_or k [] graph)) (sym e) (g a))
            (subst (λ k. Trades k (pool, other)) e h, tt))
    | inr other ↦ rw (lookup_or-insert t.address a _ [] graph, other) (g a)
  ]

  pub add_pools-Adjacent :
      (pools : List P) (graph : Dict Address (List (P × Token)))
      → All (λ p. IsIn p finder) pools
      → Adjacent graph
      → Adjacent (add_pools amm pools graph)
  add_pools-Adjacent [] graph a g = g
  add_pools-Adjacent (p ∷ ps) graph a g = add_pools-Adjacent ps _ a.1 (
      add_edge-Adjacent (amm.token1 p) p (amm.token0 p) _ (a.0, inr (refl, refl))
        (add_edge-Adjacent (amm.token0 p) p (amm.token1 p) graph (a.0, inl (refl, refl)) g))

  -- The rest of a route from `current`: at most `left` more pools, each trading the token before
  -- it for the one after it, none of them seen before, up to `token_out`.
  abbrev pub Leads : Token → ℕ → Token → List ℕ → List P → List Token → Type 0
  Leads token_out left t seen [] [] = token_eq t token_out ≡ true
  Leads token_out left t seen [] (b ∷ bs) = ⊥
  Leads token_out left t seen (p ∷ ps) [] = ⊥
  Leads token_out zero t seen (p ∷ ps) (b ∷ bs) = ⊥
  Leads token_out (suc left) t seen (p ∷ ps) (b ∷ bs) =
      Trades t.address (p, b)
      × (has (amm.id p) seen ≡ false)
      × Leads token_out left b (amm.id p ∷ seen) ps bs

  -- The route goes on from `pools` and `path`, which end at `t`.
  pub record Extends (token_out : Token) (left : ℕ) (t : Token) (seen : List ℕ) (pools : List P)
      (path : List Token) (r : Route P) : Type 0 where
    pub more : List P
    pub after : List Token
    pub pools_eq : r.pools ≡ pools ++ more
    pub path_eq : r.path ≡ path ++ after
    pub leads : Leads token_out left t seen more after

  module _ (graph : Dict Address (List (P × Token))) (token_out : Token)
      (adjacent : Adjacent graph) where
    abbrev Sound :
        ℕ
        → (Token
            → List Address
            → List ℕ
            → List P
            → List Token
            → Outcome (RouterError E) (List (Route P)))
        → Type 0
    Sound left visit =
        (t : Token) (tokens : List Address) (seen : List ℕ) (pools : List P) (path : List Token)
        (rs : List (Route P))
        → visit t tokens seen pools path ≡ ok rs
        → All (Extends token_out left t seen pools path) rs

    Extends-step :
        (left : ℕ) (t b : Token) (p : P) (seen : List ℕ) (pools : List P) (path : List Token)
        (rs : List (Route P))
        → Trades t.address (p, b)
        → has (amm.id p) seen ≡ false
        → All (Extends token_out left b (amm.id p ∷ seen) (pools ++ (p ∷ [])) (path ++ (b ∷ []))) rs
        → All (Extends token_out (suc left) t seen pools path) rs
    Extends-step left t b p seen pools path [] h k a = tt
    Extends-step left t b p seen pools path (r ∷ rs) h k a = (
      record {
        more = p ∷ a.0.more;
        after = b ∷ a.0.after;
        pools_eq = rw (a.0.pools_eq) (append_assoc pools (p ∷ []) a.0.more);
        path_eq = rw (a.0.path_eq) (append_assoc path (b ∷ []) a.0.after);
        leads = (h, k, a.0.leads);
      },
      Extends-step left t b p seen pools path rs h k a.1,
    )

    visit_all-Sound :
        (left : ℕ)
        (visit : Token
          → List Address
          → List ℕ
          → List P
          → List Token
          → Outcome (RouterError E) (List (Route P)))
        → Sound left visit
        → (t : Token) (edges : List (P × Token)) → All (Trades t.address) edges
        → (tokens : List Address) (seen : List ℕ) (pools : List P) (path : List Token)
          (rs : List (Route P))
        → visit_all amm graph token_out visit edges tokens seen pools path ≡ ok rs
        → All (Extends token_out (suc left) t seen pools path) rs
    unfolding visit_all
    visit_all-Sound left visit ih t [] a tokens seen pools path [] h = tt
    visit_all-Sound left visit ih t [] a tokens seen pools path (r ∷ rs) h = cc
    visit_all-Sound left visit ih t ((p, b) ∷ edges) a tokens seen pools path rs h =
        let rest = visit_all-Sound left visit ih t edges a.1 tokens seen pools path in
        elim (Bool-cases (has (amm.id p) seen)) [
          | inl s ↦ rest rs (rw s at h)
          | inr s ↦ elim (Bool-cases (has b.address tokens && not (token_eq b token_out))) [
            | inl k ↦ rest rs (rw (s, k) at h)
            | inr k ↦
                let (found, hf, h') = >>=-eq-ok _ _ (rw (s, k) at h) in
                let (others, ho, h'') = >>=-eq-ok _ _ h' in
                subst (All (Extends token_out (suc left) t seen pools path)) (ok_values h'') (
                  All-append _ found others
                    (Extends-step left t b p seen pools path found a.0 s (ih b _ _ _ _ found hf))
                    (rest others ho))
          ]
        ]

    single-Sound :
        (left : ℕ) (t : Token) (seen : List ℕ) (pools : List P) (path : List Token)
        (rs : List (Route P))
        → token_eq t token_out ≡ true
        → single amm pools path ≡ ok rs
        → All (Extends token_out left t seen pools path) rs
    single-Sound left t seen pools path rs e h =
        let (r, made, h') = >>=-eq-ok _ _ h in
        let is_made = make_route-eq pools path r made in
        subst (All (Extends token_out left t seen pools path)) (ok_values h') (
          record {
            more = [];
            after = [];
            pools_eq = ap (λ x. x.pools) is_made ∙ sym (append-nil pools);
            path_eq = ap (λ x. x.path) is_made ∙ sym (append-nil path);
            leads = e;
          },
          tt,
        )

    dfs-Sound : (left : ℕ) → Sound left (dfs amm graph token_out left)
    unfolding dfs
    dfs-Sound zero t tokens seen pools path rs h = elim (Bool-cases (token_eq t token_out)) [
      | inl e ↦ single-Sound zero t seen pools path rs e (rw e at h)
      | inr e ↦ none_found _ rs (rw e at h)
    ]
    dfs-Sound (suc left) t tokens seen pools path rs h = elim (Bool-cases (token_eq t token_out)) [
      | inl e ↦ single-Sound (suc left) t seen pools path rs e (rw e at h)
      | inr e ↦
          visit_all-Sound left (dfs amm graph token_out left) (dfs-Sound left) t _
            (adjacent t.address) tokens seen pools path rs (rw e at h)
    ]

module _ {P E : Type 0} (amm : AmmPool P E) where
  -- Every route found goes from token_in to token_out in at most max_hops swaps, each in a pool
  -- of the finder that trades the token before it for the one after it, and no pool twice.
  pub find_all_routes-Extends :
      (pools : List P) (token_in token_out : Token) (max_hops : ℕ) (rs : List (Route P))
      → find_all_routes amm pools token_in token_out max_hops ≡ ok rs
      → All (Extends amm pools token_out max_hops token_in [] [] (token_in ∷ [])) rs
  find_all_routes-Extends pools token_in token_out max_hops rs h =
      dfs-Sound amm pools (build_graph amm pools) token_out
        (add_pools-Adjacent amm pools pools [] (all-IsIn pools) (λ a. tt)) max_hops token_in _ [] []
        _ rs h
