-- ===== src/Pricing/Router/Compare.antt =====
-- What `find_best_route` and `compare_routes` of pricing/router.py answer.
use peanut_trade_internship.Base.{
  Bool, true, false, Option, none, some, List, [], ◌∷◌, ◌≡◌, refl, sym, ap, ◌∙◌, inl, inr, arith,
  if◌then◌else◌, Outcome, ok, >>=-eq-ok, ok_values, Bool-cases, All, subst,
}
use peanut_trade_internship.Base.Int.{ℤ, ◌≤ℤ◌, ltb_ℤ}
use peanut_trade_internship.Core.Token.{Token}
use peanut_trade_internship.Pricing.Router.{
  AmmPool, RouterError, Route, Comparison, get_output, net_of, best_of, gwei, find_all_routes,
  find_best_route, compare_route, compare_all, compare_routes, insert_by_net, sort_by_net,
}

-- The comparisons stand from the highest net output down.
abbrev pub IsDescending : {P : Type 0} → List (Comparison P) → Type 0
IsDescending [] = Unit
IsDescending (c ∷ cs) = All (λ d. d.net_output ≤ℤ c.net_output) cs × IsDescending cs

ltb_trans : (a b c : ℤ) → ltb_ℤ a b ≡ true → ltb_ℤ b c ≡ true → ltb_ℤ a c ≡ true
ltb_trans a b c h k = ground arith

ltb_low : (a b c : ℤ) → ltb_ℤ a b ≡ false → ltb_ℤ b c ≡ false → ltb_ℤ a c ≡ false
ltb_low a b c h k = ground arith

some_if :
    {A : Type 0} (t : Bool) (x y : A) → (if t then some x else some y) ≡ some (if t then x else y)
some_if true x y = refl
some_if false x y = refl

module _ {P : Type 0} where
  All-insert_by_net :
      (Q : Comparison P → Type 0) (c : Comparison P) (ds : List (Comparison P))
      → Q c
      → All Q ds
      → All Q (insert_by_net c ds)
  unfolding insert_by_net
  All-insert_by_net Q c [] h a = (h, tt)
  All-insert_by_net Q c (d ∷ ds) h a = elim (Bool-cases (ltb_ℤ c.net_output d.net_output)) [
    | inl lower ↦ rw lower (a.0, All-insert_by_net Q c ds h a.1)
    | inr upper ↦ rw upper (h, a)
  ]

  All-below :
      (c d : Comparison P) (ds : List (Comparison P))
      → d.net_output ≤ℤ c.net_output
      → All (λ x. x.net_output ≤ℤ d.net_output) ds
      → All (λ x. x.net_output ≤ℤ c.net_output) ds
  All-below c d [] h a = tt
  All-below c d (x ∷ ds) h a = (omega (arith, a.0), All-below c d ds h a.1)

  insert_by_net-IsDescending :
      (c : Comparison P) (ds : List (Comparison P))
      → IsDescending ds
      → IsDescending (insert_by_net c ds)
  unfolding insert_by_net
  insert_by_net-IsDescending c [] h = (tt, tt)
  insert_by_net-IsDescending c (d ∷ ds) h = elim (Bool-cases (ltb_ℤ c.net_output d.net_output)) [
    | inl lower ↦ rw lower (
      All-insert_by_net (λ x. x.net_output ≤ℤ d.net_output) c ds (ground arith) h.0,
      insert_by_net-IsDescending c ds h.1,
    )
    | inr upper ↦ rw upper ((ground arith, All-below c d ds (ground arith) h.0), h)
  ]

  sort_by_net-IsDescending : (cs : List (Comparison P)) → IsDescending (sort_by_net cs)
  unfolding sort_by_net
  sort_by_net-IsDescending [] = tt
  sort_by_net-IsDescending (c ∷ cs) =
      insert_by_net-IsDescending c (sort_by_net cs) (sort_by_net-IsDescending cs)

  -- The better one of a best so far and the first of a list.
  abbrev pub first_or : Route P × ℤ → List (Comparison P) → Route P × ℤ
  first_or b [] = b
  first_or b (c ∷ cs) = if ltb_ℤ b.1 c.net_output then (c.route, c.net_output) else b

  first_or-insert :
      (b : Route P × ℤ) (c : Comparison P) (ds : List (Comparison P))
      → first_or (if ltb_ℤ b.1 c.net_output then (c.route, c.net_output) else b) ds
        ≡ first_or b (insert_by_net c ds)
  unfolding insert_by_net
  first_or-insert b c [] = refl
  first_or-insert b c (d ∷ ds) = elim (Bool-cases (ltb_ℤ b.1 c.net_output)) [
    | inl x ↦ elim (Bool-cases (ltb_ℤ c.net_output d.net_output)) [
      | inl y ↦ rw (x, y, ltb_trans b.1 c.net_output d.net_output x y) refl
      | inr y ↦ rw (x, y) (rw x refl)
    ]
    | inr x ↦ elim (Bool-cases (ltb_ℤ c.net_output d.net_output)) [
      | inl y ↦ rw (x, y) refl
      | inr y ↦ rw (x, y, ltb_low b.1 c.net_output d.net_output x y) (rw x refl)
    ]
  ]

  first_or-insert_as :
      (b : Route P × ℤ) (c : Comparison P) (ds : List (Comparison P)) (r : Route P) (net : ℤ)
      → c.route ≡ r
      → c.net_output ≡ net
      → first_or (if ltb_ℤ b.1 net then (r, net) else b) ds ≡ first_or b (insert_by_net c ds)
  first_or-insert_as b c ds r net h k = rw (sym h, sym k) (first_or-insert b c ds)

  first_or-head :
      (d c : Comparison P) (ds cs : List (Comparison P)) (r : Route P) (net : ℤ)
      → d.route ≡ r
      → d.net_output ≡ net
      → insert_by_net d ds ≡ c ∷ cs
      → first_or (r, net) ds ≡ (c.route, c.net_output)
  unfolding insert_by_net
  first_or-head d c [] cs r net h k s = ground arith
  first_or-head d c (x ∷ ds) cs r net h k s = ground arith

module _ {P E : Type 0} (amm : AmmPool P E) where
  compare_route-inv :
      (amount_in gas : ℤ) (r : Route P) (c : Comparison P)
      → compare_route amm amount_in gas r ≡ ok c
      → (gross : ℤ) × (get_output amm r amount_in ≡ ok gross)
        × (c.route ≡ r)
        × (c.net_output ≡ net_of amm gross gas r)
  unfolding compare_route
  compare_route-inv amount_in gas r c h =
      let (gross, hg, made) = >>=-eq-ok _ _ h in
      (
        gross,
        hg,
        sym (ap (λ x. x.route) (ok_values made)),
        sym (ap (λ x. x.net_output) (ok_values made)),
      )

  compare_all-inv :
      (amount_in gas : ℤ) (r : Route P) (rs : List (Route P)) (cs : List (Comparison P))
      → compare_all amm amount_in gas (r ∷ rs) ≡ ok cs
      → (c : Comparison P) × (compare_route amm amount_in gas r ≡ ok c)
        × (ds : List (Comparison P)) × (compare_all amm amount_in gas rs ≡ ok ds)
        × ((c ∷ ds) ≡ cs)
  unfolding compare_all
  compare_all-inv amount_in gas r rs cs h =
      let (c, hc, h') = >>=-eq-ok (compare_route amm amount_in gas r) _ h in
      let (ds, hds, h'') = >>=-eq-ok (compare_all amm amount_in gas rs) _ h' in
      (c, hc, ds, hds, ok_values h'')

  best_of-first_or :
      (amount_in gas : ℤ) (rs : List (Route P)) (b : Route P × ℤ) (cs : List (Comparison P))
      → compare_all amm amount_in gas rs ≡ ok cs
      → best_of amm amount_in gas rs (some b) ≡ ok (some (first_or b (sort_by_net cs)))
  unfolding best_of sort_by_net compare_all
  best_of-first_or amount_in gas [] b cs h =
      subst
        (λ xs.
          ◌≡◌ {A = Outcome (RouterError E) (Option (Route P × ℤ))} (ok (some b))
            (ok (some (first_or b (sort_by_net xs)))))
        (ok_values h) refl
  best_of-first_or amount_in gas (r ∷ rs) b cs h =
      let (c, hc, ds, hds, joined) = compare_all-inv amount_in gas r rs cs h in
      let (gross, hg, is_route, is_net) = compare_route-inv amount_in gas r c hc in
      let net = net_of amm gross gas r in
      let found : best_of amm amount_in gas (r ∷ rs) (some b)
          ≡ ok (some (first_or b (sort_by_net (c ∷ ds)))) =
        rw (hg, some_if (ltb_ℤ b.1 net) (r, net) b)
          (best_of-first_or amount_in gas rs (if ltb_ℤ b.1 net then (r, net) else b) ds hds
            ∙ ap (λ x. ok (some x))
                (first_or-insert_as b c (sort_by_net ds) r net is_route is_net)) in
      subst
        (λ xs.
          best_of amm amount_in gas (r ∷ rs) (some b) ≡ ok (some (first_or b (sort_by_net xs))))
        joined found

  best_of-head :
      (amount_in gas : ℤ) (rs : List (Route P)) (c : Comparison P) (cs ds : List (Comparison P))
      → compare_all amm amount_in gas rs ≡ ok ds
      → sort_by_net ds ≡ c ∷ cs
      → best_of amm amount_in gas rs none ≡ ok (some (c.route, c.net_output))
  unfolding best_of compare_all sort_by_net
  best_of-head amount_in gas [] c cs ds h s =
      let none_left = subst (λ xs. sort_by_net xs ≡ c ∷ cs) (sym (ok_values h)) s in cc
  best_of-head amount_in gas (r ∷ rs) c cs ds h s =
      let (d, hc, es, hds, joined) = compare_all-inv amount_in gas r rs ds h in
      let (gross, hg, is_route, is_net) = compare_route-inv amount_in gas r d hc in
      let net = net_of amm gross gas r in
      let sorted = subst (λ xs. sort_by_net xs ≡ c ∷ cs) (sym joined) s in
      rw hg (
        best_of-first_or amount_in gas rs (r, net) es hds
        ∙ ap (λ x. ok (some x))
            (first_or-head d c (sort_by_net es) cs r net is_route is_net sorted))

  compare_routes-inv :
      (pools : List P) (token_in token_out : Token) (amount_in gas : ℤ) (cs : List (Comparison P))
      → compare_routes amm pools token_in token_out amount_in gas ≡ ok cs
      → (rs : List (Route P)) × (find_all_routes amm pools token_in token_out 3 ≡ ok rs)
        × (ds : List (Comparison P)) × (compare_all amm amount_in (gwei amm gas) rs ≡ ok ds)
        × (sort_by_net ds ≡ cs)
  unfolding compare_routes
  compare_routes-inv pools token_in token_out amount_in gas cs h =
      let (rs, hr, h') = >>=-eq-ok (find_all_routes amm pools token_in token_out 3) _ h in
      let (ds, hd, h'') = >>=-eq-ok (compare_all amm amount_in (gwei amm gas) rs) _ h' in
      (rs, hr, ds, hd, ok_values h'')

  -- Where `compare_routes` answers any route, its head is what `find_best_route` answers at the default three hops.
  pub compare_routes-find_best_route :
      (pools : List P) (token_in token_out : Token) (amount_in gas : ℤ) (c : Comparison P)
      (cs : List (Comparison P))
      → compare_routes amm pools token_in token_out amount_in gas ≡ ok (c ∷ cs)
      → find_best_route amm pools token_in token_out amount_in gas 3 ≡ ok (c.route, c.net_output)
  unfolding find_best_route
  compare_routes-find_best_route pools token_in token_out amount_in gas c cs h =
      let (rs, hr, ds, hd, sorted) =
        compare_routes-inv pools token_in token_out amount_in gas (c ∷ cs) h in
      rw (hr, best_of-head amount_in (gwei amm gas) rs c cs ds hd sorted) refl

  -- What `compare_routes` answers stands from the highest net output down.
  pub compare_routes-IsDescending :
      (pools : List P) (token_in token_out : Token) (amount_in gas : ℤ) (cs : List (Comparison P))
      → compare_routes amm pools token_in token_out amount_in gas ≡ ok cs
      → IsDescending cs
  compare_routes-IsDescending pools token_in token_out amount_in gas cs h =
      let (rs, hr, ds, hd, sorted) =
        compare_routes-inv pools token_in token_out amount_in gas cs h in
      subst IsDescending sorted (sort_by_net-IsDescending ds)
