-- ===== src/Pricing/Router.antt =====
-- `Route` and `RouteFinder` of pricing/router.py. A pool is anything with the interface of
-- `AMMPool` (pricing/protocols.py); `id` is Python's identity of the object. A token is hashed and
-- compared by its address, so the graph is a dict of addresses. `_dfs` restores its two sets and
-- lists after each call, so here each call has its own; `left` is max_hops - len(pools_so_far).
pub mod Search
pub mod Compare
pub mod Amounts
mod Tests
use peanut_trade_internship.Base.{
  ℕ, suc, zero, ◌+◌, ◌*◌, ◌^◌, Bool, true, false, not, ◌&&◌, Option, none, some, List, [], ◌∷◌,
  ◌++◌, ◌==◌, length, any, if◌then◌else◌, Outcome, ok, raised, ◌>>=◌, ◌>>◌, raise_if, nat_eq,
}
use peanut_trade_internship.Base.Dict.{Dict, lookup_or, insert}
use peanut_trade_internship.Base.Int.{ℤ, pos, ◌-ℤ◌, ◌*ℤ◌, ltb_ℤ, max_ℤ}
use peanut_trade_internship.Core.Token.{Address, Token, token_eq}

pub record AmmPool (P E : Type 0) : Type 0 where
  pub id : P → ℕ
  pub token0 : P → Token
  pub token1 : P → Token
  pub get_amount_out : P → ℤ → Token → Outcome E ℕ

pub data RouterError (E : Type 0) : Type 0 where
  bad_path_length : RouterError E
  no_pools : RouterError E
  no_route : RouterError E
  pool_error : E → RouterError E

pub record Route (P : Type 0) : Type 0 where
  pub pools : List P
  pub path : List Token

pub record Comparison (P : Type 0) : Type 0 where
  pub route : Route P
  pub gross_output : ℤ
  pub gas_estimate : ℕ
  pub gas_cost : ℤ
  pub net_output : ℤ

abbrev pub gas_base : ℕ
gas_base = 150000

abbrev pub gas_per_hop : ℕ
gas_per_hop = 100000

abbrev pub has : ℕ → List ℕ → Bool
has n ns = any (λ m. m == n) ns

-- `Route.__init__`
abbrev pub make_route : {P E : Type 0} → List P → List Token → Outcome (RouterError E) (Route P)
make_route pools path = do
  raise_if (not (length path == length pools + 1)) bad_path_length
  raise_if (length pools == 0) no_pools
  ok (record { pools = pools; path = path })

abbrev pub estimate_gas : {P : Type 0} → Route P → ℕ
estimate_gas r = gas_base + gas_per_hop * length r.pools

module _ {P E : Type 0} (amm : AmmPool P E) where
  -- One swap of the loop over `zip(self.pools, self.path)`.
  abbrev pub hop : P → Token → ℤ → Outcome (RouterError E) ℤ
  hop pool token_in amount = elim (amm.get_amount_out pool amount token_in) [
    | ok out ↦ ok (pos out)
    | raised e ↦ raised (pool_error e)
  ]

  unfoldable pub output_along : List P → List Token → ℤ → Outcome (RouterError E) ℤ
  output_along [] ts amount = ok amount
  output_along (p ∷ ps) [] amount = ok amount
  output_along (p ∷ ps) (t ∷ ts) amount = hop p t amount >>= λ out. output_along ps ts out

  abbrev pub get_output : Route P → ℤ → Outcome (RouterError E) ℤ
  get_output r amount_in = output_along r.pools r.path amount_in

  unfoldable pub amounts_along : List P → List Token → ℤ → Outcome (RouterError E) (List ℤ)
  amounts_along [] ts amount = ok (amount ∷ [])
  amounts_along (p ∷ ps) [] amount = ok (amount ∷ [])
  amounts_along (p ∷ ps) (t ∷ ts) amount = do
    out ← hop p t amount
    rest ← amounts_along ps ts out
    ok (amount ∷ rest)

  abbrev pub get_intermediate_amounts : Route P → ℤ → Outcome (RouterError E) (List ℤ)
  get_intermediate_amounts r amount_in = amounts_along r.pools r.path amount_in

  abbrev pub Graph : Type 0
  Graph = Dict Address (List (P × Token))

  -- `graph[t].append((pool, other))`
  abbrev pub add_edge : Token → P → Token → Graph → Graph
  add_edge t pool other graph =
      insert t.address (lookup_or t.address [] graph ++ ((pool, other) ∷ [])) graph

  abbrev pub add_pools : List P → Graph → Graph
  add_pools [] graph = graph
  add_pools (p ∷ ps) graph =
      add_pools ps
        (add_edge (amm.token1 p) p (amm.token0 p) (add_edge (amm.token0 p) p (amm.token1 p) graph))

  abbrev pub build_graph : List P → Graph
  build_graph pools = add_pools pools []

  -- The search from one token, with the lists and the sets that lead there.
  abbrev pub Visit : Type 0
  Visit =
      Token → List Address → List ℕ → List P → List Token → Outcome (RouterError E) (List (Route P))

  abbrev pub single : List P → List Token → Outcome (RouterError E) (List (Route P))
  single pools path = do r ← make_route pools path; ok (r ∷ [])

  module _ (graph : Graph) (token_out : Token) where
    -- The loop over `self.graph.get(current, [])`.
    unfoldable pub visit_all :
        Visit
        → List (P × Token)
        → List Address
        → List ℕ
        → List P
        → List Token
        → Outcome (RouterError E) (List (Route P))
    visit_all visit [] tokens seen pools path = ok []
    visit_all visit ((pool, neighbour) ∷ edges) tokens seen pools path =
        let rest = visit_all visit edges tokens seen pools path in
        if has (amm.id pool) seen
        then rest
        else if has neighbour.address tokens && not (token_eq neighbour token_out)
        then rest
        else do
          found ←
              visit neighbour (neighbour.address ∷ tokens) (amm.id pool ∷ seen)
                (pools ++ (pool ∷ [])) (path ++ (neighbour ∷ []))
          others ← rest
          ok (found ++ others)

    unfoldable pub dfs : ℕ → Visit
    dfs zero current tokens seen pools path =
        if token_eq current token_out then single pools path else ok []
    dfs (suc left) current tokens seen pools path =
        if token_eq current token_out
        then single pools path
        else visit_all (dfs left) (lookup_or current.address [] graph) tokens seen pools path

  -- A negative `max_hops` finds what 0 finds.
  abbrev pub find_all_routes : List P → Token → Token → ℕ → Outcome (RouterError E) (List (Route P))
  find_all_routes pools token_in token_out max_hops =
      dfs (build_graph pools) token_out max_hops token_in (token_in.address ∷ []) [] []
        (token_in ∷ [])

  -- The output after gas, and never less than 0.
  abbrev pub net_of : ℤ → ℤ → Route P → ℤ
  net_of gross gas_price_wei r = max_ℤ (pos 0) (gross -ℤ gas_price_wei *ℤ pos (estimate_gas r))

  unfoldable pub best_of :
      ℤ → ℤ → List (Route P) → Option (Route P × ℤ) → Outcome (RouterError E) (Option (Route P × ℤ))
  best_of amount_in gas_price_wei [] best = ok best
  best_of amount_in gas_price_wei (r ∷ rs) best = do
    gross ← get_output r amount_in
    let net = net_of gross gas_price_wei r
    best_of amount_in gas_price_wei rs (elim best [
      | none ↦ some (r, net)
      | some b ↦ if ltb_ℤ b.1 net then some (r, net) else some b
    ])

  abbrev pub gwei : ℤ → ℤ
  gwei gas_price_gwei = gas_price_gwei *ℤ pos (10 ^ 9)

  pub find_best_route : List P → Token → Token → ℤ → ℤ → ℕ → Outcome (RouterError E) (Route P × ℤ)
  find_best_route pools token_in token_out amount_in gas_price_gwei max_hops = do
    routes ← find_all_routes pools token_in token_out max_hops
    best ← best_of amount_in (gwei gas_price_gwei) routes none
    elim best [ none ↦ raised no_route | some b ↦ ok b ]

  pub compare_route : ℤ → ℤ → Route P → Outcome (RouterError E) (Comparison P)
  compare_route amount_in gas_price_wei r = do
    gross ← get_output r amount_in
    ok (record {
      route = r;
      gross_output = gross;
      gas_estimate = estimate_gas r;
      gas_cost = gas_price_wei *ℤ pos (estimate_gas r);
      net_output = net_of gross gas_price_wei r;
    })

  unfoldable pub compare_all :
      ℤ → ℤ → List (Route P) → Outcome (RouterError E) (List (Comparison P))
  compare_all amount_in gas_price_wei [] = ok []
  compare_all amount_in gas_price_wei (r ∷ rs) = do
    c ← compare_route amount_in gas_price_wei r
    cs ← compare_all amount_in gas_price_wei rs
    ok (c ∷ cs)

-- `results.sort(key=net_output, reverse=True)`: equal keys keep their order.
unfoldable pub insert_by_net :
    {P : Type 0} → Comparison P → List (Comparison P) → List (Comparison P)
insert_by_net c [] = c ∷ []
insert_by_net c (d ∷ ds) =
    if ltb_ℤ c.net_output d.net_output then d ∷ insert_by_net c ds else c ∷ d ∷ ds

unfoldable pub sort_by_net : {P : Type 0} → List (Comparison P) → List (Comparison P)
unfolding insert_by_net
sort_by_net [] = []
sort_by_net (c ∷ cs) = insert_by_net c (sort_by_net cs)

pub compare_routes :
    {P E : Type 0}
    → AmmPool P E
    → List P
    → Token
    → Token
    → ℤ
    → ℤ
    → Outcome (RouterError E) (List (Comparison P))
compare_routes amm pools token_in token_out amount_in gas_price_gwei = do
  routes ← find_all_routes amm pools token_in token_out 3
  results ← compare_all amm amount_in (gwei amm gas_price_gwei) routes
  ok (sort_by_net results)
