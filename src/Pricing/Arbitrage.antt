-- ===== src/Pricing/Arbitrage.antt =====
-- `ArbitrageDetector` of pricing/arbitrage.py, over the pools and the graph of the router. `_dfs_circular`
-- restores its set and lists after each call, so here each call has its own; the number before it is
-- max_hops - len(pools_so_far).
pub mod Circular
pub mod Sorted
pub mod CrossPool
mod Tests
use peanut_trade_internship.Base.{
  ℕ, zero, suc, ◌+◌, ◌*◌, ◌^◌, Bool, true, false, not, ◌&&◌, ◌||◌, Option, none, some, List, [],
  ◌∷◌, ◌++◌, ◌==◌, length, any, select, if◌then◌else◌, Outcome, ok, raised, ◌>>=◌, ◌>>◌, nat_eq,
}
use peanut_trade_internship.Base.Dict.{Dict, lookup_or}
use peanut_trade_internship.Base.Int.{ℤ, pos, ◌-ℤ◌, ◌*ℤ◌, ltb_ℤ, leb_ℤ}
use peanut_trade_internship.Core.Token.{Address, Token, token_eq}
use peanut_trade_internship.Pricing.Router.{
  AmmPool, RouterError, Route, make_route, estimate_gas, hop, has, build_graph, gas_base,
  gas_per_hop,
}

pub data Strategy : Type 0 where
  circular cross_pool : Strategy

pub record ArbitrageOpportunity (P : Type 0) : Type 0 where
  pub route : Route P
  pub amount_in : ℤ
  pub gross_profit : ℤ
  pub gas_cost : ℤ
  pub token : Token
  pub strategy : Strategy

abbrev pub gwei : ℤ → ℤ
gwei gas_price_gwei = gas_price_gwei *ℤ pos (10 ^ 9)

-- `gas_price_wei * (_GAS_BASE + _GAS_PER_HOP * hops)`
abbrev pub gas_for : ℤ → ℕ → ℤ
gas_for gas_price_wei hops = gas_price_wei *ℤ pos (gas_base + gas_per_hop * hops)

module _ {P : Type 0} where
  abbrev pub net_profit : ArbitrageOpportunity P → ℤ
  net_profit o = o.gross_profit -ℤ o.gas_cost

  abbrev pub is_profitable : ArbitrageOpportunity P → Bool
  is_profitable o = ltb_ℤ (pos 0) o.gross_profit

  abbrev pub is_net_profitable : ArbitrageOpportunity P → Bool
  is_net_profitable o = ltb_ℤ (pos 0) (net_profit o)

  abbrev pub opportunity : Token → ℤ → Strategy → ℤ → ℤ → Route P → ArbitrageOpportunity P
  opportunity token amount_in strategy gross_profit gas_cost route = record {
    route = route;
    amount_in = amount_in;
    gross_profit = gross_profit;
    gas_cost = gas_cost;
    token = token;
    strategy = strategy;
  }

  -- `opportunities.sort(key=gross_profit, reverse=True)`: equal keys keep their order.
  unfoldable pub insert_by_gross :
      ArbitrageOpportunity P → List (ArbitrageOpportunity P) → List (ArbitrageOpportunity P)
  insert_by_gross o [] = o ∷ []
  insert_by_gross o (x ∷ xs) =
      if ltb_ℤ o.gross_profit x.gross_profit then x ∷ insert_by_gross o xs else o ∷ x ∷ xs

  unfoldable pub sort_by_gross : List (ArbitrageOpportunity P) → List (ArbitrageOpportunity P)
  unfolding insert_by_gross
  sort_by_gross [] = []
  sort_by_gross (o ∷ os) = insert_by_gross o (sort_by_gross os)

module _ {P E : Type 0} (amm : AmmPool P E) where
  abbrev pub Found : Type 0
  Found = Outcome (RouterError E) (List (ArbitrageOpportunity P))

  -- The search from a token, with an amount of it and the pools and tokens that lead there.
  abbrev pub Search : Type 0
  Search = Token → ℤ → List ℕ → List P → List Token → Found

  abbrev pub nothing_found : Search
  nothing_found current amount seen pools path = ok []

  module _ (start_token : Token) (amount_in gas_price_wei : ℤ) where
    -- A closed cycle with the amount that comes back.
    abbrev pub close : ℤ → List P → List Token → Found
    close out pools path =
        if ltb_ℤ (pos 0) (out -ℤ amount_in)
        then (make_route pools path >>= λ route. ok (
            opportunity start_token amount_in circular (out -ℤ amount_in)
              (gas_for gas_price_wei (length route.pools)) route
            ∷ []))
        else ok []

    -- What follows one swap.
    abbrev pub proceed : Search → P → Token → ℤ → List ℕ → List P → List Token → Found
    proceed deeper pool neighbour out seen pools path =
        if token_eq neighbour start_token && not (length pools == 0)
        then close out (pools ++ pool ∷ []) (path ++ neighbour ∷ [])
        else if any (token_eq neighbour) path
        then ok []
        else deeper neighbour out (amm.id pool ∷ seen) (pools ++ pool ∷ []) (path ++ neighbour ∷ [])

    -- The loop over `self._graph.get(current, [])`.
    unfoldable pub visit_edges : Search → List (P × Token) → Search
    visit_edges deeper [] current amount seen pools path = ok []
    visit_edges deeper ((pool, neighbour) ∷ edges) current amount seen pools path =
        let rest = visit_edges deeper edges current amount seen pools path in
        if has (amm.id pool) seen then rest else do
          out ← hop amm pool current amount
          here ← proceed deeper pool neighbour out seen pools path
          others ← rest
          ok (here ++ others)

    unfoldable pub dfs_circular : Dict Address (List (P × Token)) → ℕ → Search
    dfs_circular graph zero current =
        visit_edges nothing_found (lookup_or current.address [] graph) current
    dfs_circular graph (suc zero) current =
        visit_edges nothing_found (lookup_or current.address [] graph) current
    dfs_circular graph (suc (suc left)) current =
        visit_edges (dfs_circular graph (suc left)) (lookup_or current.address [] graph) current

  -- A negative `max_hops` finds what 0 finds.
  unfoldable pub find_circular_arbitrage : List P → Token → ℤ → ℤ → (max_hops : ℕ) → Found
  unfolding dfs_circular sort_by_gross
  find_circular_arbitrage pools token amount_in gas_price_gwei max_hops = do
    opportunities ←
        dfs_circular token amount_in (gwei gas_price_gwei) (build_graph amm pools) max_hops token
          amount_in [] [] (token ∷ [])
    ok (sort_by_gross opportunities)

  abbrev pub first : {A : Type 0} → List A → Option A
  first [] = none
  first (x ∷ xs) = some x

  unfoldable pub find_best_circular_arbitrage :
      List P → Token → ℤ → ℤ → ℕ → Outcome (RouterError E) (Option (ArbitrageOpportunity P))
  unfolding find_circular_arbitrage
  find_best_circular_arbitrage pools token amount_in gas_price_gwei max_hops = do
    opps ← find_circular_arbitrage pools token amount_in gas_price_gwei max_hops
    ok (first opps)

  -- The comprehension over the pools; its last two tests repeat the first two.
  abbrev pub shares_pair : Token → Token → P → Bool
  shares_pair token_in token_out p =
      (token_eq (amm.token0 p) token_in && token_eq (amm.token1 p) token_out)
      || (token_eq (amm.token0 p) token_out && token_eq (amm.token1 p) token_in)

  -- `unique_pools`, given the identities that were seen
  unfoldable pub unique : List ℕ → List P → List P
  unique seen [] = []
  unique seen (p ∷ ps) =
      let kept = p ∷ unique (amm.id p ∷ seen) ps in
      let rest = unique seen ps in if has (amm.id p) seen then rest else kept

  module _ (token_in token_out : Token) (amount_in gas_cost : ℤ) where
    abbrev pub profit_of : P → P → ℤ → List (ArbitrageOpportunity P)
    profit_of pool_buy pool_sell final_amount =
        let gross_profit = final_amount -ℤ amount_in in
        if leb_ℤ gross_profit (pos 0)
        then []
        else opportunity token_in amount_in cross_pool gross_profit gas_cost (record {
          pools = pool_buy ∷ pool_sell ∷ [];
          path = token_in ∷ token_out ∷ token_in ∷ [];
        })
          ∷ []

    -- `except ValueError: return None`, and otherwise the opportunity if there is one. The path has
    -- one token more than the pools, so `Route` does not raise.
    abbrev pub profit_or_none : P → P → Outcome (RouterError E) ℤ → List (ArbitrageOpportunity P)
    profit_or_none pool_buy pool_sell (raised e) = []
    profit_or_none pool_buy pool_sell (ok final_amount) = profit_of pool_buy pool_sell final_amount

    unfoldable pub cross_pool_pair : P → P → List (ArbitrageOpportunity P)
    cross_pool_pair pool_buy pool_sell = profit_or_none pool_buy pool_sell (
        hop amm pool_buy token_in amount_in >>= λ mid_amount.
        hop amm pool_sell token_out mid_amount)

    -- One pool with each of those after it.
    unfoldable pub pair_with : P → List P → List (ArbitrageOpportunity P)
    unfolding cross_pool_pair
    pair_with pool_a [] = []
    pair_with pool_a (pool_b ∷ pools) =
        cross_pool_pair pool_a pool_b ++ (cross_pool_pair pool_b pool_a ++ pair_with pool_a pools)

    unfoldable pub all_pairs : List P → List (ArbitrageOpportunity P)
    unfolding pair_with
    all_pairs [] = []
    all_pairs (pool ∷ pools) = pair_with pool pools ++ all_pairs pools

  unfoldable pub find_cross_pool_arbitrage :
      List P → Token → Token → ℤ → ℤ → List (ArbitrageOpportunity P)
  unfolding unique all_pairs sort_by_gross
  find_cross_pool_arbitrage pools token_in token_out amount_in gas_price_gwei = sort_by_gross (
      all_pairs token_in token_out amount_in (gas_for (gwei gas_price_gwei) 2)
        (unique [] (select (shares_pair token_in token_out) pools)))
