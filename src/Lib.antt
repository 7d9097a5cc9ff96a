-- ===== src/Lib.antt =====
-- A model of the core of an arbitrage bot: the prices that it computes from automated market makers,
-- the signals that it makes of them, the gates in front of a trade, the executor of a two-legged
-- trade, the books that it keeps, and its client of the chain.
--
-- How the parts interact. The router (pricing/router.py) quotes routes over pools; any pool with the
-- interface of pricing/protocols.py will do, among them UniswapV2Pair and UniswapV3Pool. The detector of
-- arbitrage (pricing/arbitrage.py) searches the same graph for cycles, and the impact analyzer
-- (pricing/impact_analyzer.py) looks for sizes that a pair bears. The generator
-- (strategy/generator.py) compares the prices of exchange and chain, after the fees of
-- strategy/fees.py, and asks the tracker whether the funds are there; the scorer
-- (strategy/scorer.py) weighs its signals by spread, depth, skew and past results. A signal
-- (strategy/signal.py) waits in a queue (executor/queue.py), passes the validator and the risk
-- manager (safety/risk.py) and the absolute limits (safety/constants.py), and goes to the executor
-- (executor/engine.py), which asks the circuit breaker and the replay guard (executor/recovery.py),
-- runs the legs and tells the breaker how they ended. The local order book (exchange/ws_orderbook.py)
-- and its analysis (exchange/order_book.py) give prices on the exchange, and the tracker
-- (inventory/tracker.py) says where the funds are; the planner (inventory/rebalancer.py) moves them
-- back between venues, and the ledger (inventory/pnl.py) sums up the trades. Transactions are put
-- together by chain/builder.py and sent, and their receipts awaited, by chain/client.py. The bot
-- (scripts/arb_bot.py) composes them: a tick looks at the kill switch and at the circuit breaker,
-- generates a signal for each pair, puts those that pass validator, risk manager and thresholds into
-- the queue, and then takes them out one by one, checks the decayed score and the absolute limits,
-- executes them, and brings scorer, tracker, ledger and risk manager up to date.
--
-- Which file models which part.
--   Base            shared names, integers, dicts, exceptions, abstract floats
--   Core            core/types.py: Token, TokenAmount (__add__ is add, __sub__ is sub, and so on)
--   Pricing/Amm     pricing/amm.py: UniswapV2Pair; make is the constructor with __post_init__
--   Pricing/AmmV3   pricing/amm_v3.py: UniswapV3Pool; zero_for_one and one_for_zero are the branches
--                   of get_amount_out
--   Pricing/Router  pricing/router.py: Route, RouteFinder; dfs and visit_all are _dfs and its loop
--   Pricing/Arbitrage   pricing/arbitrage.py; dfs_circular and visit_edges are _dfs_circular
--                   and its loop
--   Pricing/Impact  pricing/impact_analyzer.py
--   Strategy        the files of the same names under strategy/: Signal, Fees, Scorer, Generator
--   Executor/Recovery, Executor/Queue, Executor/Engine   the files of the same names under executor/;
--                   Engine/Legs has the legs, the retries and the unwinding, Engine/Run has execute
--                   and its two orders of legs
--   Safety          safety/risk.py, in Risk and Validator, and safety/constants.py, in Limits
--   Exchange        exchange/ws_orderbook.py, in Stream, and the two analyzers of a book,
--                   exchange/order_book.py, in Depth, and exchange/orderbook.py, in Walk
--   Chain           chain/builder.py: TransactionBuilder in Builder (set_to is to, set_calldata is data,
--                   and so on), NonceManager in Nonces; chain/client.py in Client, with its receipts
--                   and those of core/types.py in Client/Receipts; chain/errors.py in Errors;
--                   to_dict of core/types.py in Request
--   Inventory       inventory/tracker.py: InventoryTracker in Tracker, Skew and Snapshot,
--                   CostBasisTracker in CostBasis; inventory/rebalancer.py: RebalancePlanner in
--                   Rebalancer; inventory/pnl.py: PnLEngine in Pnl, PositionPnLEngine in CostBasis
--   Bot             scripts/arb_bot.py: ArbBot. Arrive has _generate_one, Handle the body of the loop
--                   over the queue, Handle/Ledger execution_to_arb_record, Tick has _tick, that loop
--                   and the loop of run; sync_balances and verify_balances are _sync_balances and
--                   _verify_balances. A step returns or raises, and leaves a state in either case.
-- In each, a record is the state of the class, and an operation is a function of the method's name
-- from the state to the new state, in Outcome where it may raise. Modules named Tests hold instances.
--
-- Numbers. Python ints are integers or natural numbers without bound. Decimals and money are
-- integers of a fixed unit, and quotients are exact fractions or are compared by their products. The
-- floats of the executor and of the strategy, and the percentages of the skew, are an interface
-- without laws (Base/Float), so theorems on them hold for every rounding; where one needs an order,
-- it says so. The bot turns its floats into the integers of risk manager, queue and ledger by
-- functions of which nothing is assumed. Clocks, random numbers, venues, pools and the replies of
-- web3 are parameters.
--
-- Bounds. The searches of the router and of the detector recur on the hops that are left, which is
-- the code's own bound, and the retries on the attempts that are left. Three loops have fuel, with
-- none for a run that is out of it: the one of the planner, the wait for a receipt and the binary
-- search for a size. Their theorems say how much is enough, and when the planner needs more than
-- any. The loop of the bot over its queue has one round more than there are signals, which is
-- enough; its outer loop recurs on the list of the ticks.
--
-- Not modelled: the exchange clients, the fork simulator and the decoding of transactions, which
-- stand on web3 and the interfaces of venues; the transactions of the DEX legs and of their unwinding,
-- which are replies of the venues; WeightRebalancePlanner, whose quotients are rounded decimals; sockets, files,
-- logging, metrics, dashboards and the other scripts, since they are I/O or calls of libraries; of
-- the bot its wiring, its start and its alerts, its planner of transfers, which its loop does not
-- call, and emergency_flatten. The replies of exchange and chain to its requests for balances are
-- parameters, and so is get_skews of the tracker. The calls of the generator, which run beside each
-- other, are ordered by their returns. The signing and serializing of data and the settings are not
-- modelled either.
pub mod Base
pub mod Core
pub mod Pricing
pub mod Strategy
pub mod Executor
pub mod Chain
pub mod Safety
pub mod Exchange
pub mod Inventory
pub mod Bot
