-- ===== src/Executor/Engine.antt =====
-- The data of executor/engine.py: the executor's states, the context of one execution, the
-- configuration, and the venues that an execution talks to.
mod Action
pub mod Legs
pub mod Run
use peanut_trade_internship.Base.{
  ℕ, ◌+◌, String, Bool, true, false, Option, none, some, List, [], ◌∷◌, Outcome, ok, raised,
}
use peanut_trade_internship.Base.Int.{ℤ}
use peanut_trade_internship.Base.Float.{Float}
use peanut_trade_internship.Strategy.Signal.{Signal}
use peanut_trade_internship.Executor.Recovery.{CircuitBreaker, ReplayProtection}

pub data ExecutorState : Type 0 where
  idle validating leg1_pending leg1_filled leg2_pending done failed unwinding : ExecutorState

pub data Venue : Type 0 where
  cex dex : Venue

pub data Side : Type 0 where
  buy sell : Side

module _ (F : Float) where
  open F use {Num}

  pub record ExecutionContext : Type 0 where
    pub signal : Signal F
    pub state : ExecutorState
    pub leg1_venue : Option Venue
    pub leg1_fill_price : Option Num
    pub leg1_fill_size : Option Num
    pub leg2_venue : Option Venue
    pub leg2_fill_price : Option Num
    pub leg2_fill_size : Option Num
    pub started_at : ℤ
    pub finished_at : Option ℤ
    pub actual_net_pnl : Option Num
    pub error : Option String

  -- `fee_structure` is its method `fee_usd`; the fields that only the transactions of the DEX legs
  -- read are left out.
  pub record ExecutorConfig : Type 0 where
    pub min_fill_ratio : Num
    pub use_flashbots : Bool
    pub simulation_mode : Bool
    pub fee_structure : Option (Num → Num)
    pub leg1_max_retries : ℕ
    pub leg1_retry_base_delay : Num

  -- `create_limit_ioc_order(symbol, side, amount, price, {"clientOrderId": …})`
  pub record OrderRequest : Type 0 where
    pub symbol : String
    pub side : Side
    pub amount : Num
    pub price : Num
    pub client_order_id : Option String

  -- What an execution does to the world outside.
  pub data Event : Type 0 where
    limit_order : OrderRequest → Event
    market_order : String → Side → Num → Event
    dex_swap : Signal F → Num → Event
    dex_unwind : Signal F → Num → Event
    pause : Num → Event
    -- `log.critical("… unwind failed … — manual intervention required")`
    unwind_failed : Venue → Signal F → Event

  -- The result dict of a leg: `success` with price and fill, or the `error` of a failure.
  pub data Leg : Type 0 where
    filled : Num → Num → Leg
    rejected : String → Leg

  -- A reply, or an exception other than a timeout.
  pub data Reply (A : Type 0) : Type 0 where
    answered : A → Reply A
    broke : Reply A

  -- How `_unwind_dex_leg_sync` ends: it finds that there is nothing to swap, it raises before the
  -- swap is sent (no wallet, no client, no quote, no approval), or it sends the swap, after which it
  -- may raise too.
  pub data DexUnwind : Type 0 where
    zero_amount : DexUnwind
    unsent : DexUnwind
    sent : Reply (Unit {0}) → DexUnwind

  -- `result` of an order: its status, average price and filled amount.
  pub record OrderResult : Type 0 where
    pub status : String
    pub avg_fill_price : Num
    pub amount_filled : Num

  -- The exchange's trading rules for a pair; `validate` gives the reason of a refusal.
  pub record TradingRules : Type 0 where
    pub round_price : Num → Num
    pub round_quantity : Num → Num
    pub validate : Num → Num → Option String

  -- The venues, the clock and the random numbers. A reply may depend on all that was done before,
  -- the newest event first.
  pub record Venues : Type 0 where
    pub clock : ℕ → ℤ
    pub order_tag : List Event → String
    pub random : List Event → Num
    pub trading_rules : String → TradingRules
    pub fetch_order_book : List Event → String → Reply (Option Num × Option Num)
    pub create_limit_ioc_order : List Event → OrderRequest → Reply OrderResult
    pub execute_dex_leg_sync : List Event → Signal F → Num → Reply Leg
    pub create_market_order : List Event → String → Side → Num → Reply (Unit {0})
    -- for the signal, and the price and the size of the fill of leg 1
    pub unwind_dex_leg_sync : List Event → Signal F → Option Num → Num → DexUnwind
    -- whether `asyncio.wait_for` gives up on the leg that has just been started
    pub times_out : List Event → Bool

  -- The state of the executor, and what has been done so far.
  pub record World : Type 0 where
    pub circuit_breaker : CircuitBreaker
    pub replay_protection : ReplayProtection
    pub events : List Event
    pub clock_reads : ℕ

-- The exceptions that leave `execute`.
pub data ExecuteError : Type 0 where
  zero_division venue_error : ExecuteError

abbrev pub Act : Float → Type 0 → Type 0
Act F A = World F → Outcome ExecuteError A × World F
