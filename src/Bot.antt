-- ===== src/Bot.antt =====
-- `ArbBot` of scripts/arb_bot.py: its state, the steps that may raise, and the synchronization and
-- the verification of the balances. `units` is the integer that the risk manager and the queue keep
-- for a float, `coins` and `money` are those of the ledger. The kill switch is a file, here a flag of
-- the state. Alerts, metrics and logs are left out.
pub mod Steps
pub mod Arrive
pub mod Handle
pub mod Tick
mod Tests
use peanut_trade_internship.Base.{
  ℕ, ◌+◌, ◌-◌, ◌*◌, ltb, String, Bool, true, false, not, ◌&&◌, ◌||◌, List, [], ◌∷◌, Option, none,
  some, Outcome, ok, raised, if◌then◌else◌, string_eq,
}
use peanut_trade_internship.Base.Dict.{Dict, lookup, lookup_or, insert}
use peanut_trade_internship.Base.Text.{before_slash, after_slash}
use peanut_trade_internship.Base.Int.{ℤ, pos, pos_part, neg_part, ◌+ℤ◌, ◌-ℤ◌, ltb_ℤ}
use peanut_trade_internship.Base.Float.{Float}
use peanut_trade_internship.Strategy.Signal.{Signal}
use peanut_trade_internship.Strategy.Fees.{FeeStructure, FeeError}
use peanut_trade_internship.Strategy.Generator.{SignalGenerator}
use peanut_trade_internship.Strategy.Scorer.{SignalScorer}
use peanut_trade_internship.Inventory.Tracker.{
  InventoryTracker, update_from_cex, update_from_wallet, get_available,
}
use peanut_trade_internship.Inventory.Skew.{Skew}
use peanut_trade_internship.Inventory.Pnl.{PnLEngine}
use peanut_trade_internship.Executor.Queue.{SignalQueue}
use peanut_trade_internship.Executor.Engine.{Event, World, ExecuteError}
use peanut_trade_internship.Safety.Risk.{RiskManager}

-- The exceptions of a tick.
pub data BotError : Type 0 where
  executor_error : ExecuteError → BotError
  fee_error : FeeError → BotError
  zero_division index_error : BotError

-- `free` and `locked`, as the exchange reports them.
abbrev pub CexBalances : Type 0
CexBalances = Dict String (ℤ × ℤ)

abbrev pub WalletBalances : Type 0
WalletBalances = Dict String ℤ

-- What a handling reads: `time.time()` in the unit of the signals, and the clocks of the risk manager.
pub record Times : Type 0 where
  pub at : ℤ
  pub now : ℕ
  pub next_midnight : ℕ
  pub clock : ℕ

module _ (F : Float) where
  open F use {Num}

  -- What does not change. `unit` and `hour` are those of the risk manager.
  pub record Settings : Type 0 where
    pub score_threshold : Num
    pub min_profit_usd : Num
    pub max_dex_buy_trades : ℕ
    pub trade_size : Num
    pub trade_usd : Num
    pub one_shot : Bool
    pub dry_run : Bool
    pub fees : FeeStructure F
    pub mock_balances : CexBalances
    pub has_chain_client : Bool
    pub balance_sync_interval : ℕ
    pub unit : ℕ
    pub hour : ℕ

  -- The code that is not modelled. A reply of the exchange or of the chain is none where the call
  -- raises, and may depend on how often the balances have been asked for before and on all that the
  -- executor has done.
  pub record Outside : Type 0 where
    pub units : Num → ℤ
    pub coins : Num → ℤ
    pub money : Num → ℤ
    pub timestamp : ℤ → ℕ
    pub amount : ℤ → Num
    pub floor : Num → Num
    pub round1 : Num → Num
    pub seconds : ℤ → Num
    pub get_skews : InventoryTracker → List (Skew F)
    pub fetch_balance : ℕ → List (Event F) → Option CexBalances
    pub fetch_wallet_balances : ℕ → List (Event F) → Option WalletBalances

  pub record Bot : Type 0 where
    pub running : Bool
    pub kill_switch : Bool
    pub queue : SignalQueue (Signal F)
    pub generator : SignalGenerator F
    pub scorer : SignalScorer F
    pub risk_manager : RiskManager
    pub inventory : InventoryTracker
    pub pnl_engine : PnLEngine
    pub world : World F
    pub signals_seen : ℕ
    pub skipped_reasons : Dict String ℕ
    pub dex_buy_trade_count : ℕ
    pub dry_run_count : ℕ
    pub dry_run_log : List (Num × Num × Num)
    pub last_balance_sync : ℕ
    pub balance_reads : ℕ
    pub error_times : List ℕ

  -- A part of a tick: it returns or raises, and leaves a state.
  abbrev pub Step : Type 0 → Type 0
  Step A = Bot → Outcome BotError A × Bot

module _ {F : Float} where
  abbrev pub pure : {A : Type 0} → A → Step F A
  pure a b = (ok a, b)

  abbrev pub continue : {A B : Type 0} → Outcome BotError A → (A → Step F B) → Step F B
  continue (ok a) f b = f a b
  continue (raised e) f b = (raised e, b)

  infixl 5 ◌>>=◌ ◌>>◌
  abbrev pub ◌>>=◌ : {A B : Type 0} → Step F A → (A → Step F B) → Step F B
  ◌>>=◌ m f b = let (r, b') = m b in continue r f b'

  abbrev pub ◌>>◌ : {A B : Type 0} → Step F A → Step F B → Step F B
  m >> k = m >>= λ _. k

  abbrev pub modify : (Bot F → Bot F) → Step F (Unit {0})
  modify f b = (ok tt, f b)

  abbrev pub stop : Bot F → Bot F
  stop b = record b { running = false }

  abbrev pub trigger_kill_switch : Bot F → Bot F
  trigger_kill_switch b = record b { kill_switch = true }

  -- `SIGNALS_SKIPPED` and `_signals_skipped_reasons`
  abbrev pub skip : String → Bot F → Bot F
  skip reason b = record b {
    skipped_reasons = insert reason (lookup_or reason 0 b.skipped_reasons + 1) b.skipped_reasons;
  }

  module _ (settings : Settings F) (outside : Outside F) where
    abbrev pub cex_infos : CexBalances → List (String × ℤ × ℤ)
    cex_infos [] = []
    cex_infos ((asset, (free, locked)) ∷ d) = (asset, free, locked) ∷ cex_infos d

    abbrev pub free_amounts : CexBalances → WalletBalances
    free_amounts [] = []
    free_amounts ((asset, (free, locked)) ∷ d) = (asset, free) ∷ free_amounts d

    abbrev pub cex_synced : Option CexBalances → InventoryTracker → InventoryTracker
    cex_synced none t = t
    cex_synced (some d) t = update_from_cex "binance" (cex_infos d) t

    abbrev pub wallet_synced : Option WalletBalances → InventoryTracker → InventoryTracker
    wallet_synced none t = t
    wallet_synced (some d) t = update_from_wallet "wallet" d t

    abbrev pub synced_inventory :
        CexBalances → ℕ → List (Event F) → InventoryTracker → InventoryTracker
    synced_inventory [] k events t =
        let t' = cex_synced (outside.fetch_balance k events) t in
        if settings.has_chain_client
        then wallet_synced (outside.fetch_wallet_balances k events) t'
        else t'
    synced_inventory mock k events t =
        wallet_synced (some (free_amounts mock)) (cex_synced (some mock) t)

    unfoldable pub sync_balances : Bot F → Bot F
    sync_balances b = record b {
      inventory =
          synced_inventory settings.mock_balances b.balance_reads b.world.events b.inventory;
      balance_reads = b.balance_reads + 1;
    }

    abbrev pub free_in : String → CexBalances → ℤ
    free_in asset d = elim (lookup asset d) [ none ↦ pos 0 | some (free, locked) ↦ free ]

    -- `|a|`
    abbrev pub magnitude : ℤ → ℕ
    magnitude a = pos_part a + neg_part a

    -- `abs(actual - expected) / expected > 0.01`, for an `expected` that is not 0
    abbrev pub mismatched : (actual expected : ℤ) → Bool
    mismatched actual expected =
        ltb_ℤ (pos 0) expected && ltb (pos_part expected) (magnitude (actual -ℤ expected) * 100)

    abbrev pub cex_mismatch : CexBalances → String → InventoryTracker → Bool
    cex_mismatch actual asset t =
        mismatched (free_in asset actual) (get_available "binance" asset t)

    abbrev pub wallet_mismatch : Option WalletBalances → String → InventoryTracker → Bool
    wallet_mismatch none asset t = false
    wallet_mismatch (some actual) asset t =
        mismatched (lookup_or asset (pos 0) actual) (get_available "wallet" asset t)

    abbrev pub any_mismatch :
        Option CexBalances → String → ℕ → List (Event F) → InventoryTracker → Bool
    any_mismatch none pair k events t = false
    any_mismatch (some actual) pair k events t =
        cex_mismatch actual (before_slash pair) t
        || cex_mismatch actual (after_slash pair) t
        || settings.has_chain_client
          && wallet_mismatch (outside.fetch_wallet_balances k events) (before_slash pair) t

    unfoldable pub verify_balances : String → Bot F → Bot F
    verify_balances pair b =
        let k = b.balance_reads in
        let b' = record b { balance_reads = k + 1 } in
        if any_mismatch (outside.fetch_balance k b.world.events) pair k b.world.events b.inventory
        then stop b'
        else b'
