-- ===== src/Strategy/Generator.antt =====
-- `SignalGenerator` of strategy/generator.py. Prices are abstract numbers, where a float and the
-- `Decimal` of its text are one number; `amount` is the number of a balance. Times are integers in
-- one small unit of the clock, each reading of which is an argument. The replies of the exchange and of
-- the pricing module are arguments too.
pub mod Choice
pub mod Best
pub mod Cooldown
pub mod Covered
use peanut_trade_internship.Base.{
  ℕ, String, Bool, true, false, not, ◌&&◌, List, Option, none, some, if◌then◌else◌, string_eq,
  Outcome, ok, raised, ◌>>=◌,
}
use peanut_trade_internship.Base.Dict.{Dict, lookup_or, insert}
use peanut_trade_internship.Base.Int.{ℤ, pos, ◌+ℤ◌, ◌-ℤ◌, ltb_ℤ}
use peanut_trade_internship.Base.Float.{Float}
use peanut_trade_internship.Base.Text.{before_slash, after_slash}
use peanut_trade_internship.Strategy.Signal.{Signal, Direction, buy_cex_sell_dex, buy_dex_sell_cex}
use peanut_trade_internship.Strategy.Fees.{FeeStructure, FeeError, fee_usd, ten_thousand, usd_of}
use peanut_trade_internship.Inventory.Tracker.{InventoryTracker, get_available}

-- `Exception`, of which only the text is used.
pub data PriceError : Type 0 where
  price_error : String → PriceError

-- What the generator is given as `pricing_module`: nothing, an object with `get_prices_for_pair` and
-- its reply, or the `PricingEngine` of pricing/engine.py, which has neither that nor `get_token`.
pub data Pricing (A : Type 0) : Type 0 where
  stub : Pricing A
  direct : Outcome PriceError (Option (A × A)) → Pricing A
  engine : Pricing A

module _ (F : Float) where
  open F use {Num, literal, add, sub, mul, div, lt, le}

  pub record SignalGenerator : Type 0 where
    pub fees : FeeStructure F
    pub min_spread_bps : Num
    pub min_profit_usd : Num
    pub max_position_usd : Num
    pub signal_ttl : ℤ
    pub cooldown : ℤ
    pub last_signal_time : Dict String ℤ

  pub record Prices : Type 0 where
    pub cex_bid : Num
    pub cex_ask : Num
    pub dex_buy : Num
    pub dex_sell : Num
    pub bid_ask_spread_bps : Num

  -- The best bid and the best ask of an order book.
  abbrev pub Best : Type 0
  Best = Option Num × Option Num

  -- The readings of the clock and the new id.
  pub record Readings : Type 0 where
    pub now : ℤ
    pub at_expiry : ℤ
    pub at_create : ℤ
    pub at_mark : ℤ
    pub fresh_id : String

module _ (F : Float) where
  open F use {Num, literal, add, sub, mul, div, lt, le}

  abbrev nought : Num
  nought = literal (pos 0) 0

  unfoldable pub in_cooldown : SignalGenerator F → String → ℤ → Bool
  in_cooldown g pair now = ltb_ℤ (now -ℤ lookup_or pair (pos 0) g.last_signal_time) g.cooldown

  -- The stub, `_dex_prices_from_engine`, and the `NotImplementedError` of `_get_token`.
  unfoldable pub dex_prices : Num → Pricing Num → Outcome PriceError (Num × Num)
  dex_prices mid stub = ok (mul mid (literal (pos 1_005) 3), mul mid (literal (pos 1_008) 3))
  dex_prices mid (direct reply) = do
    result ← reply
    elim result [ none ↦ raised (price_error "No pool found") | some prices ↦ ok prices ]
  dex_prices mid engine = raised (price_error "Cannot resolve token")

  abbrev pub mid_of : Num → Num → Num
  mid_of bid ask = div (add bid ask) (literal (pos 2) 0)

  abbrev pub prices_of : Num → Num → Num × Num → Prices F
  prices_of bid ask (dex_buy, dex_sell) = record {
    cex_bid = bid;
    cex_ask = ask;
    dex_buy = dex_buy;
    dex_sell = dex_sell;
    bid_ask_spread_bps =
        if lt nought (mid_of bid ask)
        then mul (div (sub ask bid) (mid_of bid ask)) (ten_thousand F)
        else nought;
  }

  -- `except Exception: return None`
  abbrev pub none_if_raised : {A : Type 0} → Outcome PriceError A → Option A
  none_if_raised (ok a) = some a
  none_if_raised (raised e) = none

  abbrev pub prices_at : Best F → Pricing Num → Option (Prices F)
  prices_at (some bid, some ask) pricing =
      if le bid nought
      then none
      else if le ask nought
      then none
      else none_if_raised
          (dex_prices (mid_of bid ask) pricing >>= λ dex. ok (prices_of bid ask dex))
  prices_at _ pricing = none

  unfoldable pub fetch_prices : Outcome PriceError (Best F) → Pricing Num → Option (Prices F)
  unfolding dex_prices
  fetch_prices (raised e) pricing = none
  fetch_prices (ok best) pricing = prices_at best pricing

  -- `(sold - bought) / bought * 10000`, 0 at no positive price
  abbrev pub spread : Num → Num → Num
  spread sold bought =
      if lt nought bought then mul (div (sub sold bought) bought) (ten_thousand F) else nought

  abbrev pub spread_a : Prices F → Num
  spread_a p = spread p.dex_sell p.cex_ask

  abbrev pub spread_b : Prices F → Num
  spread_b p = spread p.cex_bid p.dex_buy

  -- A direction with its spread and its prices at the exchange and on the chain.
  pub record Chosen : Type 0 where
    pub direction : Direction
    pub spread_bps : Num
    pub cex_price : Num
    pub dex_price : Num

  unfoldable pub choose : Num → Prices F → Option Chosen
  choose min_spread p =
      if le (spread_b p) (spread_a p) && le min_spread (spread_a p)
      then some (record {
        direction = buy_cex_sell_dex;
        spread_bps = spread_a p;
        cex_price = p.cex_ask;
        dex_price = p.dex_sell;
      })
      else if le min_spread (spread_b p)
      then some (record {
        direction = buy_dex_sell_cex;
        spread_bps = spread_b p;
        cex_price = p.cex_bid;
        dex_price = p.dex_buy;
      })
      else none

  module _ (amount : ℤ → Num) where
    -- `size * price * Decimal("1.01")`
    abbrev pub needed_quote : Num → Num → Num
    needed_quote size price = mul (mul size price) (literal (pos 101) 2)

    abbrev pub available : String → String → InventoryTracker → Num
    available venue asset t = amount (get_available venue asset t)

    -- of a pair with one slash
    unfoldable pub check_inventory :
        InventoryTracker → String → Direction → (size price : Num) → Bool
    check_inventory t pair buy_cex_sell_dex size price =
        le (needed_quote size price) (available "binance" (after_slash pair) t)
        && le size (available "wallet" (before_slash pair) t)
    check_inventory t pair buy_dex_sell_cex size price =
        le (needed_quote size price) (available "wallet" (after_slash pair) t)
        && le size (available "binance" (before_slash pair) t)

    abbrev pub signal_of :
        SignalGenerator F
        → InventoryTracker
        → Readings F
        → String
        → (size fees : Num) → Prices F
        → Chosen
        → Signal F
    signal_of g t r pair size fees p c =
        let trade_value = mul size c.cex_price in
        let gross = usd_of F c.spread_bps trade_value in
        record {
          signal_id = r.fresh_id;
          pair = pair;
          direction = c.direction;
          cex_price = c.cex_price;
          dex_price = c.dex_price;
          spread_bps = c.spread_bps;
          size = size;
          expected_gross_pnl = gross;
          expected_fees = fees;
          expected_net_pnl = sub gross fees;
          score = nought;
          timestamp = r.at_create;
          expiry = r.at_expiry +ℤ g.signal_ttl;
          inventory_ok = check_inventory t pair c.direction size c.cex_price;
          within_limits = le trade_value g.max_position_usd;
          bid_ask_spread_bps = p.bid_ask_spread_bps;
        }

    abbrev pub Generated : Type 0
    Generated = Outcome FeeError (Option (Signal F) × SignalGenerator F)

    -- A signal that is profitable enough is returned, and starts the cooldown of its pair.
    abbrev pub emit : SignalGenerator F → ℤ → String → Signal F → Generated
    emit g at_mark pair s =
        if lt s.expected_net_pnl g.min_profit_usd
        then ok (none, g)
        else ok (some s, record g { last_signal_time = insert pair at_mark g.last_signal_time })

    abbrev pub evaluate :
        SignalGenerator F
        → InventoryTracker
        → Readings F
        → String
        → Num
        → Prices F
        → Option Chosen
        → Generated
    evaluate g t r pair size p none = ok (none, g)
    evaluate g t r pair size p (some c) = fee_usd F g.fees (mul size c.cex_price) >>= λ fees.
        emit g r.at_mark pair (signal_of g t r pair size fees p c)

    abbrev pub with_prices :
        SignalGenerator F
        → InventoryTracker
        → Readings F
        → String
        → Num
        → Option (Prices F)
        → Generated
    with_prices g t r pair size none = ok (none, g)
    with_prices g t r pair size (some p) = evaluate g t r pair size p (choose g.min_spread_bps p)

    unfoldable pub generate :
        SignalGenerator F
        → InventoryTracker
        → Readings F
        → Outcome PriceError (Best F)
        → Pricing Num
        → String
        → Num
        → Generated
    unfolding in_cooldown fetch_prices choose check_inventory
    generate g t r book pricing pair size =
        if in_cooldown g pair r.now
        then ok (none, g)
        else with_prices g t r pair size (fetch_prices book pricing)
