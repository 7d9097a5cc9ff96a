-- ===== src/Strategy/Tests.antt =====
-- Instances of the theorems on the strategy.
use mathlib.Core.Bool.{false≢true}
use peanut_trade_internship.Base.{
  String, str_eq, ap, true, false, List, [], ◌∷◌, none, some, ◌≡◌, refl, inl, inr, arith, Outcome,
  ok, Bool-cases,
}
use peanut_trade_internship.Base.Int.{ℤ, pos, ◌+ℤ◌, ◌-ℤ◌, leb_ℤ}
use peanut_trade_internship.Base.Hundredths.{hundredths}
use peanut_trade_internship.Strategy.Signal.{Signal, buy_cex_sell_dex}
use peanut_trade_internship.Strategy.Fees.{default_fees, fee_usd}
use peanut_trade_internship.Strategy.Scorer.{Record, SignalScorer, default_config, new_scorer}
use peanut_trade_internship.Inventory.Tracker.{
  InventoryTracker, new_tracker, can_execute, get_available,
}
use peanut_trade_internship.Strategy.Generator.{
  SignalGenerator, Prices, Best, Readings, Pricing, PriceError, direct, generate, fetch_prices,
}
use peanut_trade_internship.Strategy.Generator.Best.{
  IsTotal, IsTransitive, IsSound, generate-IsSound,
}
use peanut_trade_internship.Strategy.Generator.Cooldown.{
  Request, answer, begun, called, generate_cools_down,
}
use peanut_trade_internship.Strategy.Generator.Covered.{generate-can_execute}

abbrev a_scorer : SignalScorer hundredths
a_scorer = new_scorer hundredths (default_config hundredths)

abbrev some_results : List Record
some_results = ("ETH/USDC", true) ∷ ("BTC/USDC", false) ∷ ("ETH/USDC", false) ∷ []

total_order : IsTotal hundredths
total_order x y = elim (Bool-cases (leb_ℤ x y)) [ inl e ↦ inl e | inr e ↦ inr (ground arith) ]

transitive_order : IsTransitive hundredths
transitive_order x y z h k = ground arith

abbrev a_generator : SignalGenerator hundredths
a_generator = record {
  fees = default_fees hundredths;
  min_spread_bps = pos 5_000;
  min_profit_usd = pos 500;
  max_position_usd = pos 1_000_000;
  signal_ttl = pos 50;
  cooldown = pos 20;
  last_signal_time = [];
}

abbrev a_tracker : InventoryTracker
a_tracker = record (new_tracker ("binance" ∷ "wallet" ∷ [])) {
  balances =
      ("binance", ("USDC", record { free = pos 500_000; locked = pos 0 }) ∷ [])
      ∷ ("wallet", ("ETH", record { free = pos 300; locked = pos 0 }) ∷ [])
      ∷ [];
}

abbrev read_at : ℤ → Readings hundredths
read_at now = record {
  now = now;
  at_expiry = now +ℤ pos 1;
  at_create = now +ℤ pos 2;
  at_mark = now +ℤ pos 3;
  fresh_id = "ETHUSDC_1";
}

-- 2000 and 2001 at the exchange, 1990 and 2050 on the chain
abbrev a_book : Outcome PriceError (Best hundredths)
a_book = ok (some (pos 200_000), some (pos 200_100))

abbrev a_pricing : Pricing ℤ
a_pricing = direct (ok (some (pos 199_000, pos 205_000)))

abbrev balance : ℤ → ℤ
balance a = a

abbrev a_signal : Signal hundredths
a_signal = record {
  signal_id = "ETHUSDC_1";
  pair = "ETH/USDC";
  direction = buy_cex_sell_dex;
  cex_price = pos 200_100;
  dex_price = pos 205_000;
  spread_bps = pos 20_000;
  size = pos 100;
  expected_gross_pnl = pos 4_002;
  expected_fees = pos 0;
  expected_net_pnl = pos 4_002;
  score = pos 0;
  timestamp = pos 102;
  expiry = pos 151;
  inventory_ok = true;
  within_limits = true;
  bid_ask_spread_bps = pos 0;
}

abbrev after_signal : SignalGenerator hundredths
after_signal = record a_generator { last_signal_time = ("ETH/USDC", pos 103) ∷ [] }

generated :
    generate hundredths balance a_generator a_tracker
      (read_at (pos 100))
      a_book
      a_pricing
      "ETH/USDC"
      (pos 100)
    ≡ ok (some a_signal, after_signal)
unfolding generate fee_usd get_available ◌+ℤ◌ ◌-ℤ◌
generated = refl

generate-IsSound_example :
    (p : Prices hundredths) × (fetch_prices hundredths a_book a_pricing ≡ some p)
    × IsSound hundredths a_generator p a_signal
generate-IsSound_example =
    generate-IsSound hundredths total_order transitive_order balance a_generator a_tracker
      (read_at (pos 100)) a_book a_pricing "ETH/USDC" (pos 100) generated

abbrev request : String → ℤ → Request hundredths balance
request pair now = record {
  inventory = a_tracker;
  readings = read_at now;
  book = a_book;
  pricing = a_pricing;
  pair = pair;
  size = pos 100;
}

abbrev other_signal : Signal hundredths
other_signal = record a_signal {
  pair = "BTC/USDC";
  timestamp = pos 107;
  expiry = pos 156;
  inventory_ok = false;
}

abbrev after_other : SignalGenerator hundredths
after_other = record a_generator {
  last_signal_time = ("ETH/USDC", pos 103) ∷ ("BTC/USDC", pos 108) ∷ [];
}

other_generated :
    answer hundredths balance after_signal (request "BTC/USDC" (pos 105))
    ≡ ok (some other_signal, after_other)
unfolding generate fee_usd get_available ◌+ℤ◌ ◌-ℤ◌
other_generated = refl

-- Another pair has a signal meanwhile.
generate_cools_down_example :
    answer hundredths balance after_other (request "ETH/USDC" (pos 110)) ≡ ok (none, after_other)
unfolding ◌+ℤ◌ ◌-ℤ◌
generate_cools_down_example =
    generate_cools_down hundredths balance a_generator after_signal after_other
      (request "ETH/USDC" (pos 100)) (request "ETH/USDC" (pos 110)) a_signal generated
      (called (request "BTC/USDC" (pos 105)) (some other_signal) after_other begun other_generated)
      ((λ e. absurd (false≢true (ap (λ p. str_eq p "ETH/USDC") e))), tt) refl (omega arith)

generate-can_execute_example :
    (can_execute "binance" "USDC" (pos 200_100) "wallet" "ETH" (pos 100) a_tracker).can_execute
    ≡ true
generate-can_execute_example =
    generate-can_execute hundredths balance transitive_order (λ a b. refl) a_generator a_tracker
      (read_at (pos 100)) a_book a_pricing "ETH/USDC" (pos 100) (pos 100) (pos 200_100) generated
      refl refl refl
