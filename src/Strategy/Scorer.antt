-- ===== src/Strategy/Scorer.antt =====
-- `SignalScorer` of strategy/scorer.py. Scores are floats; `round1 x` is `round(x, 1)`, and
-- `seconds` is the float of a duration.
pub mod History
pub mod Bounds
use peanut_trade_internship.Base.{
  ℕ, String, str_eq, Bool, true, false, not, ◌&&◌, ◌||◌, List, [], ◌∷◌, ◌++◌, if◌then◌else◌,
  Outcome, ok, raised, ◌>>=◌, ◌>>◌, raise_if, length, last, select, any, ltb, map,
}
use peanut_trade_internship.Base.Int.{ℤ, pos, ◌-ℤ◌, leb_ℤ}
use peanut_trade_internship.Base.Float.{Float}
use peanut_trade_internship.Base.Text.{before_slash}
use peanut_trade_internship.Strategy.Signal.{Signal, age_seconds}
use peanut_trade_internship.Inventory.Skew.{Skew}

pub data ConfigError : Type 0 where
  negative_weight weights_not_one bad_spreads : ConfigError

pub record ScorerConfig (F : Float) : Type 0 where
  pub spread_weight : F.Num
  pub liquidity_weight : F.Num
  pub inventory_weight : F.Num
  pub history_weight : F.Num
  pub excellent_spread_bps : F.Num
  pub min_spread_bps : F.Num
  pub liquid_spread_threshold_bps : F.Num

-- A pair, and whether its trade succeeded.
abbrev pub Record : Type 0
Record = String × Bool

pub record SignalScorer (F : Float) : Type 0 where
  pub config : ScorerConfig F
  pub recent_results : List Record

module _ (F : Float) where
  open F use {Num, literal, add, sub, mul, div, lt, le}

  abbrev pub whole : ℕ → Num
  whole n = literal (pos n) 0

  abbrev pub default_config : ScorerConfig F
  default_config = record {
    spread_weight = literal (pos 4) 1;
    liquidity_weight = literal (pos 2) 1;
    inventory_weight = literal (pos 2) 1;
    history_weight = literal (pos 2) 1;
    excellent_spread_bps = whole 100;
    min_spread_bps = whole 30;
    liquid_spread_threshold_bps = whole 5;
  }

  -- `sum(xs)` from 0
  abbrev pub sum_from : Num → List Num → Num
  sum_from acc [] = acc
  sum_from acc (x ∷ xs) = sum_from (add acc x) xs

  abbrev pub sum : List Num → Num
  sum = sum_from (whole 0)

  abbrev pub weights : ScorerConfig F → List Num
  weights c = c.spread_weight ∷ c.liquidity_weight ∷ c.inventory_weight ∷ c.history_weight ∷ []

  abbrev pub abs_num : Num → Num
  abs_num x = if lt x (whole 0) then sub (whole 0) x else x

  -- `__post_init__`
  unfoldable pub checked : ScorerConfig F → Outcome ConfigError (ScorerConfig F)
  checked c = do
    raise_if (any (λ w. lt w (whole 0)) (weights c)) negative_weight
    raise_if (lt (literal (pos 1) 9) (abs_num (sub (sum (weights c)) (whole 1)))) weights_not_one
    raise_if (le c.excellent_spread_bps c.min_spread_bps) bad_spreads
    ok c

  abbrev pub new_scorer : ScorerConfig F → SignalScorer F
  new_scorer c = record { config = c; recent_results = [] }

  unfoldable pub score_liquidity : ScorerConfig F → Num → Num
  score_liquidity c bid_ask_spread_bps =
      if le bid_ask_spread_bps (whole 0)
      then whole 80
      else if le c.liquid_spread_threshold_bps bid_ask_spread_bps
      then whole 0
      else mul (sub (whole 1) (div bid_ask_spread_bps c.liquid_spread_threshold_bps)) (whole 100)

  unfoldable pub score_spread : ScorerConfig F → Num → Num
  score_spread c spread_bps =
      if le spread_bps c.min_spread_bps
      then whole 0
      else if le c.excellent_spread_bps spread_bps
      then whole 100
      else mul (div (sub spread_bps c.min_spread_bps) (sub c.excellent_spread_bps c.min_spread_bps))
          (whole 100)

  unfoldable pub score_inventory : Signal F → List (Skew F) → Num
  score_inventory signal skews =
      let relevant = select (λ s. str_eq s.asset (before_slash signal.pair)) skews in
      if any (λ s. s.needs_rebalance) relevant then whole 20 else whole 60

  -- The outcomes of one pair.
  abbrev pub results_of : String → List Record → List Record
  results_of pair = select (λ r. str_eq r.0 pair)

  abbrev pub wins : List Record → ℕ
  wins rs = length (select (λ r. r.1) rs)

  -- the share of wins, of at least three results
  abbrev pub win_rate : List Record → Num
  win_rate results =
      if ltb (length results) 3
      then whole 50
      else mul (div (whole (wins results)) (whole (length results))) (whole 100)

  unfoldable pub score_history : SignalScorer F → String → Num
  score_history s pair = win_rate (results_of pair (last 20 s.recent_results))

  unfoldable pub record_result : String → Bool → SignalScorer F → SignalScorer F
  record_result pair success s = record s {
    recent_results = last 100 (s.recent_results ++ (pair, success) ∷ []);
  }

  -- `min(100.0, x)`, `max(0.0, x)`
  abbrev pub clamp : Num → Num
  clamp x =
      let low = if lt x (whole 100) then x else whole 100 in
      if lt (whole 0) low then low else whole 0

  abbrev pub weighted : ScorerConfig F → (spread liquidity inventory history : Num) → Num
  weighted c spread liquidity inventory history = sum (
      mul spread c.spread_weight
      ∷ mul liquidity c.liquidity_weight
      ∷ mul inventory c.inventory_weight
      ∷ mul history c.history_weight
      ∷ [])

  module _ (round1 : Num → Num) where
    -- The score, and the signal that now bears it.
    unfoldable pub score : SignalScorer F → Signal F → List (Skew F) → Num × Signal F
    unfolding score_spread score_liquidity score_inventory score_history
    score s signal inventory_state =
        let result = round1 (
          clamp (
            weighted s.config (score_spread s.config signal.spread_bps)
              (score_liquidity s.config signal.bid_ask_spread_bps)
              (score_inventory signal inventory_state) (score_history s signal.pair))) in
        (result, record signal { score = result })

  -- at the time `now`
  unfoldable pub apply_decay : (ℤ → Num) → Signal F → ℤ → Num
  unfolding age_seconds
  apply_decay seconds signal now =
      let ttl = signal.expiry -ℤ signal.timestamp in
      let fresh =
        sub (whole 1)
          (mul (div (seconds (age_seconds signal now)) (seconds ttl)) (literal (pos 5) 1)) in
      if leb_ℤ ttl (pos 0)
      then whole 0
      else mul signal.score (if lt (whole 0) fresh then fresh else whole 0)
