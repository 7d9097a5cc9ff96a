-- ===== src/Strategy/Scorer/History.antt =====
-- The results that `SignalScorer` keeps (strategy/scorer.py).
use mathlib.Core.List.{append-nil, append_assoc}
use peanut_trade_internship.Base.{
  String, Bool, List, [], ◌∷◌, ◌++◌, ◌≡◌, refl, sym, ap, arith, last, last-last,
}
use peanut_trade_internship.Base.Float.{Float}
use peanut_trade_internship.Strategy.Scorer.{
  Record, ScorerConfig, SignalScorer, new_scorer, record_result, score_history, win_rate,
  results_of,
}

module _ (F : Float) where
  -- One call after the other.
  abbrev pub record_all : List Record → SignalScorer F → SignalScorer F
  record_all [] s = s
  record_all ((pair, success) ∷ rs) s = record_all rs (record_result F pair success s)

  record_result_keeps :
      (s : SignalScorer F) (before : List Record) (pair : String) (success : Bool)
      → s.recent_results ≡ last 100 before
      → (record_result F pair success s).recent_results ≡ last 100 (before ++ (pair, success) ∷ [])
  unfolding record_result
  record_result_keeps s before pair success h =
      rw h (last-last 100 100 before ((pair, success) ∷ []) (omega arith))

  record_all_keeps :
      (rs : List Record) (s : SignalScorer F) (before : List Record)
      → s.recent_results ≡ last 100 before
      → (record_all rs s).recent_results ≡ last 100 (before ++ rs)
  record_all_keeps [] s before h = rw append-nil h
  record_all_keeps ((pair, success) ∷ rs) s before h =
      rw (append_assoc before ((pair, success) ∷ []) rs) at (
        record_all_keeps rs (record_result F pair success s) (before ++ (pair, success) ∷ [])
          (record_result_keeps s before pair success h))

  last_nothing : last 100 (let xs : List Record = [] in xs) ≡ []
  unfolding last
  last_nothing = refl

  last_of_last : (rs : List Record) → last 20 (last 100 rs) ≡ last 20 rs
  last_of_last rs =
      rw (append-nil (last 100 rs), append-nil rs) at (last-last 100 20 rs [] (omega arith))

  -- A new scorer that was told any results keeps the last hundred of them, and scores the history of
  -- a pair by its share of wins among those of the last twenty results that are of this pair.
  record_result-score_history :
      (c : ScorerConfig F) (rs : List Record) (pair : String)
      → ((record_all rs (new_scorer F c)).recent_results ≡ last 100 rs)
        × (score_history F (record_all rs (new_scorer F c)) pair
            ≡ win_rate F (results_of F pair (last 20 rs)))
  unfolding score_history
  record_result-score_history c rs pair =
      let kept = record_all_keeps rs (new_scorer F c) [] (sym last_nothing) in
      (kept, ap (λ l. win_rate F (results_of F pair l)) (rw kept (last_of_last rs)))
