-- ===== src/Executor/Queue/Tests.antt =====
-- Instances of the theorems on `SignalQueue`: a signal is a score and whether it is valid.
use peanut_trade_internship.Base.{ℕ, Bool, true, false, [], ◌∷◌, ◌≡◌, refl, arith, ok}
use peanut_trade_internship.Base.Int.{ℤ, pos, neg, ◌-ℤ◌}
use peanut_trade_internship.Executor.Queue.{Entry, SignalQueue, put, put_full, push, get}
use peanut_trade_internship.Executor.Queue.Order.{
  IsValid, Answers, put-IsValid, get-IsValid, get-Answers,
}

abbrev Scored : Type 0
Scored = ℤ × Bool

abbrev score_of : Scored → ℤ
score_of s = s.0

abbrev valid : Scored → Bool
valid s = s.1

abbrev entry : ℤ → ℕ → Bool → Entry Scored
entry n sequence v = record { priority = neg n; sequence = sequence; signal = (n, v) }

abbrev a_queue : SignalQueue Scored
a_queue = record {
  maxsize = 2;
  heap = entry (pos 80) 1 false ∷ entry (pos 70) 0 true ∷ [];
  seq = 2;
}

a_queue-IsValid : IsValid score_of a_queue
unfolding ◌-ℤ◌
a_queue-IsValid = record {
  ordered = ((refl, tt), (tt, tt));
  older = (omega arith, (omega arith, tt));
  scored = (refl, (refl, tt));
  bounded = omega arith;
}

put_90 :
    put score_of valid a_queue (pos 90, true)
    ≡ ok (true, push score_of valid a_queue (entry (pos 70) 0 true ∷ []) (pos 90, true))
unfolding put put_full ◌-ℤ◌
put_90 = refl

put-IsValid_example :
    IsValid score_of (push score_of valid a_queue (entry (pos 70) 0 true ∷ []) (pos 90, true))
put-IsValid_example = put-IsValid score_of valid a_queue (pos 90, true) a_queue-IsValid put_90

get-IsValid_example : IsValid score_of (get score_of valid a_queue).1
get-IsValid_example = get-IsValid score_of valid a_queue a_queue-IsValid

get-Answers_example : Answers score_of valid a_queue.heap (get score_of valid a_queue).0
get-Answers_example = get-Answers score_of valid a_queue a_queue-IsValid
