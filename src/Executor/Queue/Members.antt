-- ===== src/Executor/Queue/Members.antt =====
-- What holds of every signal that is put into a `SignalQueue` (executor/queue.py) holds of every one
-- that is taken out.
use peanut_trade_internship.Base.{
  Bool, List, [], ◌∷◌, Option, none, some, All, Outcome, ok, raised, Bool-cases, inl, inr, leb,
  length, ℕ, suc, ◌<◌, arith,
}
use peanut_trade_internship.Base.Int.{ℤ, neg, leb_ℤ}
use peanut_trade_internship.Executor.Queue.{
  QueueError, Entry, SignalQueue, push, put_full, put, pop_valid, get,
}
use peanut_trade_internship.Executor.Queue.Order.{All-heappush}

module _ {S : Type 0} (P : S → Type 0) where
  abbrev pub Every : List (Entry S) → Type 0
  Every = All (λ e. P e.signal)

  abbrev pub Found : Option S → Type 0
  Found none = Unit
  Found (some s) = P s

  -- The queue that `put` leaves, if it does not raise.
  abbrev pub Left : Outcome QueueError (Bool × SignalQueue S) → Type 0
  Left (ok (taken, q)) = Every q.heap
  Left (raised e) = Unit

  module _ (score : S → ℤ) (is_valid : S → Bool) where
    push-Every :
        (q : SignalQueue S) (es : List (Entry S)) (s : S)
        → Every es
        → P s
        → Every (push score is_valid q es s).heap
    unfolding push
    push-Every q es s h p = All-heappush (λ e. P e.signal) es _ h p

    put_full-Left :
        (es : List (Entry S)) (q : SignalQueue S) (s : S)
        → Every es
        → Every q.heap
        → P s
        → Left (put_full score is_valid es q s)
    unfolding put_full
    put_full-Left [] q s h k p = tt
    put_full-Left (e ∷ es) q s h k p = elim (Bool-cases (leb_ℤ (score s) (neg e.priority))) [
      | inl low ↦ rw low k
      | inr high ↦ rw high (push-Every q es s h.1 p)
    ]

    pub put-Left : (q : SignalQueue S) (s : S) → Every q.heap → P s → Left (put score is_valid q s)
    unfolding put
    put-Left q s h p = elim (Bool-cases (leb q.maxsize (length q.heap))) [
      | inl full ↦ rw full (put_full-Left q.heap q s h h p)
      | inr room ↦ rw room (push-Every q q.heap s h p)
    ]

    pop_valid-Found :
        (es : List (Entry S))
        → Every es
        → Found (pop_valid score is_valid es).0 × Every (pop_valid score is_valid es).1
    unfolding pop_valid
    pop_valid-Found [] h = (tt, tt)
    pop_valid-Found (e ∷ es) h = elim (Bool-cases (is_valid e.signal)) [
      | inl valid ↦ rw valid (h.0, h.1)
      | inr expired ↦ rw expired (pop_valid-Found es h.1)
    ]

    pub get-Found :
        (q : SignalQueue S)
        → Every q.heap
        → Found (get score is_valid q).0 × Every (get score is_valid q).1.heap
    unfolding get
    get-Found q h = pop_valid-Found q.heap h

-- What a signal is taken from has more entries than what is left.
abbrev pub Took : {S : Type 0} → Option S → (left before : ℕ) → Type 0
Took none left before = Unit
Took (some s) left before = left < before

Took-suc :
    {S : Type 0} (found : Option S) (left before : ℕ)
    → Took found left before
    → Took found left (suc before)
Took-suc none left before h = tt
Took-suc (some s) left before h = omega arith

pop_valid-Took :
    {S : Type 0} (score : S → ℤ) (is_valid : S → Bool) (es : List (Entry S))
    → Took (pop_valid score is_valid es).0 (length (pop_valid score is_valid es).1) (length es)
unfolding pop_valid
pop_valid-Took score is_valid [] = tt
pop_valid-Took score is_valid (e ∷ es) = elim (Bool-cases (is_valid e.signal)) [
  | inl valid ↦ rw valid (omega arith)
  | inr expired ↦ rw expired (Took-suc _ _ _ (pop_valid-Took score is_valid es))
]

pub get-Took :
    {S : Type 0} (score : S → ℤ) (is_valid : S → Bool) (q : SignalQueue S)
    → Took (get score is_valid q).0 (length (get score is_valid q).1.heap) (length q.heap)
unfolding get
get-Took score is_valid q = pop_valid-Took score is_valid q.heap
