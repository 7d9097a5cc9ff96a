-- ===== src/Executor/Queue.antt =====
-- `SignalQueue` of executor/queue.py. `heapq` is known by what it promises: the first entry of the
-- heap is the smallest one and `heappop` takes it, so the heap is kept as the list of its entries
-- in the order in which they are popped. Entries are compared by priority and then by sequence.
-- Scores are scaled integers. The lock is left out: every method holds it throughout.
pub mod Order
pub mod Members
mod Tests
use peanut_trade_internship.Base.{
  ℕ, ◌+◌, Bool, true, false, ◌&&◌, ◌||◌, Option, none, some, List, [], ◌∷◌, leb, ltb, length,
  if◌then◌else◌, Outcome, ok, raised,
}
use peanut_trade_internship.Base.Int.{ℤ, neg, ltb_ℤ, leb_ℤ, eqb_ℤ}

pub data QueueError : Type 0 where
  index_error : QueueError

module _ (S : Type 0) where
  pub record Entry : Type 0 where
    pub priority : ℤ
    pub sequence : ℕ
    pub signal : S

  pub record SignalQueue : Type 0 where
    pub maxsize : ℕ
    pub heap : List Entry
    pub seq : ℕ

module _ {S : Type 0} where
  abbrev pub new_queue : ℕ → SignalQueue S
  new_queue maxsize = record { maxsize = maxsize; heap = []; seq = 0 }

  -- The order of the dataclass: (priority, sequence).
  abbrev pub before : Entry S → Entry S → Bool
  before a b =
      ltb_ℤ a.priority b.priority || eqb_ℤ a.priority b.priority && ltb a.sequence b.sequence

  unfoldable pub heappush : List (Entry S) → Entry S → List (Entry S)
  heappush [] e = e ∷ []
  heappush (x ∷ xs) e = if before e x then e ∷ x ∷ xs else x ∷ heappush xs e

module _ {S : Type 0} (score : S → ℤ) (is_valid : S → Bool) where
  unfoldable pub push : SignalQueue S → List (Entry S) → S → SignalQueue S
  push q heap signal = record q {
    heap =
        heappush heap (record { priority = neg (score signal); sequence = q.seq; signal = signal });
    seq = q.seq + 1;
  }

  put_full : List (Entry S) → SignalQueue S → S → Outcome QueueError (Bool × SignalQueue S)
  unfolding push
  put_full [] q signal = raised index_error
  put_full (lowest ∷ rest) q signal =
      if leb_ℤ (score signal) (neg lowest.priority)
      then ok (false, q)
      else ok (true, push q rest signal)

  -- `self._heap[0]` raises on an empty heap, as it is for `maxsize` 0.
  unfoldable pub put : SignalQueue S → S → Outcome QueueError (Bool × SignalQueue S)
  unfolding put_full push
  put q signal =
      if leb q.maxsize (length q.heap)
      then put_full q.heap q signal
      else ok (true, push q q.heap signal)

  pop_valid : List (Entry S) → Option S × List (Entry S)
  pop_valid [] = (none, [])
  pop_valid (e ∷ es) = if is_valid e.signal then (some e.signal, es) else pop_valid es

  unfoldable pub get : SignalQueue S → Option S × SignalQueue S
  unfolding pop_valid
  get q = let (signal, heap) = pop_valid q.heap in (signal, record q { heap = heap })

  pub peek_score : SignalQueue S → Option ℤ
  peek_score q = elim q.heap [ [] ↦ none | e ∷ es ↦ some (neg e.priority) ]
