-- ===== src/Executor/Queue/Order.antt =====
-- The order in which `SignalQueue` (executor/queue.py) gives its signals back.
use peanut_trade_internship.Base.{
  ℕ, ◌+◌, ◌≤◌, ◌<◌, Bool, true, false, ◌||◌, ◌&&◌, Option, none, some, leb, leb-false, subst, List,
  [], ◌∷◌, ◌≡◌, refl, inl, inr, arith, length, All, Outcome, ok, Bool-cases,
}
use peanut_trade_internship.Base.Int.{ℤ, pos, neg, ltb_ℤ, leb_ℤ, eqb_ℤ, eqb_ℤ_iff, ◌≤ℤ◌, -ℤ_parts}
use peanut_trade_internship.Executor.Queue.{
  QueueError, Entry, SignalQueue, before, heappush, push, put_full, put, pop_valid, get,
}

module _ {S : Type 0} where
  -- Each entry comes before those behind it.
  abbrev pub IsOrdered : List (Entry S) → Type 0
  IsOrdered [] = Unit
  IsOrdered (e ∷ es) = All (λ x. before e x ≡ true) es × IsOrdered es

  pub All-heappush :
      (P : Entry S → Type 0) (es : List (Entry S)) (e : Entry S)
      → All P es
      → P e
      → All P (heappush es e)
  unfolding heappush
  All-heappush P [] e h p = (p, tt)
  All-heappush P (x ∷ xs) e h p = elim (Bool-cases (before e x)) [
    | inl first ↦ rw first (p, h)
    | inr later ↦ rw later (h.0, All-heappush P xs e h.1 p)
  ]

  length-heappush : (es : List (Entry S)) (e : Entry S) → length (heappush es e) ≡ length es + 1
  unfolding heappush
  length-heappush [] e = omega arith
  length-heappush (x ∷ xs) e = ground (arith, length-heappush xs e)

  before_trans : (a b c : Entry S) → before a b ≡ true → before b c ≡ true → before a c ≡ true
  before_trans a b c h k = ground arith

  -- Entries with different sequence numbers stand in an order.
  before-total : (a b : Entry S) → b.sequence < a.sequence → before a b ≡ false → before b a ≡ true
  before-total a b h k = ground arith

  All-before :
      (a b : Entry S) (es : List (Entry S))
      → before a b ≡ true
      → All (λ x. before b x ≡ true) es
      → All (λ x. before a x ≡ true) es
  All-before a b [] h k = tt
  All-before a b (x ∷ xs) h k = (before_trans a b x h k.0, All-before a b xs h k.1)

  -- A pushed entry that is newer than all others keeps the order.
  heappush-IsOrdered :
      (es : List (Entry S)) (e : Entry S)
      → All (λ x. x.sequence < e.sequence) es
      → IsOrdered es
      → IsOrdered (heappush es e)
  unfolding heappush
  heappush-IsOrdered [] e n h = (tt, tt)
  heappush-IsOrdered (x ∷ xs) e n h = elim (Bool-cases (before e x)) [
    | inl first ↦ rw first ((first, All-before e x xs first h.0), h)
    | inr later ↦ rw later (
      All-heappush (λ y. before x y ≡ true) xs e h.0 (before-total e x n.0 later),
      heappush-IsOrdered xs e n.1 h.1,
    )
  ]

by_priority :
    (a b p r : ℤ) (t : Bool) → p ≡ neg a → r ≡ neg b → (ltb_ℤ p r || eqb_ℤ p r && t) ≡ true → b ≤ℤ a
by_priority a b p r t h k e = ground (arith, eqb_ℤ_iff p r, -ℤ_parts (pos 0) a, -ℤ_parts (pos 0) b)

-- The queue that a `put` left.
queue_of {ℓ} :
    {A : Type ℓ} (a b : A) (s t : Bool)
    → ◌≡◌ {A = Outcome QueueError (Bool × A)} (ok (s, a)) (ok (t, b))
    → a ≡ b
queue_of a b s t h = cc

-- The entries stand in order, each is as its signal's score says, and all are older than `seq`.
pub record IsValid {S : Type 0} (score : S → ℤ) (q : SignalQueue S) : Type 0 where
  pub ordered : IsOrdered q.heap
  pub older : All (λ e. e.sequence < q.seq) q.heap
  pub scored : All (λ e. e.priority ≡ neg (score e.signal)) q.heap
  pub bounded : length q.heap ≤ q.maxsize

module _ {S : Type 0} (score : S → ℤ) (is_valid : S → Bool) where
  All-weaken :
      (n : ℕ) (es : List (Entry S))
      → All (λ e. e.sequence < n) es
      → All (λ e. e.sequence < n + 1) es
  All-weaken n [] h = tt
  All-weaken n (e ∷ es) h = (omega (arith, h.0), All-weaken n es h.1)

  push-IsValid :
      (q : SignalQueue S) (heap : List (Entry S)) (s : S)
      → IsValid score (record q { heap = heap })
      → length heap < q.maxsize
      → IsValid score (push score is_valid q heap s)
  unfolding push
  push-IsValid q heap s v h = record {
    ordered = heappush-IsOrdered heap _ v.older v.ordered;
    older = All-heappush _ heap _ (All-weaken q.seq heap v.older) (omega arith);
    scored = All-heappush _ heap _ v.scored refl;
    bounded = omega (
      arith,
      length-heappush heap (record { priority = neg (score s); sequence = q.seq; signal = s }),
    );
  }

  tail-IsValid :
      (q : SignalQueue S) (e : Entry S) (es : List (Entry S))
      → IsValid score (record q { heap = e ∷ es })
      → IsValid score (record q { heap = es })
  tail-IsValid q e es v = record {
    ordered = v.ordered.1;
    older = v.older.1;
    scored = v.scored.1;
    bounded = omega (arith, v.bounded);
  }

  put_full-IsValid :
      (q : SignalQueue S) (es : List (Entry S)) (s : S) {taken : Bool} {q' : SignalQueue S}
      → IsValid score q
      → IsValid score (record q { heap = es })
      → put_full score is_valid es q s ≡ ok (taken, q')
      → IsValid score q'
  unfolding put_full
  put_full-IsValid q [] s w v h = cc
  put_full-IsValid q (e ∷ es) s {taken} {q'} w v h =
      elim (Bool-cases (leb_ℤ (score s) (neg e.priority))) [
        | inl low ↦
            let back : ok (false, q) ≡ ok (taken, q') = rw low at h in
            subst (IsValid score) (queue_of _ _ _ _ back) w
        | inr high ↦
            let room : length es < q.maxsize = omega (arith, v.bounded) in
            let pushed : ok (true, push score is_valid q es s) ≡ ok (taken, q') = rw high at h in
            subst (IsValid score) (queue_of (push score is_valid q es s) q' true taken pushed)
              (push-IsValid q es s (tail-IsValid q e es v) room)
      ]

  -- `put` keeps a queue ordered, aged, scored and within `maxsize`.
  pub put-IsValid :
      (q : SignalQueue S) (s : S) {taken : Bool} {q' : SignalQueue S}
      → IsValid score q
      → put score is_valid q s ≡ ok (taken, q')
      → IsValid score q'
  unfolding put
  put-IsValid q s {taken} {q'} v h = elim (Bool-cases (leb q.maxsize (length q.heap))) [
    | inl full ↦ put_full-IsValid q q.heap s v v (rw full at h)
    | inr free ↦
        let e : ok (true, push score is_valid q q.heap s) ≡ ok (taken, q') = rw free at h in
        subst (IsValid score) (queue_of _ _ _ _ e)
          (push-IsValid q q.heap s v (leb-false q.maxsize (length q.heap) free))
  ]

  pop_valid-IsValid :
      (q : SignalQueue S) (es : List (Entry S))
      → IsValid score (record q { heap = es })
      → IsValid score (record q { heap = (pop_valid score is_valid es).1 })
  unfolding pop_valid
  pop_valid-IsValid q [] v = v
  pop_valid-IsValid q (e ∷ es) v = elim (Bool-cases (is_valid e.signal)) [
    | inl h ↦ rw h (tail-IsValid q e es v)
    | inr h ↦ rw h (pop_valid-IsValid q es (tail-IsValid q e es v))
  ]

  pub get-IsValid : (q : SignalQueue S) → IsValid score q → IsValid score (get score is_valid q).1
  unfolding get
  get-IsValid q v = pop_valid-IsValid q q.heap v

  best_of :
      (e x : Entry S)
      → e.priority ≡ neg (score e.signal)
      → x.priority ≡ neg (score x.signal)
      → before e x ≡ true
      → score x.signal ≤ℤ score e.signal
  best_of e x h k b = by_priority (score e.signal) (score x.signal) e.priority x.priority _ h k b

  -- No entry with a valid signal scores more than `best`.
  abbrev pub IsBest : List (Entry S) → S → Type 0
  IsBest es best = All (λ e. is_valid e.signal ≡ true → score e.signal ≤ℤ score best) es

  -- What `get` answers from the entries `es`: the best valid signal, or none when none is valid.
  abbrev pub Answers : List (Entry S) → Option S → Type 0
  Answers es none = All (λ e. is_valid e.signal ≡ false) es
  Answers es (some s) = (is_valid s ≡ true) × IsBest es s

  IsBest-behind :
      (e : Entry S) (es : List (Entry S))
      → e.priority ≡ neg (score e.signal)
      → All (λ x. x.priority ≡ neg (score x.signal)) es
      → All (λ x. before e x ≡ true) es
      → IsBest es e.signal
  IsBest-behind e [] h k l = tt
  IsBest-behind e (x ∷ xs) h k l = (λ v. best_of e x h k.0 l.0, IsBest-behind e xs h k.1 l.1)

  Answers-skip :
      (e : Entry S) (es : List (Entry S))
      → is_valid e.signal ≡ false
      → (s : Option S) → Answers es s
      → Answers (e ∷ es) s
  Answers-skip e es h none a = (h, a)
  Answers-skip e es h (some s) a = (a.0, (λ v. cc, a.1))

  pop_valid-Answers :
      (es : List (Entry S))
      → IsOrdered es
      → All (λ x. x.priority ≡ neg (score x.signal)) es
      → Answers es (pop_valid score is_valid es).0
  unfolding pop_valid
  pop_valid-Answers [] o h = tt
  pop_valid-Answers (e ∷ es) o h = elim (Bool-cases (is_valid e.signal)) [
    | inl v ↦ rw v (v, (λ _. omega arith, IsBest-behind e es h.0 h.1 o.0))
    | inr v ↦
        rw v (Answers-skip e es v (pop_valid score is_valid es).0 (pop_valid-Answers es o.1 h.1))
  ]

  -- On a valid queue `get` answers the highest-scoring valid signal, and none only when no
  -- queued signal is valid.
  pub get-Answers : (q : SignalQueue S) → IsValid score q → Answers q.heap (get score is_valid q).0
  unfolding get
  get-Answers q v = pop_valid-Answers q.heap v.ordered v.scored
