-- ===== src/Exchange/Stream/Sorted.antt =====
-- What `OrderBookStream.snapshot` (exchange/ws_orderbook.py) gives of a book.
use peanut_trade_internship.Base.{
  ℕ, suc, zero, Bool, true, false, List, [], ◌∷◌, ◌≡◌, arith, All, take, Bool-cases, inl, inr,
}
use peanut_trade_internship.Base.Int.{ℤ, ◌≤ℤ◌}
use peanut_trade_internship.Exchange.Stream.{
  Level, OrderBookStream, insert_level, sort_levels, lower_first, higher_first, snapshot_bids,
  snapshot_asks, best,
}

-- The price of each level stands by `R` to the price of every level behind it.
abbrev pub IsSorted : (ℤ → ℤ → Type 0) → List Level → Type 0
IsSorted R [] = Unit
IsSorted R (l ∷ ls) = All (λ m. R l.0 m.0) ls × IsSorted R ls

abbrev pub AtMost : ℤ → ℤ → Type 0
AtMost a b = a ≤ℤ b

abbrev pub AtLeast : ℤ → ℤ → Type 0
AtLeast a b = b ≤ℤ a

All-take : (Q : Level → Type 0) (n : ℕ) (ls : List Level) → All Q ls → All Q (take n ls)
All-take Q zero ls a = tt
All-take Q (suc n) [] a = tt
All-take Q (suc n) (l ∷ ls) a = (a.0, All-take Q n ls a.1)

take-IsSorted :
    (R : ℤ → ℤ → Type 0) (n : ℕ) (ls : List Level) → IsSorted R ls → IsSorted R (take n ls)
take-IsSorted R zero ls s = tt
take-IsSorted R (suc n) [] s = tt
take-IsSorted R (suc n) (l ∷ ls) s = (All-take (λ m. R l.0 m.0) n ls s.0, take-IsSorted R n ls s.1)

module _ (first : ℤ → ℤ → Bool) (R : ℤ → ℤ → Type 0) (trans : (a b c : ℤ) → R a b → R b c → R a c)
    (is_first : (a b : ℤ) → first a b ≡ true → R a b)
    (is_last : (a b : ℤ) → first a b ≡ false → R b a) where
  All-insert_level :
      (Q : Level → Type 0) (l : Level) (ls : List Level)
      → Q l
      → All Q ls
      → All Q (insert_level first l ls)
  unfolding insert_level
  All-insert_level Q l [] h a = (h, tt)
  All-insert_level Q l (m ∷ ms) h a = elim (Bool-cases (first m.0 l.0)) [
    | inl before ↦ rw before (a.0, All-insert_level Q l ms h a.1)
    | inr after ↦ rw after (h, a)
  ]

  All-behind :
      (l m : Level) (ls : List Level)
      → R l.0 m.0
      → All (λ x. R m.0 x.0) ls
      → All (λ x. R l.0 x.0) ls
  All-behind l m [] h a = tt
  All-behind l m (x ∷ ls) h a = (trans l.0 m.0 x.0 h a.0, All-behind l m ls h a.1)

  insert_level-IsSorted :
      (l : Level) (ls : List Level) → IsSorted R ls → IsSorted R (insert_level first l ls)
  unfolding insert_level
  insert_level-IsSorted l [] s = (tt, tt)
  insert_level-IsSorted l (m ∷ ms) s = elim (Bool-cases (first m.0 l.0)) [
    | inl before ↦ rw before (
      All-insert_level (λ x. R m.0 x.0) l ms (is_first m.0 l.0 before) s.0,
      insert_level-IsSorted l ms s.1,
    )
    | inr after ↦ let h = is_last m.0 l.0 after in rw after ((h, All-behind l m ms h s.0), s)
  ]

  sort_levels-IsSorted : (ls : List Level) → IsSorted R (sort_levels first ls)
  unfolding sort_levels
  sort_levels-IsSorted [] = tt
  sort_levels-IsSorted (l ∷ ls) =
      insert_level-IsSorted l (sort_levels first ls) (sort_levels-IsSorted ls)

  All-inserted :
      (Q : Level → Type 0) (l : Level) (ls : List Level)
      → All Q (insert_level first l ls)
      → Q l × All Q ls
  unfolding insert_level
  All-inserted Q l [] a = a
  All-inserted Q l (m ∷ ms) a = elim (Bool-cases (first m.0 l.0)) [
    | inl before ↦
        let b : All Q (m ∷ insert_level first l ms) = rw before at a in
        let rest = All-inserted Q l ms b.1 in (rest.0, (b.0, rest.1))
    | inr after ↦ rw after at a
  ]

  All-sorted : (Q : Level → Type 0) (ls : List Level) → All Q (sort_levels first ls) → All Q ls
  unfolding sort_levels
  All-sorted Q [] a = tt
  All-sorted Q (l ∷ ls) a =
      let b = All-inserted Q l (sort_levels first ls) a in (b.0, All-sorted Q ls b.1)

  module _ (reflexive : (a : ℤ) → R a a) where
    best_of_sorted :
        (n : ℕ) (ls : List Level) → IsSorted R ls → All (λ m. R (best (take (suc n) ls)).0 m.0) ls
    best_of_sorted n [] s = tt
    best_of_sorted n (l ∷ ls) s = (reflexive l.0, s.0)

    -- No level of the side has a better price than the best of those that are given.
    best_of_every :
        (n : ℕ) (ls : List Level)
        → All (λ m. R (best (take (suc n) (sort_levels first ls))).0 m.0) ls
    best_of_every n ls =
        All-sorted _ ls (best_of_sorted n (sort_levels first ls) (sort_levels-IsSorted ls))

higher_is_first : (a b : ℤ) → higher_first a b ≡ true → AtLeast a b
higher_is_first a b h = ground arith

higher_is_last : (a b : ℤ) → higher_first a b ≡ false → AtLeast b a
higher_is_last a b h = ground arith

lower_is_first : (a b : ℤ) → lower_first a b ≡ true → AtMost a b
lower_is_first a b h = ground arith

lower_is_last : (a b : ℤ) → lower_first a b ≡ false → AtMost b a
lower_is_last a b h = ground arith

-- The bids of a snapshot fall and its asks rise in price, and with a depth limit above 0 its best
-- bid and best ask are as good as any price in the whole book.
snapshot-IsSorted :
    (o : OrderBookStream) (n : ℕ)
    → o.depth_limit ≡ suc n
    → IsSorted AtLeast (snapshot_bids o)
      × IsSorted AtMost (snapshot_asks o)
      × All (λ m. m.0 ≤ℤ (best (snapshot_bids o)).0) o.bids
      × All (λ m. (best (snapshot_asks o)).0 ≤ℤ m.0) o.asks
unfolding snapshot_bids snapshot_asks
snapshot-IsSorted o n h = rw h (
  take-IsSorted AtLeast (suc n) _ (
      sort_levels-IsSorted higher_first AtLeast (λ a b c h k. omega arith) higher_is_first
        higher_is_last o.bids),
  take-IsSorted AtMost (suc n) _ (
      sort_levels-IsSorted lower_first AtMost (λ a b c h k. omega arith) lower_is_first
        lower_is_last o.asks),
  best_of_every higher_first AtLeast (λ a b c h k. omega arith) higher_is_first higher_is_last
      (λ a. omega arith) n o.bids,
  best_of_every lower_first AtMost (λ a b c h k. omega arith) lower_is_first lower_is_last
      (λ a. omega arith) n o.asks,
)
