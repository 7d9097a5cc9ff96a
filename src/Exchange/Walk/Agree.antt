-- ===== src/Exchange/Walk/Agree.antt =====
-- The analyzers of exchange/orderbook.py and of exchange/order_book.py walk a book alike.
use mathlib.Core.Bool.{false≢true}
use peanut_trade_internship.Base.{
  ℕ, zero, suc, ◌-◌, ◌<◌, min, String, str_eq, Bool, true, false, Option, Outcome, none, some, List,
  [], ◌∷◌, ◌≡◌, refl, arith, leb, leb→le, ltb, ok, ◌||◌, if◌then◌else◌,
}
use peanut_trade_internship.Base.Int.{pos, leb_ℤ}
use peanut_trade_internship.Pricing.Amm.{Fraction}
use peanut_trade_internship.Exchange.Depth.{AnalyzerError, Level, fill, vwap_to_fill}
use peanut_trade_internship.Exchange.Walk.{
  Book, Filling, Walk, take_level, walk, walk_side, walk_result, unfilled, walk_the_book, average,
}

-- The same remainder and the same cost.
abbrev SameEnd : Filling → ℕ × ℕ → Type 0
SameEnd s end = (s.remaining ≡ end.0) × (s.total_cost ≡ end.1)

walk_filled : (levels : List Level) (s : Filling) → s.remaining ≡ 0 → walk levels s ≡ s
unfolding walk
walk_filled [] s h = refl
walk_filled ((price, qty) ∷ levels) s h = rw h refl

-- One loop looks before a level whether anything remains, the other one after it.
same_step :
    (before after : Bool) (s next end : Filling) (rest : ℕ × ℕ)
    → (before ≡ true → (after ≡ true) × SameEnd s (next.remaining, next.total_cost))
    → (after ≡ true → end ≡ next)
    → SameEnd end rest
    → SameEnd
        (if before then s else end)
        (if after then (next.remaining, next.total_cost) else rest)
same_step true true s next end rest done stay same = (done refl).1
same_step true false s next end rest done stay same = absurd (false≢true (done refl).0)
same_step false true s next end rest done stay same = rw (stay refl) (refl, refl)
same_step false false s next end rest done stay same = same

nothing_left :
    (price qty : ℕ) (s : Filling)
    → leb s.remaining 0 ≡ true
    → (leb (take_level price qty s).remaining 0 ≡ true)
      × SameEnd s ((take_level price qty s).remaining, (take_level price qty s).total_cost)
nothing_left price qty s h =
    let none_left : s.remaining ≡ 0 = omega (arith, leb→le s.remaining 0 h) in
    let none_taken : min 0 qty ≡ 0 = omega arith in
    rw (none_left, none_taken) (refl, (refl, omega arith))

walk-fill :
    (levels : List Level) (s : Filling)
    → SameEnd (walk levels s) (fill levels s.remaining s.total_cost)
unfolding walk fill
walk-fill [] s = (refl, refl)
walk-fill ((price, qty) ∷ levels) s =
    let next = take_level price qty s in
    same_step (leb s.remaining 0) (leb next.remaining 0) s next (walk levels next)
      (fill levels next.remaining next.total_cost) (nothing_left price qty s)
      (λ h. walk_filled levels next (omega (arith, leb→le next.remaining 0 h)))
      (walk-fill levels next)

abbrev answer_of : ℕ → Filling → Outcome AnalyzerError (Option Fraction)
answer_of qty s = ok (if leb s.remaining 0 then some (average qty s) else none)

answer :
    (qty : ℕ) (s : Filling) (end : ℕ × ℕ)
    → 0 < qty
    → SameEnd s end
    → (if leb 1 end.0 then ok none else ok (some (record { num = pos end.1; den = qty })))
      ≡ answer_of qty s
answer qty s (zero, total) h (r, c) =
    let all : qty - 0 ≡ qty = omega arith in
    let positive : ltb 0 qty ≡ true = ground arith in rw (r, c, all, positive) refl
answer qty s (suc n, total) h (r, c) =
    let short : leb 1 (suc n) ≡ true = ground arith in
    let more : leb (suc n) 0 ≡ false = ground arith in rw (r, short, more) refl

-- For a positive size and a known side, walking the book does not raise, and `vwap_to_fill` of the
-- other analyzer, on the same levels, answers the average price of this walk if it is fully filled,
-- and none otherwise.
pub walk_the_book-vwap_to_fill :
    (b : Book) (side : String) (qty : ℕ)
    → 0 < qty
    → (str_eq side "buy" || str_eq side "sell") ≡ true
    → (w : Walk) × (walk_the_book b side (pos qty) ≡ ok w)
      × (vwap_to_fill (record { bids = b.bids; asks = b.asks; mid = b.mid }) side (pos qty)
          ≡ ok (if w.fully_filled then some w.avg_price else none))
unfolding walk_the_book vwap_to_fill
walk_the_book-vwap_to_fill b side qty h known =
    let levels = walk_side b side in
    let s = walk levels (unfilled qty) in
    let positive : leb_ℤ (pos qty) (pos 0) ≡ false = ground arith in
    (
      walk_result side qty levels s,
      rw (known, positive) refl,
      rw (known, positive) (answer qty s (fill levels qty 0) h (walk-fill levels (unfilled qty))),
    )
