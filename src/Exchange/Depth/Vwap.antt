-- ===== src/Exchange/Depth/Vwap.antt =====
-- What `vwap_to_fill` of exchange/order_book.py answers.
use native.Mathlib.Nat.{mul-le-mul_right}
use peanut_trade_internship.Base.{
  ℕ, ◌+◌, ◌-◌, ◌*◌, ◌≤◌, ◌<◌, min, String, str_eq, true, false, none, some, List, [], ◌∷◌, ◌≡◌,
  refl, arith, leb, leb→le, leb-false, All, ok, Bool-cases, inl, inr, ◌⊎◌, ◌||◌,
}
use peanut_trade_internship.Base.Int.{pos, leb_ℤ}
use peanut_trade_internship.Exchange.Depth.{
  Level, OrderBookAnalyzer, fill, side_levels, vwap_to_fill,
}

-- The quantity that stands in some levels.
abbrev pub depth : List Level → ℕ
depth [] = 0
depth ((price, qty) ∷ levels) = qty + depth levels

fill-remaining :
    (levels : List Level) (remaining total : ℕ)
    → (fill levels remaining total).0 ≡ remaining - depth levels
unfolding fill
fill-remaining [] remaining total = omega arith
fill-remaining ((price, qty) ∷ levels) remaining total =
    let taken = min remaining qty in
    elim (Bool-cases (leb (remaining - taken) 0)) [
      | inl done ↦ rw done (omega (arith, leb→le _ _ done))
      | inr more ↦
          rw (more, fill-remaining levels (remaining - taken) (total + price * taken))
            (omega (arith, leb-false _ _ more))
    ]

-- The price of every level lies between `low` and `high`.
abbrev pub Within : ℕ → ℕ → List Level → Type 0
Within low high = All (λ l. (low ≤ l.0) × (l.0 ≤ high))

paid_low :
    (low price t a total paid : ℕ)
    → low ≤ price
    → low * a + (total + price * t) ≤ paid
    → low * (a + t) + total ≤ paid
paid_low low price t a total paid h k = omega (arith, mul-le-mul_right t h)

paid_high :
    (high price t a total paid : ℕ)
    → price ≤ high
    → paid ≤ high * a + (total + price * t)
    → paid ≤ high * (a + t) + total
paid_high high price t a total paid h k = omega (arith, mul-le-mul_right t h)

-- Some units were filled, each for a price between `low` and `high`.
abbrev IsPaid : ℕ → ℕ → ℕ → ℕ → ℕ × ℕ → Type 0
IsPaid low high remaining total end =
    (low * (remaining - end.0) + total ≤ end.1) × (end.1 ≤ high * (remaining - end.0) + total)

IsPaid-step :
    (low high price t remaining total : ℕ) (end : ℕ × ℕ)
    → low ≤ price
    → price ≤ high
    → t ≤ remaining
    → end.0 ≤ remaining - t
    → IsPaid low high (remaining - t) (total + price * t) end
    → IsPaid low high remaining total end
IsPaid-step low high price t remaining total end hl hh ht he p =
    let a = remaining - t - end.0 in
    let e : remaining - end.0 ≡ a + t = omega arith in
    rw e (paid_low low price t a total end.1 hl p.0, paid_high high price t a total end.1 hh p.1)

IsPaid-end : (low high remaining total : ℕ) → IsPaid low high remaining total (remaining, total)
IsPaid-end low high remaining total =
    let e : remaining - remaining ≡ 0 = omega arith in rw e (omega arith, omega arith)

paid_all :
    (low high size : ℕ) (end : ℕ × ℕ)
    → end.0 ≡ 0
    → IsPaid low high size 0 end
    → (low * size ≤ end.1) × (end.1 ≤ high * size)
paid_all low high size end z p =
    let e : size - end.0 ≡ size = omega arith in
    let q : (low * size + 0 ≤ end.1) × (end.1 ≤ high * size + 0) = rw e at p in
    (omega (arith, q.0), omega (arith, q.1))

fill-IsPaid :
    (low high : ℕ) (levels : List Level) (remaining total : ℕ)
    → Within low high levels
    → IsPaid low high remaining total (fill levels remaining total)
unfolding fill
fill-IsPaid low high [] remaining total w = IsPaid-end low high remaining total
fill-IsPaid low high ((price, qty) ∷ levels) remaining total w =
    let t = min remaining qty in
    let rest = fill levels (remaining - t) (total + price * t) in
    elim (Bool-cases (leb (remaining - t) 0)) [
      | inl done ↦ rw done (
          IsPaid-step low high price t remaining total (remaining - t, total + price * t) w.0.0
            w.0.1 (omega arith) (omega arith)
            (IsPaid-end low high (remaining - t) (total + price * t)))
      | inr more ↦ rw more (
          IsPaid-step low high price t remaining total rest w.0.0 w.0.1 (omega arith)
            (rw (fill-remaining levels (remaining - t) (total + price * t)) (omega arith))
            (fill-IsPaid low high levels (remaining - t) (total + price * t) w.1))
    ]

-- For a positive size and a known side, the answer is none exactly if the book is not deep enough;
-- otherwise it is an average over the size whose price lies between the lowest and the highest
-- of the side.
vwap_to_fill_lem :
    (b : OrderBookAnalyzer) (side : String) (size low high : ℕ)
    → 0 < size
    → (str_eq side "buy" || str_eq side "sell") ≡ true
    → Within low high (side_levels b side)
    → (depth (side_levels b side) < size × (vwap_to_fill b side (pos size) ≡ ok none))
      ⊎ ((size ≤ depth (side_levels b side))
          × ((paid : ℕ) × (vwap_to_fill b side (pos size)
                ≡ ok (some (record { num = pos paid; den = size })))
              × (low * size ≤ paid)
              × (paid ≤ high * size)))
unfolding vwap_to_fill
vwap_to_fill_lem b side size low high h known w =
    let levels = side_levels b side in
    let end = fill levels size 0 in
    let p = fill-IsPaid low high levels size 0 w in
    let e = fill-remaining levels size 0 in
    let positive : leb_ℤ (pos size) (pos 0) ≡ false = ground arith in
    elim (Bool-cases (leb 1 end.0)) [
      | inl short ↦ inl (omega (arith, e, leb→le 1 end.0 short), rw (positive, known, short) refl)
      | inr filled ↦
          let z : end.0 ≡ 0 = omega (arith, leb-false 1 end.0 filled) in
          inr (
            omega (arith, e),
            (
              end.1,
              rw (positive, known, filled) refl,
              (paid_all low high size end z p).0,
              (paid_all low high size end z p).1,
            ),
          )
    ]
