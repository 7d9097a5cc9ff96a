-- ===== src/Pricing/Amm/Bounds.antt =====
-- Bounds of the swap arithmetic of pricing/amm.py, on natural numbers.
use native.Mathlib.Nat.{
  div-le_of_le-mul, le-add_left, div-mul-le_self, lt-mul-div-succ, le-div_iff_mul-le, mul-le-mul,
  mul-le-mul_left, mul-le-mul_right, le_of_mul-le-mul_left, div-lt_iff_lt-mul,
}
use peanut_trade_internship.Base.{
  ℕ, ◌+◌, ◌-◌, ◌*◌, ◌/◌, ◌≤◌, ◌<◌, ◌≡◌, sym, ap, subst, arith, mul-pos,
}
use peanut_trade_internship.Pricing.Amm.{swap_output, swap_input}

-- The floor of the quotient, with the division written out.
swap_output_floor :
    (f a i o : ℕ) → swap_output f a i o * (i * 10000 + a * (10000 - f)) ≤ a * (10000 - f) * o
unfolding swap_output
swap_output_floor f a i o = div-mul-le_self (a * (10000 - f) * o) (i * 10000 + a * (10000 - f))

-- No more than the output reserve is paid out, whatever the reserves.
swap_output-le : (f a i o : ℕ) → swap_output f a i o ≤ o
unfolding swap_output
swap_output-le f a i o =
    div-le_of_le-mul (i * 10000 + a * (10000 - f))
      (omega (arith, mul-le-mul_right o (le-add_left (a * (10000 - f)) (i * 10000))))

-- The whole output reserve is never paid out.
pub swap_output-lt : (f a i o : ℕ) → 0 < i → 0 < o → swap_output f a i o < o
unfolding swap_output
swap_output-lt f a i o hi ho =
    (div-lt_iff_lt-mul {k = i * 10000 + a * (10000 - f)} (omega arith)).1
      (omega (arith, mul-le-mul hi ho))

-- The arithmetic of `swap_output-spot`, with `d` for what stays of the output reserve.
spot_bound :
    (y d i a g : ℕ)
    → g ≤ 10000
    → y * (i * 10000 + a * g) ≤ a * g * (y + d)
    → (i + a) * y ≤ a * (y + d)
spot_bound y d i a g hg h = omega (arith, mul-le-mul_left (a * d) hg)

-- What comes out is worth at most what went in, at the price after the swap.
pub swap_output-spot : (f a i o : ℕ) → (i + a) * swap_output f a i o ≤ a * o
swap_output-spot f a i o =
    let y = swap_output f a i o in
    let e : y + (o - y) ≡ o = omega (arith, swap_output-le f a i o) in
    subst (λ (n : ℕ). (i + a) * y ≤ a * n) e
      (spot_bound y (o - y) i a (10000 - f) (omega arith) (
        subst (λ (n : ℕ). y * (i * 10000 + a * (10000 - f)) ≤ a * (10000 - f) * n) (sym e)
          (swap_output_floor f a i o)))

mono_bound : (y o d x e : ℕ) → y ≤ o → y * (d + x) ≤ x * o → y * (d + (x + e)) ≤ (x + e) * o
mono_bound y o d x e h k = omega (arith, mul-le-mul_right e h)

-- More in, at least as much out.
mono_add : (f a e i o : ℕ) → 0 < i → swap_output f a i o ≤ swap_output f (a + e) i o
unfolding swap_output
mono_add f a e i o hi =
    (le-div_iff_mul-le {k = i * 10000 + (a + e) * (10000 - f)} (omega arith)).1 (
      omega (
        arith,
        mono_bound (swap_output f a i o) o (i * 10000) (a * (10000 - f)) (e * (10000 - f))
            (swap_output-le f a i o) (swap_output_floor f a i o),
      ))

pub swap_output_mono : (f a b i o : ℕ) → 0 < i → a ≤ b → swap_output f a i o ≤ swap_output f b i o
swap_output_mono f a b i o hi h =
    let e : a + (b - a) ≡ b = omega arith in
    subst (λ (n : ℕ). swap_output f a i o ≤ swap_output f n i o) e (mono_add f a (b - a) i o hi)

covers_bound :
    (y d i x g : ℕ) → i * y * 10000 ≤ d * g * x → y * (i * 10000 + x * g) ≤ x * g * (y + d)
covers_bound y d i x g h = omega arith

-- The input asked for an output `y` below the reserve brings in at least `y`.
input_covers :
    (f y d i : ℕ)
    → f < 10000
    → 0 < d
    → 0 < i
    → y ≤ swap_output f (swap_input f y i (y + d)) i (y + d)
unfolding swap_output swap_input
input_covers f y d i hf hd hi =
    let e : y + d - y ≡ d = omega arith in
    let x = i * y * 10000 / (d * (10000 - f)) + 1 in
    rw e (
      (le-div_iff_mul-le {k = i * 10000 + x * (10000 - f)} (omega arith)).1 (
        covers_bound y d i x (10000 - f) (
          omega (
            arith,
            lt-mul-div-succ (i * y * 10000) {b = d * (10000 - f)}
                (mul-pos d (10000 - f) hd (omega arith)),
          ))))

pub swap_output-swap_input :
    (f y i o : ℕ) → f < 10000 → y < o → 0 < i → y ≤ swap_output f (swap_input f y i o) i o
swap_output-swap_input f y i o hf hy hi =
    let e : y + (o - y) ≡ o = omega arith in
    subst (λ (n : ℕ). y ≤ swap_output f (swap_input f y i n) i n) e
      (input_covers f y (o - y) i hf (omega arith) hi)

minimal_bound :
    (z y d i a g : ℕ)
    → y ≤ z
    → z * (i * 10000 + a * g) ≤ a * g * (y + d)
    → i * y * 10000 ≤ d * g * a
minimal_bound z y d i a g h k = omega (arith, mul-le-mul_right (i * 10000 + a * g) h)

-- No input that brings in `y` is smaller by more than 1.
input_minimal : (f a y d i : ℕ) → y ≤ swap_output f a i (y + d) → swap_input f y i (y + d) ≤ a + 1
unfolding swap_input
input_minimal f a y d i h =
    let e : y + d - y ≡ d = omega arith in
    omega (
      arith,
      div-le_of_le-mul ((y + d - y) * (10000 - f)) {m = i * y * 10000} {n = a} (
          rw e (
            minimal_bound (swap_output f a i (y + d)) y d i a (10000 - f) h
              (swap_output_floor f a i (y + d)))),
    )

pub swap_input-minimal :
    (f a y i o : ℕ) → y ≤ o → y ≤ swap_output f a i o → swap_input f y i o ≤ a + 1
swap_input-minimal f a y i o hy h =
    let e : y + (o - y) ≡ o = omega arith in
    subst (λ (n : ℕ). swap_input f y i n ≤ a + 1) e
      (input_minimal f a y (o - y) i (subst (λ (n : ℕ). y ≤ swap_output f a i n) (sym e) h))

-- Swapping the output back, at the new reserves, brings in no more than was paid.
pub swap_back-le :
    (f a i o : ℕ) → 0 < o → let y = swap_output f a i o in swap_output f y (o - y) (i + a) ≤ a
swap_back-le f a i o ho =
    let y = swap_output f a i o in
    let z = swap_output f y (o - y) (i + a) in
    let e : o - y + y ≡ o = omega (arith, swap_output-le f a i o) in
    let h : o * z ≤ y * (i + a) =
      subst (λ (n : ℕ). n * z ≤ y * (i + a)) e (swap_output-spot f y (o - y) (i + a)) in
    le_of_mul-le-mul_left {k = o} (omega (arith, swap_output-spot f a i o)) ho

-- The product of the reserves does not fall.
pub product-le : (f a i o : ℕ) → let y = swap_output f a i o in i * o ≤ (i + a) * (o - y)
product-le f a i o =
    let y = swap_output f a i o in
    let e : y + (o - y) ≡ o = omega (arith, swap_output-le f a i o) in
    omega (arith, swap_output-spot f a i o, ap (λ (n : ℕ). (i + a) * n) e)
