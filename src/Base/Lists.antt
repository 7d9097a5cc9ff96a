-- ===== src/Base/Lists.antt =====
-- Lists measured by native numbers, under the library's names.
use Prim.Native.Nat.{ℕ, zero, suc, ◌+◌, ◌-◌, ◌≤◌}
use mathlib.Core.Path.{◌≡◌, refl, sym, ap, ◌∙◌}
use mathlib.Core.List.{List, [], ◌∷◌, ◌++◌}
use native.Mathlib.Nat.{zero-add}
use native.Mathlib.Omega.{arith}

module _ {ℓ} {A : Type ℓ} where
  abbrev pub length : List A → ℕ
  length [] = 0
  length (x ∷ xs) = suc (length xs)

  pub length-append : (xs ys : List A) → length (xs ++ ys) ≡ length xs + length ys
  length-append [] ys = omega arith
  length-append (x ∷ xs) ys = omega (arith, length-append xs ys)

  -- `xs[:n]`
  abbrev pub take : ℕ → List A → List A
  take zero xs = []
  take (suc n) [] = []
  take (suc n) (x ∷ xs) = x ∷ take n xs

  pub drop : ℕ → List A → List A
  drop zero xs = xs
  drop (suc n) [] = []
  drop (suc n) (x ∷ xs) = drop n xs

  length-drop : (n : ℕ) (xs : List A) → length (drop n xs) ≡ length xs - n
  unfolding drop
  length-drop zero xs = omega arith
  length-drop (suc n) [] = omega arith
  length-drop (suc n) (x ∷ xs) = omega (arith, length-drop n xs)

  drop-nil : (n : ℕ) → drop n [] ≡ []
  unfolding drop
  drop-nil zero = refl
  drop-nil (suc n) = refl

  drop-drop : (m n : ℕ) (xs : List A) → drop m (drop n xs) ≡ drop (n + m) xs
  unfolding drop
  drop-drop m zero xs = rw zero-add refl
  drop-drop m (suc n) [] = drop-nil m ∙ sym (drop-nil (suc n + m))
  drop-drop m (suc n) (x ∷ xs) =
      let next : suc n + m ≡ suc (n + m) = omega arith in rw next (drop-drop m n xs)

  drop-append : (n : ℕ) (xs ys : List A) → n ≤ length xs → drop n (xs ++ ys) ≡ drop n xs ++ ys
  unfolding drop
  drop-append zero xs ys h = refl
  drop-append (suc n) [] ys h = absurd (omega arith)
  drop-append (suc n) (x ∷ xs) ys h = drop-append n xs ys (omega arith)

  -- `xs[-n:]`, for n > 0
  unfoldable pub last : ℕ → List A → List A
  unfolding drop
  last n xs = drop (length xs - n) xs

  pub length-last : (n : ℕ) (xs : List A) → length (last n xs) ≤ n
  unfolding last
  length-last n xs = omega (arith, length-drop (length xs - n) xs)

  -- The last few of what is kept are the last few of all.
  pub last-last : (m n : ℕ) (xs ys : List A) → n ≤ m → last n (last m xs ++ ys) ≡ last n (xs ++ ys)
  unfolding last
  last-last m n xs ys h =
      rw (← drop-append (length xs - m) xs ys (omega arith))
        (drop-drop _ (length xs - m) (xs ++ ys) ∙ ap (λ k. drop k (xs ++ ys)) as_many)
    where
      as_many :
          (length xs - m) + (length (drop (length xs - m) (xs ++ ys)) - n) ≡ length (xs ++ ys) - n
      as_many = omega (arith, length-drop (length xs - m) (xs ++ ys), length-append xs ys)

  drop_too_few : (n : ℕ) (xs : List A) → length xs ≤ n → drop n xs ≡ []
  unfolding drop
  drop_too_few zero [] h = refl
  drop_too_few zero (x ∷ xs) h = absurd (omega arith)
  drop_too_few (suc n) [] h = refl
  drop_too_few (suc n) (x ∷ xs) h = drop_too_few n xs (omega arith)

  pub last_zero : (xs : List A) → last 0 xs ≡ []
  unfolding last
  last_zero xs = drop_too_few (length xs - 0) xs (omega arith)

  pub last_of_few : (n : ℕ) (xs : List A) → length xs ≤ n → last n xs ≡ xs
  unfolding last drop
  last_of_few n xs h =
      ap (λ k. drop k xs) (let none_left : length xs - n ≡ 0 = omega arith in none_left)

  pub last_and_one :
      (n : ℕ) (xs : List A) (x : A) → last (suc n) (xs ++ x ∷ []) ≡ last n xs ++ x ∷ []
  unfolding last
  last_and_one n xs x =
      let longer : length (xs ++ x ∷ []) - suc n ≡ length xs - n =
        omega (arith, length-append xs (x ∷ [])) in
      rw longer (drop-append (length xs - n) xs (x ∷ []) (omega arith))
