-- ===== src/Base/Dict.antt =====
-- A Python dict, in insertion order. A key stands in it once.
use peanut_trade_internship.Base.Eq.{Eq}
use mathlib.Core.Path.{◌≡◌, refl}
use mathlib.Core.Bool.{Bool}
use mathlib.Core.Option.{Option, none, some}
use mathlib.Core.List.{List, [], ◌∷◌}
use native.Mathlib.Omega.{arith}
use peanut_trade_internship.Base.Tests.{if◌then◌else◌, is_some}
use peanut_trade_internship.Base.Select.{select}

abbrev pub Dict {ℓ κ} : Type ℓ → Type κ → Type (ℓ ⊔ κ)
Dict K V = List (K × V)

module _ {ℓ κ} {K : Type ℓ} {V : Type κ} ⦃e : Eq K⦄ where
  -- `d.get(k)`
  abbrev pub lookup : K → Dict K V → Option V
  lookup k [] = none
  lookup k ((j, v) ∷ d) = if e.beq j k then some v else lookup k d

  -- `d.get(k, default)`
  abbrev pub lookup_or : K → V → Dict K V → V
  lookup_or k v d = elim (lookup k d) [ none ↦ v | some w ↦ w ]

  -- `k in d`
  abbrev pub contains : K → Dict K V → Bool
  contains k d = is_some (lookup k d)

  -- `d[k] = v`
  abbrev pub insert : K → V → Dict K V → Dict K V
  insert k v [] = (k, v) ∷ []
  insert k v ((j, w) ∷ d) = if e.beq j k then (j, v) ∷ d else (j, w) ∷ insert k v d

  -- `d.pop(k, None)`
  abbrev pub pop : K → Dict K V → Dict K V
  pop k [] = []
  pop k ((j, w) ∷ d) = if e.beq j k then pop k d else (j, w) ∷ pop k d

  pub lookup-insert :
      (k j : K) (v : V) (d : Dict K V)
      → lookup j (insert k v d) ≡ (if e.beq k j then some v else lookup j d)
  lookup-insert k j v [] = refl
  lookup-insert k j v ((i, w) ∷ d) =
      ground (arith, e.beq_iff k j, e.beq_iff i k, e.beq_iff i j, lookup-insert k j v d)

  pub lookup_or-insert :
      (k j : K) (v w : V) (d : Dict K V)
      → lookup_or j w (insert k v d) ≡ (if e.beq k j then v else lookup_or j w d)
  lookup_or-insert k j v w d = ground (arith, lookup-insert k j v d)

  pub lookup-pop :
      (k j : K) (d : Dict K V) → lookup j (pop k d) ≡ (if e.beq k j then none else lookup j d)
  lookup-pop k j [] = ground arith
  lookup-pop k j ((i, w) ∷ d) =
      ground (arith, e.beq_iff k j, e.beq_iff i k, e.beq_iff i j, lookup-pop k j d)

abbrev pub keep_if {κ} : {V : Type κ} → (V → Bool) → Option V → Option V
keep_if p none = none
keep_if p (some v) = if p v then some v else none

-- `{k: v for k, v in d.items() if p(v)}`
abbrev pub keep_values {ℓ κ} : {K : Type ℓ} {V : Type κ} → (V → Bool) → Dict K V → Dict K V
keep_values p = select (λ entry. p entry.1)

module _ {ℓ κ} {K : Type ℓ} {V : Type κ} ⦃e : Eq K⦄ where
  -- No key stands twice.
  abbrev pub Unique : Dict K V → Type κ
  Unique [] = Unit
  Unique ((k, v) ∷ d) = (lookup k d ≡ none) × Unique d

  pub lookup-keep_values :
      (p : V → Bool) (j : K) (d : Dict K V)
      → Unique d
      → lookup j (keep_values p d) ≡ keep_if p (lookup j d)
  lookup-keep_values p j [] u = refl
  lookup-keep_values p j ((i, w) ∷ d) u =
      ground (arith, e.beq_iff i j, u.0, lookup-keep_values p j d u.1)

  pub Unique-keep_values : (p : V → Bool) (d : Dict K V) → Unique d → Unique (keep_values p d)
  Unique-keep_values p [] u = tt
  Unique-keep_values p ((i, w) ∷ d) u =
      ground (arith, lookup-keep_values p i d u.1, u.0, Unique-keep_values p d u.1)

  pub Unique-insert : (k : K) (v : V) (d : Dict K V) → Unique d → Unique (insert k v d)
  Unique-insert k v [] u = (refl, tt)
  Unique-insert k v ((i, w) ∷ d) u =
      ground
        (arith, e.beq_iff i k, e.beq_iff k i, lookup-insert k i v d, u.0, Unique-insert k v d u.1)

  pub Unique-pop : (k : K) (d : Dict K V) → Unique d → Unique (pop k d)
  Unique-pop k [] u = tt
  Unique-pop k ((i, w) ∷ d) u = ground (arith, lookup-pop k i d, u.0, Unique-pop k d u.1)
