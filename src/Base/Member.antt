-- ===== src/Base/Member.antt =====
-- The members of a list.
use mathlib.Core.List.{List, [], ◌∷◌}
use peanut_trade_internship.Base.{◌≡◌, ◌⊎◌, refl, inl, inr, All}

abbrev pub IsIn : {A : Type 0} → A → List A → Type 0
IsIn x [] = ⊥
IsIn x (y ∷ ys) = (y ≡ x) ⊎ IsIn x ys

each_listed :
    {A : Type 0} (xs ys : List A) → ((x : A) → IsIn x xs → IsIn x ys) → All (λ x. IsIn x ys) xs
each_listed [] ys h = tt
each_listed (x ∷ xs) ys h = (h x (inl refl), each_listed xs ys (λ y k. h y (inr k)))

pub all-IsIn : {A : Type 0} (xs : List A) → All (λ x. IsIn x xs) xs
all-IsIn xs = each_listed xs xs (λ x k. k)

-- What is read of the members stands in a longer list too.
pub All-IsIn-more :
    {A E : Type 0} (read : E → A) (y : A) (ys : List A) (es : List E)
    → All (λ e. IsIn (read e) ys) es
    → All (λ e. IsIn (read e) (y ∷ ys)) es
All-IsIn-more read y ys [] h = tt
All-IsIn-more read y ys (e ∷ es) h = (inr h.0, All-IsIn-more read y ys es h.1)
