-- ===== src/Base/Sums.antt =====
-- `SUM(column) ... WHERE test` over the rows of a table, and its laws.
use company_tax_and_accounti.Base.Tests.{if◌then◌else◌, Bool-cases}
use company_tax_and_accounti.Base.Lists.{insert_by, sort_by, All}
use company_tax_and_accounti.Base.Int.{ℤ, zero_ℤ, ◌+ℤ◌, int_laws}
use mathlib.Core.Path.{◌≡◌, refl}
use mathlib.Core.Bool.{Bool, false}
use mathlib.Core.Logic.{inl, inr}
use mathlib.Core.List.{List, [], ◌∷◌, ◌++◌}

module _ {ℓ} {A : Type ℓ} where
  unfoldable pub sum_if : (A → Bool) → (A → ℤ) → List A → ℤ
  sum_if p f [] = zero_ℤ
  sum_if p f (x ∷ xs) = (if p x then f x else zero_ℤ) +ℤ sum_if p f xs

  unfoldable pub sum_by : (A → ℤ) → List A → ℤ
  sum_by f [] = zero_ℤ
  sum_by f (x ∷ xs) = f x +ℤ sum_by f xs

  pub sum_if-append :
      (p : A → Bool) (f : A → ℤ) (xs ys : List A)
      → sum_if p f (xs ++ ys) ≡ sum_if p f xs +ℤ sum_if p f ys
  unfolding sum_if
  sum_if-append p f [] ys = omega int_laws
  sum_if-append p f (x ∷ xs) ys = rw (sum_if-append p f xs ys) (omega int_laws)

  sum_by-insert_by :
      (f : A → ℤ) (le : A → A → Bool) (x : A) (xs : List A)
      → sum_by f (insert_by le x xs) ≡ f x +ℤ sum_by f xs
  unfolding sum_by
  sum_by-insert_by f le x [] = refl
  sum_by-insert_by f le x (y ∷ ys) = elim (Bool-cases (le x y)) [
    | inl e ↦ rw e
    | inr e ↦ rw (e, sum_by-insert_by f le x ys) (omega int_laws)
  ]

  -- A sum does not depend on the order of the rows.
  pub sum_by-sort_by :
      (f : A → ℤ) (le : A → A → Bool) (xs : List A) → sum_by f (sort_by le xs) ≡ sum_by f xs
  unfolding sum_by sort_by
  sum_by-sort_by f le [] = refl
  sum_by-sort_by f le (x ∷ xs) =
      rw (sum_by-insert_by f le x (sort_by le xs), sum_by-sort_by f le xs) refl

  -- Two tests that agree on the rows at hand give one sum.
  pub sum_if_cong_on :
      (p q : A → Bool) (f : A → ℤ) (xs : List A)
      → All (λ x. p x ≡ q x) xs
      → sum_if p f xs ≡ sum_if q f xs
  unfolding sum_if
  sum_if_cong_on p q f [] h = refl
  sum_if_cong_on p q f (x ∷ xs) h = rw (h.0, sum_if_cong_on p q f xs h.1) refl

  -- A test that fails on every row gives no sum.
  pub sum_if-false :
      (p : A → Bool) (f : A → ℤ) (xs : List A) → All (λ x. p x ≡ false) xs → sum_if p f xs ≡ zero_ℤ
  unfolding sum_if
  sum_if-false p f [] h = refl
  sum_if-false p f (x ∷ xs) h = rw (h.0, sum_if-false p f xs h.1) (omega int_laws)
