-- ===== src/Base/Keys.antt =====
-- Sums over rows that are grouped by a key: if two columns have one sum in every group, they have
-- one sum over any set of groups.
use Prim.Native.Nat.{ℕ, zero, suc, ◌+◌}
use mathlib.Core.Path.{◌≡◌, refl, sym, ap₂, ◌∙◌}
use mathlib.Core.Bool.{Bool, true, false, ◌&&◌, ◌||◌}
use mathlib.Core.Logic.{◌⊎◌, inl, inr}
use mathlib.Core.List.{List, [], ◌∷◌}
use native.Mathlib.Omega.{arith}
use company_tax_and_accounti.Base.Tests.{ltb, ◌==◌, ==→eq, if◌then◌else◌, Bool-cases}
use company_tax_and_accounti.Base.Lists.{All, All-every, All-map}
use company_tax_and_accounti.Base.Int.{ℤ, zero_ℤ, ◌+ℤ◌, int_laws}
use company_tax_and_accounti.Base.Sums.{sum_if, sum_if_cong_on, sum_if-false}

module _ {ℓ} {A : Type ℓ} where
  -- A test that is one of two tests, and never both, splits a sum.
  pub sum_if_split :
      (p q r : A → Bool) (f : A → ℤ) (xs : List A)
      → ((x : A) → (p x ≡ (q x || r x)) × ((q x && r x) ≡ false))
      → sum_if p f xs ≡ sum_if q f xs +ℤ sum_if r f xs
  unfolding sum_if
  sum_if_split p q r f [] h = omega int_laws
  sum_if_split p q r f (x ∷ xs) h = rw (sum_if_split p q r f xs h) (one (p x) (q x) (r x) (h x))
    where
      one :
          (a b c : Bool)
          → (a ≡ (b || c)) × ((b && c) ≡ false)
          → (if a then f x else zero_ℤ) +ℤ (sum_if q f xs +ℤ sum_if r f xs)
            ≡ ((if b then f x else zero_ℤ) +ℤ sum_if q f xs)
              +ℤ ((if c then f x else zero_ℤ) +ℤ sum_if r f xs)
      one a true true e = absurd (cc)
      one a true false e = rw e.0 (omega int_laws)
      one a false true e = rw e.0 (omega int_laws)
      one a false false e = rw e.0 (omega int_laws)

  abbrev in_group : (A → ℕ) → (A → Bool) → ℕ → A → Bool
  in_group key t k x = key x == k && t x

  module _ (key : A → ℕ) (t : A → Bool) (d c : A → ℤ) (xs : List A) where
    balanced_below :
        (g : ℕ → Bool) (n : ℕ)
        → ((k : ℕ) → sum_if (in_group key t k) d xs ≡ sum_if (in_group key t k) c xs)
        → sum_if (λ x. ltb (key x) n && (g (key x) && t x)) d xs
          ≡ sum_if (λ x. ltb (key x) n && (g (key x) && t x)) c xs
    balanced_below g zero h =
        sum_if-false _ d xs (All-every _ xs (λ x. ground arith))
        ∙ sym (sum_if-false _ c xs (All-every _ xs (λ x. ground arith)))
    balanced_below g (suc n) h =
        split d
        ∙ ap₂ (λ a b. a +ℤ b) (balanced_below g n h)
            (elim (Bool-cases (g n)) [
              | inl yes_n ↦ chosen d yes_n ∙ h n ∙ sym (chosen c yes_n)
              | inr no_n ↦ dropped d no_n ∙ sym (dropped c no_n)
            ])
        ∙ sym (split c)
      where
        at : A → Bool
        at x = key x == n && (g (key x) && t x)

        split :
            (f : A → ℤ)
            → sum_if (λ x. ltb (key x) (suc n) && (g (key x) && t x)) f xs
              ≡ sum_if (λ x. ltb (key x) n && (g (key x) && t x)) f xs +ℤ sum_if at f xs
        split f = sum_if_split _ _ at f xs (λ x. ground arith)

        chosen : (f : A → ℤ) → g n ≡ true → sum_if at f xs ≡ sum_if (in_group key t n) f xs
        chosen f e =
            sum_if_cong_on at (in_group key t n) f xs
              (All-every _ xs (λ x. same x (Bool-cases (key x == n))))
          where
            same : (x : A) → (key x == n ≡ true) ⊎ (key x == n ≡ false) → at x ≡ in_group key t n x
            same x (inl k) = rw (k, ==→eq (key x) n k, e) refl
            same x (inr k) = rw k refl

        dropped : (f : A → ℤ) → g n ≡ false → sum_if at f xs ≡ zero_ℤ
        dropped f e = sum_if-false at f xs (All-every _ xs (λ x. fails x (Bool-cases (key x == n))))
          where
            fails : (x : A) → (key x == n ≡ true) ⊎ (key x == n ≡ false) → at x ≡ false
            fails x (inl k) = rw (k, ==→eq (key x) n k, e) refl
            fails x (inr k) = rw k refl

    -- Every key is below some number.
    bound : (ys : List A) → (n : ℕ) × All (λ x. ltb (key x) n ≡ true) ys
    bound [] = (0, tt)
    bound (y ∷ ys) =
        let (n, h) = bound ys in
        (
          n + key y + 1,
          (ground arith, All-map (λ x. ltb (key x) n ≡ true) _ ys (λ x k. ground arith) h),
        )

    -- Columns that agree in every group agree over any set of groups.
    pub balanced_groups :
        (g : ℕ → Bool)
        → ((k : ℕ) → sum_if (in_group key t k) d xs ≡ sum_if (in_group key t k) c xs)
        → sum_if (λ x. g (key x) && t x) d xs ≡ sum_if (λ x. g (key x) && t x) c xs
    balanced_groups g h =
        let (n, below) = bound xs in
        let within = λ (f : A → ℤ).
          sum_if_cong_on (λ x. g (key x) && t x) (λ x. ltb (key x) n && (g (key x) && t x)) f xs
            (All-map (λ x. ltb (key x) n ≡ true) _ xs (λ x k. rw k refl) below) in
        within d ∙ balanced_below g n h ∙ sym (within c)
