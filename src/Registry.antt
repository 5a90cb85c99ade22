-- ===== src/Registry.antt =====
-- Tables of versions, of which one row per key is in force: to activate a row supersedes the row
-- that was in force for its key (app/domain/form_template.py, app/domain/entity_form_ruleset.py).
use mathlib.Core.Path.{subst}
use company_tax_and_accounti.Base.{
  ℕ, suc, ◌≤◌, Bool, true, false, not, ◌&&◌, Option, none, some, List, [], ◌∷◌, ◌≡◌, refl, ap, ◌∙◌,
  sym, ◌⊎◌, inl, inr, arith, if◌then◌else◌, find, any, count_if, select, update_if, All, All-map,
  ◌==◌, ◌+◌, ◌++◌, Bool-cases,
}
pub mod Switch

module _ {A : Type 0} where
  -- One pass of updates over all rows.
  abbrev pub each : (A → A) → List A → List A
  each h [] = []
  each h (x ∷ xs) = h x ∷ each h xs

  unfoldable pub on_some : (A → A) → Option A → Option A
  on_some h none = none
  on_some h (some x) = some (h x)

  pub find-each :
      (p : A → Bool) (h : A → A) (xs : List A)
      → find p (each h xs) ≡ on_some h (find (λ x. p (h x)) xs)
  unfolding on_some
  find-each p h [] = refl
  find-each p h (x ∷ xs) = elim (Bool-cases (p (h x))) [
    | inl passes ↦ rw passes refl
    | inr fails ↦ rw fails (find-each p h xs)
  ]

  pub count_if-each :
      (p : A → Bool) (h : A → A) (xs : List A) → count_if p (each h xs) ≡ count_if (λ x. p (h x)) xs
  count_if-each p h [] = refl
  count_if-each p h (x ∷ xs) = rw (count_if-each p h xs) refl

  pub find_cong_on :
      (p q : A → Bool) (xs : List A) → All (λ x. p x ≡ q x) xs → find p xs ≡ find q xs
  find_cong_on p q [] h = refl
  find_cong_on p q (x ∷ xs) h = rw (h.0, find_cong_on p q xs h.1) refl

  pub count_if_cong_on :
      (p q : A → Bool) (xs : List A) → All (λ x. p x ≡ q x) xs → count_if p xs ≡ count_if q xs
  count_if_cong_on p q [] h = refl
  count_if_cong_on p q (x ∷ xs) h = rw (h.0, count_if_cong_on p q xs h.1) refl

  none_passes : (p : A → Bool) (xs : List A) → count_if p xs ≡ 0 → All (λ x. p x ≡ false) xs
  none_passes p [] h = tt
  none_passes p (x ∷ xs) h = (ground arith, none_passes p xs (ground arith))

  -- The row that is found under a key is the only one that passes.
  pub sole_row :
      (p : A → Bool) (xs : List A) (r : A)
      → count_if p xs ≤ 1
      → find p xs ≡ some r
      → All (λ x. (p x ≡ false) ⊎ (x ≡ r)) xs
  sole_row p [] r h e = tt
  sole_row p (x ∷ xs) r h e = elim (Bool-cases (p x)) [
    | inl passes ↦
        let same : x ≡ r = ground arith in
        (inr same, All-map (λ y. p y ≡ false) _ xs (λ y k. inl k) (none_passes p xs (ground arith)))
    | inr fails ↦ (inl fails, sole_row p xs r (ground arith) (ground arith))
  ]

  pub find_passes : (p : A → Bool) (xs : List A) (r : A) → find p xs ≡ some r → p r ≡ true
  find_passes p [] r h = absurd (cc)
  find_passes p (x ∷ xs) r h = elim (Bool-cases (p x)) [
    | inl passes ↦ let same : x ≡ r = ground arith in rw (← same) passes
    | inr fails ↦ find_passes p xs r (ground arith)
  ]

  pub find-kept :
      (p : A → Bool) (h : A → A) (xs : List A)
      → All (λ x. (p (h x) ≡ p x) × ((p x ≡ false) ⊎ (h x ≡ x))) xs
      → find p (each h xs) ≡ find p xs
  find-kept p h [] k = refl
  find-kept p h (x ∷ xs) k = elim k.0.1 [
    | inl fails ↦ rw (k.0.0, fails) (find-kept p h xs k.1)
    | inr same ↦ rw (k.0.0, same, find-kept p h xs k.1) refl
  ]

  pub update_if-each :
      (p : A → Bool) (f : A → A) (xs : List A)
      → update_if p f xs ≡ each (λ x. if p x then f x else x) xs
  update_if-each p f [] = refl
  update_if-each p f (x ∷ xs) = rw (update_if-each p f xs) refl

  pub All-find {κ} :
      (P : A → Type κ) (p : A → Bool) (xs : List A) (r : A) → All P xs → find p xs ≡ some r → P r
  All-find P p [] r h e = absurd (cc)
  All-find P p (x ∷ xs) r h e = elim (Bool-cases (p x)) [
    | inl passes ↦ let same : x ≡ r = ground arith in subst P same h.0
    | inr fails ↦ All-find P p xs r h.1 (ground arith)
  ]

  pub All-each {κ ι} :
      (P : A → Type κ) (Q : A → Type ι) (h : A → A) (xs : List A)
      → ((x : A) → P x → Q (h x))
      → All P xs
      → All Q (each h xs)
  All-each P Q h [] f k = tt
  All-each P Q h (x ∷ xs) f k = (f x k.0, All-each P Q h xs f k.1)

  pub All-both {κ ι} :
      (P : A → Type κ) (Q : A → Type ι) (xs : List A)
      → All P xs
      → All Q xs
      → All (λ x. P x × Q x) xs
  All-both P Q [] h k = tt
  All-both P Q (x ∷ xs) h k = ((h.0, k.0), All-both P Q xs h.1 k.1)

  pub find-append :
      (p : A → Bool) (xs : List A) (y : A) → p y ≡ false → find p (xs ++ (y ∷ [])) ≡ find p xs
  find-append p [] y h = rw h refl
  find-append p (x ∷ xs) y h = rw (find-append p xs y h) refl

  pub count_if-append :
      (p : A → Bool) (xs : List A) (y : A)
      → count_if p (xs ++ (y ∷ [])) ≡ count_if p xs + (if p y then 1 else 0)
  count_if-append p [] y = ground arith
  count_if-append p (x ∷ xs) y = let e = count_if-append p xs y in ground arith

  pub any-none : (p : A → Bool) (xs : List A) → any p xs ≡ false → count_if p xs ≡ 0
  any-none p [] h = refl
  any-none p (x ∷ xs) h = let e = any-none p xs (ground arith) in ground arith

  pub select-none : (p : A → Bool) (xs : List A) → count_if p xs ≡ 0 → select p xs ≡ []
  select-none p [] h = refl
  select-none p (x ∷ xs) h = let e = select-none p xs (ground arith) in ground arith

  count_if-found :
      (p q : A → Bool) (xs : List A) (r : A) → find q xs ≡ some r → p r ≡ true → 1 ≤ count_if p xs
  count_if-found p q [] r h k = absurd (cc)
  count_if-found p q (x ∷ xs) r h k = elim (Bool-cases (q x)) [
    | inl passes ↦
        let same : x ≡ r = ground arith in
        let is : p x ≡ true = subst (λ y. p y ≡ true) (sym same) k in ground arith
    | inr fails ↦ let e = count_if-found p q xs r (ground arith) k in ground arith
  ]

  -- A row that is in the table and passes a test that one row passes at most is found by it.
  pub find-sole :
      (p q : A → Bool) (xs : List A) (r : A)
      → find q xs ≡ some r
      → p r ≡ true
      → count_if p xs ≤ 1
      → find p xs ≡ some r
  find-sole p q [] r h k one = absurd (cc)
  find-sole p q (x ∷ xs) r h k one = elim (Bool-cases (q x)) [
    | inl passes ↦
        let same : x ≡ r = ground arith in
        let is : p x ≡ true = subst (λ y. p y ≡ true) (sym same) k in rw is (ap some same)
    | inr fails ↦
        let later : find q xs ≡ some r = ground arith in
        let e = count_if-found p q xs r later k in
        let off : p x ≡ false = ground arith in rw off (find-sole p q xs r later k (ground arith))
  ]

  pub find-new :
      (p : A → Bool) (xs : List A) (y : A)
      → any p xs ≡ false
      → p y ≡ true
      → find p (xs ++ (y ∷ [])) ≡ some y
  find-new p [] y h k = rw k refl
  find-new p (x ∷ xs) y h k =
      let off : p x ≡ false = ground arith in rw off (find-new p xs y (ground arith) k)
