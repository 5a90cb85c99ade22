-- ===== src/Tax/Generate/Mapped.antt =====
-- The mappings that a worksheet is computed from: `{m.account_id: m for m in approved_rows}` of
-- app/domain/tax_service.py.
use company_tax_and_accounti.Base.{
  ℕ, Bool, true, false, List, [], ◌∷◌, ◌==◌, ◌≡◌, refl, ◌∙◌, ◌⊎◌, inl, inr, arith, any, select,
  ◌||◌, ◌&&◌, ==→eq, ==-refl, All-map, All, Bool-cases,
}
use company_tax_and_accounti.Model.{TaxAccountMapping, TaxMappingStatus, same_mapping_status}
use company_tax_and_accounti.Tax.Worksheet.{by_account, put}

pub any-All-false :
    {A : Type 0} (p : A → Bool) (xs : List A) → any p xs ≡ false → All (λ x. p x ≡ false) xs
any-All-false p [] h = tt
any-All-false p (x ∷ xs) h = (ground arith, any-All-false p xs (ground arith))

module _ (P : TaxAccountMapping → Type 0) where
  put-All :
      (m : TaxAccountMapping) (acc : List TaxAccountMapping) → P m → All P acc → All P (put m acc)
  unfolding put
  put-All m [] h k = (h, tt)
  put-All m (x ∷ acc) h k = elim (Bool-cases (x.account_id == m.account_id)) [
    | inl same ↦ rw (put, same) (h, k.1)
    | inr other ↦ rw (put, other) (k.0, put-All m acc h k.1)
  ]

  -- The mappings kept are among those given.
  pub by_account-All :
      (acc ms : List TaxAccountMapping) → All P acc → All P ms → All P (by_account acc ms)
  unfolding by_account
  by_account-All acc [] h k = h
  by_account-All acc (m ∷ ms) h k = by_account-All (put m acc) ms (put-All m acc k.0 h) k.1

  pub select-All :
      (p : TaxAccountMapping → Bool) (ms : List TaxAccountMapping)
      → ((m : TaxAccountMapping) → p m ≡ true → P m)
      → All P (select p ms)
  select-All p [] f = tt
  select-All p (m ∷ ms) f = elim (Bool-cases (p m)) [
    | inl is ↦ rw is (f m is, select-All p ms f)
    | inr off ↦ rw off (select-All p ms f)
  ]

pub approved→eq :
    (st : TaxMappingStatus)
    → same_mapping_status st TaxMappingStatus.approved ≡ true
    → st ≡ TaxMappingStatus.approved
approved→eq TaxMappingStatus.draft h = absurd (cc)
approved→eq TaxMappingStatus.approved h = refl
approved→eq TaxMappingStatus.rejected h = absurd (cc)
approved→eq TaxMappingStatus.superseded h = absurd (cc)

any-put :
    (a : ℕ) (m : TaxAccountMapping) (acc : List TaxAccountMapping)
    → any (λ x. x.account_id == a) (put m acc)
      ≡ (m.account_id == a || any (λ x. x.account_id == a) acc)
unfolding put
any-put a m [] = refl
any-put a m (x ∷ acc) = elim (Bool-cases (x.account_id == m.account_id)) [
  | inl same ↦
      let e : x.account_id ≡ m.account_id = ==→eq x.account_id m.account_id same in
      rw (put, same, e) (ground arith)
  | inr other ↦ let ih = any-put a m acc in rw (put, other, ih) (ground arith)
]

-- The mappings by account are for the accounts that have a row.
pub any-by_account :
    (a : ℕ) (acc ms : List TaxAccountMapping)
    → any (λ x. x.account_id == a) (by_account acc ms)
      ≡ (any (λ x. x.account_id == a) acc || any (λ x. x.account_id == a) ms)
unfolding by_account
any-by_account a acc [] = ground arith
any-by_account a acc (m ∷ ms) =
    let ih = any-by_account a (put m acc) ms in let e = any-put a m acc in rw (ih, e) (ground arith)

pub any-select :
    (q p : TaxAccountMapping → Bool) (ms : List TaxAccountMapping)
    → any q (select p ms) ≡ any (λ x. p x && q x) ms
any-select q p [] = refl
any-select q p (m ∷ ms) = ground (arith, any-select q p ms)

-- A row that passes is among those that pass.
pub any_self :
    (p : TaxAccountMapping → Bool) (ms : List TaxAccountMapping)
    → All (λ m. (p m ≡ false) ⊎ (any (λ x. p x && x.account_id == m.account_id) ms ≡ true)) ms
any_self p [] = tt
any_self p (m ∷ ms) = (
  elim (Bool-cases (p m)) [
    | inl is ↦ let self = ==-refl m.account_id in inr (ground arith)
    | inr off ↦ inl off
  ],
  All-map _ _ ms (λ y h. elim h [ inl off ↦ inl off | inr later ↦ inr (ground arith) ])
      (any_self p ms),
)

-- Every row that passes has its account among the mappings by account.
pub by_account-Complete :
    (p : TaxAccountMapping → Bool) (ms : List TaxAccountMapping)
    → All
        (λ m.
          (p m ≡ false)
          ⊎ (any (λ x. x.account_id == m.account_id) (by_account [] (select p ms)) ≡ true))
        ms
by_account-Complete p ms =
    All-map _ _ ms
      (λ m h. elim h [
        | inl off ↦ inl off
        | inr is ↦ inr (
            any-by_account m.account_id [] (select p ms)
            ∙ any-select (λ x. x.account_id == m.account_id) p ms
            ∙ is)
      ])
      (any_self p ms)
