-- ===== src/Statements/Totals.antt =====
-- The totals of `_balance_query` and `_balances_for` (app/domain/statements.py) as sums over the
-- journal lines.
use mathlib.Core.Path.{ap₂, fun_ext}
use company_tax_and_accounti.Base.{
  ℕ, ℤ, zero_ℤ, ◌+ℤ◌, int_laws, +ℤ_zero, zero_+ℤ, ◌≡◌, refl, ap, ◌∙◌, Bool, true, ◌&&◌, List, [],
  ◌∷◌, ◌==◌, if◌then◌else◌, select, count_if, All, Bool-cases, inl, inr, arith,
}
use company_tax_and_accounti.Base.Sums.{sum_if, sum_by}
use company_tax_and_accounti.Model.{ChartOfAccounts, JournalLine}
use company_tax_and_accounti.Statements.{Totals, add_group, group_by_account, totals_of}

totals_of-add_group :
    (k j : ℕ) (d c : ℤ) (g : Totals)
    → totals_of j (add_group k d c g)
      ≡ (if k == j then (d +ℤ (totals_of j g).0, c +ℤ (totals_of j g).1) else totals_of j g)
unfolding totals_of add_group
totals_of-add_group k j d c [] = rw (+ℤ_zero d, +ℤ_zero c) refl
totals_of-add_group k j d c ((a, x, y) ∷ g) = ground (arith, totals_of-add_group k j d c g)

unchanged : (d c : ℤ) → ◌≡◌ {A = ℤ × ℤ} (d, c) (zero_ℤ +ℤ d, zero_ℤ +ℤ c)
unchanged d c = rw (zero_+ℤ d, zero_+ℤ c) refl

-- The lines of an account among those that pass.
abbrev pub of_account : (JournalLine → Bool) → ℕ → JournalLine → Bool
of_account p id l = l.account_id == id && p l

-- The totals of an account are the sums over its lines that pass.
pub totals_of-group :
    (p : JournalLine → Bool) (id : ℕ) (ls : List JournalLine)
    → totals_of id (group_by_account (select p ls))
      ≡ (sum_if (of_account p id) (λ l. l.debit) ls, sum_if (of_account p id) (λ l. l.credit) ls)
unfolding group_by_account totals_of sum_if
totals_of-group p id [] = refl
totals_of-group p id (l ∷ ls) =
    let ih = totals_of-group p id ls in
    let d = sum_if (of_account p id) (λ m. m.debit) ls in
    let c = sum_if (of_account p id) (λ m. m.credit) ls in
    let skip = unchanged d c in
    elim (Bool-cases (p l)) [
      | inl e ↦ elim (Bool-cases (l.account_id == id)) [
        | inl k ↦ rw e (
            rw
              (totals_of-add_group l.account_id id l.debit l.credit
                (group_by_account (select p ls)))
              (rw (k, ih) refl))
        | inr k ↦ rw e (
            rw
              (totals_of-add_group l.account_id id l.debit l.credit
                (group_by_account (select p ls)))
              (rw (k, ih) skip))
      ]
      | inr e ↦ elim (Bool-cases (l.account_id == id)) [
        | inl k ↦ rw (e, k, ih) skip
        | inr k ↦ rw (e, k, ih) skip
      ]
    ]

sum_by_add {ℓ} :
    {A : Type ℓ} (f g : A → ℤ) (xs : List A)
    → sum_by (λ x. f x +ℤ g x) xs ≡ sum_by f xs +ℤ sum_by g xs
unfolding sum_by
sum_by_add f g [] = omega int_laws
sum_by_add f g (x ∷ xs) = rw (sum_by_add f g xs) (omega int_laws)

sum_by_zero {ℓ} : {A : Type ℓ} (xs : List A) → sum_by (λ (x : A). zero_ℤ) xs ≡ zero_ℤ
unfolding sum_by
sum_by_zero [] = refl
sum_by_zero (x ∷ xs) = rw (sum_by_zero xs) (omega int_laws)

-- An amount counted at the one account with an id.
sum_at_one :
    (id : ℕ) (v : ℤ) (rows : List ChartOfAccounts)
    → ((count_if (λ a. a.id == id) rows ≡ 0)
        → sum_by (λ (a : ChartOfAccounts). if id == a.id then v else zero_ℤ) rows ≡ zero_ℤ)
      × ((count_if (λ a. a.id == id) rows ≡ 1)
          → sum_by (λ (a : ChartOfAccounts). if id == a.id then v else zero_ℤ) rows ≡ v)
unfolding sum_by
sum_at_one id v [] = (λ h. refl, λ h. absurd (omega arith))
sum_at_one id v (a ∷ rows) =
    let ih = sum_at_one id v rows in
    let flip : (id == a.id) ≡ (a.id == id) = ground arith in
    elim (Bool-cases (a.id == id)) [
      | inl e ↦
          (λ h. absurd (ground arith), λ h. rw (flip, e) (rw (ih.0 (ground arith)) (+ℤ_zero v)))
      | inr e ↦ (
        λ h. rw (flip, e) (rw (ih.0 (ground arith)) (+ℤ_zero zero_ℤ)),
        λ h. rw (flip, e) (rw (ih.1 (ground arith)) (zero_+ℤ v)),
      )
    ]

-- The sums over the accounts of a chart add up to the sum over the lines, if the account of each
-- line that passes is on the chart once.
pub sum_over_accounts :
    (p : JournalLine → Bool) (f : JournalLine → ℤ) (rows : List ChartOfAccounts)
    (ls : List JournalLine)
    → All (λ l. p l ≡ true → count_if (λ a. a.id == l.account_id) rows ≡ 1) ls
    → sum_by (λ (a : ChartOfAccounts). sum_if (of_account p a.id) f ls) rows ≡ sum_if p f ls
unfolding sum_if
sum_over_accounts p f rows [] h = sum_by_zero rows
sum_over_accounts p f rows (l ∷ ls) h =
    sum_by_add (λ a. if of_account p a.id l then f l else zero_ℤ)
      (λ a. sum_if (of_account p a.id) f ls) rows
    ∙ ap₂ (λ x y. x +ℤ y) first (sum_over_accounts p f rows ls h.1)
  where
    first :
        sum_by (λ (a : ChartOfAccounts). if of_account p a.id l then f l else zero_ℤ) rows
        ≡ (if p l then f l else zero_ℤ)
    first = elim (Bool-cases (p l)) [
      | inl e ↦
          ap (λ (w : ChartOfAccounts → ℤ). sum_by w rows)
            (fun_ext λ a. elim (Bool-cases (l.account_id == a.id)) [
              | inl k ↦ rw (k, e) refl
              | inr k ↦ rw k refl
            ])
          ∙ (sum_at_one l.account_id (f l) rows).1 (h.0 e)
          ∙ rw e refl
      | inr e ↦
          ap (λ (w : ChartOfAccounts → ℤ). sum_by w rows)
            (fun_ext λ a. elim (Bool-cases (l.account_id == a.id)) [
              | inl k ↦ rw (k, e) refl
              | inr k ↦ rw k refl
            ])
          ∙ sum_by_zero rows
          ∙ rw e refl
    ]
