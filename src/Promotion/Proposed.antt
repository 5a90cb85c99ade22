-- ===== src/Promotion/Proposed.antt =====
-- The entries that the promotion of a bank statement proposes (app/domain/promotion.py) are ones
-- that the ledger's own checks of balance and date accept.
use mathlib.Core.Path.{subst}
use Prim.Native.Char.{Char}
use company_tax_and_accounti.Base.{
  ℕ, ℤ, pos, zero_ℤ, leb_ℤ, ◌≤◌, ◌≤ℤ◌, Bool, true, false, Option, Option-cases, none, some, List,
  [], ◌∷◌, String, ◌≡◌, refl, inl, inr, arith, int_laws, Bool-cases, if◌then◌else◌,
}
use company_tax_and_accounti.Base.Text.{strip, is_empty, text_of}
use company_tax_and_accounti.Base.Sums.{sum_by}
use company_tax_and_accounti.Model.{AccountingPeriod, ChartOfAccounts, Txn}
use text.Mathlib.Text.{◌==◌ as str_eq}
use company_tax_and_accounti.Session.{Result, ok, err}
use company_tax_and_accounti.Ledger.{PostArgs, validate_lines, in_period}
use company_tax_and_accounti.Ledger.Validation.{validate_lines_iff}
use company_tax_and_accounti.Promotion.Plans.{
  Decimal, invalid, not_a_number, number, Plan, skipping, posting, Statement, clamp, dated,
  entry_date_of, debit_line, credit_line, plan_amount, plan_decimal, plan_account, plan_of, code_of,
  unconfirmed, amount_text,
}

-- What the ledger asks of an entry before it looks at the accounts.
abbrev pub IsAcceptable : Statement → PostArgs → Type 0
IsAcceptable st args =
    (total : ℤ) × (validate_lines args.lines ≡ ok total)
    × (pos 1 ≤ℤ total)
    × (in_period st.period args.entry_date ≡ true)
    × (args.period_id ≡ st.period.id)

abbrev IsFine : Statement → Result Plan → Type 0
IsFine st (err e) = Unit
IsFine st (ok (skipping reason)) = Unit
IsFine st (ok (posting args)) = IsAcceptable st args

two_lines :
    (a b : ℕ) (amount : ℤ)
    → leb_ℤ amount zero_ℤ ≡ false
    → (pos 1 ≤ℤ amount)
      × (validate_lines (debit_line a amount ∷ credit_line b amount ∷ []) ≡ ok amount)
unfolding sum_by
two_lines a b amount h =
    let positive : pos 1 ≤ℤ amount = ground arith in
    (
      positive,
      (validate_lines_iff (debit_line a amount ∷ credit_line b amount ∷ []) amount).1 (
        ground arith,
        (inl (positive, refl), (inr (refl, positive), tt)),
        omega int_laws,
        omega int_laws,
        positive,
      ),
    )

clamp-in_period :
    (p : AccountingPeriod) (d : ℕ) → p.start_date ≤ p.end_date → in_period p (clamp p d) ≡ true
clamp-in_period p d h = ground arith

start-in_period :
    (p : AccountingPeriod) → p.start_date ≤ p.end_date → in_period p p.start_date ≡ true
start-in_period p h = ground arith

module _ (is_space : Char → Bool) (lower : String → String) (decimal : String → Decimal)
    (fromisoformat : String → Option ℕ) where
  entry_date_of-in_period :
      (p : AccountingPeriod) (txn : Txn)
      → p.start_date ≤ p.end_date
      → in_period p (entry_date_of is_space lower decimal fromisoformat p txn) ≡ true
  entry_date_of-in_period p txn h =
      elim (Bool-cases (is_empty (strip is_space (text_of txn.date)))) [
        | inl undated ↦ rw undated (start-in_period p h)
        | inr given ↦
            rw given (elim (Option-cases (fromisoformat (strip is_space (text_of txn.date)))) [
              | inl unreadable ↦ rw (dated, unreadable) (start-in_period p h)
              | inr (d, e) ↦ rw (dated, e) (clamp-in_period p d h)
            ])
      ]

  module _ (st : Statement) (h : st.period.start_date ≤ st.period.end_date) (txn : Txn) where
    plan_amount-IsFine :
        (other : ChartOfAccounts) (amount : ℤ)
        → IsFine st (ok (plan_amount is_space lower decimal fromisoformat st txn other amount))
    unfolding plan_amount
    plan_amount-IsFine other amount = elim (Bool-cases (leb_ℤ amount zero_ℤ)) [
      | inl none_left ↦ rw none_left tt
      | inr positive ↦ elim (Bool-cases (str_eq (lower (text_of txn.direction)) "deposit")) [
        | inl deposit ↦
            let (p, v) = two_lines st.cash.id other.id amount positive in
            rw (positive, deposit) (amount, v, p, entry_date_of-in_period st.period txn h, refl)
        | inr not_deposit ↦ elim (Bool-cases (str_eq (lower (text_of txn.direction)) "payment")) [
          | inl payment ↦
              let (p, v) = two_lines other.id st.cash.id amount positive in
              rw (positive, not_deposit, payment)
                (amount, v, p, entry_date_of-in_period st.period txn h, refl)
          | inr neither ↦ rw (positive, not_deposit, neither) tt
        ]
      ]
    ]

    plan_decimal-IsFine :
        (other : ChartOfAccounts) (d : Decimal)
        → IsFine st (plan_decimal is_space lower decimal fromisoformat st txn other d)
    plan_decimal-IsFine other invalid = tt
    plan_decimal-IsFine other not_a_number = tt
    plan_decimal-IsFine other (number amount) = plan_amount-IsFine other amount

    plan_account-IsFine :
        (code : String) (o : Option ChartOfAccounts)
        → IsFine st (plan_account is_space lower decimal fromisoformat st txn code o)
    plan_account-IsFine code none = tt
    plan_account-IsFine code (some other) =
        plan_decimal-IsFine other (decimal (amount_text is_space lower decimal fromisoformat txn))

    IsFine-if :
        (b : Bool) (x y : Result Plan) → IsFine st x → IsFine st y → IsFine st (if b then x else y)
    IsFine-if true x y f g = f
    IsFine-if false x y f g = g

    plan_of-IsFine :
        (overrides : List (ℕ × String)) (idx : ℕ)
        → IsFine st (plan_of is_space lower decimal fromisoformat st overrides idx txn)
    unfolding plan_of
    plan_of-IsFine overrides idx =
        IsFine-if (is_empty (code_of is_space lower decimal fromisoformat overrides idx txn)) _ _ tt
          (IsFine-if (unconfirmed is_space lower decimal fromisoformat overrides idx txn) _ _ tt
            (plan_account-IsFine _ _))

  -- Whatever a transaction says, the entry that is proposed for it has lines that the ledger's
  -- check accepts with a positive total, the period of the statement, and a date within it, if
  -- the period does not end before it starts.
  pub plan_of-IsAcceptable :
      (st : Statement) (overrides : List (ℕ × String)) (idx : ℕ) (txn : Txn) (args : PostArgs)
      → st.period.start_date ≤ st.period.end_date
      → plan_of is_space lower decimal fromisoformat st overrides idx txn ≡ ok (posting args)
      → IsAcceptable st args
  plan_of-IsAcceptable st overrides idx txn args h e =
      subst (IsFine st) e (plan_of-IsFine st h txn overrides idx)
