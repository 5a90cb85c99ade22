-- ===== src/Promotion/Plans.antt =====
-- What becomes of one transaction of a bank statement (app/domain/promotion.py). The parameters are
-- the column rounding, Python's white space, `Decimal` on a text and `date.fromisoformat`.
use Prim.Native.Char.{Char}
use company_tax_and_accounti.Base.{
  ℕ, ℤ, zero_ℤ, leb_ℤ, ltb, Bool, false, ◌&&◌, Option, none, some, List, [], ◌∷◌, String, ◌==◌,
  if◌then◌else◌, select,
}
use company_tax_and_accounti.Base.Text.{strip, take_text, drop_commas, or_text, text_of, is_empty}
use company_tax_and_accounti.Model.{
  ChartOfAccounts, AccountingPeriod, DraftClassification, plain, Txn, SkipReason, no_account_code,
  needs_confirmation, unparseable_amount, amount_not_positive, not_in_chart, unknown_direction,
}
use text.Mathlib.Text.{◌==◌ as str_eq}
use company_tax_and_accounti.Tenant.{visible}
use company_tax_and_accounti.Session.{Session, Result, ok, err, invalid_operation}
use company_tax_and_accounti.Ledger.{LineInput, PostArgs}
use company_tax_and_accounti.Promotion.Learning.{get_override}

-- `accounts_by_code.get`: the active accounts of the client that the policy shows, of which a
-- later one replaces an earlier one of the same code.
abbrev pub last_by_code : List ChartOfAccounts → String → Option ChartOfAccounts
last_by_code [] code = none
last_by_code (a ∷ accounts) code = elim (last_by_code accounts code) [
  | some x ↦ some x
  | none ↦ if str_eq a.code code then some a else none
]

abbrev pub active_accounts : ℕ → Session → List ChartOfAccounts
active_accounts client_id s =
    select (λ a. visible s.guc a.firm_id a.client_id && (a.client_id == client_id && a.is_active))
      s.accounts

-- `_clamp`
abbrev pub clamp : AccountingPeriod → ℕ → ℕ
clamp p d = if ltb d p.start_date then p.start_date else if ltb p.end_date d then p.end_date else d

-- What `Decimal` makes of a text.
pub data Decimal : Type 0 where
  invalid not_a_number : Decimal
  number : ℤ → Decimal

-- What the loop does with a transaction: it is skipped, or an entry is posted.
pub data Plan : Type 0 where
  skipping : SkipReason → Plan
  posting : PostArgs → Plan

abbrev pub debit_line : ℕ → ℤ → LineInput
debit_line account_id amount = record {
  account_id = account_id;
  debit = amount;
  credit = zero_ℤ;
  description = none;
}

abbrev pub credit_line : ℕ → ℤ → LineInput
credit_line account_id amount = record {
  account_id = account_id;
  debit = zero_ℤ;
  credit = amount;
  description = none;
}

-- The keyword arguments of `promote_statement_draft`.
pub record StatementArgs : Type 0 where
  pub period_id : ℕ
  pub cash_account_code : String
  pub account_overrides : List (ℕ × String)

-- What the loop reads: the draft, the period, the accounts and the cash account.
pub record Statement : Type 0 where
  pub draft : DraftClassification
  pub period : AccountingPeriod
  pub accounts : List ChartOfAccounts
  pub cash : ChartOfAccounts

module _ (is_space : Char → Bool) (lower : String → String) (decimal : String → Decimal)
    (fromisoformat : String → Option ℕ) where
  -- `overrides.get(idx) or txn.get("proposed_account_code") or ""`, stripped.
  abbrev pub code_of : List (ℕ × String) → ℕ → Txn → String
  code_of overrides idx txn =
      strip is_space
        (or_text (text_of (get_override overrides idx)) (text_of txn.proposed_account_code))

  -- Whether the categorizer asks for a review that the reviewer has not given.
  abbrev pub unconfirmed : List (ℕ × String) → ℕ → Txn → Bool
  unconfirmed overrides idx txn = elim (get_override overrides idx) [
    | none ↦ txn.needs_review
    | some c ↦ false
  ]

  abbrev pub amount_text : Txn → String
  amount_text txn = elim txn.amount [ none ↦ "0" | some a ↦ drop_commas a ]

  -- The entry's date: the transaction's, within the period, or the period's first day.
  abbrev pub dated : AccountingPeriod → String → ℕ
  dated p iso = elim (fromisoformat iso) [ none ↦ p.start_date | some d ↦ clamp p d ]

  abbrev pub entry_date_of : AccountingPeriod → Txn → ℕ
  entry_date_of p txn =
      let iso = strip is_space (text_of txn.date) in
      if is_empty iso then p.start_date else dated p iso

  abbrev pub memo_of : Txn → String
  memo_of txn = or_text (take_text 120 (text_of txn.description)) "Bank statement transaction"

  abbrev pub posting_of : Statement → Txn → List LineInput → Plan
  posting_of st txn lines = posting (record {
    period_id = st.period.id;
    entry_date = entry_date_of st.period txn;
    lines = lines;
    memo = some (plain (memo_of txn));
    source_document_id = some st.draft.source_document_id;
  })

  -- A deposit debits the cash account, a payment credits it.
  unfoldable pub plan_amount : Statement → Txn → ChartOfAccounts → ℤ → Plan
  plan_amount st txn other amount =
      let direction = lower (text_of txn.direction) in
      if leb_ℤ amount zero_ℤ
      then skipping amount_not_positive
      else if str_eq direction "deposit"
      then posting_of st txn (debit_line st.cash.id amount ∷ credit_line other.id amount ∷ [])
      else if str_eq direction "payment"
      then posting_of st txn (debit_line other.id amount ∷ credit_line st.cash.id amount ∷ [])
      else skipping (unknown_direction direction)

  -- A comparison with NaN raises `decimal.InvalidOperation`, outside of the `try`.
  abbrev pub plan_decimal : Statement → Txn → ChartOfAccounts → Decimal → Result Plan
  plan_decimal st txn other invalid = ok (skipping unparseable_amount)
  plan_decimal st txn other not_a_number = err invalid_operation
  plan_decimal st txn other (number amount) = ok (plan_amount st txn other amount)

  abbrev pub plan_account : Statement → Txn → String → Option ChartOfAccounts → Result Plan
  plan_account st txn code none = ok (skipping (not_in_chart code))
  plan_account st txn code (some other) = plan_decimal st txn other (decimal (amount_text txn))

  -- The body of the loop up to the posting.
  unfoldable pub plan_of : Statement → List (ℕ × String) → ℕ → Txn → Result Plan
  plan_of st overrides idx txn =
      let code = code_of overrides idx txn in
      if is_empty code
      then ok (skipping no_account_code)
      else if unconfirmed overrides idx txn
      then ok (skipping needs_confirmation)
      else plan_account st txn code (last_by_code st.accounts code)
