-- ===== src/Tax/Worksheet.antt =====
-- The worksheets (app/domain/tax_service.py): the activity of the accounts, the computation of the
-- lines, and the life of a worksheet. The rounding of amount columns and the digest of the lines
-- are parameters.
use company_tax_and_accounti.Base.{
  ℕ, ℤ, zero_ℤ, ◌+ℤ◌, ◌-ℤ◌, neg_ℤ, eqb_ℤ, leb, Bool, true, false, not, ◌&&◌, Option, none, some,
  List, [], ◌∷◌, ◌++◌, String, ◌==◌, if◌then◌else◌, any, find, select, map, update_if, sort_by,
}
use company_tax_and_accounti.Base.Sums.{sum_by, sum_if}
use company_tax_and_accounti.Model.{
  AccountType, ChartOfAccounts, AccountingPeriod, JournalEntry, JournalLine, DraftClassification,
  TaxAccountMapping, TaxMappingStatus, TaxLineSign, TaxForm, TaxFormCode, TaxFormLine,
  TaxFormSection, TaxWorksheet, TaxWorksheetLine, TaxWorksheetStatus, Contributor, AuditAction,
  same_type, same_section, same_mapping_status, is_firm, is_pending, is_current, is_computed,
  superseded_details, generated_details, reviewed_details,
}
use company_tax_and_accounti.Tenant.{visible}
use company_tax_and_accounti.Session.{
  Session, Action, Error, Result, ok, err, ◌>>=◌, ◌>>◌, pure, raise_if, gets, modify, or_raise,
  get_period, write_audit, tax_forbidden, generation, unmapped_accounts, data_error,
  integrity_error, row_security, lift_result,
}
use company_tax_and_accounti.Statements.{entry_of, passes, in_range, accounts_of}
use company_tax_and_accounti.Tax.Mapping.{Caller, get_form_by_code}
pub mod Activity

-- `_AccountActivity`
pub record AccountActivity : Type 0 where
  pub account_id : ℕ
  pub code : String
  pub name : String
  pub account_type : AccountType
  pub debit : ℤ
  pub credit : ℤ

-- `_signed_balance`
abbrev pub signed_by_type : AccountType → ℤ → ℤ → ℤ
signed_by_type AccountType.asset d c = d -ℤ c
signed_by_type AccountType.expense d c = d -ℤ c
signed_by_type _ d c = c -ℤ d

-- The property `signed_balance`.
unfoldable pub signed_balance : AccountActivity → ℤ
signed_balance a = signed_by_type a.account_type a.debit a.credit

-- A row of the outer joins of `_period_activity`: a line, or NULL where the account has none, and
-- the line's entry, or NULL where it does not meet the condition of the join.
pub record JoinRow : Type 0 where
  pub line : Option JournalLine
  pub entry : Option JournalEntry

-- The second outer join: posted entries dated in the period.
abbrev pub join_entry : Session → AccountingPeriod → JournalLine → Option JournalEntry
join_entry s p l =
    let e = entry_of s l.entry_id in
    if passes (in_range (some p.start_date) p.end_date) e then e else none

abbrev pub or_null : List JoinRow → List JoinRow
or_null [] = record { line = none; entry = none } ∷ []
or_null (r ∷ rows) = r ∷ rows

-- The rows of one account.
unfoldable pub join_rows : Session → AccountingPeriod → ChartOfAccounts → List JoinRow
join_rows s p a = or_null (
    map (λ l. record { line = some l; entry = join_entry s p l })
      (select (λ l. l.account_id == a.id && visible s.guc l.firm_id l.client_id) s.lines))

-- `coalesce(sum(JournalLine.column), 0)`: NULL does not count.
abbrev pub column : (JournalLine → ℤ) → JoinRow → ℤ
column f r = elim r.line [ none ↦ zero_ℤ | some l ↦ f l ]

abbrev pub activity_of : Session → AccountingPeriod → ChartOfAccounts → AccountActivity
activity_of s p a = record {
  account_id = a.id;
  code = a.code;
  name = a.name;
  account_type = a.account_type;
  debit = sum_by (column (λ l. l.debit)) (join_rows s p a);
  credit = sum_by (column (λ l. l.credit)) (join_rows s p a);
}

-- `_period_activity` for revenue and expense accounts.
abbrev pub is_pnl : AccountType → Bool
is_pnl t = any (same_type t) (AccountType.revenue ∷ AccountType.expense ∷ [])

unfoldable pub period_activity : Session → ℕ → ℕ → AccountingPeriod → List AccountActivity
period_activity s firm_id client_id p =
    map (activity_of s p) (select (λ a. is_pnl a.account_type) (accounts_of s firm_id client_id))

-- `{m.account_id: m for m in approved_rows}`: a later row replaces an earlier one.
unfoldable pub put : TaxAccountMapping → List TaxAccountMapping → List TaxAccountMapping
put m [] = m ∷ []
put m (x ∷ rest) = if x.account_id == m.account_id then m ∷ rest else x ∷ put m rest

unfoldable pub by_account : List TaxAccountMapping → List TaxAccountMapping → List TaxAccountMapping
by_account acc [] = acc
by_account acc (m ∷ rest) = by_account (put m acc) rest

-- The approved mappings of a client for a form.
abbrev pub approved_rows : Session → ℕ → ℕ → List TaxAccountMapping
approved_rows s client_id form_id =
    select
      (λ m.
        visible s.guc m.firm_id m.client_id
        && (m.client_id == client_id
            && (m.form_id == form_id && same_mapping_status m.status TaxMappingStatus.approved)))
      s.mappings

abbrev pub is_mapped : List TaxAccountMapping → AccountActivity → Bool
is_mapped ms a = any (λ m. m.account_id == a.account_id) ms

-- The accounts with activity and no approved mapping.
abbrev pub unmapped : List TaxAccountMapping → List AccountActivity → List AccountActivity
unmapped ms = select (λ a. not (eqb_ℤ (signed_balance a) zero_ℤ) && not (is_mapped ms a))

abbrev pub signed_by : TaxLineSign → ℤ → ℤ
signed_by TaxLineSign.positive v = v
signed_by TaxLineSign.negative v = neg_ℤ v

-- A contribution with the line that it goes to.
pub record Contribution : Type 0 where
  pub line_id : ℕ
  pub part : Contributor

abbrev pub contribution_of : TaxAccountMapping → AccountActivity → Contribution
contribution_of m a = record {
  line_id = m.line_id;
  part = record {
    account_id = a.account_id;
    code = a.code;
    name = a.name;
    account_type = a.account_type;
    debit_total = a.debit;
    credit_total = a.credit;
    signed_balance = signed_balance a;
    sign = m.sign;
    contribution = signed_by m.sign (signed_balance a);
  };
}

-- The loop over the approved mappings: an account that has no activity adds nothing.
unfoldable pub contributions : List AccountActivity → List TaxAccountMapping → List Contribution
contributions acts [] = []
contributions acts (m ∷ rest) =
    let more = contributions acts rest in
    elim (find (λ a. a.account_id == m.account_id) acts) [
      | none ↦ more
      | some a ↦ if eqb_ℤ (signed_balance a) zero_ℤ then more else contribution_of m a ∷ more
    ]

abbrev pub for_line : ℕ → Contribution → Bool
for_line line_id k = k.line_id == line_id

abbrev pub amount_of : List Contribution → TaxFormLine → ℤ
amount_of ks fl = sum_if (for_line fl.id) (λ k. k.part.contribution) ks

-- The lines of a form in their sequence.
abbrev pub lines_of_form : Session → ℕ → List TaxFormLine
lines_of_form s form_id =
    sort_by (λ x y. leb x.sequence y.sequence) (select (λ l. l.form_id == form_id) s.form_lines)

-- `_section_total` over the amounts of the lines.
abbrev pub section_total : List Contribution → List TaxFormLine → TaxFormSection → ℤ
section_total ks fls sec = sum_if (λ fl. same_section fl.section sec) (amount_of ks) fls

pub record Figures : Type 0 where
  pub total_income : ℤ
  pub total_cogs : ℤ
  pub total_deductions : ℤ
  pub taxable_income : ℤ

-- The totals of `generate_worksheet`.
unfoldable pub figures : List Contribution → List TaxFormLine → Figures
figures ks fls =
    let total_income = section_total ks fls TaxFormSection.income in
    let total_cogs = section_total ks fls TaxFormSection.cogs in
    let total_deductions = section_total ks fls TaxFormSection.deductions in
    record {
      total_income = total_income;
      total_cogs = total_cogs;
      total_deductions = total_deductions;
      taxable_income = total_income -ℤ total_cogs -ℤ total_deductions;
    }

abbrev pub pending_drafts : Session → ℕ → Bool
pending_drafts s client_id =
    any
      (λ d.
        visible s.guc d.firm_id d.client_id && (d.client_id == client_id && is_pending d.status))
      s.drafts
