-- ===== src/Statements.antt =====
-- The statement generators (app/domain/statements.py): aggregations of the journal lines of one
-- tenant. A date is its ordinal, of which 1 is the first (`date.min`).
pub mod Totals
pub mod Identity
pub mod Flow
use text.Mathlib.Text.{◌==◌ as str_eq}
use company_tax_and_accounti.Base.{
  ℕ, ◌-◌, ℤ, zero_ℤ, ◌+ℤ◌, ◌-ℤ◌, eqb_ℤ, ltb, leb, Bool, true, false, not, ◌&&◌, Option, none, some,
  List, [], ◌∷◌, String, ◌==◌, if◌then◌else◌, any, find, select, map, sort_by,
}
use company_tax_and_accounti.Base.Text.{leb_text}
use company_tax_and_accounti.Base.Sums.{sum_if, sum_by}
use company_tax_and_accounti.Model.{
  AccountType, ChartOfAccounts, JournalEntry, JournalLine, same_type, is_posted,
}
use company_tax_and_accounti.Tenant.{visible}
use company_tax_and_accounti.Session.{
  Session, Result, ok, err, value_error, assertion_failed, overflow,
}

pub record AccountBalance : Type 0 where
  pub account_id : ℕ
  pub code : String
  pub name : String
  pub account_type : AccountType
  pub debit_total : ℤ
  pub credit_total : ℤ
  pub signed_balance : ℤ

pub record ProfitAndLoss : Type 0 where
  pub period_start : ℕ
  pub period_end : ℕ
  pub revenue : List AccountBalance
  pub expenses : List AccountBalance
  pub total_revenue : ℤ
  pub total_expenses : ℤ
  pub net_income : ℤ

pub record BalanceSheet : Type 0 where
  pub as_of : ℕ
  pub assets : List AccountBalance
  pub liabilities : List AccountBalance
  pub equity : List AccountBalance
  pub total_assets : ℤ
  pub total_liabilities : ℤ
  pub total_equity : ℤ
  pub retained_earnings_to_date : ℤ
  pub balances : Bool

pub record TrialBalance : Type 0 where
  pub as_of : ℕ
  pub rows : List AccountBalance
  pub total_debits : ℤ
  pub total_credits : ℤ
  pub balances : Bool

pub record CashFlowStatement : Type 0 where
  pub period_start : ℕ
  pub period_end : ℕ
  pub cash_account_codes : List String
  pub opening_cash : ℤ
  pub closing_cash : ℤ
  pub net_change : ℤ
  pub inflows : ℤ
  pub outflows : ℤ

-- The join of a line with its entry, of which the policy may hide the entry; ids are keys.
abbrev pub entry_of : Session → ℕ → Option JournalEntry
entry_of s entry_id = find (λ e. e.id == entry_id && visible s.guc e.firm_id e.client_id) s.entries

abbrev pub passes : (JournalEntry → Bool) → Option JournalEntry → Bool
passes q none = false
passes q (some e) = q e

abbrev pub since : Option ℕ → JournalEntry → Bool
since none e = true
since (some d) e = leb d e.entry_date

-- The conditions on the entry: posted, and dated in the range.
abbrev pub in_range : Option ℕ → ℕ → JournalEntry → Bool
in_range start end e = is_posted e.status && leb e.entry_date end && since start e

-- The conditions on a line: the policy shows it, it is the tenant's, and its entry passes.
abbrev pub in_query : Session → ℕ → ℕ → (JournalEntry → Bool) → JournalLine → Bool
in_query s firm_id client_id q l =
    visible s.guc l.firm_id l.client_id
    && (l.firm_id == firm_id && l.client_id == client_id)
    && passes q (entry_of s l.entry_id)

abbrev pub Totals : Type 0
Totals = List (ℕ × ℤ × ℤ)

-- `GROUP BY account_id` with the sums of both columns.
unfoldable pub add_group : ℕ → ℤ → ℤ → Totals → Totals
add_group k d c [] = (k, d, c) ∷ []
add_group k d c ((a, x, y) ∷ g) =
    if a == k then (a, d +ℤ x, c +ℤ y) ∷ g else (a, x, y) ∷ add_group k d c g

unfoldable pub group_by_account : List JournalLine → Totals
group_by_account [] = []
group_by_account (l ∷ ls) = add_group l.account_id l.debit l.credit (group_by_account ls)

-- `totals.get(a.id, (ZERO, ZERO))`
unfoldable pub totals_of : ℕ → Totals → ℤ × ℤ
totals_of k [] = (zero_ℤ, zero_ℤ)
totals_of k ((a, x, y) ∷ g) = if a == k then (x, y) else totals_of k g

-- `_balance_query`
unfoldable pub balance_query : Session → ℕ → ℕ → Option ℕ → ℕ → Totals
balance_query s firm_id client_id start end =
    group_by_account (select (in_query s firm_id client_id (in_range start end)) s.lines)

-- `_accounts`
abbrev pub accounts_of : Session → ℕ → ℕ → List ChartOfAccounts
accounts_of s firm_id client_id =
    select
      (λ a.
        visible s.guc a.firm_id a.client_id && (a.firm_id == firm_id && a.client_id == client_id))
      s.accounts

-- `_signed`
unfoldable pub signed : AccountType → ℤ → ℤ → ℤ
signed AccountType.asset d c = d -ℤ c
signed AccountType.expense d c = d -ℤ c
signed _ d c = c -ℤ d

-- `types is not None and a.account_type not in types`
abbrev pub skips : Option (List AccountType) → AccountType → Bool
skips none t = false
skips (some ts) t = not (any (same_type t) ts)

abbrev pub balance_row : Totals → ChartOfAccounts → AccountBalance
balance_row g a =
    let (d, c) = totals_of a.id g in
    record {
      account_id = a.id;
      code = a.code;
      name = a.name;
      account_type = a.account_type;
      debit_total = d;
      credit_total = c;
      signed_balance = signed a.account_type d c;
    }

-- The loop of `_balances_for` over the accounts.
unfoldable pub balance_rows :
    Totals → Option (List AccountType) → List ChartOfAccounts → List AccountBalance
balance_rows g types [] = []
balance_rows g types (a ∷ rest) =
    let rows = balance_rows g types rest in
    if skips types a.account_type then rows else balance_row g a ∷ rows

-- `_balances_for`
unfoldable pub balances_for :
    Session → ℕ → ℕ → Option ℕ → ℕ → Option (List AccountType) → List AccountBalance
balances_for s firm_id client_id start end types =
    sort_by (λ x y. leb_text x.code y.code)
      (balance_rows (balance_query s firm_id client_id start end) types
        (accounts_of s firm_id client_id))

-- `StatementsService`
pub record StatementsService : Type 0 where
  pub firm_id : ℕ
  pub client_id : ℕ

abbrev pub sum_signed : List AccountBalance → ℤ
sum_signed = sum_by (λ b. b.signed_balance)

unfoldable pub trial_balance : StatementsService → ℕ → Session → TrialBalance
trial_balance svc as_of s =
    let rows = balances_for s svc.firm_id svc.client_id none as_of none in
    let total_d = sum_by (λ (r : AccountBalance). r.debit_total) rows in
    let total_c = sum_by (λ (r : AccountBalance). r.credit_total) rows in
    record {
      as_of = as_of;
      rows = rows;
      total_debits = total_d;
      total_credits = total_c;
      balances = eqb_ℤ total_d total_c;
    }

abbrev only : AccountType → Option (List AccountType)
only t = some (t ∷ [])

unfoldable pub profit_and_loss : StatementsService → ℕ → ℕ → Session → ProfitAndLoss
profit_and_loss svc period_start period_end s =
    let of_type = λ (t : AccountType).
      balances_for s svc.firm_id svc.client_id (some period_start) period_end (only t) in
    let revenue = of_type AccountType.revenue in
    let expenses = of_type AccountType.expense in
    record {
      period_start = period_start;
      period_end = period_end;
      revenue = revenue;
      expenses = expenses;
      total_revenue = sum_signed revenue;
      total_expenses = sum_signed expenses;
      net_income = sum_signed revenue -ℤ sum_signed expenses;
    }

-- The figures of `balance_sheet`.
unfoldable pub sheet_of : StatementsService → ℕ → Session → BalanceSheet
sheet_of svc as_of s =
    let of_type =
      λ (t : AccountType). balances_for s svc.firm_id svc.client_id none as_of (only t) in
    let retained =
      sum_signed (of_type AccountType.revenue) -ℤ sum_signed (of_type AccountType.expense) in
    let total_a = sum_signed (of_type AccountType.asset) in
    let total_l = sum_signed (of_type AccountType.liability) in
    let total_e = sum_signed (of_type AccountType.equity) +ℤ retained in
    record {
      as_of = as_of;
      assets = of_type AccountType.asset;
      liabilities = of_type AccountType.liability;
      equity = of_type AccountType.equity;
      total_assets = total_a;
      total_liabilities = total_l;
      total_equity = total_e;
      retained_earnings_to_date = retained;
      balances = eqb_ℤ total_a (total_l +ℤ total_e);
    }

-- `balance_sheet`: the figures are returned only if they balance.
unfoldable pub balance_sheet : StatementsService → ℕ → Session → Result BalanceSheet
balance_sheet svc as_of s =
    let sheet = sheet_of svc as_of s in
    if not sheet.balances then err assertion_failed else ok sheet

-- `_prev_day`, which overflows at `date.min`.
abbrev pub prev_day : ℕ → Result ℕ
prev_day d = if ltb 1 d then ok (d - 1) else err overflow

-- The asset accounts of the tenant with one of the codes.
abbrev pub cash_accounts : StatementsService → List String → Session → List ChartOfAccounts
cash_accounts svc codes s =
    select (λ a. any (str_eq a.code) codes && same_type a.account_type AccountType.asset)
      (accounts_of s svc.firm_id svc.client_id)

abbrev pub is_cash : List ChartOfAccounts → ℕ → Bool
is_cash cash id = any (λ a. a.id == id) cash

-- A sum over the cash lines whose entry passes.
abbrev pub cash_sum :
    StatementsService
    → List ChartOfAccounts
    → (JournalEntry → Bool)
    → (JournalLine → ℤ)
    → Session
    → ℤ
cash_sum svc cash q f s =
    sum_if (λ l. is_cash cash l.account_id && in_query s svc.firm_id svc.client_id q l) f s.lines

-- `_opening_or_closing_cash`
abbrev pub cash_until : StatementsService → List ChartOfAccounts → ℕ → Session → ℤ
cash_until svc cash end s =
    cash_sum svc cash (in_range none end) (λ l. l.debit) s
    -ℤ cash_sum svc cash (in_range none end) (λ l. l.credit) s

-- The figures of `cash_flow`, with the accounts resolved and the day before the period known.
unfoldable pub flow_of :
    StatementsService → ℕ → ℕ → List String → List ChartOfAccounts → ℕ → Session → CashFlowStatement
flow_of svc period_start period_end codes cash before s =
    let inflows = cash_sum svc cash (in_range (some period_start) period_end) (λ l. l.debit) s in
    let outflows = cash_sum svc cash (in_range (some period_start) period_end) (λ l. l.credit) s in
    record {
      period_start = period_start;
      period_end = period_end;
      cash_account_codes = codes;
      opening_cash = cash_until svc cash before s;
      closing_cash = cash_until svc cash period_end s;
      net_change = inflows -ℤ outflows;
      inflows = inflows;
      outflows = outflows;
    }

-- The assertion on the figures.
unfoldable pub check_flow : CashFlowStatement → Result CashFlowStatement
check_flow st =
    if not (eqb_ℤ (st.closing_cash -ℤ st.opening_cash) st.net_change)
    then err assertion_failed
    else ok st

abbrev pub is_empty : List ChartOfAccounts → Bool
is_empty [] = true
is_empty (a ∷ rest) = false

unfoldable pub cash_flow :
    StatementsService → ℕ → ℕ → List String → Session → Result CashFlowStatement
cash_flow svc period_start period_end codes s =
    let cash = cash_accounts svc codes s in
    if is_empty cash then err value_error else elim (prev_day period_start) [
      | err e ↦ err e
      | ok before ↦ check_flow (flow_of svc period_start period_end codes cash before s)
    ]
