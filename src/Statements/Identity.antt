-- ===== src/Statements/Identity.antt =====
-- The double-entry identities of the statements (app/domain/statements.py) over valid books.
use mathlib.Core.Path.{fun_ext}
use company_tax_and_accounti.Base.{
  ℕ, ℤ, ◌+ℤ◌, ◌-ℤ◌, int_laws, eq→eqb_ℤ, ◌≡◌, refl, sym, ap, ◌∙◌, Bool, true, false, ◌&&◌, Option,
  none, some, List, [], ◌∷◌, ◌==◌, select, count_if, count_if_cong, count_if-select, All, All-map,
  All-every, arith, sort_by,
}
use company_tax_and_accounti.Base.Sums.{sum_if, sum_by, sum_by-sort_by, sum_if_cong_on}
use company_tax_and_accounti.Base.Keys.{balanced_groups}
use company_tax_and_accounti.Base.Text.{leb_text}
use company_tax_and_accounti.Model.{ChartOfAccounts, JournalEntry, JournalLine, AccountType}
use company_tax_and_accounti.Tenant.{visible}
use company_tax_and_accounti.Session.{Session, ok}
use company_tax_and_accounti.Ledger.Accounts.{on_chart}
use company_tax_and_accounti.Ledger.Books.{IsBook}
use company_tax_and_accounti.Statements.{
  AccountBalance, Totals, totals_of, balance_query, balance_rows, balances_for, in_query, in_range,
  entry_of, passes, accounts_of, signed, StatementsService, trial_balance, balance_sheet, sheet_of,
  group_by_account, profit_and_loss, sum_signed,
}
use company_tax_and_accounti.Statements.Totals.{totals_of-group, sum_over_accounts}

module _ (s : Session) (f c : ℕ) where
  tenant_visible :
      (rf rc : ℕ) → (rf == f && rc == c) ≡ true → visible s.guc rf rc ≡ visible s.guc f c
  tenant_visible rf rc h =
      let ef : rf ≡ f = ground arith in let ec : rc ≡ c = ground arith in rw (ef, ec) refl

  -- Whatever is asked of the entries, the lines of a tenant that a query takes balance.
  pub query_balances :
      (q : JournalEntry → Bool)
      → IsBook s
      → sum_if (in_query s f c q) (λ l. l.debit) s.lines
        ≡ sum_if (in_query s f c q) (λ l. l.credit) s.lines
  query_balances q b =
      by_group (λ l. l.debit)
      ∙ balanced_groups (λ l. l.entry_id) own (λ l. l.debit) (λ l. l.credit) s.lines chosen
          (b.balanced f c)
      ∙ sym (by_group (λ l. l.credit))
    where
      own : JournalLine → Bool
      own l = l.firm_id == f && l.client_id == c

      chosen : ℕ → Bool
      chosen e = visible s.guc f c && passes q (entry_of s e)

      same :
          (l : JournalLine) (w : Bool)
          → own l ≡ w
          → in_query s f c q l ≡ (chosen l.entry_id && own l)
      same l true h = rw (h, tenant_visible l.firm_id l.client_id h) (ground arith)
      same l false h = rw h (ground arith)

      by_group :
          (g : JournalLine → ℤ)
          → sum_if (in_query s f c q) g s.lines ≡ sum_if (λ l. chosen l.entry_id && own l) g s.lines
      by_group g = sum_if_cong_on _ _ g s.lines (All-every _ s.lines (λ l. same l (own l) refl))

  -- The account of a line that a query takes is among the accounts read, once.
  pub account_read :
      (q : JournalEntry → Bool)
      → IsBook s
      → All
          (λ l.
            in_query s f c q l ≡ true
            → count_if (λ a. a.id == l.account_id) (accounts_of s f c) ≡ 1)
          s.lines
  account_read q b =
      All-map (λ l. count_if (on_chart l.firm_id l.client_id l.account_id) s.accounts ≡ 1) _ s.lines
        (λ l once taken.
          let own : (l.firm_id == f && l.client_id == c) ≡ true = ground arith in
          let ef : l.firm_id ≡ f = ground arith in
          let ec : l.client_id ≡ c = ground arith in
          let shown : visible s.guc f c ≡ true =
            sym (tenant_visible l.firm_id l.client_id own) ∙ ground arith in
          count_if-select (λ a. a.id == l.account_id) _ s.accounts
          ∙ count_if_cong _ (on_chart f c l.account_id) s.accounts
              (λ a. agree a l.account_id shown (a.firm_id == f && a.client_id == c) refl)
          ∙ (rw (ef, ec) at once))
        b.charted
    where
      agree :
          (a : ChartOfAccounts) (id : ℕ)
          → visible s.guc f c ≡ true
          → (w : Bool) → (a.firm_id == f && a.client_id == c) ≡ w
          → ((visible s.guc a.firm_id a.client_id && (a.firm_id == f && a.client_id == c))
              && a.id == id)
            ≡ on_chart f c id a
      agree a id shown true h = rw (h, tenant_visible a.firm_id a.client_id h, shown) (ground arith)
      agree a id shown false h = rw h (ground arith)

abbrev total_debit : Totals → List ChartOfAccounts → ℤ
total_debit g = sum_by (λ a. (totals_of a.id g).0)

abbrev total_credit : Totals → List ChartOfAccounts → ℤ
total_credit g = sum_by (λ a. (totals_of a.id g).1)

abbrev of_type : Totals → AccountType → List ChartOfAccounts → ℤ
of_type g t rows = sum_signed (balance_rows g (some (t ∷ [])) rows)

abbrev Covers : Totals → List ChartOfAccounts → Type 0
Covers g rows =
    of_type g AccountType.asset rows
    ≡ of_type g AccountType.liability rows
      +ℤ (of_type g AccountType.equity rows
          +ℤ (of_type g AccountType.revenue rows -ℤ of_type g AccountType.expense rows))
      +ℤ (total_debit g rows -ℤ total_credit g rows)

type_step :
    (g : Totals) (a : ChartOfAccounts) (rows : List ChartOfAccounts)
    → Covers g rows
    → (t : AccountType) → a.account_type ≡ t
    → Covers g (a ∷ rows)
unfolding balance_rows sum_by signed
type_step g a rows ih AccountType.asset e = rw e (rw ih (omega int_laws))
type_step g a rows ih AccountType.liability e = rw e (rw ih (omega int_laws))
type_step g a rows ih AccountType.equity e = rw e (rw ih (omega int_laws))
type_step g a rows ih AccountType.revenue e = rw e (rw ih (omega int_laws))
type_step g a rows ih AccountType.expense e = rw e (rw ih (omega int_laws))

-- The five types cover the accounts: assets exceed the rest by what debits exceed credits.
types_cover : (g : Totals) (rows : List ChartOfAccounts) → Covers g rows
unfolding balance_rows sum_by
types_cover g [] = omega int_laws
types_cover g (a ∷ rows) = type_step g a rows (types_cover g rows) a.account_type refl

all_rows :
    (g : Totals) (rows : List ChartOfAccounts)
    → (sum_by (λ (b : AccountBalance). b.debit_total) (balance_rows g none rows)
        ≡ total_debit g rows)
      × (sum_by (λ (b : AccountBalance). b.credit_total) (balance_rows g none rows)
          ≡ total_credit g rows)
unfolding balance_rows sum_by
all_rows g [] = (refl, refl)
all_rows g (a ∷ rows) = let ih = all_rows g rows in (rw ih.0 refl, rw ih.1 refl)

module _ (s : Session) (f c : ℕ) (start : Option ℕ) (end : ℕ) where
  -- The debits of the accounts read are the debits of the lines taken; so for the credits.
  totals-lines :
      IsBook s
      → (total_debit (balance_query s f c start end) (accounts_of s f c)
          ≡ sum_if (in_query s f c (in_range start end)) (λ l. l.debit) s.lines)
        × (total_credit (balance_query s f c start end) (accounts_of s f c)
            ≡ sum_if (in_query s f c (in_range start end)) (λ l. l.credit) s.lines)
  unfolding balance_query
  totals-lines b =
      let p = in_query s f c (in_range start end) in
      let once = account_read s f c (in_range start end) b in
      (
        ap (λ (w : ChartOfAccounts → ℤ). sum_by w (accounts_of s f c))
              (fun_ext λ a. ap (λ (t : ℤ × ℤ). t.0) (totals_of-group p a.id s.lines))
            ∙ sum_over_accounts p (λ l. l.debit) (accounts_of s f c) s.lines once,
        ap (λ (w : ChartOfAccounts → ℤ). sum_by w (accounts_of s f c))
              (fun_ext λ a. ap (λ (t : ℤ × ℤ). t.1) (totals_of-group p a.id s.lines))
            ∙ sum_over_accounts p (λ l. l.credit) (accounts_of s f c) s.lines once,
      )

  totals_balance :
      IsBook s
      → total_debit (balance_query s f c start end) (accounts_of s f c)
        ≡ total_credit (balance_query s f c start end) (accounts_of s f c)
  totals_balance b =
      let (d, k) = totals-lines b in d ∙ query_balances s f c (in_range start end) b ∙ sym k

-- Over valid books the trial balance balances at every date, and its totals are those of the
-- posted lines of the tenant up to that date.
pub trial_balance-balances :
    (svc : StatementsService) (as_of : ℕ) (s : Session)
    → IsBook s
    → let t = trial_balance svc as_of s in
      (t.balances ≡ true)
      × (t.total_debits ≡ t.total_credits)
      × (t.total_debits
          ≡ sum_if
              (in_query s svc.firm_id svc.client_id (in_range none as_of))
              (λ l. l.debit)
              s.lines)
unfolding trial_balance balances_for
trial_balance-balances svc as_of s b =
    (eq→eqb_ℤ _ _ same, same, debits ∙ (totals-lines s f c none as_of b).0)
  where
    f : ℕ
    f = svc.firm_id

    c : ℕ
    c = svc.client_id

    g : Totals
    g = balance_query s f c none as_of

    rows : List AccountBalance
    rows = balances_for s f c none as_of none

    debits : sum_by (λ (r : AccountBalance). r.debit_total) rows ≡ total_debit g (accounts_of s f c)
    debits =
        sum_by-sort_by (λ (r : AccountBalance). r.debit_total) _ _
        ∙ (all_rows g (accounts_of s f c)).0

    credits :
        sum_by (λ (r : AccountBalance). r.credit_total) rows ≡ total_credit g (accounts_of s f c)
    credits =
        sum_by-sort_by (λ (r : AccountBalance). r.credit_total) _ _
        ∙ (all_rows g (accounts_of s f c)).1

    same :
        sum_by (λ (r : AccountBalance). r.debit_total) rows
        ≡ sum_by (λ (r : AccountBalance). r.credit_total) rows
    same = debits ∙ totals_balance s f c none as_of b ∙ sym credits

-- The total of one type in a statement, before the rows are sorted.
sorted_total :
    (s : Session) (f c : ℕ) (start : Option ℕ) (end : ℕ) (t : AccountType)
    → sum_signed (balances_for s f c start end (some (t ∷ [])))
      ≡ of_type (balance_query s f c start end) t (accounts_of s f c)
unfolding balances_for
sorted_total s f c start end t = sum_by-sort_by (λ (r : AccountBalance). r.signed_balance) _ _

assets_cover :
    (svc : StatementsService) (as_of : ℕ) (s : Session)
    → IsBook s
    → let b = sheet_of svc as_of s in b.total_assets ≡ b.total_liabilities +ℤ b.total_equity
unfolding sheet_of
assets_cover svc as_of s b =
    let f = svc.firm_id in
    let c = svc.client_id in
    let g = balance_query s f c none as_of in
    let rows = accounts_of s f c in
    let at = sorted_total s f c none as_of in
    rw
      (
        at AccountType.asset,
        at AccountType.liability,
        at AccountType.equity,
        at AccountType.revenue,
        at AccountType.expense,
        types_cover g rows,
        totals_balance s f c none as_of b,
      )
      (omega int_laws)

from_inception :
    (s : Session) (f c end : ℕ) (t : AccountType)
    → balances_for s f c (some 0) end (some (t ∷ [])) ≡ balances_for s f c none end (some (t ∷ []))
unfolding balances_for balance_query
from_inception s f c end t =
    ap
      (λ (q : JournalEntry → Bool).
        sort_by (λ (x y : AccountBalance). leb_text x.code y.code)
          (balance_rows (group_by_account (select (in_query s f c q) s.lines)) (some (t ∷ []))
            (accounts_of s f c)))
      (fun_ext λ e. ground arith)

flag_set :
    (svc : StatementsService) (as_of : ℕ) (s : Session)
    → IsBook s
    → (sheet_of svc as_of s).balances ≡ true
unfolding sheet_of
flag_set svc as_of s b = eq→eqb_ℤ _ _ (assets_cover svc as_of s b)

retained_income :
    (svc : StatementsService) (as_of : ℕ) (s : Session)
    → (sheet_of svc as_of s).retained_earnings_to_date ≡ (profit_and_loss svc 0 as_of s).net_income
unfolding sheet_of profit_and_loss
retained_income svc as_of s =
    rw
      (
        from_inception s svc.firm_id svc.client_id as_of AccountType.revenue,
        from_inception s svc.firm_id svc.client_id as_of AccountType.expense,
      )
      refl

-- Over valid books a balance sheet is produced at every date, never the assertion's error: assets
-- are liabilities plus equity, and the retained earnings in the equity are the net income of the
-- profit and loss from the beginning to that date.
pub balance_sheet-balances :
    (svc : StatementsService) (as_of : ℕ) (s : Session)
    → IsBook s
    → let b = sheet_of svc as_of s in
      (balance_sheet svc as_of s ≡ ok b)
      × (b.total_assets ≡ b.total_liabilities +ℤ b.total_equity)
      × (b.retained_earnings_to_date ≡ (profit_and_loss svc 0 as_of s).net_income)
unfolding balance_sheet
balance_sheet-balances svc as_of s b =
    (rw (flag_set svc as_of s b) refl, assets_cover svc as_of s b, retained_income svc as_of s)
