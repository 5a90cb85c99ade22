-- ===== src/Tests/Reports.antt =====
-- The statements, the reconciliation and the isolation of tenants on the example books.
use company_tax_and_accounti.Base.{
  ℕ, pos, ◌+ℤ◌, ◌-ℤ◌, ◌≡◌, ◌↔◌, ◌⊎◌, refl, true, false, Option, none, some, List, [], ◌∷◌, arith,
  ◌-◌, String,
}
use company_tax_and_accounti.Base.Sums.{sum_if}
use company_tax_and_accounti.Model.{AccessScope, complete}
use company_tax_and_accounti.Tenant.{TenantContext, tenant_context, set_local, visible}
use company_tax_and_accounti.Tenant.Isolation.{visible_iff}
use company_tax_and_accounti.Session.{ok}
use company_tax_and_accounti.Statements.{
  in_query, in_range, trial_balance, sheet_of, balance_sheet, profit_and_loss, cash_flow, flow_of,
  cash_accounts, is_empty,
}
use company_tax_and_accounti.Statements.Identity.{trial_balance-balances, balance_sheet-balances}
use company_tax_and_accounti.Statements.Flow.{cash_flow-ok}
use company_tax_and_accounti.Reconciliation.{ReconcileArgs, ReconciliationResult, ledger_balance}
use company_tax_and_accounti.Tests.{books, books-IsBook, reader}

trial_balance-balances_example :
    ((trial_balance reader 300 books).balances ≡ true)
    × ((trial_balance reader 300 books).total_debits
        ≡ (trial_balance reader 300 books).total_credits)
    × ((trial_balance reader 300 books).total_debits
        ≡ sum_if (in_query books 1 1 (in_range none 300)) (λ l. l.debit) books.lines)
trial_balance-balances_example = trial_balance-balances reader 300 books books-IsBook

balance_sheet-balances_example :
    (balance_sheet reader 300 books ≡ ok (sheet_of reader 300 books))
    × ((sheet_of reader 300 books).total_assets
        ≡ (sheet_of reader 300 books).total_liabilities +ℤ (sheet_of reader 300 books).total_equity)
    × ((sheet_of reader 300 books).retained_earnings_to_date
        ≡ (profit_and_loss reader 0 300 books).net_income)
balance_sheet-balances_example = balance_sheet-balances reader 300 books books-IsBook

abbrev codes : List String
codes = "1000" ∷ []

has_cash : is_empty (cash_accounts reader codes books) ≡ false
unfolding visible
has_cash = refl

cash_flow-ok_example :
    (cash_flow reader 120 300 codes books
      ≡ ok (flow_of reader 120 300 codes (cash_accounts reader codes books) (120 - 1) books))
    × ((flow_of reader 120 300 codes
          (cash_accounts reader codes books)
          (120 - 1)
          books).closing_cash
        ≡ (flow_of reader 120 300 codes
            (cash_accounts reader codes books)
            (120 - 1)
            books).opening_cash
          +ℤ (flow_of reader 120 300 codes
              (cash_accounts reader codes books)
              (120 - 1)
              books).net_change)
cash_flow-ok_example = cash_flow-ok reader 120 300 codes books (omega arith) (omega arith) has_cash

-- The bank reports 480 where the ledger has 500.
abbrev statement : ReconcileArgs
statement = record {
  account_id = 1;
  as_of = 300;
  statement_balance = pos 480;
  notes = none;
  tolerance = pos 25;
}

abbrev report : ReconciliationResult
report = record {
  reconciliation_id = 4;
  account_id = 1;
  as_of = 300;
  statement_balance = pos 480;
  ledger_balance = pos 500;
  difference = pos 480 -ℤ pos 500;
  status = complete;
}

abbrev portal : TenantContext
portal = record { firm_id = 1; scope = AccessScope.client; client_id = some 2 }

portal_user : tenant_context 1 AccessScope.client (some 2) ≡ some portal
unfolding tenant_context
portal_user = refl

visible_iff_example :
    (visible (set_local portal) 1 2 ≡ true)
    ↔ (◌≡◌ {A = ℕ} 1 1 × (◌≡◌ {A = Option ℕ} (some 2) none ⊎ ◌≡◌ {A = Option ℕ} (some 2) (some 2)))
visible_iff_example = visible_iff 1 AccessScope.client (some 2) 1 2 portal_user
