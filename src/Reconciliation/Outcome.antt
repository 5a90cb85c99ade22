-- ===== src/Reconciliation/Outcome.antt =====
-- What a reconciliation reports and writes (app/domain/reconciliation.py).
use company_tax_and_accounti.Base.{ℕ, ℤ, ◌+ℤ◌, ◌-ℤ◌, ◌≤ℤ◌, neg_ℤ, ◌≡◌, ◌↔◌}
use company_tax_and_accounti.Model.{complete}
use company_tax_and_accounti.Session.{Session}
use company_tax_and_accounti.Ledger.{LedgerService}
use company_tax_and_accounti.Reconciliation.{
  ReconciliationResult, ReconcileArgs, ledger_balance, status_of,
}

-- The figures of a result: the account asked for, the ledger's own balance of it, and the rest.
pub record Reports (svc : LedgerService) (a : ReconcileArgs) (s : Session)
    (r : ReconciliationResult) : Type 0 where
  pub account : r.account_id ≡ a.account_id
  pub statement : r.statement_balance ≡ a.statement_balance
  pub ledger : r.ledger_balance ≡ ledger_balance svc a.account_id a.as_of s
  pub adds_up : r.statement_balance ≡ r.ledger_balance +ℤ r.difference
  pub decided :
      (r.status ≡ complete) ↔ ((r.difference ≤ℤ a.tolerance) × (neg_ℤ r.difference ≤ℤ a.tolerance))

-- The figures that a run with this ledger balance returns.
abbrev result_of : ReconcileArgs → ℕ → ℤ → ReconciliationResult
result_of a id b = record {
  reconciliation_id = id;
  account_id = a.account_id;
  as_of = a.as_of;
  statement_balance = a.statement_balance;
  ledger_balance = b;
  difference = a.statement_balance -ℤ b;
  status = status_of (a.statement_balance -ℤ b) a.tolerance;
}
