-- ===== src/Reconciliation.antt =====
-- Bank reconciliation (app/domain/reconciliation.py).
use company_tax_and_accounti.Base.{
  ℕ, ℤ, ◌-ℤ◌, abs, leb_ℤ, Bool, true, false, not, ◌&&◌, Option, none, some, List, [], ◌∷◌, ◌++◌,
  String, ◌==◌, if◌then◌else◌, any,
}
use company_tax_and_accounti.Base.Sums.{sum_if}
use company_tax_and_accounti.Model.{
  AccountType, JournalLine, Reconciliation, ReconciliationStatus, complete, discrepancy,
  AuditAction, reconciled_details, same_type,
}
use company_tax_and_accounti.Tenant.{visible}
use company_tax_and_accounti.Session.{
  Session, Action, ok, err, ◌>>=◌, ◌>>◌, pure, raise_if, gets, or_raise, get_account, write_audit,
  cross_tenant, invalid_account, data_error, row_security, integrity_error,
}
use company_tax_and_accounti.Ledger.{LedgerService, is_own}
use company_tax_and_accounti.Statements.{in_query, in_range}
pub mod Outcome

pub record ReconciliationResult : Type 0 where
  pub reconciliation_id : ℕ
  pub account_id : ℕ
  pub as_of : ℕ
  pub statement_balance : ℤ
  pub ledger_balance : ℤ
  pub difference : ℤ
  pub status : ReconciliationStatus

-- The keyword arguments that name the account and the bank's figure.
pub record ReconcileArgs : Type 0 where
  pub account_id : ℕ
  pub as_of : ℕ
  pub statement_balance : ℤ
  pub notes : Option String
  pub tolerance : ℤ

-- The posted lines of the account up to a date.
abbrev pub on_account : LedgerService → ℕ → ℕ → Session → JournalLine → Bool
on_account svc account_id as_of s l =
    l.account_id == account_id && in_query s svc.firm_id svc.client_id (in_range none as_of) l

unfoldable pub ledger_balance : LedgerService → ℕ → ℕ → Session → ℤ
ledger_balance svc account_id as_of s =
    sum_if (on_account svc account_id as_of s) (λ l. l.debit) s.lines
    -ℤ sum_if (on_account svc account_id as_of s) (λ l. l.credit) s.lines

unfoldable pub status_of : ℤ → ℤ → ReconciliationStatus
status_of difference tolerance = if leb_ℤ (abs difference) tolerance then complete else discrepancy

-- `sess.add(rec)` and the flush: WITH CHECK, then the primary key.
unfoldable pub insert_reconciliation : Reconciliation → Action (Unit {0})
insert_reconciliation r s =
    if visible s.guc r.firm_id r.client_id
    then if any (λ x. x.id == r.id) s.reconciliations
      then (err integrity_error, s)
      else (ok tt, record s { reconciliations = s.reconciliations ++ (r ∷ []) })
    else (err row_security, s)

-- The row and the audit event of a reconciliation with this ledger balance.
unfoldable pub save_reconciliation :
    (ℤ → Option ℤ) → LedgerService → ReconcileArgs → ℕ → ℤ → Action ReconciliationResult
save_reconciliation numeric svc a new_id balance = do
  let difference = a.statement_balance -ℤ balance
  let status = status_of difference a.tolerance
  sb ← or_raise (numeric a.statement_balance) data_error
  lb ← or_raise (numeric balance) data_error
  df ← or_raise (numeric difference) data_error
  insert_reconciliation (record {
    id = new_id;
    firm_id = svc.firm_id;
    client_id = svc.client_id;
    account_id = a.account_id;
    as_of_date = a.as_of;
    statement_balance = sb;
    ledger_balance = lb;
    difference = df;
    status = status;
    notes = a.notes;
  })
  write_audit svc.firm_id svc.client_id svc.actor AuditAction.reconcile "reconciliation"
      (some new_id)
      (reconciled_details a.account_id a.as_of a.statement_balance balance difference status)
  pure (record {
    reconciliation_id = new_id;
    account_id = a.account_id;
    as_of = a.as_of;
    statement_balance = a.statement_balance;
    ledger_balance = balance;
    difference = difference;
    status = status;
  })

-- `reconcile_account`
unfoldable pub reconcile_account :
    (ℤ → Option ℤ) → LedgerService → ReconcileArgs → ℕ → Action ReconciliationResult
reconcile_account numeric svc a new_id = do
  account ← or_raise (← get_account a.account_id) cross_tenant
  raise_if (not (is_own svc account.firm_id account.client_id)) cross_tenant
  raise_if (not (same_type account.account_type AccountType.asset)) invalid_account
  balance ← gets (ledger_balance svc a.account_id a.as_of)
  save_reconciliation numeric svc a new_id balance
