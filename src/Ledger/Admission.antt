-- ===== src/Ledger/Admission.antt =====
-- The checks of `post` (app/domain/ledger.py) that come before any write.
use company_tax_and_accounti.Base.{
  ℤ, ◌≡◌, true, false, arith, ◌==◌, ◌&&◌, some, find, length, Option-cases, inl, inr,
}
use company_tax_and_accounti.Model.{AccountingPeriod}
use company_tax_and_accounti.Tenant.{visible}
use company_tax_and_accounti.Session.{Session, ok}
use company_tax_and_accounti.Ledger.{
  LedgerService, PostArgs, validate_lines, is_own, in_period, account_ids, account_rows,
  check_accounts, admit,
}

-- What the checks establish of an entry and its period and accounts.
pub record Admitted (svc : LedgerService) (a : PostArgs) (s : Session) (total : ℤ) : Type 0 where
  pub valid : validate_lines a.lines ≡ ok total
  pub period : AccountingPeriod
  pub found :
      find (λ p. p.id == a.period_id && visible s.guc p.firm_id p.client_id) s.periods ≡ some period
  pub own : is_own svc period.firm_id period.client_id ≡ true
  pub unlocked : period.is_locked ≡ false
  pub dated : in_period period a.entry_date ≡ true
  pub counted :
      (length (account_rows (account_ids a.lines) s) == length (account_ids a.lines)) ≡ true
  pub checked : check_accounts svc (account_rows (account_ids a.lines) s) ≡ ok tt

pub admit-reads : (svc : LedgerService) (a : PostArgs) (s : Session) → (admit svc a s).1 ≡ s
unfolding admit
admit-reads svc a s = ground arith

pub admit-Admitted :
    (svc : LedgerService) (a : PostArgs) (s : Session) (total : ℤ)
    → (admit svc a s).0 ≡ ok total
    → Admitted svc a s total
unfolding admit
admit-Admitted svc a s total h =
    elim (Option-cases
      (find (λ p. p.id == a.period_id && visible s.guc p.firm_id p.client_id) s.periods)) [
        | inl missing ↦ absurd (ground arith)
        | inr (p, e) ↦ record {
          valid = ground arith;
          period = p;
          found = e;
          own = ground arith;
          unlocked = ground arith;
          dated = ground arith;
          counted = ground arith;
          checked = ground arith;
        }
      ]
