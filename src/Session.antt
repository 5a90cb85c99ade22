-- ===== src/Session.antt =====
-- The database session that the services share (app/db/session.py, app/domain/audit.py and
-- app/domain/exceptions.py): the tables with the settings of the transaction, a monad of state and
-- exceptions, and the reads and writes that the row-level policy and the constraints guard.
use company_tax_and_accounti.Base.{
  ℕ, ℤ, Bool, true, false, ◌&&◌, Option, none, some, List, [], ◌∷◌, ◌++◌, String, ◌==◌,
  if◌then◌else◌, find, any, select,
}
use company_tax_and_accounti.Model.{
  ChartOfAccounts, AccountingPeriod, JournalEntry, JournalLine, Reconciliation, AuditEvent,
  AuditAction, AuditDetails, DraftClassification, TaxForm, TaxFormLine, TaxAccountMapping,
  TaxWorksheet, TaxWorksheetLine, AccessScope, FormTemplate, EntityFormRuleset, ClientProfile,
}
use company_tax_and_accounti.Tenant.{TenantContext, Guc, visible, set_local}
pub mod Binds

-- What a service raises: its own exceptions without their texts, and the database's.
pub data Error : Type 0 where
  unbalanced period_locked cross_tenant invalid_account : Error
  tax_forbidden tax_mapping generation : Error
  promotion_forbidden already_promoted invalid_operation : Error
  form_forbidden form_not_found form_not_active form_state : Error
  ruleset_forbidden ruleset_not_found ruleset_state needs_ruleset multiple_results : Error
  unmapped_accounts : List (ℕ × String × String) → Error
  value_error assertion_failed overflow : Error
  integrity_error data_error row_security : Error

pub data Result {ℓ} (A : Type ℓ) : Type ℓ where
  ok : A → Result A
  err : Error → Result A

pub record Session : Type 0 where
  pub guc : Guc
  pub accounts : List ChartOfAccounts
  pub periods : List AccountingPeriod
  pub entries : List JournalEntry
  pub lines : List JournalLine
  pub reconciliations : List Reconciliation
  pub audit : List AuditEvent
  pub drafts : List DraftClassification
  pub forms : List TaxForm
  pub form_lines : List TaxFormLine
  pub mappings : List TaxAccountMapping
  pub worksheets : List TaxWorksheet
  pub worksheet_lines : List TaxWorksheetLine
  pub form_templates : List FormTemplate
  pub rulesets : List EntityFormRuleset
  pub profiles : List ClientProfile

-- A raise keeps what was flushed before it: only the end of the transaction undoes it.
abbrev pub Action : Type 0 → Type 0
Action A = Session → Result A × Session

infixl 5 ◌>>=◌ ◌>>◌
abbrev pub ◌>>=◌ : {A B : Type 0} → Action A → (A → Action B) → Action B
◌>>=◌ m f s = let (r, s') = m s in elim r [ ok a ↦ f a s' | err e ↦ (err e, s') ]

abbrev pub ◌>>◌ : {B : Type 0} → Action (Unit {0}) → Action B → Action B
m >> k = m >>= λ _. k

module _ {A : Type 0} where
  abbrev pub pure : A → Action A
  pure a s = (ok a, s)

  abbrev pub raise : Error → Action A
  raise e s = (err e, s)

  abbrev pub gets : (Session → A) → Action A
  gets f s = (ok (f s), s)

  abbrev pub or_raise : Option A → Error → Action A
  or_raise none e s = (err e, s)
  or_raise (some a) e s = (ok a, s)

  abbrev pub lift_result : Result A → Action A
  lift_result r s = (r, s)

abbrev pub raise_if : Bool → Error → Action (Unit {0})
raise_if b e s = (if b then err e else ok tt, s)

abbrev pub modify : (Session → Session) → Action (Unit {0})
modify f s = (ok tt, f s)

-- Reads by key: a row that the policy hides is not found.
abbrev pub get_period : ℕ → Action (Option AccountingPeriod)
get_period id = gets λ s. find (λ p. p.id == id && visible s.guc p.firm_id p.client_id) s.periods

abbrev pub get_entry : ℕ → Action (Option JournalEntry)
get_entry id = gets λ s. find (λ e. e.id == id && visible s.guc e.firm_id e.client_id) s.entries

abbrev pub get_account : ℕ → Action (Option ChartOfAccounts)
get_account id = gets λ s. find (λ a. a.id == id && visible s.guc a.firm_id a.client_id) s.accounts

-- Inserts: the policy's WITH CHECK, then the primary key.
abbrev pub insert_entry : JournalEntry → Action (Unit {0})
insert_entry e s =
    if visible s.guc e.firm_id e.client_id
    then if any (λ x. x.id == e.id) s.entries
      then (err integrity_error, s)
      else (ok tt, record s { entries = s.entries ++ (e ∷ []) })
    else (err row_security, s)

-- `write_audit`
unfoldable pub write_audit :
    ℕ → ℕ → String → AuditAction → String → Option ℕ → AuditDetails → Action (Unit {0})
write_audit firm_id client_id actor action entity_type entity_id details s =
    if visible s.guc firm_id client_id
    then (
      ok tt,
      record s {
        audit =
            s.audit
            ++ (record {
              firm_id = firm_id;
              client_id = client_id;
              actor = actor;
              action = action;
              entity_type = entity_type;
              entity_id = entity_id;
              details = details;
            }
                ∷ []);
      },
    )
    else (err row_security, s)
