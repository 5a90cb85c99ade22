-- ===== src/Model/Rows.antt =====
-- The tables of app/models/accounting.py as records. An id is a number, a date its ordinal, an
-- amount an integer of the smallest unit; `created_at` and the keys of rows that nothing refers
-- to (lines, audit events) are left out.
use Prim.Native.Nat.{ℕ}
use Prim.Native.String.{String}
use mathlib.Core.Bool.{Bool}
use mathlib.Core.Option.{Option}
use mathlib.Core.List.{List}
use company_tax_and_accounti.Base.Int.{ℤ}
use company_tax_and_accounti.Model.Payloads.{Payload}
use company_tax_and_accounti.Model.Enums.{
  AccountType, NormalBalance, JournalEntryStatus, ReconciliationStatus, AuditAction, DraftStatus,
  TaxFormCode, TaxFormSection, TaxLineSign, TaxMappingStatus, TaxWorksheetStatus, CoaNodeOrigin,
  FormTemplateStatus, EntityFormRulesetStatus,
}

-- The texts of memos and descriptions: one that is given, or an f-string with its argument.
pub data Label : Type 0 where
  plain : String → Label
  reversal_of : ℕ → Label
  reversal_of_line : ℕ → Label

pub record ChartOfAccounts : Type 0 where
  pub id : ℕ
  pub firm_id : ℕ
  pub client_id : ℕ
  pub code : String
  pub name : String
  pub account_type : AccountType
  pub normal_balance : NormalBalance
  pub parent_account_id : Option ℕ
  pub path : String
  pub depth : ℕ
  pub is_leaf : Bool
  pub template_node_id : Option ℕ
  pub origin : CoaNodeOrigin
  pub is_active : Bool

pub record AccountingPeriod : Type 0 where
  pub id : ℕ
  pub firm_id : ℕ
  pub client_id : ℕ
  pub name : String
  pub start_date : ℕ
  pub end_date : ℕ
  pub is_locked : Bool

pub record JournalEntry : Type 0 where
  pub id : ℕ
  pub firm_id : ℕ
  pub client_id : ℕ
  pub period_id : ℕ
  pub entry_date : ℕ
  pub memo : Option Label
  pub status : JournalEntryStatus
  pub source_document_id : Option ℕ
  pub posted_at : Option ℕ

pub record JournalLine : Type 0 where
  pub firm_id : ℕ
  pub client_id : ℕ
  pub entry_id : ℕ
  pub line_no : ℕ
  pub account_id : ℕ
  pub debit : ℤ
  pub credit : ℤ
  pub description : Option Label

pub record Reconciliation : Type 0 where
  pub id : ℕ
  pub firm_id : ℕ
  pub client_id : ℕ
  pub account_id : ℕ
  pub as_of_date : ℕ
  pub statement_balance : ℤ
  pub ledger_balance : ℤ
  pub difference : ℤ
  pub status : ReconciliationStatus
  pub notes : Option String

-- The JSON that each modelled action writes into `audit_event.details`.
pub data AuditDetails : Type 0 where
  posted_details : ℕ → Option Label → ℤ → ℕ → AuditDetails
  reversed_details : ℕ → AuditDetails
  reconciled_details : ℕ → ℕ → ℤ → ℤ → ℤ → ReconciliationStatus → AuditDetails
  reason_details : Option String → AuditDetails
  proposed_details : ℕ → ℕ → ℕ → TaxLineSign → AuditDetails
  approved_details : ℕ → ℕ → ℕ → List ℕ → AuditDetails
  superseded_details : TaxFormCode → ℕ → List ℕ → AuditDetails
  generated_details : TaxFormCode → ℕ → String → ℤ → ℤ → AuditDetails
  reviewed_details : String → Option String → AuditDetails
  template_details : TaxFormCode → ℕ → String → AuditDetails
  registered_details : TaxFormCode → ℕ → String → String → AuditDetails
  activated_details : TaxFormCode → ℕ → String → List ℕ → AuditDetails
  ruleset_details : String → ℕ → String → List String → List ℕ → AuditDetails
  promoted_details : ℕ → ℕ → Option Label → AuditDetails
  promoted_statement_details : List ℕ → ℕ → ℕ → AuditDetails

pub record AuditEvent : Type 0 where
  pub firm_id : ℕ
  pub client_id : ℕ
  pub actor : String
  pub action : AuditAction
  pub entity_type : String
  pub entity_id : Option ℕ
  pub details : AuditDetails

-- The columns of `draft_classification` that the services read and write.
pub record DraftClassification : Type 0 where
  pub id : ℕ
  pub firm_id : ℕ
  pub client_id : ℕ
  pub source_document_id : ℕ
  pub status : DraftStatus
  pub payload : Payload
  pub promoted_journal_entry_id : Option ℕ
  pub reviewed_at : Option ℕ
  pub reviewed_by : Option String

pub record TaxForm : Type 0 where
  pub id : ℕ
  pub code : TaxFormCode
  pub catalog_version : String

pub record TaxFormLine : Type 0 where
  pub id : ℕ
  pub form_id : ℕ
  pub code : String
  pub label : String
  pub section : TaxFormSection
  pub sequence : ℕ

pub record TaxAccountMapping : Type 0 where
  pub id : ℕ
  pub firm_id : ℕ
  pub client_id : ℕ
  pub form_id : ℕ
  pub account_id : ℕ
  pub line_id : ℕ
  pub sign : TaxLineSign
  pub status : TaxMappingStatus
  pub notes : Option String
  pub proposed_by : String
  pub reviewed_by : Option String
  pub reviewed_at : Option ℕ

pub record TaxWorksheet : Type 0 where
  pub id : ℕ
  pub firm_id : ℕ
  pub client_id : ℕ
  pub period_id : ℕ
  pub form_id : ℕ
  pub status : TaxWorksheetStatus
  pub catalog_version : String
  pub total_income : ℤ
  pub total_cogs : ℤ
  pub total_deductions : ℤ
  pub taxable_income : ℤ
  pub sha256 : String
  pub generated_by : String
  pub approved_by : Option String
  pub approved_at : Option ℕ

-- One entry of `contributing_accounts`.
pub record Contributor : Type 0 where
  pub account_id : ℕ
  pub code : String
  pub name : String
  pub account_type : AccountType
  pub debit_total : ℤ
  pub credit_total : ℤ
  pub signed_balance : ℤ
  pub sign : TaxLineSign
  pub contribution : ℤ

pub record TaxWorksheetLine : Type 0 where
  pub firm_id : ℕ
  pub client_id : ℕ
  pub worksheet_id : ℕ
  pub form_line_id : ℕ
  pub line_code : String
  pub line_label : String
  pub section : TaxFormSection
  pub sequence : ℕ
  pub amount : ℤ
  pub contributing_accounts : List Contributor

pub record FormTemplate : Type 0 where
  pub id : ℕ
  pub form_code : TaxFormCode
  pub tax_year : ℕ
  pub revision : String
  pub status : FormTemplateStatus
  pub verified : Bool
  pub local_template_path : String
  pub sha256 : String
  pub verified_at : Option ℕ
  pub verified_by : Option String
  pub activated_at : Option ℕ
  pub activated_by : Option String

pub record EntityFormRuleset : Type 0 where
  pub id : ℕ
  pub entity_type : String
  pub tax_year : ℕ
  pub version : String
  pub status : EntityFormRulesetStatus
  pub required_forms : List String
  pub notes : Option String
  pub activated_at : Option ℕ
  pub activated_by : Option String

-- The columns of `client_profile` that the rulesets read.
pub record ClientProfile : Type 0 where
  pub firm_id : ℕ
  pub client_id : ℕ
  pub entity_type : Option String
  pub tax_year : Option ℕ
