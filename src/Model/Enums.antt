-- ===== src/Model/Enums.antt =====
-- The enumerations of app/models/enums.py and app/db/tenant.py that the modelled code uses, with
-- the tests that the code makes on them.
use mathlib.Core.Bool.{Bool, true, false}
use mathlib.Core.Path.{◌≡◌, refl}
use native.Mathlib.Omega.{arith}

pub data AccountType : Type 0 where
  asset liability equity revenue expense : AccountType

pub data NormalBalance : Type 0 where
  debit credit : NormalBalance

-- `NORMAL_BALANCE_FOR`
unfoldable pub normal_balance_for : AccountType → NormalBalance
normal_balance_for AccountType.asset = NormalBalance.debit
normal_balance_for AccountType.expense = NormalBalance.debit
normal_balance_for AccountType.liability = NormalBalance.credit
normal_balance_for AccountType.equity = NormalBalance.credit
normal_balance_for AccountType.revenue = NormalBalance.credit

pub data JournalEntryStatus : Type 0 where
  draft posted reversed : JournalEntryStatus

pub data ReconciliationStatus : Type 0 where
  opened complete discrepancy : ReconciliationStatus

pub data AuditAction : Type 0 where
  create update delete post reverse lock_period unlock_period reconcile ingest extract : AuditAction
  classify promote reject tax_map_propose tax_map_approve tax_map_reject : AuditAction
  tax_worksheet_generate tax_worksheet_approve artifact_generate artifact_finalize : AuditAction
  audit_package_generate artifact_download tenant_keys_destroy audit_export : AuditAction
  coa_template_activate coa_template_instantiate coa_account_rename : AuditAction
  coa_account_deactivate form_template_register form_template_verify : AuditAction
  form_template_activate client_profile_upsert entity_form_ruleset_activate : AuditAction
  tax_worksheet_reject tax_worksheet_supersede : AuditAction

pub data DraftStatus : Type 0 where
  pending_review promoted rejected : DraftStatus

pub data FormTemplateStatus : Type 0 where
  draft active superseded : FormTemplateStatus

pub data EntityFormRulesetStatus : Type 0 where
  draft active superseded : EntityFormRulesetStatus

pub data TaxFormCode : Type 0 where
  f1120 f1120s f1065 f1040sc : TaxFormCode

pub data TaxFormSection : Type 0 where
  income cogs deductions other : TaxFormSection

pub data TaxLineSign : Type 0 where
  positive negative : TaxLineSign

pub data TaxMappingStatus : Type 0 where
  draft approved rejected superseded : TaxMappingStatus

pub data TaxWorksheetStatus : Type 0 where
  computed approved rejected superseded : TaxWorksheetStatus

pub data CoaNodeOrigin : Type 0 where
  general industry_overlay custom : CoaNodeOrigin

-- `AccessScope` of app/db/tenant.py
pub data AccessScope : Type 0 where
  firm client : AccessScope

abbrev pub same_type : AccountType → AccountType → Bool
same_type AccountType.asset AccountType.asset = true
same_type AccountType.liability AccountType.liability = true
same_type AccountType.equity AccountType.equity = true
same_type AccountType.revenue AccountType.revenue = true
same_type AccountType.expense AccountType.expense = true
same_type _ _ = false

abbrev pub is_posted : JournalEntryStatus → Bool
is_posted JournalEntryStatus.posted = true
is_posted _ = false

abbrev pub is_firm : AccessScope → Bool
is_firm AccessScope.firm = true
is_firm AccessScope.client = false

abbrev pub is_pending : DraftStatus → Bool
is_pending DraftStatus.pending_review = true
is_pending _ = false

abbrev pub same_form : TaxFormCode → TaxFormCode → Bool
same_form TaxFormCode.f1120 TaxFormCode.f1120 = true
same_form TaxFormCode.f1120s TaxFormCode.f1120s = true
same_form TaxFormCode.f1065 TaxFormCode.f1065 = true
same_form TaxFormCode.f1040sc TaxFormCode.f1040sc = true
same_form _ _ = false

abbrev pub same_section : TaxFormSection → TaxFormSection → Bool
same_section TaxFormSection.income TaxFormSection.income = true
same_section TaxFormSection.cogs TaxFormSection.cogs = true
same_section TaxFormSection.deductions TaxFormSection.deductions = true
same_section TaxFormSection.other TaxFormSection.other = true
same_section _ _ = false

abbrev pub same_mapping_status : TaxMappingStatus → TaxMappingStatus → Bool
same_mapping_status TaxMappingStatus.draft TaxMappingStatus.draft = true
same_mapping_status TaxMappingStatus.approved TaxMappingStatus.approved = true
same_mapping_status TaxMappingStatus.rejected TaxMappingStatus.rejected = true
same_mapping_status TaxMappingStatus.superseded TaxMappingStatus.superseded = true
same_mapping_status _ _ = false

-- the statuses in which a worksheet competes for review: COMPUTED and APPROVED
abbrev pub is_current : TaxWorksheetStatus → Bool
is_current TaxWorksheetStatus.computed = true
is_current TaxWorksheetStatus.approved = true
is_current _ = false

abbrev pub is_computed : TaxWorksheetStatus → Bool
is_computed TaxWorksheetStatus.computed = true
is_computed _ = false

pub same_type_sound : (a b : AccountType) → same_type a b ≡ true → a ≡ b
same_type_sound a b h = ground arith

abbrev pub is_active_template : FormTemplateStatus → Bool
is_active_template FormTemplateStatus.active = true
is_active_template _ = false

abbrev pub is_superseded_template : FormTemplateStatus → Bool
is_superseded_template FormTemplateStatus.superseded = true
is_superseded_template _ = false

abbrev pub is_draft_ruleset : EntityFormRulesetStatus → Bool
is_draft_ruleset EntityFormRulesetStatus.draft = true
is_draft_ruleset _ = false

abbrev pub is_active_ruleset : EntityFormRulesetStatus → Bool
is_active_ruleset EntityFormRulesetStatus.active = true
is_active_ruleset _ = false

abbrev pub is_superseded_ruleset : EntityFormRulesetStatus → Bool
is_superseded_ruleset EntityFormRulesetStatus.superseded = true
is_superseded_ruleset _ = false

pub same_form→eq : (a b : TaxFormCode) → same_form a b ≡ true → a ≡ b
same_form→eq TaxFormCode.f1120 TaxFormCode.f1120 h = refl
same_form→eq TaxFormCode.f1120 TaxFormCode.f1120s h = absurd (cc)
same_form→eq TaxFormCode.f1120 TaxFormCode.f1065 h = absurd (cc)
same_form→eq TaxFormCode.f1120 TaxFormCode.f1040sc h = absurd (cc)
same_form→eq TaxFormCode.f1120s TaxFormCode.f1120 h = absurd (cc)
same_form→eq TaxFormCode.f1120s TaxFormCode.f1120s h = refl
same_form→eq TaxFormCode.f1120s TaxFormCode.f1065 h = absurd (cc)
same_form→eq TaxFormCode.f1120s TaxFormCode.f1040sc h = absurd (cc)
same_form→eq TaxFormCode.f1065 TaxFormCode.f1120 h = absurd (cc)
same_form→eq TaxFormCode.f1065 TaxFormCode.f1120s h = absurd (cc)
same_form→eq TaxFormCode.f1065 TaxFormCode.f1065 h = refl
same_form→eq TaxFormCode.f1065 TaxFormCode.f1040sc h = absurd (cc)
same_form→eq TaxFormCode.f1040sc TaxFormCode.f1120 h = absurd (cc)
same_form→eq TaxFormCode.f1040sc TaxFormCode.f1120s h = absurd (cc)
same_form→eq TaxFormCode.f1040sc TaxFormCode.f1065 h = absurd (cc)
same_form→eq TaxFormCode.f1040sc TaxFormCode.f1040sc h = refl

pub same_form_refl : (a : TaxFormCode) → same_form a a ≡ true
same_form_refl TaxFormCode.f1120 = refl
same_form_refl TaxFormCode.f1120s = refl
same_form_refl TaxFormCode.f1065 = refl
same_form_refl TaxFormCode.f1040sc = refl
