-- ===== src/Tax/Generate/Gates.antt =====
-- What the gates of `generate_worksheet` (app/domain/tax_service.py) let through, and what the
-- computation behind them puts in the columns of the worksheet.
use company_tax_and_accounti.Base.{
  ℕ, ℤ, zero_ℤ, ◌-ℤ◌, ◌⊎◌, ◌∙◌, All, any, refl, true, false, ◌&&◌, Option, some, List, [], ◌≡◌,
  ◌==◌, find, arith, Option-cases, inl, inr, String, map,
}
use company_tax_and_accounti.Model.{
  AccessScope, TaxAccountMapping, TaxMappingStatus, same_mapping_status, TaxFormSection, is_pending,
  TaxFormCode, TaxWorksheet, TaxWorksheetStatus, is_firm, same_form,
}
use company_tax_and_accounti.Tenant.{visible}
use company_tax_and_accounti.Session.{Session, ok}
use company_tax_and_accounti.Tax.Mapping.{Caller, get_form_by_code}
use company_tax_and_accounti.Tax.Worksheet.Activity.{turnover, period_activity-turnover}
use company_tax_and_accounti.Tax.Generate.Declared.{
  balance, declared, declared_in, form_rows, any_unmapped-Mapped,
}
use company_tax_and_accounti.Tax.Generate.Mapped.{
  any-All-false, by_account-All, by_account-Complete, select-All, approved→eq,
}
use company_tax_and_accounti.Tax.Worksheet.{
  period_activity, by_account, approved_rows, unmapped, pending_drafts, Figures,
}
use company_tax_and_accounti.Tax.Generate.{Inputs, gates, any_unmapped}

-- The gates only read.
pub gates-session :
    (caller : Caller) (period_id : ℕ) (code : TaxFormCode) (s : Session)
    → (gates caller period_id code s).1 ≡ s
unfolding gates get_form_by_code
gates-session caller period_id code s = ground arith

-- An approved mapping of the client for the form, which the policy shows.
pub record IsApproved (s : Session) (client_id form_id : ℕ) (m : TaxAccountMapping) : Type 0 where
  pub shown : visible s.guc m.firm_id m.client_id ≡ true
  pub of_client : m.client_id ≡ client_id
  pub of_form : m.form_id ≡ form_id
  pub approved : m.status ≡ TaxMappingStatus.approved

-- The conditions that the inputs of a computation meet: the period and the form are those asked
-- for and of the tenant, no draft of the client that the policy shows is pending, the activity is
-- that of all lines of the revenue and expense accounts, the mappings are approved ones of the
-- client for the form, with one for every account that has such a mapping, and every account with a
-- balance has one.
abbrev pub Passed : Caller → ℕ → TaxFormCode → Session → Inputs → Type 0
Passed caller period_id code s i =
    (caller.scope ≡ AccessScope.firm)
    × (find (λ p. p.id == period_id && visible s.guc p.firm_id p.client_id) s.periods
        ≡ some i.period)
    × (find (λ f. same_form f.code code) s.forms ≡ some i.form)
    × All
        (λ d.
          (visible s.guc d.firm_id d.client_id
            && (d.client_id == caller.client_id && is_pending d.status))
          ≡ false)
        s.drafts
    × (i.period.firm_id ≡ caller.firm_id)
    × (i.period.client_id ≡ caller.client_id)
    × (i.activity ≡ turnover s caller.firm_id caller.client_id)
    × All (IsApproved s caller.client_id i.form.id) i.mappings
    × All
        (λ m.
          ((visible s.guc m.firm_id m.client_id
              && (m.client_id == caller.client_id
                  && (m.form_id == i.form.id
                      && same_mapping_status m.status TaxMappingStatus.approved)))
            ≡ false)
          ⊎ (any (λ x. x.account_id == m.account_id) i.mappings ≡ true))
        s.mappings
    × All (λ a. (balance a ≡ zero_ℤ) ⊎ (any (λ m. m.account_id == a.account_id) i.mappings ≡ true))
        i.activity

approved_rows-IsApproved :
    (s : Session) (client_id form_id : ℕ)
    → All (IsApproved s client_id form_id) (by_account [] (approved_rows s client_id form_id))
approved_rows-IsApproved s client_id form_id =
    by_account-All (IsApproved s client_id form_id) [] (approved_rows s client_id form_id) tt (
      select-All (IsApproved s client_id form_id) _ s.mappings (λ m h. record {
        shown = ground arith;
        of_client = ground arith;
        of_form = ground arith;
        approved = approved→eq m.status (ground arith);
      }))

is_firm→eq : (scope : AccessScope) → is_firm scope ≡ true → scope ≡ AccessScope.firm
is_firm→eq AccessScope.firm h = refl
is_firm→eq AccessScope.client h = absurd (cc)

-- What the gates have read and tested.
gates-read :
    (caller : Caller) (period_id : ℕ) (code : TaxFormCode) (s : Session) (i : Inputs)
    → (gates caller period_id code s).0 ≡ ok i
    → (is_firm caller.scope ≡ true)
      × (find (λ p. p.id == period_id && visible s.guc p.firm_id p.client_id) s.periods
          ≡ some i.period)
      × (find (λ f. same_form f.code code) s.forms ≡ some i.form)
      × (pending_drafts s caller.client_id ≡ false)
      × (i.period.firm_id ≡ caller.firm_id)
      × (i.period.client_id ≡ caller.client_id)
      × (i.activity ≡ period_activity s caller.firm_id caller.client_id i.period)
      × (i.mappings ≡ by_account [] (approved_rows s caller.client_id i.form.id))
      × (any_unmapped (unmapped i.mappings i.activity) ≡ false)
unfolding gates get_form_by_code
gates-read caller period_id code s i h =
    elim (Option-cases
      (find (λ p. p.id == period_id && visible s.guc p.firm_id p.client_id) s.periods)) [
        | inl missing ↦ absurd (ground arith)
        | inr (p, found) ↦ elim (Option-cases (find (λ f. same_form f.code code) s.forms)) [
          | inl missing ↦ absurd (ground arith)
          | inr (form, is_form) ↦ ground arith
        ]
      ]

pub gates-Passed :
    (caller : Caller) (period_id : ℕ) (code : TaxFormCode) (s : Session) (i : Inputs)
    → (gates caller period_id code s).0 ≡ ok i
    → Passed caller period_id code s i
gates-Passed caller period_id code s i h =
    let (firm, period, form, drafts, of_firm, of_client, activity, mappings, mapped) =
      gates-read caller period_id code s i h in
    (
      is_firm→eq caller.scope firm,
      period,
      form,
      any-All-false _ s.drafts drafts,
      of_firm,
      of_client,
      activity ∙ period_activity-turnover s caller.firm_id caller.client_id i.period,
      rw mappings (approved_rows-IsApproved s caller.client_id i.form.id),
      rw mappings (by_account-Complete _ s.mappings),
      any_unmapped-Mapped i.mappings i.activity mapped,
    )

-- The columns of a worksheet that the computation made: the digest of the lines' amounts, the
-- totals of the sections, and the income less the cost of goods and the deductions.
abbrev pub Computed :
    (ℤ → Option ℤ)
    → (List (String × ℤ) → String)
    → Caller
    → Session
    → Inputs
    → TaxWorksheet
    → Type 0
Computed numeric digest caller s i ws =
    let fls = form_rows s.form_lines i.form.id in
    let total = declared_in i.activity i.mappings fls in
    (ws.status ≡ TaxWorksheetStatus.computed)
    × (ws.firm_id ≡ caller.firm_id)
    × (ws.client_id ≡ caller.client_id)
    × (ws.period_id ≡ i.period.id)
    × (ws.form_id ≡ i.form.id)
    × (ws.catalog_version ≡ i.form.catalog_version)
    × (ws.sha256 ≡ digest (map (λ fl. (fl.code, declared i.activity i.mappings fl)) fls))
    × (some ws.total_income ≡ numeric (total TaxFormSection.income))
    × (some ws.total_cogs ≡ numeric (total TaxFormSection.cogs))
    × (some ws.total_deductions ≡ numeric (total TaxFormSection.deductions))
    × (some ws.taxable_income
        ≡ numeric (
            total TaxFormSection.income
            -ℤ total TaxFormSection.cogs
            -ℤ total TaxFormSection.deductions))

-- The same with the amounts that the code computes.
abbrev Columns : (ℤ → Option ℤ) → Caller → Inputs → String → Figures → TaxWorksheet → Type 0
Columns numeric caller i sha f ws =
    (ws.status ≡ TaxWorksheetStatus.computed)
    × (ws.firm_id ≡ caller.firm_id)
    × (ws.client_id ≡ caller.client_id)
    × (ws.period_id ≡ i.period.id)
    × (ws.form_id ≡ i.form.id)
    × (ws.catalog_version ≡ i.form.catalog_version)
    × (ws.sha256 ≡ sha)
    × (some ws.total_income ≡ numeric f.total_income)
    × (some ws.total_cogs ≡ numeric f.total_cogs)
    × (some ws.total_deductions ≡ numeric f.total_deductions)
    × (some ws.taxable_income ≡ numeric f.taxable_income)
