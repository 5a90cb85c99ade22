-- ===== src/Tax/Generate.antt =====
-- `generate_worksheet`, `approve_worksheet` and `reject_worksheet` (app/domain/tax_service.py).
use company_tax_and_accounti.Base.{
  ℕ, ℤ, Bool, true, false, not, ◌&&◌, Option, none, some, List, [], ◌∷◌, ◌++◌, String, ◌==◌,
  if◌then◌else◌, any, find, select, map, update_if,
}
use company_tax_and_accounti.Model.{
  AccountingPeriod, TaxForm, TaxFormCode, TaxFormLine, TaxWorksheet, TaxWorksheetLine,
  TaxWorksheetStatus, AuditAction, TaxAccountMapping, is_firm, is_current, is_computed,
  superseded_details, generated_details, reviewed_details,
}
use company_tax_and_accounti.Tenant.{visible}
use company_tax_and_accounti.Session.{
  Session, Action, ok, err, ◌>>=◌, ◌>>◌, pure, raise_if, gets, modify, or_raise, get_period,
  write_audit, tax_forbidden, generation, unmapped_accounts, data_error, integrity_error,
  row_security,
}
use company_tax_and_accounti.Tax.Mapping.{Caller, get_form_by_code}
use company_tax_and_accounti.Tax.Worksheet.{
  AccountActivity, period_activity, by_account, approved_rows, unmapped, Contribution, for_line,
  contributions, amount_of, lines_of_form, Figures, figures, pending_drafts,
}
pub mod Rows
pub mod Stages
pub mod Declared
pub mod Mapped
pub mod Gates
pub mod Current
pub mod Review

-- A worksheet of the client, period and form that the policy shows and that is COMPUTED or
-- APPROVED.
abbrev pub competes : Session → ℕ → ℕ → ℕ → TaxWorksheet → Bool
competes s client_id period_id form_id w =
    visible s.guc w.firm_id w.client_id
    && (w.client_id == client_id
        && (w.period_id == period_id && (w.form_id == form_id && is_current w.status)))

abbrev pub set_worksheet_status : TaxWorksheetStatus → TaxWorksheet → TaxWorksheet
set_worksheet_status st w = record w { status = st }

-- What the gates of `generate_worksheet` let through.
pub record Inputs : Type 0 where
  pub period : AccountingPeriod
  pub form : TaxForm
  pub activity : List AccountActivity
  pub mappings : List TaxAccountMapping

abbrev pub any_unmapped : List AccountActivity → Bool
any_unmapped [] = false
any_unmapped (a ∷ rest) = true

-- The gates: firm scope, a period of the tenant, no pending draft, and every account with
-- activity mapped.
unfoldable pub gates : Caller → ℕ → TaxFormCode → Action Inputs
unfolding get_form_by_code
gates caller period_id form_code = do
  raise_if (not (is_firm caller.scope)) tax_forbidden
  p ← or_raise (← get_period period_id) generation
  raise_if (not (p.firm_id == caller.firm_id && p.client_id == caller.client_id)) generation
  raise_if (← gets (λ s. pending_drafts s caller.client_id)) generation
  form ← get_form_by_code form_code
  activity ← gets (λ s. period_activity s caller.firm_id caller.client_id p)
  ms ← gets (λ s. by_account [] (approved_rows s caller.client_id form.id))
  raise_if (any_unmapped (unmapped ms activity))
      (unmapped_accounts (map (λ a. (a.account_id, a.code, a.name)) (unmapped ms activity)))
  pure (record { period = p; form = form; activity = activity; mappings = ms })

-- The audit event of a supersession, if any worksheet was superseded.
unfoldable pub log_supersede : Caller → TaxFormCode → ℕ → List TaxWorksheet → Action (Unit {0})
log_supersede caller form_code period_id [] = pure tt
log_supersede caller form_code period_id (w ∷ rest) =
    write_audit caller.firm_id caller.client_id caller.actor AuditAction.tax_worksheet_supersede
      "tax_worksheet" (some w.id)
      (superseded_details form_code period_id (map (λ x. x.id) (w ∷ rest)))

-- The worksheets that compete with the new one are superseded.
unfoldable pub supersede_prior : Caller → TaxFormCode → ℕ → ℕ → Action (Unit {0})
supersede_prior caller form_code period_id form_id = do
  prior ← gets (λ s. select (competes s caller.client_id period_id form_id) s.worksheets)
  modify λ s. record s {
    worksheets =
        update_if (competes s caller.client_id period_id form_id)
          (set_worksheet_status TaxWorksheetStatus.superseded) s.worksheets;
  }
  log_supersede caller form_code period_id prior

unfoldable pub insert_worksheet : TaxWorksheet → Action (Unit {0})
insert_worksheet w s =
    if visible s.guc w.firm_id w.client_id
    then if any (λ x. x.id == w.id) s.worksheets
      then (err integrity_error, s)
      else (ok tt, record s { worksheets = s.worksheets ++ (w ∷ []) })
    else (err row_security, s)

abbrev pub worksheet_line : Caller → ℕ → List Contribution → TaxFormLine → ℤ → TaxWorksheetLine
worksheet_line caller id ks fl amount = record {
  firm_id = caller.firm_id;
  client_id = caller.client_id;
  worksheet_id = id;
  form_line_id = fl.id;
  line_code = fl.code;
  line_label = fl.label;
  section = fl.section;
  sequence = fl.sequence;
  amount = amount;
  contributing_accounts = map (λ k. k.part) (select (for_line fl.id) ks);
}

module _ (numeric : ℤ → Option ℤ) (digest : List (String × ℤ) → String) where
  -- The rows of `tax_worksheet_line`; the worksheet was just accepted by the policy, so that the
  -- lines, of the same tenant, are too.
  unfoldable pub insert_worksheet_lines :
      Caller → ℕ → List Contribution → List TaxFormLine → Action (Unit {0})
  insert_worksheet_lines caller id ks [] = pure tt
  insert_worksheet_lines caller id ks (fl ∷ rest) =
      or_raise (numeric (amount_of ks fl)) data_error >>= λ amount.
      modify (λ s. record s {
        worksheet_lines = s.worksheet_lines ++ (worksheet_line caller id ks fl amount ∷ []);
      })
      >> insert_worksheet_lines caller id ks rest

  -- `ws` with its columns rounded; its catalog version is that of the form.
  unfoldable pub new_worksheet : Caller → Inputs → ℕ → String → Figures → Action TaxWorksheet
  new_worksheet caller i new_id sha f = do
    ti ← or_raise (numeric f.total_income) data_error
    tc ← or_raise (numeric f.total_cogs) data_error
    td ← or_raise (numeric f.total_deductions) data_error
    tx ← or_raise (numeric f.taxable_income) data_error
    pure (record {
      id = new_id;
      firm_id = caller.firm_id;
      client_id = caller.client_id;
      period_id = i.period.id;
      form_id = i.form.id;
      status = TaxWorksheetStatus.computed;
      catalog_version = i.form.catalog_version;
      total_income = ti;
      total_cogs = tc;
      total_deductions = td;
      taxable_income = tx;
      sha256 = sha;
      generated_by = caller.actor;
      approved_by = none;
      approved_at = none;
    })

  abbrev pub log_generate : Caller → TaxFormCode → Inputs → ℕ → String → Figures → Action (Unit {0})
  log_generate caller form_code i new_id sha f =
      write_audit caller.firm_id caller.client_id caller.actor AuditAction.tax_worksheet_generate
        "tax_worksheet" (some new_id)
        (generated_details form_code i.period.id sha f.total_income f.taxable_income)

  -- The computation and the writes behind the gates.
  unfoldable pub compute : Caller → TaxFormCode → ℕ → Inputs → Action TaxWorksheet
  compute caller form_code new_id i = do
    fls ← gets (λ s. lines_of_form s i.form.id)
    let ks = contributions i.activity i.mappings
    let f = figures ks fls
    let sha = digest (map (λ fl. (fl.code, amount_of ks fl)) fls)
    supersede_prior caller form_code i.period.id i.form.id
    ws ← new_worksheet caller i new_id sha f
    insert_worksheet ws
    insert_worksheet_lines caller new_id ks fls
    log_generate caller form_code i new_id sha f
    pure ws

  -- `generate_worksheet`
  unfoldable pub generate_worksheet : Caller → ℕ → TaxFormCode → ℕ → Action TaxWorksheet
  generate_worksheet caller period_id form_code new_id =
      gates caller period_id form_code >>= compute caller form_code new_id

-- The worksheet that a review is of: found, of the tenant, and COMPUTED.
unfoldable pub reviewable_worksheet : Caller → ℕ → Action TaxWorksheet
reviewable_worksheet caller id = do
  raise_if (not (is_firm caller.scope)) tax_forbidden
  w ←
      or_raise
        (← gets (λ s. find (λ w. w.id == id && visible s.guc w.firm_id w.client_id) s.worksheets))
        generation
  raise_if (not (w.firm_id == caller.firm_id && w.client_id == caller.client_id)) generation
  raise_if (not (is_computed w.status)) generation
  pure w

-- The update of a reviewed worksheet; a rejection uses the approver's slot too.
abbrev pub signed_off : TaxWorksheetStatus → String → ℕ → TaxWorksheet → TaxWorksheet
signed_off st actor now w = record w {
  status = st;
  approved_by = some actor;
  approved_at = some now;
}

unfoldable pub sign_off :
    TaxWorksheetStatus → AuditAction → Option String → Caller → ℕ → ℕ → Action TaxWorksheet
sign_off st action reason caller id now = do
  w ← reviewable_worksheet caller id
  modify λ s. record s {
    worksheets = update_if (λ x. x.id == id) (signed_off st caller.actor now) s.worksheets;
  }
  write_audit caller.firm_id caller.client_id caller.actor action "tax_worksheet" (some id)
      (reviewed_details w.sha256 reason)
  pure (signed_off st caller.actor now w)

-- `approve_worksheet`
unfoldable pub approve_worksheet : Caller → ℕ → ℕ → Action TaxWorksheet
approve_worksheet = sign_off TaxWorksheetStatus.approved AuditAction.tax_worksheet_approve none

-- `reject_worksheet`
unfoldable pub reject_worksheet : Caller → ℕ → Option String → ℕ → Action TaxWorksheet
reject_worksheet caller id reason =
    sign_off TaxWorksheetStatus.rejected AuditAction.tax_worksheet_reject reason caller id
