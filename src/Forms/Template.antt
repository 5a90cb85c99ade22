-- ===== src/Forms/Template.antt =====
-- The registry of form templates (app/domain/form_template.py). The file system with the digest
-- of a file, where there is one at a path, is the parameter `file_digest`.
use company_tax_and_accounti.Base.{
  ℕ, Bool, true, false, not, ◌&&◌, Option, none, some, List, [], ◌∷◌, ◌++◌, String, ◌==◌,
  if◌then◌else◌, find, any, select, update_if, map,
}
use company_tax_and_accounti.Model.{
  FormTemplate, FormTemplateStatus, TaxFormCode, AuditAction, AccessScope, same_form, is_firm,
  is_active_template, is_superseded_template, template_details, registered_details,
  activated_details,
}
use text.Mathlib.Text.{◌==◌ as str_eq}
use company_tax_and_accounti.Session.{
  Session, Action, integrity_error, form_forbidden, form_not_found, form_not_active, form_state, ok,
  err, ◌>>=◌, ◌>>◌, pure, raise, raise_if, or_raise, gets, modify, write_audit,
}
pub mod Writes
pub mod Current
pub mod Refinement
pub mod Publication

-- The firm's caller of an operation on reference data.
pub record Staff : Type 0 where
  pub firm_id : ℕ
  pub actor : String
  pub scope : AccessScope

abbrev pub same_key : TaxFormCode → ℕ → FormTemplate → Bool
same_key form_code tax_year t = same_form t.form_code form_code && t.tax_year == tax_year

-- The end of `get_active_verified`, over the verified rows.
abbrev pub the_only : List FormTemplate → Action FormTemplate
the_only [] = raise form_not_active
the_only (t ∷ []) = pure t
the_only (t ∷ u ∷ more) = raise form_state

-- `get_active_verified`
unfoldable pub get_active_verified : TaxFormCode → ℕ → Action FormTemplate
get_active_verified form_code tax_year s =
    let rows =
      select (λ t. same_key form_code tax_year t && is_active_template t.status) s.form_templates in
    the_only (select (λ t. t.verified) rows) s

-- The primary key, and the unique key of the code, the year and the revision.
abbrev pub same_revision : TaxFormCode → ℕ → String → FormTemplate → Bool
same_revision form_code tax_year revision t =
    same_key form_code tax_year t && str_eq t.revision revision

unfoldable pub insert_template : FormTemplate → Action (Unit {0})
insert_template t s =
    if any (λ x. x.id == t.id) s.form_templates
    then (err integrity_error, s)
    else if any (same_revision t.form_code t.tax_year t.revision) s.form_templates
    then (err integrity_error, s)
    else (ok tt, record s { form_templates = s.form_templates ++ (t ∷ []) })

-- `sess.get(FormTemplate, template_id)`
abbrev pub get_template : ℕ → Action (Option FormTemplate)
get_template template_id = gets λ s. find (λ t. t.id == template_id) s.form_templates

-- `"0" * 64`
abbrev pub no_digest : String
no_digest = "0000000000000000000000000000000000000000000000000000000000000000"

abbrev pub or_else : Option String → String → String
or_else none d = d
or_else (some x) d = x

-- The keyword arguments of `register_template`.
pub record Registration : Type 0 where
  pub form_code : TaxFormCode
  pub tax_year : ℕ
  pub revision : String
  pub local_template_path : String
  pub sha256 : Option String

-- The audit event of an operation on a template: the firm's, with the client NIL.
abbrev pub log_template : Staff → AuditAction → FormTemplate → Action (Unit {0})
log_template by action t =
    write_audit by.firm_id 0 by.actor action "form_template" (some t.id)
      (template_details t.form_code t.tax_year t.revision)

abbrev pub verified_by_staff : Staff → ℕ → FormTemplate → FormTemplate
verified_by_staff by now t = record t {
  verified = true;
  verified_at = some now;
  verified_by = some by.actor;
}

abbrev pub activated_by_staff : Staff → ℕ → FormTemplate → FormTemplate
activated_by_staff by now t = record t {
  status = FormTemplateStatus.active;
  activated_at = some now;
  activated_by = some by.actor;
}

abbrev pub superseded_template : FormTemplate → FormTemplate
superseded_template t = record t { status = FormTemplateStatus.superseded }

-- The rows that an activation supersedes.
abbrev pub prior_template : FormTemplate → FormTemplate → Bool
prior_template row t =
    same_key row.form_code row.tax_year t && (is_active_template t.status && not (t.id == row.id))

-- The checks of `register_template`.
unfoldable pub registrable : Staff → Registration → Action (Unit {0})
registrable by r = do
  raise_if (not (is_firm by.scope)) form_forbidden
  raise_if (← gets (λ s. any (same_revision r.form_code r.tax_year r.revision) s.form_templates))
      form_state

module _ (file_digest : String → Option String) where
  abbrev pub digest_of : Registration → String
  digest_of r = elim r.sha256 [
    | some x ↦ x
    | none ↦ or_else (file_digest r.local_template_path) no_digest
  ]

  abbrev pub new_template : Registration → ℕ → FormTemplate
  new_template r new_id = record {
    id = new_id;
    form_code = r.form_code;
    tax_year = r.tax_year;
    revision = r.revision;
    status = FormTemplateStatus.draft;
    verified = false;
    local_template_path = r.local_template_path;
    sha256 = digest_of r;
    verified_at = none;
    verified_by = none;
    activated_at = none;
    activated_by = none;
  }

  abbrev pub log_register : Staff → Registration → ℕ → Action (Unit {0})
  log_register by r new_id =
      write_audit by.firm_id 0 by.actor AuditAction.form_template_register "form_template"
        (some new_id) (registered_details r.form_code r.tax_year r.revision (digest_of r))

  -- `register_template`. The unique key has at most one row of a revision.
  unfoldable pub register_template : Staff → Registration → ℕ → Action FormTemplate
  register_template by r new_id =
      registrable by r
      >> (insert_template (new_template r new_id)
          >> (log_register by r new_id >> pure (new_template r new_id)))

abbrev pub set_template : (FormTemplate → FormTemplate) → FormTemplate → Session → Session
set_template f row s = record s {
  form_templates = update_if (λ t. t.id == row.id) f s.form_templates;
}

-- The end of `verify_template`, on a row that is not verified yet.
unfoldable pub mark_verified : Staff → ℕ → FormTemplate → Action FormTemplate
mark_verified by now row =
    modify (set_template (verified_by_staff by now) row)
    >> (log_template by AuditAction.form_template_verify row >> pure (verified_by_staff by now row))

unfoldable pub verify_found : Staff → ℕ → FormTemplate → Action FormTemplate
verify_found by now row s = if row.verified then (ok row, s) else mark_verified by now row s

-- The checks of `verify_template`.
unfoldable pub verifiable : Staff → ℕ → Action FormTemplate
verifiable by template_id = do
  raise_if (not (is_firm by.scope)) form_forbidden
  row ← or_raise (← get_template template_id) form_not_found
  raise_if (is_superseded_template row.status) form_state
  pure row

-- `verify_template`
unfoldable pub verify_template : Staff → ℕ → ℕ → Action FormTemplate
verify_template by template_id now = verifiable by template_id >>= verify_found by now

-- `activate_template` up to its writes.
unfoldable pub found_template : Staff → ℕ → Action FormTemplate
found_template by template_id = do
  raise_if (not (is_firm by.scope)) form_forbidden
  or_raise (← get_template template_id) form_not_found

unfoldable pub refuse_template : FormTemplate → Action (Unit {0})
refuse_template row = do
  raise_if (is_superseded_template row.status) form_state
  raise_if (not row.verified) form_state

abbrev pub log_activate : Staff → FormTemplate → List FormTemplate → Action (Unit {0})
log_activate by row prior =
    write_audit by.firm_id 0 by.actor AuditAction.form_template_activate "form_template"
      (some row.id)
      (activated_details row.form_code row.tax_year row.revision (map (λ t. t.id) prior))

abbrev pub supersede_prior_templates : FormTemplate → Session → Session
supersede_prior_templates row s = record s {
  form_templates = update_if (prior_template row) superseded_template s.form_templates;
}

-- The writes of `activate_template`.
unfoldable pub switch_template : Staff → ℕ → FormTemplate → Action FormTemplate
switch_template by now row s =
    let prior = select (prior_template row) s.form_templates in
    (modify (λ t. set_template (activated_by_staff by now) row (supersede_prior_templates row t))
        >> (log_activate by row prior >> pure (activated_by_staff by now row)))
      s

unfoldable pub activate_found : Staff → ℕ → FormTemplate → Action FormTemplate
activate_found by now row s =
    if is_active_template row.status && row.verified
    then (ok row, s)
    else (refuse_template row >> switch_template by now row) s

-- `activate_template`
unfoldable pub activate_template : Staff → ℕ → ℕ → Action FormTemplate
activate_template by template_id now = found_template by template_id >>= activate_found by now
