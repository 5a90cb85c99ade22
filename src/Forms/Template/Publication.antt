-- ===== src/Forms/Template/Publication.antt =====
-- That the staff can bring a template into force (app/domain/form_template.py).
use mathlib.Core.Path.{subst}
use company_tax_and_accounti.Base.{
  ℕ, true, false, Option, some, List, [], ◌∷◌, ◌++◌, String, ◌==◌, ◌≡◌, refl, sym, ap, ◌∙◌, arith,
  All, All-every, find, any, update_if, if◌then◌else◌, ==-refl,
}
use company_tax_and_accounti.Model.{
  FormTemplate, AuditAction, is_firm, same_form_refl, is_active_template, is_superseded_template,
}
use company_tax_and_accounti.Tenant.{visible}
use company_tax_and_accounti.Session.{Session, Action, Result, ok, ◌>>=◌, pure, write_audit}
use company_tax_and_accounti.Session.Binds.{>>=-step, >>-step, write_audit-step}
use company_tax_and_accounti.Registry.{find-new, find-each, find_cong_on, update_if-each, on_some}
use company_tax_and_accounti.Forms.Template.{
  Staff, Registration, set_template, log_template, same_revision, get_active_verified, registrable,
  insert_template, register_template, verifiable, verify_found, mark_verified, verify_template,
  found_template, refuse_template, switch_template, activate_found, activate_template,
  activated_by_staff, verified_by_staff, new_template,
}
use company_tax_and_accounti.Forms.Template.Writes.{activated}
use company_tax_and_accounti.Forms.Template.Current.{IsRegistry, looked_up, current}
use company_tax_and_accounti.Forms.Template.Refinement.{
  registering, verifying, activating, operate, start, step, Reached-IsRegistry, operate-effect,
  get_active_verified-current,
}

-- An operation that returns a template and leaves a table, with the settings as they were.
abbrev Returns : Action FormTemplate → Session → FormTemplate → List FormTemplate → Type 0
Returns m s r ts = ((m s).0 ≡ ok r) × ((m s).1.guc ≡ s.guc) × ((m s).1.form_templates ≡ ts)

module _ (by : Staff) (is : is_firm by.scope ≡ true) where
  registers :
      (file_digest : String → Option String) (g : Registration) (new_id : ℕ) (s : Session)
      → visible s.guc by.firm_id 0 ≡ true
      → any (λ t. t.id == new_id) s.form_templates ≡ false
      → any (same_revision g.form_code g.tax_year g.revision) s.form_templates ≡ false
      → Returns
          (register_template file_digest by g new_id)
          s
          (new_template file_digest g new_id)
          (s.form_templates ++ (new_template file_digest g new_id ∷ []))
  unfolding register_template registrable insert_template write_audit
  registers file_digest g new_id s shown new first = (ground arith, ground arith, ground arith)

  logs_verification :
      (now : ℕ) (s : Session) (row : FormTemplate)
      → visible s.guc by.firm_id 0 ≡ true
      → Returns
          (mark_verified by now row)
          s
          (verified_by_staff by now row)
          (update_if (λ t. t.id == row.id) (verified_by_staff by now) s.form_templates)
  unfolding mark_verified
  logs_verification now s row shown =
      let s' = set_template (verified_by_staff by now) row s in
      let e =
        >>-step (log_template by AuditAction.form_template_verify row)
          (pure (verified_by_staff by now row)) s' _
          (write_audit-step by.firm_id 0 by.actor _ "form_template" (some row.id) _ s' shown) in
      (
        ap (λ p. p.0) e,
        ap (λ (p : Result FormTemplate × Session). p.1.guc) e,
        ap (λ (p : Result FormTemplate × Session). p.1.form_templates) e,
      )

  finds_verifiable :
      (id : ℕ) (s : Session) (row : FormTemplate)
      → find (λ t. t.id == id) s.form_templates ≡ some row
      → is_superseded_template row.status ≡ false
      → verifiable by id s ≡ (ok row, s)
  unfolding verifiable
  finds_verifiable id s row found live = ground arith

  verifies :
      (id now : ℕ) (s : Session) (row : FormTemplate)
      → visible s.guc by.firm_id 0 ≡ true
      → find (λ t. t.id == id) s.form_templates ≡ some row
      → is_superseded_template row.status ≡ false
      → row.verified ≡ false
      → Returns
          (verify_template by id now)
          s
          (verified_by_staff by now row)
          (update_if (λ t. t.id == row.id) (verified_by_staff by now) s.form_templates)
  unfolding verify_template verify_found
  verifies id now s row shown found live due =
      let same : verify_template by id now s ≡ mark_verified by now row s =
        >>=-step (verifiable by id) (verify_found by now) s s row
          (finds_verifiable id s row found live)
        ∙ ap (λ b. if b then (ok row, s) else mark_verified by now row s) due in
      let (a, b, c) = logs_verification now s row shown in
      (
        ap (λ p. p.0) same ∙ a,
        ap (λ (p : Result FormTemplate × Session). p.1.guc) same ∙ b,
        ap (λ (p : Result FormTemplate × Session). p.1.form_templates) same ∙ c,
      )

  activates :
      (id now : ℕ) (s : Session) (row : FormTemplate)
      → visible s.guc by.firm_id 0 ≡ true
      → find (λ t. t.id == id) s.form_templates ≡ some row
      → is_superseded_template row.status ≡ false
      → is_active_template row.status ≡ false
      → row.verified ≡ true
      → Returns
          (activate_template by id now)
          s
          (activated_by_staff by now row)
          (activated by now row s.form_templates)
  unfolding activate_template found_template activate_found refuse_template switch_template
      write_audit
  activates id now s row shown found live idle checked = (ground arith, ground arith, ground arith)

-- A template registered, verified and activated by the same staff.
abbrev pub publish :
    (String → Option String) → Staff → Registration → ℕ → ℕ → ℕ → Action FormTemplate
publish file_digest by g new_id verified_at activated_at =
    register_template file_digest by g new_id >>= λ t.
    verify_template by t.id verified_at >>= λ v. activate_template by v.id activated_at

module _ (file_digest : String → Option String) (by : Staff) (g : Registration)
    (new_id verified_at activated_at : ℕ) (s : Session) (i : IsRegistry s.form_templates)
    (is : is_firm by.scope ≡ true) (shown : visible s.guc by.firm_id 0 ≡ true)
    (new : any (λ t. t.id == new_id) s.form_templates ≡ false)
    (first : any (same_revision g.form_code g.tax_year g.revision) s.form_templates ≡ false) where
  row : FormTemplate
  row = new_template file_digest g new_id

  checked_row : FormTemplate
  checked_row = verified_by_staff by verified_at row

  s₁ : Session
  s₁ = (register_template file_digest by g new_id s).1

  s₂ : Session
  s₂ = (verify_template by new_id verified_at s₁).1

  first_step :
      Returns (register_template file_digest by g new_id) s row (s.form_templates ++ (row ∷ []))
  unfolding row
  first_step = registers by is file_digest g new_id s shown new first

  second_step : Returns (verify_template by new_id verified_at) s₁ checked_row (
      update_if
        (λ t. t.id == new_id)
        (verified_by_staff by verified_at)
        (s.form_templates ++ (row ∷ [])))
  unfolding row checked_row s₁
  second_step =
      let (done, same, table) = first_step in
      let found : find (λ t. t.id == new_id) s₁.form_templates ≡ some row =
        rw table (find-new (λ t. t.id == new_id) s.form_templates row new (==-refl new_id)) in
      let (a, b, c) = verifies by is new_id verified_at s₁ row (rw same shown) found refl refl in
      (a, b, c ∙ ap (update_if (λ t. t.id == new_id) (verified_by_staff by verified_at)) table)

  found_checked : find (λ t. t.id == new_id) s₂.form_templates ≡ some checked_row
  unfolding s₂ s₁ row checked_row on_some
  found_checked =
      let verify =
        λ (t : FormTemplate). if t.id == new_id then verified_by_staff by verified_at t else t in
      let ts = s.form_templates ++ (row ∷ []) in
      let same_ids : All (λ t. ((verify t).id == new_id) ≡ (t.id == new_id)) ts =
        All-every _ ts (λ t. ground arith) in
      ap (find (λ t. t.id == new_id))
        (second_step.2 ∙ update_if-each (λ t. t.id == new_id) (verified_by_staff by verified_at) ts)
      ∙ find-each (λ t. t.id == new_id) verify ts
      ∙ ap (on_some verify) (
          find_cong_on _ (λ t. t.id == new_id) ts same_ids
          ∙ find-new (λ t. t.id == new_id) s.form_templates row new (==-refl new_id))
      ∙ rw (==-refl new_id) refl

  third_step :
      Returns
        (activate_template by new_id activated_at)
        s₂
        (activated_by_staff by activated_at checked_row)
        (activated by activated_at checked_row s₂.form_templates)
  unfolding row checked_row s₁ s₂
  third_step =
      activates by is new_id activated_at s₂ checked_row (rw (second_step.1 ∙ first_step.1) shown)
        found_checked refl refl refl

  -- From a valid registry, with a fresh id, a revision that is not registered and settings that
  -- let the staff write the audit event, registering, verifying and activating a template
  -- succeeds, and afterwards the lookup of its form and year returns it.
  pub publish-get_active_verified :
      ((publish file_digest by g new_id verified_at activated_at s).0
        ≡ ok (
            activated_by_staff by activated_at
              (verified_by_staff by verified_at (new_template file_digest g new_id))))
      × (get_active_verified g.form_code g.tax_year
            (publish file_digest by g new_id verified_at activated_at s).1
          ≡ (
            ok (
                activated_by_staff by activated_at
                  (verified_by_staff by verified_at (new_template file_digest g new_id))),
            (publish file_digest by g new_id verified_at activated_at s).1,
          ))
  unfolding row checked_row s₁ s₂ operate
  publish-get_active_verified =
      let final = activated_by_staff by activated_at checked_row in
      let s₃ = (activate_template by new_id activated_at s₂).1 in
      let finish = λ (v : FormTemplate). activate_template by v.id activated_at in
      let e : publish file_digest by g new_id verified_at activated_at s ≡ (ok final, s₃) =
        >>=-step (register_template file_digest by g new_id)
          (λ t. verify_template by t.id verified_at >>= finish) s s₁ row
          (ap (λ x. (x, s₁)) first_step.0)
        ∙ >>=-step (verify_template by new_id verified_at) finish s₁ s₂ checked_row
            (ap (λ x. (x, s₂)) second_step.0)
        ∙ ap (λ x. (x, s₃)) third_step.0 in
      let valid : IsRegistry s₂.form_templates = Reached-IsRegistry file_digest s s₂ i (
        step (verifying by new_id verified_at) s₁ checked_row
          (step (registering by g new_id) s row start first_step.0) second_step.0) in
      let after =
        Reached-IsRegistry file_digest s₂ s₃ valid
          (step (activating by new_id activated_at) s₂ final start third_step.0) in
      let now_current : current s₃ g.form_code g.tax_year ≡ some final =
        operate-effect file_digest (activating by new_id activated_at) s₂ final valid third_step.0
          g.form_code g.tax_year
        ∙ rw (same_form_refl g.form_code, ==-refl g.tax_year) refl in
      (
        ap (λ p. p.0) e,
        subst (λ (t : Session). get_active_verified g.form_code g.tax_year t ≡ (ok final, t))
            (sym (ap (λ (p : Result FormTemplate × Session). p.1) e))
            (get_active_verified-current s₃ g.form_code g.tax_year after
              ∙ ap (λ x. (looked_up x, s₃)) now_current),
      )
