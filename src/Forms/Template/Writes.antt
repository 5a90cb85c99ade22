-- ===== src/Forms/Template/Writes.antt =====
-- What the operations on form templates write (app/domain/form_template.py).
use mathlib.Core.Path.{subst}
use company_tax_and_accounti.Base.{
  ◌⊎◌, ℕ, true, false, ◌&&◌, Option, Option-cases, some, List, [], ◌∷◌, ◌++◌, String, ◌==◌, ◌≡◌,
  refl, ap, ◌∙◌, arith, inl, inr, find, any, update_if, Bool-cases, if◌then◌else◌,
}
use company_tax_and_accounti.Model.{
  FormTemplate, AuditAction, AuditDetails, is_active_template, is_superseded_template,
}
use company_tax_and_accounti.Session.{Session, ok, ◌>>◌, pure, write_audit}
use company_tax_and_accounti.Session.Binds.{>>=-ok, >>-ok, write_audit-ok}
use company_tax_and_accounti.Forms.Template.{
  Staff, Registration, insert_template, new_template, log_register, registrable, register_template,
  verify_found, activate_found, supersede_prior_templates, set_template, verified_by_staff,
  activated_by_staff, superseded_template, prior_template, mark_verified, verifiable,
  verify_template, found_template, refuse_template, switch_template, activate_template,
}

-- An audit event, then the row: the tables stay.
pub audited-ok :
    (f : ℕ) (actor : String) (act : AuditAction) (ty : String) (id : Option ℕ)
    (details : AuditDetails) (row r : FormTemplate) (s : Session)
    → ((write_audit f 0 actor act ty id details >> pure row) s).0 ≡ ok r
    → (row ≡ r)
      × (((write_audit f 0 actor act ty id details >> pure row) s).1.form_templates
          ≡ s.form_templates)
audited-ok f actor act ty id details row r s h =
    let log = write_audit f 0 actor act ty id details in
    let (h₁, k₁, e₁) = >>-ok log (pure row) s h in
    let (_, i) = write_audit-ok f 0 actor act ty id details s h₁ in
    (ground arith, ap (λ (t : Session). t.form_templates) (e₁ ∙ i))

registrable-ok :
    (by : Staff) (g : Registration) (s : Session)
    → (registrable by g s).0 ≡ ok tt
    → (registrable by g s).1 ≡ s
unfolding registrable
registrable-ok by g s h = ground arith

insert_template-ok :
    (t : FormTemplate) (s : Session)
    → (insert_template t s).0 ≡ ok tt
    → (any (λ x. x.id == t.id) s.form_templates ≡ false)
      × ((insert_template t s).1 ≡ record s { form_templates = s.form_templates ++ (t ∷ []) })
unfolding insert_template
insert_template-ok t s h = ground arith

pub register_template-ok :
    (file_digest : String → Option String) (by : Staff) (g : Registration) (new_id : ℕ)
    (s : Session) (r : FormTemplate)
    → (register_template file_digest by g new_id s).0 ≡ ok r
    → (new_template file_digest g new_id ≡ r)
      × (any (λ x. x.id == new_id) s.form_templates ≡ false)
      × ((register_template file_digest by g new_id s).1.form_templates
          ≡ s.form_templates ++ (new_template file_digest g new_id ∷ []))
unfolding register_template
register_template-ok file_digest by g new_id s r h =
    let row = new_template file_digest g new_id in
    let log = log_register file_digest by g new_id >> pure row in
    let (h₁, k₁, e₁) = >>-ok (registrable by g) (insert_template row >> log) s h in
    let same = registrable-ok by g s h₁ in
    let (h₂, k₂, e₂) = >>-ok (insert_template row) log (registrable by g s).1 k₁ in
    let (new, e₃) = insert_template-ok row (registrable by g s).1 h₂ in
    let (e₄, e₅) = audited-ok by.firm_id by.actor _ "form_template" (some new_id) _ row r _ k₂ in
    let table = λ (t : Session). t.form_templates in
    (
      e₄,
      rw (← ap table same) new,
      ap table e₁ ∙ ap table e₂ ∙ e₅ ∙ ap table e₃ ∙ ap (λ ts. ts ++ (row ∷ [])) (ap table same),
    )

verifiable-ok :
    (by : Staff) (id : ℕ) (s : Session) (row : FormTemplate)
    → (verifiable by id s).0 ≡ ok row
    → (find (λ t. t.id == id) s.form_templates ≡ some row)
      × (is_superseded_template row.status ≡ false)
      × ((verifiable by id s).1 ≡ s)
unfolding verifiable
verifiable-ok by id s row h = elim (Option-cases (find (λ t. t.id == id) s.form_templates)) [
  | inl missing ↦ absurd (ground arith)
  | inr (x, found) ↦ (ground arith, ground arith, ground arith)
]

verify_found-ok :
    (by : Staff) (now : ℕ) (row : FormTemplate) (s : Session) (r : FormTemplate)
    → (verify_found by now row s).0 ≡ ok r
    → (verify_found by now row s).1.form_templates ≡ (
        if row.verified
        then s.form_templates
        else update_if (λ t. t.id == row.id) (verified_by_staff by now) s.form_templates)
unfolding verify_found mark_verified
verify_found-ok by now row s r h = elim (Bool-cases row.verified) [
  | inl is ↦ rw is refl
  | inr due ↦
      let k : (mark_verified by now row s).0 ≡ ok r =
        subst (λ b. (if b then (ok row, s) else mark_verified by now row s).0 ≡ ok r) due h in
      rw due
        (audited-ok by.firm_id by.actor _ "form_template" (some row.id) _
          (verified_by_staff by now row) r (set_template (verified_by_staff by now) row s) k).1
]

-- A verification that succeeds: the row, and the table afterwards.
pub verify_template-ok :
    (by : Staff) (id now : ℕ) (s : Session) (r : FormTemplate)
    → (verify_template by id now s).0 ≡ ok r
    → (row : FormTemplate) × (find (λ t. t.id == id) s.form_templates ≡ some row)
      × (is_superseded_template row.status ≡ false)
      × ((verify_template by id now s).1.form_templates ≡ (
          if row.verified
          then s.form_templates
          else update_if (λ t. t.id == row.id) (verified_by_staff by now) s.form_templates))
unfolding verify_template
verify_template-ok by id now s r h =
    let (row, h₁, k₁, e₁) = >>=-ok (verifiable by id) (verify_found by now) s h in
    let (found, live, same) = verifiable-ok by id s row h₁ in
    let table = λ (t : Session). t.form_templates in
    (
      row,
      found,
      live,
      ap table e₁
          ∙ verify_found-ok by now row _ r k₁
          ∙ ap
              (λ t.
                if row.verified
                then t.form_templates
                else update_if (λ t. t.id == row.id) (verified_by_staff by now) t.form_templates)
              same,
    )

found_template-ok :
    (by : Staff) (id : ℕ) (s : Session) (row : FormTemplate)
    → (found_template by id s).0 ≡ ok row
    → (find (λ t. t.id == id) s.form_templates ≡ some row) × ((found_template by id s).1 ≡ s)
unfolding found_template
found_template-ok by id s row h = elim (Option-cases (find (λ t. t.id == id) s.form_templates)) [
  | inl missing ↦ absurd (ground arith)
  | inr (x, found) ↦ (ground arith, ground arith)
]

refuse_template-ok :
    (row : FormTemplate) (s : Session)
    → (refuse_template row s).0 ≡ ok tt
    → (row.verified ≡ true) × ((refuse_template row s).1 ≡ s)
unfolding refuse_template
refuse_template-ok row s h = (ground arith, ground arith)

-- The table after an activation that was due.
abbrev pub activated : Staff → ℕ → FormTemplate → List FormTemplate → List FormTemplate
activated by now row ts =
    update_if (λ t. t.id == row.id) (activated_by_staff by now)
      (update_if (prior_template row) superseded_template ts)

switch_template-ok :
    (by : Staff) (now : ℕ) (row : FormTemplate) (s : Session) (r : FormTemplate)
    → (switch_template by now row s).0 ≡ ok r
    → (activated_by_staff by now row ≡ r)
      × ((switch_template by now row s).1.form_templates ≡ activated by now row s.form_templates)
unfolding switch_template
switch_template-ok by now row s r h =
    audited-ok by.firm_id by.actor _ "form_template" (some row.id) _ (activated_by_staff by now row)
      r (set_template (activated_by_staff by now) row (supersede_prior_templates row s)) h

-- An activation that succeeds found the row, which was in force already, or which was verified
-- and is in force now.
pub activate_template-ok :
    (by : Staff) (id now : ℕ) (s : Session) (r : FormTemplate)
    → (activate_template by id now s).0 ≡ ok r
    → (row : FormTemplate) × (find (λ t. t.id == id) s.form_templates ≡ some row)
      × (((is_active_template row.status ≡ true)
            × (row ≡ r)
            × ((activate_template by id now s).1.form_templates ≡ s.form_templates))
          ⊎ ((row.verified ≡ true)
              × (activated_by_staff by now row ≡ r)
              × ((activate_template by id now s).1.form_templates
                  ≡ activated by now row s.form_templates)))
unfolding activate_template activate_found
activate_template-ok by id now s r h =
    let (row, h₁, k₁, e₁) = >>=-ok (found_template by id) (activate_found by now) s h in
    let (found, same) = found_template-ok by id s row h₁ in
    let table = λ (t : Session). t.form_templates in
    let k : (activate_found by now row s).0 ≡ ok r =
      subst (λ t. (activate_found by now row t).0 ≡ ok r) same k₁ in
    let e : (activate_template by id now s).1.form_templates
        ≡ (activate_found by now row s).1.form_templates =
      ap table e₁ ∙ ap (λ t. (activate_found by now row t).1.form_templates) same in
    (
      row,
      found,
      elim (Bool-cases (is_active_template row.status && row.verified)) [
        | inl current ↦ inl (ground arith, ground arith, e ∙ rw current refl)
        | inr due ↦
            let k' : ((refuse_template row >> switch_template by now row) s).0 ≡ ok r =
              subst
                (λ b.
                  (if b
                    then (ok row, s)
                    else (refuse_template row >> switch_template by now row) s).0
                  ≡ ok r)
                due k in
            let (h₂, k₂, e₂) = >>-ok (refuse_template row) (switch_template by now row) s k' in
            let (checked, stays) = refuse_template-ok row s h₂ in
            let (x, y) = switch_template-ok by now row _ r k₂ in
            inr (
              checked,
              x,
              e ∙ rw due (ap table e₂ ∙ y ∙ ap (λ t. activated by now row t.form_templates) stays),
            )
      ],
    )
