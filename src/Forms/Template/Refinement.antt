-- ===== src/Forms/Template/Refinement.antt =====
-- The registry of form templates (app/domain/form_template.py) as a state machine, and that it
-- implements a map from forms and years to the template in force.
use mathlib.Core.Path.{subst}
use company_tax_and_accounti.Base.{
  ℕ, ◌≤◌, true, false, Option, some, List, [], ◌∷◌, String, ◌==◌, ◌≡◌, refl, sym, ap, ◌∙◌, arith,
  inl, inr, find, select, count_if, All, Bool-cases, if◌then◌else◌, ==-refl,
}
use company_tax_and_accounti.Model.{FormTemplate, TaxFormCode, same_form_refl}
use company_tax_and_accounti.Session.{Session, Action, ok}
use company_tax_and_accounti.Registry.{find-append, find-sole, select-none}
use company_tax_and_accounti.Forms.Template.{
  Staff, Registration, same_key, the_only, get_active_verified, register_template, verify_template,
  activate_template, new_template,
}
use company_tax_and_accounti.Forms.Template.Writes.{
  register_template-ok, verify_template-ok, activate_template-ok, activated,
}
use company_tax_and_accounti.Forms.Template.Current.{
  Registry, IsRegistry, in_force, current, is_checked, looked_up, keys_disjoint, only_row,
  activated_own, activated_other, activated-IsRegistry, registered-IsRegistry, verified_find,
  verified-IsRegistry,
}

-- What staff do to the registry.
pub data Operation : Type 0 where
  registering : Staff → Registration → ℕ → Operation
  verifying : Staff → ℕ → ℕ → Operation
  activating : Staff → ℕ → ℕ → Operation

-- The abstract effect: an activation puts its template in force for the template's form and year,
-- and the other operations change nothing.
abbrev pub effect : Operation → FormTemplate → Registry → Registry
effect (registering by g new_id) r m form_code tax_year = m form_code tax_year
effect (verifying by id now) r m form_code tax_year = m form_code tax_year
effect (activating by id now) r m form_code tax_year =
    if same_key form_code tax_year r then some r else m form_code tax_year

-- Over rows of which one at most is in force, and verified.
the_only-current :
    (c : TaxFormCode) (y : ℕ) (s : Session) (ts : List FormTemplate)
    → count_if (in_force c y) ts ≤ 1
    → All (λ t. is_checked t ≡ true) ts
    → the_only (select (λ t. t.verified) (select (in_force c y) ts)) s
      ≡ (looked_up (find (in_force c y) ts), s)
the_only-current c y s [] one h = refl
the_only-current c y s (t ∷ ts) one h = elim (Bool-cases (in_force c y t)) [
  | inl is ↦
      let verified : t.verified ≡ true = let k = h.0 in ground arith in
      let rest : select (in_force c y) ts ≡ [] = select-none (in_force c y) ts (ground arith) in
      rw (is, rest, verified) refl
  | inr off ↦ rw off (the_only-current c y s ts (ground arith) h.1)
]

-- In a valid registry the lookup returns the template that is in force, refuses where there is
-- none, and never finds two.
pub get_active_verified-current :
    (s : Session) (form_code : TaxFormCode) (tax_year : ℕ)
    → IsRegistry s.form_templates
    → get_active_verified form_code tax_year s ≡ (looked_up (current s form_code tax_year), s)
unfolding get_active_verified
get_active_verified-current s form_code tax_year i =
    the_only-current form_code tax_year s s.form_templates (i.sole form_code tax_year) i.checked

module _ (file_digest : String → Option String) where
  unfoldable pub operate : Operation → Action FormTemplate
  operate (registering by g new_id) = register_template file_digest by g new_id
  operate (verifying by id now) = verify_template by id now
  operate (activating by id now) = activate_template by id now

  -- The sessions that operations which succeed lead to.
  pub data Reached (s : Session) : Session → Type 0 where
    start : Reached s s
    step :
        (op : Operation) (t : Session) (r : FormTemplate)
        → Reached s t
        → (operate op t).0 ≡ ok r
        → Reached s (operate op t).1

  operate-IsRegistry :
      (op : Operation) (s : Session) (r : FormTemplate)
      → IsRegistry s.form_templates
      → (operate op s).0 ≡ ok r
      → IsRegistry (operate op s).1.form_templates
  unfolding operate
  operate-IsRegistry (registering by g new_id) s r i h =
      let (_, new, e) = register_template-ok file_digest by g new_id s r h in
      rw e (registered-IsRegistry s.form_templates (new_template file_digest g new_id) i new refl)
  operate-IsRegistry (verifying by id now) s r i h =
      let (row, found, _, e) = verify_template-ok by id now s r h in
      let (found', _) = only_row s.form_templates id row i found in
      elim (Bool-cases row.verified) [
        | inl is ↦ rw (e, is) i
        | inr due ↦ rw (e, due) (verified-IsRegistry by now s.form_templates row i found' due)
      ]
  operate-IsRegistry (activating by id now) s r i h =
      let (row, found, done) = activate_template-ok by id now s r h in
      let (found', _) = only_row s.form_templates id row i found in
      elim done [
        | inl stays ↦ rw stays.2 i
        | inr made ↦ rw made.2 (activated-IsRegistry by now s.form_templates row i found' made.0)
      ]

  -- However the staff use the registry, from a valid one it stays valid: ids are keys, at most
  -- one template is in force for a form and a year, and a template in force is verified.
  pub Reached-IsRegistry :
      (s t : Session) → IsRegistry s.form_templates → Reached s t → IsRegistry t.form_templates
  Reached-IsRegistry s t i start = i
  Reached-IsRegistry s t' i (step op t r before h) =
      operate-IsRegistry op t r (Reached-IsRegistry s t i before) h

  -- In a valid registry an operation that succeeds does to the templates in force what the
  -- abstract map says: an activation assigns the activated template to its form and year, and
  -- registrations and verifications assign nothing.
  pub operate-effect :
      (op : Operation) (s : Session) (r : FormTemplate)
      → IsRegistry s.form_templates
      → (operate op s).0 ≡ ok r
      → (form_code : TaxFormCode) (tax_year : ℕ)
      → current (operate op s).1 form_code tax_year ≡ effect op r (current s) form_code tax_year
  unfolding operate
  operate-effect (registering by g new_id) s r i h c y =
      let (_, new, e) = register_template-ok file_digest by g new_id s r h in
      rw e (
        find-append (in_force c y) s.form_templates (new_template file_digest g new_id)
          (ground arith))
  operate-effect (verifying by id now) s r i h c y =
      let (row, found, _, e) = verify_template-ok by id now s r h in
      let (found', _) = only_row s.form_templates id row i found in
      elim (Bool-cases row.verified) [
        | inl is ↦ rw (e, is) refl
        | inr due ↦ rw (e, due) (verified_find by now s.form_templates row i found' due c y)
      ]
  operate-effect (activating by id now) s r i h c y =
      let (row, found, done) = activate_template-ok by id now s r h in
      let (found', _) = only_row s.form_templates id row i found in
      elim done [
        | inl stays ↦ elim (Bool-cases (same_key c y r)) [
          | inl key ↦
              let q : in_force c y row ≡ true =
                rw (subst (λ t. same_key c y t ≡ true) (sym stays.1) key, stays.0) refl in
              rw (stays.2, key)
                (find-sole (in_force c y) (λ t. t.id == row.id) s.form_templates row found' q
                    (i.sole c y)
                  ∙ ap some stays.1)
          | inr other ↦ rw (stays.2, other) refl
        ]
        | inr made ↦ elim (keys_disjoint row.form_code c row.tax_year y) [
          | inl (e, f) ↦
              let key : same_key c y r ≡ true =
                rw (← made.1, ← e, ← f, same_form_refl row.form_code, ==-refl row.tax_year) refl in
              rw (made.2, key)
                (subst (λ d. find (in_force d y) (activated by now row s.form_templates) ≡ some r) e
                  (subst
                    (λ z.
                      find (in_force row.form_code z) (activated by now row s.form_templates)
                      ≡ some r)
                    f ((activated_own by now s.form_templates row i found').0 ∙ ap some made.1)))
          | inr disjoint ↦
              let away : same_key c y row ≡ false =
                let d = disjoint row in
                let k : same_key row.form_code row.tax_year row ≡ true =
                  rw (same_form_refl row.form_code, ==-refl row.tax_year) refl in
                ground arith in
              let off : same_key c y r ≡ false = rw (← made.1) away in
              rw (made.2, off) (activated_other by now s.form_templates row i found' c y disjoint).0
        ]
      ]
