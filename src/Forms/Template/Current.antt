-- ===== src/Forms/Template/Current.antt =====
-- Which template is in force (app/domain/form_template.py): the abstract view of the registry, its
-- invariant, and what each operation does to both.
use mathlib.Core.Path.{subst}
use company_tax_and_accounti.Base.{
  ℕ, ◌≤◌, Bool, true, false, not, ◌&&◌, ◌||◌, Option, none, some, List, [], ◌∷◌, ◌++◌, ◌==◌, ◌≡◌,
  refl, sym, ◌∙◌, ◌⊎◌, arith, inl, inr, find, any, update_if, count_if, All, All-map, All-append,
  All-every, Bool-cases, if◌then◌else◌, ==→eq, ==-refl,
}
use company_tax_and_accounti.Model.{
  FormTemplate, TaxFormCode, same_form, same_form→eq, same_form_refl, is_active_template,
}
use company_tax_and_accounti.Session.{Session, Result, ok, err, form_not_active}
use company_tax_and_accounti.Registry.{
  sole_row, find_passes, count_if-append, any-none, All-find, All-each, All-both, update_if-each,
  find-kept, count_if-each, count_if_cong_on, each,
}
use company_tax_and_accounti.Registry.Switch.{
  Versions, IsKept, switched_own, switched_other, switched-ids,
}
use company_tax_and_accounti.Forms.Template.{
  Staff, same_key, activated_by_staff, verified_by_staff, superseded_template, prior_template,
}
use company_tax_and_accounti.Forms.Template.Writes.{activated}

abbrev pub in_force : TaxFormCode → ℕ → FormTemplate → Bool
in_force form_code tax_year t = same_key form_code tax_year t && is_active_template t.status

-- The abstract registry: the template in force of each form and year.
abbrev pub Registry : Type 0
Registry = TaxFormCode → ℕ → Option FormTemplate

abbrev pub current : Session → Registry
current s form_code tax_year = find (in_force form_code tax_year) s.form_templates

abbrev pub is_checked : FormTemplate → Bool
is_checked t = not (is_active_template t.status) || t.verified

-- The ids are keys, one template at most is in force for a form and a year, and it is verified.
pub record IsRegistry (ts : List FormTemplate) : Type 0 where
  pub keyed : (id : ℕ) → count_if (λ t. t.id == id) ts ≤ 1
  pub sole :
      (form_code : TaxFormCode) (tax_year : ℕ) → count_if (in_force form_code tax_year) ts ≤ 1
  pub checked : All (λ t. is_checked t ≡ true) ts

-- What `get_active_verified` returns of an entry of the registry.
abbrev pub looked_up : Option FormTemplate → Result FormTemplate
looked_up none = err form_not_active
looked_up (some t) = ok t

versions : Staff → ℕ → Versions FormTemplate
versions by now = record {
  id = λ t. t.id;
  active = λ t. is_active_template t.status;
  activate = activated_by_staff by now;
  supersede = superseded_template;
  activate-id = λ t. refl;
  supersede-id = λ t. refl;
  activate-active = λ t. refl;
  supersede-active = λ t. refl;
}

key-IsKept :
    (by : Staff) (now : ℕ) (c : TaxFormCode) (y : ℕ) → IsKept (versions by now) (same_key c y)
unfolding versions
key-IsKept by now c y = record { of_activate = λ t. refl; of_supersede = λ t. refl }

-- Two keys are the same or no row has both.
pub keys_disjoint :
    (c d : TaxFormCode) (y z : ℕ)
    → ((c ≡ d) × (y ≡ z)) ⊎ ((t : FormTemplate) → (same_key c y t && same_key d z t) ≡ false)
keys_disjoint c d y z = elim (Bool-cases (same_form c d && y == z)) [
  | inl same ↦ inl (same_form→eq c d (ground arith), ==→eq y z (ground arith))
  | inr other ↦ inr λ t. elim (Bool-cases (same_key c y t && same_key d z t)) [
    | inl both ↦
        let a : t.form_code ≡ c = same_form→eq t.form_code c (ground arith) in
        let b : t.form_code ≡ d = same_form→eq t.form_code d (ground arith) in
        let e : c ≡ d = sym a ∙ b in
        let f : y ≡ z = ground arith in
        let g : same_form c d ≡ true = rw e (same_form_refl d) in absurd (ground arith)
    | inr none_has ↦ none_has
  ]
]

-- The row that is found under an id is the only one with it.
pub only_row :
    (ts : List FormTemplate) (id : ℕ) (row : FormTemplate)
    → IsRegistry ts
    → find (λ t. t.id == id) ts ≡ some row
    → (find (λ t. t.id == row.id) ts ≡ some row)
      × All (λ t. (t.id == row.id ≡ false) ⊎ (t ≡ row)) ts
only_row ts id row r found =
    let e : row.id ≡ id = ==→eq row.id id (find_passes (λ t. t.id == id) ts row found) in
    let found' : find (λ t. t.id == row.id) ts ≡ some row =
      subst (λ n. find (λ t. t.id == n) ts ≡ some row) (sym e) found in
    (found', sole_row (λ t. t.id == row.id) ts row (r.keyed row.id) found')

module _ (by : Staff) (now : ℕ) (ts : List FormTemplate) (row : FormTemplate) (r : IsRegistry ts)
    (found : find (λ t. t.id == row.id) ts ≡ some row) where
  pub activated_own :
      (find (in_force row.form_code row.tax_year) (activated by now row ts)
        ≡ some (activated_by_staff by now row))
      × (count_if (in_force row.form_code row.tax_year) (activated by now row ts)
          ≡ count_if (λ t. t.id == row.id) ts)
  unfolding versions
  activated_own =
      let key = same_key row.form_code row.tax_year in
      switched_own (versions by now) key row.id (key-IsKept by now row.form_code row.tax_year) ts
        row (r.keyed row.id) found (rw (same_form_refl row.form_code, ==-refl row.tax_year) refl)

  pub activated_other :
      (c : TaxFormCode) (y : ℕ)
      → ((t : FormTemplate) → (same_key row.form_code row.tax_year t && same_key c y t) ≡ false)
      → (find (in_force c y) (activated by now row ts) ≡ find (in_force c y) ts)
        × (count_if (in_force c y) (activated by now row ts) ≡ count_if (in_force c y) ts)
  unfolding versions
  activated_other c y disjoint =
      let key = same_key row.form_code row.tax_year in
      switched_other (versions by now) key row.id (key-IsKept by now row.form_code row.tax_year) ts
        row (r.keyed row.id) found (rw (same_form_refl row.form_code, ==-refl row.tax_year) refl)
        (same_key c y) (key-IsKept by now c y) disjoint

  activated_checked : row.verified ≡ true → All (λ t. is_checked t ≡ true) (activated by now row ts)
  activated_checked verified =
      let P = λ (t : FormTemplate).
        (is_checked t ≡ true) × ((t.id == row.id ≡ false) ⊎ (t.verified ≡ true)) in
      let start : All P ts = All-both _ _ ts r.checked (
        All-map _ _ ts (λ x h. elim h [ inl other ↦ inl other | inr same ↦ inr (rw same verified) ])
          (sole_row (λ t. t.id == row.id) ts row (r.keyed row.id) found)) in
      rw
        (
          update_if-each (prior_template row) superseded_template ts,
          update_if-each (λ t. t.id == row.id) (activated_by_staff by now)
              (each (λ t. if prior_template row t then superseded_template t else t) ts),
        )
        (All-each P _ _ _ (λ x h. activate_step x h)
          (All-each P P _ ts (λ x h. supersede_step x h) start))
    where
      supersede_step :
          (x : FormTemplate)
          → (is_checked x ≡ true) × ((x.id == row.id ≡ false) ⊎ (x.verified ≡ true))
          → (is_checked (if prior_template row x then superseded_template x else x) ≡ true)
            × (((if prior_template row x then superseded_template x else x).id == row.id ≡ false)
                ⊎ ((if prior_template row x then superseded_template x else x).verified ≡ true))
      supersede_step x h = elim (Bool-cases (prior_template row x)) [
        | inl is ↦ rw is (refl, h.1)
        | inr other ↦ rw other h
      ]

      activate_step :
          (x : FormTemplate)
          → (is_checked x ≡ true) × ((x.id == row.id ≡ false) ⊎ (x.verified ≡ true))
          → is_checked (if x.id == row.id then activated_by_staff by now x else x) ≡ true
      activate_step x h = elim (Bool-cases (x.id == row.id)) [
        | inl self ↦ elim h.1 [ inl other ↦ absurd (cc) | inr is ↦ rw (self, is) refl ]
        | inr other ↦ rw other h.0
      ]

  pub activated-IsRegistry : row.verified ≡ true → IsRegistry (activated by now row ts)
  unfolding versions
  activated-IsRegistry verified = record {
    keyed = λ id.
        rw (switched-ids (versions by now) (same_key row.form_code row.tax_year) row.id id ts)
          (r.keyed id);
    sole = λ c y. elim (keys_disjoint row.form_code c row.tax_year y) [
      | inl (e, f) ↦ rw (← e, ← f, activated_own.1) (r.keyed row.id)
      | inr disjoint ↦ rw (activated_other c y disjoint).1 (r.sole c y)
    ];
    checked = activated_checked verified;
  }

-- A new template is not in force.
pub registered-IsRegistry :
    (ts : List FormTemplate) (t : FormTemplate)
    → IsRegistry ts
    → any (λ x. x.id == t.id) ts ≡ false
    → is_active_template t.status ≡ false
    → IsRegistry (ts ++ (t ∷ []))
registered-IsRegistry ts t r new idle = record {
  keyed = λ id. rw (count_if-append (λ x. x.id == id) ts t) (elim (Bool-cases (t.id == id)) [
    | inl same ↦
        let e : t.id ≡ id = ==→eq t.id id same in
        let none_has : count_if (λ x. x.id == id) ts ≡ 0 =
          any-none (λ x. x.id == id) ts (subst (λ n. any (λ x. x.id == n) ts ≡ false) e new) in
        rw (none_has, same) (ground arith)
    | inr other ↦ let k = r.keyed id in rw other (ground arith)
  ]);
  sole = λ c y. let k = r.sole c y in rw (count_if-append (in_force c y) ts t, idle) (ground arith);
  checked = All-append _ ts (t ∷ []) r.checked (rw idle refl, tt);
}

module _ (by : Staff) (now : ℕ) (ts : List FormTemplate) (row : FormTemplate) (r : IsRegistry ts)
    (found : find (λ t. t.id == row.id) ts ≡ some row) (due : row.verified ≡ false) where
  abbrev pub verified_table : List FormTemplate
  verified_table = update_if (λ t. t.id == row.id) (verified_by_staff by now) ts

  idle : is_active_template row.status ≡ false
  idle =
      let k = All-find (λ t. is_checked t ≡ true) (λ t. t.id == row.id) ts row r.checked found in
      ground arith

  verify_row : FormTemplate → FormTemplate
  verify_row t = if t.id == row.id then verified_by_staff by now t else t

  -- Whether a template is in force does not depend on the verification.
  verify_same :
      (c : TaxFormCode) (y : ℕ) (x : FormTemplate)
      → (x.id == row.id ≡ false) ⊎ (x ≡ row)
      → (in_force c y (verify_row x) ≡ in_force c y x)
        × ((in_force c y x ≡ false) ⊎ (verify_row x ≡ x))
  unfolding verify_row
  verify_same c y x h = elim (Bool-cases (x.id == row.id)) [
    | inl self ↦ elim h [
      | inl other ↦ absurd (cc)
      | inr same ↦
          let off : is_active_template x.status ≡ false = rw same idle in
          (rw self refl, inl (rw off (ground arith)))
    ]
    | inr other ↦ rw other (refl, inr refl)
  ]

  pub verified_find :
      (c : TaxFormCode) (y : ℕ) → find (in_force c y) verified_table ≡ find (in_force c y) ts
  unfolding verify_row
  verified_find c y = rw (update_if-each (λ t. t.id == row.id) (verified_by_staff by now) ts) (
      find-kept (in_force c y) verify_row ts (
        All-map _ _ ts (verify_same c y)
          (sole_row (λ t. t.id == row.id) ts row (r.keyed row.id) found)))

  pub verified-IsRegistry : IsRegistry verified_table
  unfolding verify_row
  verified-IsRegistry =
      rw (update_if-each (λ t. t.id == row.id) (verified_by_staff by now) ts) (record {
        keyed = λ id.
            rw
              (
                count_if-each (λ t. t.id == id) verify_row ts,
                count_if_cong_on (λ t. (verify_row t).id == id) (λ t. t.id == id) ts
                    (All-every _ ts (λ x. keeps_id id x)),
              )
              (r.keyed id);
        sole = λ c y.
            rw
              (
                count_if-each (in_force c y) verify_row ts,
                count_if_cong_on _ (in_force c y) ts (
                    All-map _ _ ts (λ x h. (verify_same c y x h).0)
                      (sole_row (λ t. t.id == row.id) ts row (r.keyed row.id) found)),
              )
              (r.sole c y);
        checked = All-each (λ t. is_checked t ≡ true) _ verify_row ts checks r.checked;
      })
    where
      keeps_id : (id : ℕ) (x : FormTemplate) → ((verify_row x).id == id) ≡ (x.id == id)
      keeps_id id x = elim (Bool-cases (x.id == row.id)) [
        | inl self ↦ rw self refl
        | inr other ↦ rw other refl
      ]

      checks : (x : FormTemplate) → is_checked x ≡ true → is_checked (verify_row x) ≡ true
      checks x h = elim (Bool-cases (x.id == row.id)) [
        | inl self ↦ rw self (ground arith)
        | inr other ↦ rw other h
      ]
