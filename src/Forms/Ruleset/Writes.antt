-- ===== src/Forms/Ruleset/Writes.antt =====
-- What the operations on rulesets write (app/domain/entity_form_ruleset.py).
use mathlib.Core.Path.{subst}
use company_tax_and_accounti.Base.{
  ℕ, true, Option-cases, some, List, ◌==◌, ◌≡◌, refl, sym, ap, ◌∙◌, ◌⊎◌, inl, inr, arith, find,
  select, Bool-cases,
}
use company_tax_and_accounti.Model.{EntityFormRuleset, is_active_ruleset, is_superseded_ruleset}
use company_tax_and_accounti.Session.{Session, ok, ◌>>◌, pure}
use company_tax_and_accounti.Session.Binds.{>>=-ok, >>-ok, write_audit-ok}
use company_tax_and_accounti.Forms.Template.{Staff}
use company_tax_and_accounti.Forms.Ruleset.{
  activated_ruleset, prior_ruleset, switch_rulesets, log_ruleset, switch_ruleset,
  activate_ruleset_found, found_ruleset, activate_ruleset,
}

-- The tables that decide what a client files, and the settings, are those given.
pub record Holds (s : Session) (rulesets : List EntityFormRuleset) (t : Session) : Type 0 where
  pub of_rulesets : s.rulesets ≡ rulesets
  pub of_profiles : s.profiles ≡ t.profiles
  pub of_guc : s.guc ≡ t.guc

found_ruleset-ok :
    (by : Staff) (id : ℕ) (s : Session) (row : EntityFormRuleset)
    → (found_ruleset by id s).0 ≡ ok row
    → (find (λ r. r.id == id) s.rulesets ≡ some row) × ((found_ruleset by id s).1 ≡ s)
unfolding found_ruleset
found_ruleset-ok by id s row h = elim (Option-cases (find (λ r. r.id == id) s.rulesets)) [
  | inl missing ↦ absurd (ground arith)
  | inr (x, found) ↦ (ground arith, ground arith)
]

log_ruleset-ok :
    (by : Staff) (row : EntityFormRuleset) (prior : List EntityFormRuleset)
    (x r : EntityFormRuleset) (s : Session)
    → ((log_ruleset by row prior >> pure x) s).0 ≡ ok r
    → (x ≡ r) × Holds ((log_ruleset by row prior >> pure x) s).1 s.rulesets s
log_ruleset-ok by row prior x r s h =
    let (h₁, k₁, e₁) = >>-ok (log_ruleset by row prior) (pure x) s h in
    let (_, e₂) =
      write_audit-ok by.firm_id 0 by.actor _ "entity_form_ruleset" (some row.id) _ s h₁ in
    let e = e₁ ∙ e₂ in
    (
      ground arith,
      record {
        of_rulesets = ap (λ (t : Session). t.rulesets) e;
        of_profiles = ap (λ (t : Session). t.profiles) e;
        of_guc = ap (λ (t : Session). t.guc) e;
      },
    )

switch_ruleset-ok :
    (by : Staff) (now : ℕ) (row : EntityFormRuleset) (s : Session) (r : EntityFormRuleset)
    → (switch_ruleset by now row s).0 ≡ ok r
    → (activated_ruleset by now row ≡ r)
      × Holds (switch_ruleset by now row s).1 (switch_rulesets by now row s).rulesets s
unfolding switch_ruleset
switch_ruleset-ok by now row s r h =
    let (e, w) =
      log_ruleset-ok by row (select (prior_ruleset row) s.rulesets) (activated_ruleset by now row) r
        (switch_rulesets by now row s) h in
    (e, record { of_rulesets = w.of_rulesets; of_profiles = w.of_profiles; of_guc = w.of_guc })

-- An activation that succeeds found the row, which was in force already, or which is now.
pub activate_ruleset-ok :
    (by : Staff) (id now : ℕ) (s : Session) (r : EntityFormRuleset)
    → (activate_ruleset by id now s).0 ≡ ok r
    → (row : EntityFormRuleset) × (find (λ r. r.id == id) s.rulesets ≡ some row)
      × (((is_active_ruleset row.status ≡ true)
            × (row ≡ r)
            × Holds (activate_ruleset by id now s).1 s.rulesets s)
          ⊎ ((activated_ruleset by now row ≡ r)
              × Holds (activate_ruleset by id now s).1 (switch_rulesets by now row s).rulesets s))
unfolding activate_ruleset activate_ruleset_found
activate_ruleset-ok by id now s r h =
    let (row, h₁, k₁, e₁) = >>=-ok (found_ruleset by id) (activate_ruleset_found by now) s h in
    let (found, same) = found_ruleset-ok by id s row h₁ in
    let k : (activate_ruleset_found by now row s).0 ≡ ok r =
      subst (λ t. (activate_ruleset_found by now row t).0 ≡ ok r) same k₁ in
    let e : (activate_ruleset by id now s).1 ≡ (activate_ruleset_found by now row s).1 =
      e₁ ∙ ap (λ t. (activate_ruleset_found by now row t).1) same in
    (row, found, rw e (found_outcome row k))
  where
    found_outcome :
        (row : EntityFormRuleset)
        → (activate_ruleset_found by now row s).0 ≡ ok r
        → ((is_active_ruleset row.status ≡ true)
            × (row ≡ r)
            × Holds (activate_ruleset_found by now row s).1 s.rulesets s)
          ⊎ ((activated_ruleset by now row ≡ r)
              × Holds
                  (activate_ruleset_found by now row s).1
                  (switch_rulesets by now row s).rulesets
                  s)
    found_outcome row k = elim (Bool-cases (is_active_ruleset row.status)) [
      | inl current ↦ inl (
        current,
        ground arith,
        rw current (record { of_rulesets = refl; of_profiles = refl; of_guc = refl }),
      )
      | inr due ↦ elim (Bool-cases (is_superseded_ruleset row.status)) [
        | inl over ↦ absurd (ground arith)
        | inr live ↦
            let e : activate_ruleset_found by now row s ≡ switch_ruleset by now row s =
              rw (due, live) refl in
            inr (rw e (switch_ruleset-ok by now row s r (ap (λ p. p.0) (sym e) ∙ k)))
      ]
    ]
