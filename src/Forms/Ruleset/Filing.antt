-- ===== src/Forms/Ruleset/Filing.antt =====
-- Which forms a client files after the rulesets changed (app/domain/entity_form_ruleset.py).
use mathlib.Core.Path.{subst}
use company_tax_and_accounti.Base.{
  ℕ, false, some, List, String, ◌==◌, ◌≡◌, refl, sym, ap, ◌∙◌, inl, inr, find, ==→eq,
}
use company_tax_and_accounti.Model.{EntityFormRuleset}
use company_tax_and_accounti.Session.{Session, ok}
use company_tax_and_accounti.Registry.{find-sole, find_passes}
use company_tax_and_accounti.Forms.Template.{Staff}
use company_tax_and_accounti.Forms.Ruleset.{
  same_pair, get_active_ruleset, switch_rulesets, activate_ruleset,
}
use company_tax_and_accounti.Forms.Ruleset.Activation.{
  IsRulesets, in_force, get_active_ruleset-find, same_pair_self, table_own, table_other,
  table-IsRulesets,
}
use company_tax_and_accounti.Forms.Ruleset.Writes.{activate_ruleset-ok}

-- What an activation that returned `r` leaves: a valid table, in which `r` is in force for its
-- pair, and the other pairs keep their rulesets.
pub record IsSwitched (r : EntityFormRuleset) (before after : List EntityFormRuleset) : Type 0 where
  pub valid : IsRulesets after
  pub own : find (in_force r.entity_type r.tax_year) after ≡ some r
  pub other :
      (e : String) (y : ℕ)
      → same_pair e y r ≡ false
      → find (in_force e y) after ≡ find (in_force e y) before

pub activate_ruleset-IsSwitched :
    (by : Staff) (id now : ℕ) (s : Session) (r : EntityFormRuleset)
    → IsRulesets s.rulesets
    → (activate_ruleset by id now s).0 ≡ ok r
    → IsSwitched r s.rulesets (activate_ruleset by id now s).1.rulesets
activate_ruleset-IsSwitched by id now s r i h =
    let (row, found, outcome) = activate_ruleset-ok by id now s r h in
    elim outcome [
      | inl (live, same, w) ↦
          let live_r : find (in_force row.entity_type row.tax_year) s.rulesets ≡ some row =
            find-sole (in_force row.entity_type row.tax_year) (λ r. r.id == id) s.rulesets row found
              (rw (same_pair_self row, live) refl) (i.sole row.entity_type row.tax_year) in
          rw w.of_rulesets (
            subst (λ x. IsSwitched x s.rulesets s.rulesets) same
              (record { valid = i; own = live_r; other = λ e y away. refl }))
      | inr (same, w) ↦
          let is : row.id ≡ id =
            ==→eq row.id id (find_passes (λ r. r.id == id) s.rulesets row found) in
          let found' : find (λ r. r.id == row.id) s.rulesets ≡ some row =
            subst (λ n. find (λ r. r.id == n) s.rulesets ≡ some row) (sym is) found in
          rw w.of_rulesets (
            subst (λ x. IsSwitched x s.rulesets (switch_rulesets by now row s).rulesets) same
              (record {
                valid = table-IsRulesets by now row s i found';
                own = (table_own by now row s i found').0;
                other = λ e y away. (table_other by now row s i found' e y away).0;
              }))
    ]

-- In a valid table of rulesets, after an activation that succeeds the table is valid, the lookup
-- for the entity type and year of the returned ruleset returns it, and every other lookup returns
-- what it did before.
pub activate_ruleset-get_active_ruleset :
    (by : Staff) (id now : ℕ) (s : Session) (r : EntityFormRuleset)
    → IsRulesets s.rulesets
    → (activate_ruleset by id now s).0 ≡ ok r
    → IsRulesets (activate_ruleset by id now s).1.rulesets
      × (get_active_ruleset r.entity_type r.tax_year (activate_ruleset by id now s).1
          ≡ (ok (some r), (activate_ruleset by id now s).1))
      × ((e : String) (y : ℕ)
          → same_pair e y r ≡ false
          → (get_active_ruleset e y (activate_ruleset by id now s).1).0
            ≡ (get_active_ruleset e y s).0)
activate_ruleset-get_active_ruleset by id now s r i h =
    let after = (activate_ruleset by id now s).1 in
    let w = activate_ruleset-IsSwitched by id now s r i h in
    (
      w.valid,
      get_active_ruleset-find r.entity_type r.tax_year after w.valid
          ∙ ap (λ x. (ok x, after)) w.own,
      λ e y away.
          ap (λ p. p.0) (get_active_ruleset-find e y after w.valid)
          ∙ ap ok (w.other e y away)
          ∙ ap (λ p. p.0) (sym (get_active_ruleset-find e y s i)),
    )
