-- ===== src/Forms/Ruleset/Activation.antt =====
-- What the activation of a ruleset does to the lookups (app/domain/entity_form_ruleset.py).
use company_tax_and_accounti.Base.{
  ℕ, ◌≤◌, Bool, true, false, ◌&&◌, some, List, [], ◌∷◌, String, ◌==◌, ◌≡◌, refl, inl, inr, arith,
  find, select, count_if, Bool-cases, ==→eq, ==-refl,
}
use text.Mathlib.TextEquality.{eq_iff}
use text.Mathlib.TextPositions.{eq_refl}
use company_tax_and_accounti.Model.{EntityFormRuleset, is_active_ruleset}
use company_tax_and_accounti.Session.{Session, ok}
use company_tax_and_accounti.Registry.{select-none}
use company_tax_and_accounti.Registry.Switch.{
  Versions, IsKept, switched_own, switched_other, switched-ids,
}
use company_tax_and_accounti.Forms.Template.{Staff}
use company_tax_and_accounti.Forms.Ruleset.{
  same_pair, one_or_none, get_active_ruleset, activated_ruleset, superseded_ruleset,
  switch_rulesets,
}

abbrev pub in_force : String → ℕ → EntityFormRuleset → Bool
in_force entity_type tax_year r = same_pair entity_type tax_year r && is_active_ruleset r.status

-- The ids are keys, and one ruleset at most is in force for an entity type and a year.
pub record IsRulesets (rs : List EntityFormRuleset) : Type 0 where
  pub keyed : (id : ℕ) → count_if (λ r. r.id == id) rs ≤ 1
  pub sole : (entity_type : String) (tax_year : ℕ) → count_if (in_force entity_type tax_year) rs ≤ 1

pub one_or_none-sole :
    (p : EntityFormRuleset → Bool) (s : Session) (rs : List EntityFormRuleset)
    → count_if p rs ≤ 1
    → one_or_none (select p rs) s ≡ (ok (find p rs), s)
one_or_none-sole p s [] one = refl
one_or_none-sole p s (r ∷ rs) one = elim (Bool-cases (p r)) [
  | inl is ↦ let rest : select p rs ≡ [] = select-none p rs (ground arith) in rw (is, rest) refl
  | inr off ↦ rw off (one_or_none-sole p s rs (ground arith))
]

-- The lookup, over a valid table.
pub get_active_ruleset-find :
    (entity_type : String) (tax_year : ℕ) (s : Session)
    → IsRulesets s.rulesets
    → get_active_ruleset entity_type tax_year s
      ≡ (ok (find (in_force entity_type tax_year) s.rulesets), s)
unfolding get_active_ruleset
get_active_ruleset-find e y s i = one_or_none-sole (in_force e y) s s.rulesets (i.sole e y)

pub same_pair_self : (r : EntityFormRuleset) → same_pair r.entity_type r.tax_year r ≡ true
same_pair_self r = rw (eq_refl r.entity_type, ==-refl r.tax_year) refl

pub same_pair→eq :
    (e : String) (y : ℕ) (r : EntityFormRuleset)
    → same_pair e y r ≡ true
    → (r.entity_type ≡ e) × (r.tax_year ≡ y)
same_pair→eq e y r h =
    ((eq_iff r.entity_type e).0 (ground arith), ==→eq r.tax_year y (ground arith))

-- A row of one pair that is not the other has no row in common with it.
pairs_disjoint :
    (row : EntityFormRuleset) (e : String) (y : ℕ)
    → same_pair e y row ≡ false
    → (r : EntityFormRuleset)
    → (same_pair row.entity_type row.tax_year r && same_pair e y r) ≡ false
pairs_disjoint row e y away r =
    elim (Bool-cases (same_pair row.entity_type row.tax_year r && same_pair e y r)) [
      | inl both ↦
          let (a, b) = same_pair→eq row.entity_type row.tax_year r (ground arith) in
          let k : same_pair e y row ≡ true = rw (← a, ← b) (ground arith) in absurd (cc)
      | inr no_row ↦ no_row
    ]

versions : Staff → ℕ → Versions EntityFormRuleset
versions by now = record {
  id = λ r. r.id;
  active = λ r. is_active_ruleset r.status;
  activate = activated_ruleset by now;
  supersede = superseded_ruleset;
  activate-id = λ r. refl;
  supersede-id = λ r. refl;
  activate-active = λ r. refl;
  supersede-active = λ r. refl;
}

pair-IsKept : (by : Staff) (now : ℕ) (e : String) (y : ℕ) → IsKept (versions by now) (same_pair e y)
unfolding versions
pair-IsKept by now e y = record { of_activate = λ r. refl; of_supersede = λ r. refl }

module _ (by : Staff) (now : ℕ) (row : EntityFormRuleset) (s : Session) (i : IsRulesets s.rulesets)
    (found : find (λ r. r.id == row.id) s.rulesets ≡ some row) where
  -- The table after the switch.
  abbrev table : List EntityFormRuleset
  table = (switch_rulesets by now row s).rulesets

  pub table_own :
      (find (in_force row.entity_type row.tax_year) table ≡ some (activated_ruleset by now row))
      × (count_if (in_force row.entity_type row.tax_year) table
          ≡ count_if (λ r. r.id == row.id) s.rulesets)
  unfolding versions
  table_own =
      switched_own (versions by now) (same_pair row.entity_type row.tax_year) row.id
        (pair-IsKept by now row.entity_type row.tax_year) s.rulesets row (i.keyed row.id) found
        (same_pair_self row)

  pub table_other :
      (e : String) (y : ℕ)
      → same_pair e y row ≡ false
      → (find (in_force e y) table ≡ find (in_force e y) s.rulesets)
        × (count_if (in_force e y) table ≡ count_if (in_force e y) s.rulesets)
  unfolding versions
  table_other e y away =
      switched_other (versions by now) (same_pair row.entity_type row.tax_year) row.id
        (pair-IsKept by now row.entity_type row.tax_year) s.rulesets row (i.keyed row.id) found
        (same_pair_self row) (same_pair e y) (pair-IsKept by now e y) (pairs_disjoint row e y away)

  pub table-IsRulesets : IsRulesets table
  unfolding versions
  table-IsRulesets = record {
    keyed = λ id.
        rw
          (switched-ids (versions by now) (same_pair row.entity_type row.tax_year) row.id id
            s.rulesets)
          (i.keyed id);
    sole = λ e y. elim (Bool-cases (same_pair e y row)) [
      | inl of_row ↦
          let (a, b) = same_pair→eq e y row of_row in rw (← a, ← b, table_own.1) (i.keyed row.id)
      | inr away ↦ rw (table_other e y away).1 (i.sole e y)
    ];
  }
