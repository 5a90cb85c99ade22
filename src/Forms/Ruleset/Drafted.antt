-- ===== src/Forms/Ruleset/Drafted.antt =====
-- The draft that `ensure_active_ruleset_for_client` finds or creates
-- (app/domain/entity_form_ruleset.py).
use mathlib.Core.Path.{subst}
use company_tax_and_accounti.Base.{
  ℕ, Bool, true, false, ◌&&◌, Option, none, some, List, [], ◌∷◌, ◌++◌, String, ◌==◌, ◌≡◌, refl, ap,
  ◌∙◌, inl, inr, arith, find, any, select, count_if, Bool-cases, ==→eq, ==-refl,
}
use company_tax_and_accounti.Model.{EntityFormRuleset, is_draft_ruleset}
use company_tax_and_accounti.Session.{Session, ok, pure}
use company_tax_and_accounti.Session.Binds.{>>-ok}
use company_tax_and_accounti.Registry.{find-sole, find_passes, find-new, count_if-append, any-none}
use company_tax_and_accounti.Forms.Ruleset.{
  same_pair, one_or_none, insert_ruleset, default_ruleset, create_default, draft_or_default,
  default_required_forms, drafted,
}
use company_tax_and_accounti.Forms.Ruleset.Activation.{IsRulesets, in_force, same_pair→eq}

-- The session `t` has the profiles and settings of `s` and a valid table in which `d` is a row of
-- the pair.
pub record IsDrafted (e : String) (y : ℕ) (d : EntityFormRuleset) (s t : Session) : Type 0 where
  pub valid : IsRulesets t.rulesets
  pub found : find (λ r. r.id == d.id) t.rulesets ≡ some d
  pub of_type : d.entity_type ≡ e
  pub of_year : d.tax_year ≡ y
  pub profiles : t.profiles ≡ s.profiles
  pub guc : t.guc ≡ s.guc

select-sole :
    (p : EntityFormRuleset → Bool) (rs : List EntityFormRuleset) (d : EntityFormRuleset)
    → select p rs ≡ d ∷ []
    → find p rs ≡ some d
select-sole p [] d h = absurd (cc)
select-sole p (r ∷ rs) d h = elim (Bool-cases (p r)) [
  | inl is ↦ ground arith
  | inr off ↦ rw off (select-sole p rs d (ground arith))
]

pub one_or_none_state :
    {A : Type 0} (xs : List A) (s t : Session) → one_or_none xs s ≡ ((one_or_none xs t).0, s)
one_or_none_state [] s t = refl
one_or_none_state (x ∷ []) s t = refl
one_or_none_state (x ∷ y ∷ more) s t = refl

one_or_none-some :
    {A : Type 0} (xs : List A) (s : Session) (d : A)
    → (one_or_none xs s).0 ≡ ok (some d)
    → xs ≡ d ∷ []
one_or_none-some [] s d h = absurd (cc)
one_or_none-some (x ∷ []) s d h = ground arith
one_or_none-some (x ∷ y ∷ more) s d h = absurd (cc)

-- A new draft leaves the table valid.
new_draft-IsRulesets :
    (rs : List EntityFormRuleset) (d : EntityFormRuleset)
    → IsRulesets rs
    → any (λ r. r.id == d.id) rs ≡ false
    → is_draft_ruleset d.status ≡ true
    → IsRulesets (rs ++ (d ∷ []))
new_draft-IsRulesets rs d i new idle = record {
  keyed = λ id. rw (count_if-append (λ r. r.id == id) rs d) (elim (Bool-cases (d.id == id)) [
    | inl same ↦
        let e : d.id ≡ id = ==→eq d.id id same in
        let none_has : count_if (λ r. r.id == id) rs ≡ 0 =
          any-none (λ r. r.id == id) rs (subst (λ n. any (λ r. r.id == n) rs ≡ false) e new) in
        rw (none_has, same) (ground arith)
    | inr other ↦ let k = i.keyed id in rw other (ground arith)
  ]);
  sole = λ e y.
      let k = i.sole e y in
      let off : in_force e y d ≡ false = ground arith in
      rw (count_if-append (in_force e y) rs d, off) (ground arith);
}

insert_ruleset-ok :
    (d : EntityFormRuleset) (s : Session)
    → (insert_ruleset d s).0 ≡ ok tt
    → (any (λ r. r.id == d.id) s.rulesets ≡ false)
      × ((insert_ruleset d s).1 ≡ record s { rulesets = s.rulesets ++ (d ∷ []) })
unfolding insert_ruleset
insert_ruleset-ok d s h = ground arith

create_default-IsDrafted :
    (e : String) (y new_id : ℕ) (forms : List String) (s : Session) (d : EntityFormRuleset)
    → IsRulesets s.rulesets
    → (create_default e y new_id forms s).0 ≡ ok d
    → IsDrafted e y d s (create_default e y new_id forms s).1
create_default-IsDrafted e y new_id [] s d i h = absurd (cc)
create_default-IsDrafted e y new_id (f ∷ forms) s d i h =
    let row = default_ruleset e y (f ∷ forms) new_id in
    let (h₁, k₁, e₁) = >>-ok (insert_ruleset row) (pure row) s h in
    let (new, e₂) = insert_ruleset-ok row s h₁ in
    let same : row ≡ d = ground arith in
    rw (e₁ ∙ e₂) (
      subst (λ x. IsDrafted e y x s (record s { rulesets = s.rulesets ++ (row ∷ []) })) same
        (record {
          valid = new_draft-IsRulesets s.rulesets row i new refl;
          found = find-new (λ r. r.id == new_id) s.rulesets row new (==-refl new_id);
          of_type = refl;
          of_year = refl;
          profiles = refl;
          guc = refl;
        }))

pub drafted_state : (e : String) (y : ℕ) (s : Session) → (drafted e y s).1 ≡ s
unfolding drafted
drafted_state e y s =
    ap (λ p. p.1)
      (one_or_none_state (select (λ r. same_pair e y r && is_draft_ruleset r.status) s.rulesets) s
        s)

drafted-IsDrafted :
    (e : String) (y : ℕ) (s : Session) (d : EntityFormRuleset)
    → IsRulesets s.rulesets
    → (drafted e y s).0 ≡ ok (some d)
    → IsDrafted e y d s s
unfolding drafted
drafted-IsDrafted e y s d i h =
    let p = λ (r : EntityFormRuleset). same_pair e y r && is_draft_ruleset r.status in
    let first : find p s.rulesets ≡ some d =
      select-sole p s.rulesets d (one_or_none-some (select p s.rulesets) s d h) in
    let passes = find_passes p s.rulesets d first in
    let (a, b) = same_pair→eq e y d (ground arith) in
    record {
      valid = i;
      found = find-sole (λ r. r.id == d.id) p s.rulesets d first (==-refl d.id) (i.keyed d.id);
      of_type = a;
      of_year = b;
      profiles = refl;
      guc = refl;
    }

pub draft_or_default-IsDrafted :
    (e : String) (y new_id : ℕ) (o : Option EntityFormRuleset) (s : Session) (d : EntityFormRuleset)
    → IsRulesets s.rulesets
    → (drafted e y s).0 ≡ ok o
    → (draft_or_default e y new_id o s).0 ≡ ok d
    → IsDrafted e y d s (draft_or_default e y new_id o s).1
draft_or_default-IsDrafted e y new_id none s d i h k =
    create_default-IsDrafted e y new_id (default_required_forms e) s d i k
draft_or_default-IsDrafted e y new_id (some x) s d i h k =
    let same : x ≡ d = ground arith in drafted-IsDrafted e y s d i (h ∙ ap (λ z. ok (some z)) same)
