-- ===== src/Forms/Ruleset/Ensured.antt =====
-- Which forms a client files once a ruleset was ensured (`ensure_active_ruleset_for_client` and
-- `get_form_set_for_client` of app/domain/entity_form_ruleset.py).
use mathlib.Core.Path.{subst}
use company_tax_and_accounti.Base.{
  ℕ, not, Option, Option-cases, none, some, List, String, ◌≡◌, refl, sym, ap, ◌∙◌, inl, inr, arith,
  find,
}
use company_tax_and_accounti.Model.{EntityFormRuleset, ClientProfile, TaxFormCode, is_firm}
use company_tax_and_accounti.Session.{
  Session, Action, ok, ◌>>=◌, pure, raise_if, or_raise, needs_ruleset, ruleset_forbidden,
}
use company_tax_and_accounti.Session.Binds.{>>=-ok, >>-ok, >>=-step}
use company_tax_and_accounti.Tax.Mapping.{Caller}
use company_tax_and_accounti.Forms.Ruleset.{
  get_active_ruleset, get_profile_for_client, pair_of, ruleset_of, coerce_required_forms,
  get_form_set_for_client, activate_ruleset, draft_or_default, drafted, staff_of, ensure_drafted,
  client_pair, ensure_pair, ensure_active_ruleset_for_client,
}
use company_tax_and_accounti.Forms.Ruleset.Activation.{
  IsRulesets, in_force, get_active_ruleset-find,
}
use company_tax_and_accounti.Forms.Ruleset.Writes.{activate_ruleset-ok}
use company_tax_and_accounti.Forms.Ruleset.Filing.{activate_ruleset-IsSwitched}
use company_tax_and_accounti.Forms.Ruleset.Drafted.{
  IsDrafted, one_or_none_state, drafted_state, draft_or_default-IsDrafted,
}

-- The ruleset `r` is in force for the pair, and the profiles and settings are those of `s`.
pub record IsEnsured (e : String) (y : ℕ) (r : EntityFormRuleset) (s t : Session) : Type 0 where
  pub valid : IsRulesets t.rulesets
  pub found : find (in_force e y) t.rulesets ≡ some r
  pub profiles : t.profiles ≡ s.profiles
  pub guc : t.guc ≡ s.guc

activate_drafted :
    (caller : Caller) (e : String) (y now : ℕ) (d r : EntityFormRuleset) (s t : Session)
    → IsDrafted e y d s t
    → (activate_ruleset (staff_of caller) d.id now t).0 ≡ ok r
    → IsEnsured e y r s (activate_ruleset (staff_of caller) d.id now t).1
activate_drafted caller e y now d r s t i h =
    let by = staff_of caller in
    let after = (activate_ruleset by d.id now t).1 in
    let w = activate_ruleset-IsSwitched by d.id now t r i.valid h in
    let (row, found, outcome) = activate_ruleset-ok by d.id now t r h in
    let same : row ≡ d = let k = i.found in ground arith in
    let a : row.entity_type ≡ e = ap (λ (x : EntityFormRuleset). x.entity_type) same ∙ i.of_type in
    let b : row.tax_year ≡ y = ap (λ (x : EntityFormRuleset). x.tax_year) same ∙ i.of_year in
    let finish : (r.entity_type ≡ row.entity_type)
        → (r.tax_year ≡ row.tax_year)
        → (after.profiles ≡ t.profiles)
        → (after.guc ≡ t.guc)
        → IsEnsured e y r s after =
      λ p q f g. record {
        valid = w.valid;
        found = rw (← p ∙ a, ← q ∙ b) w.own;
        profiles = f ∙ i.profiles;
        guc = g ∙ i.guc;
      } in
    elim outcome [
      | inl (_, is, v) ↦
          finish (ap (λ (x : EntityFormRuleset). x.entity_type) (sym is))
            (ap (λ (x : EntityFormRuleset). x.tax_year) (sym is)) v.of_profiles v.of_guc
      | inr (is, v) ↦
          finish (ap (λ (x : EntityFormRuleset). x.entity_type) (sym is))
            (ap (λ (x : EntityFormRuleset). x.tax_year) (sym is)) v.of_profiles v.of_guc
    ]

ensure_drafted-IsEnsured :
    (caller : Caller) (e : String) (y new_id now : ℕ) (o : Option EntityFormRuleset)
    (r : EntityFormRuleset) (s : Session)
    → IsRulesets s.rulesets
    → o ≡ find (in_force e y) s.rulesets
    → (ensure_drafted caller (e, y) new_id now o s).0 ≡ ok r
    → IsEnsured e y r s (ensure_drafted caller (e, y) new_id now o s).1
ensure_drafted-IsEnsured caller e y new_id now (some a) r s i same h =
    let is : a ≡ r = ground arith in
    record { valid = i; found = sym same ∙ ap some is; profiles = refl; guc = refl }
ensure_drafted-IsEnsured caller e y new_id now none r s i same h =
    let m = drafted e y >>= draft_or_default e y new_id in
    let (d, h₁, k₁, e₁) = >>=-ok m (λ draft. activate_ruleset (staff_of caller) draft.id now) s h in
    let (o, h₂, k₂, e₂) = >>=-ok (drafted e y) (draft_or_default e y new_id) s h₁ in
    let stays = drafted_state e y s in
    let e₃ : (m s).1 ≡ (draft_or_default e y new_id o s).1 =
      e₂ ∙ ap (λ t. (draft_or_default e y new_id o t).1) stays in
    let k₃ : (draft_or_default e y new_id o s).0 ≡ ok d =
      subst (λ t. (draft_or_default e y new_id o t).0 ≡ ok d) stays k₂ in
    let w : IsDrafted e y d s (m s).1 =
      subst (λ t. IsDrafted e y d s t) (sym e₃)
        (draft_or_default-IsDrafted e y new_id o s d i h₂ k₃) in
    rw e₁ (activate_drafted caller e y now d r s (m s).1 w k₁)

ensure_pair-IsEnsured :
    (caller : Caller) (e : String) (y new_id now : ℕ) (r : EntityFormRuleset) (s : Session)
    → IsRulesets s.rulesets
    → (ensure_pair caller new_id now (e, y) s).0 ≡ ok r
    → IsEnsured e y r s (ensure_pair caller new_id now (e, y) s).1
unfolding ensure_pair
ensure_pair-IsEnsured caller e y new_id now r s i h =
    let (o, h₁, k₁, e₁) =
      >>=-ok (get_active_ruleset e y) (ensure_drafted caller (e, y) new_id now) s h in
    let lookup = get_active_ruleset-find e y s i in
    let stays : (get_active_ruleset e y s).1 ≡ s = ap (λ p. p.1) lookup in
    let found : ok (find (in_force e y) s.rulesets) ≡ ok o = sym (ap (λ p. p.0) lookup) ∙ h₁ in
    let k₂ : (ensure_drafted caller (e, y) new_id now o s).0 ≡ ok r =
      subst (λ t. (ensure_drafted caller (e, y) new_id now o t).0 ≡ ok r) stays k₁ in
    let e₂ : (ensure_pair caller new_id now (e, y) s).1
        ≡ (ensure_drafted caller (e, y) new_id now o s).1 =
      e₁ ∙ ap (λ t. (ensure_drafted caller (e, y) new_id now o t).1) stays in
    rw e₂ (ensure_drafted-IsEnsured caller e y new_id now o r s i (ground arith) k₂)

get_profile_for_client_state :
    (id : ℕ) (s t : Session)
    → t.profiles ≡ s.profiles
    → t.guc ≡ s.guc
    → get_profile_for_client id t ≡ ((get_profile_for_client id s).0, t)
unfolding get_profile_for_client
get_profile_for_client_state id s t a b =
    one_or_none_state _ t s ∙ ap (λ r. (r, t)) (rw (a, b) refl)

abbrev pair_or_raise : Option ClientProfile → Action (String × ℕ)
pair_or_raise o = or_raise o needs_ruleset >>= λ p. or_raise (pair_of p) needs_ruleset

pair_or_raise-ok :
    (o : Option ClientProfile) (s : Session) (pair : String × ℕ)
    → (pair_or_raise o s).0 ≡ ok pair
    → ((pair_or_raise o s).1 ≡ s) × ((p : ClientProfile) × (o ≡ some p) × (pair_of p ≡ some pair))
pair_or_raise-ok none s pair h = absurd (cc)
pair_or_raise-ok (some p) s pair h = elim (Option-cases (pair_of p)) [
  | inl missing ↦ absurd (ground arith)
  | inr (q, is) ↦ (rw is refl, (p, refl, ground arith))
]

client_pair-ok :
    (caller : Caller) (s : Session) (pair : String × ℕ)
    → (client_pair caller s).0 ≡ ok pair
    → ((client_pair caller s).1 ≡ s)
      × ((p : ClientProfile) × ((get_profile_for_client caller.client_id s).0 ≡ ok (some p))
          × (pair_of p ≡ some pair))
unfolding client_pair
client_pair-ok caller s pair h =
    let read = get_profile_for_client caller.client_id in
    let (h₁, k₁, e₁) =
      >>-ok (raise_if (not (is_firm caller.scope)) ruleset_forbidden) (read >>= pair_or_raise) s
        h in
    let (o, h₂, k₂, e₂) = >>=-ok read pair_or_raise s k₁ in
    let (e₃, (p, is, has)) = pair_or_raise-ok o (read s).1 pair k₂ in
    let stays = ap (λ q. q.1) (get_profile_for_client_state caller.client_id s s refl refl) in
    (e₁ ∙ e₂ ∙ e₃ ∙ stays, (p, h₂ ∙ ap ok is, has))

abbrev forms_or_raise : Option EntityFormRuleset → Action (List TaxFormCode)
forms_or_raise o = or_raise o needs_ruleset >>= λ r. pure (coerce_required_forms r.required_forms)

abbrev forms_of : Option ClientProfile → Action (List TaxFormCode)
forms_of o = or_raise o needs_ruleset >>= λ p. ruleset_of (pair_of p) >>= forms_or_raise

-- With a profile of the pair and a ruleset in force, the client's forms are those of the ruleset.
form_set :
    (id : ℕ) (e : String) (y : ℕ) (p : ClientProfile) (r : EntityFormRuleset) (s t : Session)
    → IsEnsured e y r s t
    → (get_profile_for_client id s).0 ≡ ok (some p)
    → pair_of p ≡ some (e, y)
    → get_form_set_for_client id t ≡ (ok (coerce_required_forms r.required_forms), t)
unfolding get_form_set_for_client
form_set id e y p r s t w h k =
    let profile : get_profile_for_client id t ≡ (ok (some p), t) =
      get_profile_for_client_state id s t w.profiles w.guc ∙ ap (λ q. (q, t)) h in
    let lookup : get_active_ruleset e y t ≡ (ok (some r), t) =
      get_active_ruleset-find e y t w.valid ∙ ap (λ q. (ok q, t)) w.found in
    >>=-step (get_profile_for_client id) forms_of t t (some p) profile
    ∙ ap (λ o. (ruleset_of o >>= forms_or_raise) t) k
    ∙ >>=-step (get_active_ruleset e y) forms_or_raise t t (some r) lookup

-- In a valid table of rulesets, after ensuring a ruleset for a client succeeded the table is valid,
-- and the forms that the client files are exactly those of the returned ruleset: neither lookup
-- refuses, and no session is changed by them.
pub ensure_active_ruleset_for_client-get_form_set_for_client :
    (caller : Caller) (new_id now : ℕ) (s : Session) (r : EntityFormRuleset)
    → IsRulesets s.rulesets
    → (ensure_active_ruleset_for_client caller new_id now s).0 ≡ ok r
    → IsRulesets (ensure_active_ruleset_for_client caller new_id now s).1.rulesets
      × (get_form_set_for_client caller.client_id
            (ensure_active_ruleset_for_client caller new_id now s).1
          ≡ (
            ok (coerce_required_forms r.required_forms),
            (ensure_active_ruleset_for_client caller new_id now s).1,
          ))
unfolding ensure_active_ruleset_for_client
ensure_active_ruleset_for_client-get_form_set_for_client caller new_id now s r i h =
    let ((e, y), h₁, k₁, e₁) = >>=-ok (client_pair caller) (ensure_pair caller new_id now) s h in
    let (stays, (p, profile, pair)) = client_pair-ok caller s (e, y) h₁ in
    let k : (ensure_pair caller new_id now (e, y) s).0 ≡ ok r =
      subst (λ t. (ensure_pair caller new_id now (e, y) t).0 ≡ ok r) stays k₁ in
    let same : (ensure_active_ruleset_for_client caller new_id now s).1
        ≡ (ensure_pair caller new_id now (e, y) s).1 =
      e₁ ∙ ap (λ t. (ensure_pair caller new_id now (e, y) t).1) stays in
    let w = ensure_pair-IsEnsured caller e y new_id now r s i k in
    let after = (ensure_pair caller new_id now (e, y) s).1 in
    rw same (w.valid, form_set caller.client_id e y p r s after w profile pair)
