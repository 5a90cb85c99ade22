-- ===== src/Forms/Ruleset.antt =====
-- Which tax forms a client has to file (app/domain/entity_form_ruleset.py): the rulesets of entity
-- types and years, and the client's profile (`get_profile_for_client` of
-- app/domain/client_profile.py).
use company_tax_and_accounti.Base.{
  ℕ, Bool, not, ◌&&◌, ◌||◌, Option, none, some, List, [], ◌∷◌, ◌++◌, String, ◌==◌, if◌then◌else◌,
  find, any, select, update_if, map,
}
use company_tax_and_accounti.Model.{
  EntityFormRuleset, EntityFormRulesetStatus, ClientProfile, TaxFormCode, AuditAction, is_firm,
  is_active_ruleset, is_draft_ruleset, is_superseded_ruleset, ruleset_details,
}
use text.Mathlib.Text.{◌==◌ as str_eq}
use company_tax_and_accounti.Tenant.{visible}
use company_tax_and_accounti.Session.{
  Session, Action, integrity_error, ruleset_forbidden, ruleset_not_found, ruleset_state,
  needs_ruleset, multiple_results, ok, err, ◌>>=◌, ◌>>◌, pure, raise, raise_if, or_raise, gets,
  modify, write_audit,
}
use company_tax_and_accounti.Forms.Template.{Staff}
use company_tax_and_accounti.Tax.Mapping.{Caller}
pub mod Activation
pub mod Writes
pub mod Filing
pub mod Drafted
pub mod Ensured

-- `_DEFAULT_REQUIRED_FORMS`, as the values of the codes.
abbrev pub default_required_forms : String → List String
default_required_forms entity_type =
    if str_eq entity_type "c_corp"
    then "F1120" ∷ []
    else if str_eq entity_type "s_corp"
    then "F1120S" ∷ []
    else if str_eq entity_type "partnership"
    then "F1065" ∷ []
    else if str_eq entity_type "single_member_llc" || str_eq entity_type "sole_prop"
    then "F1040SC" ∷ []
    else []

-- `TaxFormCode(code)`
abbrev pub form_of : String → Option TaxFormCode
form_of code =
    if str_eq code "F1120"
    then some TaxFormCode.f1120
    else if str_eq code "F1120S"
    then some TaxFormCode.f1120s
    else if str_eq code "F1065"
    then some TaxFormCode.f1065
    else if str_eq code "F1040SC"
    then some TaxFormCode.f1040sc
    else none

-- `_coerce_required_forms`: unknown codes are dropped.
unfoldable pub coerce_required_forms : List String → List TaxFormCode
coerce_required_forms [] = []
coerce_required_forms (code ∷ codes) = elim (form_of code) [
  | none ↦ coerce_required_forms codes
  | some f ↦ f ∷ coerce_required_forms codes
]

abbrev pub same_pair : String → ℕ → EntityFormRuleset → Bool
same_pair entity_type tax_year r = str_eq r.entity_type entity_type && r.tax_year == tax_year

-- `scalar_one_or_none`
abbrev pub one_or_none : {A : Type 0} → List A → Action (Option A)
one_or_none [] = pure none
one_or_none (x ∷ []) = pure (some x)
one_or_none (x ∷ y ∷ more) = raise multiple_results

-- `get_active_ruleset`
unfoldable pub get_active_ruleset : String → ℕ → Action (Option EntityFormRuleset)
get_active_ruleset entity_type tax_year s =
    one_or_none
      (select (λ r. same_pair entity_type tax_year r && is_active_ruleset r.status) s.rulesets) s

-- `get_profile_for_client`
unfoldable pub get_profile_for_client : ℕ → Action (Option ClientProfile)
get_profile_for_client client_id s =
    one_or_none
      (select (λ p. p.client_id == client_id && visible s.guc p.firm_id p.client_id) s.profiles) s

-- A profile's pair, where it has both.
abbrev pub pair_of : ClientProfile → Option (String × ℕ)
pair_of p = elim p.entity_type [
  | none ↦ none
  | some e ↦ elim p.tax_year [ none ↦ none | some y ↦ some (e, y) ]
]

-- The ruleset of a profile; no row is equal to a NULL.
abbrev pub ruleset_of : Option (String × ℕ) → Action (Option EntityFormRuleset)
ruleset_of none = pure none
ruleset_of (some (e, y)) = get_active_ruleset e y

-- `get_form_set_for_client`
unfoldable pub get_form_set_for_client : ℕ → Action (List TaxFormCode)
get_form_set_for_client client_id = do
  profile ← or_raise (← get_profile_for_client client_id) needs_ruleset
  rules ← or_raise (← ruleset_of (pair_of profile)) needs_ruleset
  pure (coerce_required_forms rules.required_forms)

abbrev pub superseded_ruleset : EntityFormRuleset → EntityFormRuleset
superseded_ruleset r = record r { status = EntityFormRulesetStatus.superseded }

abbrev pub activated_ruleset : Staff → ℕ → EntityFormRuleset → EntityFormRuleset
activated_ruleset by now r = record r {
  status = EntityFormRulesetStatus.active;
  activated_at = some now;
  activated_by = some by.actor;
}

abbrev pub prior_ruleset : EntityFormRuleset → EntityFormRuleset → Bool
prior_ruleset row r =
    same_pair row.entity_type row.tax_year r && (is_active_ruleset r.status && not (r.id == row.id))

-- The table after an activation.
abbrev pub switch_rulesets : Staff → ℕ → EntityFormRuleset → Session → Session
switch_rulesets by now row s = record s {
  rulesets =
      update_if (λ r. r.id == row.id) (activated_ruleset by now)
        (update_if (prior_ruleset row) superseded_ruleset s.rulesets);
}

abbrev pub log_ruleset : Staff → EntityFormRuleset → List EntityFormRuleset → Action (Unit {0})
log_ruleset by row prior =
    write_audit by.firm_id 0 by.actor AuditAction.entity_form_ruleset_activate "entity_form_ruleset"
      (some row.id)
      (ruleset_details row.entity_type row.tax_year row.version row.required_forms
        (map (λ r. r.id) prior))

unfoldable pub switch_ruleset : Staff → ℕ → EntityFormRuleset → Action EntityFormRuleset
switch_ruleset by now row s =
    let prior = select (prior_ruleset row) s.rulesets in
    (modify (switch_rulesets by now row)
        >> (log_ruleset by row prior >> pure (activated_ruleset by now row)))
      s

unfoldable pub activate_ruleset_found : Staff → ℕ → EntityFormRuleset → Action EntityFormRuleset
activate_ruleset_found by now row s =
    if is_active_ruleset row.status
    then (ok row, s)
    else if is_superseded_ruleset row.status
    then (err ruleset_state, s)
    else switch_ruleset by now row s

-- The reads of `activate_ruleset`.
unfoldable pub found_ruleset : Staff → ℕ → Action EntityFormRuleset
found_ruleset by ruleset_id = do
  raise_if (not (is_firm by.scope)) ruleset_forbidden
  or_raise (← gets (λ s. find (λ r. r.id == ruleset_id) s.rulesets)) ruleset_not_found

-- `activate_ruleset`
unfoldable pub activate_ruleset : Staff → ℕ → ℕ → Action EntityFormRuleset
activate_ruleset by ruleset_id now = found_ruleset by ruleset_id >>= activate_ruleset_found by now

-- The primary key, and the unique key of the pair and the version.
unfoldable pub insert_ruleset : EntityFormRuleset → Action (Unit {0})
insert_ruleset r s =
    if any (λ x. x.id == r.id) s.rulesets
    then (err integrity_error, s)
    else if any (λ x. same_pair r.entity_type r.tax_year x && str_eq x.version r.version) s.rulesets
    then (err integrity_error, s)
    else (ok tt, record s { rulesets = s.rulesets ++ (r ∷ []) })

abbrev pub default_ruleset : String → ℕ → List String → ℕ → EntityFormRuleset
default_ruleset entity_type tax_year forms new_id = record {
  id = new_id;
  entity_type = entity_type;
  tax_year = tax_year;
  version = "v1";
  status = EntityFormRulesetStatus.draft;
  required_forms = forms;
  notes = some "Auto-created from default entity-form ruleset map.";
  activated_at = none;
  activated_by = none;
}

-- The default draft, where the entity type has one.
abbrev pub create_default : String → ℕ → ℕ → List String → Action EntityFormRuleset
create_default entity_type tax_year new_id [] = raise needs_ruleset
create_default entity_type tax_year new_id (f ∷ forms) =
    insert_ruleset (default_ruleset entity_type tax_year (f ∷ forms) new_id)
    >> pure (default_ruleset entity_type tax_year (f ∷ forms) new_id)

abbrev pub draft_or_default : String → ℕ → ℕ → Option EntityFormRuleset → Action EntityFormRuleset
draft_or_default entity_type tax_year new_id (some r) = pure r
draft_or_default entity_type tax_year new_id none =
    create_default entity_type tax_year new_id (default_required_forms entity_type)

-- The drafts of a pair are read by `scalar_one_or_none`, although the query orders them.
unfoldable pub drafted : String → ℕ → Action (Option EntityFormRuleset)
drafted entity_type tax_year s =
    one_or_none
      (select (λ r. same_pair entity_type tax_year r && is_draft_ruleset r.status) s.rulesets) s

abbrev pub staff_of : Caller → Staff
staff_of caller = record { firm_id = caller.firm_id; actor = caller.actor; scope = caller.scope }

abbrev pub ensure_drafted :
    Caller → String × ℕ → ℕ → ℕ → Option EntityFormRuleset → Action EntityFormRuleset
ensure_drafted caller (e, y) new_id now (some active) = pure active
ensure_drafted caller (e, y) new_id now none =
    drafted e y >>= draft_or_default e y new_id >>= λ draft.
    activate_ruleset (staff_of caller) draft.id now

-- The reads of `ensure_active_ruleset_for_client` before the rulesets.
unfoldable pub client_pair : Caller → Action (String × ℕ)
client_pair caller = do
  raise_if (not (is_firm caller.scope)) ruleset_forbidden
  profile ← or_raise (← get_profile_for_client caller.client_id) needs_ruleset
  or_raise (pair_of profile) needs_ruleset

unfoldable pub ensure_pair : Caller → ℕ → ℕ → String × ℕ → Action EntityFormRuleset
ensure_pair caller new_id now pair =
    get_active_ruleset pair.0 pair.1 >>= ensure_drafted caller pair new_id now

-- `ensure_active_ruleset_for_client`
unfoldable pub ensure_active_ruleset_for_client : Caller → ℕ → ℕ → Action EntityFormRuleset
ensure_active_ruleset_for_client caller new_id now =
    client_pair caller >>= ensure_pair caller new_id now
