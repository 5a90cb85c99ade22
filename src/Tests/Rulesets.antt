-- ===== src/Tests/Rulesets.antt =====
-- The rulesets of forms, at a small example.
use company_tax_and_accounti.Tests.{books}
use company_tax_and_accounti.Base.{some, [], ◌∷◌, ◌≡◌, refl, arith}
use company_tax_and_accounti.Model.{
  AccessScope, ClientProfile, EntityFormRulesetStatus, TaxFormCode,
}
use company_tax_and_accounti.Tenant.{visible}
use company_tax_and_accounti.Session.{
  Session, ok, err, multiple_results, needs_ruleset, ruleset_forbidden, write_audit,
}
use company_tax_and_accounti.Tax.Mapping.{Caller}
use company_tax_and_accounti.Forms.Ruleset.{
  get_active_ruleset, get_profile_for_client, coerce_required_forms, get_form_set_for_client,
  switch_ruleset, activate_ruleset_found, found_ruleset, activate_ruleset, insert_ruleset, drafted,
  default_ruleset, activated_ruleset, staff_of, client_pair, ensure_pair,
  ensure_active_ruleset_for_client,
}
use company_tax_and_accounti.Forms.Ruleset.Activation.{IsRulesets}
use company_tax_and_accounti.Forms.Ruleset.Ensured.{
  ensure_active_ruleset_for_client-get_form_set_for_client,
}

abbrev caller : Caller
caller = record { firm_id = 1; client_id = 1; actor = "cpa"; scope = AccessScope.firm }

abbrev profile : ClientProfile
profile = record { firm_id = 1; client_id = 1; entity_type = some "s_corp"; tax_year = some 2025 }

abbrev profiled : Session
profiled = record books { profiles = profile ∷ [] }

-- Two drafts of the pair of the client.
abbrev two_drafts : Session
two_drafts = record profiled {
  rulesets =
      default_ruleset "s_corp" 2025 [] 1
      ∷ record (default_ruleset "s_corp" 2025 [] 2) { version = "v2" }
      ∷ [];
}

refuses_without_ruleset : (get_form_set_for_client 1 profiled).0 ≡ err needs_ruleset
unfolding get_form_set_for_client get_profile_for_client get_active_ruleset visible
refuses_without_ruleset = refl

ensures_default :
    (get_form_set_for_client 1 (ensure_active_ruleset_for_client caller 7 9 profiled).1).0
    ≡ ok (TaxFormCode.f1120s ∷ [])
unfolding get_form_set_for_client get_profile_for_client get_active_ruleset coerce_required_forms
    ensure_active_ruleset_for_client client_pair ensure_pair drafted insert_ruleset activate_ruleset
    found_ruleset activate_ruleset_found switch_ruleset write_audit visible
ensures_default = refl

refuses_two_drafts :
    (ensure_active_ruleset_for_client caller 7 9 two_drafts).0 ≡ err multiple_results
unfolding ensure_active_ruleset_for_client client_pair ensure_pair get_profile_for_client
    get_active_ruleset drafted visible
refuses_two_drafts = refl

forbids_clients :
    (ensure_active_ruleset_for_client (record caller { scope = AccessScope.client }) 7 9 profiled).0
    ≡ err ruleset_forbidden
unfolding ensure_active_ruleset_for_client client_pair
forbids_clients = refl

-- A draft for the client's pair, and another pair with a ruleset in force.
abbrev one_draft : Session
one_draft = record profiled {
  rulesets =
      record (default_ruleset "c_corp" 2025 ("F1120" ∷ []) 3) {
        status = EntityFormRulesetStatus.active;
      }
      ∷ default_ruleset "s_corp" 2025 ("F1120S" ∷ "F0000" ∷ []) 5
      ∷ [];
}

one_draft-IsRulesets : IsRulesets one_draft.rulesets
one_draft-IsRulesets = record { keyed = λ id. ground arith; sole = λ e y. ground arith }

ensures_draft :
    (ensure_active_ruleset_for_client caller 7 9 one_draft).0
    ≡ ok (
        activated_ruleset
          (staff_of caller)
          9
          (default_ruleset "s_corp" 2025 ("F1120S" ∷ "F0000" ∷ []) 5))
unfolding ensure_active_ruleset_for_client client_pair ensure_pair get_profile_for_client
    get_active_ruleset drafted activate_ruleset found_ruleset activate_ruleset_found switch_ruleset
    write_audit visible
ensures_draft = refl

ensure_active_ruleset_for_client-get_form_set_for_client_example :
    IsRulesets (ensure_active_ruleset_for_client caller 7 9 one_draft).1.rulesets
    × (get_form_set_for_client 1 (ensure_active_ruleset_for_client caller 7 9 one_draft).1 ≡ (
      ok (coerce_required_forms ("F1120S" ∷ "F0000" ∷ [])),
      (ensure_active_ruleset_for_client caller 7 9 one_draft).1,
    ))
ensure_active_ruleset_for_client-get_form_set_for_client_example =
    ensure_active_ruleset_for_client-get_form_set_for_client caller 7 9 one_draft
      (activated_ruleset (staff_of caller) 9
        (default_ruleset "s_corp" 2025 ("F1120S" ∷ "F0000" ∷ []) 5))
      one_draft-IsRulesets ensures_draft
