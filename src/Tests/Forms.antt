-- ===== src/Tests/Forms.antt =====
-- The registry of form templates, at a small example.
use company_tax_and_accounti.Tests.{books}
use company_tax_and_accounti.Base.{true, Option, none, some, [], ◌∷◌, String, ◌≡◌, refl, arith}
use company_tax_and_accounti.Model.{AccessScope, FormTemplate, FormTemplateStatus, TaxFormCode}
use company_tax_and_accounti.Tenant.{visible}
use company_tax_and_accounti.Session.{Session, ok, write_audit}
use company_tax_and_accounti.Forms.Template.{
  Staff, Registration, get_active_verified, registrable, insert_template, register_template,
  found_template, refuse_template, switch_template, activate_found, activate_template,
  activated_by_staff, verified_by_staff, new_template,
}
use company_tax_and_accounti.Forms.Template.Current.{IsRegistry, current}
use company_tax_and_accounti.Forms.Template.Refinement.{
  registering, activating, operate, start, step, Reached-IsRegistry, operate-effect,
  get_active_verified-current,
}
use company_tax_and_accounti.Forms.Template.Publication.{publish, publish-get_active_verified}

abbrev no_file : String → Option String
no_file path = none

abbrev staff : Staff
staff = record { firm_id = 1; actor = "cpa"; scope = AccessScope.firm }

abbrev form_1120 : Registration
form_1120 = record {
  form_code = TaxFormCode.f1120;
  tax_year = 2025;
  revision = "2025.01";
  local_template_path = "f1120.pdf";
  sha256 = none;
}

abbrev old : FormTemplate
old = record {
  id = 1;
  form_code = TaxFormCode.f1120;
  tax_year = 2025;
  revision = "2025.00";
  status = FormTemplateStatus.active;
  verified = true;
  local_template_path = "f1120.pdf";
  sha256 = "";
  verified_at = none;
  verified_by = none;
  activated_at = none;
  activated_by = none;
}

abbrev next : FormTemplate
next = record old { id = 2; revision = "2025.01"; status = FormTemplateStatus.draft }

abbrev two_versions : Session
two_versions = record books { form_templates = old ∷ next ∷ [] }

two_versions-IsRegistry : IsRegistry two_versions.form_templates
two_versions-IsRegistry = record {
  keyed = λ id. ground arith;
  sole = λ c y. ground arith;
  checked = (refl, (refl, tt));
}

registers :
    (operate no_file
      (registering staff (record form_1120 { revision = "2025.02" }) 3)
      two_versions).0
    ≡ ok (new_template no_file (record form_1120 { revision = "2025.02" }) 3)
unfolding operate register_template registrable insert_template write_audit visible
registers = refl

activates :
    (operate no_file (activating staff 2 9) two_versions).0 ≡ ok (activated_by_staff staff 9 next)
unfolding operate activate_template found_template activate_found refuse_template switch_template
    write_audit visible
activates = refl

Reached-IsRegistry_example :
    IsRegistry (operate no_file (activating staff 2 9) two_versions).1.form_templates
Reached-IsRegistry_example =
    Reached-IsRegistry no_file two_versions (operate no_file (activating staff 2 9) two_versions).1
      two_versions-IsRegistry
      (step (activating staff 2 9) two_versions (activated_by_staff staff 9 next) start activates)

operate-effect_example :
    current (operate no_file (activating staff 2 9) two_versions).1 TaxFormCode.f1120 2025
    ≡ some (activated_by_staff staff 9 next)
operate-effect_example =
    operate-effect no_file (activating staff 2 9) two_versions (activated_by_staff staff 9 next)
      two_versions-IsRegistry activates TaxFormCode.f1120 2025

get_active_verified-current_example :
    get_active_verified TaxFormCode.f1120 2025 two_versions ≡ (ok old, two_versions)
get_active_verified-current_example =
    get_active_verified-current two_versions TaxFormCode.f1120 2025 two_versions-IsRegistry

empty-IsRegistry : IsRegistry books.form_templates
empty-IsRegistry = record { keyed = λ id. ground arith; sole = λ c y. ground arith; checked = tt }

publish-get_active_verified_example :
    ((publish no_file staff form_1120 1 2 3 books).0
      ≡ ok (
          activated_by_staff staff 3
            (verified_by_staff staff 2 (new_template no_file form_1120 1))))
    × (get_active_verified TaxFormCode.f1120 2025 (publish no_file staff form_1120 1 2 3 books).1
        ≡ (
          ok (
              activated_by_staff staff 3
                (verified_by_staff staff 2 (new_template no_file form_1120 1))),
          (publish no_file staff form_1120 1 2 3 books).1,
        ))
unfolding visible
publish-get_active_verified_example =
    publish-get_active_verified no_file staff form_1120 1 2 3 books empty-IsRegistry refl refl refl
      refl
