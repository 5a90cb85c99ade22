-- ===== src/Tests/Bulk.antt =====
-- The bulk operations on the example books.
use company_tax_and_accounti.Base.{ℕ, ◌+◌, ◌≡◌, refl, [], ◌∷◌, select, ◌==◌}
use company_tax_and_accounti.Model.{TaxForm, TaxFormCode, TaxMappingStatus}
use company_tax_and_accounti.Tenant.{visible}
use company_tax_and_accounti.Session.{Session, ok, write_audit}
use company_tax_and_accounti.Tax.Mapping.{get_form_by_code, propose_mapping, insert_mapping}
use company_tax_and_accounti.Tax.Worksheet.{put, by_account}
use company_tax_and_accounti.Tax.Rules.{rules_of, fallback_of}
use company_tax_and_accounti.Tax.Automap.{
  auto_propose_mappings, map_account, line_for_account, first_rule, search_from,
}
use company_tax_and_accounti.Tax.Bulk.{
  AutoProposeSummary, AutoFillResult, propose_each, auto_propose_for_form,
}
use company_tax_and_accounti.Tax.Bulk.Runs.{Proposed, auto_propose_for_form-Proposed}
use company_tax_and_accounti.Statements.{accounts_of}
use company_tax_and_accounti.Tests.{books, mapping, caller}
use company_tax_and_accounti.Tests.Tax.{worksheet, lower, is_word, isdigit}

-- Only the sales are mapped.
abbrev half_mapped : Session
half_mapped = record books { mappings = mapping 1 2 1 TaxMappingStatus.approved ∷ [] }

abbrev new_id : ℕ → ℕ
new_id a = a + 20

abbrev summary : AutoProposeSummary
summary = record {
  form_code = TaxFormCode.f1120;
  proposed = 23 ∷ [];
  skipped = ("1000", "Cash", "balance-sheet account") ∷ [];
  already_existed = ("4000", "Sales", TaxMappingStatus.approved) ∷ [];
}

proposes :
    (auto_propose_for_form lower is_word isdigit caller TaxFormCode.f1120 new_id half_mapped).0
    ≡ ok summary
unfolding auto_propose_for_form propose_each propose_mapping insert_mapping get_form_by_code
    write_audit visible put by_account auto_propose_mappings map_account line_for_account first_rule
    search_from rules_of fallback_of
proposes = refl

auto_propose_for_form-Proposed_example :
    (form : TaxForm) × Proposed caller TaxFormCode.f1120 new_id half_mapped
      (auto_propose_for_form lower is_word isdigit caller TaxFormCode.f1120 new_id half_mapped).1
      summary
      form
      (auto_propose_mappings lower is_word isdigit TaxFormCode.f1120
        (accounts_of half_mapped 1 1)
        (select (λ l. l.form_id == form.id) half_mapped.form_lines))
auto_propose_for_form-Proposed_example =
    auto_propose_for_form-Proposed lower is_word isdigit caller TaxFormCode.f1120 new_id half_mapped
      summary proposes

abbrev filling : AutoFillResult
filling = record { auto_propose = summary; approved_mapping_ids = 23 ∷ []; worksheet = worksheet }
