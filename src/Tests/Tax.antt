-- ===== src/Tests/Tax.antt =====
-- The tax module on the example books.
use text.Mathlib.Text.{◌==◌ as str_eq}
use company_tax_and_accounti.Base.{
  ◌++◌, ℕ, ℤ, pos, ◌+ℤ◌, ◌-ℤ◌, zero_ℤ, ◌≡◌, refl, true, false, Bool, Bool-cases, inl, inr, not,
  none, some, List, [], ◌∷◌, map, select, any, find, String, update_if, sort_by, ◌&&◌, ◌==◌,
}
use company_tax_and_accounti.Base.Sums.{sum_if, sum_by}
use company_tax_and_accounti.Model.{
  AccountingPeriod, TaxFormCode, TaxFormLine, TaxAccountMapping, TaxMappingStatus, TaxWorksheet,
  TaxWorksheetStatus, AuditAction, is_firm, is_computed,
}
use company_tax_and_accounti.Tenant.{visible}
use company_tax_and_accounti.Session.{Session, ok, write_audit}
use company_tax_and_accounti.Tax.Mapping.{
  reviewed, reviewable, approve_mapping, reject_mapping, review_row, supersede_rows,
  get_form_by_code,
}
use company_tax_and_accounti.Tax.Mapping.Review.{Approved, approve_mapping_sole}
use company_tax_and_accounti.Tax.Mapping.Constraint.{reject_mapping-once}
use company_tax_and_accounti.Tax.Worksheet.{
  period_activity, signed_balance, join_rows, put, by_account, contributions, figures,
}
use company_tax_and_accounti.Tax.Worksheet.Activity.{period_activity-period}
use company_tax_and_accounti.Tax.Generate.{
  Inputs, competes, log_supersede, gates, compute, generate_worksheet, supersede_prior,
  insert_worksheet, insert_worksheet_lines, new_worksheet, reviewable_worksheet, sign_off,
  signed_off,
}
use company_tax_and_accounti.Tax.Generate.Rows.{superseded_rows}
use company_tax_and_accounti.Tax.Generate.Current.{generate_worksheet-current}
use company_tax_and_accounti.Tax.Generate.Review.{sign_off-ok}
use company_tax_and_accounti.Tax.Rules.{fallback_of, rules_of}
use company_tax_and_accounti.Tax.Automap.{line_for_account, auto_propose_mappings}
use company_tax_and_accounti.Tax.Automap.Proposals.{
  has_line, has_code, spec_lines, takes_part, line_for_account-has_line,
  auto_propose_mappings-accounts,
}
use company_tax_and_accounti.Tax.Catalog.{TaxLineSpec, form_spec}
use company_tax_and_accounti.Tests.{books, rent, period, mapping, caller, exact}

-- A digest that names the number of lines only.
abbrev pub digest : List (String × ℤ) → String
digest [] = "no lines"
digest (l ∷ ls) = "some lines"

abbrev pub worksheet : TaxWorksheet
worksheet = record {
  id = 8;
  firm_id = 1;
  client_id = 1;
  period_id = 1;
  form_id = 1;
  status = TaxWorksheetStatus.computed;
  catalog_version = "2026.1";
  total_income = pos 500;
  total_cogs = zero_ℤ;
  total_deductions = zero_ℤ;
  taxable_income = pos 500;
  sha256 = "some lines";
  generated_by = "reviewer";
  approved_by = none;
  approved_at = none;
}

abbrev filed : Session
filed = record books { worksheets = worksheet ∷ [] }

abbrev approval : TaxWorksheet
approval = signed_off TaxWorksheetStatus.approved "reviewer" 12 worksheet

approves :
    (sign_off TaxWorksheetStatus.approved AuditAction.tax_worksheet_approve none caller 8 12
      filed).0
    ≡ ok approval
unfolding sign_off reviewable_worksheet write_audit visible
approves = refl

sign_off-ok_example :
    (w : TaxWorksheet) × (find
        (λ w. w.id == 8 && visible filed.guc w.firm_id w.client_id)
        filed.worksheets
      ≡ some w)
    × (is_firm caller.scope ≡ true)
    × (w.firm_id ≡ 1)
    × (w.client_id ≡ 1)
    × (is_computed w.status ≡ true)
    × (approval ≡ signed_off TaxWorksheetStatus.approved "reviewer" 12 w)
    × ((sign_off TaxWorksheetStatus.approved AuditAction.tax_worksheet_approve none caller 8 12
          filed).1.worksheets
        ≡ update_if
            (λ x. x.id == 8)
            (signed_off TaxWorksheetStatus.approved "reviewer" 12)
            filed.worksheets)
sign_off-ok_example =
    sign_off-ok TaxWorksheetStatus.approved AuditAction.tax_worksheet_approve none caller 8 12 filed
      approval approves

-- The worksheet was approved before.
abbrev closed : Session
closed = record books { worksheets = approval ∷ [] }

abbrev next_worksheet : TaxWorksheet
next_worksheet = record worksheet { id = 9 }

regenerates :
    (generate_worksheet exact digest caller 1 TaxFormCode.f1120 9 closed).0 ≡ ok next_worksheet
unfolding generate_worksheet gates get_form_by_code compute supersede_prior log_supersede
    insert_worksheet insert_worksheet_lines new_worksheet write_audit visible period_activity
    join_rows signed_balance put by_account contributions figures sum_if sum_by sort_by ◌+ℤ◌ ◌-ℤ◌
regenerates = refl

generate_worksheet-current_example :
    (i : Inputs) × ((gates caller 1 TaxFormCode.f1120 closed).0 ≡ ok i)
    × ((generate_worksheet exact digest caller 1 TaxFormCode.f1120 9 closed).1.worksheets
        ≡ superseded_rows caller i.period.id i.form.id closed ++ (next_worksheet ∷ []))
    × (any
          (λ x. not (x.id == 9) && competes closed caller.client_id i.period.id i.form.id x)
          (generate_worksheet exact digest caller 1 TaxFormCode.f1120 9 closed).1.worksheets
        ≡ false)
generate_worksheet-current_example =
    generate_worksheet-current exact digest caller 1 TaxFormCode.f1120 9 closed next_worksheet
      regenerates

abbrev rent_mapping : TaxAccountMapping
rent_mapping = mapping 2 3 2 TaxMappingStatus.draft

maps :
    (approve_mapping caller 2 12 books).0
    ≡ ok (reviewed TaxMappingStatus.approved "reviewer" 12 rent_mapping)
unfolding approve_mapping reviewable review_row supersede_rows write_audit visible
maps = refl

approve_mapping_sole_example :
    Approved caller 2 12 books
      (reviewed TaxMappingStatus.approved "reviewer" 12 rent_mapping)
      (approve_mapping caller 2 12 books).1.mappings
approve_mapping_sole_example =
    approve_mapping_sole caller 2 12 books
      (reviewed TaxMappingStatus.approved "reviewer" 12 rent_mapping) maps

-- Two drafts for the rent.
abbrev twice_drafted : Session
twice_drafted = record books { mappings = mapping 5 3 2 TaxMappingStatus.draft ∷ rent_mapping ∷ [] }

abbrev rejected_first : TaxAccountMapping
rejected_first =
    reviewed TaxMappingStatus.rejected "reviewer" 12 (mapping 5 3 2 TaxMappingStatus.draft)

rejects : (reject_mapping caller 5 none 12 twice_drafted).0 ≡ ok rejected_first
unfolding reject_mapping reviewable review_row write_audit visible
rejects = refl

other_draft :
    find
      (λ x.
        x.id == 2
        && visible (reject_mapping caller 5 none 12 twice_drafted).1.guc x.firm_id x.client_id)
      (reject_mapping caller 5 none 12 twice_drafted).1.mappings
    ≡ some rent_mapping
unfolding reject_mapping reviewable review_row write_audit visible
other_draft = refl

reject_mapping-once_example : ¬ (
    (reject_mapping caller 2 none 13 (reject_mapping caller 5 none 12 twice_drafted).1).0
    ≡ ok (reviewed TaxMappingStatus.rejected "reviewer" 13 rent_mapping))
reject_mapping-once_example =
    reject_mapping-once caller caller 5 2 none none 12 13 twice_drafted rejected_first rent_mapping
      rejects other_draft refl refl refl refl
      (reviewed TaxMappingStatus.rejected "reviewer" 13 rent_mapping)

-- A period before the sale.
abbrev earlier : AccountingPeriod
earlier = record period { start_date = 1; end_date = 99 }

period_activity-period_example :
    period_activity books 1 1 period ≡ period_activity books 1 1 earlier
period_activity-period_example = period_activity-period books 1 1 period earlier

abbrev pub lower : String → String
lower t = t

abbrev pub is_word : ℕ → Bool
is_word c = not (c == 32)

abbrev pub isdigit : List ℕ → Bool
isdigit cs = false

line_for_account-has_line_example :
    has_line TaxFormCode.f1120
      (line_for_account lower is_word isdigit rent
        (rules_of TaxFormCode.f1120)
        (fallback_of TaxFormCode.f1120)).0
    ≡ true
line_for_account-has_line_example =
    line_for_account-has_line lower is_word isdigit TaxFormCode.f1120 rent

-- The lines of a form as the catalog gives them.
abbrev seeded : TaxLineSpec → TaxFormLine
seeded l = record {
  id = l.sequence;
  form_id = 1;
  code = l.code;
  label = l.label;
  section = l.section;
  sequence = l.sequence;
}

seeded_codes :
    (specs : List TaxLineSpec) (code : String)
    → any (λ l. str_eq l.code code) specs ≡ true
    → has_code code (map seeded specs) ≡ true
seeded_codes [] code h = h
seeded_codes (l ∷ specs) code h = elim (Bool-cases (str_eq l.code code)) [
  | inl same ↦ rw same refl
  | inr other ↦ rw other (seeded_codes specs code (rw other at h))
]

abbrev form_lines : List TaxFormLine
form_lines = map seeded (spec_lines (form_spec TaxFormCode.f1120))

covered : (code : String) → has_line TaxFormCode.f1120 code ≡ true → has_code code form_lines ≡ true
unfolding has_line
covered code h = seeded_codes (spec_lines (form_spec TaxFormCode.f1120)) code h

auto_propose_mappings-accounts_example :
    (map
        (λ p. p.account_id)
        (auto_propose_mappings lower is_word isdigit TaxFormCode.f1120 books.accounts
          form_lines).proposals
      ≡ map (λ a. a.id) (select takes_part books.accounts))
    × (map
          (λ s. s.0)
          (auto_propose_mappings lower is_word isdigit TaxFormCode.f1120 books.accounts
            form_lines).skipped
        ≡ map (λ a. a.code) (select (λ a. not (takes_part a)) books.accounts))
auto_propose_mappings-accounts_example =
    auto_propose_mappings-accounts lower is_word isdigit TaxFormCode.f1120 books.accounts form_lines
      covered
