-- ===== src/Tax/Catalog.antt =====
-- The catalog of tax forms (app/domain/tax_catalog.py): the sections of its table, and the lookup
-- of a form.
use company_tax_and_accounti.Base.{ℕ, Option, List, [], ◌∷◌, String, find}
use company_tax_and_accounti.Model.{TaxFormCode, TaxFormSection, same_form}

-- `TaxLineSpec`; no line of the catalog has a description.
pub record TaxLineSpec : Type 0 where
  pub code : String
  pub label : String
  pub section : TaxFormSection
  pub sequence : ℕ

-- `TaxFormSpec`
pub record TaxFormSpec : Type 0 where
  pub code : TaxFormCode
  pub label : String
  pub jurisdiction : String
  pub lines : List TaxLineSpec

abbrev line_spec : String → String → TaxFormSection → ℕ → TaxLineSpec
line_spec c l s n = record { code = c; label = l; section = s; sequence = n }

-- `_F1120_LINES`
abbrev f1120_lines : List TaxLineSpec
f1120_lines =
    line_spec "1a" "Gross receipts or sales" TaxFormSection.income 10
    ∷ line_spec "1b" "Returns and allowances" TaxFormSection.income 20
    ∷ line_spec "2" "Cost of goods sold (from Form 1125-A)" TaxFormSection.cogs 30
    ∷ line_spec "4" "Dividends and inclusions" TaxFormSection.income 40
    ∷ line_spec "5" "Interest income" TaxFormSection.income 50
    ∷ line_spec "6" "Gross rents" TaxFormSection.income 60
    ∷ line_spec "7" "Gross royalties" TaxFormSection.income 70
    ∷ line_spec "8" "Capital gain net income" TaxFormSection.income 80
    ∷ line_spec "9" "Net gain (loss) from Form 4797" TaxFormSection.income 90
    ∷ line_spec "10" "Other income" TaxFormSection.income 100
    ∷ line_spec "12" "Compensation of officers" TaxFormSection.deductions 200
    ∷ line_spec "13" "Salaries and wages (less employment credits)" TaxFormSection.deductions 210
    ∷ line_spec "14" "Repairs and maintenance" TaxFormSection.deductions 220
    ∷ line_spec "15" "Bad debts" TaxFormSection.deductions 230
    ∷ line_spec "16" "Rents" TaxFormSection.deductions 240
    ∷ line_spec "17" "Taxes and licenses" TaxFormSection.deductions 250
    ∷ line_spec "18" "Interest expense" TaxFormSection.deductions 260
    ∷ line_spec "19" "Charitable contributions" TaxFormSection.deductions 270
    ∷ line_spec "20" "Depreciation (Form 4562)" TaxFormSection.deductions 280
    ∷ line_spec "21" "Depletion" TaxFormSection.deductions 290
    ∷ line_spec "22" "Advertising" TaxFormSection.deductions 300
    ∷ line_spec "23" "Pension, profit-sharing, etc., plans" TaxFormSection.deductions 310
    ∷ line_spec "24" "Employee benefit programs" TaxFormSection.deductions 320
    ∷ line_spec "26" "Other deductions" TaxFormSection.deductions 330
    ∷ []

-- `_F1120S_LINES`
abbrev f1120s_lines : List TaxLineSpec
f1120s_lines =
    line_spec "1a" "Gross receipts or sales" TaxFormSection.income 10
    ∷ line_spec "1b" "Returns and allowances" TaxFormSection.income 20
    ∷ line_spec "2" "Cost of goods sold (from Form 1125-A)" TaxFormSection.cogs 30
    ∷ line_spec "4" "Net gain (loss) from Form 4797" TaxFormSection.income 40
    ∷ line_spec "5" "Other income (loss)" TaxFormSection.income 50
    ∷ line_spec "7" "Compensation of officers" TaxFormSection.deductions 200
    ∷ line_spec "8" "Salaries and wages (less employment credits)" TaxFormSection.deductions 210
    ∷ line_spec "9" "Repairs and maintenance" TaxFormSection.deductions 220
    ∷ line_spec "10" "Bad debts" TaxFormSection.deductions 230
    ∷ line_spec "11" "Rents" TaxFormSection.deductions 240
    ∷ line_spec "12" "Taxes and licenses" TaxFormSection.deductions 250
    ∷ line_spec "13" "Interest expense" TaxFormSection.deductions 260
    ∷ line_spec "14" "Depreciation (Form 4562)" TaxFormSection.deductions 270
    ∷ line_spec "15" "Depletion" TaxFormSection.deductions 280
    ∷ line_spec "16" "Advertising" TaxFormSection.deductions 290
    ∷ line_spec "17" "Pension, profit-sharing, etc., plans" TaxFormSection.deductions 300
    ∷ line_spec "18" "Employee benefit programs" TaxFormSection.deductions 310
    ∷ line_spec "19" "Other deductions" TaxFormSection.deductions 320
    ∷ []

-- `_F1065_LINES`
abbrev f1065_lines : List TaxLineSpec
f1065_lines =
    line_spec "1a" "Gross receipts or sales" TaxFormSection.income 10
    ∷ line_spec "1b" "Returns and allowances" TaxFormSection.income 20
    ∷ line_spec "2" "Cost of goods sold (from Form 1125-A)" TaxFormSection.cogs 30
    ∷ line_spec "4" "Ordinary income (loss) from other partnerships, estates, trusts"
        TaxFormSection.income 40
    ∷ line_spec "5" "Net farm profit (loss)" TaxFormSection.income 50
    ∷ line_spec "6" "Net gain (loss) from Form 4797" TaxFormSection.income 60
    ∷ line_spec "7" "Other income (loss)" TaxFormSection.income 70
    ∷ line_spec "9" "Salaries and wages (other than to partners)" TaxFormSection.deductions 200
    ∷ line_spec "10" "Guaranteed payments to partners" TaxFormSection.deductions 210
    ∷ line_spec "11" "Repairs and maintenance" TaxFormSection.deductions 220
    ∷ line_spec "12" "Bad debts" TaxFormSection.deductions 230
    ∷ line_spec "13" "Rent" TaxFormSection.deductions 240
    ∷ line_spec "14" "Taxes and licenses" TaxFormSection.deductions 250
    ∷ line_spec "15" "Interest expense" TaxFormSection.deductions 260
    ∷ line_spec "16" "Depreciation (Form 4562)" TaxFormSection.deductions 270
    ∷ line_spec "17" "Depletion" TaxFormSection.deductions 280
    ∷ line_spec "18" "Retirement plans, etc." TaxFormSection.deductions 290
    ∷ line_spec "19" "Employee benefit programs" TaxFormSection.deductions 300
    ∷ line_spec "20" "Other deductions" TaxFormSection.deductions 310
    ∷ []

-- `_F1040SC_LINES`
abbrev f1040sc_lines : List TaxLineSpec
f1040sc_lines =
    line_spec "1" "Gross receipts or sales" TaxFormSection.income 10
    ∷ line_spec "2" "Returns and allowances" TaxFormSection.income 20
    ∷ line_spec "4" "Cost of goods sold (from line 42)" TaxFormSection.cogs 30
    ∷ line_spec "6" "Other income" TaxFormSection.income 40
    ∷ line_spec "8" "Advertising" TaxFormSection.deductions 200
    ∷ line_spec "9" "Car and truck expenses" TaxFormSection.deductions 210
    ∷ line_spec "10" "Commissions and fees" TaxFormSection.deductions 220
    ∷ line_spec "11" "Contract labor" TaxFormSection.deductions 230
    ∷ line_spec "12" "Depletion" TaxFormSection.deductions 240
    ∷ line_spec "13" "Depreciation and section 179" TaxFormSection.deductions 250
    ∷ line_spec "14" "Employee benefit programs" TaxFormSection.deductions 260
    ∷ line_spec "15" "Insurance (other than health)" TaxFormSection.deductions 270
    ∷ line_spec "16a" "Mortgage interest (paid to banks, etc.)" TaxFormSection.deductions 280
    ∷ line_spec "16b" "Other interest expense" TaxFormSection.deductions 290
    ∷ line_spec "17" "Legal and professional services" TaxFormSection.deductions 300
    ∷ line_spec "18" "Office expense" TaxFormSection.deductions 310
    ∷ line_spec "19" "Pension and profit-sharing plans" TaxFormSection.deductions 320
    ∷ line_spec "20a" "Rent or lease — vehicles, machinery, equipment" TaxFormSection.deductions 330
    ∷ line_spec "20b" "Rent or lease — other business property" TaxFormSection.deductions 340
    ∷ line_spec "21" "Repairs and maintenance" TaxFormSection.deductions 350
    ∷ line_spec "22" "Supplies" TaxFormSection.deductions 360
    ∷ line_spec "23" "Taxes and licenses" TaxFormSection.deductions 370
    ∷ line_spec "24a" "Travel" TaxFormSection.deductions 380
    ∷ line_spec "24b" "Deductible meals" TaxFormSection.deductions 390
    ∷ line_spec "25" "Utilities" TaxFormSection.deductions 400
    ∷ line_spec "26" "Wages (less employment credits)" TaxFormSection.deductions 410
    ∷ line_spec "27a" "Other expenses" TaxFormSection.deductions 420
    ∷ []

-- `CATALOG`
abbrev pub catalog : List TaxFormSpec
catalog =
    record {
      code = TaxFormCode.f1120;
      label = "Form 1120 — US C-Corporation";
      jurisdiction = "US-federal";
      lines = f1120_lines;
    }
    ∷ record {
      code = TaxFormCode.f1120s;
      label = "Form 1120-S — US S-Corporation";
      jurisdiction = "US-federal";
      lines = f1120s_lines;
    }
    ∷ record {
      code = TaxFormCode.f1065;
      label = "Form 1065 — US Partnership";
      jurisdiction = "US-federal";
      lines = f1065_lines;
    }
    ∷ record {
      code = TaxFormCode.f1040sc;
      label = "Form 1040 Schedule C — Sole Proprietor";
      jurisdiction = "US-federal";
      lines = f1040sc_lines;
    }
    ∷ []

-- `form_spec`, with no result for its `KeyError`.
unfoldable pub form_spec : TaxFormCode → Option TaxFormSpec
form_spec code = find (λ f. same_form f.code code) catalog
