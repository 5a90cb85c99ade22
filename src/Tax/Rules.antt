-- ===== src/Tax/Rules.antt =====
-- The keyword rules and the fallbacks of the heuristic mapper (app/domain/tax_automap.py).
use company_tax_and_accounti.Base.{List, [], ◌∷◌, String}
use company_tax_and_accounti.Model.{TaxFormCode, TaxLineSign}

-- `_Rule`
pub record Rule : Type 0 where
  pub keyword : String
  pub line_code : String
  pub sign : TaxLineSign

-- `_Rule` with the sign that it has by default.
abbrev rule : String → String → Rule
rule k c = record { keyword = k; line_code = c; sign = TaxLineSign.positive }

abbrev contra : String → String → Rule
contra k c = record { keyword = k; line_code = c; sign = TaxLineSign.negative }

-- `_F1120_RULES`
abbrev f1120_rules : List Rule
f1120_rules =
    rule "dividend" "4"
    ∷ rule "interest income" "5"
    ∷ rule "rent income" "6"
    ∷ rule "rental income" "6"
    ∷ rule "royalty" "7"
    ∷ rule "royalties" "7"
    ∷ rule "capital gain" "8"
    ∷ contra "sales return" "1b"
    ∷ contra "sales returns" "1b"
    ∷ contra "returns and allowance" "1b"
    ∷ contra "returns and allowances" "1b"
    ∷ contra "sales discount" "1b"
    ∷ contra "sales discounts" "1b"
    ∷ rule "officer" "12"
    ∷ rule "salaries" "13"
    ∷ rule "salary" "13"
    ∷ rule "wages" "13"
    ∷ rule "payroll" "13"
    ∷ rule "repair" "14"
    ∷ rule "maintenance" "14"
    ∷ rule "bad debt" "15"
    ∷ rule "rent expense" "16"
    ∷ rule "rent" "16"
    ∷ rule "lease" "16"
    ∷ rule "tax expense" "17"
    ∷ rule "taxes" "17"
    ∷ rule "license" "17"
    ∷ rule "interest expense" "18"
    ∷ rule "loan interest" "18"
    ∷ rule "charitable" "19"
    ∷ rule "donation" "19"
    ∷ rule "depreciation" "20"
    ∷ rule "amortization" "20"
    ∷ rule "depletion" "21"
    ∷ rule "advertising" "22"
    ∷ rule "marketing" "22"
    ∷ rule "pension" "23"
    ∷ rule "retirement" "23"
    ∷ rule "401k" "23"
    ∷ rule "benefit" "24"
    ∷ rule "insurance" "24"
    ∷ rule "health" "24"
    ∷ []

-- `_F1120S_RULES`
abbrev f1120s_rules : List Rule
f1120s_rules =
    rule "net gain" "4"
    ∷ rule "officer" "7"
    ∷ rule "salaries" "8"
    ∷ rule "salary" "8"
    ∷ rule "wages" "8"
    ∷ rule "payroll" "8"
    ∷ rule "repair" "9"
    ∷ rule "maintenance" "9"
    ∷ rule "bad debt" "10"
    ∷ rule "rent expense" "11"
    ∷ rule "rent" "11"
    ∷ rule "lease" "11"
    ∷ rule "tax expense" "12"
    ∷ rule "taxes" "12"
    ∷ rule "license" "12"
    ∷ rule "interest expense" "13"
    ∷ rule "depreciation" "14"
    ∷ rule "depletion" "15"
    ∷ rule "advertising" "16"
    ∷ rule "marketing" "16"
    ∷ rule "pension" "17"
    ∷ rule "retirement" "17"
    ∷ rule "benefit" "18"
    ∷ rule "insurance" "18"
    ∷ []

-- `_F1065_RULES`
abbrev f1065_rules : List Rule
f1065_rules =
    rule "salaries" "9"
    ∷ rule "salary" "9"
    ∷ rule "wages" "9"
    ∷ rule "payroll" "9"
    ∷ rule "guaranteed payment" "10"
    ∷ rule "repair" "11"
    ∷ rule "maintenance" "11"
    ∷ rule "bad debt" "12"
    ∷ rule "rent expense" "13"
    ∷ rule "rent" "13"
    ∷ rule "lease" "13"
    ∷ rule "tax expense" "14"
    ∷ rule "taxes" "14"
    ∷ rule "license" "14"
    ∷ rule "interest expense" "15"
    ∷ rule "depreciation" "16"
    ∷ rule "depletion" "17"
    ∷ rule "retirement" "18"
    ∷ rule "pension" "18"
    ∷ rule "benefit" "19"
    ∷ rule "insurance" "19"
    ∷ []

-- `_F1040SC_RULES`
abbrev f1040sc_rules : List Rule
f1040sc_rules =
    rule "advertising" "8"
    ∷ rule "marketing" "8"
    ∷ rule "car" "9"
    ∷ rule "truck" "9"
    ∷ rule "vehicle" "9"
    ∷ rule "fuel" "9"
    ∷ rule "commission" "10"
    ∷ rule "contract labor" "11"
    ∷ rule "contractor" "11"
    ∷ rule "freelance" "11"
    ∷ rule "depletion" "12"
    ∷ rule "depreciation" "13"
    ∷ rule "amortization" "13"
    ∷ rule "benefit" "14"
    ∷ rule "health" "14"
    ∷ rule "insurance" "15"
    ∷ rule "mortgage" "16a"
    ∷ rule "loan interest" "16b"
    ∷ rule "interest expense" "16b"
    ∷ rule "legal" "17"
    ∷ rule "professional" "17"
    ∷ rule "accounting" "17"
    ∷ rule "supplies" "22"
    ∷ rule "office" "18"
    ∷ rule "pension" "19"
    ∷ rule "retirement" "19"
    ∷ rule "rent" "20b"
    ∷ rule "lease" "20b"
    ∷ rule "repair" "21"
    ∷ rule "maintenance" "21"
    ∷ rule "tax expense" "23"
    ∷ rule "taxes" "23"
    ∷ rule "license" "23"
    ∷ rule "travel" "24a"
    ∷ rule "meals" "24b"
    ∷ rule "utilities" "25"
    ∷ rule "electric" "25"
    ∷ rule "water" "25"
    ∷ rule "gas bill" "25"
    ∷ rule "wages" "26"
    ∷ rule "salaries" "26"
    ∷ rule "salary" "26"
    ∷ rule "payroll" "26"
    ∷ []

-- An entry of `_FALLBACKS`.
pub record Fallback : Type 0 where
  pub revenue : String
  pub cogs : String
  pub deduction : String
  pub other_income : String

-- `_FALLBACKS`
unfoldable pub fallback_of : TaxFormCode → Fallback
fallback_of TaxFormCode.f1120 = record {
  revenue = "1a";
  cogs = "2";
  deduction = "26";
  other_income = "10";
}
fallback_of TaxFormCode.f1120s = record {
  revenue = "1a";
  cogs = "2";
  deduction = "19";
  other_income = "5";
}
fallback_of TaxFormCode.f1065 = record {
  revenue = "1a";
  cogs = "2";
  deduction = "20";
  other_income = "7";
}
fallback_of TaxFormCode.f1040sc = record {
  revenue = "1";
  cogs = "4";
  deduction = "27a";
  other_income = "6";
}

-- `_RULES_BY_FORM`
unfoldable pub rules_of : TaxFormCode → List Rule
rules_of TaxFormCode.f1120 = f1120_rules
rules_of TaxFormCode.f1120s = f1120s_rules
rules_of TaxFormCode.f1065 = f1065_rules
rules_of TaxFormCode.f1040sc = f1040sc_rules
