-- ===== src/Tests.antt =====
-- A small firm's books, on which the theorems are applied and the code is run.
use company_tax_and_accounti.Base.{
  ℕ, ℤ, pos, zero_ℤ, Bool, true, false, Option, none, some, List, [], ◌∷◌, String, ◌≡◌, refl, arith,
  Bool-cases, inl, inr, ◌&&◌, ◌==◌, ◌≤◌, ◌+ℤ◌, if◌then◌else◌, count_if,
}
use company_tax_and_accounti.Base.Sums.{sum_if, sum_by}
use company_tax_and_accounti.Model.{
  AccountType, NormalBalance, CoaNodeOrigin, JournalEntryStatus, ChartOfAccounts, AccountingPeriod,
  JournalEntry, JournalLine, TaxForm, TaxFormCode, TaxFormLine, TaxFormSection, TaxAccountMapping,
  TaxMappingStatus, TaxLineSign, TaxWorksheet, TaxWorksheetStatus, AccessScope, Payload, plain,
  same_type,
}
use company_tax_and_accounti.Session.{Session}
use company_tax_and_accounti.Ledger.{LedgerService, LineInput, PostArgs}
use company_tax_and_accounti.Ledger.Books.{IsBook, in_entry}
use company_tax_and_accounti.Statements.{StatementsService}
use company_tax_and_accounti.Tax.Mapping.{Caller}
mod Posting
mod Reports
mod Tax
mod Bulk
mod Forms
mod Rulesets
mod Promotion
mod Security
mod Worker

abbrev pub account : ℕ → String → String → AccountType → NormalBalance → ChartOfAccounts
account id code name t n = record {
  id = id;
  firm_id = 1;
  client_id = 1;
  code = code;
  name = name;
  account_type = t;
  normal_balance = n;
  parent_account_id = none;
  path = code;
  depth = 0;
  is_leaf = true;
  template_node_id = none;
  origin = CoaNodeOrigin.general;
  is_active = true;
}

abbrev pub cash : ChartOfAccounts
cash = account 1 "1000" "Cash" AccountType.asset NormalBalance.debit

abbrev pub sales : ChartOfAccounts
sales = account 2 "4000" "Sales" AccountType.revenue NormalBalance.credit

abbrev pub rent : ChartOfAccounts
rent = account 3 "6100" "Office rent" AccountType.expense NormalBalance.debit

abbrev pub period : AccountingPeriod
period = record {
  id = 1;
  firm_id = 1;
  client_id = 1;
  name = "FY";
  start_date = 100;
  end_date = 464;
  is_locked = false;
}

abbrev pub sale : JournalEntry
sale = record {
  id = 1;
  firm_id = 1;
  client_id = 1;
  period_id = 1;
  entry_date = 150;
  memo = none;
  status = JournalEntryStatus.posted;
  source_document_id = none;
  posted_at = some 5;
}

abbrev pub line : ℕ → ℕ → ℤ → ℤ → JournalLine
line n account_id d c = record {
  firm_id = 1;
  client_id = 1;
  entry_id = 1;
  line_no = n;
  account_id = account_id;
  debit = d;
  credit = c;
  description = none;
}

abbrev pub form_line : ℕ → String → TaxFormSection → ℕ → TaxFormLine
form_line id code section n = record {
  id = id;
  form_id = 1;
  code = code;
  label = code;
  section = section;
  sequence = n;
}

abbrev pub mapping : ℕ → ℕ → ℕ → TaxMappingStatus → TaxAccountMapping
mapping id account_id line_id st = record {
  id = id;
  firm_id = 1;
  client_id = 1;
  form_id = 1;
  account_id = account_id;
  line_id = line_id;
  sign = TaxLineSign.positive;
  status = st;
  notes = none;
  proposed_by = "reviewer";
  reviewed_by = none;
  reviewed_at = none;
}

abbrev pub no_payload : Payload
no_payload = record {
  is_statement = false;
  transactions = [];
  direction = none;
  proposed_account_code = none;
  description = none;
  memo = none;
  merchant = none;
  posted_journal_entry_ids = none;
  posted_count = none;
  skipped = none;
  learned_rule_count = none;
}

-- Cash 500 against sales 500.
abbrev pub books : Session
books = record {
  guc = record {
    current_firm = some 1;
    current_client = none;
    access_scope = some AccessScope.firm;
  };
  accounts = cash ∷ sales ∷ rent ∷ [];
  periods = period ∷ [];
  entries = sale ∷ [];
  lines = line 1 1 (pos 500) zero_ℤ ∷ line 2 2 zero_ℤ (pos 500) ∷ [];
  reconciliations = [];
  audit = [];
  drafts = [];
  forms = record { id = 1; code = TaxFormCode.f1120; catalog_version = "2026.1" } ∷ [];
  form_lines =
      form_line 1 "1a" TaxFormSection.income 10
      ∷ form_line 2 "16" TaxFormSection.deductions 240
      ∷ [];
  mappings = mapping 1 2 1 TaxMappingStatus.approved ∷ mapping 2 3 2 TaxMappingStatus.draft ∷ [];
  worksheets = [];
  worksheet_lines = [];
  form_templates = [];
  rulesets = [];
  profiles = [];
}

abbrev pub exact : ℤ → Option ℤ
exact x = some x

abbrev pub service : LedgerService
service = record { firm_id = 1; client_id = 1; actor = "reviewer" }

abbrev pub reader : StatementsService
reader = record { firm_id = 1; client_id = 1 }

abbrev pub caller : Caller
caller = record { firm_id = 1; client_id = 1; actor = "reviewer"; scope = AccessScope.firm }

abbrev pub input : ℕ → ℤ → ℤ → LineInput
input account_id d c = record { account_id = account_id; debit = d; credit = c; description = none }

-- Rent 300 paid from cash.
abbrev pub payment : PostArgs
payment = record {
  period_id = 1;
  entry_date = 200;
  lines = input 3 (pos 300) zero_ℤ ∷ input 1 zero_ℤ (pos 300) ∷ [];
  memo = some (plain "rent");
  source_document_id = none;
}

books-balanced :
    (f c e : ℕ)
    → sum_if (in_entry f c e) (λ l. l.debit) books.lines
      ≡ sum_if (in_entry f c e) (λ l. l.credit) books.lines
unfolding sum_if sum_by ◌+ℤ◌
books-balanced f c e = elim (Bool-cases (1 == e && (1 == f && 1 == c))) [
  | inl here ↦ rw here refl
  | inr elsewhere ↦ rw elsewhere refl
]

pub books-IsBook : IsBook books
books-IsBook = record {
  balanced = books-balanced;
  linked = (refl, (refl, tt));
  keyed = λ id. ground arith;
  charted = (refl, (refl, tt));
}
