-- ===== src/Tests/Promotion.antt =====
-- The promotion of drafts on the example books.
use Prim.Native.Char.{Char, code}
use company_tax_and_accounti.Tests.{books, books-IsBook, exact, caller, period, cash, no_payload}
use company_tax_and_accounti.Base.{
  ℕ, ℤ, pos, zero_ℤ, ◌≤◌, ◌+◌, ◌+ℤ◌, Bool, true, false, Option, none, some, [], ◌∷◌, String, ◌==◌,
  ◌≡◌, refl, arith, length, if◌then◌else◌,
}
use company_tax_and_accounti.Base.Sums.{sum_if, sum_by}
use text.Mathlib.Text.{◌==◌ as str_eq}
use company_tax_and_accounti.Model.{
  DraftClassification, DraftStatus, Txn, Payload, SkipReason, needs_confirmation, is_firm,
}
use company_tax_and_accounti.Tenant.{visible}
use company_tax_and_accounti.Session.{Session, ok, err, already_promoted, write_audit}
use company_tax_and_accounti.Ledger.{
  PostArgs, post, persist, admit, validate_lines, check_lines, check_accounts, add_line, add_lines,
  verify,
}
use company_tax_and_accounti.Ledger.Books.{IsBook}
use company_tax_and_accounti.Promotion.{
  PromoteArgs, promotable, promote_draft, promote_found, mark_promoted, reject_draft,
}
use company_tax_and_accounti.Promotion.Learning.{
  PromoteLineInput, RulesFile, saved, learn_rule_from_single_promote, learn_rules_from_overrides,
}
use company_tax_and_accounti.Promotion.Plans.{
  Decimal, invalid, number, Statement, StatementArgs, posting, plan_of, plan_amount, debit_line,
  credit_line,
}
use company_tax_and_accounti.Promotion.Statement.{
  StatementPromotionResult, statement_of, statement_for, promote_each, mark_statement,
  promote_transactions, promote_statement_draft,
}
use company_tax_and_accounti.Promotion.Drafts.{promote_draft-once}
use company_tax_and_accounti.Promotion.Statements.{promote_statement_draft-handled}
use company_tax_and_accounti.Promotion.Proposed.{IsAcceptable, plan_of-IsAcceptable}

abbrev space : Char → Bool
space c = code c == 32

abbrev word : Char → Bool
word c = false

abbrev digit : Char → Bool
digit c = false

abbrev lower : String → String
lower s = s

abbrev decimal : String → Decimal
decimal t = if str_eq t "120" then number (pos 120) else invalid

abbrev fromisoformat : String → Option ℕ
fromisoformat t = if str_eq t "2026-02-10" then some 200 else none

abbrev no_rules : RulesFile
no_rules = record { is_rule_engine = true; rules = []; saving = saved }

abbrev txn : Bool → Txn
txn review = record {
  date = some "2026-02-10";
  description = some "stripe payout";
  amount = some "120";
  direction = some "deposit";
  proposed_account_code = some "4000";
  needs_review = review;
}

abbrev draft : DraftClassification
draft = record {
  id = 3;
  firm_id = 1;
  client_id = 1;
  source_document_id = 8;
  status = DraftStatus.pending_review;
  payload = record no_payload { is_statement = true; transactions = txn false ∷ txn true ∷ [] };
  promoted_journal_entry_id = none;
  reviewed_at = none;
  reviewed_by = none;
}

abbrev desk : Session
desk = record books { drafts = draft ∷ [] }

desk-IsBook : IsBook desk
desk-IsBook = record {
  balanced = books-IsBook.balanced;
  linked = books-IsBook.linked;
  keyed = books-IsBook.keyed;
  charted = books-IsBook.charted;
}

abbrev line_of : ℕ → ℤ → ℤ → PromoteLineInput
line_of id d c = record { account_id = id; debit = d; credit = c; description = none }

abbrev args : PromoteArgs
args = record {
  period_id = 1;
  entry_date = 200;
  lines = line_of 3 (pos 300) zero_ℤ ∷ line_of 1 zero_ℤ (pos 300) ∷ [];
  memo = none;
}

promotes :
    (promote_draft space word digit lower no_rules exact caller 3 args 7 9 desk).0
    ≡ ok (7, no_rules)
unfolding promote_draft promotable promote_found mark_promoted post persist admit validate_lines
    check_lines check_accounts visible add_line add_lines verify write_audit sum_if sum_by ◌+ℤ◌
    learn_rule_from_single_promote
promotes = refl

promote_draft-once_example :
    ((promote_draft space word digit lower no_rules exact caller 3 args 10 11
        (promote_draft space word digit lower no_rules exact caller 3 args 7 9 desk).1).0
      ≡ err already_promoted)
    × ((reject_draft caller 3 none 11
          (promote_draft space word digit lower no_rules exact caller 3 args 7 9 desk).1).0
        ≡ err already_promoted)
promote_draft-once_example =
    promote_draft-once space word digit lower no_rules exact caller 3 args 7 9 desk (7, no_rules)
      caller no_rules args 10 11 none promotes refl

abbrev statement : Statement
statement = record { draft = draft; period = period; accounts = books.accounts; cash = cash }

abbrev no_overrides : StatementArgs
no_overrides = record { period_id = 1; cash_account_code = "1000"; account_overrides = [] }

abbrev result : StatementPromotionResult
result = record { journal_entry_ids = 7 ∷ []; skipped = (1, needs_confirmation) ∷ [] }

abbrev ids : ℕ → ℕ
ids n = n + 7

promotes_statement :
    (promote_statement_draft space word digit lower no_rules exact decimal fromisoformat caller 3
      no_overrides ids 9 desk).0
    ≡ ok (result, no_rules)
unfolding promote_statement_draft statement_of statement_for promotable promote_transactions
    promote_each mark_statement plan_of plan_amount post persist admit validate_lines check_lines
    check_accounts visible add_line add_lines verify write_audit sum_if sum_by ◌+ℤ◌
    learn_rules_from_overrides
promotes_statement = refl

promote_statement_draft-handled_example :
    (st : Statement) × ((statement_of caller 3 no_overrides desk).0 ≡ ok st)
    × IsBook
        (promote_statement_draft space word digit lower no_rules exact decimal fromisoformat caller
          3 no_overrides ids 9 desk).1
    × (1 + 1 ≡ length st.draft.payload.transactions)
    × (1 ≤ 1)
promote_statement_draft-handled_example =
    promote_statement_draft-handled space word digit lower no_rules caller no_overrides 9 exact
      decimal fromisoformat 3 ids desk (result, no_rules) desk-IsBook promotes_statement

abbrev deposit : PostArgs
deposit = record {
  period_id = 1;
  entry_date = 200;
  lines = debit_line 1 (pos 120) ∷ credit_line 2 (pos 120) ∷ [];
  memo = some (company_tax_and_accounti.Model.plain "stripe payout");
  source_document_id = some 8;
}

plans : plan_of space lower decimal fromisoformat statement [] 0 (txn false) ≡ ok (posting deposit)
unfolding plan_of plan_amount
plans = refl

plan_of-IsAcceptable_example : IsAcceptable statement deposit
plan_of-IsAcceptable_example =
    plan_of-IsAcceptable space lower decimal fromisoformat statement [] 0 (txn false) deposit
      (ground arith) plans
