-- ===== src/Promotion.antt =====
-- The promotion of reviewed drafts to the ledger (app/domain/promotion.py). The parameters are
-- the column rounding, Python's white space, `Decimal` on a text and `date.fromisoformat`.
pub mod Descriptions
pub mod Learning
pub mod Plans
pub mod Statement
pub mod Settled
pub mod Drafts
pub mod Loop
pub mod Proposed
pub mod Statements
use Prim.Native.Char.{Char}
use company_tax_and_accounti.Base.{
  ℕ, suc, ℤ, zero_ℤ, ltb_ℤ, leb_ℤ, ltb, Bool, true, false, not, ◌&&◌, Option, none, some, List, [],
  ◌∷◌, ◌++◌, String, ◌==◌, if◌then◌else◌, find, any, select, length, update_if, map,
}
use company_tax_and_accounti.Base.Text.{strip, take_text, drop_commas, or_text, text_of, is_empty}
use company_tax_and_accounti.Model.{
  ChartOfAccounts, AccountingPeriod, JournalEntry, DraftClassification, DraftStatus, AuditAction,
  AuditDetails, Label, plain, Txn, Payload, SkipReason, no_account_code, needs_confirmation,
  unparseable_amount, amount_not_positive, not_in_chart, unknown_direction, is_firm, is_pending,
  reason_details, promoted_details, promoted_statement_details,
}
use text.Mathlib.Text.{◌==◌ as str_eq}
use company_tax_and_accounti.Tenant.{visible}
use company_tax_and_accounti.Session.{
  Session, Result, ok, err, Action, promotion_forbidden, already_promoted, invalid_operation, ◌>>=◌,
  ◌>>◌, pure, raise, raise_if, gets, modify, or_raise, lift_result, get_period, write_audit,
}
use company_tax_and_accounti.Ledger.{LineInput, LedgerService, PostArgs, post, is_own}
use company_tax_and_accounti.Tax.Mapping.{Caller}
use company_tax_and_accounti.Promotion.Learning.{
  PromoteLineInput, RulesFile, learn_rules_from_overrides, learn_rule_from_single_promote,
  get_override,
}

abbrev pub service_of : Caller → LedgerService
service_of caller = record {
  firm_id = caller.firm_id;
  client_id = caller.client_id;
  actor = caller.actor;
}

-- `sess.get(DraftClassification, draft_id)`
abbrev pub get_draft : ℕ → Action (Option DraftClassification)
get_draft id = gets λ s. find (λ d. d.id == id && visible s.guc d.firm_id d.client_id) s.drafts

-- The checks that both promotions and the rejection begin with.
unfoldable pub promotable : Caller → ℕ → Action DraftClassification
promotable caller draft_id = do
  raise_if (not (is_firm caller.scope)) promotion_forbidden
  draft ← or_raise (← get_draft draft_id) already_promoted
  raise_if (not (is_own (service_of caller) draft.firm_id draft.client_id)) already_promoted
  raise_if (not (is_pending draft.status)) already_promoted
  pure draft

-- The keyword arguments of `promote_draft`.
pub record PromoteArgs : Type 0 where
  pub period_id : ℕ
  pub entry_date : ℕ
  pub lines : List PromoteLineInput
  pub memo : Option String

abbrev pub some_plain : Option String → Option Label
some_plain none = none
some_plain (some t) = some (plain t)

abbrev pub line_input : PromoteLineInput → LineInput
line_input l = record {
  account_id = l.account_id;
  debit = l.debit;
  credit = l.credit;
  description = some_plain l.description;
}

abbrev pub post_args : PromoteArgs → DraftClassification → PostArgs
post_args a draft = record {
  period_id = a.period_id;
  entry_date = a.entry_date;
  lines = map line_input a.lines;
  memo = some_plain a.memo;
  source_document_id = some draft.source_document_id;
}

abbrev pub set_draft : ℕ → (DraftClassification → DraftClassification) → Session → Session
set_draft id f s = record s { drafts = update_if (λ d. d.id == id) f s.drafts }

abbrev pub promoted : Caller → ℕ → ℕ → ℕ → DraftClassification → DraftClassification
promoted caller now entry_id learned d = record d {
  status = DraftStatus.promoted;
  promoted_journal_entry_id = some entry_id;
  reviewed_at = some now;
  reviewed_by = some caller.actor;
  payload = record d.payload { learned_rule_count = some learned };
}

abbrev pub log_draft : Caller → AuditAction → ℕ → AuditDetails → Action (Unit {0})
log_draft caller action draft_id details =
    write_audit caller.firm_id caller.client_id caller.actor action "draft_classification"
      (some draft_id) details

abbrev pub rejected : Caller → ℕ → DraftClassification → DraftClassification
rejected caller now d = record d {
  status = DraftStatus.rejected;
  reviewed_at = some now;
  reviewed_by = some caller.actor;
}

unfoldable pub reject_pending : Caller → Option String → ℕ → DraftClassification → Action (Unit {0})
reject_pending caller reason now draft =
    modify (set_draft draft.id (rejected caller now))
    >> log_draft caller AuditAction.reject draft.id (reason_details reason)

-- `reject_draft`
unfoldable pub reject_draft : Caller → ℕ → Option String → ℕ → Action (Unit {0})
reject_draft caller draft_id reason now =
    promotable caller draft_id >>= reject_pending caller reason now

module _ (is_space is_word is_digit : Char → Bool) (lower : String → String)
    (file : RulesFile) where
  abbrev pub learn_single : PromoteArgs → DraftClassification → Session → ℕ × RulesFile
  learn_single a draft s =
      learn_rule_from_single_promote is_space is_word is_digit lower file draft a.lines a.memo s

  -- The end of `promote_draft`, behind the posting.
  unfoldable pub mark_promoted :
      Caller → PromoteArgs → ℕ → DraftClassification → JournalEntry → Action (ℕ × RulesFile)
  mark_promoted caller a now draft entry s =
      let (learned, file') = learn_single a draft s in
      (modify (set_draft draft.id (promoted caller now entry.id learned))
          >> (log_draft caller AuditAction.promote draft.id
                (promoted_details entry.id a.period_id (some_plain a.memo))
              >> pure (entry.id, file')))
        s

  module _ (numeric : ℤ → Option ℤ) where
    unfoldable pub promote_found :
        Caller → PromoteArgs → ℕ → ℕ → DraftClassification → Action (ℕ × RulesFile)
    promote_found caller a new_id now draft =
        post numeric (service_of caller) (post_args a draft) new_id now
        >>= mark_promoted caller a now draft

    -- `promote_draft`: the id of the entry, and the file of rules.
    unfoldable pub promote_draft : Caller → ℕ → PromoteArgs → ℕ → ℕ → Action (ℕ × RulesFile)
    promote_draft caller draft_id a new_id now =
        promotable caller draft_id >>= promote_found caller a new_id now
