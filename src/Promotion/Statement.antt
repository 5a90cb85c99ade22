-- ===== src/Promotion/Statement.antt =====
-- The promotion of a bank statement, an entry per transaction (app/domain/promotion.py). The parameters are
-- the column rounding, Python's white space, `Decimal` on a text and `date.fromisoformat`.
use Prim.Native.Char.{Char}
use company_tax_and_accounti.Base.{
  ℕ, suc, ℤ, ltb, Bool, not, Option, some, List, [], ◌∷◌, String, ◌==◌, length,
}
use company_tax_and_accounti.Model.{
  DraftClassification, DraftStatus, AuditAction, Txn, Payload, SkipReason,
  promoted_statement_details,
}
use company_tax_and_accounti.Session.{
  Action, promotion_forbidden, already_promoted, ◌>>=◌, ◌>>◌, pure, raise, raise_if, gets, modify,
  or_raise, lift_result, get_period,
}
use company_tax_and_accounti.Ledger.{LedgerService, post}
use company_tax_and_accounti.Tax.Mapping.{Caller}
use company_tax_and_accounti.Promotion.Learning.{RulesFile, learn_rules_from_overrides}
use company_tax_and_accounti.Promotion.{promotable, service_of, set_draft, log_draft}
use company_tax_and_accounti.Promotion.Plans.{
  Decimal, Plan, skipping, posting, Statement, StatementArgs, plan_of, active_accounts,
  last_by_code,
}

module _ (is_space : Char → Bool) (lower : String → String) (decimal : String → Decimal)
    (fromisoformat : String → Option ℕ) where
  module _ (numeric : ℤ → Option ℤ) where
    abbrev pub add_posted :
        ℕ → List ℕ × List (ℕ × SkipReason) → Action (List ℕ × List (ℕ × SkipReason))
    add_posted id (ids, skipped) = pure (id ∷ ids, skipped)

    abbrev pub add_skipped :
        ℕ → SkipReason → List ℕ × List (ℕ × SkipReason) → Action (List ℕ × List (ℕ × SkipReason))
    add_skipped idx reason (ids, skipped) = pure (ids, (idx, reason) ∷ skipped)

    abbrev pub carry_out :
        LedgerService
        → ℕ
        → ℕ
        → ℕ
        → Plan
        → Action (List ℕ × List (ℕ × SkipReason))
        → Action (List ℕ × List (ℕ × SkipReason))
    carry_out svc idx new_id now (skipping reason) rest = rest >>= add_skipped idx reason
    carry_out svc idx new_id now (posting args) rest =
        post numeric svc args new_id now >>= λ entry. rest >>= add_posted entry.id

    -- The loop over the transactions; `ids` are those of the new entries.
    unfoldable pub promote_each :
        LedgerService
        → Statement
        → List (ℕ × String)
        → (ℕ → ℕ)
        → ℕ
        → ℕ
        → List Txn
        → Action (List ℕ × List (ℕ × SkipReason))
    promote_each svc st overrides ids now idx [] = pure ([], [])
    promote_each svc st overrides ids now idx (txn ∷ txns) =
        lift_result (plan_of is_space lower decimal fromisoformat st overrides idx txn) >>= λ plan.
        carry_out svc idx (ids idx) now plan (promote_each svc st overrides ids now (suc idx) txns)

-- `StatementPromotionResult`
pub record StatementPromotionResult : Type 0 where
  pub journal_entry_ids : List ℕ
  pub skipped : List (ℕ × SkipReason)

abbrev pub has_transactions : Payload → Bool
has_transactions p = ltb 0 (length p.transactions)

-- The checks of `promote_statement_draft` on the draft, the period and the cash account.
unfoldable pub statement_for : Caller → StatementArgs → DraftClassification → Action Statement
statement_for caller a draft = do
  raise_if (not draft.payload.is_statement) already_promoted
  raise_if (not (has_transactions draft.payload)) already_promoted
  p ← or_raise (← get_period a.period_id) promotion_forbidden
  raise_if (not (p.client_id == caller.client_id)) promotion_forbidden
  raise_if p.is_locked promotion_forbidden
  accounts ← gets (active_accounts caller.client_id)
  cash ← or_raise (last_by_code accounts a.cash_account_code) promotion_forbidden
  pure (record { draft = draft; period = p; accounts = accounts; cash = cash })

-- What `promote_statement_draft` does before its loop.
unfoldable pub statement_of : Caller → ℕ → StatementArgs → Action Statement
statement_of caller draft_id a = promotable caller draft_id >>= statement_for caller a

abbrev pub promoted_statement :
    Caller → ℕ → ℕ → StatementPromotionResult → ℕ → DraftClassification → DraftClassification
promoted_statement caller now first r learned d = record d {
  status = DraftStatus.promoted;
  promoted_journal_entry_id = some first;
  reviewed_at = some now;
  reviewed_by = some caller.actor;
  payload = record d.payload {
    posted_journal_entry_ids = some r.journal_entry_ids;
    posted_count = some (length r.journal_entry_ids);
    skipped = some r.skipped;
    learned_rule_count = some learned;
  };
}

module _ (is_space is_word is_digit : Char → Bool) (lower : String → String)
    (file : RulesFile) where
  -- The end of `promote_statement_draft`, behind the loop.
  unfoldable pub mark_statement :
      Caller
      → StatementArgs
      → ℕ
      → Statement
      → List ℕ × List (ℕ × SkipReason)
      → Action (StatementPromotionResult × RulesFile)
  mark_statement caller a now st ([], skipped) = raise already_promoted
  mark_statement caller a now st (first ∷ more, skipped) =
      let (learned, file') =
        learn_rules_from_overrides is_space is_word is_digit lower file
          st.draft.payload.transactions a.account_overrides in
      let r : StatementPromotionResult = record {
        journal_entry_ids = first ∷ more;
        skipped = skipped;
      } in
      modify (set_draft st.draft.id (promoted_statement caller now first r learned))
      >> (log_draft caller AuditAction.promote st.draft.id
            (promoted_statement_details (first ∷ more) (length skipped) a.period_id)
          >> pure (r, file'))

  module _ (numeric : ℤ → Option ℤ) where
    module _ (decimal : String → Decimal) (fromisoformat : String → Option ℕ) where
      unfoldable pub promote_transactions :
          Caller
          → StatementArgs
          → (ℕ → ℕ)
          → ℕ
          → Statement
          → Action (StatementPromotionResult × RulesFile)
      promote_transactions caller a ids now st =
          promote_each is_space lower decimal fromisoformat numeric (service_of caller) st
            a.account_overrides ids now 0 st.draft.payload.transactions
          >>= mark_statement caller a now st

      -- `promote_statement_draft`
      unfoldable pub promote_statement_draft :
          Caller → ℕ → StatementArgs → (ℕ → ℕ) → ℕ → Action (StatementPromotionResult × RulesFile)
      promote_statement_draft caller draft_id a ids now =
          statement_of caller draft_id a >>= promote_transactions caller a ids now
