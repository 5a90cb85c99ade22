-- ===== src/Promotion/Statements.antt =====
-- What the promotion of a bank statement does (`promote_statement_draft` of
-- app/domain/promotion.py).
use mathlib.Core.Path.{subst, ap₂}
use Prim.Native.Char.{Char}
use company_tax_and_accounti.Base.{
  ℕ, ℤ, ◌≤◌, ◌+◌, Bool, Option, Option-cases, [], ◌∷◌, String, ◌==◌, ◌≡◌, sym, ap, ◌∙◌, ◌&&◌, inl,
  inr, arith, length, find,
}
use company_tax_and_accounti.Model.{DraftClassification, AuditAction}
use company_tax_and_accounti.Tenant.{visible}
use company_tax_and_accounti.Session.{Session, ok, pure}
use company_tax_and_accounti.Session.Binds.{>>=-ok}
use company_tax_and_accounti.Ledger.Books.{IsBook}
use company_tax_and_accounti.Tax.Mapping.{Caller}
use company_tax_and_accounti.Promotion.{promotable, set_draft, service_of}
use company_tax_and_accounti.Promotion.Learning.{RulesFile, learn_rules_from_overrides}
use company_tax_and_accounti.Promotion.Plans.{
  Decimal, Statement, StatementArgs, active_accounts, last_by_code,
}
use company_tax_and_accounti.Promotion.Settled.{promotable-ok, decided-ok}
use company_tax_and_accounti.Promotion.Drafts.{IsBook-same}
use company_tax_and_accounti.Promotion.Loop.{Outcome, promote_each-handled}
use company_tax_and_accounti.Promotion.Statement.{
  StatementPromotionResult, statement_for, statement_of, promote_each, mark_statement,
  promoted_statement, promote_transactions, promote_statement_draft,
}

statement_for-ok :
    (caller : Caller) (a : StatementArgs) (d : DraftClassification) (s : Session) (st : Statement)
    → (statement_for caller a d s).0 ≡ ok st
    → (st.draft ≡ d) × ((statement_for caller a d s).1 ≡ s)
unfolding statement_for
statement_for-ok caller a d s st h =
    elim (Option-cases
      (find (λ p. p.id == a.period_id && visible s.guc p.firm_id p.client_id) s.periods)) [
        | inl missing ↦ absurd (ground arith)
        | inr (p, found) ↦
            elim (Option-cases
              (last_by_code (active_accounts caller.client_id s) a.cash_account_code)) [
                | inl no_cash ↦ absurd (ground arith)
                | inr (c, cash) ↦ (ground arith, ground arith)
              ]
      ]

module _ (is_space is_word is_digit : Char → Bool) (lower : String → String) (file : RulesFile)
    (caller : Caller) (a : StatementArgs) (now : ℕ) where
  mark_statement-ok :
      (st : Statement) (x : Outcome) (s : Session) (r : StatementPromotionResult × RulesFile)
      → (mark_statement is_space is_word is_digit lower file caller a now st x s).0 ≡ ok r
      → (r.0.journal_entry_ids ≡ x.0)
        × (r.0.skipped ≡ x.1)
        × (1 ≤ length x.0)
        × ((mark_statement is_space is_word is_digit lower file caller a now st x s).1.entries
            ≡ s.entries)
        × ((mark_statement is_space is_word is_digit lower file caller a now st x s).1.lines
            ≡ s.lines)
        × ((mark_statement is_space is_word is_digit lower file caller a now st x s).1.accounts
            ≡ s.accounts)
  unfolding mark_statement
  mark_statement-ok st ([], skipped) s r h = absurd (cc)
  mark_statement-ok st (first ∷ more, skipped) s r h =
      let learned =
        learn_rules_from_overrides is_space is_word is_digit lower file
          st.draft.payload.transactions a.account_overrides in
      let result : StatementPromotionResult = record {
        journal_entry_ids = first ∷ more;
        skipped = skipped;
      } in
      let (t, k, end, _, entries, lines, accounts) =
        decided-ok caller AuditAction.promote st.draft.id _ (pure (result, learned.1))
          (set_draft st.draft.id (promoted_statement caller now first result learned.0) s) h in
      (
        ground arith,
        ground arith,
        ground arith,
        ap (λ (t : Session). t.entries) end ∙ entries,
        ap (λ (t : Session). t.lines) end ∙ lines,
        ap (λ (t : Session). t.accounts) end ∙ accounts,
      )

  module _ (numeric : ℤ → Option ℤ) (decimal : String → Decimal) (fromisoformat : String → Option ℕ)
      (id : ℕ) (ids : ℕ → ℕ) where
    -- A promotion of a statement that succeeds keeps the books, posts one entry at least, and
    -- accounts for every transaction of the draft: as many entries and skips as transactions.
    pub promote_statement_draft-handled :
        (s : Session) (r : StatementPromotionResult × RulesFile)
        → IsBook s
        → (promote_statement_draft is_space is_word is_digit lower file numeric decimal
            fromisoformat caller id a ids now s).0
          ≡ ok r
        → (st : Statement) × ((statement_of caller id a s).0 ≡ ok st)
          × IsBook
              (promote_statement_draft is_space is_word is_digit lower file numeric decimal
                fromisoformat caller id a ids now s).1
          × (length r.0.journal_entry_ids + length r.0.skipped
              ≡ length st.draft.payload.transactions)
          × (1 ≤ length r.0.journal_entry_ids)
    unfolding promote_statement_draft promote_transactions statement_of
    promote_statement_draft-handled s r b h =
        let rest =
          promote_transactions is_space is_word is_digit lower file numeric decimal fromisoformat
            caller a ids now in
        let (st, h₁, k₁, e₁) = >>=-ok (statement_of caller id a) rest s h in
        let (d, h₂, k₂, e₂) = >>=-ok (promotable caller id) (statement_for caller a) s h₁ in
        let (_, _, _, _, same) = promotable-ok caller id s d h₂ in
        let (_, same') = statement_for-ok caller a d (promotable caller id s).1 st k₂ in
        let reads : (statement_of caller id a s).1 ≡ s = e₂ ∙ same' ∙ same in
        let k : (rest st s).0 ≡ ok r = subst (λ t. (rest st t).0 ≡ ok r) reads k₁ in
        let loop =
          promote_each is_space lower decimal fromisoformat numeric (service_of caller) st
            a.account_overrides ids now 0 st.draft.payload.transactions in
        let mark = mark_statement is_space is_word is_digit lower file caller a now st in
        let (x, h₃, k₃, e₃) = >>=-ok loop mark s k in
        let (kept, count) =
          promote_each-handled is_space lower decimal fromisoformat numeric (service_of caller) st
            a.account_overrides ids now 0 st.draft.payload.transactions s x b h₃ in
        let (of_ids, of_skipped, some_posted, entries, lines, accounts) =
          mark_statement-ok st x (loop s).1 r k₃ in
        let end = e₁ ∙ ap (λ t. (rest st t).1) reads ∙ e₃ in
        (
          st,
          h₁,
          subst IsBook (sym end)
              (IsBook-same (loop s).1 (mark x (loop s).1).1 entries lines accounts kept),
          ap₂ (λ p q. length p + length q) of_ids of_skipped ∙ count,
          rw of_ids some_posted,
        )
