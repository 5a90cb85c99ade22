-- ===== src/Promotion/Drafts.antt =====
-- What the promotion of one draft does (`promote_draft` of app/domain/promotion.py).
use mathlib.Core.Path.{subst}
use Prim.Native.Char.{Char}
use company_tax_and_accounti.Base.{
  ℕ, ℤ, List, [], ◌∷◌, ◌++◌, some, Bool, true, false, Option, String, ◌==◌, ◌≡◌, refl, sym, ap, ◌∙◌,
  ◌⊎◌, arith, update_if, All,
}
use company_tax_and_accounti.Model.{
  DraftClassification, DraftStatus, AuditAction, JournalEntry, JournalLine, JournalEntryStatus,
  is_firm, is_pending,
}
use company_tax_and_accounti.Session.{Session, ok, err, already_promoted, pure}
use company_tax_and_accounti.Session.Binds.{>>=-ok}
use company_tax_and_accounti.Ledger.{post}
use company_tax_and_accounti.Ledger.Books.{IsBook, post-IsBook}
use company_tax_and_accounti.Tax.Mapping.{Caller}
use company_tax_and_accounti.Promotion.Learning.{PromoteLineInput, RulesFile}
use company_tax_and_accounti.Promotion.{
  PromoteArgs, promotable, promote_draft, promote_found, mark_promoted, learn_single, reject_draft,
  reject_pending, set_draft, promoted, post_args, service_of,
}
use company_tax_and_accounti.Promotion.Settled.{
  Settled, promotable-ok, promotable-Settled, set_draft-Settled, decided-ok, refused,
}

-- The steps of a promotion that succeeds.
record Promotes (numeric : ℤ → Option ℤ) (caller : Caller) (id : ℕ) (a : PromoteArgs)
    (new_id now : ℕ) (s t : Session) (r : ℕ) : Type 0 where
  pub draft : DraftClassification
  pub of_id : draft.id ≡ id
  pub of_firm : draft.firm_id ≡ caller.firm_id
  pub of_client : draft.client_id ≡ caller.client_id
  pub pending : is_pending draft.status ≡ true
  pub entry : JournalEntry
  pub posts : (post numeric (service_of caller) (post_args a draft) new_id now s).0 ≡ ok entry
  pub returns : r ≡ entry.id
  pub learned : ℕ
  pub drafts :
      t.drafts
      ≡ update_if
          (λ d. d.id == id)
          (promoted caller now entry.id learned)
          (post numeric (service_of caller) (post_args a draft) new_id now s).1.drafts
  pub entries :
      t.entries ≡ (post numeric (service_of caller) (post_args a draft) new_id now s).1.entries
  pub lines : t.lines ≡ (post numeric (service_of caller) (post_args a draft) new_id now s).1.lines
  pub accounts :
      t.accounts ≡ (post numeric (service_of caller) (post_args a draft) new_id now s).1.accounts

-- A row that records a line of the reviewer, each amount as its column stores it.
pub record Recorded (numeric : ℤ → Option ℤ) (caller : Caller) (new_id : ℕ) (l : PromoteLineInput)
    (r : JournalLine) : Type 0 where
  pub firm : r.firm_id ≡ caller.firm_id
  pub client : r.client_id ≡ caller.client_id
  pub entry : r.entry_id ≡ new_id
  pub account : r.account_id ≡ l.account_id
  pub debit : numeric l.debit ≡ some r.debit
  pub credit : numeric l.credit ≡ some r.credit

abbrev pub RecordedAll :
    (ℤ → Option ℤ) → Caller → ℕ → List PromoteLineInput → List JournalLine → Type 0
RecordedAll numeric caller new_id [] [] = Unit
RecordedAll numeric caller new_id [] (r ∷ rs) = ⊥
RecordedAll numeric caller new_id (l ∷ ls) [] = ⊥
RecordedAll numeric caller new_id (l ∷ ls) (r ∷ rs) =
    Recorded numeric caller new_id l r × RecordedAll numeric caller new_id ls rs

-- What a promotion that succeeds has done to the tables.
pub record Promoted (numeric : ℤ → Option ℤ) (caller : Caller) (id : ℕ) (a : PromoteArgs)
    (new_id now : ℕ) (s t : Session) (r : ℕ) : Type 0 where
  pub draft : DraftClassification
  pub of_id : draft.id ≡ id
  pub of_firm : draft.firm_id ≡ caller.firm_id
  pub of_client : draft.client_id ≡ caller.client_id
  pub pending : draft.status ≡ DraftStatus.pending_review
  pub entry : JournalEntry
  pub entry_id : entry.id ≡ new_id
  pub period : entry.period_id ≡ a.period_id
  pub date : entry.entry_date ≡ a.entry_date
  pub document : entry.source_document_id ≡ some draft.source_document_id
  pub posted : entry.status ≡ JournalEntryStatus.posted
  pub entries : t.entries ≡ s.entries ++ (entry ∷ [])
  pub rows : List JournalLine
  pub recorded : RecordedAll numeric caller new_id a.lines rows
  pub lines : t.lines ≡ s.lines ++ rows
  pub returns : r ≡ new_id
  pub learned : ℕ
  pub drafts :
      t.drafts
      ≡ update_if
          (λ d. d.id == id)
          (λ d. record d {
            status = DraftStatus.promoted;
            promoted_journal_entry_id = some new_id;
            reviewed_at = some now;
            reviewed_by = some caller.actor;
            payload = record d.payload { learned_rule_count = some learned };
          })
          s.drafts

-- The books only depend on the entries, the lines and the accounts.
pub IsBook-same :
    (s t : Session)
    → t.entries ≡ s.entries
    → t.lines ≡ s.lines
    → t.accounts ≡ s.accounts
    → IsBook s
    → IsBook t
IsBook-same s t e l a b = record {
  balanced = rw l b.balanced;
  linked = rw (l, e) b.linked;
  keyed = rw a b.keyed;
  charted = rw (l, a) b.charted;
}

module _ (is_space is_word is_digit : Char → Bool) (lower : String → String) (file : RulesFile)
    (numeric : ℤ → Option ℤ) (caller : Caller) (id : ℕ) (a : PromoteArgs) (new_id now : ℕ) where
  mark_promoted-ok :
      (d : DraftClassification) (e : JournalEntry) (s : Session) (r : ℕ × RulesFile)
      → (mark_promoted is_space is_word is_digit lower file caller a now d e s).0 ≡ ok r
      → (r.0 ≡ e.id)
        × ((mark_promoted is_space is_word is_digit lower file caller a now d e s).1.drafts
            ≡ update_if
                (λ x. x.id == d.id)
                (promoted caller now e.id
                  (learn_single is_space is_word is_digit lower file a d s).0)
                s.drafts)
        × ((mark_promoted is_space is_word is_digit lower file caller a now d e s).1.entries
            ≡ s.entries)
        × ((mark_promoted is_space is_word is_digit lower file caller a now d e s).1.lines
            ≡ s.lines)
        × ((mark_promoted is_space is_word is_digit lower file caller a now d e s).1.accounts
            ≡ s.accounts)
  unfolding mark_promoted
  mark_promoted-ok d e s r h =
      let learned = learn_single is_space is_word is_digit lower file a d s in
      let (t, k, end, drafts, entries, lines, accounts) =
        decided-ok caller AuditAction.promote d.id _ (pure (e.id, learned.1))
          (set_draft d.id (promoted caller now e.id learned.0) s) h in
      (
        ground arith,
        ap (λ (t : Session). t.drafts) end ∙ drafts,
        ap (λ (t : Session). t.entries) end ∙ entries,
        ap (λ (t : Session). t.lines) end ∙ lines,
        ap (λ (t : Session). t.accounts) end ∙ accounts,
      )

  promote_draft-Promotes :
      (s : Session) (r : ℕ × RulesFile)
      → (promote_draft is_space is_word is_digit lower file numeric caller id a new_id now s).0
        ≡ ok r
      → Promotes numeric caller id a new_id now s
          (promote_draft is_space is_word is_digit lower file numeric caller id a new_id now s).1
          r.0
  unfolding promote_draft promote_found
  promote_draft-Promotes s r h =
      let then_post =
        promote_found is_space is_word is_digit lower file numeric caller a new_id now in
      let (d, h₁, k₁, e₁) = >>=-ok (promotable caller id) then_post s h in
      let (of_id, of_firm, of_client, pending, same) = promotable-ok caller id s d h₁ in
      let k : (then_post d s).0 ≡ ok r = subst (λ t. (then_post d t).0 ≡ ok r) same k₁ in
      let e : (promote_draft is_space is_word is_digit lower file numeric caller id a new_id now
            s).1
          ≡ (then_post d s).1 =
        e₁ ∙ ap (λ t. (then_post d t).1) same in
      let mark = mark_promoted is_space is_word is_digit lower file caller a now d in
      let posting = post numeric (service_of caller) (post_args a d) new_id now in
      let (x, h₂, k₂, e₂) = >>=-ok posting mark s k in
      let (returns, drafts, entries, lines, accounts) = mark_promoted-ok d x (posting s).1 r k₂ in
      let last = e ∙ e₂ in
      let learned = (learn_single is_space is_word is_digit lower file a d (posting s).1).0 in
      record {
        draft = d;
        of_id = of_id;
        of_firm = of_firm;
        of_client = of_client;
        pending = pending;
        entry = x;
        posts = h₂;
        returns = returns;
        learned = learned;
        drafts =
            ap (λ (t : Session). t.drafts) last
            ∙ drafts
            ∙ ap
                (λ n.
                  update_if (λ y. y.id == n) (promoted caller now x.id learned)
                    (posting s).1.drafts)
                of_id;
        entries = ap (λ (t : Session). t.entries) last ∙ entries;
        lines = ap (λ (t : Session). t.lines) last ∙ lines;
        accounts = ap (λ (t : Session). t.accounts) last ∙ accounts;
      }

  -- A promotion that succeeds keeps the books.
  pub promote_draft-IsBook :
      (s : Session) (r : ℕ × RulesFile)
      → IsBook s
      → (promote_draft is_space is_word is_digit lower file numeric caller id a new_id now s).0
        ≡ ok r
      → IsBook
          (promote_draft is_space is_word is_digit lower file numeric caller id a new_id now s).1
  promote_draft-IsBook s r b h =
      let p = promote_draft-Promotes s r h in
      IsBook-same _ _ p.entries p.lines p.accounts
        (post-IsBook numeric (service_of caller) (post_args a p.draft) new_id now s b p.posts)

  -- After a promotion that succeeds every further promotion or rejection of the draft, by the
  -- firm's users of any tenant, is refused.
  pub promote_draft-once :
      (s : Session) (r : ℕ × RulesFile) (other : Caller) (file' : RulesFile) (b : PromoteArgs)
      (id' now' : ℕ) (reason : Option String)
      → (promote_draft is_space is_word is_digit lower file numeric caller id a new_id now s).0
        ≡ ok r
      → is_firm other.scope ≡ true
      → ((promote_draft is_space is_word is_digit lower file' numeric other id b id' now'
            (promote_draft is_space is_word is_digit lower file numeric caller id a new_id now
              s).1).0
          ≡ err already_promoted)
        × ((reject_draft other id reason now'
              (promote_draft is_space is_word is_digit lower file numeric caller id a new_id now
                s).1).0
            ≡ err already_promoted)
  unfolding promote_draft reject_draft
  promote_draft-once s r other file' b id' now' reason h firm =
      let p = promote_draft-Promotes s r h in
      let posting = post numeric (service_of caller) (post_args a p.draft) new_id now in
      let done =
        promote_draft is_space is_word is_digit lower file numeric caller id a new_id now s in
      let settled : Settled id done.1 =
        subst (All (λ d. (d.id == id ≡ false) ⊎ (is_pending d.status ≡ false))) (sym p.drafts) (
          set_draft-Settled id (promoted caller now p.entry.id p.learned) (posting s).1
            (λ x. refl)) in
      let stop = promotable-Settled other id done.1 firm settled in
      (
        refused other id
            (promote_found is_space is_word is_digit lower file' numeric other b id' now') done.1
            stop,
        refused other id (reject_pending other reason now') done.1 stop,
      )
