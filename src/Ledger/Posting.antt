-- ===== src/Ledger/Posting.antt =====
-- What a successful `post` has written (app/domain/ledger.py).
use company_tax_and_accounti.Base.{
  ℕ, ℤ, Option, some, List, [], ◌∷◌, ◌++◌, ◌≡◌, ◌∙◌, ap, sym, refl, true, false, arith, any, ◌==◌,
  length, eqb_ℤ→eq,
}
use mathlib.Core.Path.{subst}
use company_tax_and_accounti.Base.Sums.{sum_if}
use company_tax_and_accounti.Model.{
  AuditEvent, AuditAction, JournalEntry, JournalLine, posted_details,
}
use company_tax_and_accounti.Tenant.{visible}
use company_tax_and_accounti.Session.{Session, ok, ◌>>◌, pure, insert_entry}
use company_tax_and_accounti.Session.Binds.{>>=-ok, >>-ok, write_audit-ok, insert_entry-ok}
use company_tax_and_accounti.Ledger.{
  LedgerService, PostArgs, new_entry, of_entry, sum_debit, sum_credit, verify, log_post, add_lines,
  persist, post, admit,
}
use company_tax_and_accounti.Ledger.Rows.{HoldsAll, add_lines-HoldsAll}
use company_tax_and_accounti.Ledger.Admission.{Admitted, admit-Admitted, admit-reads}

abbrev pub post_event : LedgerService → PostArgs → ℕ → ℤ → AuditEvent
post_event svc a new_id total = record {
  firm_id = svc.firm_id;
  client_id = svc.client_id;
  actor = svc.actor;
  action = AuditAction.post;
  entity_type = "journal_entry";
  entity_id = some new_id;
  details = posted_details a.entry_date a.memo total (length a.lines);
}

-- The session after a posting with these rows.
abbrev pub posted : LedgerService → PostArgs → ℕ → ℕ → ℤ → List JournalLine → Session → Session
posted svc a new_id now total rows s = record s {
  entries = s.entries ++ (new_entry svc a new_id now ∷ []);
  lines = s.lines ++ rows;
  audit = s.audit ++ (post_event svc a new_id total ∷ []);
}

module _ (numeric : ℤ → Option ℤ) (svc : LedgerService) (a : PostArgs) (new_id now : ℕ) where
  -- All that a posting with the debit total `total` has done to the session.
  pub record Persisted (total : ℤ) (s s' : Session) : Type 0 where
    pub shown : visible s.guc svc.firm_id svc.client_id ≡ true
    pub fresh : any (λ x. x.id == new_id) s.entries ≡ false
    pub rows : List JournalLine
    pub holds : HoldsAll numeric svc new_id 1 a.lines rows
    pub debits : sum_if (of_entry s new_id) (λ l. l.debit) (s.lines ++ rows) ≡ total
    pub credits : sum_if (of_entry s new_id) (λ l. l.credit) (s.lines ++ rows) ≡ total
    pub ends : s' ≡ posted svc a new_id now total rows s

  verify-ok :
      (total : ℤ) (s : Session)
      → (verify new_id total s).0 ≡ ok tt
      → (sum_debit (of_entry s new_id) s ≡ total)
        × (sum_credit (of_entry s new_id) s ≡ total)
        × ((verify new_id total s).1 ≡ s)
  unfolding verify
  verify-ok total s h =
      let d = sum_debit (of_entry s new_id) s in
      let c = sum_credit (of_entry s new_id) s in
      let dc : d ≡ c = eqb_ℤ→eq d c (ground arith) in
      let dt : d ≡ total = eqb_ℤ→eq d total (ground arith) in (dt, cc, refl)

  persist-Persisted :
      (total : ℤ) (s : Session) {e : JournalEntry}
      → (persist numeric svc a new_id now total s).0 ≡ ok e
      → (e ≡ new_entry svc a new_id now)
        × Persisted total s (persist numeric svc a new_id now total s).1
  unfolding persist
  persist-Persisted total s {e} h =
      let entry = new_entry svc a new_id now in
      let last = log_post svc a new_id total >> pure entry in
      let later = verify new_id total >> last in
      let middle = add_lines numeric svc new_id 1 a.lines >> later in
      let (h₁, k₁, e₁) = >>-ok (insert_entry entry) middle s h in
      let (shown, fresh, i₁) = insert_entry-ok entry s h₁ in
      let s₁ = (insert_entry entry s).1 in
      let (h₂, k₂, e₂) = >>-ok (add_lines numeric svc new_id 1 a.lines) later s₁ k₁ in
      let (rows, i₂, holds) = add_lines-HoldsAll numeric svc new_id 1 a.lines s₁ h₂ in
      let s₂ = (add_lines numeric svc new_id 1 a.lines s₁).1 in
      let (h₃, k₃, e₃) = >>-ok (verify new_id total) last s₂ k₂ in
      let (d, c, i₃) = verify-ok total s₂ h₃ in
      let s₃ = (verify new_id total s₂).1 in
      let (h₄, k₄, e₄) = >>-ok (log_post svc a new_id total) (pure entry) s₃ k₃ in
      let (_, i₄) =
        write_audit-ok svc.firm_id svc.client_id svc.actor AuditAction.post "journal_entry"
          (some new_id) (posted_details a.entry_date a.memo total (length a.lines)) s₃ h₄ in
      let written = record s { entries = s.entries ++ (entry ∷ []); lines = s.lines ++ rows } in
      let at₂ : s₂ ≡ written = i₂ ∙ ap (λ (t : Session). record t { lines = t.lines ++ rows }) i₁ in
      let logged : (t : Session) → Session =
        λ t. record t { audit = t.audit ++ (post_event svc a new_id total ∷ []) } in
      (
        ground arith,
        record {
          shown = shown;
          fresh = fresh;
          rows = rows;
          holds = holds;
          debits = subst (λ t. sum_debit (of_entry t new_id) t ≡ total) at₂ d;
          credits = subst (λ t. sum_credit (of_entry t new_id) t ≡ total) at₂ c;
          ends = e₁ ∙ e₂ ∙ e₃ ∙ e₄ ∙ i₄ ∙ ap logged (i₃ ∙ at₂);
        },
      )

  -- A posting that succeeds has passed the checks on the session before it, returns the header,
  -- and has written the header, the lines and the audit event, and nothing else.
  pub post-Persisted :
      (s : Session) {e : JournalEntry}
      → (post numeric svc a new_id now s).0 ≡ ok e
      → (total : ℤ) × Admitted svc a s total
        × (e ≡ new_entry svc a new_id now)
        × Persisted total s (post numeric svc a new_id now s).1
  unfolding post
  post-Persisted s {e} h =
      let (total, h₁, k₁, e₁) =
        >>=-ok (admit svc a) (λ t. persist numeric svc a new_id now t) s h in
      let same = admit-reads svc a s in
      let (is, done) =
        persist-Persisted total s
          (subst (λ t. (persist numeric svc a new_id now total t).0 ≡ ok e) same k₁) in
      let end : (post numeric svc a new_id now s).1 ≡ (persist numeric svc a new_id now total s).1 =
        e₁ ∙ ap (λ t. (persist numeric svc a new_id now total t).1) same in
      (total, admit-Admitted svc a s total h₁, is, subst (Persisted total s) (sym end) done)
