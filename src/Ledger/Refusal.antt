-- ===== src/Ledger/Refusal.antt =====
-- When `post` refuses (app/domain/ledger.py), and that a refusal writes nothing.
use company_tax_and_accounti.Base.{
  ℕ, ℤ, ◌+ℤ◌, eqb_ℤ-refl, Option, some, List, [], ◌∷◌, ◌++◌, ◌≡◌, refl, ap, ◌∙◌, true, false, arith,
  ◌==◌, ==-refl, suc, All, All-map, zero_+ℤ,
}
use mathlib.Core.List.{append-nil, append_assoc}
use company_tax_and_accounti.Base.Sums.{sum_if, sum_by, sum_if-append, sum_if-false}
use company_tax_and_accounti.Model.{JournalLine, JournalEntry}
use company_tax_and_accounti.Tenant.{visible}
use company_tax_and_accounti.Session.{
  Session, Result, ok, err, ◌>>◌, pure, insert_entry, write_audit,
}
use company_tax_and_accounti.Session.Binds.{>>-step, >>=-step, >>=-stop}
use company_tax_and_accounti.Ledger.{
  LedgerService, LineInput, PostArgs, line_constraints, of_entry, new_entry, add_line, add_lines,
  verify, log_post, persist, post, admit, validate_lines,
}
use company_tax_and_accounti.Ledger.Validation.{IsOneSided, debits, credits, validate_lines_iff}
use company_tax_and_accounti.Ledger.Admission.{admit-Admitted, admit-reads}
use company_tax_and_accounti.Ledger.Rows.{row}
use company_tax_and_accounti.Ledger.Posting.{posted}
use company_tax_and_accounti.Ledger.Books.{IsBook, known, fresh_entry}

-- The database takes the amounts of the lines as they are.
abbrev pub IsExact : (ℤ → Option ℤ) → LineInput → Type 0
IsExact numeric l = (numeric l.debit ≡ some l.debit) × (numeric l.credit ≡ some l.credit)

OneSided-constraints : (l : LineInput) → IsOneSided l → line_constraints l.debit l.credit ≡ true
OneSided-constraints l h = ground arith

module _ (numeric : ℤ → Option ℤ) (svc : LedgerService) (id : ℕ) where
  -- The rows of lines whose amounts the column takes as they are.
  exact_rows : ℕ → List LineInput → List JournalLine
  exact_rows i [] = []
  exact_rows i (l ∷ ls) = row numeric svc id i l l.debit l.credit ∷ exact_rows (suc i) ls

  add_line-exact :
      (i : ℕ) (l : LineInput) (s : Session)
      → visible s.guc svc.firm_id svc.client_id ≡ true
      → IsExact numeric l
      → IsOneSided l
      → add_line numeric svc id i l s
        ≡ (ok tt, record s { lines = s.lines ++ (row numeric svc id i l l.debit l.credit ∷ []) })
  unfolding add_line
  add_line-exact i l s shown exact one =
      rw (exact.0, exact.1, shown, OneSided-constraints l one) refl

  add_lines-exact :
      (i : ℕ) (ls : List LineInput) (s : Session)
      → visible s.guc svc.firm_id svc.client_id ≡ true
      → All (IsExact numeric) ls
      → All IsOneSided ls
      → add_lines numeric svc id i ls s ≡ (ok tt, record s { lines = s.lines ++ exact_rows i ls })
  unfolding add_lines exact_rows
  add_lines-exact i [] s shown exact one = rw append-nil refl
  add_lines-exact i (l ∷ ls) s shown exact one =
      let s' = record s { lines = s.lines ++ (row numeric svc id i l l.debit l.credit ∷ []) } in
      let first = add_line-exact i l s shown exact.0 one.0 in
      >>-step (add_line numeric svc id i l) (add_lines numeric svc id (suc i) ls) s s' first
      ∙ add_lines-exact (suc i) ls s' shown exact.1 one.1
      ∙ ap (λ (x : List JournalLine). (ok tt, record s { lines = x }))
          (append_assoc s.lines (row numeric svc id i l l.debit l.credit ∷ [])
            (exact_rows (suc i) ls))

  sums_exact :
      (i : ℕ) (ls : List LineInput) (s : Session)
      → visible s.guc svc.firm_id svc.client_id ≡ true
      → (sum_if (of_entry s id) (λ l. l.debit) (exact_rows i ls) ≡ debits ls)
        × (sum_if (of_entry s id) (λ l. l.credit) (exact_rows i ls) ≡ credits ls)
  unfolding exact_rows sum_if sum_by
  sums_exact i [] s shown = (refl, refl)
  sums_exact i (l ∷ ls) s shown =
      let rest = sums_exact (suc i) ls s shown in
      rw (==-refl id, shown, rest.0, rest.1) (refl, refl)

  module _ (a : PostArgs) (now : ℕ) where
    verify-exact :
        (total : ℤ) (s : Session)
        → sum_if (of_entry s id) (λ l. l.debit) s.lines ≡ total
        → sum_if (of_entry s id) (λ l. l.credit) s.lines ≡ total
        → verify id total s ≡ (ok tt, s)
    unfolding verify
    verify-exact total s d c = rw (d, c, eqb_ℤ-refl total) refl

    persist-exact :
        (total : ℤ) (s : Session)
        → IsBook s
        → known s.entries id ≡ false
        → visible s.guc svc.firm_id svc.client_id ≡ true
        → All (IsExact numeric) a.lines
        → validate_lines a.lines ≡ ok total
        → persist numeric svc a id now total s
          ≡ (ok (new_entry svc a id now), posted svc a id now total (exact_rows 1 a.lines) s)
    unfolding persist write_audit
    persist-exact total s b new shown exact valid =
        let (_, each, ed, ec, _) = (validate_lines_iff a.lines total).0 valid in
        let rows = exact_rows 1 a.lines in
        let entry = new_entry svc a id now in
        let s₁ = record s { entries = s.entries ++ (entry ∷ []) } in
        let s₂ = record s₁ { lines = s.lines ++ rows } in
        let sums = sums_exact 1 a.lines s shown in
        let old = fresh_entry s.entries id s.lines new b.linked in
        let untouched = λ (f : JournalLine → ℤ).
          sum_if-append (of_entry s id) f s.lines rows
          ∙ ap (λ t. t +ℤ sum_if (of_entry s id) f rows)
              (sum_if-false (of_entry s id) f s.lines
                (All-map (λ l. (l.entry_id == id) ≡ false) _ s.lines (λ l k. rw k refl) old))
          ∙ zero_+ℤ (sum_if (of_entry s id) f rows) in
        let verified =
          verify-exact total s₂ (untouched (λ l. l.debit) ∙ sums.0 ∙ ed)
            (untouched (λ l. l.credit) ∙ sums.1 ∙ ec) in
        let last = log_post svc a id total >> pure entry in
        let later = verify id total >> last in
        let inserted : insert_entry entry s ≡ (ok tt, s₁) = rw (shown, new) refl in
        let logged : log_post svc a id total s₂ ≡ (ok tt, posted svc a id now total rows s) =
          rw shown refl in
        >>-step (insert_entry entry) (add_lines numeric svc id 1 a.lines >> later) s s₁ inserted
        ∙ >>-step (add_lines numeric svc id 1 a.lines) later s₁ s₂
            (add_lines-exact 1 a.lines s₁ shown exact each)
        ∙ >>-step (verify id total) last s₂ s₂ verified
        ∙ >>-step (log_post svc a id total) (pure entry) s₂ (posted svc a id now total rows s)
            logged

    -- What `post` returns and leaves, from what its checks say.
    pub outcome : Session → Result ℤ → Result JournalEntry × Session
    outcome s (ok total) =
        (ok (new_entry svc a id now), posted svc a id now total (exact_rows 1 a.lines) s)
    outcome s (err e) = (err e, s)

    -- With amounts that the column holds exactly, an id that is fresh and a tenant that the policy
    -- shows, `post` does just what its checks say: if they pass, the header, the lines and the
    -- audit event are written, so that no later test fails; if they raise, `post` raises the same
    -- and the session is as it was.
    pub post-outcome :
        (s : Session)
        → IsBook s
        → known s.entries id ≡ false
        → visible s.guc svc.firm_id svc.client_id ≡ true
        → All (IsExact numeric) a.lines
        → post numeric svc a id now s ≡ outcome s (admit svc a s).0
    unfolding post outcome
    post-outcome s b new shown exact = split (admit svc a s).0 refl
      where
        split : (r : Result ℤ) → (admit svc a s).0 ≡ r → post numeric svc a id now s ≡ outcome s r
        split (err e) h =
            >>=-stop (admit svc a) (persist numeric svc a id now) s s e (cc (admit-reads svc a s))
        split (ok total) h =
            let admitted = admit-Admitted svc a s total h in
            >>=-step (admit svc a) (persist numeric svc a id now) s s total
              (cc (admit-reads svc a s))
            ∙ persist-exact total s b new shown exact admitted.valid
