-- ===== src/Ledger/Rows.antt =====
-- What `add_lines` leaves in the table of journal lines (app/domain/ledger.py, `post`).
use company_tax_and_accounti.Base.{
  ℕ, suc, ℤ, Option, some, List, [], ◌∷◌, ◌++◌, ◌≡◌, ◌∙◌, ap, true, inl, inr, arith, Option-cases,
}
use company_tax_and_accounti.Model.{JournalLine}
use company_tax_and_accounti.Session.{ok, Session}
use company_tax_and_accounti.Session.Binds.{>>-ok}
use company_tax_and_accounti.Ledger.{
  LedgerService, LineInput, line_constraints, add_line, add_lines,
}
use mathlib.Core.List.{append-nil, append_assoc}

module _ (numeric : ℤ → Option ℤ) (svc : LedgerService) (entry_id : ℕ) where
  -- A row that holds the `i`-th line of an entry: its amounts are rounded to the column and keep
  -- the constraints.
  pub record Holds (i : ℕ) (l : LineInput) (r : JournalLine) : Type 0 where
    pub firm : r.firm_id ≡ svc.firm_id
    pub client : r.client_id ≡ svc.client_id
    pub entry : r.entry_id ≡ entry_id
    pub number : r.line_no ≡ i
    pub account : r.account_id ≡ l.account_id
    pub debit_column : numeric l.debit ≡ some r.debit
    pub credit_column : numeric l.credit ≡ some r.credit
    pub checked : line_constraints r.debit r.credit ≡ true

  -- The rows hold the lines, in order and numbered from `i`.
  abbrev pub HoldsAll : ℕ → List LineInput → List JournalLine → Type 0
  HoldsAll i [] [] = Unit
  HoldsAll i [] (r ∷ rs) = ⊥
  HoldsAll i (l ∷ ls) [] = ⊥
  HoldsAll i (l ∷ ls) (r ∷ rs) = Holds i l r × HoldsAll (suc i) ls rs

  abbrev pub row : ℕ → LineInput → ℤ → ℤ → JournalLine
  row i l d c = record {
    firm_id = svc.firm_id;
    client_id = svc.client_id;
    entry_id = entry_id;
    line_no = i;
    account_id = l.account_id;
    debit = d;
    credit = c;
    description = l.description;
  }

  add_line-Holds :
      (i : ℕ) (l : LineInput) (s : Session)
      → (add_line numeric svc entry_id i l s).0 ≡ ok tt
      → (r : JournalLine) × ((add_line numeric svc entry_id i l s).1
          ≡ record s { lines = s.lines ++ (r ∷ []) })
        × Holds i l r
  unfolding add_line
  add_line-Holds i l s h = elim (Option-cases (numeric l.debit)) [
    | inl bad ↦ absurd (ground arith)
    | inr (d, ed) ↦ elim (Option-cases (numeric l.credit)) [
      | inl bad ↦ absurd (ground arith)
      | inr (c, ec) ↦ (row i l d c, ground arith, ground arith)
    ]
  ]

  pub add_lines-HoldsAll :
      (i : ℕ) (ls : List LineInput) (s : Session)
      → (add_lines numeric svc entry_id i ls s).0 ≡ ok tt
      → (rs : List JournalLine) × ((add_lines numeric svc entry_id i ls s).1
          ≡ record s { lines = s.lines ++ rs })
        × HoldsAll i ls rs
  unfolding add_lines
  add_lines-HoldsAll i [] s h = ([], rw append-nil, tt)
  add_lines-HoldsAll i (l ∷ ls) s h =
      let (now, later, ends) =
        >>-ok (add_line numeric svc entry_id i l) (add_lines numeric svc entry_id (suc i) ls) s h in
      let (r, e, hr) = add_line-Holds i l s now in
      let s' = (add_line numeric svc entry_id i l s).1 in
      let (rs, e', hrs) = add_lines-HoldsAll (suc i) ls s' later in
      (
        r ∷ rs,
        ends
            ∙ e'
            ∙ ap (λ (t : Session). record t { lines = t.lines ++ rs }) e
            ∙ ap (λ (ls' : List JournalLine). record s { lines = ls' })
                (append_assoc s.lines (r ∷ []) rs),
        (hr, hrs),
      )
