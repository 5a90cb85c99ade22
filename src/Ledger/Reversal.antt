-- ===== src/Ledger/Reversal.antt =====
-- What `LedgerService.reverse` (app/domain/ledger.py) does to the books.
use mathlib.Core.Path.{subst}
use company_tax_and_accounti.Base.{
  ℕ, suc, ℤ, ◌++◌, map, leb, select, sort_by, Option, Option-cases, inl, inr, some, List, [], ◌∷◌,
  ◌≡◌, refl, ap, ◌∙◌, true, ◌&&◌, arith, find, update_if, ◌==◌, All-map,
}
use company_tax_and_accounti.Model.{
  JournalEntry, JournalLine, JournalEntryStatus, Label, AuditAction, is_posted, reversed_details,
}
use company_tax_and_accounti.Tenant.{visible}
use company_tax_and_accounti.Session.{Session, ok, ◌>>=◌, pure, gets, write_audit}
use company_tax_and_accounti.Session.Binds.{>>=-ok, >>-ok, write_audit-ok}
use company_tax_and_accounti.Ledger.{
  LedgerService, PostArgs, lines_of, set_status, reversible, reversal_args, mark_reversed, reverse,
  post, flip,
}
use company_tax_and_accounti.Ledger.Rows.{HoldsAll}
use company_tax_and_accounti.Ledger.Posting.{post-Persisted}
use company_tax_and_accounti.Ledger.Books.{IsBook, known, post-IsBook}

reversible-ok :
    (svc : LedgerService) (id : ℕ) (s : Session) (o : JournalEntry)
    → (reversible svc id s).0 ≡ ok o
    → (find (λ e. e.id == id && visible s.guc e.firm_id e.client_id) s.entries ≡ some o)
      × (o.firm_id ≡ svc.firm_id)
      × (o.client_id ≡ svc.client_id)
      × (is_posted o.status ≡ true)
      × ((reversible svc id s).1 ≡ s)
unfolding reversible
reversible-ok svc id s o h =
    elim (Option-cases (find (λ e. e.id == id && visible s.guc e.firm_id e.client_id) s.entries)) [
      | inl missing ↦ absurd (ground arith)
      | inr (x, found) ↦ (ground arith, ground arith, ground arith, ground arith, ground arith)
    ]

mark_reversed-ok :
    (svc : LedgerService) (id new_id : ℕ) (e : JournalEntry) (s : Session) (r : JournalEntry)
    → (mark_reversed svc id new_id e s).0 ≡ ok r
    → (e ≡ r)
      × ((mark_reversed svc id new_id e s).1.entries
          ≡ update_if (λ x. x.id == id) (set_status JournalEntryStatus.reversed) s.entries)
      × ((mark_reversed svc id new_id e s).1.lines ≡ s.lines)
      × ((mark_reversed svc id new_id e s).1.accounts ≡ s.accounts)
unfolding mark_reversed
mark_reversed-ok svc id new_id e s r h =
    let s' = record s {
      entries = update_if (λ x. x.id == id) (set_status JournalEntryStatus.reversed) s.entries;
    } in
    let log =
      write_audit svc.firm_id svc.client_id svc.actor AuditAction.reverse "journal_entry" (some id)
        (reversed_details new_id) in
    let (h₁, k₁, e₁) = >>-ok log (pure e) s' h in
    let (_, i) =
      write_audit-ok svc.firm_id svc.client_id svc.actor AuditAction.reverse "journal_entry"
        (some id) (reversed_details new_id) s' h₁ in
    let end = e₁ ∙ i in
    (
      ground arith,
      ap (λ (t : Session). t.entries) end,
      ap (λ (t : Session). t.lines) end,
      ap (λ (t : Session). t.accounts) end,
    )

-- A change of status keeps the ids.
known-set_status :
    (id e : ℕ) (st : JournalEntryStatus) (entries : List JournalEntry)
    → known (update_if (λ x. x.id == id) (set_status st) entries) e ≡ known entries e
known-set_status id e st [] = refl
known-set_status id e st (x ∷ entries) = ground (arith, known-set_status id e st entries)

-- The books only depend on the ids of the entries, the lines and the accounts.
IsBook-status :
    (s t : Session) (id : ℕ) (st : JournalEntryStatus)
    → t.entries ≡ update_if (λ x. x.id == id) (set_status st) s.entries
    → t.lines ≡ s.lines
    → t.accounts ≡ s.accounts
    → IsBook s
    → IsBook t
IsBook-status s t id st e l a b = record {
  balanced = rw l b.balanced;
  linked =
      rw (l, e)
        (All-map (λ x. known s.entries x.entry_id ≡ true) _ s.lines
          (λ x k. known-set_status id x.entry_id st s.entries ∙ k) b.linked);
  keyed = rw a b.keyed;
  charted = rw (l, a) b.charted;
}

-- The steps of a reversal that succeeds.
abbrev Stepped :
    (ℤ → Option ℤ)
    → LedgerService
    → ℕ
    → Option Label
    → ℕ
    → ℕ
    → Session
    → JournalEntry
    → Session
    → Type 0
Stepped numeric svc id memo new_id now s r t =
    (o : JournalEntry) × (find (λ e. e.id == id && visible s.guc e.firm_id e.client_id) s.entries
      ≡ some o)
    × (o.firm_id ≡ svc.firm_id)
    × (o.client_id ≡ svc.client_id)
    × (is_posted o.status ≡ true)
    × ((post numeric svc (reversal_args o memo (lines_of id s)) new_id now s).0 ≡ ok r)
    × (t.entries
        ≡ update_if (λ x. x.id == id) (set_status JournalEntryStatus.reversed)
            (post numeric svc (reversal_args o memo (lines_of id s)) new_id now s).1.entries)
    × (t.lines ≡ (post numeric svc (reversal_args o memo (lines_of id s)) new_id now s).1.lines)
    × (t.accounts
        ≡ (post numeric svc (reversal_args o memo (lines_of id s)) new_id now s).1.accounts)

-- A row that undoes a line: the same account, with debit and credit exchanged.
pub record Mirrored (numeric : ℤ → Option ℤ) (svc : LedgerService) (new_id : ℕ) (l r : JournalLine)
    : Type 0 where
  pub firm : r.firm_id ≡ svc.firm_id
  pub client : r.client_id ≡ svc.client_id
  pub entry : r.entry_id ≡ new_id
  pub account : r.account_id ≡ l.account_id
  pub debit : numeric l.credit ≡ some r.debit
  pub credit : numeric l.debit ≡ some r.credit

abbrev pub MirroredAll :
    (ℤ → Option ℤ) → LedgerService → ℕ → List JournalLine → List JournalLine → Type 0
MirroredAll numeric svc new_id [] [] = Unit
MirroredAll numeric svc new_id [] (r ∷ rs) = ⊥
MirroredAll numeric svc new_id (l ∷ ls) [] = ⊥
MirroredAll numeric svc new_id (l ∷ ls) (r ∷ rs) =
    Mirrored numeric svc new_id l r × MirroredAll numeric svc new_id ls rs

HoldsAll-MirroredAll :
    (numeric : ℤ → Option ℤ) (svc : LedgerService) (new_id i : ℕ) (ls rs : List JournalLine)
    → HoldsAll numeric svc new_id i (map flip ls) rs
    → MirroredAll numeric svc new_id ls rs
HoldsAll-MirroredAll numeric svc new_id i [] [] h = tt
HoldsAll-MirroredAll numeric svc new_id i [] (r ∷ rs) h = h
HoldsAll-MirroredAll numeric svc new_id i (l ∷ ls) [] h = h
HoldsAll-MirroredAll numeric svc new_id i (l ∷ ls) (r ∷ rs) h = (
  record {
    firm = h.0.firm;
    client = h.0.client;
    entry = h.0.entry;
    account = h.0.account;
    debit = h.0.debit_column;
    credit = h.0.credit_column;
  },
  HoldsAll-MirroredAll numeric svc new_id (suc i) ls rs h.1,
)

-- What a reversal that succeeds has done to the tables.
pub record Reversed (numeric : ℤ → Option ℤ) (svc : LedgerService) (id new_id : ℕ) (s : Session)
    (r : JournalEntry) (t : Session) : Type 0 where
  pub original : JournalEntry
  pub found :
      find (λ e. e.id == id && visible s.guc e.firm_id e.client_id) s.entries ≡ some original
  pub of_firm : original.firm_id ≡ svc.firm_id
  pub of_client : original.client_id ≡ svc.client_id
  pub posted : is_posted original.status ≡ true
  pub id_of : r.id ≡ new_id
  pub period_of : r.period_id ≡ original.period_id
  pub date_of : r.entry_date ≡ original.entry_date
  pub document_of : r.source_document_id ≡ original.source_document_id
  pub status_of : r.status ≡ JournalEntryStatus.posted
  pub rows : List JournalLine
  pub mirrored :
      MirroredAll numeric svc new_id
        (sort_by
          (λ x y. leb x.line_no y.line_no)
          (select (λ l. l.entry_id == id && visible s.guc l.firm_id l.client_id) s.lines))
        rows
  pub lines : t.lines ≡ s.lines ++ rows
  pub entries :
      t.entries
      ≡ update_if
          (λ x. x.id == id)
          (λ x. record x { status = JournalEntryStatus.reversed })
          (s.entries ++ (r ∷ []))
  pub accounts : t.accounts ≡ s.accounts

module _ (numeric : ℤ → Option ℤ) (svc : LedgerService) (id : ℕ) (memo : Option Label)
    (new_id now : ℕ) where
  reverse-Stepped :
      (s : Session) (r : JournalEntry)
      → (reverse numeric svc id memo new_id now s).0 ≡ ok r
      → Stepped numeric svc id memo new_id now s r (reverse numeric svc id memo new_id now s).1
  unfolding reverse
  reverse-Stepped s r h =
      let then_post =
        λ (args : PostArgs). post numeric svc args new_id now >>= mark_reversed svc id new_id in
      let then_read =
        λ (o : JournalEntry). gets (λ t. reversal_args o memo (lines_of id t)) >>= then_post in
      let (o, h₁, k₁, e₁) = >>=-ok (reversible svc id) then_read s h in
      let (found, of_firm, of_client, is, same) = reversible-ok svc id s o h₁ in
      let args = reversal_args o memo (lines_of id s) in
      let k : (then_post args s).0 ≡ ok r = subst (λ t. (then_read o t).0 ≡ ok r) same k₁ in
      let e : (reverse numeric svc id memo new_id now s).1 ≡ (then_post args s).1 =
        e₁ ∙ ap (λ t. (then_read o t).1) same in
      let (x, h₂, k₂, e₂) =
        >>=-ok (post numeric svc args new_id now) (mark_reversed svc id new_id) s k in
      let (returned, entries, lines, accounts) =
        mark_reversed-ok svc id new_id x (post numeric svc args new_id now s).1 r k₂ in
      let last = e ∙ e₂ in
      (
        o,
        found,
        of_firm,
        of_client,
        is,
        h₂ ∙ ap ok returned,
        ap (λ (t : Session). t.entries) last ∙ entries,
        ap (λ (t : Session). t.lines) last ∙ lines,
        ap (λ (t : Session). t.accounts) last ∙ accounts,
      )

  -- A reversal that succeeds keeps the books.
  pub reverse-IsBook :
      (s : Session) (r : JournalEntry)
      → IsBook s
      → (reverse numeric svc id memo new_id now s).0 ≡ ok r
      → IsBook (reverse numeric svc id memo new_id now s).1
  reverse-IsBook s r b h =
      let (o, _, _, _, _, posted, entries, lines, accounts) = reverse-Stepped s r h in
      let args = reversal_args o memo (lines_of id s) in
      IsBook-status (post numeric svc args new_id now s).1 _ id JournalEntryStatus.reversed entries
        lines accounts (post-IsBook numeric svc args new_id now s b posted)

  -- A reversal that succeeds was of an entry with the id that the policy shows, that is of the
  -- service's firm and client, and that was POSTED. It returns a new POSTED entry with the
  -- original's period, date and document; the only new rows are those of the new entry, one for
  -- each line of the original in order, of the same account, with the original's credit as its
  -- debit and the original's debit as its credit, each rounded to the column; and the original,
  -- and no other entry, has the status REVERSED afterwards.
  pub reverse-Reversed :
      (s : Session) (r : JournalEntry)
      → (reverse numeric svc id memo new_id now s).0 ≡ ok r
      → Reversed numeric svc id new_id s r (reverse numeric svc id memo new_id now s).1
  reverse-Reversed s r h =
      let (o, found, of_firm, of_client, is, posts, entries, lines, accounts) =
        reverse-Stepped s r h in
      let args = reversal_args o memo (lines_of id s) in
      let (total, _, same, w) = post-Persisted numeric svc args new_id now s posts in
      let at = w.ends in
      rw same (record {
        original = o;
        found = found;
        of_firm = of_firm;
        of_client = of_client;
        posted = is;
        id_of = refl;
        period_of = refl;
        date_of = refl;
        document_of = refl;
        status_of = refl;
        rows = w.rows;
        mirrored = HoldsAll-MirroredAll numeric svc new_id 1 (lines_of id s) w.rows w.holds;
        lines = lines ∙ ap (λ (t : Session). t.lines) at;
        entries =
            entries
            ∙ ap
                (λ (t : Session).
                  update_if (λ x. x.id == id) (set_status JournalEntryStatus.reversed) t.entries)
                at;
        accounts = accounts ∙ ap (λ (t : Session). t.accounts) at;
      })
