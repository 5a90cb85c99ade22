-- ===== src/Ledger/Books.antt =====
-- The invariant of the books, and that `post` (app/domain/ledger.py) keeps it.
use company_tax_and_accounti.Base.{
  ℕ, ℤ, ◌+ℤ◌, ◌≤◌, Option, List, [], ◌∷◌, ◌++◌, ◌≡◌, refl, sym, ap, ◌∙◌, Bool, true, false, ◌&&◌,
  arith, any, ◌==◌, ==→eq, ==-refl, count_if, All, All-map, All-append, any-append, Bool-cases, inl,
  inr, suc, +ℤ_zero,
}
use mathlib.Core.Path.{subst}
use company_tax_and_accounti.Base.Sums.{sum_if, sum_if-append, sum_if-false, sum_if_cong_on}
use company_tax_and_accounti.Model.{JournalEntry, JournalLine}
use company_tax_and_accounti.Tenant.{visible}
use company_tax_and_accounti.Session.{Session, ok}
use company_tax_and_accounti.Ledger.{LedgerService, LineInput, PostArgs, of_entry, new_entry, post}
use company_tax_and_accounti.Ledger.Accounts.{on_chart, is_postable, checked-Postable}
use company_tax_and_accounti.Ledger.Rows.{HoldsAll}
use company_tax_and_accounti.Ledger.Posting.{post-Persisted}

-- The lines of one entry of one tenant.
abbrev pub in_entry : ℕ → ℕ → ℕ → JournalLine → Bool
in_entry f c e l = l.entry_id == e && (l.firm_id == f && l.client_id == c)

abbrev pub known : List JournalEntry → ℕ → Bool
known entries id = any (λ x. x.id == id) entries

-- Every entry balances, every line belongs to an entry and to one account on its tenant's chart,
-- and the accounts' ids are keys.
pub record IsBook (s : Session) : Type 0 where
  pub balanced :
      (f c e : ℕ)
      → sum_if (in_entry f c e) (λ l. l.debit) s.lines
        ≡ sum_if (in_entry f c e) (λ l. l.credit) s.lines
  pub linked : All (λ l. known s.entries l.entry_id ≡ true) s.lines
  pub keyed : (id : ℕ) → count_if (λ a. a.id == id) s.accounts ≤ 1
  pub charted :
      All (λ l. count_if (on_chart l.firm_id l.client_id l.account_id) s.accounts ≡ 1) s.lines

-- What all the rows of one posting have in common.
abbrev pub IsOf : LedgerService → ℕ → JournalLine → Type 0
IsOf svc id l = (l.firm_id ≡ svc.firm_id) × (l.client_id ≡ svc.client_id) × (l.entry_id ≡ id)

pub HoldsAll-IsOf :
    (numeric : ℤ → Option ℤ) (svc : LedgerService) (id i : ℕ) (ls : List LineInput)
    (rows : List JournalLine)
    → HoldsAll numeric svc id i ls rows
    → All (IsOf svc id) rows
HoldsAll-IsOf numeric svc id i [] [] h = tt
HoldsAll-IsOf numeric svc id i [] (r ∷ rows) h = elim h [ ]
HoldsAll-IsOf numeric svc id i (l ∷ ls) [] h = elim h [ ]
HoldsAll-IsOf numeric svc id i (l ∷ ls) (r ∷ rows) h =
    ((h.0.firm, h.0.client, h.0.entry), HoldsAll-IsOf numeric svc id (suc i) ls rows h.1)

-- A line of a known entry is not one of an entry whose id is fresh.
pub fresh_entry :
    (entries : List JournalEntry) (id : ℕ) (lines : List JournalLine)
    → known entries id ≡ false
    → All (λ l. known entries l.entry_id ≡ true) lines
    → All (λ l. (l.entry_id == id) ≡ false) lines
fresh_entry entries id lines new h =
    All-map (λ l. known entries l.entry_id ≡ true) _ lines
      (λ l k. elim (Bool-cases (l.entry_id == id)) [
        | inl same ↦
            let clash = subst (λ e. known entries e ≡ true) (==→eq l.entry_id id same) k in cc
        | inr other ↦ other
      ])
      h

-- The sum over the lines of an entry after a posting, by whether it is the entry posted.
module _ (numeric : ℤ → Option ℤ) (svc : LedgerService) (id : ℕ) (f : JournalLine → ℤ) where
  in_new_entry :
      (s : Session) (rows : List JournalLine) (total : ℤ)
      → known s.entries id ≡ false
      → All (λ l. known s.entries l.entry_id ≡ true) s.lines
      → All (IsOf svc id) rows
      → visible s.guc svc.firm_id svc.client_id ≡ true
      → sum_if (of_entry s id) f (s.lines ++ rows) ≡ total
      → sum_if (in_entry svc.firm_id svc.client_id id) f (s.lines ++ rows) ≡ total
  in_new_entry s rows total new linked each shown e =
      sum_if_cong_on (in_entry svc.firm_id svc.client_id id) (of_entry s id) f (s.lines ++ rows) (
        All-append _ s.lines rows
          (All-map (λ l. (l.entry_id == id) ≡ false) _ s.lines (λ l k. rw k refl)
            (fresh_entry s.entries id s.lines new linked))
          (All-map (IsOf svc id) _ rows
            (λ l k.
              rw (k.0, k.1, k.2, shown, ==-refl id, ==-refl svc.firm_id, ==-refl svc.client_id)
                refl)
            each))
      ∙ e

  in_old_entry :
      (s : Session) (rows : List JournalLine) (f' c' e' : ℕ)
      → (svc.firm_id == f' && svc.client_id == c' && id == e') ≡ false
      → All (IsOf svc id) rows
      → sum_if (in_entry f' c' e') f (s.lines ++ rows) ≡ sum_if (in_entry f' c' e') f s.lines
  in_old_entry s rows f' c' e' other each =
      sum_if-append (in_entry f' c' e') f s.lines rows
      ∙ ap (λ t. sum_if (in_entry f' c' e') f s.lines +ℤ t)
          (sum_if-false (in_entry f' c' e') f rows
            (All-map (IsOf svc id) _ rows (λ l k. rw (k.0, k.1, k.2) (ground arith)) each))
      ∙ +ℤ_zero (sum_if (in_entry f' c' e') f s.lines)

known_append :
    (entries : List JournalEntry) (e : JournalEntry) (lines : List JournalLine)
    → All (λ l. known entries l.entry_id ≡ true) lines
    → All (λ l. known (entries ++ (e ∷ [])) l.entry_id ≡ true) lines
known_append entries e lines h =
    All-map (λ l. known entries l.entry_id ≡ true) _ lines
      (λ l k. any-append (λ x. x.id == l.entry_id) entries (e ∷ []) ∙ rw k refl) h

HoldsAll-charted :
    (numeric : ℤ → Option ℤ) (svc : LedgerService) (id i : ℕ) (s : Session) (ls : List LineInput)
    (rows : List JournalLine)
    → HoldsAll numeric svc id i ls rows
    → All
        (λ l.
          (count_if (on_chart svc.firm_id svc.client_id l.account_id) s.accounts ≡ 1)
          × (count_if (is_postable svc.firm_id svc.client_id l.account_id) s.accounts ≡ 1))
        ls
    → All (λ l. count_if (on_chart l.firm_id l.client_id l.account_id) s.accounts ≡ 1) rows
HoldsAll-charted numeric svc id i s [] [] h k = tt
HoldsAll-charted numeric svc id i s [] (r ∷ rows) h k = elim h [ ]
HoldsAll-charted numeric svc id i s (l ∷ ls) [] h k = elim h [ ]
HoldsAll-charted numeric svc id i s (l ∷ ls) (r ∷ rows) h k = (
  rw (h.0.firm, h.0.client, h.0.account) k.0.0,
  HoldsAll-charted numeric svc id (suc i) s ls rows h.1 k.1,
)

module _ (numeric : ℤ → Option ℤ) (svc : LedgerService) (a : PostArgs) (id now : ℕ) where
  balanced_after :
      (s : Session) (total : ℤ) (rows : List JournalLine)
      → IsBook s
      → known s.entries id ≡ false
      → All (IsOf svc id) rows
      → visible s.guc svc.firm_id svc.client_id ≡ true
      → sum_if (of_entry s id) (λ l. l.debit) (s.lines ++ rows) ≡ total
      → sum_if (of_entry s id) (λ l. l.credit) (s.lines ++ rows) ≡ total
      → (f c e : ℕ)
      → sum_if (in_entry f c e) (λ l. l.debit) (s.lines ++ rows)
        ≡ sum_if (in_entry f c e) (λ l. l.credit) (s.lines ++ rows)
  balanced_after s total rows b new each shown ed ec f c e =
      elim (Bool-cases (svc.firm_id == f && svc.client_id == c && id == e)) [
        | inl same ↦
            let d =
              in_new_entry numeric svc id (λ l. l.debit) s rows total new b.linked each shown ed in
            let k =
              in_new_entry numeric svc id (λ l. l.credit) s rows total new b.linked each shown ec in
            let ef : svc.firm_id ≡ f = ground arith in
            let ek : svc.client_id ≡ c = ground arith in
            let ee : id ≡ e = ground arith in rw (← ef, ← ek, ← ee) (d ∙ sym k)
        | inr other ↦
            in_old_entry numeric svc id (λ l. l.debit) s rows f c e other each
            ∙ b.balanced f c e
            ∙ sym (in_old_entry numeric svc id (λ l. l.credit) s rows f c e other each)
      ]

  -- A posting that succeeds keeps the books: every entry still balances, and every line still
  -- belongs to an entry and to one account on the chart of its tenant.
  pub post-IsBook :
      (s : Session) {e : JournalEntry}
      → IsBook s
      → (post numeric svc a id now s).0 ≡ ok e
      → IsBook (post numeric svc a id now s).1
  post-IsBook s b h =
      let (total, admitted, _, done) = post-Persisted numeric svc a id now s h in
      let rows = done.rows in
      let each = HoldsAll-IsOf numeric svc id 1 a.lines rows done.holds in
      let charted = checked-Postable svc a.lines s b.keyed admitted.counted admitted.checked in
      subst IsBook (sym done.ends) (record {
        balanced =
            balanced_after s total rows b done.fresh each done.shown done.debits done.credits;
        linked =
            All-append _ s.lines rows
              (known_append s.entries (new_entry svc a id now) s.lines b.linked)
              (All-map (IsOf svc id) _ rows
                (λ l k. rw k.2 (
                  any-append (λ x. x.id == id) s.entries (new_entry svc a id now ∷ [])
                  ∙ rw (done.fresh, ==-refl id) refl))
                each);
        keyed = b.keyed;
        charted =
            All-append _ s.lines rows b.charted
              (HoldsAll-charted numeric svc id 1 s a.lines rows done.holds charted);
      })
