-- ===== src/Tax/Worksheet/Activity.antt =====
-- What `_period_activity` (app/domain/tax_service.py) reads of a period.
use company_tax_and_accounti.Base.{
  ℕ, ℤ, List, [], ◌∷◌, some, ◌≡◌, refl, ◌∙◌, select, map, any, ◌==◌, ◌&&◌, Bool, Bool-cases, inl,
  inr, int_laws,
}
use company_tax_and_accounti.Base.Sums.{sum_by, sum_if}
use company_tax_and_accounti.Model.{
  AccountType, ChartOfAccounts, AccountingPeriod, JournalLine, same_type,
}
use company_tax_and_accounti.Tenant.{visible}
use company_tax_and_accounti.Session.{Session}
use company_tax_and_accounti.Statements.{accounts_of}
use company_tax_and_accounti.Tax.Worksheet.{
  AccountActivity, activity_of, column, is_pnl, join_entry, join_rows, or_null, period_activity,
}

columns-joined :
    (s : Session) (p q : AccountingPeriod) (f : JournalLine → ℤ) (ls : List JournalLine)
    → sum_by (column f) (map (λ l. record { line = some l; entry = join_entry s p l }) ls)
      ≡ sum_by (column f) (map (λ l. record { line = some l; entry = join_entry s q l }) ls)
unfolding sum_by
columns-joined s p q f [] = refl
columns-joined s p q f (l ∷ ls) = rw (columns-joined s p q f ls) refl

columns-or_null :
    (s : Session) (p q : AccountingPeriod) (f : JournalLine → ℤ) (ls : List JournalLine)
    → sum_by (column f) (or_null (map (λ l. record { line = some l; entry = join_entry s p l }) ls))
      ≡ sum_by
          (column f)
          (or_null (map (λ l. record { line = some l; entry = join_entry s q l }) ls))
columns-or_null s p q f [] = refl
columns-or_null s p q f (l ∷ ls) = columns-joined s p q f (l ∷ ls)

columns-join_rows :
    (s : Session) (p q : AccountingPeriod) (a : ChartOfAccounts) (f : JournalLine → ℤ)
    → sum_by (column f) (join_rows s p a) ≡ sum_by (column f) (join_rows s q a)
unfolding join_rows
columns-join_rows s p q a f =
    columns-or_null s p q f
      (select (λ l. l.account_id == a.id && visible s.guc l.firm_id l.client_id) s.lines)

activities :
    (s : Session) (p q : AccountingPeriod) (rows : List ChartOfAccounts)
    → map (activity_of s p) rows ≡ map (activity_of s q) rows
activities s p q [] = refl
activities s p q (a ∷ rows) =
    rw
      (
        columns-join_rows s p q a (λ l. l.debit),
        columns-join_rows s p q a (λ l. l.credit),
        activities s p q rows,
      )
      refl

-- The activity that a worksheet is computed from is the same for every two periods, in particular
-- for periods with different dates: the dates and the posted status stand in the condition of an
-- outer join, whose rows are summed whether the condition holds or not.
pub period_activity-period :
    (s : Session) (firm_id client_id : ℕ) (p q : AccountingPeriod)
    → period_activity s firm_id client_id p ≡ period_activity s firm_id client_id q
unfolding period_activity
period_activity-period s firm_id client_id p q =
    activities s p q (select (λ a. is_pnl a.account_type) (accounts_of s firm_id client_id))

sum_by-some :
    (s : Session) (p : AccountingPeriod) (f : JournalLine → ℤ) (ls : List JournalLine)
    → sum_by (column f) (map (λ l. record { line = some l; entry = join_entry s p l }) ls)
      ≡ sum_by f ls
unfolding sum_by
sum_by-some s p f [] = refl
sum_by-some s p f (l ∷ ls) = rw (sum_by-some s p f ls) refl

sum_by-or_null :
    (s : Session) (p : AccountingPeriod) (f : JournalLine → ℤ) (ls : List JournalLine)
    → sum_by (column f) (or_null (map (λ l. record { line = some l; entry = join_entry s p l }) ls))
      ≡ sum_by f ls
unfolding sum_by
sum_by-or_null s p f [] = omega int_laws
sum_by-or_null s p f (l ∷ ls) = sum_by-some s p f (l ∷ ls)

sum_by-select :
    (q : JournalLine → Bool) (f : JournalLine → ℤ) (ls : List JournalLine)
    → sum_by f (select q ls) ≡ sum_if q f ls
unfolding sum_by sum_if
sum_by-select q f [] = refl
sum_by-select q f (l ∷ ls) = elim (Bool-cases (q l)) [
  | inl is ↦ rw (is, sum_by-select q f ls) refl
  | inr off ↦ rw (off, sum_by-select q f ls) (omega int_laws)
]

-- The lines of an account that the policy shows.
abbrev pub on_account : Session → ChartOfAccounts → JournalLine → Bool
on_account s a l = l.account_id == a.id && visible s.guc l.firm_id l.client_id

-- The sums of all lines of each revenue and expense account of the tenant, of any date and status.
abbrev pub turnover : Session → ℕ → ℕ → List AccountActivity
turnover s firm_id client_id =
    map
      (λ a. record {
        account_id = a.id;
        code = a.code;
        name = a.name;
        account_type = a.account_type;
        debit = sum_if (on_account s a) (λ l. l.debit) s.lines;
        credit = sum_if (on_account s a) (λ l. l.credit) s.lines;
      })
      (select (λ a. any (same_type a.account_type) (AccountType.revenue ∷ AccountType.expense ∷ []))
        (select
          (λ a.
            visible s.guc a.firm_id a.client_id
            && (a.firm_id == firm_id && a.client_id == client_id))
          s.accounts))

sum_by-join_rows :
    (s : Session) (p : AccountingPeriod) (a : ChartOfAccounts) (f : JournalLine → ℤ)
    → sum_by (column f) (join_rows s p a) ≡ sum_if (on_account s a) f s.lines
unfolding join_rows
sum_by-join_rows s p a f =
    sum_by-or_null s p f (select (on_account s a) s.lines)
    ∙ sum_by-select (on_account s a) f s.lines

pub period_activity-turnover :
    (s : Session) (firm_id client_id : ℕ) (p : AccountingPeriod)
    → period_activity s firm_id client_id p ≡ turnover s firm_id client_id
unfolding period_activity
period_activity-turnover s firm_id client_id p =
    each (select (λ a. is_pnl a.account_type) (accounts_of s firm_id client_id))
  where
    each :
        (rows : List ChartOfAccounts)
        → map (activity_of s p) rows
          ≡ map
              (λ a. record {
                account_id = a.id;
                code = a.code;
                name = a.name;
                account_type = a.account_type;
                debit = sum_if (on_account s a) (λ l. l.debit) s.lines;
                credit = sum_if (on_account s a) (λ l. l.credit) s.lines;
              })
              rows
    each [] = refl
    each (a ∷ rows) =
        rw
          (sum_by-join_rows s p a (λ l. l.debit), sum_by-join_rows s p a (λ l. l.credit), each rows)
          refl
