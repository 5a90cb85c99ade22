-- ===== src/Ledger.antt =====
-- The double-entry ledger (app/domain/ledger.py). The column rounding of the database is the
-- parameter `numeric`; the ids that `uuid4` makes and the clock's readings are arguments.
pub mod Validation
pub mod Admission
pub mod Accounts
pub mod Rows
pub mod Posting
pub mod Books
pub mod Refusal
pub mod Reversal
use company_tax_and_accounti.Base.{
  ℕ, suc, ℤ, zero_ℤ, ◌+ℤ◌, ltb_ℤ, leb_ℤ, eqb_ℤ, ltb, leb, Bool, true, false, not, ◌&&◌, ◌||◌,
  Option, none, some, List, [], ◌∷◌, ◌++◌, String, ◌==◌, if◌then◌else◌, find, any, select, length,
  update_if, map, sort_by,
}
use company_tax_and_accounti.Base.Sums.{sum_if}
use company_tax_and_accounti.Model.{
  ChartOfAccounts, AccountingPeriod, JournalEntry, JournalLine, JournalEntryStatus, AuditAction,
  Label, plain, reversal_of, reversal_of_line, posted_details, reversed_details, is_posted,
}
use text.Mathlib.Text.{◌==◌ as str_eq}
use company_tax_and_accounti.Tenant.{visible}
use company_tax_and_accounti.Session.{
  Error, unbalanced, period_locked, cross_tenant, invalid_account, integrity_error, data_error,
  row_security, Result, ok, err, Session, Action, ◌>>=◌, ◌>>◌, pure, raise, raise_if, gets, modify,
  or_raise, lift_result, get_period, get_entry, insert_entry, write_audit,
}

pub record LineInput : Type 0 where
  pub account_id : ℕ
  pub debit : ℤ
  pub credit : ℤ
  pub description : Option Label

abbrev same_side : Bool → Bool → Bool
same_side true b = b
same_side false b = not b

-- The loop of `_validate_lines` over the running totals of debits and credits.
unfoldable pub check_lines : List LineInput → ℤ → ℤ → Result (ℤ × ℤ)
check_lines [] d c = ok (d, c)
check_lines (l ∷ ls) d c =
    let rest = check_lines ls (d +ℤ l.debit) (c +ℤ l.credit) in
    if ltb_ℤ l.debit zero_ℤ || ltb_ℤ l.credit zero_ℤ
    then err unbalanced
    else if same_side (ltb_ℤ zero_ℤ l.debit) (ltb_ℤ zero_ℤ l.credit)
    then err unbalanced
    else rest

-- The tests behind the loop.
abbrev check_totals : Result (ℤ × ℤ) → Result ℤ
check_totals (err e) = err e
check_totals (ok (d, c)) =
    if not (eqb_ℤ d c) then err unbalanced else if eqb_ℤ d zero_ℤ then err unbalanced else ok d

-- `_validate_lines`: the debit total, which is the credit total too.
unfoldable pub validate_lines : List LineInput → Result ℤ
validate_lines ls =
    if ltb (length ls) 2 then err unbalanced else check_totals (check_lines ls zero_ℤ zero_ℤ)

-- `LedgerService`
pub record LedgerService : Type 0 where
  pub firm_id : ℕ
  pub client_id : ℕ
  pub actor : String

-- The keyword arguments of `post`.
pub record PostArgs : Type 0 where
  pub period_id : ℕ
  pub entry_date : ℕ
  pub lines : List LineInput
  pub memo : Option Label
  pub source_document_id : Option ℕ

abbrev pub is_own : LedgerService → ℕ → ℕ → Bool
is_own svc firm_id client_id = firm_id == svc.firm_id && client_id == svc.client_id

abbrev pub contains : ℕ → List ℕ → Bool
contains n = any (λ m. m == n)

-- `{line.account_id for line in lines}`
abbrev pub distinct : List ℕ → List ℕ
distinct [] = []
distinct (x ∷ xs) = let rest = distinct xs in if contains x xs then rest else x ∷ rest

abbrev pub account_ids : List LineInput → List ℕ
account_ids ls = distinct (map (λ l. l.account_id) ls)

-- The rows of `chart_of_accounts` with an id of the set that the policy shows.
abbrev pub account_rows : List ℕ → Session → List ChartOfAccounts
account_rows ids s =
    select (λ a. contains a.id ids && visible s.guc a.firm_id a.client_id) s.accounts

-- The loop over the accounts found.
unfoldable pub check_accounts : LedgerService → List ChartOfAccounts → Result (Unit {0})
check_accounts svc [] = ok tt
check_accounts svc (a ∷ others) =
    let rest = check_accounts svc others in
    if not (is_own svc a.firm_id a.client_id)
    then err cross_tenant
    else if not a.is_active
    then err invalid_account
    else if not a.is_leaf
    then err invalid_account
    else rest

abbrev pub in_period : AccountingPeriod → ℕ → Bool
in_period p d = leb p.start_date d && leb d p.end_date

-- The first half of `post`: every check that comes before a write. It returns the debit total.
unfoldable pub admit : LedgerService → PostArgs → Action ℤ
admit svc a = do
  total ← lift_result (validate_lines a.lines)
  p ← or_raise (← get_period a.period_id) cross_tenant
  raise_if (not (is_own svc p.firm_id p.client_id)) cross_tenant
  raise_if p.is_locked period_locked
  raise_if (not (in_period p a.entry_date)) period_locked
  accounts ← gets (account_rows (account_ids a.lines))
  raise_if (not (length accounts == length (account_ids a.lines))) invalid_account
  lift_result (check_accounts svc accounts)
  pure total

abbrev pub new_entry : LedgerService → PostArgs → ℕ → ℕ → JournalEntry
new_entry svc a new_id now = record {
  id = new_id;
  firm_id = svc.firm_id;
  client_id = svc.client_id;
  period_id = a.period_id;
  entry_date = a.entry_date;
  memo = a.memo;
  status = JournalEntryStatus.posted;
  source_document_id = a.source_document_id;
  posted_at = some now;
}

-- The CHECK constraints of `journal_line`: no negative side, and exactly one side that is not 0.
abbrev pub line_constraints : ℤ → ℤ → Bool
line_constraints d c =
    leb_ℤ zero_ℤ d && leb_ℤ zero_ℤ c && not (same_side (eqb_ℤ d zero_ℤ) (eqb_ℤ c zero_ℤ))

abbrev pub sum_debit : (JournalLine → Bool) → Session → ℤ
sum_debit p s = sum_if p (λ l. l.debit) s.lines

abbrev pub sum_credit : (JournalLine → Bool) → Session → ℤ
sum_credit p s = sum_if p (λ l. l.credit) s.lines

-- The lines of an entry that the policy shows.
abbrev pub of_entry : Session → ℕ → JournalLine → Bool
of_entry s entry_id l = l.entry_id == entry_id && visible s.guc l.firm_id l.client_id

-- The lines of the relationship `original.lines`, in the order of `line_no`.
abbrev pub lines_of : ℕ → Session → List JournalLine
lines_of entry_id s =
    sort_by (λ x y. leb x.line_no y.line_no) (select (of_entry s entry_id) s.lines)

abbrev pub flip : JournalLine → LineInput
flip l = record {
  account_id = l.account_id;
  debit = l.credit;
  credit = l.debit;
  description = some (reversal_of_line l.line_no);
}

-- `memo or f"Reversal of {original.id}"`
abbrev pub or_default : Option Label → Label → Label
or_default none d = d
or_default (some (plain t)) d = if str_eq t "" then d else plain t
or_default (some m) d = m

abbrev pub set_status : JournalEntryStatus → JournalEntry → JournalEntry
set_status st e = record e { status = st }

-- The checks of `reverse`: the original is found, of the tenant, and POSTED.
unfoldable pub reversible : LedgerService → ℕ → Action JournalEntry
reversible svc entry_id = do
  original ← or_raise (← get_entry entry_id) cross_tenant
  raise_if (not (is_own svc original.firm_id original.client_id)) cross_tenant
  raise_if (not (is_posted original.status)) unbalanced
  pure original

abbrev pub reversal_args : JournalEntry → Option Label → List JournalLine → PostArgs
reversal_args original memo ls = record {
  period_id = original.period_id;
  entry_date = original.entry_date;
  lines = map flip ls;
  memo = some (or_default memo (reversal_of original.id));
  source_document_id = original.source_document_id;
}

-- The end of `reverse`: the original gets the status REVERSED, and the audit event is written.
unfoldable pub mark_reversed : LedgerService → ℕ → ℕ → JournalEntry → Action JournalEntry
mark_reversed svc entry_id new_id reversal = do
  modify λ s. record s {
    entries = update_if (λ e. e.id == entry_id) (set_status JournalEntryStatus.reversed) s.entries;
  }
  write_audit svc.firm_id svc.client_id svc.actor AuditAction.reverse "journal_entry"
      (some entry_id) (reversed_details new_id)
  pure reversal

-- The sums of the new entry, read back from the table.
unfoldable pub verify : ℕ → ℤ → Action (Unit {0})
verify new_id total = do
  debits ← gets (λ s. sum_debit (of_entry s new_id) s)
  credits ← gets (λ s. sum_credit (of_entry s new_id) s)
  raise_if (not (eqb_ℤ debits credits) || not (eqb_ℤ debits total)) unbalanced

abbrev pub log_post : LedgerService → PostArgs → ℕ → ℤ → Action (Unit {0})
log_post svc a new_id total =
    write_audit svc.firm_id svc.client_id svc.actor AuditAction.post "journal_entry" (some new_id)
      (posted_details a.entry_date a.memo total (length a.lines))

module _ (numeric : ℤ → Option ℤ) where
  -- One `JournalLine` as the database takes it: the amounts rounded to the column, the policy's
  -- WITH CHECK, the CHECK constraints.
  unfoldable pub add_line : LedgerService → ℕ → ℕ → LineInput → Action (Unit {0})
  add_line svc entry_id i l = do
    d ← or_raise (numeric l.debit) data_error
    c ← or_raise (numeric l.credit) data_error
    g ← gets (λ s. s.guc)
    raise_if (not (visible g svc.firm_id svc.client_id)) row_security
    raise_if (not (line_constraints d c)) integrity_error
    modify λ s. record s {
      lines =
          s.lines
          ++ (record {
            firm_id = svc.firm_id;
            client_id = svc.client_id;
            entry_id = entry_id;
            line_no = i;
            account_id = l.account_id;
            debit = d;
            credit = c;
            description = l.description;
          }
              ∷ []);
    }

  unfoldable pub add_lines : LedgerService → ℕ → ℕ → List LineInput → Action (Unit {0})
  add_lines svc entry_id i [] = pure tt
  add_lines svc entry_id i (l ∷ ls) = add_line svc entry_id i l >> add_lines svc entry_id (suc i) ls

  -- The second half of `post`: the header, the lines, the sums read back, the audit event.
  unfoldable pub persist : LedgerService → PostArgs → ℕ → ℕ → ℤ → Action JournalEntry
  persist svc a new_id now total =
      insert_entry (new_entry svc a new_id now)
      >> (add_lines svc new_id 1 a.lines
          >> (verify new_id total
              >> (log_post svc a new_id total >> pure (new_entry svc a new_id now))))

  -- `LedgerService.post`
  unfoldable pub post : LedgerService → PostArgs → ℕ → ℕ → Action JournalEntry
  post svc a new_id now = do total ← admit svc a; persist svc a new_id now total

  -- `LedgerService.reverse`
  unfoldable pub reverse : LedgerService → ℕ → Option Label → ℕ → ℕ → Action JournalEntry
  reverse svc entry_id memo new_id now = reversible svc entry_id >>= λ original.
      gets (λ s. reversal_args original memo (lines_of entry_id s)) >>= λ args.
      post svc args new_id now >>= mark_reversed svc entry_id new_id
