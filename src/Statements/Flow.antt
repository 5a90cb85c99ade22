-- ===== src/Statements/Flow.antt =====
-- The change-in-cash statement (app/domain/statements.py, `cash_flow`).
use company_tax_and_accounti.Base.{
  ℕ, ◌-◌, ◌+◌, ◌≤◌, ◌<◌, ℤ, ◌+ℤ◌, ◌-ℤ◌, int_laws, eq→eqb_ℤ, ◌≡◌, refl, true, false, ◌&&◌, ◌||◌,
  Option, some, none, List, String, arith, ltb,
}
use company_tax_and_accounti.Base.Keys.{sum_if_split}
use company_tax_and_accounti.Model.{ChartOfAccounts, JournalEntry, JournalLine}
use company_tax_and_accounti.Session.{Session, ok}
use company_tax_and_accounti.Statements.{
  StatementsService, CashFlowStatement, cash_accounts, cash_sum, cash_flow, flow_of, check_flow,
  is_empty, in_range, entry_of, passes,
}

split_dates :
    (start end : ℕ) (o : Option JournalEntry)
    → start ≤ end + 1
    → 1 < start
    → (passes (in_range none end) o
        ≡ (passes (in_range none (start - 1)) o || passes (in_range (some start) end) o))
      × ((passes (in_range none (start - 1)) o && passes (in_range (some start) end) o) ≡ false)
split_dates start end none h k = ground arith
split_dates start end (some e) h k = ground arith

-- Up to the end of the period is up to the day before it, and within it.
cash_split :
    (svc : StatementsService) (cash : List ChartOfAccounts) (start end : ℕ) (f : JournalLine → ℤ)
    (s : Session)
    → start ≤ end + 1
    → 1 < start
    → cash_sum svc cash (in_range none end) f s
      ≡ cash_sum svc cash (in_range none (start - 1)) f s
        +ℤ cash_sum svc cash (in_range (some start) end) f s
cash_split svc cash start end f s h k =
    sum_if_split _ _ _ f s.lines
      (λ l. grind (arith, split_dates start end (entry_of s l.entry_id) h k))

flow_change :
    (svc : StatementsService) (start end : ℕ) (codes : List String) (cash : List ChartOfAccounts)
    (s : Session)
    → start ≤ end + 1
    → 1 < start
    → let st = flow_of svc start end codes cash (start - 1) s in
      st.closing_cash -ℤ st.opening_cash ≡ st.net_change
unfolding flow_of
flow_change svc start end codes cash s h k =
    rw
      (
        cash_split svc cash start end (λ l. l.debit) s h k,
        cash_split svc cash start end (λ l. l.credit) s h k,
      )
      (omega int_laws)

sum_of_change :
    (st : CashFlowStatement)
    → st.closing_cash -ℤ st.opening_cash ≡ st.net_change
    → st.closing_cash ≡ st.opening_cash +ℤ st.net_change
sum_of_change st h = rw (← h) (omega int_laws)

-- For a period that starts after the first date and does not end before it starts, and codes of
-- which some asset account has one, `cash_flow` returns a statement, so that its assertion holds:
-- what the cash accounts hold at the end is what they held the day before the period, with the
-- change of the period.
pub cash_flow-ok :
    (svc : StatementsService) (start end : ℕ) (codes : List String) (s : Session)
    → start ≤ end + 1
    → 1 < start
    → is_empty (cash_accounts svc codes s) ≡ false
    → let st = flow_of svc start end codes (cash_accounts svc codes s) (start - 1) s in
      (cash_flow svc start end codes s ≡ ok st)
      × (st.closing_cash ≡ st.opening_cash +ℤ st.net_change)
unfolding cash_flow check_flow
cash_flow-ok svc start end codes s h later found =
    let cash = cash_accounts svc codes s in
    let change = flow_change svc start end codes cash s h later in
    let st = flow_of svc start end codes cash (start - 1) s in
    let day : ltb 1 start ≡ true = ground arith in
    (rw found (rw day (rw (eq→eqb_ℤ _ _ change) refl)), sum_of_change st change)
