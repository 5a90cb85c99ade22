-- ===== src/Tests/Posting.antt =====
-- The ledger on the example books.
use company_tax_and_accounti.Tests.{books, sale, books-IsBook, exact, service, payment}
use company_tax_and_accounti.Base.{
  ℕ, ℤ, ◌+ℤ◌, ◌≤ℤ◌, true, ◌≡◌, refl, none, pos, length, ◌≤◌, ◌==◌, All, count_if, ◌↔◌, arith,
}
use company_tax_and_accounti.Session.{ok, write_audit}
use company_tax_and_accounti.Base.Sums.{sum_if, sum_by}
use company_tax_and_accounti.Base.{sort_by}
use company_tax_and_accounti.Tenant.{visible}
use company_tax_and_accounti.Ledger.{
  PostArgs, admit, post, persist, new_entry, validate_lines, check_lines, check_accounts, add_line,
  add_lines, verify, reverse, reversible, reversal_args, mark_reversed, lines_of, account_rows,
  account_ids,
}
use company_tax_and_accounti.Ledger.Books.{IsBook, post-IsBook}
use company_tax_and_accounti.Ledger.Accounts.{on_chart, is_postable, checked-Postable}
use company_tax_and_accounti.Ledger.Admission.{Admitted}
use company_tax_and_accounti.Ledger.Posting.{Persisted, post-Persisted}
use company_tax_and_accounti.Ledger.Refusal.{post-outcome, outcome}
use company_tax_and_accounti.Ledger.Reversal.{Reversed, reverse-Reversed, reverse-IsBook}
use company_tax_and_accounti.Ledger.Validation.{validate_lines_iff, IsOneSided, debits, credits}

admits : (admit service payment books).0 ≡ ok (pos 300)
unfolding admit validate_lines check_lines check_accounts visible ◌+ℤ◌
admits = refl

posts : (post exact service payment 7 9 books).0 ≡ ok (new_entry service payment 7 9)
unfolding post persist admit validate_lines check_lines check_accounts visible add_line add_lines
    verify write_audit sum_if sum_by ◌+ℤ◌
posts = refl

-- The reversal of the sale.
abbrev undo : PostArgs
undo = reversal_args sale none (lines_of 1 books)

reverses : (reverse exact service 1 none 7 9 books).0 ≡ ok (new_entry service undo 7 9)
unfolding reverse reversible mark_reversed post persist admit validate_lines check_lines
    check_accounts visible add_line add_lines verify write_audit sum_if sum_by sort_by ◌+ℤ◌
reverses = refl

post-outcome_example :
    post exact service payment 7 9 books
    ≡ outcome exact service 7 payment 9 books (admit service payment books).0
unfolding visible
post-outcome_example =
    post-outcome exact service 7 payment 9 books books-IsBook refl refl
      ((refl, refl), ((refl, refl), tt))

post-IsBook_example : IsBook (post exact service payment 7 9 books).1
post-IsBook_example = post-IsBook exact service payment 7 9 books books-IsBook posts

post-Persisted_example :
    (total : ℤ) × Admitted service payment books total
    × (new_entry service payment 7 9 ≡ new_entry service payment 7 9)
    × Persisted exact service payment 7 9 total books (post exact service payment 7 9 books).1
post-Persisted_example = post-Persisted exact service payment 7 9 books posts

validate_lines_iff_example : (validate_lines payment.lines ≡ ok (pos 300)) ↔ (
    (2 ≤ length payment.lines)
    × All IsOneSided payment.lines
    × (debits payment.lines ≡ pos 300)
    × (credits payment.lines ≡ pos 300)
    × (pos 1 ≤ℤ pos 300))
validate_lines_iff_example = validate_lines_iff payment.lines (pos 300)

reverse-Reversed_example :
    Reversed exact service 1 7 books
      (new_entry service undo 7 9)
      (reverse exact service 1 none 7 9 books).1
reverse-Reversed_example =
    reverse-Reversed exact service 1 none 7 9 books (new_entry service undo 7 9) reverses

reverse-IsBook_example : IsBook (reverse exact service 1 none 7 9 books).1
reverse-IsBook_example =
    reverse-IsBook exact service 1 none 7 9 books (new_entry service undo 7 9) books-IsBook reverses

keyed : (id : ℕ) → count_if (λ a. a.id == id) books.accounts ≤ 1
keyed id = ground arith

counted :
    (length (account_rows (account_ids payment.lines) books) == length (account_ids payment.lines))
    ≡ true
unfolding visible
counted = refl

checked : check_accounts service (account_rows (account_ids payment.lines) books) ≡ ok tt
unfolding check_accounts visible
checked = refl

checked-Postable_example :
    All
      (λ l.
        (count_if (on_chart 1 1 l.account_id) books.accounts ≡ 1)
        × (count_if (is_postable 1 1 l.account_id) books.accounts ≡ 1))
      payment.lines
checked-Postable_example = checked-Postable service payment.lines books keyed counted checked
