-- ===== src/Ledger/Validation.antt =====
-- `_validate_lines` (app/domain/ledger.py) against a description of a balanced entry.
use company_tax_and_accounti.Base.{
  ◌≤◌, ℤ, pos, zero_ℤ, ◌+ℤ◌, ◌≤ℤ◌, int_laws, eqb_ℤ→eq, eqb_ℤ, +ℤ_assoc, +ℤ_zero, zero_+ℤ, ltb,
  ltb_ℤ, sym, ◌||◌, Bool, ◌↔◌, ◌∙◌, List, [], ◌∷◌, ◌≡◌, ◌⊎◌, inl, inr, refl, false, arith,
  Bool-cases, length, All,
}
use company_tax_and_accounti.Base.Sums.{sum_by}
use company_tax_and_accounti.Session.{Result, ok, err}
use company_tax_and_accounti.Ledger.{
  same_side, LineInput, check_lines, check_totals, validate_lines,
}

-- One side is positive and the other is zero.
abbrev pub IsOneSided : LineInput → Type 0
IsOneSided l =
    ((pos 1 ≤ℤ l.debit) × (l.credit ≡ zero_ℤ)) ⊎ ((l.debit ≡ zero_ℤ) × (pos 1 ≤ℤ l.credit))

abbrev pub debits : List LineInput → ℤ
debits = sum_by (λ l. l.debit)

abbrev pub credits : List LineInput → ℤ
credits = sum_by (λ l. l.credit)

abbrev is_negative : LineInput → Bool
is_negative l = ltb_ℤ l.debit zero_ℤ || ltb_ℤ l.credit zero_ℤ

abbrev is_two_sided : LineInput → Bool
is_two_sided l = same_side (ltb_ℤ zero_ℤ l.debit) (ltb_ℤ zero_ℤ l.credit)

tests-OneSided : (l : LineInput) → is_negative l ≡ false → is_two_sided l ≡ false → IsOneSided l
tests-OneSided l h k = tests l.debit l.credit h k
  where
    tests :
        (d c : ℤ)
        → (ltb_ℤ d zero_ℤ || ltb_ℤ c zero_ℤ) ≡ false
        → same_side (ltb_ℤ zero_ℤ d) (ltb_ℤ zero_ℤ c) ≡ false
        → ((pos 1 ≤ℤ d) × (c ≡ zero_ℤ)) ⊎ ((d ≡ zero_ℤ) × (pos 1 ≤ℤ c))
    tests d c h k = ground arith

OneSided-tests : (l : LineInput) → IsOneSided l → (is_negative l ≡ false) × (is_two_sided l ≡ false)
OneSided-tests l h = ground arith

check_lines-ok :
    (ls : List LineInput) (d c d' c' : ℤ)
    → check_lines ls d c ≡ ok (d', c')
    → All IsOneSided ls × (d' ≡ d +ℤ debits ls) × (c' ≡ c +ℤ credits ls)
unfolding check_lines sum_by
check_lines-ok [] d c d' c' h = (tt, ground (arith, +ℤ_zero d), ground (arith, +ℤ_zero c))
check_lines-ok (l ∷ ls) d c d' c' h = elim (Bool-cases (is_negative l)) [
  | inl bad ↦ absurd (ground arith)
  | inr fine ↦ elim (Bool-cases (is_two_sided l)) [
    | inl bad ↦ absurd (ground arith)
    | inr one ↦
        let (each, e, e') = check_lines-ok ls (d +ℤ l.debit) (c +ℤ l.credit) d' c' (ground arith) in
        (
          (tests-OneSided l fine one, each),
          e ∙ +ℤ_assoc d l.debit (debits ls),
          e' ∙ +ℤ_assoc c l.credit (credits ls),
        )
  ]
]

check_lines-OneSided :
    (ls : List LineInput) (d c : ℤ)
    → All IsOneSided ls
    → check_lines ls d c ≡ ok (d +ℤ debits ls, c +ℤ credits ls)
unfolding check_lines sum_by
check_lines-OneSided [] d c h = rw (+ℤ_zero d, +ℤ_zero c) refl
check_lines-OneSided (l ∷ ls) d c h =
    let (fine, one) = OneSided-tests l h.0 in
    rw (fine, one, check_lines-OneSided ls (d +ℤ l.debit) (c +ℤ l.credit) h.1)
      (rw (+ℤ_assoc d l.debit (debits ls), +ℤ_assoc c l.credit (credits ls)) refl)

OneSided-sum :
    (l : LineInput)
    → IsOneSided l
    → (zero_ℤ ≤ℤ l.debit) × (zero_ℤ ≤ℤ l.credit) × (pos 1 ≤ℤ l.debit +ℤ l.credit)
unfolding ◌+ℤ◌
OneSided-sum l h = ground arith

length-le-sum :
    (ls : List LineInput) → All IsOneSided ls → pos (length ls) ≤ℤ debits ls +ℤ credits ls
unfolding sum_by
length-le-sum [] h = omega int_laws
length-le-sum (l ∷ ls) h = omega (int_laws, OneSided-sum l h.0, length-le-sum ls h.1)

check_totals-ok :
    (r : Result (ℤ × ℤ)) (t : ℤ) → check_totals r ≡ ok t → (c : ℤ) × (r ≡ ok (t, c)) × (t ≡ c)
check_totals-ok (err e) t h = absurd (ground arith)
check_totals-ok (ok (d, c)) t h = elim (Bool-cases (eqb_ℤ d c)) [
  | inl e ↦ (c, ground arith, ground (arith, eqb_ℤ→eq d c e))
  | inr e ↦ absurd (ground arith)
]

totals-check : (t : ℤ) → pos 1 ≤ℤ t → check_totals (ok (t, t)) ≡ ok t
totals-check t h = ground arith

-- The check passes exactly the entries of two lines or more, each with one positive side, whose
-- debits and credits have one sum; it returns that sum, which is positive.
pub validate_lines_iff :
    (ls : List LineInput) (total : ℤ)
    → (validate_lines ls ≡ ok total) ↔ (
        (2 ≤ length ls)
        × All IsOneSided ls
        × (debits ls ≡ total)
        × (credits ls ≡ total)
        × (pos 1 ≤ℤ total))
unfolding validate_lines
validate_lines_iff ls total = (there, back)
  where
    there :
        validate_lines ls ≡ ok total
        → (2 ≤ length ls)
          × All IsOneSided ls
          × (debits ls ≡ total)
          × (credits ls ≡ total)
          × (pos 1 ≤ℤ total)
    there h = elim (Bool-cases (ltb (length ls) 2)) [
      | inl short ↦ absurd (ground arith)
      | inr long ↦
          let (c, e, same) = check_totals-ok (check_lines ls zero_ℤ zero_ℤ) total (rw long at h) in
          let (each, ed, ec) = check_lines-ok ls zero_ℤ zero_ℤ total c e in
          let d : debits ls ≡ total = sym (ed ∙ zero_+ℤ (debits ls)) in
          let k : credits ls ≡ total = sym (same ∙ ec ∙ zero_+ℤ (credits ls)) in
          let two : 2 ≤ length ls = ground arith in
          (two, each, d, k, omega (int_laws, rw (d, k) at (length-le-sum ls each)))
    ]

    back :
        (2 ≤ length ls)
          × All IsOneSided ls
          × (debits ls ≡ total)
          × (credits ls ≡ total)
          × (pos 1 ≤ℤ total)
        → validate_lines ls ≡ ok total
    back (long, each, d, k, positive) =
        let enough : ltb (length ls) 2 ≡ false = ground arith in
        let sums : check_lines ls zero_ℤ zero_ℤ ≡ ok (total, total) =
          check_lines-OneSided ls zero_ℤ zero_ℤ each
          ∙ rw (zero_+ℤ (debits ls), zero_+ℤ (credits ls), d, k) refl in
        rw (enough, sums) (totals-check total positive)
