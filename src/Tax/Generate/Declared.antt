-- ===== src/Tax/Generate/Declared.antt =====
-- What a form declares (the docstring of app/domain/tax_service.py): an account with an approved
-- mapping adds its balance, in the sign of the mapping, to the line that it is mapped to.
use company_tax_and_accounti.Base.{
  ℕ, ℤ, zero_ℤ, ◌-ℤ◌, eqb_ℤ, eqb_ℤ→eq, true, false, Option-cases, none, some, List, [], ◌∷◌, ◌==◌,
  ◌≡◌, refl, sym, ap, ◌∙◌, ◌⊎◌, inl, inr, arith, int_laws, find, any, select, sort_by, leb, All,
  Bool-cases, if◌then◌else◌,
}
use company_tax_and_accounti.Base.Sums.{sum_if}
use company_tax_and_accounti.Model.{
  AccountType, TaxAccountMapping, TaxLineSign, TaxFormLine, TaxFormSection, same_section,
}
use mathlib.Core.Path.{fun_ext}
use company_tax_and_accounti.Tax.Generate.{any_unmapped}
use company_tax_and_accounti.Tax.Worksheet.{
  AccountActivity, Contribution, signed_balance, unmapped, is_mapped, contributions,
  contribution_of, amount_of, signed_by,
}

-- The balance of an account on its normal side.
abbrev pub balance : AccountActivity → ℤ
balance a = elim a.account_type [
  | AccountType.asset ↦ a.debit -ℤ a.credit
  | AccountType.expense ↦ a.debit -ℤ a.credit
  | AccountType.liability ↦ a.credit -ℤ a.debit
  | AccountType.equity ↦ a.credit -ℤ a.debit
  | AccountType.revenue ↦ a.credit -ℤ a.debit
]

abbrev pub in_sign : TaxLineSign → ℤ → ℤ
in_sign TaxLineSign.positive v = v
in_sign TaxLineSign.negative v = zero_ℤ -ℤ v

-- What a mapping adds to its line.
abbrev pub adds : List AccountActivity → TaxAccountMapping → ℤ
adds acts m = elim (find (λ a. a.account_id == m.account_id) acts) [
  | none ↦ zero_ℤ
  | some a ↦ in_sign m.sign (balance a)
]

-- The amount of a line.
abbrev pub declared : List AccountActivity → List TaxAccountMapping → TaxFormLine → ℤ
declared acts ms fl = sum_if (λ m. m.line_id == fl.id) (adds acts) ms

signed_balance-balance : (a : AccountActivity) → signed_balance a ≡ balance a
unfolding signed_balance
signed_balance-balance a = of_type a.account_type a.debit a.credit
  where
    of_type :
        (t : AccountType) (d c : ℤ)
        → signed_balance (record {
          account_id = a.account_id;
          code = a.code;
          name = a.name;
          account_type = t;
          debit = d;
          credit = c;
        })
          ≡ balance (record {
            account_id = a.account_id;
            code = a.code;
            name = a.name;
            account_type = t;
            debit = d;
            credit = c;
          })
    of_type AccountType.asset d c = refl
    of_type AccountType.expense d c = refl
    of_type AccountType.liability d c = refl
    of_type AccountType.equity d c = refl
    of_type AccountType.revenue d c = refl

in_sign-signed_by : (s : TaxLineSign) (v : ℤ) → signed_by s v ≡ in_sign s v
in_sign-signed_by TaxLineSign.positive v = refl
in_sign-signed_by TaxLineSign.negative v = omega int_laws

contributions-none :
    (acts : List AccountActivity) (m : TaxAccountMapping) (rest : List TaxAccountMapping)
    → find (λ a. a.account_id == m.account_id) acts ≡ none
    → contributions acts (m ∷ rest) ≡ contributions acts rest
unfolding contributions
contributions-none acts m rest h = rw (contributions, h) refl

contributions-some :
    (acts : List AccountActivity) (m : TaxAccountMapping) (rest : List TaxAccountMapping)
    (a : AccountActivity)
    → find (λ a. a.account_id == m.account_id) acts ≡ some a
    → contributions acts (m ∷ rest) ≡ (
        if eqb_ℤ (signed_balance a) zero_ℤ
        then contributions acts rest
        else contribution_of m a ∷ contributions acts rest)
unfolding contributions
contributions-some acts m rest a h = rw (contributions, h) refl

adds-none :
    (acts : List AccountActivity) (m : TaxAccountMapping)
    → find (λ a. a.account_id == m.account_id) acts ≡ none
    → adds acts m ≡ zero_ℤ
adds-none acts m h = rw (adds, h) refl

adds-some :
    (acts : List AccountActivity) (m : TaxAccountMapping) (a : AccountActivity)
    → find (λ a. a.account_id == m.account_id) acts ≡ some a
    → adds acts m ≡ signed_by m.sign (signed_balance a)
adds-some acts m a h =
    rw (adds, h, signed_balance-balance a) (sym (in_sign-signed_by m.sign (balance a)))

signed_by-zero : (s : TaxLineSign) → signed_by s zero_ℤ ≡ zero_ℤ
signed_by-zero TaxLineSign.positive = refl
signed_by-zero TaxLineSign.negative = omega int_laws

-- A mapping that adds nothing leaves the amount.
declared_nothing :
    (acts : List AccountActivity) (m : TaxAccountMapping) (rest : List TaxAccountMapping)
    (fl : TaxFormLine)
    → adds acts m ≡ zero_ℤ
    → declared acts rest fl ≡ declared acts (m ∷ rest) fl
unfolding sum_if
declared_nothing acts m rest fl h = elim (Bool-cases (m.line_id == fl.id)) [
  | inl here ↦ rw (here, h) (omega int_laws)
  | inr other ↦ rw other (omega int_laws)
]

declared_more :
    (acts : List AccountActivity) (m : TaxAccountMapping) (rest : List TaxAccountMapping)
    (fl : TaxFormLine) (a : AccountActivity)
    → adds acts m ≡ signed_by m.sign (signed_balance a)
    → amount_of (contributions acts rest) fl ≡ declared acts rest fl
    → amount_of (contribution_of m a ∷ contributions acts rest) fl ≡ declared acts (m ∷ rest) fl
unfolding sum_if
declared_more acts m rest fl a h ih = rw (h, ih) refl

-- The amounts that the computation gives the lines are those declared.
pub amount_of-declared :
    (acts : List AccountActivity) (ms : List TaxAccountMapping) (fl : TaxFormLine)
    → amount_of (contributions acts ms) fl ≡ declared acts ms fl
unfolding contributions sum_if
amount_of-declared acts [] fl = refl
amount_of-declared acts (m ∷ rest) fl =
    let ih = amount_of-declared acts rest fl in
    let amount = λ (ks : List Contribution). amount_of ks fl in
    elim (Option-cases (find (λ a. a.account_id == m.account_id) acts)) [
      | inl missing ↦
          ap amount (contributions-none acts m rest missing)
          ∙ ih
          ∙ declared_nothing acts m rest fl (adds-none acts m missing)
      | inr (a, found) ↦
          let added = adds-some acts m a found in
          let step = ap amount (contributions-some acts m rest a found) in
          elim (Bool-cases (eqb_ℤ (signed_balance a) zero_ℤ)) [
            | inl nothing ↦
                let e : signed_balance a ≡ zero_ℤ = eqb_ℤ→eq _ _ nothing in
                step
                ∙ ap
                    (λ b. amount (
                      if b
                      then contributions acts rest
                      else contribution_of m a ∷ contributions acts rest))
                    nothing
                ∙ ih
                ∙ declared_nothing acts m rest fl
                    (added ∙ ap (signed_by m.sign) e ∙ signed_by-zero m.sign)
            | inr more ↦
                step
                ∙ ap
                    (λ b. amount (
                      if b
                      then contributions acts rest
                      else contribution_of m a ∷ contributions acts rest))
                    more
                ∙ declared_more acts m rest fl a added ih
          ]
    ]

-- The lines of a form in their sequence, and the sum of those of a section.
abbrev pub form_rows : List TaxFormLine → ℕ → List TaxFormLine
form_rows rows form_id =
    sort_by (λ x y. leb x.sequence y.sequence) (select (λ l. l.form_id == form_id) rows)

abbrev pub declared_in :
    List AccountActivity → List TaxAccountMapping → List TaxFormLine → TaxFormSection → ℤ
declared_in acts ms fls sec = sum_if (λ fl. same_section fl.section sec) (declared acts ms) fls

pub amounts-declared :
    (acts : List AccountActivity) (ms : List TaxAccountMapping)
    → amount_of (contributions acts ms) ≡ declared acts ms
amounts-declared acts ms = fun_ext (amount_of-declared acts ms)

-- Every account with a balance is mapped.
pub any_unmapped-Mapped :
    (ms : List TaxAccountMapping) (acts : List AccountActivity)
    → any_unmapped (unmapped ms acts) ≡ false
    → All (λ a. (balance a ≡ zero_ℤ) ⊎ (any (λ m. m.account_id == a.account_id) ms ≡ true)) acts
any_unmapped-Mapped ms [] h = tt
any_unmapped-Mapped ms (a ∷ acts) h = elim (Bool-cases (eqb_ℤ (signed_balance a) zero_ℤ)) [
  | inl nothing ↦ (
    inl (rw (← signed_balance-balance a) (eqb_ℤ→eq _ _ nothing)),
    any_unmapped-Mapped ms acts (ground arith),
  )
  | inr more ↦ elim (Bool-cases (is_mapped ms a)) [
    | inl mapped ↦ (inr mapped, any_unmapped-Mapped ms acts (ground arith))
    | inr missing ↦ absurd (ground arith)
  ]
]
