-- ===== src/Tax/Automap/Proposals.antt =====
-- Which accounts the heuristic mapper proposes a line for (app/domain/tax_automap.py), against the
-- catalog (app/domain/tax_catalog.py).
use company_tax_and_accounti.Base.{
  ℕ, Bool, true, not, ◌&&◌, Option, none, some, Option-cases, Bool-cases, inl, inr, List, [], ◌∷◌,
  String, ◌≡◌, refl, any, map, select, arith,
}
use company_tax_and_accounti.Model.{ChartOfAccounts, TaxFormCode, TaxFormLine, TaxLineSign}
use company_tax_and_accounti.Tax.Catalog.{TaxFormSpec, TaxLineSpec, form_spec}
use company_tax_and_accounti.Tax.Rules.{Rule, Fallback, fallback_of, rules_of}
use company_tax_and_accounti.Tax.Automap.{
  auto_propose_mappings, map_account, line_for_account, first_rule, line_by_code, is_suspense,
  is_non_pnl, mentions, by_type,
}
use text.Mathlib.Text.{◌==◌ as str_eq}

-- The lines of a form in the catalog.
abbrev pub spec_lines : Option TaxFormSpec → List TaxLineSpec
spec_lines none = []
spec_lines (some f) = f.lines

-- The catalog has a line of the code for the form.
unfoldable pub has_line : TaxFormCode → String → Bool
has_line form_code code = any (λ l. str_eq l.code code) (spec_lines (form_spec form_code))

abbrev every : (String → Bool) → List Rule → Bool
every p [] = true
every p (r ∷ rules) = p r.line_code && every p rules

rules_in_catalog :
    (form_code : TaxFormCode) → every (has_line form_code) (rules_of form_code) ≡ true
unfolding has_line rules_of form_spec
rules_in_catalog TaxFormCode.f1120 = refl
rules_in_catalog TaxFormCode.f1120s = refl
rules_in_catalog TaxFormCode.f1065 = refl
rules_in_catalog TaxFormCode.f1040sc = refl

abbrev AllThree : (String → Bool) → Fallback → Type 0
AllThree p f = (p f.revenue ≡ true) × (p f.cogs ≡ true) × (p f.deduction ≡ true)

fallbacks_in_catalog :
    (form_code : TaxFormCode) → AllThree (has_line form_code) (fallback_of form_code)
unfolding has_line fallback_of form_spec
fallbacks_in_catalog TaxFormCode.f1120 = (refl, refl, refl)
fallbacks_in_catalog TaxFormCode.f1120s = (refl, refl, refl)
fallbacks_in_catalog TaxFormCode.f1065 = (refl, refl, refl)
fallbacks_in_catalog TaxFormCode.f1040sc = (refl, refl, refl)

abbrev pub has_code : String → List TaxFormLine → Bool
has_code code = any (λ l. str_eq l.code code)

line_by_code-found :
    (lines : List TaxFormLine) (code : String)
    → has_code code lines ≡ true
    → (l : TaxFormLine) × (line_by_code lines code ≡ some l)
line_by_code-found [] code h = absurd (ground arith)
line_by_code-found (l ∷ ls) code h = elim (Option-cases (line_by_code ls code)) [
  | inr (x, e) ↦ (x, rw e refl)
  | inl e ↦ elim (Bool-cases (str_eq l.code code)) [
    | inl same ↦ (l, rw (e, same) refl)
    | inr other ↦ let (x, k) = line_by_code-found ls code (ground arith) in absurd (ground arith)
  ]
]

-- The accounts that take part in a return.
abbrev pub takes_part : ChartOfAccounts → Bool
takes_part a = not (is_suspense a) && not (is_non_pnl a.account_type)

module _ (lower : String → String) (is_word : ℕ → Bool) (isdigit : List ℕ → Bool) where
  first_rule-every :
      (p : String → Bool) (name : String) (rules : List Rule) (t : String × TaxLineSign)
      → every p rules ≡ true
      → first_rule lower is_word isdigit name rules ≡ some t
      → p t.0 ≡ true
  unfolding first_rule
  first_rule-every p name [] t h k = absurd (ground arith)
  first_rule-every p name (r ∷ rules) t h k =
      elim (Bool-cases (mentions lower is_word isdigit name r)) [
        | inl here ↦ ground arith
        | inr elsewhere ↦ first_rule-every p name rules t (ground arith) (ground arith)
      ]

  by_type-AllThree :
      (p : String → Bool) (a : ChartOfAccounts) (f : Fallback)
      → AllThree p f
      → p (by_type lower is_word isdigit a f).0 ≡ true
  by_type-AllThree p a f h = ground arith

  line_for_account-every :
      (p : String → Bool) (a : ChartOfAccounts) (rules : List Rule) (f : Fallback)
      → every p rules ≡ true
      → AllThree p f
      → p (line_for_account lower is_word isdigit a rules f).0 ≡ true
  unfolding line_for_account
  line_for_account-every p a rules f h k =
      elim (Option-cases (first_rule lower is_word isdigit (lower a.name) rules)) [
        | inr (t, e) ↦ rw (line_for_account, e) (first_rule-every p (lower a.name) rules t h e)
        | inl e ↦ rw (line_for_account, e) (by_type-AllThree p a f k)
      ]

  -- Whatever the name, the code and the type of an account: the line that the mapper picks for it
  -- on a form is a line that the catalog has for that form.
  pub line_for_account-has_line :
      (form_code : TaxFormCode) (a : ChartOfAccounts)
      → has_line form_code
          (line_for_account lower is_word isdigit a (rules_of form_code) (fallback_of form_code)).0
        ≡ true
  line_for_account-has_line form_code a =
      line_for_account-every (has_line form_code) a (rules_of form_code) (fallback_of form_code)
        (rules_in_catalog form_code) (fallbacks_in_catalog form_code)

  -- Where the lines of the form in the database have every code that the catalog gives it, the
  -- proposals are exactly one for each revenue and expense account other than 9999, in the order
  -- of the accounts, and each other account is skipped.
  pub auto_propose_mappings-accounts :
      (form_code : TaxFormCode) (accounts : List ChartOfAccounts) (lines : List TaxFormLine)
      → ((code : String) → has_line form_code code ≡ true → has_code code lines ≡ true)
      → (map
            (λ p. p.account_id)
            (auto_propose_mappings lower is_word isdigit form_code accounts lines).proposals
          ≡ map (λ a. a.id) (select takes_part accounts))
        × (map
              (λ s. s.0)
              (auto_propose_mappings lower is_word isdigit form_code accounts lines).skipped
            ≡ map (λ a. a.code) (select (λ a. not (takes_part a)) accounts))
  unfolding auto_propose_mappings map_account
  auto_propose_mappings-accounts form_code [] lines h = (refl, refl)
  auto_propose_mappings-accounts form_code (a ∷ accounts) lines h =
      let target =
        line_for_account lower is_word isdigit a (rules_of form_code) (fallback_of form_code) in
      let (l, found) =
        line_by_code-found lines target.0 (h target.0 (line_for_account-has_line form_code a)) in
      let rest = auto_propose_mappings-accounts form_code accounts lines h in
      elim (Bool-cases (is_suspense a)) [
        | inl control ↦ rw (control, rest.0, rest.1) (refl, refl)
        | inr plain ↦ elim (Bool-cases (is_non_pnl a.account_type)) [
          | inl sheet ↦ rw (plain, sheet, rest.0, rest.1) (refl, refl)
          | inr pnl ↦ rw (plain, pnl, found, rest.0, rest.1) (refl, refl)
        ]
      ]
