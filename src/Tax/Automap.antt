-- ===== src/Tax/Automap.antt =====
-- The heuristic mapper (app/domain/tax_automap.py). The parameters are Python's tables of Unicode:
-- the lower case of a text, the word characters of `re`, and `str.isdigit`.
use Prim.Native.String.{◌++◌ as append}
use company_tax_and_accounti.Base.{
  ℕ, zero, suc, leb, Bool, true, false, not, ◌&&◌, ◌||◌, Option, none, some, List, [], ◌∷◌, String,
  ◌==◌, if◌then◌else◌, any, length,
}
use company_tax_and_accounti.Base.Text.{codes}
use company_tax_and_accounti.Model.{
  AccountType, ChartOfAccounts, TaxFormCode, TaxFormLine, TaxLineSign, same_type,
}
use company_tax_and_accounti.Tax.Mapping.{MappingProposal}
use company_tax_and_accounti.Tax.Rules.{Rule, Fallback, fallback_of, rules_of}
use text.Mathlib.Text.{◌==◌ as str_eq, starts_with}
pub mod Proposals

-- `TaxFormCode.value`
abbrev form_value : TaxFormCode → String
form_value TaxFormCode.f1120 = "F1120"
form_value TaxFormCode.f1120s = "F1120S"
form_value TaxFormCode.f1065 = "F1065"
form_value TaxFormCode.f1040sc = "F1040SC"

-- `AutoMapResult`
pub record AutoMapResult : Type 0 where
  pub proposals : List MappingProposal
  pub skipped : List (String × String × String)

-- `line_by_code.get`: a later line with the same code replaces an earlier one.
abbrev pub line_by_code : List TaxFormLine → String → Option TaxFormLine
line_by_code [] code = none
line_by_code (l ∷ ls) code = elim (line_by_code ls code) [
  | some x ↦ some x
  | none ↦ if str_eq l.code code then some l else none
]

-- `_SKIP_CODES`
abbrev pub is_suspense : ChartOfAccounts → Bool
is_suspense a = str_eq a.code "9999"

-- `_NON_PNL_TYPES`
abbrev pub is_non_pnl : AccountType → Bool
is_non_pnl t =
    any (same_type t) (AccountType.asset ∷ AccountType.liability ∷ AccountType.equity ∷ [])

abbrev drop_two : List ℕ → List ℕ
drop_two [] = []
drop_two (x ∷ []) = []
drop_two (x ∷ y ∷ rest) = rest

-- One account skipped, or one proposal.
abbrev pub skip : ChartOfAccounts → String → AutoMapResult → AutoMapResult
skip a reason r = record r { skipped = (a.code, a.name, reason) ∷ r.skipped }

abbrev pub proposal_of :
    TaxFormCode → ChartOfAccounts → String × TaxLineSign → TaxFormLine → MappingProposal
proposal_of form_code a target line = record {
  account_id = a.id;
  line_id = line.id;
  sign = target.1;
  notes = some (
      append "auto-proposed by heuristic ("
        (append (form_value form_code) (append " → line " (append target.0 ")"))));
}

abbrev pub propose : MappingProposal → AutoMapResult → AutoMapResult
propose p r = record r { proposals = p ∷ r.proposals }

module _ (lower : String → String) (is_word : ℕ → Bool) (isdigit : List ℕ → Bool) where
  abbrev starts_word : List ℕ → Bool
  starts_word [] = false
  starts_word (c ∷ cs) = is_word c

  -- `\b` between a character that is a word's or not and the rest of the text.
  abbrev boundary : Bool → List ℕ → Bool
  boundary before rest = not (before && starts_word rest) && (before || starts_word rest)

  -- The keyword, then `\b`; a pattern that is empty is just `\b`.
  abbrev keyword_here : Bool → List ℕ → List ℕ → Bool
  keyword_here before [] rest = boundary before rest
  keyword_here before (k ∷ ks) [] = false
  keyword_here before (k ∷ ks) (c ∷ cs) = k == c && keyword_here (is_word c) ks cs

  -- `re.search(rf"\b{re.escape(kw)}\b", text)` from a position on.
  unfoldable pub search_from : Bool → List ℕ → List ℕ → Bool
  search_from before kw [] = boundary before [] && keyword_here before kw []
  search_from before kw (c ∷ cs) =
      (boundary before (c ∷ cs) && keyword_here before kw (c ∷ cs)) || search_from (is_word c) kw cs

  abbrev pub mentions : String → Rule → Bool
  mentions name_lc r = search_from false (codes (lower r.keyword)) (codes name_lc)

  -- The loop over the rules.
  unfoldable pub first_rule : String → List Rule → Option (String × TaxLineSign)
  first_rule name_lc [] = none
  first_rule name_lc (r ∷ rules) =
      if mentions name_lc r then some (r.line_code, r.sign) else first_rule name_lc rules

  abbrev pub is_cogs_code : String → Bool
  is_cogs_code code =
      starts_with code "50" && (leb 4 (length (codes code)) && isdigit (drop_two (codes code)))

  -- The fallback by the type and the code.
  abbrev pub by_type : ChartOfAccounts → Fallback → String × TaxLineSign
  by_type a fallback = elim a.account_type [
    | AccountType.revenue ↦ (fallback.revenue, TaxLineSign.positive)
    | AccountType.expense ↦
        if is_cogs_code a.code
        then (fallback.cogs, TaxLineSign.positive)
        else (fallback.deduction, TaxLineSign.positive)
    | _ ↦ (fallback.deduction, TaxLineSign.positive)
  ]

  -- `_line_for_account`
  unfoldable pub line_for_account : ChartOfAccounts → List Rule → Fallback → String × TaxLineSign
  line_for_account a rules fallback = elim (first_rule (lower a.name) rules) [
    | some target ↦ target
    | none ↦ by_type a fallback
  ]

  -- The body of the loop over the accounts.
  unfoldable pub map_account :
      TaxFormCode → List TaxFormLine → ChartOfAccounts → AutoMapResult → AutoMapResult
  map_account form_code lines a r =
      let target = line_for_account a (rules_of form_code) (fallback_of form_code) in
      if is_suspense a
      then skip a "suspense / control account" r
      else if is_non_pnl a.account_type
      then skip a "balance-sheet account" r
      else elim (line_by_code lines target.0) [
        | none ↦ skip a (append "line " (append target.0 " not in catalog")) r
        | some line ↦ propose (proposal_of form_code a target line) r
      ]

  -- `auto_propose_mappings`; every form has rules and fallbacks.
  unfoldable pub auto_propose_mappings :
      TaxFormCode → List ChartOfAccounts → List TaxFormLine → AutoMapResult
  auto_propose_mappings form_code [] lines = record { proposals = []; skipped = [] }
  auto_propose_mappings form_code (a ∷ accounts) lines =
      map_account form_code lines a (auto_propose_mappings form_code accounts lines)
