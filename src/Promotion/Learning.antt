-- ===== src/Promotion/Learning.antt =====
-- The rules learnt from a reviewer's corrections (app/domain/promotion.py). The file of rules is
-- outside the database, so that what an operation leaves in it is returned beside its result.
use Prim.Native.Char.{Char, code}
use Prim.Native.String.{◌++◌ as append}
use company_tax_and_accounti.Base.{
  ℕ, suc, ℤ, Bool, false, not, ◌&&◌, ◌||◌, Option, none, some, List, [], ◌∷◌, String, ◌==◌,
  if◌then◌else◌, find, any, select, length,
}
use company_tax_and_accounti.Base.Text.{strip, take_text, or_text, text_of, is_empty}
use company_tax_and_accounti.Model.{ChartOfAccounts, DraftClassification, Txn}
use text.Mathlib.Text.{◌==◌ as str_eq}
use company_tax_and_accounti.Tenant.{visible}
use company_tax_and_accounti.Session.{Session}
use company_tax_and_accounti.Promotion.Descriptions.{description_rule_key, single_spaced}
use company_tax_and_accounti.Categorizer.{RuleCondition, CategorizationRule}

-- `PromoteLineInput`
pub record PromoteLineInput : Type 0 where
  pub account_id : ℕ
  pub debit : ℤ
  pub credit : ℤ
  pub description : Option String

-- What becomes of writing the file and loading it again.
pub data Saving : Type 0 where
  unwritable unloadable saved : Saving

-- The backend's setting, the rules that the file holds, and whether it can be written.
pub record RulesFile : Type 0 where
  pub is_rule_engine : Bool
  pub rules : List CategorizationRule
  pub saving : Saving

-- The reviewer's codes, by the index of the transaction.
abbrev pub get_override : List (ℕ × String) → ℕ → Option String
get_override [] n = none
get_override ((k, code) ∷ rest) n = if k == n then some code else get_override rest n

abbrev pub nth : List Txn → ℕ → Option Txn
nth [] n = none
nth (t ∷ ts) ℕ.zero = some t
nth (t ∷ ts) (suc n) = nth ts n

abbrev pub is_direction : String → Bool
is_direction d = str_eq d "deposit" || str_eq d "payment"

-- The replacement and the insertion of one learnt rule.
abbrev pub first_condition : (RuleCondition → Bool) → CategorizationRule → Option RuleCondition
first_condition p r = find p r.conditions

abbrev pub on_direction : RuleCondition → Bool
on_direction c = str_eq c.field "direction" && str_eq c.operator "equals"

abbrev pub on_description : RuleCondition → Bool
on_description c =
    str_eq c.field "description" && (str_eq c.operator "equals" || str_eq c.operator "contains")

module _ (is_space : Char → Bool) (is_word is_digit : Char → Bool) (lower : String → String) where
  abbrev pub learned_rule : String → String → String → String → CategorizationRule
  learned_rule desc desc_key direction target = record {
    name = append "Learned from review: " (take_text 48 desc);
    target_code = target;
    conditions =
        record { field = "direction"; operator = "equals"; value = direction }
        ∷ record { field = "description"; operator = "contains"; value = desc_key }
        ∷ [];
    match_mode = "all";
  }

  -- The rule learnt from one override, if any.
  unfoldable pub learned_from :
      List Txn → ℕ × String → Option (String × String × CategorizationRule)
  learned_from txns (idx, override) = elim (nth txns idx) [
    | none ↦ none
    | some txn ↦
        let proposed = strip is_space (text_of txn.proposed_account_code) in
        let target = strip is_space override in
        let desc = single_spaced is_space is_word is_digit lower (text_of txn.description) in
        let desc_key = description_rule_key is_space is_word is_digit lower desc in
        let direction = lower (strip is_space (text_of txn.direction)) in
        if is_empty target || str_eq target proposed
        then none
        else if is_empty desc_key || not (is_direction direction)
        then none
        else some (direction, desc_key, learned_rule desc desc_key direction target)
  ]

  abbrev pub learn_each : List Txn → List (ℕ × String) → List (String × String × CategorizationRule)
  learn_each txns [] = []
  learn_each txns (o ∷ overrides) = elim (learned_from txns o) [
    | none ↦ learn_each txns overrides
    | some l ↦ l ∷ learn_each txns overrides
  ]

  -- Whether a rule is the learnt one for the same direction and description.
  unfoldable pub same_rule : String → String → CategorizationRule → Bool
  same_rule direction desc_key r =
      length r.conditions == 2 && (elim (first_condition on_direction r) [
        | none ↦ false
        | some d ↦ elim (first_condition on_description r) [
          | none ↦ false
          | some c ↦
              str_eq (lower d.value) (lower direction)
              && str_eq (description_rule_key is_space is_word is_digit lower c.value) desc_key
        ]
      ])

  abbrev pub replace_first :
      (CategorizationRule → Bool)
      → CategorizationRule
      → List CategorizationRule
      → List CategorizationRule
  replace_first p lr [] = []
  replace_first p lr (r ∷ rules) = if p r then lr ∷ rules else r ∷ replace_first p lr rules

  abbrev pub apply_learned :
      String × String × CategorizationRule → List CategorizationRule → List CategorizationRule
  apply_learned (direction, desc_key, lr) rules =
      if any (same_rule direction desc_key) rules
      then replace_first (same_rule direction desc_key) lr rules
      else lr ∷ rules

  unfoldable pub apply_all :
      List (String × String × CategorizationRule)
      → List CategorizationRule
      → List CategorizationRule
  apply_all [] rules = rules
  apply_all (l ∷ learned) rules = apply_all learned (apply_learned l rules)

  -- The end of `_learn_rules_from_overrides`: the count and the file.
  abbrev pub save_rules : RulesFile → ℕ → List CategorizationRule → ℕ × RulesFile
  save_rules file applied rules = elim file.saving [
    | unwritable ↦ (0, file)
    | unloadable ↦ (0, record file { rules = rules })
    | saved ↦ (applied, record file { rules = rules })
  ]

  abbrev pub save_learned : RulesFile → List (String × String × CategorizationRule) → ℕ × RulesFile
  save_learned file [] = (0, file)
  save_learned file (l ∷ learned) =
      save_rules file (length (l ∷ learned)) (apply_all (l ∷ learned) file.rules)

  -- `_learn_rules_from_overrides`
  unfoldable pub learn_rules_from_overrides :
      RulesFile → List Txn → List (ℕ × String) → ℕ × RulesFile
  learn_rules_from_overrides file txns overrides =
      if not file.is_rule_engine then (0, file) else save_learned file (learn_each txns overrides)

  -- The first line's description that is not blank.
  abbrev pub review_description : List PromoteLineInput → String
  review_description [] = ""
  review_description (l ∷ ls) =
      or_text (strip is_space (text_of l.description)) (review_description ls)

  -- The codes of the lines' accounts, in the order of the lines.
  abbrev pub chosen_codes : List ChartOfAccounts → List PromoteLineInput → List String
  chosen_codes accounts [] = []
  chosen_codes accounts (l ∷ ls) =
      elim (find (λ (a : ChartOfAccounts). a.id == l.account_id) accounts) [
        | none ↦ chosen_codes accounts ls
        | some a ↦ a.code ∷ chosen_codes accounts ls
      ]

  abbrev pub learn_first : RulesFile → Txn → List String → ℕ × RulesFile
  learn_first file txn [] = (0, file)
  learn_first file txn (target ∷ more) =
      learn_rules_from_overrides file (txn ∷ []) ((0, target) ∷ [])

  -- `_learn_rule_from_single_promote`, with its default cash account.
  unfoldable pub learn_rule_from_single_promote :
      RulesFile
      → DraftClassification
      → List PromoteLineInput
      → Option String
      → Session
      → ℕ × RulesFile
  learn_rule_from_single_promote file draft lines memo s =
      let p = draft.payload in
      let direction = lower (strip is_space (text_of p.direction)) in
      let proposed = strip is_space (text_of p.proposed_account_code) in
      let description = or_text (review_description lines) (
        or_text (strip is_space (text_of p.description)) (
          or_text (strip is_space (text_of p.memo))
            (or_text (strip is_space (text_of p.merchant)) (strip is_space (text_of memo))))) in
      let accounts =
        select (λ a. visible s.guc a.firm_id a.client_id && a.client_id == draft.client_id)
          s.accounts in
      let txn : Txn = record {
        date = none;
        description = some description;
        amount = none;
        direction = some direction;
        proposed_account_code = some proposed;
        needs_review = false;
      } in
      if p.is_statement
      then (0, file)
      else if not (is_direction direction) || is_empty proposed || is_empty description
      then (0, file)
      else learn_first file txn (select (λ c. not (str_eq c "1000")) (chosen_codes accounts lines))
