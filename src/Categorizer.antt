-- ===== src/Categorizer.antt =====
-- The rules of the categorizer (app/integrations/account_categorizer.py). Python's tables of
-- Unicode, the reading of numbers and the search of a pattern are parameters.
use company_tax_and_accounti.Base.{List, String}

pub record RuleCondition : Type 0 where
  pub field : String
  pub operator : String
  pub value : String

pub record CategorizationRule : Type 0 where
  pub name : String
  pub target_code : String
  pub conditions : List RuleCondition
  pub match_mode : String
