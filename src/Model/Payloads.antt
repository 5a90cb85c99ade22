-- ===== src/Model/Payloads.antt =====
-- The JSON of `draft_classification.payload`, as far as app/domain/promotion.py reads and writes it
-- and app/integrations writes it: the keys that a payload can lack are options.
use Prim.Native.Nat.{ℕ}
use Prim.Native.String.{String}
use mathlib.Core.Bool.{Bool}
use mathlib.Core.Option.{Option}
use mathlib.Core.List.{List}

-- One entry of `transactions`. An amount is the text that `str` makes of it.
pub record Txn : Type 0 where
  pub date : Option String
  pub description : Option String
  pub amount : Option String
  pub direction : Option String
  pub proposed_account_code : Option String
  pub needs_review : Bool

-- The reasons of `skipped`.
pub data SkipReason : Type 0 where
  no_account_code needs_confirmation unparseable_amount amount_not_positive : SkipReason
  not_in_chart unknown_direction : String → SkipReason

pub record Payload : Type 0 where
  pub is_statement : Bool
  pub transactions : List Txn
  pub direction : Option String
  pub proposed_account_code : Option String
  pub description : Option String
  pub memo : Option String
  pub merchant : Option String
  pub posted_journal_entry_ids : Option (List ℕ)
  pub posted_count : Option ℕ
  pub skipped : Option (List (ℕ × SkipReason))
  pub learned_rule_count : Option ℕ
