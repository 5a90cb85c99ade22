-- ===== src/Promotion/Descriptions.antt =====
-- The normal form of a description (`_description_rule_key` of app/domain/promotion.py).
use Prim.Native.Char.{Char, code}
use Prim.Native.String.{◌++◌ as append}
use company_tax_and_accounti.Base.{
  leb, Bool, true, false, not, ◌&&◌, ◌||◌, String, ◌==◌, if◌then◌else◌,
}
use company_tax_and_accounti.Base.Text.{strip, is_empty}

module _ (is_space is_word is_digit : Char → Bool) (lower : String → String) where
  abbrev all_digits : String → Bool
  all_digits String.[] = true
  all_digits (String.◌∷◌ c s) = is_digit c && all_digits s

  -- A word that is a number becomes a space.
  abbrev flush : String → String
  flush word = if not (is_empty word) && all_digits word then " " else word

  -- `re.sub(r"\b\d+\b", " ", s)`, after the word read so far.
  unfoldable pub drop_numbers : String → String → String
  drop_numbers word String.[] = flush word
  drop_numbers word (String.◌∷◌ c s) =
      if is_word c
      then drop_numbers (append word (String.◌∷◌ c String.[])) s
      else append (flush word) (String.◌∷◌ c (drop_numbers String.[] s))

  abbrev is_kept : Char → Bool
  is_kept c =
      (leb 97 (code c) && leb (code c) 122)
      || (leb 48 (code c) && leb (code c) 57)
      || is_space c
      || (code c == 38 || code c == 47 || code c == 45)

  -- `re.sub(r"[^a-z0-9\s&/-]", " ", s)`
  abbrev pub keep_simple : String → String
  keep_simple String.[] = String.[]
  keep_simple (String.◌∷◌ c s) =
      if is_kept c then String.◌∷◌ c (keep_simple s) else append " " (keep_simple s)

  -- `re.sub(r"\s+", " ", s)`, after white space or not.
  abbrev pub collapse : Bool → String → String
  collapse before String.[] = String.[]
  collapse before (String.◌∷◌ c s) =
      let inside = collapse true s in
      let outside = collapse false s in
      if is_space c then if before then inside else append " " inside else String.◌∷◌ c outside

  -- `_description_rule_key`
  unfoldable pub description_rule_key : String → String
  description_rule_key description =
      let s = lower (strip is_space description) in
      if is_empty s
      then ""
      else strip is_space (collapse false (keep_simple (drop_numbers String.[] s)))

  -- `" ".join(s.split())`
  abbrev pub single_spaced : String → String
  single_spaced s = strip is_space (collapse false s)
