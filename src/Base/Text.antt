-- ===== src/Base/Text.antt =====
-- Texts as lists of code points, where the program orders or searches them.
use Prim.Native.Char.{Char, code}
use Prim.Native.Nat.{ℕ, zero, suc}
use Prim.Native.String.{String}
use mathlib.Core.Bool.{Bool, true, false, ◌&&◌, ◌||◌}
use mathlib.Core.Option.{Option, none, some}
use mathlib.Core.List.{List, [], ◌∷◌}
use company_tax_and_accounti.Base.Tests.{ltb, ◌==◌, if◌then◌else◌}

abbrev pub is_empty : String → Bool
is_empty String.[] = true
is_empty (String.◌∷◌ c s) = false

abbrev pub codes : String → List ℕ
codes String.[] = []
codes (String.◌∷◌ c s) = code c ∷ codes s

-- Python orders texts by their code points.
abbrev pub leb_codes : List ℕ → List ℕ → Bool
leb_codes [] ys = true
leb_codes (x ∷ xs) [] = false
leb_codes (x ∷ xs) (y ∷ ys) = ltb x y || (x == y && leb_codes xs ys)

abbrev pub leb_text : String → String → Bool
leb_text s t = leb_codes (codes s) (codes t)

-- Python's `strip` and slices, over the characters that count as white space.
module _ (is_space : Char → Bool) where
  abbrev pub strip_left : String → String
  strip_left String.[] = String.[]
  strip_left (String.◌∷◌ c s) = if is_space c then strip_left s else String.◌∷◌ c s

  abbrev pub strip_right : String → String
  strip_right String.[] = String.[]
  strip_right (String.◌∷◌ c s) =
      let rest = strip_right s in
      if is_space c && is_empty rest then String.[] else String.◌∷◌ c rest

  abbrev pub strip : String → String
  strip s = strip_right (strip_left s)

-- `s[:n]`
abbrev pub take_text : ℕ → String → String
take_text zero s = String.[]
take_text (suc n) String.[] = String.[]
take_text (suc n) (String.◌∷◌ c s) = String.◌∷◌ c (take_text n s)

-- `s.replace(",", "")`
abbrev pub drop_commas : String → String
drop_commas String.[] = String.[]
drop_commas (String.◌∷◌ c s) =
    let rest = drop_commas s in if code c == 44 then rest else String.◌∷◌ c rest

-- `x or d` on texts.
abbrev pub or_text : String → String → String
or_text s d = if is_empty s then d else s

-- `o or ""`
abbrev pub text_of : Option String → String
text_of none = ""
text_of (some s) = s
