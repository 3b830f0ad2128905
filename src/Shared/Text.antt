-- ===== src/Shared/Text.antt =====
-- Text as native strings.
use Prim.Native.String
use text.Mathlib.Text
use Prim.Native.String.{String}
use Prim.Native.Nat.{ℕ, ◌%◌}
use mathlib.Core.List.{List, [], ◌∷◌, ◌++◌}
use mathlib.Core.Bool.{Bool, true, false}
use mathlib.Core.Option.{Option, none, some}
use retro_cpu_emu.Shared.Lists.{get_elem?}

-- Texts joined, beside the `++` of lists.
infixr 66 ◌&◌
abbrev pub ◌&◌ : String → String → String
s & t = String.◌++◌ s t

-- An element that is known to be there (`names[i]!`).
abbrev pub known : Option String → String
known none = ""
known (some s) = s

abbrev pub low_digits : List String
low_digits = "0" ∷ "1" ∷ "2" ∷ "3" ∷ "4" ∷ "5" ∷ "6" ∷ "7" ∷ []

abbrev pub high_digits : List String
high_digits = "8" ∷ "9" ∷ "a" ∷ "b" ∷ "c" ∷ "d" ∷ "e" ∷ "f" ∷ []

abbrev pub hex_digit : ℕ → String
hex_digit d = known (get_elem? (low_digits ++ high_digits) (d % 16))

abbrev pub is_empty : String → Bool
is_empty String.[] = true
is_empty (String.◌∷◌ c s) = false

-- `===` on texts.
abbrev pub same_text : String → String → Bool
same_text s t = Text.◌==◌ s t
