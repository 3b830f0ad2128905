-- ===== src/Disassembler/Labels.antt =====
-- The label table of the disassembler: retrocpu_emu_ts/src/dis_assembler/mn1613/labels.ts. The map
-- from word addresses is a function. `parseCdb` is left to the caller: its symbols are the argument.
use Prim.Native.Char.{code}
use Prim.Native.String.{String}
use retro_cpu_emu.Shared.{
  ℕ, ◌%◌, ◌^◌, Bool, true, not, ◌&&◌, ◌||◌, List, [], ◌∷◌, Option, none, some, leb, ◌==◌,
  if◌then◌else◌,
}
use retro_cpu_emu.Shared.Text.{is_empty, same_text}

pub record Label : Type 0 where
  pub name : String
  pub scope : String

pub record Symbol : Type 0 where
  pub name : String
  pub word_addr : ℕ
  pub scope : String

abbrev pub Mn1613LabelTable : Type 0
Mn1613LabelTable = ℕ → Option Label

abbrev pub empty_table : Mn1613LabelTable
empty_table a = none

-- The white space of JavaScript's `trim`.
unfoldable pub is_space : ℕ → Bool
is_space k =
    leb 9 k && leb k 13
    || k == 32
    || k == 0xa0
    || k == 0x1680
    || leb 0x2000 k && leb k 0x200a
    || k == 0x2028
    || k == 0x2029
    || k == 0x202f
    || k == 0x205f
    || k == 0x3000
    || k == 0xfeff

unfoldable pub trim_start : String → String
trim_start String.[] = String.[]
trim_start (String.◌∷◌ k s) =
    let rest = trim_start s in if is_space (code k) then rest else String.◌∷◌ k s

unfoldable pub trim_end : String → String
trim_end String.[] = String.[]
trim_end (String.◌∷◌ k s) =
    let rest = trim_end s in
    if is_space (code k) && is_empty rest then String.[] else String.◌∷◌ k rest

abbrev pub trim : String → String
trim s = trim_end (trim_start s)

-- G always wins, and F and L only where no G stands.
unfoldable pub wins : Option Label → String → Bool
wins none scope = true
wins (some prev) scope = same_text scope "G" || not (same_text prev.scope "G")

unfoldable pub put : ℕ → String → String → Mn1613LabelTable → Mn1613LabelTable
put address name scope table a =
    if a == address && wins (table address) scope
    then some (record { name = name; scope = scope })
    else table a

unfoldable pub load_cdb : List Symbol → Mn1613LabelTable → Mn1613LabelTable
load_cdb [] table = table
load_cdb (sym ∷ symbols) table =
    load_cdb symbols (put (sym.word_addr % 2 ^ 16) sym.name sym.scope table)

-- The source sets the entry whatever stands there.
unfoldable pub set_label : ℕ → String → Mn1613LabelTable → Mn1613LabelTable
set_label address name table a =
    if a == address then some (record { name = name; scope = "G" }) else table a

unfoldable pub set_labels : List (String × ℕ) → Mn1613LabelTable → Mn1613LabelTable
set_labels [] table = table
set_labels ((name, word_addr) ∷ entries) table =
    set_labels entries
      (if is_empty (trim name) then table else set_label (word_addr % 2 ^ 16) (trim name) table)

unfoldable pub add_label : String → ℕ → String → Mn1613LabelTable → Mn1613LabelTable
add_label name word_addr scope table =
    if is_empty (trim name) then table else put (word_addr % 2 ^ 16) (trim name) scope table

abbrev pub name_of : Option Label → Option String
name_of none = none
name_of (some l) = some l.name

unfoldable pub lookup : ℕ → Mn1613LabelTable → Option String
lookup word_addr table = name_of (table (word_addr % 2 ^ 16))
