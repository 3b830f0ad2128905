-- ===== src/Disassembler/Precedence.antt =====
-- Which symbol of a file names an address: labels.ts.
use Prim.Native.String.{String}
use retro_cpu_emu.Shared.{
  ℕ, ◌%◌, ◌^◌, ◌≡◌, refl, ◌∙◌, Bool, true, false, ◌&&◌, List, [], ◌∷◌, Option, none, some, ◌==◌,
  if◌then◌else◌, arith, Bool-cases, inl, inr,
}
use retro_cpu_emu.Shared.Text.{same_text}
use retro_cpu_emu.Disassembler.Labels.{Label, Symbol, Mn1613LabelTable, wins, put, load_cdb}

abbrev pub or_else : Option Label → Option Label → Option Label
or_else none o = o
or_else (some l) o = some l

-- The last of the symbols at an address that pass a test on the scope.
abbrev pub last_at : (String → Bool) → ℕ → List Symbol → Option Label
last_at test a [] = none
last_at test a (sym ∷ symbols) = or_else (last_at test a symbols) (
    if a == sym.word_addr % 2 ^ 16 && test sym.scope
    then some (record { name = sym.name; scope = sym.scope })
    else none)

abbrev pub global : String → Bool
global scope = same_text scope "G"

-- A label that is global, and any label.
abbrev pub if_global : Option Label → Option Label
if_global none = none
if_global (some l) = if global l.scope then some l else none

or_else_assoc : (x y z : Option Label) → or_else (or_else x y) z ≡ or_else x (or_else y z)
or_else_assoc none y z = refl
or_else_assoc (some l) y z = refl

abbrev pub named : ℕ → List Symbol → Option Label → Option Label
named a symbols before =
    or_else (last_at global a symbols)
      (or_else (if_global before) (or_else (last_at (λ k. true) a symbols) before))

if_global-or_else : (o : Option Label) → o ≡ or_else (if_global o) o
if_global-or_else none = refl
if_global-or_else (some l) = ground arith

put_lem :
    (same : Bool) (prev g r : Option Label) (l : Label)
    → (let after = if same && wins prev l.scope then some l else prev in
        or_else g (or_else (if_global after) (or_else r after)))
      ≡ or_else (or_else g (if same && global l.scope then some l else none)) (
          or_else
            (if_global prev)
            (or_else (or_else r (if same && true then some l else none)) prev))
unfolding wins
put_lem same prev (some k) r l = refl
put_lem false none none r l = ground arith
put_lem false (some p) none r l = ground arith
put_lem true none none r l = ground arith
put_lem true (some p) none none l = ground arith
put_lem true (some p) none (some k) l = ground arith

put-named :
    (a : ℕ) (sym : Symbol) (symbols : List Symbol) (table : Mn1613LabelTable)
    → named a symbols (put (sym.word_addr % 2 ^ 16) sym.name sym.scope table a)
      ≡ named a (sym ∷ symbols) (table a)
unfolding put
put-named a sym symbols table =
    let g = last_at global a symbols in
    let r = last_at (λ k. true) a symbols in
    let l : Label = record { name = sym.name; scope = sym.scope } in
    elim (Bool-cases (a == sym.word_addr % 2 ^ 16)) [
      | inl e ↦
          let q : sym.word_addr % 2 ^ 16 ≡ a = ground arith in
          let same : (a == a) ≡ true = ground arith in rw (q, same) (put_lem true (table a) g r l)
      | inr e ↦ rw e (put_lem false (table a) g r l)
    ]

-- At every address, the last global symbol there; without one, the global label that stood there;
-- without that, the last symbol there; and without any the label that stood there.
pub load_cdb-named :
    (symbols : List Symbol) (table : Mn1613LabelTable) (a : ℕ)
    → load_cdb symbols table a ≡ named a symbols (table a)
unfolding load_cdb
load_cdb-named [] table a = if_global-or_else (table a)
load_cdb-named (sym ∷ symbols) table a =
    load_cdb-named symbols (put (sym.word_addr % 2 ^ 16) sym.name sym.scope table) a
    ∙ put-named a sym symbols table
