-- ===== src/Execute/Return.antt =====
-- BLWP and RTWP: the context switch and the return from it.
use retro_cpu_emu.Shared.{ℕ, ◌+◌, ◌*◌, ◌%◌, ◌^◌, ◌≡◌, refl, sym, ◌∙◌, ap, subst, arith, none}
use retro_cpu_emu.Machine.{
  Machine, read_reg, read_word, write_word, even_addr, save_r11, save_context, do_blwp, with_mask,
}
use retro_cpu_emu.Machine.Memory.{
  Frame, Frame-trans, read_word-Frame, read_word-value, read_word-memory, write_word-memory,
  PlainWord, word_at,
}
use retro_cpu_emu.Machine.Switch.{save_context-Frame}
use retro_cpu_emu.Context.{Context, blwp}
use retro_cpu_emu.Execute.Decode.{rtwp}

-- The workspace registers 13, 14 and 15 lie outside the memory-mapped IO.
abbrev pub PlainSave : ℕ → Type 0
PlainSave w = PlainWord (w + 13 * 2) × PlainWord (w + 14 * 2) × PlainWord (w + 15 * 2)

-- The three words that a switch to the workspace `w` saves are read back.
abbrev SavedWords : ℕ → Machine → Machine → Type 0
SavedWords w s m =
    (word_at m.memory (even_addr (w + 13 * 2)) ≡ s.wp % 2 ^ 16)
    × (word_at m.memory (even_addr (w + 14 * 2)) ≡ s.pc % 2 ^ 16)
    × (word_at m.memory (even_addr (w + 15 * 2)) ≡ s.st % 2 ^ 16)

save_context-SavedWords : (w : ℕ) (s : Machine) → PlainSave w → SavedWords w s (save_context w s).1
unfolding save_context
save_context-SavedWords w s (h₁, h₂, h₃) =
    let s₁ = (write_word (w + 13 * 2) s.wp s).1 in
    let s₂ = (write_word (w + 14 * 2) s.pc s₁).1 in
    rw
      (
        write_word-memory (w + 15 * 2) s.st s₂ h₃,
        write_word-memory (w + 14 * 2) s.pc s₁ h₂,
        write_word-memory (w + 13 * 2) s.wp s h₁,
      )
      (ground arith, ground arith, ground arith)

-- The new workspace that a vector names.
abbrev pub switch_wp : ℕ → Machine → ℕ
switch_wp vec s = even_addr (read_word (vec % 2 ^ 16) s).0

SavedWords-Frame : (w : ℕ) (s s' m : Machine) → Frame s s' → SavedWords w s' m → SavedWords w s m
SavedWords-Frame w s s' m f (p, q, r) = (
  p ∙ ap (λ (x : Machine). x.wp % 2 ^ 16) f,
  q ∙ ap (λ (x : Machine). x.pc % 2 ^ 16) f,
  r ∙ ap (λ (x : Machine). x.st % 2 ^ 16) f,
)

-- A context switch leaves the old WP, PC and ST in R13, R14 and R15 of the workspace that the
-- vector names.
do_blwp-SavedWords :
    (vec : ℕ) (s : Machine)
    → PlainSave (switch_wp vec s)
    → SavedWords (switch_wp vec s) s (do_blwp vec none s).1
unfolding do_blwp save_r11
do_blwp-SavedWords vec s h =
    let v = vec % 2 ^ 16 in
    let s₁ = (read_word v s).1 in
    let s₂ = (read_word (v + 2) s₁).1 in
    let f = Frame-trans s s₁ s₂ (read_word-Frame v s) (read_word-Frame (v + 2) s₁) in
    SavedWords-Frame (switch_wp vec s) s s₂ (save_context (switch_wp vec s) s₂).1 f
      (save_context-SavedWords (switch_wp vec s) s₂ h)

pub do_blwp-wp : (vec : ℕ) (s : Machine) → (do_blwp vec none s).1.wp ≡ switch_wp vec s
unfolding do_blwp
do_blwp-wp vec s = refl

pub do_blwp-pc :
    (vec : ℕ) (s : Machine)
    → (do_blwp vec none s).1.pc
      ≡ even_addr (read_word (vec % 2 ^ 16 + 2) (read_word (vec % 2 ^ 16) s).1).0
unfolding do_blwp
do_blwp-pc vec s = refl

-- WP, PC and ST written to R13, R14 and R15 of the workspace `w`.
abbrev pub saved : ℕ → ℕ → ℕ → ℕ → Machine → Machine
saved w wp pc st s =
    (write_word (w + 15 * 2) st (write_word (w + 14 * 2) pc (write_word (w + 13 * 2) wp s).1).1).1

-- The machine after the two words at an address were read.
abbrev pub after_reads : ℕ → Machine → Machine
after_reads a s = (read_word (a + 2) (read_word a s).1).1

pub do_blwp-memory :
    (vec : ℕ) (s : Machine)
    → (do_blwp vec none s).1.memory
      ≡ (saved (switch_wp vec s) s.wp s.pc s.st (after_reads (vec % 2 ^ 16) s)).memory
unfolding do_blwp save_context save_r11
do_blwp-memory vec s =
    let v = vec % 2 ^ 16 in
    let f =
      Frame-trans s (read_word v s).1 (after_reads v s) (read_word-Frame v s)
        (read_word-Frame (v + 2) (read_word v s).1) in
    ap (λ (m : Machine). (saved (switch_wp vec s) m.wp m.pc m.st (after_reads v s)).memory) f

pub do_blwp-st : (vec : ℕ) (s : Machine) → (do_blwp vec none s).1.st ≡ with_mask s.st s.st
unfolding do_blwp save_r11
do_blwp-st vec s =
    let v = vec % 2 ^ 16 in
    let s₁ = (read_word v s).1 in
    let s₂ = (read_word (v + 2) s₁).1 in
    let f = Frame-trans s s₁ s₂ (read_word-Frame v s) (read_word-Frame (v + 2) s₁) in
    let s₃ = (save_context (switch_wp vec s) s₂).1 in
    ap (λ (m : Machine). with_mask m.st m.st)
      (Frame-trans s s₂ s₃ f (save_context-Frame (switch_wp vec s) s₂))

read_reg-value :
    (n : ℕ) (s : Machine)
    → PlainWord (s.wp + n % 16 * 2)
    → (read_reg n s).0 ≡ word_at s.memory (even_addr (s.wp + n % 16 * 2))
unfolding read_reg
read_reg-value n s h = read_word-value (s.wp + n % 16 * 2) s h

read_reg-memory : (n : ℕ) (s : Machine) → (read_reg n s).1.memory ≡ s.memory
unfolding read_reg
read_reg-memory n s = read_word-memory (s.wp + n % 16 * 2) s

read_reg-wp : (n : ℕ) (s : Machine) → (read_reg n s).1.wp ≡ s.wp
unfolding read_reg
read_reg-wp n s = ap (λ (m : Machine). m.wp) (read_word-Frame (s.wp + n % 16 * 2) s)

read_after :
    (n : ℕ) (s s' : Machine)
    → s'.wp ≡ s.wp
    → s'.memory ≡ s.memory
    → PlainWord (s.wp + n % 16 * 2)
    → (read_reg n s').0 ≡ word_at s.memory (even_addr (s.wp + n % 16 * 2))
read_after n s s' e f h =
    let h' : PlainWord (s'.wp + n % 16 * 2) =
      subst (λ (x : ℕ). PlainWord (x + n % 16 * 2)) (sym e) h in
    read_reg-value n s' h'
    ∙ ap (λ (x : ℕ). word_at s'.memory (even_addr (x + n % 16 * 2))) e
    ∙ ap (λ (x : ℕ → ℕ). word_at x (even_addr (s.wp + n % 16 * 2))) f

-- What RTWP takes from the workspace.
rtwp-values :
    (c : Context)
    → PlainSave c.core.wp
    → let m = c.core.memory in
      let c' = (rtwp c).1 in
      (c'.wp ≡ even_addr (word_at m (even_addr (c.core.wp + 13 * 2))))
      × (c'.pc ≡ even_addr (word_at m (even_addr (c.core.wp + 14 * 2))))
      × (c'.st ≡ word_at m (even_addr (c.core.wp + 15 * 2)) % 2 ^ 16)
unfolding rtwp
rtwp-values c (h₁, h₂, h₃) =
    let s = c.core in
    let s₁ = (read_reg 15 s).1 in
    let s₂ = (read_reg 14 s₁).1 in
    let e₂ : s₂.wp ≡ s.wp = read_reg-wp 14 s₁ ∙ read_reg-wp 15 s in
    let f₂ : s₂.memory ≡ s.memory = read_reg-memory 14 s₁ ∙ read_reg-memory 15 s in
    (
      ap (λ (x : ℕ). even_addr x) (read_after 13 s s₂ e₂ f₂ h₁),
      ap (λ (x : ℕ). even_addr x) (read_after 14 s s₁ (read_reg-wp 15 s) (read_reg-memory 15 s) h₂),
      ap (λ (x : ℕ). x % 2 ^ 16) (read_after 15 s s refl refl h₃),
    )

-- RTWP after a BLWP, with no instruction between them, puts back the PC, the WP and the ST that the
-- core had, the addresses made even and the ST to 16 bits, when the three save words of the new
-- workspace lie outside the memory-mapped IO.
pub rtwp-blwp :
    (vec : ℕ) (c : Context)
    → PlainSave (switch_wp vec c.core)
    → let c' = (rtwp (blwp vec none c).1).1 in
      (c'.wp ≡ even_addr c.core.wp) × (c'.pc ≡ even_addr c.core.pc) × (c'.st ≡ c.core.st % 2 ^ 16)
unfolding blwp do_blwp
rtwp-blwp vec c h =
    let (p, q, r) = do_blwp-SavedWords vec c.core h in
    let (w, x, y) = rtwp-values (blwp vec none c).1 h in
    (
      w ∙ ap (λ (z : ℕ). even_addr z) p ∙ omega arith,
      x ∙ ap (λ (z : ℕ). even_addr z) q ∙ omega arith,
      y ∙ omega (arith, r),
    )
