-- ===== src/Mn1613/Psw.antt =====
-- The program status words of mn1613.ts: what `_acceptIrq` saves and loads, that LPSW restores it,
-- and which request `_handleIRQ` takes.
use retro_cpu_emu.Shared.{ℕ, ◌+◌, ◌*◌, ◌%◌, ◌^◌, ◌<◌, ◌≤◌, ◌≡◌, ◌≢◌, refl, ◌∙◌, ap, subst, arith}
use retro_cpu_emu.Machine.{store}
use retro_cpu_emu.Mn1613.Board.{Board, phys, word_at, rd_phys, wr_phys}
use retro_cpu_emu.Mn1613.Core.{Cpu, accept_irq, clear_pending}
use retro_cpu_emu.Mn1613.Extended.{lpsw}
use retro_cpu_emu.Mn1613.Memory.{
  InBuffer, word_at-wr_phys, word_at-wr_phys_ne, word_at-rd_phys, rd_phys-value, phys-inj, phys-mod,
  wr_phys-size,
}

-- A word of the segment 0 below 64 K.
abbrev pub low_word : ℕ → Board → ℕ
low_word a b = word_at (phys a 0) b

read_low : (a : ℕ) (b : Board) → (rd_phys (phys a 0) b).0 ≡ low_word a b
read_low a b = rd_phys-value (phys a 0) b ∙ ap (λ (q : ℕ). word_at q b) (phys-mod a 0)

write_low :
    (a v : ℕ) (b : Board)
    → InBuffer (phys a 0) b
    → low_word a (wr_phys (phys a 0) v b).1 ≡ v % 2 ^ 16
write_low a v b h =
    subst (λ (q : ℕ). word_at q (wr_phys (phys a 0) v b).1 ≡ v % 2 ^ 16) (phys-mod a 0)
      (word_at-wr_phys (phys a 0) v b (rw (phys-mod a 0) h))

write_low_ne :
    (a x v : ℕ) (b : Board)
    → a < 2 ^ 16
    → x < 2 ^ 16
    → x ≢ a
    → low_word x (wr_phys (phys a 0) v b).1 ≡ low_word x b
write_low_ne a x v b ha hx ne =
    word_at-wr_phys_ne (phys a 0) (phys x 0) v b (λ e. ne (phys-inj 0 x a hx ha (e ∙ phys-mod a 0)))

-- The board after the two words of the old status are written.
abbrev saved_board : ℕ → Cpu → Board
saved_board lv s =
    (wr_phys (phys (lv * 2 + 1) 0) s.reg.ic
      (wr_phys (phys (lv * 2) 0) s.reg.str (clear_pending lv s.board)).1).1

saved_str :
    (lv : ℕ) (s : Cpu)
    → lv < 4
    → InBuffer (phys (lv * 2) 0) s.board
    → low_word (lv * 2) (saved_board lv s) ≡ s.reg.str % 2 ^ 16
saved_str lv s h ib =
    write_low_ne (lv * 2 + 1) (lv * 2) s.reg.ic _ (omega arith) (omega arith) (λ e. omega arith)
    ∙ write_low (lv * 2) s.reg.str (clear_pending lv s.board) ib

saved_ic :
    (lv : ℕ) (s : Cpu)
    → InBuffer (phys (lv * 2 + 1) 0) s.board
    → low_word (lv * 2 + 1) (saved_board lv s) ≡ s.reg.ic % 2 ^ 16
saved_ic lv s ib =
    write_low (lv * 2 + 1) s.reg.ic _ (rw (wr_phys-size (phys (lv * 2) 0) s.reg.str _) ib)

saved_other :
    (lv x : ℕ) (s : Cpu)
    → lv < 4
    → 8 ≤ x
    → x < 2 ^ 16
    → low_word x (saved_board lv s) ≡ low_word x s.board
unfolding word_at
saved_other lv x s h lo hi =
    write_low_ne (lv * 2 + 1) x s.reg.ic _ (omega arith) hi (λ e. omega arith)
    ∙ write_low_ne (lv * 2) x s.reg.str (clear_pending lv s.board) (omega arith) hi
        (λ e. omega arith)

abbrev npsw : Cpu → ℕ → ℕ
npsw s k = s.reg.npp % 2 ^ 8 * 2 ^ 8 + k

accept_irq-board :
    (lv x : ℕ) (s : Cpu) → word_at x (accept_irq lv s).1.board ≡ word_at x (saved_board lv s)
unfolding accept_irq
accept_irq-board lv x s = word_at-rd_phys x _ _ ∙ word_at-rd_phys x _ _

-- The core after an interrupt: CSBR is 0, and STR and IC are the words of the new status.
pub record Entered (lv : ℕ) (s t : Cpu) : Type 0 where
  pub new_str : t.reg.str ≡ low_word (npsw s (lv * 2)) s.board
  pub new_ic : t.reg.ic ≡ low_word (npsw s (lv * 2) + 1) s.board
  pub new_csbr : t.reg.csbr ≡ 0
  pub old_str : low_word (lv * 2) t.board ≡ s.reg.str % 2 ^ 16
  pub old_ic : low_word (lv * 2 + 1) t.board ≡ s.reg.ic % 2 ^ 16
  pub old_csbr : t.reg.osr lv ≡ s.reg.csbr % 2 ^ 4

-- The words of the old status of a level are in the buffer.
abbrev pub HasPsw : ℕ → Cpu → Type 0
HasPsw lv s = InBuffer (phys (lv * 2) 0) s.board × InBuffer (phys (lv * 2 + 1) 0) s.board

store_self : (f : ℕ → ℕ) (a v : ℕ) → store f a v a ≡ v
store_self f a v = ground arith

-- With an NPP from 1 to 255, an interrupt of a level from 0 to 3 whose words of the old status are
-- in the buffer saves STR, IC and CSBR, clears CSBR, and loads STR and IC from the words that NPP
-- points to, as they were before it.
pub accept_irq-Entered :
    (lv : ℕ) (s : Cpu)
    → lv < 4
    → 0 < s.reg.npp
    → s.reg.npp < 2 ^ 8
    → HasPsw lv s
    → Entered lv s (accept_irq lv s).1
unfolding accept_irq
accept_irq-Entered lv s h pos_npp npp_lt ib =
    let b = saved_board lv s in
    record {
      new_str =
          read_low (npsw s (lv * 2)) b
          ∙ saved_other lv (npsw s (lv * 2)) s h (omega arith) (omega arith);
      new_ic =
          read_low (npsw s (lv * 2) + 1) _
          ∙ word_at-rd_phys _ _ b
          ∙ saved_other lv (npsw s (lv * 2) + 1) s h (omega arith) (omega arith);
      new_csbr = refl;
      old_str = accept_irq-board lv _ s ∙ saved_str lv s h ib.0;
      old_ic = accept_irq-board lv _ s ∙ saved_ic lv s ib.1;
      old_csbr = store_self s.reg.osr lv (s.reg.csbr % 2 ^ 4);
    }

-- LPSW takes back what the interrupt saved: if the interrupt of a level was accepted, and in the
-- state `t` where LPSW runs the two words of the old status and the OSR of that level are as the
-- interrupt left them, then STR, IC and CSBR are again what they were before the interrupt.
pub lpsw-accept_irq :
    (lv : ℕ) (s t : Cpu)
    → lv < 4
    → s.reg.str < 2 ^ 16
    → s.reg.ic < 2 ^ 16
    → s.reg.csbr < 2 ^ 4
    → HasPsw lv s
    → low_word (lv * 2) t.board ≡ low_word (lv * 2) (accept_irq lv s).1.board
    → low_word (lv * 2 + 1) t.board ≡ low_word (lv * 2 + 1) (accept_irq lv s).1.board
    → t.reg.osr lv ≡ (accept_irq lv s).1.reg.osr lv
    → ((lpsw lv t).1.reg.str ≡ s.reg.str)
      × ((lpsw lv t).1.reg.ic ≡ s.reg.ic)
      × ((lpsw lv t).1.reg.csbr ≡ s.reg.csbr)
unfolding lpsw accept_irq
lpsw-accept_irq lv s t h hs hi hc ib e₀ e₁ e₂ = (
  read_low (lv * 2) t.board ∙ e₀ ∙ accept_irq-board lv _ s ∙ saved_str lv s h ib.0 ∙ omega arith,
  read_low (lv * 2 + 1) _
      ∙ word_at-rd_phys _ _ t.board
      ∙ e₁
      ∙ accept_irq-board lv _ s
      ∙ saved_ic lv s ib.1
      ∙ omega arith,
  ap (λ (x : ℕ). x % 2 ^ 4) (e₂ ∙ store_self s.reg.osr lv (s.reg.csbr % 2 ^ 4)) ∙ omega arith,
)
