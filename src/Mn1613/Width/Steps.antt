-- ===== src/Mn1613/Width/Steps.antt =====
-- The shared steps of mn1613.ts keep the widths: accesses, skips, the stack and interrupts.
use retro_cpu_emu.Shared.{ℕ, ◌+◌, ◌%◌, ◌^◌, arith}
use retro_cpu_emu.Mn1613.Board.{Board, rd_phys}
use retro_cpu_emu.Mn1613.Memory.{word_at-lt}
use retro_cpu_emu.Mn1613.Core.{
  Cpu, rd_c, rd_s, wr_s, rd_b, fetch, relative, ea, skip_next, skip_if, add, sub, push, pop,
  accept_irq, handle_irq, trap_undefined_insn,
}
use retro_cpu_emu.Mn1613.Width.Fields.{
  IsValid, Word, set_ic-IsValid, set_sp-IsValid, set_str-IsValid, set_csbr-IsValid,
  set_iisr-IsValid, set_osr-IsValid, set_e-IsValid, set_ovf-IsValid, or-Word,
}

pub rd_phys-Word : (p : ℕ) (b : Board) → Word (rd_phys p b).0
unfolding rd_phys
rd_phys-Word p b = word_at-lt (p % 2 ^ 18) b

pub rd_c-Word : (la : ℕ) (s : Cpu) → Word (rd_c la s).0
unfolding rd_c
rd_c-Word la s = rd_phys-Word _ s.board

pub rd_c-IsValid : (la : ℕ) (s : Cpu) → IsValid s.reg → IsValid (rd_c la s).1.reg
unfolding rd_c
rd_c-IsValid la s h = h

pub rd_b-Word : (la seg : ℕ) (s : Cpu) → Word (rd_b la seg s).0
unfolding rd_b
rd_b-Word la seg s = rd_phys-Word _ s.board

pub rd_b-IsValid : (la seg : ℕ) (s : Cpu) → IsValid s.reg → IsValid (rd_b la seg s).1.reg
unfolding rd_b
rd_b-IsValid la seg s h = h

pub fetch-IsValid : (s : Cpu) → IsValid s.reg → IsValid (fetch s).1.reg
unfolding fetch rd_c
fetch-IsValid s h = set_ic-IsValid _ s.reg (omega arith) h

pub fetch-Word : (s : Cpu) → Word (fetch s).0
unfolding fetch
fetch-Word s = rd_c-Word s.reg.ic s

pub skip_next-IsValid : (s : Cpu) → IsValid s.reg → IsValid (skip_next s).1.reg
unfolding skip_next rd_c
skip_next-IsValid s h =
    let h₁ = set_ic-IsValid ((s.reg.ic + 1) % 2 ^ 16) s.reg (omega arith) h in
    let h₂ = set_ic-IsValid (((s.reg.ic + 1) % 2 ^ 16 + 1) % 2 ^ 16) s.reg (omega arith) h in
    ground (arith, h₁, h₂)

pub skip_if-IsValid : (kkkk res : ℕ) (s : Cpu) → IsValid s.reg → IsValid (skip_if kkkk res s).1.reg
unfolding skip_if
skip_if-IsValid kkkk res s h = ground (arith, h, skip_next-IsValid s h)

pub ea-IsValid : (mmm d : ℕ) (s : Cpu) → IsValid s.reg → IsValid (ea mmm d s).1.reg
unfolding ea rd_c
ea-IsValid mmm d s h = ground (arith, h)

pub ea-Word : (mmm d : ℕ) (s : Cpu) → Word (ea mmm d s).0
unfolding ea relative
ea-Word mmm d s = ground (arith, rd_c-Word (d % 2 ^ 8) s, rd_c-Word (relative s.reg.ic d) s)

pub add-IsValid : (a b : ℕ) (s : Cpu) → IsValid s.reg → IsValid (add a b s).1.reg
unfolding add
add-IsValid a b s h = set_ovf-IsValid _ _ (set_e-IsValid _ s.reg h)

pub sub-IsValid : (a b : ℕ) (s : Cpu) → IsValid s.reg → IsValid (sub a b s).1.reg
unfolding sub
sub-IsValid a b s h = set_ovf-IsValid _ _ (set_e-IsValid _ s.reg h)

pub push-IsValid : (v : ℕ) (s : Cpu) → IsValid s.reg → IsValid (push v s).1.reg
unfolding push wr_s
push-IsValid v s h = set_sp-IsValid _ s.reg (omega arith) h

pub pop-IsValid : (s : Cpu) → IsValid s.reg → IsValid (pop s).1.reg
unfolding pop rd_s
pop-IsValid s h = set_sp-IsValid _ s.reg (omega arith) h

pub pop-Word : (s : Cpu) → Word (pop s).0
unfolding pop rd_s
pop-Word s = rd_phys-Word _ s.board

pub accept_irq-IsValid : (lv : ℕ) (s : Cpu) → IsValid s.reg → IsValid (accept_irq lv s).1.reg
unfolding accept_irq
accept_irq-IsValid lv s h = set_ic-IsValid _ _ (rd_phys-Word _ _) (
    set_str-IsValid _ _ (rd_phys-Word _ _) (
      set_csbr-IsValid 0 _ (omega arith)
        (set_osr-IsValid lv (s.reg.csbr % 2 ^ 4) s.reg (omega arith) h)))

pub handle_irq-IsValid : (s : Cpu) → IsValid s.reg → IsValid (handle_irq s).1.reg
unfolding handle_irq
handle_irq-IsValid s h =
    ground (arith, h, accept_irq-IsValid 0 s h, accept_irq-IsValid 1 s h, accept_irq-IsValid 2 s h)

pub trap_undefined_insn-IsValid : (s : Cpu) → IsValid s.reg → IsValid (trap_undefined_insn s).1.reg
unfolding trap_undefined_insn
trap_undefined_insn-IsValid s h =
    let one = λ (x : ℕ) (k : Word x). or-Word x 1 k (omega arith) in
    accept_irq-IsValid 0 _ (set_iisr-IsValid _ s.reg (one _ (one s.reg.iisr h.iisr)) h)
