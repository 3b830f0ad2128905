-- ===== src/Mn1613/Traps.antt =====
-- Undefined instructions and pending interrupts of mn1613.ts: what the trap does, and which request
-- `_handleIRQ` takes.
use retro_cpu_emu.Shared.{ℕ, ◌/◌, ◌%◌, ◌^◌, ◌<◌, ◌≡◌, refl, arith, true, false, bit_or}
use retro_cpu_emu.Shared.Bits.{has, has-or}
use retro_cpu_emu.Mn1613.Core.{
  Cpu, accept_irq, trap_undefined_insn, acceptable, str_m0, str_m1, str_m2, iisr_undef,
}
use retro_cpu_emu.Mn1613.Float.{JsNumber}
use retro_cpu_emu.Mn1613.Execute.{decode, register_group}
use retro_cpu_emu.Mn1613.Psw.{Entered, HasPsw, accept_irq-Entered}

-- The state in which the trap takes the interrupt.
abbrev noted : Cpu → Cpu
noted s = record s { reg = record (s.reg) { iisr = bit_or (bit_or s.reg.iisr 0x0001) iisr_undef } }

accept_irq-iisr : (lv : ℕ) (s : Cpu) → (accept_irq lv s).1.reg.iisr ≡ s.reg.iisr
unfolding accept_irq
accept_irq-iisr lv s = refl

noted-flag : (x : ℕ) → has (bit_or (bit_or x 0x0001) iisr_undef) iisr_undef ≡ true
noted-flag x = rw (has-or 0 (bit_or x 0x0001) 1) (ground arith)

trap-Entered :
    (s : Cpu)
    → 0 < s.reg.npp
    → s.reg.npp < 2 ^ 8
    → HasPsw 0 s
    → Entered 0 s (trap_undefined_insn s).1
unfolding trap_undefined_insn
trap-Entered s p lt ib =
    let h = accept_irq-Entered 0 (noted s) (omega arith) p lt ib in
    record {
      new_str = h.new_str;
      new_ic = h.new_ic;
      new_csbr = h.new_csbr;
      old_str = h.old_str;
      old_ic = h.old_ic;
      old_csbr = h.old_csbr;
    }

trap-flag : (s : Cpu) → has (trap_undefined_insn s).1.reg.iisr iisr_undef ≡ true
unfolding trap_undefined_insn
trap-flag s = rw (accept_irq-iisr 0 (noted s)) (noted-flag s.reg.iisr)

decode-zero :
    (js : JsNumber) (ir : ℕ) (s : Cpu) → ir < 2 ^ 11 → decode js ir s ≡ trap_undefined_insn s
unfolding decode register_group
decode-zero js ir s h = let e : ir / 2 ^ 11 % 2 ^ 5 ≡ 0 = omega arith in rw e refl

-- An instruction word whose top five bits are 0, decoded with an NPP from 1 to 255 and the words 0
-- and 1 in the buffer, enters the interrupt of level 0, whatever the mask in STR: STR, IC and CSBR
-- are saved, STR and IC are loaded by NPP, and the lowest bit of IISR is set.
pub decode-undefined :
    (js : JsNumber) (ir : ℕ) (s : Cpu)
    → ir < 2 ^ 11
    → 0 < s.reg.npp
    → s.reg.npp < 2 ^ 8
    → HasPsw 0 s
    → Entered 0 s (decode js ir s).1 × (has (decode js ir s).1.reg.iisr iisr_undef ≡ true)
decode-undefined js ir s h p lt ib =
    rw (decode-zero js ir s h) (trap-Entered s p lt ib, trap-flag s)

-- The level that the search of `_handleIRQ` stops at: the lowest whose request is pending and whose
-- mask is set.
pub data Taken (s : Cpu) (t : Cpu) : Type 0 where
  level0 : acceptable 0 str_m0 s ≡ true → t ≡ (accept_irq 0 s).1 → Taken s t
  level1 :
      acceptable 0 str_m0 s ≡ false
      → acceptable 1 str_m1 s ≡ true
      → t ≡ (accept_irq 1 s).1
      → Taken s t
  level2 :
      acceptable 0 str_m0 s ≡ false
      → acceptable 1 str_m1 s ≡ false
      → acceptable 2 str_m2 s ≡ true
      → t ≡ (accept_irq 2 s).1
      → Taken s t
