-- ===== src/Mn1613/Width/Whole.antt =====
-- `_executeOne`, the ticks and the steps of mn1613.ts keep the widths of the registers.
use retro_cpu_emu.Shared.{ℕ, arith, Bool, true, false, if◌then◌else◌}
use retro_cpu_emu.Mn1613.Core.{Cpu, rd_c, wr_c, skip_next, trap_undefined_insn}
use retro_cpu_emu.Mn1613.Float.{JsNumber}
use retro_cpu_emu.Mn1613.Move.{exec01, exec02, exec03}
use retro_cpu_emu.Mn1613.BitOps.{exec05, exec06, exec07}
use retro_cpu_emu.Mn1613.Arith.{exec08, exec09, exec0a}
use retro_cpu_emu.Mn1613.Execute.{
  branch, modify_memory, load_store, memory_group, register_group, decode, pending, fetch_insn,
  execute_one,
}
use retro_cpu_emu.Mn1613.Width.Fields.{
  IsValid, Keeps, keeps, if-Keeps, Word, set_ic-IsValid, sw-IsValid,
}
use retro_cpu_emu.Mn1613.Width.Steps.{
  fetch-IsValid, skip_next-IsValid, ea-IsValid, ea-Word, push-IsValid, handle_irq-IsValid,
  trap_undefined_insn-IsValid,
}
use retro_cpu_emu.Mn1613.Width.Groups.{exec01-IsValid, exec02-IsValid}
use retro_cpu_emu.Mn1613.Width.Floats.{exec03-IsValid}
use retro_cpu_emu.Mn1613.Width.Blocks.{exec05-IsValid, exec06-IsValid, exec07-IsValid}
use retro_cpu_emu.Mn1613.Width.Operations.{
  exec08-IsValid, exec09-IsValid, exec0a-IsValid, exec0b-Keeps,
}
use retro_cpu_emu.Mn1613.Width.Logics.{exec0c-Keeps, exec0d-Keeps, exec0e-Keeps, exec0f-Keeps}
use retro_cpu_emu.Mn1613.Width.Branches.{exec04-Keeps}

branch-Keeps : (hi : Bool) (a : ℕ) (s : Cpu) → Word a → IsValid s.reg → Keeps (branch hi a s)
unfolding branch
branch-Keeps true a s ha h = keeps (branch true a s) (set_ic-IsValid a s.reg ha h)
branch-Keeps false a s ha h =
    keeps (branch false a s) (set_ic-IsValid a _ ha (push-IsValid s.reg.ic s h))

skip_zero-Keeps : (t : Bool) (s : Cpu) → IsValid s.reg → Keeps (if t then skip_next s else (tt, s))
skip_zero-Keeps true s h = keeps (skip_next s) (skip_next-IsValid s h)
skip_zero-Keeps false s h = keeps (tt, s) h

modify_memory-Keeps : (hi : Bool) (a : ℕ) (s : Cpu) → IsValid s.reg → Keeps (modify_memory hi a s)
unfolding modify_memory rd_c wr_c
modify_memory-Keeps hi a s h = skip_zero-Keeps _ _ h

load_store-Keeps : (hi : Bool) (rrr a : ℕ) (s : Cpu) → IsValid s.reg → Keeps (load_store hi rrr a s)
unfolding load_store rd_c wr_c
load_store-Keeps true rrr a s h = keeps (load_store true rrr a s) (sw-IsValid rrr _ s.reg h)
load_store-Keeps false rrr a s h = keeps (load_store false rrr a s) h

memory_group-Keeps :
    (mmm : ℕ) (hi : Bool) (rrr a : ℕ) (s : Cpu)
    → Word a
    → IsValid s.reg
    → Keeps (memory_group mmm hi rrr a s)
unfolding memory_group
memory_group-Keeps mmm hi rrr a s ha h =
    if-Keeps _ _ _ (branch-Keeps hi a s ha h)
      (if-Keeps _ _ _ (modify_memory-Keeps hi a s h) (load_store-Keeps hi rrr a s h))

trap-Keeps : (s : Cpu) → IsValid s.reg → Keeps (trap_undefined_insn s)
trap-Keeps s h = keeps (trap_undefined_insn s) (trap_undefined_insn-IsValid s h)

module _ (js : JsNumber) where
  register_group-Keeps :
      (op rrr lo : ℕ) (s : Cpu) → IsValid s.reg → Keeps (register_group js op rrr lo s)
  unfolding register_group
  register_group-Keeps op rrr lo s h = if-Keeps _ _ _ (trap-Keeps s h) (
      if-Keeps _ _ _ (keeps (exec01 rrr lo s) (exec01-IsValid rrr lo s h)) (
        if-Keeps _ _ _ (keeps (exec02 rrr lo s) (exec02-IsValid rrr lo s h)) (
          if-Keeps _ _ _ (keeps (exec03 js rrr lo s) (exec03-IsValid js rrr lo s h)) (
            if-Keeps _ _ _ (exec04-Keeps rrr lo s h) (
              if-Keeps _ _ _ (keeps (exec05 rrr lo s) (exec05-IsValid rrr lo s h)) (
                if-Keeps _ _ _ (keeps (exec06 rrr lo s) (exec06-IsValid rrr lo s h)) (
                  if-Keeps _ _ _ (keeps (exec07 rrr lo s) (exec07-IsValid rrr lo s h)) (
                    if-Keeps _ _ _ (keeps (exec08 rrr lo s) (exec08-IsValid rrr lo s h)) (
                      if-Keeps _ _ _ (keeps (exec09 rrr lo s) (exec09-IsValid rrr lo s h)) (
                        if-Keeps _ _ _ (keeps (exec0a rrr lo s) (exec0a-IsValid rrr lo s h)) (
                          if-Keeps _ _ _ (exec0b-Keeps rrr lo s h) (
                            if-Keeps _ _ _ (exec0c-Keeps js rrr lo s h) (
                              if-Keeps _ _ _ (exec0d-Keeps js rrr lo s h) (
                                if-Keeps _ _ _ (exec0e-Keeps rrr lo s h) (
                                  if-Keeps _ _ _ (exec0f-Keeps rrr lo s h)
                                    (trap-Keeps s h))))))))))))))))

  decode-Keeps : (ir : ℕ) (s : Cpu) → IsValid s.reg → Keeps (decode js ir s)
  unfolding decode
  decode-Keeps ir s h =
      if-Keeps _ _ _ (memory_group-Keeps _ _ _ _ _ (ea-Word _ _ s) (ea-IsValid _ _ s h))
        (register_group-Keeps _ _ _ s h)

  pending-IsValid : (s : Cpu) → IsValid s.reg → IsValid (pending s).1.reg
  unfolding pending
  pending-IsValid s h = ground (arith, h, handle_irq-IsValid s h)

  -- `_executeOne` keeps every register within its width: R0 to R4, SP, STR, IC, the OSRs, IISR, SBRB
  -- and ICB within 16 bits, CSBR, SSBR, TSR0 and TSR1 within 4, and NPP within 8, whatever the
  -- memory, the ports and the numbers of JavaScript hold.
  pub execute_one-IsValid : (s : Cpu) → IsValid s.reg → IsValid (execute_one js s).1.reg
  unfolding execute_one fetch_insn
  execute_one-IsValid s h = (decode-Keeps _ _ (fetch-IsValid _ (pending-IsValid s h))).valid
