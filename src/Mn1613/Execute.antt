-- ===== src/Mn1613/Execute.antt =====
-- One instruction of the MN1613 core, `_executeOne`:
-- retrocpu_emu_ts/src/cpuboard/mn1613/mn1613.ts. The trace callbacks, which tests alone register,
-- are left out.
use retro_cpu_emu.Shared.{ℕ, ◌+◌, ◌-◌, ◌/◌, ◌%◌, ◌^◌, Bool, leb, ◌==◌, if◌then◌else◌}
use retro_cpu_emu.Shared.State.{State, ◌>>=◌, ◌>>◌, return}
use retro_cpu_emu.Mn1613.Register.{gr}
use retro_cpu_emu.Mn1613.Board.{on_instruction_fetch}
use retro_cpu_emu.Mn1613.Core.{
  Cpu, on_board, rd_c, wr_c, set_gr, set_ic, fetch, ea, skip_next, push, handle_irq,
  trap_undefined_insn,
}
use retro_cpu_emu.Mn1613.Float.{JsNumber}
use retro_cpu_emu.Mn1613.Move.{exec01, exec02, exec03}
use retro_cpu_emu.Mn1613.BitOps.{exec05, exec06, exec07}
use retro_cpu_emu.Mn1613.Arith.{exec08, exec09, exec0a, exec0b}
use retro_cpu_emu.Mn1613.Logic.{exec0c, exec0d, exec0e, exec0f}
use retro_cpu_emu.Mn1613.Extended.{exec04}

unfoldable pub branch : Bool → ℕ → State Cpu (Unit {0})
branch is_hi addr s = if is_hi then set_ic addr s else (push s.reg.ic >> set_ic addr) s

-- IMS and DMS.
unfoldable pub modify_memory : Bool → ℕ → State Cpu (Unit {0})
modify_memory is_hi addr = do
  cur ← rd_c addr
  let res = if is_hi then (cur + 1) % 2 ^ 16 else (cur + 2 ^ 16 - 1) % 2 ^ 16
  wr_c addr res
  λ s. if res == 0 then skip_next s else (tt, s)

unfoldable pub load_store : Bool → ℕ → ℕ → State Cpu (Unit {0})
load_store is_hi rrr addr s =
    if is_hi then (rd_c addr >>= set_gr rrr) s else wr_c addr (gr rrr s.reg) s

-- The groups 0x10 to 0x1F, after the address.
unfoldable pub memory_group : ℕ → Bool → ℕ → ℕ → State Cpu (Unit {0})
memory_group mmm is_hi rrr addr s =
    if rrr == 7
    then branch is_hi addr s
    else if mmm == 7
    then modify_memory is_hi addr s
    else load_store is_hi rrr addr s

unfoldable pub pending : State Cpu (Unit {0})
pending s = if s.board.pending_irq == 0 then (tt, s) else handle_irq s

unfoldable pub fetch_insn : State Cpu ℕ
fetch_insn = do ir ← fetch; on_board (λ b. (tt, on_instruction_fetch b)); return ir

module _ (js : JsNumber) where
  -- The groups below 0x10.
  unfoldable pub register_group : ℕ → ℕ → ℕ → State Cpu (Unit {0})
  register_group op rrr lo s =
      if op == 0x00
      then trap_undefined_insn s
      else if op == 0x01
      then exec01 rrr lo s
      else if op == 0x02
      then exec02 rrr lo s
      else if op == 0x03
      then exec03 js rrr lo s
      else if op == 0x04
      then exec04 rrr lo s
      else if op == 0x05
      then exec05 rrr lo s
      else if op == 0x06
      then exec06 rrr lo s
      else if op == 0x07
      then exec07 rrr lo s
      else if op == 0x08
      then exec08 rrr lo s
      else if op == 0x09
      then exec09 rrr lo s
      else if op == 0x0a
      then exec0a rrr lo s
      else if op == 0x0b
      then exec0b rrr lo s
      else if op == 0x0c
      then exec0c js rrr lo s
      else if op == 0x0d
      then exec0d js rrr lo s
      else if op == 0x0e
      then exec0e rrr lo s
      else if op == 0x0f
      then exec0f rrr lo s
      else trap_undefined_insn s

  -- After the fetch and the step unit.
  unfoldable pub decode : ℕ → State Cpu (Unit {0})
  decode ir s =
      let op = ir / 2 ^ 11 % 2 ^ 5 in
      let rrr = ir / 2 ^ 8 % 8 in
      let lo = ir % 2 ^ 8 in
      if leb 0x10 op
      then (ea (op % 8) lo >>= memory_group (op % 8) (op / 8 % 2 == 1) rrr) s
      else register_group op rrr lo s

  unfoldable pub execute_one : State Cpu (Unit {0})
  execute_one = pending >> (fetch_insn >>= decode)
