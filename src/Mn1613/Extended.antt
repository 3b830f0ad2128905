-- ===== src/Mn1613/Extended.antt =====
-- The instruction group 0x04, `_exec04`, and `_execSegBranch`.
-- retrocpu_emu_ts/src/cpuboard/mn1613/mn1613.ts. The early returns are the branches of the
-- conditionals, in the source's order.
use retro_cpu_emu.Shared.{
  ℕ, ◌+◌, ◌*◌, ◌-◌, ◌/◌, ◌%◌, ◌^◌, bit_or, Bool, true, false, not, ◌&&◌, leb, ◌==◌, if◌then◌else◌,
}
use retro_cpu_emu.Shared.Bits.{has}
use retro_cpu_emu.Shared.State.{State, ◌>>=◌, ◌>>◌, modify}
use retro_cpu_emu.Machine.{ExecStatus}
use retro_cpu_emu.Mn1613.Register.{CpuRegister, gr, ri, ri_set, seg}
use retro_cpu_emu.Mn1613.Board.{phys, rd_phys, do_io_write}
use retro_cpu_emu.Mn1613.Core.{
  Cpu, on_board, modify_reg, get_reg, rd_b, wr_b, set_gr, set_ic, set_str, set_csbr, fetch, skip_if,
  set_e, str_e, apply_ee, push, pop, trap_undefined_insn,
}
use retro_cpu_emu.Mn1613.Move.{rd_port}

abbrev set_status : ExecStatus → State Cpu (Unit {0})
set_status e = modify (λ s. record s { exec_status = e })

unfoldable pub halt_insn : State Cpu (Unit {0})
halt_insn = set_status ExecStatus.halted

unfoldable pub ret : State Cpu (Unit {0})
ret = do ic ← pop; set_ic ic

unfoldable pub lpsw : ℕ → State Cpu (Unit {0})
lpsw ll = do
  str ← on_board (rd_phys (phys (ll * 2) 0))
  set_str str
  ic ← on_board (rd_phys (phys (ll * 2 + 1) 0))
  set_ic ic
  modify_reg (λ reg. record reg { csbr = reg.osr ll % 2 ^ 4 })

unfoldable pub bd : State Cpu (Unit {0})
bd = do dest ← fetch; set_ic dest

unfoldable pub bald : State Cpu (Unit {0})
bald = do dest ← fetch; ic ← get_reg (λ reg. reg.ic); push ic; set_ic dest

-- The link of BALR and BALL: IC, and CSBR above it.
unfoldable pub push_link : State Cpu (Unit {0})
push_link = do ic ← get_reg (λ reg. reg.ic); push ic; csbr ← get_reg (λ reg. reg.csbr); push csbr

-- The new CSBR and IC, both read by the old CSBR.
unfoldable pub load_target : ℕ → State Cpu (Unit {0})
load_target base = do
  csbr ← get_reg (λ reg. reg.csbr)
  nc ← rd_b base csbr
  ni ← rd_b ((base + 1) % 2 ^ 16) csbr
  set_csbr (nc % 2 ^ 4)
  set_ic ni

unfoldable pub exec_seg_branch : ℕ → Bool → State Cpu (Unit {0})
exec_seg_branch ii link s =
    let base = ri ii s.reg in if link then (push_link >> load_target base) s else load_target base s

-- LD / BL / BALL / STD, after the address is fetched.
unfoldable pub direct : ℕ → ℕ → State Cpu (Unit {0})
direct lo ad16 s =
    let bb = lo / 2 ^ 4 % 4 in
    let dest = lo % 8 in
    if has lo 0x40
    then wr_b ad16 (gr dest s.reg) (seg bb s.reg) s
    else if dest == 7
    then (if bb == 1 then (push_link >> load_target ad16) s else load_target ad16 s)
    else (rd_b ad16 (seg bb s.reg) >>= set_gr dest) s

-- The address of LR and STR: mode 2 decrements the register before, mode 3 increments it after.
unfoldable pub auto_address : ℕ → ℕ → State Cpu ℕ
auto_address b76 b10 s =
    if b76 == 1
    then (ri b10 s.reg, s)
    else if b76 == 2
    then (let reg = ri_set b10 ((ri b10 s.reg + 2 ^ 16 - 1) % 2 ^ 16) s.reg in
        (ri b10 reg, record s { reg = reg }))
    else (ri b10 s.reg, record s { reg = ri_set b10 ((ri b10 s.reg + 1) % 2 ^ 16) s.reg })

unfoldable pub lr : ℕ → ℕ → State Cpu (Unit {0})
lr rrr lo = do
  segment ← get_reg (seg (lo / 2 ^ 4))
  a ← auto_address (lo / 2 ^ 6 % 4) (lo % 4)
  v ← rd_b a segment
  set_gr rrr v

unfoldable pub str : ℕ → ℕ → State Cpu (Unit {0})
str rrr lo = do
  segment ← get_reg (seg (lo / 2 ^ 4))
  a ← auto_address (lo / 2 ^ 6 % 4) (lo % 4)
  v ← get_reg (gr rrr)
  wr_b a v segment

-- `STR & STR_E ? one : 0`
abbrev e_in : ℕ → CpuRegister → ℕ
e_in one reg = if has reg.str str_e then one else 0

unfoldable pub sr : ℕ → ℕ → State Cpu (Unit {0})
sr rrr lo = do
  modify_reg (apply_ee (lo % 4))
  a ← get_reg (gr rrr)
  e ← get_reg (e_in 0x8000)
  modify_reg (set_e (has a 1))
  let res = bit_or (a / 2) e % 2 ^ 16
  set_gr rrr res
  skip_if (lo / 2 ^ 4 % 16) res

unfoldable pub sl : ℕ → ℕ → State Cpu (Unit {0})
sl rrr lo = do
  modify_reg (apply_ee (lo % 4))
  a ← get_reg (gr rrr)
  e ← get_reg (e_in 1)
  modify_reg (set_e (has a 0x8000))
  let res = bit_or (a * 2) e % 2 ^ 16
  set_gr rrr res
  skip_if (lo / 2 ^ 4 % 16) res

unfoldable pub pop_into : ℕ → State Cpu (Unit {0})
pop_into rrr = do v ← pop; set_gr rrr v

-- From the test for PUSH to the end.
unfoldable pub exec04_common : ℕ → ℕ → State Cpu (Unit {0})
exec04_common rrr lo s =
    let b32 = lo / 4 % 4 in
    let b76 = lo / 2 ^ 6 % 4 in
    if lo == 0x01
    then push (gr rrr s.reg) s
    else if lo == 0x02
    then pop_into rrr s
    else if b32 == 0 && not (b76 == 0)
    then lr rrr lo s
    else if b32 == 1 && not (b76 == 0)
    then str rrr lo s
    else if b32 == 2
    then sr rrr lo s
    else if b32 == 3
    then sl rrr lo s
    else if lo / 2 ^ 4 == 1 && b32 == 1 && not (rrr == 7)
    then rd_port rrr (ri (lo % 4) s.reg) s
    else if lo / 2 ^ 4 == 1 && b32 == 0
    then on_board (do_io_write (ri (lo % 4) s.reg) (gr rrr s.reg)) s
    else trap_undefined_insn s

-- `RRR` = 0: H, RET and LPSW.
unfoldable pub exec04_zero : ℕ → State Cpu (Unit {0})
exec04_zero lo s =
    if lo == 0x00
    then halt_insn s
    else if lo == 0x03
    then ret s
    else if leb 0x04 lo && leb lo 0x07
    then lpsw (lo % 4) s
    else exec04_common 0 lo s

-- `RRR` = 6: BD and BALD.
unfoldable pub exec04_six : ℕ → State Cpu (Unit {0})
exec04_six lo s = if lo == 0x07 then bd s else if lo == 0x17 then bald s else exec04_common 6 lo s

-- `RRR` = 7: BR, BALR, LD, STD, BL and BALL.
unfoldable pub exec04_seven : ℕ → State Cpu (Unit {0})
exec04_seven lo s =
    if lo / 4 == 1
    then exec_seg_branch (lo % 4) false s
    else if lo / 4 == 5
    then exec_seg_branch (lo % 4) true s
    else if has lo 0x08
    then (fetch >>= direct lo) s
    else exec04_common 7 lo s

unfoldable pub exec04 : ℕ → ℕ → State Cpu (Unit {0})
exec04 rrr lo s =
    if rrr == 0
    then exec04_zero lo s
    else if rrr == 6
    then exec04_six lo s
    else if rrr == 7
    then exec04_seven lo s
    else exec04_common rrr lo s
