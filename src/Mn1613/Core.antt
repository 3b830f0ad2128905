-- ===== src/Mn1613/Core.antt =====
-- The state of the MN1613 core and the steps its instructions share: accesses by segment, fetch,
-- addresses, flags, skips, the stack and interrupts. retrocpu_emu_ts/src/cpuboard/mn1613/mn1613.ts.
-- `threw` tells that an exception left the instruction (a port read of a comparator slot that is
-- not there); the source then does nothing more of it.
use retro_cpu_emu.Shared.{
  ℕ, ◌+◌, ◌*◌, ◌-◌, ◌/◌, ◌%◌, ◌^◌, bit_and, bit_or, Bool, true, false, not, ◌&&◌, ◌||◌, ltb, leb,
  ◌==◌, if◌then◌else◌,
}
use retro_cpu_emu.Shared.Bits.{has}
use retro_cpu_emu.Shared.State.{State, ◌>>=◌, ◌>>◌, return, modify}
use retro_cpu_emu.PinSignal.{InputPin}
use retro_cpu_emu.Machine.{ExecStatus, store}
use retro_cpu_emu.Mn1613.Register.{CpuRegister, sw}
use retro_cpu_emu.Mn1613.Board.{Board, phys, rd_phys, wr_phys}

pub record Cpu : Type 0 where
  pub reg : CpuRegister
  pub board : Board
  pub exec_status : ExecStatus
  pub step_mode : Bool
  pub breakpoints : ℕ → Bool
  pub pin_rst : InputPin
  pub pin_hlt : InputPin
  pub pin_irq0 : InputPin
  pub pin_irq1 : InputPin
  pub pin_irq2 : InputPin
  pub pin_bsav : InputPin
  pub pin_strt : InputPin
  pub threw : Bool

abbrev pub on_board : {A : Type 0} → State Board A → State Cpu A
on_board m s = let (a, b) = m s.board in (a, record s { board = b })

abbrev pub modify_reg : (CpuRegister → CpuRegister) → State Cpu (Unit {0})
modify_reg f s = (tt, record s { reg = f s.reg })

abbrev pub get_reg : {A : Type 0} → (CpuRegister → A) → State Cpu A
get_reg f s = (f s.reg, s)

abbrev pub str_e : ℕ
str_e = 0x8000

abbrev pub str_ovf : ℕ
str_ovf = 0x2000

abbrev pub str_m0 : ℕ
str_m0 = 0x0400

abbrev pub str_m1 : ℕ
str_m1 = 0x0200

abbrev pub str_m2 : ℕ
str_m2 = 0x0100

abbrev pub iisr_undef : ℕ
iisr_undef = 0x0001

unfoldable pub rd_c : ℕ → State Cpu ℕ
rd_c la s = on_board (rd_phys (phys la s.reg.csbr)) s

unfoldable pub wr_c : ℕ → ℕ → State Cpu (Unit {0})
wr_c la v s = on_board (wr_phys (phys la s.reg.csbr) v) s

unfoldable pub rd_s : ℕ → State Cpu ℕ
rd_s la s = on_board (rd_phys (phys la s.reg.ssbr)) s

unfoldable pub wr_s : ℕ → ℕ → State Cpu (Unit {0})
wr_s la v s = on_board (wr_phys (phys la s.reg.ssbr) v) s

unfoldable pub rd_b : ℕ → ℕ → State Cpu ℕ
rd_b la segment = on_board (rd_phys (phys la segment))

unfoldable pub wr_b : ℕ → ℕ → ℕ → State Cpu (Unit {0})
wr_b la v segment = on_board (wr_phys (phys la segment) v)

abbrev pub set_ic : ℕ → State Cpu (Unit {0})
set_ic v = modify_reg λ reg. record reg { ic = v }

abbrev pub set_sp : ℕ → State Cpu (Unit {0})
set_sp v = modify_reg λ reg. record reg { sp = v }

abbrev pub set_str : ℕ → State Cpu (Unit {0})
set_str v = modify_reg λ reg. record reg { str = v }

abbrev pub set_csbr : ℕ → State Cpu (Unit {0})
set_csbr v = modify_reg λ reg. record reg { csbr = v }

abbrev pub set_r : ℕ → ℕ → State Cpu (Unit {0})
set_r i v = modify_reg λ reg. record reg { r = store reg.r i v }

abbrev pub set_gr : ℕ → ℕ → State Cpu (Unit {0})
set_gr rrr v = modify_reg (sw rrr v)

-- `IC = (IC + 1) & 0xffff`
abbrev pub next_ic : State Cpu (Unit {0})
next_ic = modify_reg λ reg. record reg { ic = (reg.ic + 1) % 2 ^ 16 }

unfoldable pub fetch : State Cpu ℕ
fetch = do ic ← get_reg (λ reg. reg.ic); w ← rd_c ic; next_ic; return w

-- `(insnIc + sd) & 0xffff`, with the displacement's sign and the address of the instruction.
unfoldable pub relative : ℕ → ℕ → ℕ
relative ic d =
    let insn_ic = (ic + 2 ^ 16 - 1) % 2 ^ 16 in
    if ltb d 0x80 then (insn_ic + d) % 2 ^ 16 else (insn_ic + d + 2 ^ 16 - 0x100) % 2 ^ 16

-- `(R[i] + _rdC(d)) & 0xffff`: the register is read first.
abbrev indexed_indirect : ℕ → ℕ → State Cpu ℕ
indexed_indirect i d = do
  x ← get_reg (λ reg. reg.r i)
  w ← rd_c (d % 2 ^ 8)
  return ((x + w) % 2 ^ 16)

unfoldable pub ea : ℕ → ℕ → State Cpu ℕ
ea mmm d s =
    let m = mmm % 8 in
    if m == 0
    then (d % 2 ^ 8, s)
    else if m == 1
    then (relative s.reg.ic d, s)
    else if m == 2
    then rd_c (d % 2 ^ 8) s
    else if m == 3
    then rd_c (relative s.reg.ic d) s
    else if m == 4
    then ((s.reg.r 3 + d % 2 ^ 8) % 2 ^ 16, s)
    else if m == 5
    then ((s.reg.r 4 + d % 2 ^ 8) % 2 ^ 16, s)
    else if m == 6
    then indexed_indirect 3 d s
    else indexed_indirect 4 d s

-- The sixteen conditions, of N and Z of the result and E and V of STR.
unfoldable pub skip_code : ℕ → Bool → Bool → Bool → Bool → Bool
skip_code k n z e v =
    if k == 0
    then false
    else if k == 1
    then true
    else if k == 2
    then n
    else if k == 3
    then not n
    else if k == 4
    then z
    else if k == 5
    then not z
    else if k == 6
    then n || z
    else if k == 7
    then not n && not z
    else if k == 8
    then not e
    else if k == 9
    then e
    else if k == 10
    then not v
    else if k == 11
    then v
    else if k == 12
    then e || z
    else if k == 13
    then not e && not z
    else if k == 14
    then not e
    else e && not z

unfoldable pub skip : ℕ → ℕ → CpuRegister → Bool
skip kkkk result reg =
    skip_code (kkkk % 16) (has result 0x8000) (result % 2 ^ 16 == 0) (has reg.str str_e)
      (has reg.str str_ovf)

unfoldable pub is_2word : ℕ → Bool
is_2word ir =
    let op = ir / 2 ^ 11 % 2 ^ 5 in
    let rrr = ir / 2 ^ 8 % 2 ^ 3 in
    let lo = ir % 2 ^ 8 in
    if op == 0x01
    then rrr == 7 && lo % 8 == 7
    else if op == 0x02
    then rrr == 7 && not (lo == 0x0f) && not (lo == 0x07)
    else if op == 0x04
    then if rrr == 7 && has lo 0x08 && not (has lo 0x40)
      then true
      else if rrr == 7 && has lo 0x08 && has lo 0x40
      then true
      else rrr == 6 && (lo == 0x07 || lo == 0x17)
    else if op == 0x08 || op == 0x09
    then rrr == 7 && has lo 0x04
    else if leb 0x0a op && leb op 0x0d
    then not (rrr == 7) && (lo % 16 == 0xf || lo % 16 == 0x7)
    else if op == 0x0f
    then lo % 16 == 0x7
    else false

unfoldable pub skip_next : State Cpu (Unit {0})
skip_next = do
  ic ← get_reg (λ reg. reg.ic)
  ir ← rd_c ic
  next_ic
  λ s. if is_2word ir then next_ic s else (tt, s)

-- `if (_skip(kkkk, result)) _skipNext();`
unfoldable pub skip_if : ℕ → ℕ → State Cpu (Unit {0})
skip_if kkkk result s = if skip kkkk result s.reg then skip_next s else (tt, s)

-- `x & ~mask & 0xffff`
abbrev pub and_not : ℕ → ℕ → ℕ
and_not x mask = bit_and x (2 ^ 16 - 1 - mask % 2 ^ 16)

abbrev set_flag : ℕ → Bool → CpuRegister → CpuRegister
set_flag mask v reg = record reg { str = if v then bit_or reg.str mask else and_not reg.str mask }

unfoldable pub set_e : Bool → CpuRegister → CpuRegister
set_e v reg = set_flag str_e v reg

unfoldable pub set_ovf : Bool → CpuRegister → CpuRegister
set_ovf v reg = set_flag str_ovf v reg

-- Bit 15.
abbrev sign : ℕ → ℕ
sign x = x / 2 ^ 15 % 2

-- `(~(a ^ b) & (a ^ res) & 0x8000) !== 0`
unfoldable pub add_overflow : ℕ → ℕ → ℕ → Bool
add_overflow a b res = sign a == sign b && not (sign a == sign res)

-- `((a ^ b) & (a ^ res) & 0x8000) !== 0`
unfoldable pub sub_overflow : ℕ → ℕ → ℕ → Bool
sub_overflow a b res = not (sign a == sign b) && not (sign a == sign res)

unfoldable pub add : ℕ → ℕ → State Cpu ℕ
add a b = do
  let res = a + b
  modify_reg (set_e (ltb 0xffff res))
  modify_reg (set_ovf (add_overflow a b res))
  return (res % 2 ^ 16)

-- `res` is the difference to 16 bits, which is what the source reads of it.
unfoldable pub sub : ℕ → ℕ → State Cpu ℕ
sub a b = do
  let res = (a + 2 ^ 16 - b) % 2 ^ 16
  modify_reg (set_e (ltb a b))
  modify_reg (set_ovf (sub_overflow a b res))
  return res

unfoldable pub apply_ee : ℕ → CpuRegister → CpuRegister
apply_ee ee reg =
    let k = ee % 4 in
    if k == 1
    then set_e false reg
    else if k == 2
    then set_e true reg
    else if k == 3
    then set_e (not (has reg.str str_e)) reg
    else reg

unfoldable pub push : ℕ → State Cpu (Unit {0})
push v = do sp ← get_reg (λ reg. reg.sp); wr_s sp v; set_sp ((sp + 2 ^ 16 - 1) % 2 ^ 16)

unfoldable pub pop : State Cpu ℕ
pop = do sp ← get_reg (λ reg. reg.sp); set_sp ((sp + 1) % 2 ^ 16); rd_s ((sp + 1) % 2 ^ 16)

abbrev set_osr : ℕ → ℕ → CpuRegister → CpuRegister
set_osr lv v reg = record reg { osr = store reg.osr lv v }

-- `_pendingIRQ &= ~(1 << lv)`
abbrev pub clear_pending : ℕ → Board → Board
clear_pending lv b = record b { pending_irq = and_not b.pending_irq (2 ^ lv) }

unfoldable pub accept_irq : ℕ → State Cpu (Unit {0})
accept_irq lv = do
  modify (λ s. record s { board = clear_pending lv s.board })
  csbr ← get_reg (λ reg. reg.csbr)
  modify_reg (set_osr lv (csbr % 2 ^ 4))
  set_csbr 0
  str ← get_reg (λ reg. reg.str)
  on_board (wr_phys (phys (lv * 2) 0) str)
  ic ← get_reg (λ reg. reg.ic)
  on_board (wr_phys (phys (lv * 2 + 1) 0) ic)
  npp ← get_reg (λ reg. reg.npp)
  let npsw = npp % 2 ^ 8 * 2 ^ 8
  new_str ← on_board (rd_phys (phys (npsw + lv * 2) 0))
  set_str new_str
  new_ic ← on_board (rd_phys (phys (npsw + lv * 2 + 1) 0))
  set_ic new_ic

-- A request of the level is pending and its mask is set in STR.
unfoldable pub acceptable : ℕ → ℕ → Cpu → Bool
acceptable lv mask s = has s.board.pending_irq (2 ^ lv) && has s.reg.str mask

unfoldable pub has_acceptable_irq : Cpu → Bool
has_acceptable_irq s =
    if acceptable 0 str_m0 s
    then true
    else if acceptable 1 str_m1 s
    then true
    else acceptable 2 str_m2 s

unfoldable pub handle_irq : State Cpu (Unit {0})
handle_irq s =
    if acceptable 0 str_m0 s
    then accept_irq 0 s
    else if acceptable 1 str_m1 s
    then accept_irq 1 s
    else if acceptable 2 str_m2 s
    then accept_irq 2 s
    else (tt, s)

unfoldable pub trap_undefined_insn : State Cpu (Unit {0})
trap_undefined_insn = do
  modify_reg (λ reg. record reg { iisr = bit_or reg.iisr 0x0001 })
  modify_reg (λ reg. record reg { iisr = bit_or reg.iisr iisr_undef })
  accept_irq 0
