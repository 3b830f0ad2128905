-- ===== src/Mn1613/Move.antt =====
-- The instruction groups 0x01 to 0x03 of `_executeOne`: immediate bytes and the registers of the
-- MN1613 alone, IO, the whole set on the stack, bits of memory, negation and the conversions.
-- retrocpu_emu_ts/src/cpuboard/mn1613/mn1613.ts
use retro_cpu_emu.Shared.{
  ℕ, zero, suc, ◌-◌, ◌/◌, ◌%◌, ◌^◌, bit_and, bit_or, Bool, true, false, not, ◌&&◌, ◌||◌, Option,
  none, some, ltb, ◌==◌, if◌then◌else◌,
}
use retro_cpu_emu.Shared.Bits.{has}
use retro_cpu_emu.Shared.Int.{ℤ, pos, negsuc}
use retro_cpu_emu.Shared.State.{State, ◌>>=◌, ◌>>◌, return, modify}
use retro_cpu_emu.Mn1613.Register.{
  CpuRegister, gr, get_seg_reg, set_seg_reg, get_spec_reg, set_spec_reg,
}
use retro_cpu_emu.Mn1613.Board.{do_io_read, do_io_write}
use retro_cpu_emu.Mn1613.Core.{
  Cpu, on_board, modify_reg, get_reg, rd_c, wr_c, set_r, set_gr, fetch, skip_if, set_e, set_ovf,
  str_e, sub, push, pop, and_not,
}
use retro_cpu_emu.Mn1613.Float.{JsNumber, fp_decode, fp_encode, skip_if_dr0}

-- `if (bBits !== 0) _setSegReg(bBits, … & 0xf)`
abbrev pub load_seg : ℕ → ℕ → State Cpu (Unit {0})
load_seg bits v = modify_reg λ reg. if bits == 0 then reg else set_seg_reg bits (v % 2 ^ 4) reg

-- LB reads memory only where it writes a register.
unfoldable pub lb : ℕ → ℕ → State Cpu (Unit {0})
lb bits ad16 s = if bits == 0 then (tt, s) else (rd_c ad16 >>= load_seg bits) s

unfoldable pub load_store_special : ℕ → Bool → Bool → State Cpu (Unit {0})
load_store_special bits bit7 bit3 = do
  ad16 ← fetch
  λ s.
      if not bit7 && not bit3
      then lb bits ad16 s
      else if not bit7
      then (rd_c ad16 >>= λ v. modify_reg (set_spec_reg bits v)) s
      else if not bit3
      then wr_c ad16 (get_seg_reg bits s.reg) s
      else wr_c ad16 (get_spec_reg bits s.reg) s

unfoldable pub copy_special : ℕ → ℕ → Bool → Bool → State Cpu (Unit {0})
copy_special bits b_lo bit7 bit3 s =
    if bit7 && not bit3
    then set_gr b_lo (get_seg_reg bits s.reg) s
    else if bit7
    then set_gr b_lo (get_spec_reg bits s.reg) s
    else if not bit3
    then load_seg bits (gr b_lo s.reg) s
    else modify_reg (set_spec_reg bits (gr b_lo s.reg)) s

-- MVI / LB / LS / STB / STS / CPYB / CPYS / SETB / SETS
unfoldable pub exec01 : ℕ → ℕ → State Cpu (Unit {0})
exec01 rrr lo s =
    if not (rrr == 7)
    then set_gr rrr (bit_or (bit_and (gr rrr s.reg) 0xff00) lo) s
    else let bits = lo / 2 ^ 4 % 8 in
      let bit7 = has lo 0x80 in
      let bit3 = has lo 0x08 in
      if lo % 8 == 7
      then load_store_special bits bit7 bit3 s
      else copy_special bits (lo % 8) bit7 bit3 s

-- `for (let i = 0; i <= 4; i++) _push(R[i]);`, with `n` registers left.
unfoldable pub pshm : ℕ → State Cpu (Unit {0})
pshm zero = return tt
pshm (suc n) = do v ← get_reg (λ reg. reg.r (4 - n)); push v; pshm n

-- `for (let i = 4; i >= 0; i--) R[i] = _pop();`
unfoldable pub popm : ℕ → State Cpu (Unit {0})
popm zero = return tt
popm (suc n) = do v ← pop; set_r n v; popm n

unfoldable pub tset_trst : ℕ → State Cpu (Unit {0})
tset_trst lo = do
  ad16 ← fetch
  mem ← rd_c ad16
  rs ← get_reg (gr (lo % 8))
  wr_c ad16 ((if has lo 8 then bit_or mem rs else and_not mem rs) % 2 ^ 16)
  skip_if (lo / 2 ^ 4 % 16) (bit_and mem rs)

-- WT / PSHM / POPM / TSET / TRST
unfoldable pub exec02 : ℕ → ℕ → State Cpu (Unit {0})
exec02 rrr lo s =
    if not (rrr == 7)
    then on_board (do_io_write lo (gr rrr s.reg)) s
    else if lo == 0x0f
    then pshm 5 s
    else if lo == 0x07
    then popm 5 s
    else tset_trst lo s

-- `_sw(rrr, _doIoRead(port) & 0xffff)`: an exception leaves the register.
abbrev pub read_into : ℕ → Option ℕ → State Cpu (Unit {0})
read_into rrr none = modify (λ s. record s { threw = true })
read_into rrr (some v) = set_gr rrr (v % 2 ^ 16)

unfoldable pub rd_port : ℕ → ℕ → State Cpu (Unit {0})
rd_port rrr port = on_board (do_io_read port) >>= read_into rrr

-- `c === 0 ? (STR & STR_E ? 1 : 0) : 0`
abbrev pub carry_in : Bool → CpuRegister → ℕ
carry_in c reg = if c then 0 else if has reg.str str_e then 1 else 0

unfoldable pub neg : ℕ → ℕ → Bool → State Cpu (Unit {0})
neg kkkk ddd bit3 = do
  carry ← get_reg (carry_in bit3)
  v ← get_reg (gr ddd)
  r1 ← sub 0 v
  r2 ← sub r1 carry
  set_gr ddd r2
  skip_if kkkk r2

-- The sixteen bits of `R[0]` with their sign.
unfoldable pub signed_word : ℕ → ℤ
signed_word v = if ltb v 0x8000 then pos v else negsuc (0x10000 - v - 1)

module _ (js : JsNumber) where
  abbrev out_of_range : js.Num → Bool
  out_of_range v = js.lt (js.of_int (pos 32767)) v || js.lt v (js.of_int (negsuc 32767))

  unfoldable pub fix : ℕ → State Cpu (Unit {0})
  fix kkkk = do
    dr0 ← fp_decode js
    let v = js.trunc dr0
    let ov = out_of_range v
    modify_reg (set_e false)
    modify_reg (set_ovf ov)
    let r0 = if ov then 0 else js.to_uint32 v % 2 ^ 16
    set_r 0 r0
    skip_if kkkk r0

  unfoldable pub flt : ℕ → State Cpu (Unit {0})
  flt kkkk = do
    r0 ← get_reg (λ reg. reg.r 0)
    fp_encode js (js.of_int (signed_word r0))
    modify_reg (set_e false)
    skip_if_dr0 kkkk

  -- RD / NEG / FIX / FLT
  unfoldable pub exec03 : ℕ → ℕ → State Cpu (Unit {0})
  exec03 rrr lo s =
      let kkkk = lo / 2 ^ 4 % 16 in
      if not (rrr == 7)
      then rd_port rrr lo s
      else if has lo 4
      then (if has lo 8 then flt kkkk s else fix kkkk s)
      else neg kkkk (lo % 8) (has lo 8) s
