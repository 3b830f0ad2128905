-- ===== src/Mn1613/Logic.antt =====
-- The instruction groups 0x0C to 0x0F of `_executeOne`: logic, swaps, moves, multiplication,
-- division and the floating point arithmetic. retrocpu_emu_ts/src/cpuboard/mn1613/mn1613.ts
use retro_cpu_emu.Shared.{
  ℕ, zero, suc, ◌+◌, ◌*◌, ◌/◌, ◌%◌, ◌^◌, bit_and, bit_or, bit_xor, true, false, not, ◌&&◌, ltb,
  ◌==◌, if◌then◌else◌,
}
use retro_cpu_emu.Shared.Bits.{has}
use retro_cpu_emu.Shared.Int.{pos}
use retro_cpu_emu.Shared.State.{State, ◌>>=◌, ◌>>◌, return}
use retro_cpu_emu.Mn1613.Register.{gr, ri}
use retro_cpu_emu.Mn1613.Core.{
  Cpu, modify_reg, get_reg, set_r, set_gr, set_ic, fetch, skip_if, set_e, set_ovf,
}
use retro_cpu_emu.Mn1613.Float.{
  JsNumber, skip_if_dr0, fp_decode, fp_decode_at, fp_encode, fp_finish,
}
use retro_cpu_emu.Mn1613.Arith.{rd_ri, with_memory, with_operand, set_r0_and_skip}

abbrev correction : ℕ → ℕ → ℕ
correction na nb = if ltb 9 (na + nb) then 6 else 0

-- `for (let shift = 0; shift < 16; shift += 4)`, from `shift`, with `n` rounds left.
unfoldable pub lad_loop : ℕ → ℕ → ℕ → ℕ → ℕ → ℕ
lad_loop zero shift res a b = res
lad_loop (suc n) shift res a b =
    let c = correction (a / 2 ^ shift % 16) (b / 2 ^ shift % 16) in
    lad_loop n (shift + 4) (bit_or res (c * 2 ^ shift)) a b

unfoldable pub lad_result : ℕ → ℕ → ℕ
lad_result a b = lad_loop 4 0 0 a b % 2 ^ 16

unfoldable pub dswp : ℕ → ℕ
dswp v =
    let lo4 = v % 16 in
    let nib1 = v / 2 ^ 4 % 16 in
    let nib2 = v / 2 ^ 8 % 16 in
    let hi4 = v / 2 ^ 12 % 16 in
    bit_or (bit_or (bit_or (hi4 * 2 ^ 12) (nib1 * 2 ^ 8)) (nib2 * 2 ^ 4)) lo4

-- `((v & 0xff) << 8) | (v >>> 8)`
unfoldable pub bswp : ℕ → ℕ
bswp v = bit_or (v % 2 ^ 8 * 2 ^ 8) (v / 2 ^ 8)

abbrev pub pure16 : (ℕ → ℕ → ℕ) → ℕ → ℕ → State Cpu ℕ
pure16 f a b = return (f a b % 2 ^ 16)

unfoldable pub fd_by_zero : ℕ → State Cpu (Unit {0})
fd_by_zero lo = do
  modify_reg (set_ovf true)
  modify_reg (set_e false)
  skip_if_dr0 (lo / 2 ^ 4 % 16)

module _ (js : JsNumber) where
  -- FM, FA and FS: the operands are read first.
  unfoldable pub fp_binary : (js.Num → js.Num → js.Num) → ℕ → State Cpu (Unit {0})
  fp_binary op lo = do
    a ← fp_decode js
    base ← get_reg (ri (lo % 4))
    b ← fp_decode_at js base
    fp_encode js (op a b)
    fp_finish (lo / 2 ^ 4 % 16)

  unfoldable pub fd_quotient : js.Num → ℕ → State Cpu (Unit {0})
  fd_quotient me lo = do a ← fp_decode js; fp_encode js (js.div a me); fp_finish (lo / 2 ^ 4 % 16)

  unfoldable pub fd : ℕ → State Cpu (Unit {0})
  fd lo = do
    base ← get_reg (ri (lo % 4))
    me ← fp_decode_at js base
    λ s. if js.eq me (js.of_int (pos 0)) then fd_by_zero lo s else fd_quotient me lo s

  -- OR / EOR / ORR / ORI / EORR / EORI / FM / FD
  unfoldable pub exec0c : ℕ → ℕ → State Cpu (Unit {0})
  exec0c rrr lo s =
      if rrr == 7
      then if lo / 4 % 4 == 3
        then fp_binary js.mul lo s
        else if lo / 4 % 4 == 1
        then fd lo s
        else if lo / 4 % 4 == 2
        then with_memory (pure16 bit_or) lo s
        else with_memory (pure16 bit_xor) lo s
      else if has lo 8
      then with_operand (pure16 bit_or) rrr lo s
      else with_operand (pure16 bit_xor) rrr lo s

  -- AND / LAD / ANDR / ANDI / LADR / LADI / FA / FS
  unfoldable pub exec0d : ℕ → ℕ → State Cpu (Unit {0})
  exec0d rrr lo s =
      if rrr == 7
      then if lo / 4 % 4 == 3
        then fp_binary js.add lo s
        else if lo / 4 % 4 == 1
        then fp_binary js.sub lo s
        else if lo / 4 % 4 == 2
        then with_memory (pure16 bit_and) lo s
        else with_memory (λ a b. return (lad_result a b)) lo s
      else if has lo 8
      then with_operand (pure16 bit_and) rrr lo s
      else with_operand (λ a b. return (lad_result a b)) rrr lo s

unfoldable pub div_quotient : ℕ → ℕ → ℕ → State Cpu (Unit {0})
div_quotient q r kkkk = do
  modify_reg (set_ovf false)
  set_r 0 (q % 2 ^ 16)
  set_r 1 (r % 2 ^ 16)
  λ s. skip_if kkkk (s.reg.r 0) s

-- After the divisor is read.
unfoldable pub div_by : ℕ → ℕ → State Cpu (Unit {0})
div_by divisor kkkk s =
    if divisor == 0
    then modify_reg (set_ovf true) s
    else let n32 = bit_or (s.reg.r 0 * 2 ^ 16) (s.reg.r 1) % 2 ^ 32 in
      if ltb 0xffff (n32 / divisor)
      then modify_reg (set_ovf true) s
      else div_quotient (n32 / divisor) (n32 % divisor) kkkk s

unfoldable pub div : ℕ → State Cpu (Unit {0})
div lo = do divisor ← rd_ri (lo % 4); modify_reg (set_e false); div_by divisor (lo / 2 ^ 4 % 16)

-- BSWR and DSWR.
unfoldable pub swap_memory : (ℕ → ℕ) → ℕ → State Cpu (Unit {0})
swap_memory f lo = do v ← rd_ri (lo % 4); set_r 0 (f v % 2 ^ 16); skip_if (lo / 2 ^ 4 % 16) (f v)

-- BSWP and DSWP.
unfoldable pub swap_register : (ℕ → ℕ) → ℕ → ℕ → State Cpu (Unit {0})
swap_register f rrr lo = do
  v ← get_reg (gr (lo % 8))
  set_gr rrr (f v)
  skip_if (lo / 2 ^ 4 % 16) (f v)

-- BSWP / DSWP / BSWR / DSWR / D
unfoldable pub exec0e : ℕ → ℕ → State Cpu (Unit {0})
exec0e rrr lo s =
    if rrr == 7
    then if lo / 4 % 4 == 3
      then div lo s
      else if lo / 4 % 4 == 2
      then swap_memory bswp lo s
      else swap_memory dswp lo s
    else if has lo 8
    then swap_register (λ v. bswp v % 2 ^ 16) rrr lo s
    else swap_register dswp rrr lo s

unfoldable pub mul : ℕ → State Cpu (Unit {0})
mul lo = do
  r0 ← get_reg (λ reg. reg.r 0)
  m ← rd_ri (lo % 4)
  let p = r0 * m
  modify_reg (set_ovf false)
  modify_reg (set_e false)
  set_r 0 (p / 2 ^ 16 % 2 ^ 16)
  set_r 1 (p % 2 ^ 16)
  skip_if_dr0 (lo / 2 ^ 4 % 16)

-- `(a & 0xff00) | (b & 0xff)`
unfoldable pub low_byte_of : ℕ → ℕ → ℕ
low_byte_of a b = bit_or (bit_and a 0xff00) (b % 2 ^ 8)

-- MVWR and MVBR.
unfoldable pub move_memory : (ℕ → ℕ → ℕ) → ℕ → State Cpu (Unit {0})
move_memory f lo = do
  r0 ← get_reg (λ reg. reg.r 0)
  m ← rd_ri (lo % 4)
  set_r0_and_skip (lo / 2 ^ 4 % 16) (f r0 m)

unfoldable pub mvwi_ic : State Cpu (Unit {0})
mvwi_ic = do w ← fetch; set_ic w

unfoldable pub mvwi : ℕ → ℕ → State Cpu (Unit {0})
mvwi rrr lo = do imm ← fetch; set_gr rrr imm; skip_if (lo / 2 ^ 4 % 16) imm

-- MV and MVB.
unfoldable pub move_register : (ℕ → ℕ → ℕ) → ℕ → ℕ → State Cpu (Unit {0})
move_register f rrr lo = do
  b ← get_reg (gr (lo % 8))
  a ← get_reg (gr rrr)
  set_gr rrr (f a b)
  skip_if (lo / 2 ^ 4 % 16) (f a b)

-- MV / MVB / MVWR / MVWI / MVBR / M
unfoldable pub exec0f : ℕ → ℕ → State Cpu (Unit {0})
exec0f rrr lo s =
    if rrr == 7
    then if lo / 4 % 4 == 3
      then mul lo s
      else if lo / 4 % 4 == 2
      then move_memory (λ a b. b) lo s
      else if not (has lo 8) && lo % 8 == 7
      then mvwi_ic s
      else move_memory low_byte_of lo s
    else if lo % 8 == 7 && not (has lo 8)
    then mvwi rrr lo s
    else if has lo 8
    then move_register (λ a b. b) rrr lo s
    else move_register low_byte_of rrr lo s
