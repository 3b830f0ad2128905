-- ===== src/Mn1613/Arith.antt =====
-- The instruction groups 0x08 to 0x0B of `_executeOne`: arithmetic and comparison.
-- retrocpu_emu_ts/src/cpuboard/mn1613/mn1613.ts. The branches of 0x0A to 0x0F whose register field
-- is not 7 differ in the operation alone, and share `operand`.
use retro_cpu_emu.Shared.{
  ℕ, ◌+◌, ◌*◌, ◌-◌, ◌/◌, ◌%◌, ◌^◌, Bool, false, ◌&&◌, ltb, ◌==◌, if◌then◌else◌,
}
use retro_cpu_emu.Shared.Bits.{has}
use retro_cpu_emu.Shared.State.{State, ◌>>=◌, ◌>>◌, return}
use retro_cpu_emu.Mn1613.Register.{CpuRegister, gr, ri}
use retro_cpu_emu.Mn1613.Core.{
  Cpu, modify_reg, get_reg, rd_c, set_r, set_gr, set_ic, fetch, skip_if, set_e, set_ovf, add, sub,
}
use retro_cpu_emu.Mn1613.Float.{skip_if_dr0}
use retro_cpu_emu.Mn1613.Move.{carry_in}

-- `_rdC(_ri(ii))`
unfoldable pub rd_ri : ℕ → State Cpu ℕ
rd_ri ii = do a ← get_reg (ri ii); rd_c a

-- The immediate word where the field is 7, else the register.
unfoldable pub operand : ℕ → State Cpu ℕ
operand lo s = if lo % 8 == 7 then fetch s else (gr (lo % 8) s.reg, s)

-- The two words at `(Ri)`, as a number of 32 bits.
unfoldable pub rd_double : ℕ → State Cpu ℕ
rd_double ii = do
  a ← get_reg (ri ii)
  mh ← rd_c a
  ml ← rd_c ((a + 1) % 2 ^ 16)
  return (mh * 65536 + ml)

abbrev pub dr0 : CpuRegister → ℕ
dr0 reg = reg.r 0 * 65536 + reg.r 1

-- `R[0] = (du >>> 16) & 0xffff; R[1] = du & 0xffff;` and the skip.
abbrev finish_double : ℕ → ℕ → State Cpu (Unit {0})
finish_double kkkk du = do set_r 0 (du / 2 ^ 16 % 2 ^ 16); set_r 1 (du % 2 ^ 16); skip_if_dr0 kkkk

unfoldable pub sd : ℕ → State Cpu (Unit {0})
sd lo = do
  m ← rd_double (lo % 4)
  e0 ← get_reg (carry_in (has lo 8))
  d ← get_reg dr0
  modify_reg (set_e (ltb d (m + e0)))
  modify_reg (set_ovf false)
  finish_double (lo / 2 ^ 4 % 16) ((d + 2 ^ 32 - (m + e0)) % 2 ^ 32)

unfoldable pub ad : ℕ → State Cpu (Unit {0})
ad lo = do
  m ← rd_double (lo % 4)
  e0 ← get_reg (carry_in (has lo 8))
  d ← get_reg dr0
  modify_reg (set_e (ltb 0xffffffff (d + m + e0)))
  modify_reg (set_ovf false)
  finish_double (lo / 2 ^ 4 % 16) ((d + m + e0) % 2 ^ 32)

abbrev pub write_and_skip : ℕ → ℕ → ℕ → State Cpu (Unit {0})
write_and_skip rrr kkkk res = do set_gr rrr res; skip_if kkkk res

-- SI / SD
unfoldable pub exec08 : ℕ → ℕ → State Cpu (Unit {0})
exec08 rrr lo s =
    if rrr == 7 && has lo 4
    then sd lo s
    else write_and_skip rrr (lo / 2 ^ 4 % 16) ((gr rrr s.reg + 2 ^ 16 - lo % 16) % 2 ^ 16) s

-- AI / AD
unfoldable pub exec09 : ℕ → ℕ → State Cpu (Unit {0})
exec09 rrr lo s =
    if rrr == 7 && has lo 4
    then ad lo s
    else write_and_skip rrr (lo / 2 ^ 4 % 16) ((gr rrr s.reg + lo % 16) % 2 ^ 16) s

-- `R[0] = res; if (_skip(kkkk, res)) _skipNext();`
abbrev pub set_r0_and_skip : ℕ → ℕ → State Cpu (Unit {0})
set_r0_and_skip kkkk res = do set_r 0 res; skip_if kkkk res

abbrev correct : Bool → ℕ → ℕ
correct c n = if c then n else 0

-- The result of DAS: the difference less 6 and 0x60 where the two low digits borrow.
unfoldable pub das_result : ℕ → ℕ → ℕ → ℕ
das_result r0 m e0 =
    let low = correct (ltb (r0 % 16) (m % 16 + e0)) 0x06 in
    let high = correct (ltb (r0 / 2 ^ 4 % 16) (m / 2 ^ 4 % 16)) 0x60 in
    (r0 + 2 ^ 17 - m - e0 - low - high) % 2 ^ 16

unfoldable pub das : ℕ → State Cpu (Unit {0})
das lo = do
  m ← rd_ri (lo % 4)
  e0 ← get_reg (carry_in (has lo 8))
  r0 ← get_reg (λ reg. reg.r 0)
  modify_reg (set_e (ltb r0 (m + e0)))
  set_r0_and_skip (lo / 2 ^ 4 % 16) (das_result r0 m e0)

unfoldable pub daa_result : ℕ → ℕ → ℕ → ℕ
daa_result r0 m e0 =
    let res = r0 + m + e0 + correct (ltb 9 (r0 % 16 + m % 16 + e0)) 0x06 in
    (res + correct (ltb 0x99 (res / 2 ^ 8 % 2 ^ 8)) 0x0600) % 2 ^ 16

unfoldable pub daa : ℕ → State Cpu (Unit {0})
daa lo = do
  m ← rd_ri (lo % 4)
  e0 ← get_reg (carry_in (has lo 8))
  r0 ← get_reg (λ reg. reg.r 0)
  modify_reg (set_e (ltb 0xffff (r0 + m + e0)))
  set_r0_and_skip (lo / 2 ^ 4 % 16) (daa_result r0 m e0)

-- CWR and CBR, and the comparisons of a register.
unfoldable pub compare_memory : ℕ → ℕ → State Cpu (Unit {0})
compare_memory w lo = do
  r0 ← get_reg (λ reg. reg.r 0)
  m ← rd_ri (lo % 4)
  res ← sub (r0 % 2 ^ w) (m % 2 ^ w)
  skip_if (lo / 2 ^ 4 % 16) res

unfoldable pub compare_operand : ℕ → ℕ → ℕ → State Cpu (Unit {0})
compare_operand w rrr lo = do
  b ← operand lo
  a ← get_reg (gr rrr)
  res ← sub (a % 2 ^ w) (b % 2 ^ w)
  skip_if (lo / 2 ^ 4 % 16) res

-- C / CB / CWR / CWI / CBR / CBI / DAS
unfoldable pub exec0a : ℕ → ℕ → State Cpu (Unit {0})
exec0a rrr lo s =
    if rrr == 7
    then if has lo 4
      then das lo s
      else if lo / 4 % 4 == 2
      then compare_memory 16 lo s
      else compare_memory 8 lo s
    else if has lo 8
    then compare_operand 16 rrr lo s
    else compare_operand 8 rrr lo s

-- AWR and SWR.
unfoldable pub with_memory : (ℕ → ℕ → State Cpu ℕ) → ℕ → State Cpu (Unit {0})
with_memory op lo = do
  r0 ← get_reg (λ reg. reg.r 0)
  m ← rd_ri (lo % 4)
  res ← op r0 m
  set_r0_and_skip (lo / 2 ^ 4 % 16) res

-- AWI and SWI on IC: the address before the fetch of the immediate word.
unfoldable pub with_ic : (ℕ → ℕ → State Cpu ℕ) → ℕ → State Cpu (Unit {0})
with_ic op lo = do
  ic ← get_reg (λ reg. reg.ic)
  imm ← fetch
  res ← op ic imm
  set_ic res
  skip_if (lo / 2 ^ 4 % 16) res

-- AWI, SWI, A, S and their like: the register becomes the result.
unfoldable pub with_operand : (ℕ → ℕ → State Cpu ℕ) → ℕ → ℕ → State Cpu (Unit {0})
with_operand op rrr lo = do
  b ← operand lo
  a ← get_reg (gr rrr)
  res ← op a b
  set_gr rrr res
  skip_if (lo / 2 ^ 4 % 16) res

-- A / S / AWR / SWR / AWI / SWI / DAA
unfoldable pub exec0b : ℕ → ℕ → State Cpu (Unit {0})
exec0b rrr lo s =
    if rrr == 7
    then if has lo 4
      then daa lo s
      else if lo / 4 % 4 == 2
      then with_memory add lo s
      else if lo / 4 % 4 == 0
      then with_memory sub lo s
      else if has lo 8 && lo % 8 == 7
      then with_ic add lo s
      else with_ic sub lo s
    else if has lo 8
    then with_operand add rrr lo s
    else with_operand sub rrr lo s
