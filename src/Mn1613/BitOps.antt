-- ===== src/Mn1613/BitOps.antt =====
-- The instruction groups 0x05 to 0x07 of `_executeOne`: bits of registers, the search for a bit,
-- the block transfer, RETL and the hardware registers. `1 << (15 - n)` is the bit `n` from the top.
-- retrocpu_emu_ts/src/cpuboard/mn1613/mn1613.ts
use retro_cpu_emu.Shared.{
  ℕ, zero, suc, ◌+◌, ◌-◌, ◌/◌, ◌%◌, ◌^◌, bit_and, bit_or, true, false, not, ◌&&◌, ◌==◌,
  if◌then◌else◌,
}
use retro_cpu_emu.Shared.Bits.{has}
use retro_cpu_emu.Shared.State.{State, ◌>>=◌, ◌>>◌}
use retro_cpu_emu.Machine.{store}
use retro_cpu_emu.Mn1613.Register.{CpuRegister, gr, sw, get_hw_reg, set_hw_reg}
use retro_cpu_emu.Mn1613.Core.{
  Cpu, modify_reg, get_reg, rd_b, wr_b, set_r, set_gr, set_ic, set_csbr, skip_if, pop, and_not,
}

abbrev pub bit_mask : ℕ → ℕ
bit_mask n = 2 ^ (15 - n % 16)

-- TBIT
unfoldable pub exec05 : ℕ → ℕ → State Cpu (Unit {0})
exec05 rrr lo s = skip_if (lo / 2 ^ 4 % 16) (bit_and (gr rrr s.reg) (bit_mask lo)) s

abbrev pub set_and_skip : ℕ → ℕ → ℕ → State Cpu (Unit {0})
set_and_skip rrr kkkk res = do set_gr rrr res; skip_if kkkk res

-- RBIT
unfoldable pub exec06 : ℕ → ℕ → State Cpu (Unit {0})
exec06 rrr lo s = set_and_skip rrr (lo / 2 ^ 4 % 16) (and_not (gr rrr s.reg) (bit_mask lo)) s

unfoldable pub retl : State Cpu (Unit {0})
retl = do csbr ← pop; set_csbr (csbr % 2 ^ 4); ic ← pop; set_ic ic

-- One round of BLK.
unfoldable pub blk_word : State Cpu (Unit {0})
blk_word = do
  source ← get_reg (λ reg. reg.r 1)
  tsr0 ← get_reg (λ reg. reg.tsr0)
  v ← rd_b source tsr0
  dest ← get_reg (λ reg. reg.r 2)
  tsr1 ← get_reg (λ reg. reg.tsr1)
  wr_b dest v tsr1
  set_r 1 ((source + 1) % 2 ^ 16)
  set_r 2 ((dest + 1) % 2 ^ 16)
  modify_reg (λ reg. record reg { r = store reg.r 0 ((reg.r 0 + 2 ^ 16 - 1) % 2 ^ 16) })

-- `while (R[0] !== 0)`, on fuel.
unfoldable pub blk_loop : ℕ → State Cpu (Unit {0})
blk_loop zero s = (tt, s)
blk_loop (suc fuel) s = elim (s.reg.r 0 == 0) [
  | true ↦ (tt, s)
  | false ↦ blk_loop fuel (blk_word s).1
]

unfoldable pub blk : State Cpu (Unit {0})
blk s = blk_loop (s.reg.r 0) s

-- `for (let b = 15; b >= 0; b--)`: from the bit below `n` down, the first one that is set.
unfoldable pub find_bit : ℕ → ℕ → ℕ × ℕ
find_bit zero v = (0x10, v)
find_bit (suc b) v =
    let rest = find_bit b v in if v / 2 ^ b % 2 == 1 then (15 - b, and_not v (2 ^ b)) else rest

unfoldable pub srbt : ℕ → CpuRegister → CpuRegister
srbt sss reg =
    let (p, v) = find_bit 16 (gr sss reg) in sw sss v (record reg { r = store reg.r 0 p })

unfoldable pub debp : ℕ → CpuRegister → CpuRegister
debp ddd reg = sw ddd (bit_or (gr ddd reg) (2 ^ (15 - reg.r 0 % 16)) % 2 ^ 16) reg

unfoldable pub seth_cpyh : ℕ → CpuRegister → CpuRegister
seth_cpyh lo reg =
    let hhh = lo / 2 ^ 4 % 8 in
    if has lo 0x80
    then sw (lo % 8) (get_hw_reg hhh reg) reg
    else set_hw_reg hhh (gr (lo % 8) reg) reg

-- SRBT / DEBP / SETH / CPYH
unfoldable pub search_or_hw : ℕ → CpuRegister → CpuRegister
search_or_hw lo reg =
    if lo / 2 ^ 4 == 0x7 && not (has lo 8)
    then srbt (lo % 8) reg
    else if lo / 2 ^ 4 == 0xf && not (has lo 8)
    then debp (lo % 8) reg
    else seth_cpyh lo reg

-- SBIT / SRBT / DEBP / BLK / RETL / SETH / CPYH
unfoldable pub exec07 : ℕ → ℕ → State Cpu (Unit {0})
exec07 rrr lo s =
    if not (rrr == 7)
    then set_and_skip rrr (lo / 2 ^ 4 % 16) (bit_or (gr rrr s.reg) (bit_mask lo) % 2 ^ 16) s
    else if lo == 0x07
    then retl s
    else if lo == 0x17
    then blk s
    else modify_reg (search_or_hw lo) s
