-- ===== src/Mn1613/Width/Blocks.antt =====
-- The instruction groups 0x05 to 0x07 of `_executeOne` keep the widths of the registers.
use retro_cpu_emu.Shared.{ℕ, zero, suc, ◌/◌, ◌%◌, ◌^◌, arith, bit_or}
use retro_cpu_emu.Mn1613.Register.{CpuRegister, gr}
use retro_cpu_emu.Mn1613.Core.{Cpu, rd_b, wr_b}
use retro_cpu_emu.Mn1613.BitOps.{
  bit_mask, set_and_skip, exec05, exec06, retl, blk_word, blk_loop, blk, find_bit, srbt, debp,
  seth_cpyh, search_or_hw, exec07,
}
use retro_cpu_emu.Mn1613.Width.Fields.{
  IsValid, Word, set_ic-IsValid, set_csbr-IsValid, set_r-IsValid, sw-IsValid, set_hw_reg-IsValid,
  if-IsValid,
}
use retro_cpu_emu.Mn1613.Width.Steps.{skip_if-IsValid, pop-IsValid, pop-Word}

pub exec05-IsValid : (rrr lo : ℕ) (s : Cpu) → IsValid s.reg → IsValid (exec05 rrr lo s).1.reg
unfolding exec05
exec05-IsValid rrr lo s h = skip_if-IsValid _ _ s h

pub exec06-IsValid : (rrr lo : ℕ) (s : Cpu) → IsValid s.reg → IsValid (exec06 rrr lo s).1.reg
unfolding exec06
exec06-IsValid rrr lo s h = skip_if-IsValid _ _ _ (sw-IsValid rrr _ s.reg h)

retl-IsValid : (s : Cpu) → IsValid s.reg → IsValid (retl s).1.reg
unfolding retl
retl-IsValid s h =
    set_ic-IsValid _ _ (pop-Word _)
      (pop-IsValid _ (set_csbr-IsValid _ _ (omega arith) (pop-IsValid s h)))

blk_word-IsValid : (s : Cpu) → IsValid s.reg → IsValid (blk_word s).1.reg
unfolding blk_word rd_b wr_b
blk_word-IsValid s h =
    set_r-IsValid 0 _ _ (omega arith)
      (set_r-IsValid 2 _ _ (omega arith) (set_r-IsValid 1 _ s.reg (omega arith) h))

blk_loop-IsValid : (n : ℕ) (s : Cpu) → IsValid s.reg → IsValid (blk_loop n s).1.reg
unfolding blk_loop
blk_loop-IsValid zero s h = h
blk_loop-IsValid (suc n) s h =
    let more = blk_loop-IsValid n (blk_word s).1 (blk_word-IsValid s h) in ground (arith, h, more)

find_bit-Word : (n v : ℕ) → Word (find_bit n v).0
unfolding find_bit
find_bit-Word zero v = omega arith
find_bit-Word (suc n) v = ground (arith, find_bit-Word n v)

srbt-IsValid : (k : ℕ) (reg : CpuRegister) → IsValid reg → IsValid (srbt k reg)
unfolding srbt
srbt-IsValid k reg h = sw-IsValid k _ _ (set_r-IsValid 0 _ reg (find_bit-Word 16 _) h)

debp-IsValid : (k : ℕ) (reg : CpuRegister) → IsValid reg → IsValid (debp k reg)
unfolding debp
debp-IsValid k reg h = sw-IsValid k _ reg h

seth_cpyh-IsValid : (lo : ℕ) (reg : CpuRegister) → IsValid reg → IsValid (seth_cpyh lo reg)
unfolding seth_cpyh
seth_cpyh-IsValid lo reg h = if-IsValid _ _ _ (sw-IsValid _ _ reg h) (set_hw_reg-IsValid _ _ reg h)

search_or_hw-IsValid : (lo : ℕ) (reg : CpuRegister) → IsValid reg → IsValid (search_or_hw lo reg)
unfolding search_or_hw
search_or_hw-IsValid lo reg h =
    if-IsValid _ _ _ (srbt-IsValid (lo % 8) reg h)
      (if-IsValid _ _ _ (debp-IsValid (lo % 8) reg h) (seth_cpyh-IsValid lo reg h))

sbit-IsValid : (rrr k v : ℕ) (s : Cpu) → IsValid s.reg → IsValid (set_and_skip rrr k v s).1.reg
sbit-IsValid rrr k v s h = skip_if-IsValid _ _ _ (sw-IsValid rrr v s.reg h)

pub exec07-IsValid : (rrr lo : ℕ) (s : Cpu) → IsValid s.reg → IsValid (exec07 rrr lo s).1.reg
unfolding exec07 blk
exec07-IsValid rrr lo s h = ground (
  arith,
  sbit-IsValid rrr (lo / 2 ^ 4 % 16) (bit_or (gr rrr s.reg) (bit_mask lo) % 2 ^ 16) s h,
  retl-IsValid s h,
  blk_loop-IsValid (s.reg.r 0) s h,
  search_or_hw-IsValid lo s.reg h,
)
