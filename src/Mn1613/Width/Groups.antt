-- ===== src/Mn1613/Width/Groups.antt =====
-- The instruction groups 0x01 and 0x02 of `_executeOne` keep the widths of the registers.
use retro_cpu_emu.Shared.{
  ℕ, zero, suc, ◌/◌, ◌%◌, ◌^◌, arith, Bool, true, false, ◌==◌, Option, none, some, bit_or, bit_and,
}
use retro_cpu_emu.Shared.Bits.{has}
use retro_cpu_emu.Mn1613.Register.{gr}
use retro_cpu_emu.Mn1613.Core.{Cpu, rd_c, wr_c}
use retro_cpu_emu.Mn1613.Move.{
  lb, load_seg, load_store_special, copy_special, exec01, pshm, popm, tset_trst, exec02, read_into,
  rd_port, neg,
}
use retro_cpu_emu.Mn1613.Width.Fields.{
  IsValid, set_r-IsValid, sw-IsValid, set_seg_reg-IsValid, set_spec_reg-IsValid, if-IsValid,
}
use retro_cpu_emu.Mn1613.Width.Steps.{
  fetch-IsValid, skip_if-IsValid, sub-IsValid, push-IsValid, pop-IsValid, pop-Word,
}

load_seg-IsValid : (bits v : ℕ) (s : Cpu) → IsValid s.reg → IsValid (load_seg bits v s).1.reg
load_seg-IsValid bits v s h =
    if-IsValid (bits == 0) s.reg _ h (set_seg_reg-IsValid bits (v % 2 ^ 4) s.reg h)

lb-IsValid : (bits a : ℕ) (s : Cpu) → IsValid s.reg → IsValid (lb bits a s).1.reg
unfolding lb rd_c
lb-IsValid bits a s h =
    let loaded = load_seg-IsValid bits (rd_c a s).0 s h in ground (arith, h, loaded)

load_store_special-IsValid :
    (bits : ℕ) (b7 b3 : Bool) (s : Cpu)
    → IsValid s.reg
    → IsValid (load_store_special bits b7 b3 s).1.reg
unfolding load_store_special rd_c wr_c
load_store_special-IsValid bits false false s h = lb-IsValid bits _ _ (fetch-IsValid s h)
load_store_special-IsValid bits false true s h = set_spec_reg-IsValid bits _ _ (fetch-IsValid s h)
load_store_special-IsValid bits true false s h = fetch-IsValid s h
load_store_special-IsValid bits true true s h = fetch-IsValid s h

copy_special-IsValid :
    (bits l : ℕ) (b7 b3 : Bool) (s : Cpu)
    → IsValid s.reg
    → IsValid (copy_special bits l b7 b3 s).1.reg
unfolding copy_special
copy_special-IsValid bits l false false s h =
    if-IsValid (bits == 0) s.reg _ h (set_seg_reg-IsValid bits _ s.reg h)
copy_special-IsValid bits l false true s h = set_spec_reg-IsValid bits _ s.reg h
copy_special-IsValid bits l true false s h = sw-IsValid l _ s.reg h
copy_special-IsValid bits l true true s h = sw-IsValid l _ s.reg h

pub exec01-IsValid : (rrr lo : ℕ) (s : Cpu) → IsValid s.reg → IsValid (exec01 rrr lo s).1.reg
unfolding exec01
exec01-IsValid rrr lo s h =
    let b = lo / 2 ^ 4 % 8 in
    let b7 = has lo 0x80 in
    let b3 = has lo 0x08 in
    ground (
      arith,
      sw-IsValid rrr (bit_or (bit_and (gr rrr s.reg) 0xff00) lo) s.reg h,
      load_store_special-IsValid b b7 b3 s h,
      copy_special-IsValid b (lo % 8) b7 b3 s h,
    )

pshm-IsValid : (n : ℕ) (s : Cpu) → IsValid s.reg → IsValid (pshm n s).1.reg
unfolding pshm
pshm-IsValid zero s h = h
pshm-IsValid (suc n) s h = pshm-IsValid n _ (push-IsValid _ s h)

popm-IsValid : (n : ℕ) (s : Cpu) → IsValid s.reg → IsValid (popm n s).1.reg
unfolding popm
popm-IsValid zero s h = h
popm-IsValid (suc n) s h = popm-IsValid n _ (set_r-IsValid n _ _ (pop-Word s) (pop-IsValid s h))

tset_trst-IsValid : (lo : ℕ) (s : Cpu) → IsValid s.reg → IsValid (tset_trst lo s).1.reg
unfolding tset_trst rd_c wr_c
tset_trst-IsValid lo s h = skip_if-IsValid _ _ _ (fetch-IsValid s h)

pub exec02-IsValid : (rrr lo : ℕ) (s : Cpu) → IsValid s.reg → IsValid (exec02 rrr lo s).1.reg
unfolding exec02
exec02-IsValid rrr lo s h =
    ground (arith, h, pshm-IsValid 5 s h, popm-IsValid 5 s h, tset_trst-IsValid lo s h)

read_into-IsValid :
    (rrr : ℕ) (v : Option ℕ) (s : Cpu) → IsValid s.reg → IsValid (read_into rrr v s).1.reg
read_into-IsValid rrr none s h = h
read_into-IsValid rrr (some v) s h = sw-IsValid rrr (v % 2 ^ 16) s.reg h

pub rd_port-IsValid : (rrr p : ℕ) (s : Cpu) → IsValid s.reg → IsValid (rd_port rrr p s).1.reg
unfolding rd_port
rd_port-IsValid rrr p s h = read_into-IsValid rrr _ _ h

pub neg-IsValid : (k d : ℕ) (b3 : Bool) (s : Cpu) → IsValid s.reg → IsValid (neg k d b3 s).1.reg
unfolding neg
neg-IsValid k d b3 s h =
    skip_if-IsValid k _ _ (sw-IsValid d _ _ (sub-IsValid _ _ _ (sub-IsValid _ _ s h)))
