-- ===== src/Mn1613/Width/Operations.antt =====
-- The instruction groups 0x08 to 0x0F of `_executeOne` keep the widths of the registers.
use retro_cpu_emu.Shared.{ℕ, ◌+◌, ◌-◌, ◌/◌, ◌%◌, ◌^◌, arith}
use retro_cpu_emu.Shared.State.{State}
use retro_cpu_emu.Mn1613.Register.{gr}
use retro_cpu_emu.Mn1613.Core.{Cpu, rd_c, add, sub}
use retro_cpu_emu.Mn1613.Float.{skip_if_dr0}
use retro_cpu_emu.Mn1613.Arith.{
  rd_ri, operand, write_and_skip, rd_double, sd, ad, exec08, exec09, das, daa, das_result,
  daa_result, compare_memory, compare_operand, exec0a, with_memory, with_ic, with_operand, exec0b,
}
use retro_cpu_emu.Mn1613.Width.Fields.{
  IsValid, Keeps, keeps, if-Keeps, Word, set_ic-IsValid, set_r-IsValid, sw-IsValid, set_e-IsValid,
  set_ovf-IsValid,
}
use retro_cpu_emu.Mn1613.Width.Steps.{skip_if-IsValid, add-IsValid, sub-IsValid, fetch-IsValid}

sd-IsValid : (lo : ℕ) (s : Cpu) → IsValid s.reg → IsValid (sd lo s).1.reg
unfolding sd rd_double rd_c skip_if_dr0
sd-IsValid lo s h = skip_if-IsValid _ _ _ (
    set_r-IsValid 1 _ _ (omega arith)
      (set_r-IsValid 0 _ _ (omega arith) (set_ovf-IsValid _ _ (set_e-IsValid _ s.reg h))))

ad-IsValid : (lo : ℕ) (s : Cpu) → IsValid s.reg → IsValid (ad lo s).1.reg
unfolding ad rd_double rd_c skip_if_dr0
ad-IsValid lo s h = skip_if-IsValid _ _ _ (
    set_r-IsValid 1 _ _ (omega arith)
      (set_r-IsValid 0 _ _ (omega arith) (set_ovf-IsValid _ _ (set_e-IsValid _ s.reg h))))

write_and_skip-IsValid :
    (rrr k v : ℕ) (s : Cpu) → IsValid s.reg → IsValid (write_and_skip rrr k v s).1.reg
write_and_skip-IsValid rrr k v s h = skip_if-IsValid _ _ _ (sw-IsValid rrr v s.reg h)

pub exec08-IsValid : (rrr lo : ℕ) (s : Cpu) → IsValid s.reg → IsValid (exec08 rrr lo s).1.reg
unfolding exec08
exec08-IsValid rrr lo s h = ground (
  arith,
  sd-IsValid lo s h,
  write_and_skip-IsValid rrr (lo / 2 ^ 4 % 16) ((gr rrr s.reg + 2 ^ 16 - lo % 16) % 2 ^ 16) s h,
)

pub exec09-IsValid : (rrr lo : ℕ) (s : Cpu) → IsValid s.reg → IsValid (exec09 rrr lo s).1.reg
unfolding exec09
exec09-IsValid rrr lo s h = ground (
  arith,
  ad-IsValid lo s h,
  write_and_skip-IsValid rrr (lo / 2 ^ 4 % 16) ((gr rrr s.reg + lo % 16) % 2 ^ 16) s h,
)

operand-IsValid : (lo : ℕ) (s : Cpu) → IsValid s.reg → IsValid (operand lo s).1.reg
unfolding operand
operand-IsValid lo s h = ground (arith, h, fetch-IsValid s h)

das-IsValid : (lo : ℕ) (s : Cpu) → IsValid s.reg → IsValid (das lo s).1.reg
unfolding das rd_ri rd_c das_result
das-IsValid lo s h =
    skip_if-IsValid _ _ _ (set_r-IsValid 0 _ _ (omega arith) (set_e-IsValid _ s.reg h))

daa-IsValid : (lo : ℕ) (s : Cpu) → IsValid s.reg → IsValid (daa lo s).1.reg
unfolding daa rd_ri rd_c daa_result
daa-IsValid lo s h =
    skip_if-IsValid _ _ _ (set_r-IsValid 0 _ _ (omega arith) (set_e-IsValid _ s.reg h))

compare_memory-IsValid :
    (w lo : ℕ) (s : Cpu) → IsValid s.reg → IsValid (compare_memory w lo s).1.reg
unfolding compare_memory rd_ri rd_c
compare_memory-IsValid w lo s h = skip_if-IsValid _ _ _ (sub-IsValid _ _ _ h)

compare_operand-IsValid :
    (w rrr lo : ℕ) (s : Cpu) → IsValid s.reg → IsValid (compare_operand w rrr lo s).1.reg
unfolding compare_operand
compare_operand-IsValid w rrr lo s h =
    skip_if-IsValid _ _ _ (sub-IsValid _ _ _ (operand-IsValid lo s h))

pub exec0a-IsValid : (rrr lo : ℕ) (s : Cpu) → IsValid s.reg → IsValid (exec0a rrr lo s).1.reg
unfolding exec0a
exec0a-IsValid rrr lo s h = ground (
  arith,
  das-IsValid lo s h,
  compare_memory-IsValid 16 lo s h,
  compare_memory-IsValid 8 lo s h,
  compare_operand-IsValid 16 rrr lo s h,
  compare_operand-IsValid 8 rrr lo s h,
)

-- An operation that keeps the registers valid, and what it returns where the code stores it whole.
abbrev pub Safe : (ℕ → ℕ → State Cpu ℕ) → Type 0
Safe op = (a b : ℕ) (s : Cpu) → IsValid s.reg → IsValid (op a b s).1.reg

abbrev pub Narrow : (ℕ → ℕ → State Cpu ℕ) → Type 0
Narrow op = (a b : ℕ) (s : Cpu) → Word (op a b s).0

pub with_memory-Keeps :
    (op : ℕ → ℕ → State Cpu ℕ) (lo : ℕ) (s : Cpu)
    → Safe op
    → Narrow op
    → IsValid s.reg
    → Keeps (with_memory op lo s)
unfolding with_memory rd_ri rd_c
with_memory-Keeps op lo s safe narrow h =
    keeps (with_memory op lo s)
      (skip_if-IsValid _ _ _ (set_r-IsValid 0 _ _ (narrow _ _ _) (safe _ _ _ h)))

with_ic-Keeps :
    (op : ℕ → ℕ → State Cpu ℕ) (lo : ℕ) (s : Cpu)
    → Safe op
    → Narrow op
    → IsValid s.reg
    → Keeps (with_ic op lo s)
unfolding with_ic
with_ic-Keeps op lo s safe narrow h =
    keeps (with_ic op lo s)
      (skip_if-IsValid _ _ _ (set_ic-IsValid _ _ (narrow _ _ _) (safe _ _ _ (fetch-IsValid s h))))

pub with_operand-Keeps :
    (op : ℕ → ℕ → State Cpu ℕ) (rrr lo : ℕ) (s : Cpu)
    → Safe op
    → IsValid s.reg
    → Keeps (with_operand op rrr lo s)
unfolding with_operand
with_operand-Keeps op rrr lo s safe h =
    keeps (with_operand op rrr lo s)
      (skip_if-IsValid _ _ _ (sw-IsValid rrr _ _ (safe _ _ _ (operand-IsValid lo s h))))

add-Word : Narrow add
unfolding add
add-Word a b s = omega arith

sub-Word : Narrow sub
unfolding sub
sub-Word a b s = omega arith

pub exec0b-Keeps : (rrr lo : ℕ) (s : Cpu) → IsValid s.reg → Keeps (exec0b rrr lo s)
unfolding exec0b
exec0b-Keeps rrr lo s h =
    if-Keeps _ _ _
      (if-Keeps _ _ _ (keeps (daa lo s) (daa-IsValid lo s h)) (
        if-Keeps _ _ _ (with_memory-Keeps add lo s add-IsValid add-Word h) (
          if-Keeps _ _ _ (with_memory-Keeps sub lo s sub-IsValid sub-Word h) (
            if-Keeps _ _ _ (with_ic-Keeps add lo s add-IsValid add-Word h)
              (with_ic-Keeps sub lo s sub-IsValid sub-Word h)))))
      (if-Keeps _ _ _ (with_operand-Keeps add rrr lo s add-IsValid h)
        (with_operand-Keeps sub rrr lo s sub-IsValid h))
