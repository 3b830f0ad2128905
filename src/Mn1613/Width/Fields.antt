-- ===== src/Mn1613/Width/Fields.antt =====
-- The widths of the registers of mn1613.ts, and the writes of one register that keep them.
use retro_cpu_emu.Shared.{
  ℕ, ◌+◌, ◌%◌, ◌^◌, ◌<◌, ◌≡◌, refl, ◌∙◌, arith, Bool, true, false, if◌then◌else◌, bit_or, bit_and,
}
use retro_cpu_emu.Machine.{store}
use retro_cpu_emu.Mn1613.Register.{
  CpuRegister, PartialRegister, gr, sw, ri, ri_set, set_seg_reg, set_spec_reg, set_hw_reg,
  set_state,
}
use retro_cpu_emu.Mn1613.Core.{Cpu, set_e, set_ovf, apply_ee, str_e, str_ovf}
use retro_cpu_emu.Shared.Bits.{low-or, low-and}

abbrev pub Word : ℕ → Type 0
Word v = v < 2 ^ 16

pub record IsValid (reg : CpuRegister) : Type 0 where
  pub r : (i : ℕ) → Word (reg.r i)
  pub sp : Word reg.sp
  pub str : Word reg.str
  pub ic : Word reg.ic
  pub csbr : reg.csbr < 2 ^ 4
  pub ssbr : reg.ssbr < 2 ^ 4
  pub tsr0 : reg.tsr0 < 2 ^ 4
  pub tsr1 : reg.tsr1 < 2 ^ 4
  pub osr : (i : ℕ) → Word (reg.osr i)
  pub npp : reg.npp < 2 ^ 8
  pub iisr : Word reg.iisr
  pub sbrb : Word reg.sbrb
  pub icb : Word reg.icb

pub store-Word :
    (f : ℕ → ℕ) (a v : ℕ) → ((i : ℕ) → Word (f i)) → Word v → (i : ℕ) → Word (store f a v i)
store-Word f a v h hv i = ground (arith, h i, hv)

pub set_ic-IsValid :
    (v : ℕ) (reg : CpuRegister) → Word v → IsValid reg → IsValid (record reg { ic = v })
set_ic-IsValid v reg hv h = ground (arith, h)

pub set_sp-IsValid :
    (v : ℕ) (reg : CpuRegister) → Word v → IsValid reg → IsValid (record reg { sp = v })
set_sp-IsValid v reg hv h = ground (arith, h)

pub set_str-IsValid :
    (v : ℕ) (reg : CpuRegister) → Word v → IsValid reg → IsValid (record reg { str = v })
set_str-IsValid v reg hv h = ground (arith, h)

pub set_csbr-IsValid :
    (v : ℕ) (reg : CpuRegister) → v < 2 ^ 4 → IsValid reg → IsValid (record reg { csbr = v })
set_csbr-IsValid v reg hv h = ground (arith, h)

pub set_iisr-IsValid :
    (v : ℕ) (reg : CpuRegister) → Word v → IsValid reg → IsValid (record reg { iisr = v })
set_iisr-IsValid v reg hv h = ground (arith, h)

pub set_osr-IsValid :
    (i v : ℕ) (reg : CpuRegister)
    → Word v
    → IsValid reg
    → IsValid (record reg { osr = store reg.osr i v })
set_osr-IsValid i v reg hv h = ground (arith, h)

pub set_r-IsValid :
    (i v : ℕ) (reg : CpuRegister)
    → Word v
    → IsValid reg
    → IsValid (record reg { r = store reg.r i v })
set_r-IsValid i v reg hv h = ground (arith, h)

pub sw-IsValid : (rrr v : ℕ) (reg : CpuRegister) → IsValid reg → IsValid (sw rrr v reg)
unfolding sw
sw-IsValid rrr v reg h = ground (arith, h)

pub gr-Word : (rrr : ℕ) (reg : CpuRegister) → IsValid reg → Word (gr rrr reg)
unfolding gr
gr-Word rrr reg h = ground (arith, h.r (rrr % 8))

pub ri-Word : (ii : ℕ) (reg : CpuRegister) → IsValid reg → Word (ri ii reg)
unfolding ri
ri-Word ii reg h = h.r (ii % 4 + 1)

pub ri_set-IsValid : (ii v : ℕ) (reg : CpuRegister) → IsValid reg → IsValid (ri_set ii v reg)
unfolding ri_set
ri_set-IsValid ii v reg h = ground (arith, h)

pub set_seg_reg-IsValid :
    (bbb v : ℕ) (reg : CpuRegister) → IsValid reg → IsValid (set_seg_reg bbb v reg)
unfolding set_seg_reg
set_seg_reg-IsValid bbb v reg h = ground (arith, h)

pub set_spec_reg-IsValid :
    (ppp v : ℕ) (reg : CpuRegister) → IsValid reg → IsValid (set_spec_reg ppp v reg)
unfolding set_spec_reg
set_spec_reg-IsValid ppp v reg h = ground (arith, h)

pub set_hw_reg-IsValid :
    (hhh v : ℕ) (reg : CpuRegister) → IsValid reg → IsValid (set_hw_reg hhh v reg)
unfolding set_hw_reg
set_hw_reg-IsValid hhh v reg h = ground (arith, h)

pub set_state-IsValid :
    (p : PartialRegister) (reg : CpuRegister) → IsValid reg → IsValid (set_state p reg)
unfolding set_state
set_state-IsValid p reg h = ground (arith, h)

-- `|` and `&` of words are words.
pub or-Word : (x y : ℕ) → Word x → Word y → Word (bit_or x y)
or-Word x y hx hy =
    let ex : x % 2 ^ 16 ≡ x = omega arith in
    let ey : y % 2 ^ 16 ≡ y = omega arith in
    let e' : bit_or x y % 2 ^ 16 ≡ bit_or x y = low-or 16 x y ∙ rw (ex, ey) refl in
    omega (arith, e')

pub and-Word : (x y : ℕ) → Word x → Word y → Word (bit_and x y)
and-Word x y hx hy =
    let ex : x % 2 ^ 16 ≡ x = omega arith in
    let ey : y % 2 ^ 16 ≡ y = omega arith in
    let e' : bit_and x y % 2 ^ 16 ≡ bit_and x y = low-and 16 x y ∙ rw (ex, ey) refl in
    omega (arith, e')

pub set_e-IsValid : (v : Bool) (reg : CpuRegister) → IsValid reg → IsValid (set_e v reg)
unfolding set_e
set_e-IsValid true reg h = set_str-IsValid _ reg (or-Word reg.str str_e h.str (omega arith)) h
set_e-IsValid false reg h = set_str-IsValid _ reg (and-Word reg.str _ h.str (omega arith)) h

pub set_ovf-IsValid : (v : Bool) (reg : CpuRegister) → IsValid reg → IsValid (set_ovf v reg)
unfolding set_ovf
set_ovf-IsValid true reg h = set_str-IsValid _ reg (or-Word reg.str str_ovf h.str (omega arith)) h
set_ovf-IsValid false reg h = set_str-IsValid _ reg (and-Word reg.str _ h.str (omega arith)) h

pub apply_ee-IsValid : (ee : ℕ) (reg : CpuRegister) → IsValid reg → IsValid (apply_ee ee reg)
unfolding apply_ee
apply_ee-IsValid ee reg h =
    ground (arith, set_e-IsValid false reg h, set_e-IsValid true reg h, set_e-IsValid _ reg h, h)

-- A conditional keeps what both branches keep.
pub if-IsValid :
    (t : Bool) (x y : CpuRegister) → IsValid x → IsValid y → IsValid (if t then x else y)
if-IsValid true x y hx hy = hx
if-IsValid false x y hx hy = hy

-- The outcome of a step has valid registers.
pub record Keeps (o : Unit {0} × Cpu) : Type 0 where
  pub valid : IsValid o.1.reg

pub keeps : (o : Unit {0} × Cpu) → IsValid o.1.reg → Keeps o
keeps o h = record { valid = h }

pub if-Keeps : (t : Bool) (x y : Unit {0} × Cpu) → Keeps x → Keeps y → Keeps (if t then x else y)
if-Keeps true x y hx hy = hx
if-Keeps false x y hx hy = hy
