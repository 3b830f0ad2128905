-- ===== src/Mn1613/Register.antt =====
-- The registers of the MN1613 core, and what an instruction word's fields select of them:
-- retrocpu_emu_ts/src/cpuboard/mn1613/mn1613.ts. The arrays `R` and `OSR` are functions from the
-- index; no code reads them out of range.
use retro_cpu_emu.Shared.{ℕ, ◌+◌, ◌-◌, ◌%◌, ◌^◌, Option, none, some, ltb, ◌==◌, if◌then◌else◌}
use retro_cpu_emu.Machine.{store}

pub record CpuRegister : Type 0 where
  pub r : ℕ → ℕ
  pub sp : ℕ
  pub str : ℕ
  pub ic : ℕ
  pub csbr : ℕ
  pub ssbr : ℕ
  pub tsr0 : ℕ
  pub tsr1 : ℕ
  pub osr : ℕ → ℕ
  pub npp : ℕ
  pub iisr : ℕ
  pub sbrb : ℕ
  pub icb : ℕ

abbrev pub initial_register : CpuRegister
initial_register = record {
  r = λ i. 0;
  sp = 0;
  str = 0;
  ic = 0;
  csbr = 0;
  ssbr = 0;
  tsr0 = 0;
  tsr1 = 0;
  osr = λ i. 0;
  npp = 1;
  iisr = 0;
  sbrb = 0;
  icb = 0;
}

unfoldable pub gr : ℕ → CpuRegister → ℕ
gr rrr reg =
    let k = rrr % 8 in
    if ltb k 5 then reg.r k else if k == 5 then reg.sp else if k == 6 then reg.str else reg.ic

unfoldable pub sw : ℕ → ℕ → CpuRegister → CpuRegister
sw rrr v reg =
    let k = rrr % 8 in
    let w = v % 2 ^ 16 in
    if ltb k 5
    then record reg { r = store reg.r k w }
    else if k == 5
    then record reg { sp = w }
    else if k == 6
    then record reg { str = w }
    else record reg { ic = w }

unfoldable pub ri : ℕ → CpuRegister → ℕ
ri ii reg = reg.r (ii % 4 + 1)

unfoldable pub ri_set : ℕ → ℕ → CpuRegister → CpuRegister
ri_set ii v reg = record reg { r = store reg.r (ii % 4 + 1) (v % 2 ^ 16) }

unfoldable pub seg : ℕ → CpuRegister → ℕ
seg bb reg =
    let k = bb % 4 in
    if k == 0 then reg.csbr else if k == 1 then reg.ssbr else if k == 2 then reg.tsr0 else reg.tsr1

unfoldable pub get_seg_reg : ℕ → CpuRegister → ℕ
get_seg_reg bbb reg =
    let k = bbb % 8 in
    if k == 0
    then reg.csbr
    else if k == 1
    then reg.ssbr
    else if k == 2
    then reg.tsr0
    else if k == 3
    then reg.tsr1
    else reg.osr (k - 4)

-- A write of CSBR is ignored.
unfoldable pub set_seg_reg : ℕ → ℕ → CpuRegister → CpuRegister
set_seg_reg bbb v reg =
    let k = bbb % 8 in
    let w = v % 2 ^ 4 in
    if k == 0
    then reg
    else if k == 1
    then record reg { ssbr = w }
    else if k == 2
    then record reg { tsr0 = w }
    else if k == 3
    then record reg { tsr1 = w }
    else record reg { osr = store reg.osr (k - 4) w }

unfoldable pub get_spec_reg : ℕ → CpuRegister → ℕ
get_spec_reg ppp reg =
    let k = ppp % 8 in
    if k == 0 then reg.sbrb else if k == 1 then reg.icb else if k == 2 then reg.npp else 0

unfoldable pub set_spec_reg : ℕ → ℕ → CpuRegister → CpuRegister
set_spec_reg ppp v reg =
    let k = ppp % 8 in
    if k == 0
    then record reg { sbrb = v % 2 ^ 8 }
    else if k == 1
    then record reg { icb = v % 2 ^ 16 }
    else if k == 2
    then record reg { npp = v % 2 ^ 8 }
    else reg

unfoldable pub get_hw_reg : ℕ → CpuRegister → ℕ
get_hw_reg hhh reg = if hhh == 6 then reg.iisr else 0

unfoldable pub set_hw_reg : ℕ → ℕ → CpuRegister → CpuRegister
set_hw_reg hhh v reg = if hhh == 6 then record reg { iisr = v % 2 ^ 16 } else reg

-- The argument of `setState`: a field that is not there is `none`.
pub record PartialRegister : Type 0 where
  pub r : ℕ → Option ℕ
  pub osr : ℕ → Option ℕ
  pub sp : Option ℕ
  pub str : Option ℕ
  pub ic : Option ℕ
  pub csbr : Option ℕ
  pub ssbr : Option ℕ
  pub tsr0 : Option ℕ
  pub tsr1 : Option ℕ
  pub npp : Option ℕ
  pub iisr : Option ℕ
  pub sbrb : Option ℕ
  pub icb : Option ℕ

-- The value assigned to a register of `w` bits that held `old`.
abbrev pub or_keep : ℕ → ℕ → Option ℕ → ℕ
or_keep w old none = old
or_keep w old (some v) = v % 2 ^ w

-- `OSR` is written to 16 bits here, and read to 4.
unfoldable pub set_state : PartialRegister → CpuRegister → CpuRegister
set_state p reg = record {
  r = λ i. if ltb i 5 then or_keep 16 (reg.r i) (p.r i) else reg.r i;
  sp = or_keep 16 reg.sp p.sp;
  str = or_keep 16 reg.str p.str;
  ic = or_keep 16 reg.ic p.ic;
  csbr = or_keep 4 reg.csbr p.csbr;
  ssbr = or_keep 4 reg.ssbr p.ssbr;
  tsr0 = or_keep 4 reg.tsr0 p.tsr0;
  tsr1 = or_keep 4 reg.tsr1 p.tsr1;
  osr = λ i. if ltb i 4 then or_keep 16 (reg.osr i) (p.osr i) else reg.osr i;
  npp = or_keep 8 reg.npp p.npp;
  iisr = or_keep 16 reg.iisr p.iisr;
  sbrb = or_keep 16 reg.sbrb p.sbrb;
  icb = or_keep 16 reg.icb p.icb;
}
