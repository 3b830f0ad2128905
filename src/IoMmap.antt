-- ===== src/IoMmap.antt =====
-- The memory-mapped IO of the TMS9995 board, FE80 to FEFF:
-- retrocpu_emu_ts/src/cpuboard/tms9995/io_mmap.ts, class Tms9995IoMmap. The hits of the comparators
-- and of the step unit are returned to the caller, who owns the two callbacks.
pub mod Protocol
use retro_cpu_emu.Shared.{
  ℕ, ◌+◌, ◌*◌, ◌/◌, ◌%◌, ◌^◌, bit_or, Bool, true, false, not, ◌&&◌, ◌||◌, Option, none, some, ltb,
  leb, ◌==◌, if◌then◌else◌,
}
use retro_cpu_emu.AddrComparator
use retro_cpu_emu.AddrComparator.{
  AddrComparatorBank, AddrBusAccess, PortRead, value, absent, fault, encode_break_ctrl,
}
use retro_cpu_emu.StepBreak
use retro_cpu_emu.StepBreak.{StepBreakUnit}

abbrev pub tms9995_io_base : ℕ
tms9995_io_base = 0xfe80

abbrev pub tms9995_io_end : ℕ
tms9995_io_end = 0xfeff

abbrev pub tms9995_io_break_slot : ℕ
tms9995_io_break_slot = 0xfe80

abbrev pub tms9995_io_break_ctrl : ℕ
tms9995_io_break_ctrl = 0xfe81

abbrev pub tms9995_io_break_addr_hi : ℕ
tms9995_io_break_addr_hi = 0xfe82

abbrev pub tms9995_io_break_addr_lo : ℕ
tms9995_io_break_addr_lo = 0xfe83

abbrev pub tms9995_io_break_hit : ℕ
tms9995_io_break_hit = 0xfe84

abbrev pub tms9995_io_break_prev : ℕ
tms9995_io_break_prev = 0xfe85

abbrev pub tms9995_io_step_ena : ℕ
tms9995_io_step_ena = 0xfe86

abbrev pub tms9995_io_step_delay : ℕ
tms9995_io_step_delay = 0xfe87

pub data ProgPhase : Type 0 where
  idle slot ctrl addr_hi : ProgPhase

pub record IoMmap : Type 0 where
  pub comparators : AddrComparatorBank
  pub step : StepBreakUnit
  pub phase : ProgPhase
  pub prog_slot : ℕ
  pub prog_ctrl : ℕ
  pub prog_addr_hi : ℕ

unfoldable pub reset : IoMmap
reset = record {
  comparators = AddrComparator.reset;
  step = StepBreak.reset;
  phase = ProgPhase.idle;
  prog_slot = 0;
  prog_ctrl = 0;
  prog_addr_hi = 0;
}

unfoldable pub is_io_addr : ℕ → Bool
is_io_addr addr = let a = addr % 2 ^ 16 in leb tms9995_io_base a && leb a tms9995_io_end

-- `hit === null || hit === 0xffff ? 0xff : hit & 7`; the hit port never faults.
abbrev hit_byte : PortRead → ℕ
hit_byte (value h) = if h == 0xffff then 0xff else h % 8
hit_byte absent = 0xff
hit_byte fault = 0xff

abbrev prev_byte : PortRead → ℕ
prev_byte (value p) = p % 2 ^ 8
prev_byte absent = 0
prev_byte fault = 0

unfoldable pub read_byte : ℕ → IoMmap → IoMmap × Option ℕ
read_byte addr m =
    let a = addr % 2 ^ 16 in
    if not (is_io_addr addr)
    then (m, none)
    else if a == tms9995_io_break_hit
    then (let (bank, hit) = AddrComparator.read_port 0x0033 m.comparators in
        (record m { comparators = bank }, some (hit_byte hit)))
    else if a == tms9995_io_break_prev
    then (let (bank, prev) = AddrComparator.read_port 0x0034 m.comparators in
        (record m { comparators = bank }, some (prev_byte prev)))
    else if a == tms9995_io_step_ena
    then (m, some (m.step.ena % 2))
    else if a == tms9995_io_step_delay
    then (m, some (m.step.delay % 2 ^ 8 % 2 ^ 8))
    else (m, some 0)

unfoldable pub commit_break : ℕ → IoMmap → IoMmap
commit_break addr_lo m =
    let slot = m.prog_slot % 8 in
    if ltb 3 slot
    then m
    else let ena = m.prog_ctrl / 2 ^ 3 % 2 in
      let io = m.prog_ctrl / 2 ^ 4 % 2 in
      let rdwr = m.prog_ctrl / 2 ^ 5 % 4 in
      let ctrl = encode_break_ctrl slot (not (ena == 0)) (not (io == 0)) rdwr in
      let addr16 = bit_or (m.prog_addr_hi % 2 ^ 8 * 2 ^ 8) (addr_lo % 2 ^ 8) in
      let bank₁ = (AddrComparator.write_port 0x0030 ctrl m.comparators).0 in
      let bank₂ = (AddrComparator.write_port 0x0031 addr16 bank₁).0 in
      record m { comparators = (AddrComparator.write_port 0x0032 0 bank₂).0 }

-- The four registers of the break sequence, by the phase that a write finds.
unfoldable pub write_slot : ℕ → IoMmap → IoMmap
write_slot v m = record m {
  prog_slot = v % 8;
  prog_ctrl = 0;
  prog_addr_hi = 0;
  phase = ProgPhase.slot;
}

unfoldable pub write_ctrl : ProgPhase → ℕ → IoMmap → IoMmap
write_ctrl ProgPhase.slot v m = record m { prog_ctrl = v; phase = ProgPhase.ctrl }
write_ctrl ProgPhase.ctrl v m = record m { prog_ctrl = v; phase = ProgPhase.ctrl }
write_ctrl _ v m = record m { phase = ProgPhase.idle }

unfoldable pub write_addr_hi : ProgPhase → ℕ → IoMmap → IoMmap
write_addr_hi ProgPhase.ctrl v m = record m { prog_addr_hi = v; phase = ProgPhase.addr_hi }
write_addr_hi ProgPhase.addr_hi v m = record m { prog_addr_hi = v; phase = ProgPhase.addr_hi }
write_addr_hi _ v m = record m { phase = ProgPhase.idle }

unfoldable pub write_addr_lo : ProgPhase → ℕ → IoMmap → IoMmap
write_addr_lo ProgPhase.addr_hi v m = record (commit_break v m) { phase = ProgPhase.idle }
write_addr_lo _ v m = record m { phase = ProgPhase.idle }

unfoldable pub write_byte : ℕ → ℕ → IoMmap → IoMmap × Bool
write_byte addr val m =
    let a = addr % 2 ^ 16 in
    let v = val % 2 ^ 8 in
    if not (is_io_addr addr)
    then (m, false)
    else if a == tms9995_io_break_slot
    then (write_slot v m, true)
    else if a == tms9995_io_break_ctrl
    then (write_ctrl m.phase v m, true)
    else if a == tms9995_io_break_addr_hi
    then (write_addr_hi m.phase v m, true)
    else if a == tms9995_io_break_addr_lo
    then (write_addr_lo m.phase v m, true)
    else if a == tms9995_io_step_ena
    then (record m { step = (StepBreak.write_port 0x0036 v m.step).0 }, true)
    else if a == tms9995_io_step_delay
    then (record m { step = (StepBreak.write_port 0x0037 v m.step).0 }, true)
    else (m, true)

unfoldable pub probe : AddrBusAccess → IoMmap → IoMmap × Option ℕ
probe access m =
    let (bank, hit) = AddrComparator.probe access m.comparators in
    (record m { comparators = bank }, hit)

unfoldable pub on_instruction_fetch : IoMmap → IoMmap × Bool
on_instruction_fetch m =
    let (unit, hit) = StepBreak.on_instruction_fetch m.step in (record m { step = unit }, hit)
