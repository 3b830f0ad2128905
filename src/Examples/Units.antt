-- ===== src/Examples/Units.antt =====
-- The units around the core at concrete inputs.
use retro_cpu_emu.Shared.{◌≡◌, refl, arith, true, false, some, inr}
use retro_cpu_emu.AddrComparator.{probe}
use retro_cpu_emu.AddrComparator.Hits.{FirstMatch, IsValid, probe-FirstMatch}
use retro_cpu_emu.AddrComparator.Ports.{OnlySlot}
use retro_cpu_emu.IoMmap.{IoMmap, ProgPhase}
use retro_cpu_emu.IoMmap.Protocol.{programmed, sequence, sequence-OnlySlot}
use retro_cpu_emu.StepBreak.OneShot.{fetches, arm, fetches-arm}
use retro_cpu_emu.Cru
use retro_cpu_emu.Cru.{Cru, Actor}
use retro_cpu_emu.Cru.Laws.{pass, pass-delivers}
use retro_cpu_emu.IoPorts.{bus_to_cru, cru_to_bus}
use retro_cpu_emu.IoPorts.BusSync.{cru_to_bus-bus_to_cru}
use retro_cpu_emu.Examples.{some_bank, a_write, a_bus}

bank-IsValid : IsValid some_bank
bank-IsValid = record {
  four_slots = refl;
  four_prevs = refl;
  hit_known = inr refl;
  slots_fit = (
    omega arith,
    omega arith,
    (omega arith, omega arith, (omega arith, omega arith, (omega arith, omega arith, tt))),
  );
}

probe-FirstMatch_example : FirstMatch 0 some_bank.slots a_write (probe a_write some_bank).1
probe-FirstMatch_example = probe-FirstMatch a_write some_bank

abbrev some_mmap : IoMmap
some_mmap = record {
  comparators = some_bank;
  step = record { ena = 0; delay = 1; remaining = 0; skip_first_fetch = false };
  phase = ProgPhase.ctrl;
  prog_slot = 3;
  prog_ctrl = 0x28;
  prog_addr_hi = 0;
}

sequence-OnlySlot_example :
    OnlySlot 2
      (programmed 0x28 0xbe 0xef)
      some_bank
      (sequence 2 0x28 0xbe 0xef some_mmap).comparators
sequence-OnlySlot_example =
    sequence-OnlySlot 2 0x28 0xbe 0xef some_mmap (omega arith) (omega arith) (omega arith)
      (omega arith) bank-IsValid

fetches-arm_example :
    ((fetches 3 (arm 1 some_mmap.step)).1 ≡ 1) × ((fetches 3 (arm 1 some_mmap.step)).0.ena ≡ 0)
fetches-arm_example = fetches-arm 3 1 some_mmap.step (omega arith)

pass-delivers_example : pass Actor.cpu 0x20 1 (Cru.new true) ≡ some 1
unfolding Cru.new Cru.can_write
pass-delivers_example = pass-delivers Actor.cpu 0x20 1 (Cru.new true) (omega arith)

cru_to_bus-bus_to_cru_example :
    cru_to_bus (bus_to_cru a_bus (record (Cru.new true) { strict_roles = false }))
    ≡ record a_bus { int_cause = 2; hshk_out_data = 0xa5 }
cru_to_bus-bus_to_cru_example = cru_to_bus-bus_to_cru a_bus (Cru.new true)
