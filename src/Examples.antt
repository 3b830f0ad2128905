-- ===== src/Examples.antt =====
-- The theorems at concrete inputs, and runs of the model: a machine with a small program, a bank with
-- a comparator set.
mod Units
mod Cpu
mod Mn
mod Io
mod Frames
mod Debugger
mod Text
use retro_cpu_emu.Shared.{
  ℕ, ◌+◌, ◌*◌, ◌/◌, ◌%◌, ◌^◌, Bool, true, false, none, some, [], ◌∷◌, ◌==◌, if◌then◌else◌,
}
use retro_cpu_emu.PinSignal.{InputPin, OutputPin, create_input_pin, create_output_pin}
use retro_cpu_emu.AddrComparator.{AddrComparatorBank, AddrBusAccess}
use retro_cpu_emu.Cru
use retro_cpu_emu.IoMmap
use retro_cpu_emu.IoPorts.{Bus, Ports, PortMode}
use retro_cpu_emu.Machine.{Machine, ExecStatus}
use retro_cpu_emu.Context.{Context}

abbrev pub board_ports : Ports
board_ports = record {
  bus = none;
  int_cause = 0;
  interrupt_busy = 0;
  mode = PortMode.tms9995;
  cru = Cru.new false;
  mmap = IoMmap.reset;
  attached = true;
  dec_enabled = true;
  irq_calls = [];
}

abbrev pub low_pin : InputPin
low_pin = record { now = false; last = false; deferred = false }

abbrev high_pin : InputPin
high_pin = record { now = true; last = false; deferred = false }

-- A running core with its workspace at 8000, interrupts 1 and 3 pending under mask 3, and RST and HLT
-- both raised.
abbrev pub some_machine : Machine
some_machine = record {
  memory = λ a. if a == 0x0041 then 0x80 else if a == 0x0040 then 0x82 else a % 251;
  pc = 0x0100;
  wp = 0x8000;
  st = 0xf003;
  idle = false;
  exec_status = ExecStatus.running;
  clock_count = 0;
  pending_irq1 = true;
  pending_irq2 = false;
  pending_irq3 = true;
  dec_clock_accum = 2995;
  pin_rst = high_pin;
  pin_hlt = high_pin;
  pin_irq1 = low_pin;
  pin_irq2 = low_pin;
  pin_nmi = low_pin;
  pin_run = record { now = true; last = true };
  ports = board_ports;
}

abbrev pub some_context : Context
some_context = record { pc = 0x0102; wp = 0x8000; st = 0xf003; idle = false; core = some_machine }

-- Comparator 1 watches writes of the byte 1234, and comparators 2 and 3 the reads and the writes of it.
abbrev pub some_bank : AddrComparatorBank
some_bank = record {
  slots =
      record { enabled = false; io = false; rdwr = 3; addr = 0x1234 }
      ∷ record { enabled = true; io = false; rdwr = 2; addr = 0x1234 }
      ∷ record { enabled = true; io = false; rdwr = 3; addr = 0x1234 }
      ∷ record { enabled = true; io = false; rdwr = 3; addr = 0x1234 }
      ∷ [];
  ctrl_latch = 0;
  addr_lo_latch = 0;
  addr_hi_latch = 0;
  last_hit = 0xffff;
  prev_write = 0 ∷ 0 ∷ 0 ∷ 0 ∷ [];
  prev_latch = 0;
}

abbrev pub a_write : AddrBusAccess
a_write = record { addr = 0x1234; io = false; write = true; prev = 0x56 }

abbrev pub a_bus : Bus
a_bus = record {
  interrupt_busy = 1;
  int_cause = 1;
  hshk_out_req = 1;
  hshk_out_dena = 0;
  hshk_in_dack = 1;
  hshk_in_req = 0;
  hshk_in_dena = 1;
  hshk_out_dack = 0;
  hshk_out_data = 0x1a5;
  hshk_in_data = 0x5a;
}
