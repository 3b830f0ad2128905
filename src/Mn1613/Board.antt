-- ===== src/Mn1613/Board.antt =====
-- What the MN1613 core reads and writes outside its registers: the memory, the IO ports with the
-- callbacks that io_ports.ts attaches, the comparators, the step unit, the clock and the pending
-- interrupts. retrocpu_emu_ts/src/cpuboard/mn1613/mn1613.ts and
-- retrocpu_emu_ts/src/cpuboard/io_ports.ts. The memory is a function from physical word addresses,
-- with the length of its buffer in bytes.
use retro_cpu_emu.Shared.{
  ℕ, ◌+◌, ◌*◌, ◌%◌, ◌^◌, bit_or, Bool, true, false, ◌&&◌, ◌||◌, Option, none, some, List, [], ◌∷◌,
  ltb, leb, ◌==◌, if◌then◌else◌,
}
use retro_cpu_emu.Shared.State.{State}
use retro_cpu_emu.PinSignal
use retro_cpu_emu.PinSignal.{OutputPin}
use retro_cpu_emu.AddrComparator
use retro_cpu_emu.AddrComparator.{AddrComparatorBank, AddrBusAccess, PortRead, value, absent, fault}
use retro_cpu_emu.StepBreak
use retro_cpu_emu.StepBreak.{StepBreakUnit}
use retro_cpu_emu.IoPorts.{Ports, on_hit, raise_addr_break_irq, raise_step_break_irq}
use retro_cpu_emu.Machine.{store}
use retro_cpu_emu.Mn1613.Bridge

pub record Board : Type 0 where
  pub memory : ℕ → ℕ
  pub byte_length : ℕ
  pub clock_count : ℕ
  pub pending_irq : ℕ
  pub bank : AddrComparatorBank
  pub step_unit : StepBreakUnit
  pub ports : Ports
  pub reset_vector : ℕ
  pub io_last_write : ℕ → Option ℕ
  pub pin_iop : OutputPin
  pub pin_bsrq : OutputPin
  pub pin_wrt : OutputPin

abbrev pub cpu_clk_per_access : ℕ
cpu_clk_per_access = 4

unfoldable pub add_clocks : ℕ → Board → Board
add_clocks n b = if leb n 0 then b else record b { clock_count = (b.clock_count + n) % 2 ^ 64 }

-- `triggerInterrupt`
unfoldable pub trigger_interrupt : ℕ → Board → Board
trigger_interrupt level b = record b { pending_irq = bit_or b.pending_irq (2 ^ level) }

-- The calls of `triggerInterrupt` that a handler of io_ports.ts made reach this core.
unfoldable pub deliver : List ℕ → Board → Board
deliver [] b = record b { ports = record (b.ports) { irq_calls = [] } }
deliver (level ∷ levels) b = deliver levels (trigger_interrupt level b)

-- `addrComparators.probe`, with its callback.
unfoldable pub probe : AddrBusAccess → Board → Board
probe access b =
    let (bank, hit) = AddrComparator.probe access b.bank in
    let p = on_hit raise_addr_break_irq b.ports.attached hit b.ports in
    deliver p.irq_calls (record b { bank = bank; ports = p })

-- `stepBreak.onInstructionFetch`, with its callback.
unfoldable pub on_instruction_fetch : Board → Board
on_instruction_fetch b =
    let (u, hit) = StepBreak.on_instruction_fetch b.step_unit in
    let p = if hit && b.ports.attached then raise_step_break_irq b.ports else b.ports in
    deliver p.irq_calls (record b { step_unit = u; ports = p })

unfoldable pub phys : ℕ → ℕ → ℕ
phys log_addr seg = (seg % 2 ^ 4 * 2 ^ 14 + log_addr % 2 ^ 16) % 2 ^ 18

-- The word at a physical address; 0xffff past the end of the buffer.
unfoldable pub word_at : ℕ → Board → ℕ
word_at p b = if leb b.byte_length (p * 2 + 1) then 0xffff else b.memory p % 2 ^ 16

unfoldable pub peek_word : ℕ → Board → ℕ
peek_word log_addr b = word_at (phys (log_addr % 2 ^ 16) 0) b

abbrev access : ℕ → Bool → Bool → ℕ → AddrBusAccess
access a io write prev = record { addr = a; io = io; write = write; prev = prev }

unfoldable pub rd_phys : ℕ → State Board ℕ
rd_phys p b =
    let a = p % 2 ^ 18 in
    (word_at a b, probe (access a false false 0) (add_clocks cpu_clk_per_access b))

-- `setUint16`, where the buffer has the word.
unfoldable pub set_word : ℕ → ℕ → Board → Board
set_word p v b =
    if ltb (p * 2 + 1) b.byte_length then record b { memory = store b.memory p v } else b

unfoldable pub wr_phys : ℕ → ℕ → State Board (Unit {0})
wr_phys p v b =
    let a = p % 2 ^ 18 in
    let prev = word_at a b in
    (
      tt,
      probe (access a false true prev) (set_word a (v % 2 ^ 16) (add_clocks cpu_clk_per_access b)),
    )

abbrev io_port_reset_vector : ℕ
io_port_reset_vector = 0

abbrev is_bridge_port : ℕ → Bool
is_bridge_port p = leb 0x20 p && leb p 0x25

-- A read that no device on the board answers.
unfoldable pub bridge_read : ℕ → Ports → ℕ
bridge_read p ports = elim (ports.bus) [
  | some bus ↦ if is_bridge_port p then Bridge.read p bus else 0
  | none ↦
      if p == Bridge.interrupt_busy
      then ports.interrupt_busy
      else if p == Bridge.int_cause
      then ports.int_cause
      else 0
]

-- After `addrComparators.readPort` has answered.
unfoldable pub io_read_rest : ℕ → PortRead → Board → Option ℕ
io_read_rest p (value v) b = some v
io_read_rest p fault b = none
io_read_rest p absent b = elim (StepBreak.read_port p b.step_unit) [
  | some v ↦ some v
  | none ↦ some (bridge_read p b.ports)
]

-- The callback of RD; `none` is a TypeError that leaves it. Without `attachIoBoardPorts` a port
-- reads as 0xffff.
unfoldable pub io_read : ℕ → State Board (Option ℕ)
io_read port b =
    let p = port % 2 ^ 16 in
    if b.ports.attached
    then if p == io_port_reset_vector
      then (some (b.reset_vector % 2 ^ 16), b)
      else (let (bank, v) = AddrComparator.read_port p b.bank in
          (io_read_rest p v b, record b { bank = bank }))
    else (some 0xffff, b)

-- A write that no device on the board takes.
unfoldable pub bridge_write : ℕ → ℕ → Ports → Ports
bridge_write p v ports = elim (ports.bus) [
  | some bus ↦ record ports { bus = some (Bridge.write p v bus) }
  | none ↦ if p == Bridge.interrupt_busy then record ports { interrupt_busy = v % 2 } else ports
]

-- The callback of WT.
unfoldable pub io_write : ℕ → ℕ → Board → Board
io_write port v b =
    let p = port % 2 ^ 16 in
    if b.ports.attached
    then if p == io_port_reset_vector
      then record b { reset_vector = v % 2 ^ 16 }
      else if leb 0x30 p && leb p 0x34
      then record b { bank = (AddrComparator.write_port p v b.bank).0 }
      else if p == 0x36 || p == 0x37
      then record b { step_unit = (StepBreak.write_port p v b.step_unit).0 }
      else record b { ports = bridge_write p v b.ports }
    else b

abbrev set_io_pins : Bool → Bool → Board → Board
set_io_pins iop wrt b = record b {
  pin_iop = PinSignal.set_output_level b.pin_iop iop;
  pin_wrt = PinSignal.set_output_level b.pin_wrt wrt;
}

-- The comparators are told only when the callback returned.
unfoldable pub after_io_read : ℕ → Option ℕ → Board → Board
after_io_read port none b = b
after_io_read port (some v) b = probe (access (port % 2 ^ 16) true false 0) b

unfoldable pub do_io_read : ℕ → State Board (Option ℕ)
do_io_read port b =
    let (v, b₁) = io_read port (add_clocks cpu_clk_per_access (set_io_pins true false b)) in
    (v, after_io_read port v b₁)

abbrev or_zero : Option ℕ → ℕ
or_zero none = 0
or_zero (some v) = v

abbrev remember : (ℕ → Option ℕ) → ℕ → ℕ → ℕ → Option ℕ
remember m p v q = if q == p then some v else m q

unfoldable pub do_io_write : ℕ → ℕ → State Board (Unit {0})
do_io_write port val b =
    let p = port % 2 ^ 16 in
    let after = val % 2 ^ 16 in
    let prev = or_zero (b.io_last_write p) in
    let b₁ = io_write p after (add_clocks cpu_clk_per_access (set_io_pins true true b)) in
    (
      tt,
      probe (access p true true prev)
          (record b₁ { io_last_write = remember b₁.io_last_write p after }),
    )
