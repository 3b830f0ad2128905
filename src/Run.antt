-- ===== src/Run.antt =====
-- The run loop of the TMS9995 core: interrupts, the decrementer, reset, the pins and the tick of
-- retrocpu_emu_ts/src/cpuboard/tms9995/tms9995.ts.
pub mod Interrupts
pub mod Decrementer
pub mod Pins
use retro_cpu_emu.Shared.{
  ℕ, zero, suc, ◌+◌, ◌-◌, ◌%◌, ◌^◌, ◌/◌, Bool, true, false, not, ◌&&◌, ◌||◌, Option, none, some,
  ltb, leb, ◌==◌, if◌then◌else◌,
}
use retro_cpu_emu.Shared.State.{State}
use retro_cpu_emu.PinSignal
use retro_cpu_emu.PinSignal.{InputPin, OutputPin}
use retro_cpu_emu.Machine
use retro_cpu_emu.Machine.{Machine, ExecStatus, even_addr, with_mask}
use retro_cpu_emu.Context.{Context}
use retro_cpu_emu.Execute.Decode.{execute_instruction}

abbrev set_run : Bool → Machine → Machine
set_run level s = record s { pin_run = PinSignal.set_output_level s.pin_run level }

unfoldable pub service_interrupt : ℕ → ℕ → Machine → Machine
service_interrupt vector new_mask s =
    let s' = (Machine.do_blwp vector none s).1 in record s' { st = with_mask s'.st new_mask }

-- The result tells whether an interrupt was taken.
unfoldable pub handle_pending_interrupts : Machine → Machine × Bool
handle_pending_interrupts s =
    let intmask = s.st % 2 ^ 4 in
    if s.pending_irq1 && leb 1 intmask
    then (service_interrupt 0x0004 0 (record s { pending_irq1 = false }), true)
    else if s.pending_irq2 && leb 2 intmask
    then (service_interrupt 0x0008 1 (record s { pending_irq2 = false }), true)
    else if s.pending_irq3 && leb 3 intmask
    then (service_interrupt 0x000c 2 (record s { pending_irq3 = false }), true)
    else (s, false)

-- One round of the decrementer's loop.
unfoldable pub decrement : Machine → Machine
decrement s =
    let (v, s₁) =
      Machine.read_word 0xfffa (record s { dec_clock_accum = s.dec_clock_accum - 3000 }) in
    if v == 0
    then (Machine.write_word 0xfffa 0xffff (record s₁ { pending_irq3 = true })).1
    else (Machine.write_word 0xfffa ((v + 2 ^ 16 - 1) % 2 ^ 16) s₁).1

unfoldable pub decrement_loop : ℕ → Machine → Machine
decrement_loop zero s = s
decrement_loop (suc fuel) s = elim (leb 3000 s.dec_clock_accum) [
  | false ↦ s
  | true ↦ decrement_loop fuel (decrement s)
]

unfoldable pub tick_decrementer : Machine → Machine
tick_decrementer s =
    if not s.ports.dec_enabled
    then s
    else let accum = s.dec_clock_accum + 12 in
      decrement_loop (accum / 3000) (record s { dec_clock_accum = accum })

-- `clearDeferred(p); p[1] = p[0];`
abbrev settle : InputPin → InputPin
settle pin = PinSignal.commit_sample (PinSignal.clear_deferred pin)

-- The variables that `powerOnIdle` and `reset` both put back.
abbrev pub restart : Machine → Machine
restart s = record s {
  pc = 0;
  wp = 0;
  st = 0;
  idle = false;
  pending_irq1 = false;
  pending_irq2 = false;
  pending_irq3 = false;
  ports = record (s.ports) { dec_enabled = false };
  dec_clock_accum = 0;
  pin_rst = settle s.pin_rst;
  pin_hlt = settle s.pin_hlt;
  pin_irq1 = settle s.pin_irq1;
  pin_irq2 = settle s.pin_irq2;
  pin_nmi = settle s.pin_nmi;
}

unfoldable pub power_on_idle : Machine → Machine
power_on_idle s = record (restart s) {
  exec_status = ExecStatus.idle;
  clock_count = 0;
  pin_run = record { now = false; last = false };
}

unfoldable pub reset : Machine → Machine
reset s =
    let (wp, s₁) = Machine.read_word 0 (restart s) in
    let (pc, s₂) = Machine.read_word 2 (record s₁ { wp = even_addr wp }) in
    set_run true
      (record s₂ { pc = even_addr pc; clock_count = 0; exec_status = ExecStatus.running })

-- `risingEdge(pin) || takeDeferred(pin)`: the deferred request is left when the edge is there.
abbrev request : InputPin → InputPin × Bool
request pin = if PinSignal.rising_edge pin then (pin, true) else PinSignal.take_deferred pin

abbrev level_or_deferred : InputPin → InputPin × Bool
level_or_deferred pin = if pin.now then (pin, true) else PinSignal.take_deferred pin

abbrev pub is_running : ExecStatus → Bool
is_running ExecStatus.idle = false
is_running ExecStatus.running = true
is_running ExecStatus.step = false
is_running ExecStatus.break = false
is_running ExecStatus.halted = false

-- `if (_execStatus === "running") { … "halted" … }`, as `requestHalt` and the HLT pin have it.
unfoldable pub request_halt : Machine → Machine
request_halt s =
    if is_running s.exec_status
    then set_run false (record s { exec_status = ExecStatus.halted })
    else s

unfoldable pub sample_rst : Machine → Machine
sample_rst s =
    let (pin, hit) = request s.pin_rst in
    let s' = record s { pin_rst = pin } in if hit then reset s' else s'

unfoldable pub sample_hlt : Machine → Machine
sample_hlt s =
    let (pin, hit) = level_or_deferred s.pin_hlt in
    let s' = record s { pin_hlt = pin } in if hit then request_halt s' else s'

unfoldable pub sample_irqs : Machine → Machine
sample_irqs s =
    let (pin1, hit1) = request s.pin_irq1 in
    let (pin2, hit2) = request s.pin_irq2 in
    record s {
      pin_irq1 = pin1;
      pin_irq2 = pin2;
      pending_irq1 = hit1 || s.pending_irq1;
      pending_irq2 = hit2 || s.pending_irq2;
    }

unfoldable pub sample_nmi : Machine → Machine
sample_nmi s =
    let (pin, hit) = request s.pin_nmi in
    let s' = record s { pin_nmi = pin } in if hit then service_interrupt 0xfffc 0 s' else s'

unfoldable pub commit_pins : Machine → Machine
commit_pins s = record s {
  pin_rst = PinSignal.commit_sample s.pin_rst;
  pin_hlt = PinSignal.commit_sample s.pin_hlt;
  pin_irq1 = PinSignal.commit_sample s.pin_irq1;
  pin_irq2 = PinSignal.commit_sample s.pin_irq2;
  pin_nmi = PinSignal.commit_sample s.pin_nmi;
  pin_run = PinSignal.commit_output_sample s.pin_run;
}

unfoldable pub process_input_pins : Machine → Machine
process_input_pins s = commit_pins (sample_nmi (sample_irqs (sample_hlt (sample_rst s))))

-- Partial<TmsCpuPins>
pub record PinLevels : Type 0 where
  pub rst : Option Bool
  pub hlt : Option Bool
  pub irq1 : Option Bool
  pub irq2 : Option Bool
  pub nmi : Option Bool

abbrev drive : InputPin → Option Bool → InputPin
drive pin none = pin
drive pin (some level) = PinSignal.set_input_level pin level

unfoldable pub set_pins : PinLevels → Machine → Machine
set_pins pins s = process_input_pins (record s {
  pin_rst = drive s.pin_rst pins.rst;
  pin_hlt = drive s.pin_hlt pins.hlt;
  pin_irq1 = drive s.pin_irq1 pins.irq1;
  pin_irq2 = drive s.pin_irq2 pins.irq2;
  pin_nmi = drive s.pin_nmi pins.nmi;
})

unfoldable pub trigger_interrupt : ℕ → Machine → Machine
trigger_interrupt level s =
    if level == 1
    then record s { pending_irq1 = true }
    else if level == 2
    then record s { pending_irq2 = true }
    else s

unfoldable pub start_run : Machine → Machine
start_run s =
    if s.pin_hlt.now
    then s
    else set_run true (record s { idle = false; exec_status = ExecStatus.running })

abbrev add_cycles : Machine → Machine
add_cycles s = record s { clock_count = s.clock_count + 12 }

-- The context that `executeOne` builds after the fetch.
unfoldable pub make_context : Machine → Context
make_context s = record { pc = s.pc; wp = s.wp; st = s.st; idle = s.idle; core = s }

-- The context's registers copied to the core: the PC only when the instruction changed it.
unfoldable pub write_back : ℕ → Context → Machine
write_back pc_after_opcode c = record (c.core) {
  pc = if c.pc == pc_after_opcode then c.core.pc else c.pc;
  wp = c.wp;
  st = c.st;
  idle = c.idle;
}

abbrev is_break : ExecStatus → Bool
is_break ExecStatus.idle = false
is_break ExecStatus.running = false
is_break ExecStatus.step = false
is_break ExecStatus.break = true
is_break ExecStatus.halted = false

unfoldable pub after_instruction : Machine → Machine
after_instruction s =
    if s.idle
    then set_run false (record s { exec_status = ExecStatus.halted })
    else if is_break s.exec_status
    then set_run false s
    else (handle_pending_interrupts s).0

abbrev finish : ℕ → Option Context → Option Machine
finish pc_after_opcode none = none
finish pc_after_opcode (some c) =
    some (after_instruction (tick_decrementer (add_cycles (write_back pc_after_opcode c))))

unfoldable pub run_instruction : ℕ → Machine → Option Machine
run_instruction fuel s =
    let (ir, s₁) = Machine.fetch_word s in
    finish s₁.pc (execute_instruction fuel ir (make_context s₁))

-- `executeOne`; `none` means that the nesting of X passed the fuel.
unfoldable pub execute_one : ℕ → Machine → Option Machine
execute_one fuel s =
    let (s₁, taken) = handle_pending_interrupts s in
    if taken
    then some (add_cycles s₁)
    else if s₁.idle
    then (let (s₂, late) = handle_pending_interrupts s₁ in
        some (if late then add_cycles s₂ else s₂))
    else run_instruction fuel s₁

abbrev resume : Machine → Machine
resume s = set_run true (record s { exec_status = ExecStatus.running })

-- The part of `tickCpu` after the pins and the HLT test, by the execution status.
unfoldable pub run_status : ExecStatus → ℕ → Machine → Option Machine
run_status ExecStatus.idle fuel s = some s
run_status ExecStatus.running fuel s = execute_one fuel s
run_status ExecStatus.halted fuel s =
    if s.idle
    then execute_one fuel (resume s)
    else let (s', taken) = handle_pending_interrupts s in
      if taken then execute_one fuel (resume s') else some s'
run_status ExecStatus.break fuel s =
    let (s', taken) = handle_pending_interrupts s in
    if taken then execute_one fuel (resume s') else some s'
run_status ExecStatus.step fuel s =
    let (s', taken) = handle_pending_interrupts s in
    if taken then execute_one fuel (resume s') else some s'

unfoldable pub tick_cpu : ℕ → Machine → Option Machine
tick_cpu fuel s =
    let s₁ = process_input_pins s in
    if s₁.pin_hlt.now then some s₁ else run_status s₁.exec_status fuel s₁
