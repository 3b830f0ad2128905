-- ===== src/Mn1613/Run.antt =====
-- The run loop of the MN1613 core: reset, the pins, the tick, the step and the batches of `run`.
-- retrocpu_emu_ts/src/cpuboard/mn1613/mn1613.ts. The callback of a stop, which tells the host of
-- the state it can read, is left out.
use retro_cpu_emu.Shared.{
  ℕ, zero, suc, ◌+◌, ◌%◌, ◌^◌, Bool, true, false, not, ◌&&◌, ◌||◌, Option, none, some, ltb, leb,
  ◌==◌, if◌then◌else◌,
}
use retro_cpu_emu.PinSignal
use retro_cpu_emu.PinSignal.{InputPin, OutputPin}
use retro_cpu_emu.Machine.{ExecStatus, idle, running, step, break, halted}
use retro_cpu_emu.Mn1613.Register.{initial_register}
use retro_cpu_emu.Mn1613.Board.{Board, io_read, peek_word, trigger_interrupt}
use retro_cpu_emu.Mn1613.Core.{Cpu, has_acceptable_irq}
use retro_cpu_emu.Mn1613.Float.{JsNumber}
use retro_cpu_emu.Mn1613.Execute.{execute_one}

-- `clearDeferred(p); p[1] = p[0];`
abbrev settle : InputPin → InputPin
settle pin = PinSignal.commit_sample (PinSignal.clear_deferred pin)

abbrev low : OutputPin
low = record { now = false; last = false }

-- The variables of the board that `powerOnIdle` and `reset` both put back.
abbrev restart_board : Board → Board
restart_board b = record b {
  pending_irq = 0;
  io_last_write = λ p. none;
  pin_iop = low;
  pin_bsrq = low;
  pin_wrt = low;
}

abbrev restart : Cpu → Cpu
restart s = record s {
  reg = initial_register;
  step_mode = false;
  board = restart_board s.board;
  pin_rst = settle s.pin_rst;
  pin_hlt = settle s.pin_hlt;
  pin_irq0 = settle s.pin_irq0;
  pin_irq1 = settle s.pin_irq1;
  pin_irq2 = settle s.pin_irq2;
  pin_bsav = settle s.pin_bsav;
  pin_strt = settle s.pin_strt;
}

unfoldable pub power_on_idle : Cpu → Cpu
power_on_idle s =
    let s₁ = restart s in
    record s₁ { exec_status = idle; board = record (s₁.board) { clock_count = 0 } }

abbrev or_zero : Option ℕ → ℕ
or_zero none = 0
or_zero (some v) = v

-- The port 0 is the reset vector, or 0xffff; neither throws.
unfoldable pub reset : Cpu → Cpu
reset s =
    let s₁ = restart s in
    let (v, b) = io_read 0 s₁.board in
    let vec = or_zero v % 2 ^ 16 in
    record s₁ {
      reg = record initial_register { str = peek_word (vec + 2) b; ic = peek_word (vec + 3) b };
      board = record b { clock_count = 0 };
      exec_status = running;
    }

abbrev pub is_running : ExecStatus → Bool
is_running running = true
is_running idle = false
is_running step = false
is_running break = false
is_running halted = false

abbrev is_idle : ExecStatus → Bool
is_idle idle = true
is_idle running = false
is_idle step = false
is_idle break = false
is_idle halted = false

abbrev pub is_halted : ExecStatus → Bool
is_halted halted = true
is_halted idle = false
is_halted running = false
is_halted step = false
is_halted break = false

abbrev is_stopped : ExecStatus → Bool
is_stopped break = true
is_stopped step = true
is_stopped idle = false
is_stopped running = false
is_stopped halted = false

unfoldable pub request_halt : Cpu → Cpu
request_halt s = if is_running s.exec_status then record s { exec_status = halted } else s

unfoldable pub halt : Cpu → Cpu
halt s = record s { exec_status = halted }

-- `risingEdge(pin) || takeDeferred(pin)`
abbrev request : InputPin → InputPin × Bool
request pin = if PinSignal.rising_edge pin then (pin, true) else PinSignal.take_deferred pin

abbrev level_or_deferred : InputPin → InputPin × Bool
level_or_deferred pin = if pin.now then (pin, true) else PinSignal.take_deferred pin

unfoldable pub sample_rst : Cpu → Cpu
sample_rst s =
    let (pin, hit) = request s.pin_rst in
    let s₁ = record s { pin_rst = pin } in if hit then reset s₁ else s₁

unfoldable pub sample_hlt : Cpu → Cpu
sample_hlt s =
    let (pin, hit) = level_or_deferred s.pin_hlt in
    let s₁ = record s { pin_hlt = pin } in if hit then request_halt s₁ else s₁

abbrev pend : ℕ → Bool → Cpu → Cpu
pend level hit s = if hit then record s { board = trigger_interrupt level s.board } else s

unfoldable pub sample_irq : Cpu → Cpu
sample_irq s =
    let (p0, hit0) = request s.pin_irq0 in
    let s₀ = pend 0 hit0 (record s { pin_irq0 = p0 }) in
    let (p1, hit1) = request s₀.pin_irq1 in
    let s₁ = pend 1 hit1 (record s₀ { pin_irq1 = p1 }) in
    let (p2, hit2) = request s₁.pin_irq2 in pend 2 hit2 (record s₁ { pin_irq2 = p2 })

unfoldable pub commit_samples : Cpu → Cpu
commit_samples s = record s {
  pin_rst = PinSignal.commit_sample s.pin_rst;
  pin_hlt = PinSignal.commit_sample s.pin_hlt;
  pin_irq0 = PinSignal.commit_sample s.pin_irq0;
  pin_irq1 = PinSignal.commit_sample s.pin_irq1;
  pin_irq2 = PinSignal.commit_sample s.pin_irq2;
  pin_bsav = PinSignal.commit_sample s.pin_bsav;
  pin_strt = PinSignal.commit_sample s.pin_strt;
  board = record (s.board) {
    pin_iop = PinSignal.commit_output_sample s.board.pin_iop;
    pin_bsrq = PinSignal.commit_output_sample s.board.pin_bsrq;
    pin_wrt = PinSignal.commit_output_sample s.board.pin_wrt;
  };
}

unfoldable pub process_input_pins : Cpu → Cpu
process_input_pins s = commit_samples (sample_irq (sample_hlt (sample_rst s)))

-- The levels given to `setPins`; a pin that is not there is `none`.
pub record PinLevels : Type 0 where
  pub rst : Option Bool
  pub hlt : Option Bool
  pub irq0 : Option Bool
  pub irq1 : Option Bool
  pub irq2 : Option Bool
  pub bsav : Option Bool
  pub strt : Option Bool

abbrev drive : Option Bool → InputPin → InputPin
drive none pin = pin
drive (some level) pin = PinSignal.set_input_level pin level

unfoldable pub set_pins : PinLevels → Cpu → Cpu
set_pins pins s = process_input_pins (record s {
  pin_rst = drive pins.rst s.pin_rst;
  pin_hlt = drive pins.hlt s.pin_hlt;
  pin_irq0 = drive pins.irq0 s.pin_irq0;
  pin_irq1 = drive pins.irq1 s.pin_irq1;
  pin_irq2 = drive pins.irq2 s.pin_irq2;
  pin_bsav = drive pins.bsav s.pin_bsav;
  pin_strt = drive pins.strt s.pin_strt;
})

unfoldable pub start_run : Cpu → Cpu
start_run s = if s.pin_hlt.now then s else record s { step_mode = false; exec_status = running }

unfoldable pub set_step_mode : Bool → Cpu → Cpu
set_step_mode enable s =
    let s₁ = record s { step_mode = enable } in
    if enable && is_running s.exec_status then record s₁ { exec_status = step } else s₁

-- The set of breakpoints, as its test.
unfoldable pub add_breakpoint : ℕ → Cpu → Cpu
add_breakpoint addr s = record s { breakpoints = λ a. a == addr % 2 ^ 16 || s.breakpoints a }

unfoldable pub remove_breakpoint : ℕ → Cpu → Cpu
remove_breakpoint addr s = record s {
  breakpoints = λ a. not (a == addr % 2 ^ 16) && s.breakpoints a;
}

unfoldable pub clear_breakpoints : Cpu → Cpu
clear_breakpoints s = record s { breakpoints = λ a. false }

-- `setOutputLevel(_pinIOP, false); setOutputLevel(_pinWRT, false);`
abbrev pub drop_io_pins : Cpu → Cpu
drop_io_pins s = record s {
  board = record (s.board) {
    pin_iop = PinSignal.set_output_level s.board.pin_iop false;
    pin_wrt = PinSignal.set_output_level s.board.pin_wrt false;
  };
}

-- A `run` under way: its promise is open, resolved with a state, or left by an exception.
pub data Progress : Type 0 where
  continuing : ℕ → Progress
  resolved : ExecStatus → Progress
  thrown : Progress

abbrev pub stop : ExecStatus → Cpu → Cpu × Progress
stop e s = (record s { exec_status = e }, resolved e)

-- An exception leaves `step` before it stops.
unfoldable pub after_step : Cpu → Cpu
after_step s = if s.threw || is_halted s.exec_status then s else record s { exec_status = step }

-- After the instruction: `cycles` are those counted before it.
unfoldable pub after_execute : ℕ → ℕ → Cpu → Cpu × Progress
after_execute max_cycles cycles s =
    if s.threw
    then (s, thrown)
    else if is_halted s.exec_status
    then (s, resolved s.exec_status)
    else if ltb 0 max_cycles
    then (if leb max_cycles (cycles + 1) then stop break s else (s, continuing (cycles + 1)))
    else (s, continuing cycles)

abbrev pub batch : ℕ
batch = 1000

module _ (js : JsNumber) where
  abbrev pub execute : Cpu → Cpu
  execute s = (execute_one js (record (drop_io_pins s) { threw = false })).1

  -- The tick's tests after the halted state.
  unfoldable pub tick_running : Cpu → Cpu
  tick_running s =
      if is_stopped s.exec_status
      then s
      else if s.breakpoints s.reg.ic
      then record s { exec_status = break }
      else execute s

  unfoldable pub tick_awake : Cpu → Cpu
  tick_awake s =
      if is_halted s.exec_status
      then if has_acceptable_irq s then tick_running (record s { exec_status = running }) else s
      else tick_running s

  unfoldable pub tick_cpu : Cpu → Cpu
  tick_cpu s =
      let s₁ = process_input_pins s in
      if s₁.pin_hlt.now || is_idle s₁.exec_status then s₁ else tick_awake s₁

  unfoldable pub step_awake : Cpu → Cpu
  step_awake s = after_step (execute (record s { step_mode = false; exec_status = running }))

  unfoldable pub step_one : Cpu → Cpu
  step_one s =
      if s.pin_hlt.now
      then s
      else if is_halted s.exec_status && not (has_acceptable_irq s)
      then s
      else step_awake s

  -- One round of the loop of `tick`.
  unfoldable pub run_one : ℕ → ℕ → Cpu → Cpu × Progress
  run_one max_cycles cycles s =
      if s.pin_hlt.now
      then stop halted s
      else if s.breakpoints s.reg.ic
      then stop break s
      else if s.step_mode
      then stop step s
      else after_execute max_cycles cycles (execute s)

  -- `for (let i = 0; i < BATCH; i++)`, until the promise is settled.
  unfoldable pub run_rounds : ℕ → ℕ → Progress → Cpu → Cpu × Progress
  run_rounds zero max_cycles p s = (s, p)
  run_rounds (suc n) max_cycles (resolved e) s = (s, resolved e)
  run_rounds (suc n) max_cycles thrown s = (s, thrown)
  run_rounds (suc n) max_cycles (continuing cycles) s =
      let (s₁, p) = run_one max_cycles cycles s in run_rounds n max_cycles p s₁

  -- One call of `tick`; the next follows while the promise is open.
  unfoldable pub run_batch : ℕ → ℕ → Cpu → Cpu × Progress
  run_batch max_cycles cycles s = run_rounds batch max_cycles (continuing cycles) s

-- What `run` does before its first `tick`.
unfoldable pub start : ℕ → Cpu → Cpu
start start_addr s = record s {
  reg = record (s.reg) { ic = start_addr % 2 ^ 16 };
  exec_status = running;
  step_mode = false;
}
