-- ===== src/Mn1613/Width/Reached.antt =====
-- The states that the calls of mn1613.ts reach: the pins, the ticks, the steps and the batches of a
-- run, the resets and the writes of the debugger.
use retro_cpu_emu.Shared.{ℕ, zero, suc, ◌≡◌, subst, sym, arith, Bool, true, false, if◌then◌else◌}
use retro_cpu_emu.Machine.{ExecStatus, running, step, break, halted}
use retro_cpu_emu.Mn1613.Register.{PartialRegister, set_state, initial_register}
use retro_cpu_emu.Mn1613.Board.{Board, peek_word}
use retro_cpu_emu.Mn1613.Core.{Cpu}
use retro_cpu_emu.Mn1613.Float.{JsNumber}
use retro_cpu_emu.Mn1613.Run
use retro_cpu_emu.Mn1613.Run.{
  PinLevels, Progress, continuing, resolved, thrown, power_on_idle, reset, request_halt, halt,
  sample_rst, sample_hlt, sample_irq, commit_samples, process_input_pins, set_pins, start_run,
  set_step_mode, tick_running, tick_awake, tick_cpu, after_step, step_awake, step_one,
  after_execute, run_one, run_rounds, run_batch, start,
}
use retro_cpu_emu.Mn1613.Memory.{word_at-lt}
use retro_cpu_emu.Mn1613.Width.Fields.{
  IsValid, Word, set_ic-IsValid, set_str-IsValid, set_state-IsValid,
}
use retro_cpu_emu.Mn1613.Width.Whole.{execute_one-IsValid}

-- The registers of the state are valid.
pub record HasWidths (s : Cpu) : Type 0 where
  pub valid : IsValid s.reg

if-HasWidths : (t : Bool) (x y : Cpu) → HasWidths x → HasWidths y → HasWidths (if t then x else y)
if-HasWidths true x y hx hy = hx
if-HasWidths false x y hx hy = hy

status-HasWidths :
    (e : ExecStatus) (s : Cpu) → HasWidths s → HasWidths (record s { exec_status = e })
status-HasWidths e s h = record { valid = h.valid }

initial-IsValid : IsValid initial_register
initial-IsValid = ground arith

power_on_idle-HasWidths : (s : Cpu) → HasWidths (power_on_idle s)
unfolding power_on_idle
power_on_idle-HasWidths s = record { valid = initial-IsValid }

peek_word-Word : (a : ℕ) (b : Board) → Word (peek_word a b)
unfolding peek_word
peek_word-Word a b = word_at-lt _ b

reset-HasWidths : (s : Cpu) → HasWidths (reset s)
unfolding reset
reset-HasWidths s = record {
  valid =
      set_ic-IsValid _ _ (peek_word-Word _ _)
        (set_str-IsValid _ initial_register (peek_word-Word _ _) initial-IsValid);
}

request_halt-HasWidths : (s : Cpu) → HasWidths s → HasWidths (request_halt s)
unfolding request_halt
request_halt-HasWidths s h = if-HasWidths _ _ s (record { valid = h.valid }) h

sample_rst-HasWidths : (s : Cpu) → HasWidths s → HasWidths (sample_rst s)
unfolding sample_rst
sample_rst-HasWidths s h = if-HasWidths _ _ _ (reset-HasWidths _) (record { valid = h.valid })

sample_hlt-HasWidths : (s : Cpu) → HasWidths s → HasWidths (sample_hlt s)
unfolding sample_hlt
sample_hlt-HasWidths s h =
    if-HasWidths _ _ _ (request_halt-HasWidths _ (record { valid = h.valid }))
      (record { valid = h.valid })

sample_irq-reg : (s : Cpu) → (sample_irq s).reg ≡ s.reg
unfolding sample_irq
sample_irq-reg s = ground arith

process_input_pins-HasWidths : (s : Cpu) → HasWidths s → HasWidths (process_input_pins s)
unfolding process_input_pins commit_samples
process_input_pins-HasWidths s h =
    let sampled = sample_hlt-HasWidths _ (sample_rst-HasWidths s h) in
    record { valid = subst IsValid (sym (sample_irq-reg _)) sampled.valid }

set_pins-HasWidths : (pins : PinLevels) (s : Cpu) → HasWidths s → HasWidths (set_pins pins s)
unfolding set_pins
set_pins-HasWidths pins s h = process_input_pins-HasWidths _ (record { valid = h.valid })

module _ (js : JsNumber) where
  execute-HasWidths : (s : Cpu) → HasWidths s → HasWidths (Run.execute js s)
  execute-HasWidths s h = record { valid = execute_one-IsValid js _ h.valid }

  tick_running-HasWidths : (s : Cpu) → HasWidths s → HasWidths (tick_running js s)
  unfolding tick_running
  tick_running-HasWidths s h =
      if-HasWidths _ s _ h (if-HasWidths _ _ _ (status-HasWidths break s h) (execute-HasWidths s h))

  tick_awake-HasWidths : (s : Cpu) → HasWidths s → HasWidths (tick_awake js s)
  unfolding tick_awake
  tick_awake-HasWidths s h =
      if-HasWidths _ _ _
        (if-HasWidths _ _ s (tick_running-HasWidths _ (status-HasWidths running s h)) h)
        (tick_running-HasWidths s h)

  tick_cpu-HasWidths : (s : Cpu) → HasWidths s → HasWidths (tick_cpu js s)
  unfolding tick_cpu
  tick_cpu-HasWidths s h =
      let sampled = process_input_pins-HasWidths s h in
      if-HasWidths _ _ _ sampled (tick_awake-HasWidths _ sampled)

  after_step-HasWidths : (s : Cpu) → HasWidths s → HasWidths (after_step s)
  unfolding after_step
  after_step-HasWidths s h = if-HasWidths _ s _ h (status-HasWidths step s h)

  step_one-HasWidths : (s : Cpu) → HasWidths s → HasWidths (step_one js s)
  unfolding step_one step_awake
  step_one-HasWidths s h =
      let awake = record s { step_mode = false; exec_status = running } in
      let stepped =
        after_step-HasWidths (Run.execute js awake)
          (execute-HasWidths awake (record { valid = h.valid })) in
      if-HasWidths _ s _ h (if-HasWidths _ s _ h stepped)

  -- The outcome of a round, of which the registers alone matter.
  after_execute-HasWidths : (m c : ℕ) (s : Cpu) → HasWidths s → HasWidths (after_execute m c s).0
  unfolding after_execute
  after_execute-HasWidths m c s h =
      let stopped = status-HasWidths break s h in ground (arith, h, stopped)

  run_one-HasWidths : (m c : ℕ) (s : Cpu) → HasWidths s → HasWidths (run_one js m c s).0
  unfolding run_one
  run_one-HasWidths m c s h = ground (
    arith,
    h,
    after_execute-HasWidths m c (Run.execute js s) (execute-HasWidths s h),
    status-HasWidths halted s h,
    status-HasWidths break s h,
    status-HasWidths step s h,
  )

  run_rounds-HasWidths :
      (n m : ℕ) (p : Progress) (s : Cpu) → HasWidths s → HasWidths (run_rounds js n m p s).0
  unfolding run_rounds
  run_rounds-HasWidths zero m p s h = h
  run_rounds-HasWidths (suc n) m (resolved e) s h = h
  run_rounds-HasWidths (suc n) m thrown s h = h
  run_rounds-HasWidths (suc n) m (continuing c) s h =
      run_rounds-HasWidths n m _ _ (run_one-HasWidths m c s h)

  -- The calls that a host makes.
  pub data Call : Cpu → Cpu → Type 0 where
    powered_on : (s : Cpu) → Call s (power_on_idle s)
    was_reset : (s : Cpu) → Call s (reset s)
    pins_set : (pins : PinLevels) (s : Cpu) → Call s (set_pins pins s)
    state_set : (p : PartialRegister) (s : Cpu) → Call s (record s { reg = set_state p s.reg })
    ticked : (s : Cpu) → Call s (tick_cpu js s)
    stepped : (s : Cpu) → Call s (step_one js s)
    run_started : (a : ℕ) (s : Cpu) → Call s (start a s)
    batch_ran : (m c : ℕ) (s : Cpu) → Call s (run_batch js m c s).0
    halt_requested : (s : Cpu) → Call s (request_halt s)

  pub data Reached (s : Cpu) : Cpu → Type 0 where
    here : Reached s s
    next : {t u : Cpu} → Reached s t → Call t u → Reached s u

  Call-HasWidths : {s t : Cpu} → Call s t → HasWidths s → HasWidths t
  unfolding run_batch start
  Call-HasWidths (powered_on s) h = power_on_idle-HasWidths s
  Call-HasWidths (was_reset s) h = reset-HasWidths s
  Call-HasWidths (pins_set pins s) h = set_pins-HasWidths pins s h
  Call-HasWidths (state_set p s) h = record { valid = set_state-IsValid p s.reg h.valid }
  Call-HasWidths (ticked s) h = tick_cpu-HasWidths s h
  Call-HasWidths (stepped s) h = step_one-HasWidths s h
  Call-HasWidths (run_started a s) h = record {
    valid = set_ic-IsValid _ s.reg (omega arith) h.valid;
  }
  Call-HasWidths (batch_ran m c s) h = run_rounds-HasWidths _ m _ s h
  Call-HasWidths (halt_requested s) h = request_halt-HasWidths s h

  reached : (s : Cpu) {t : Cpu} → Reached (power_on_idle s) t → HasWidths t
  reached s here = power_on_idle-HasWidths s
  reached s (next r c) = Call-HasWidths c (reached s r)

  -- From power on, every state that any sequence of the calls reaches (power on, reset, the pins,
  -- the debugger's writes, ticks, single steps, the start and the batches of a run, halts) has each
  -- register within its width.
  pub Reached-IsValid : (s t : Cpu) → Reached (power_on_idle s) t → IsValid t.reg
  Reached-IsValid s t r = (reached s r).valid
