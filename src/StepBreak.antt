-- ===== src/StepBreak.antt =====
-- The one-shot step unit: retrocpu_emu_ts/src/cpuboard/mn1613/step_break.ts, class StepBreakUnit.
-- A call of `onHit` is the Boolean that `on_instruction_fetch` returns beside the new state.
-- Port 0037 is the delay of the IO map, as in the source; breakpoint.mdc has a trigger word there.
pub mod OneShot
use retro_cpu_emu.Shared.{
  ℕ, zero, suc, ◌+◌, ◌-◌, ◌%◌, ◌^◌, Bool, true, false, not, Option, none, some, ltb, ◌==◌,
  if◌then◌else◌,
}

abbrev pub io_port_step_ena : ℕ
io_port_step_ena = 0x0036

abbrev pub io_port_step_delay : ℕ
io_port_step_delay = 0x0037

abbrev pub step_brk_delay_1step : ℕ
step_brk_delay_1step = 0x01

pub record StepBreakUnit : Type 0 where
  pub ena : ℕ
  pub delay : ℕ
  pub remaining : ℕ
  pub skip_first_fetch : Bool

-- The fields' initial values, which `reset` restores.
unfoldable pub reset : StepBreakUnit
reset = record { ena = 0; delay = step_brk_delay_1step; remaining = 0; skip_first_fetch = false }

unfoldable pub on_instruction_fetch : StepBreakUnit → StepBreakUnit × Bool
on_instruction_fetch u =
    if u.ena == 0
    then (u, false)
    else if u.skip_first_fetch
    then (record u { skip_first_fetch = false }, false)
    else let left = if ltb 0 u.remaining then (u.remaining - 1) % 2 ^ 8 else u.remaining in
      if left == 0
      then (record u { remaining = left; ena = 0 }, true)
      else (record u { remaining = left }, false)

unfoldable pub read_port : ℕ → StepBreakUnit → Option ℕ
read_port port u =
    let p = port % 2 ^ 16 in
    if p == io_port_step_ena
    then some u.ena
    else if p == io_port_step_delay
    then some (u.delay % 2 ^ 8)
    else none

unfoldable pub write_port : ℕ → ℕ → StepBreakUnit → StepBreakUnit × Bool
write_port port val u =
    let p = port % 2 ^ 16 in
    let v = val % 2 ^ 16 in
    if p == io_port_step_ena
    then (
      if v % 2 == 0
          then record u { ena = v % 2; remaining = 0; skip_first_fetch = false }
          else record u {
            ena = v % 2;
            remaining = (u.delay % 2 ^ 8 + 1) % 2 ^ 8;
            skip_first_fetch = true;
          },
      true,
    )
    else if p == io_port_step_delay
    then (record u { delay = v % 2 ^ 8 }, true)
    else (u, false)
