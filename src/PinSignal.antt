-- ===== src/PinSignal.antt =====
-- Input and output pins: retrocpu_emu_ts/src/cpuboard/pin_signal.ts. The entries of the array are
-- the present level, the level at the last sample, and the deferred request.
use retro_cpu_emu.Shared.{Bool, true, false, not, ◌&&◌, if◌then◌else◌}

pub record InputPin : Type 0 where
  pub now : Bool
  pub last : Bool
  pub deferred : Bool

pub record OutputPin : Type 0 where
  pub now : Bool
  pub last : Bool

unfoldable pub create_input_pin : Bool → InputPin
create_input_pin initial = record { now = initial; last = initial; deferred = false }

unfoldable pub create_output_pin : Bool → OutputPin
create_output_pin initial = record { now = initial; last = initial }

unfoldable pub set_input_level : InputPin → Bool → InputPin
set_input_level pin enable = record pin { now = enable }

unfoldable pub set_output_level : OutputPin → Bool → OutputPin
set_output_level pin enable = record pin { now = enable }

unfoldable pub rising_edge : InputPin → Bool
rising_edge pin = pin.now && not pin.last

unfoldable pub falling_edge : InputPin → Bool
falling_edge pin = not pin.now && pin.last

unfoldable pub commit_sample : InputPin → InputPin
commit_sample pin = record pin { last = pin.now }

unfoldable pub commit_output_sample : OutputPin → OutputPin
commit_output_sample pin = record pin { last = pin.now }

unfoldable pub defer_if_asserted : InputPin → InputPin
defer_if_asserted pin = if pin.now then record pin { deferred = true } else pin

unfoldable pub take_deferred : InputPin → InputPin × Bool
take_deferred pin =
    if not pin.deferred then (pin, false) else (record pin { deferred = false }, true)

unfoldable pub clear_deferred : InputPin → InputPin
clear_deferred pin = record pin { deferred = false }
