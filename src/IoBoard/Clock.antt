-- ===== src/IoBoard/Clock.antt =====
-- The 64-bit time of the IO board: retrocpu_emu_ts/src/ioboard/timer/io_time.ts, class
-- IoTimeCounter. The source of time `nowNs` is an argument: the time at the call.
use retro_cpu_emu.Shared.{
  ℕ, zero, suc, ◌-◌, ◌/◌, ◌%◌, ◌^◌, Bool, true, false, List, [], ◌∷◌, leb, if◌then◌else◌,
}

pub record IoTimeCounter : Type 0 where
  pub origin_ns : ℕ
  pub started : Bool
  pub frozen_ticks : ℕ

abbrev pub io_time_tick_ns : ℕ
io_time_tick_ns = 10000

unfoldable pub new : IoTimeCounter
new = record { origin_ns = 0; started = false; frozen_ticks = 0 }

unfoldable pub reset : ℕ → IoTimeCounter
reset now = record { origin_ns = now; started = true; frozen_ticks = 0 }

-- An elapsed time below 0 gives 0, as the subtraction of natural numbers does.
unfoldable pub current_ticks : ℕ → IoTimeCounter → ℕ
current_ticks now c =
    let elapsed = now - c.origin_ns in
    if leb elapsed 0 then 0 else elapsed / io_time_tick_ns % 2 ^ 64

unfoldable pub stop : ℕ → IoTimeCounter → IoTimeCounter
stop now c =
    if c.started then record c { frozen_ticks = current_ticks now c; started = false } else c

unfoldable pub ticks : ℕ → IoTimeCounter → ℕ
ticks now c = if c.started then current_ticks now c else c.frozen_ticks

-- `for (let i = 7; i >= 0; i--)`: the bytes of `v` are put before those that are there.
unfoldable pub put_bytes : ℕ → ℕ → List ℕ → List ℕ
put_bytes zero v out = out
put_bytes (suc n) v out = put_bytes n (v / 2 ^ 8) (v % 2 ^ 8 ∷ out)

unfoldable pub read_timestamp : ℕ → IoTimeCounter → List ℕ
read_timestamp now c = put_bytes 8 (ticks now c) []
