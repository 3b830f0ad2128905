-- ===== src/IoBoard/Timer.antt =====
-- The interval timer of the IO board: retrocpu_emu_ts/src/ioboard/timer/io_timer.ts, class IoTimer.
-- The handle of a reservation with the scheduler is the time it waits. A call of `onExpire` is the
-- Boolean that `fire` returns beside the new state.
use retro_cpu_emu.Shared.{
  ℕ, ◌+◌, ◌-◌, max, Bool, true, false, Option, none, some, ltb, leb, ◌==◌, if◌then◌else◌,
}
use retro_cpu_emu.Shared.Int.{ℤ, pos, negsuc}

pub record IoTimer : Type 0 where
  pub min_period_ms : ℕ
  pub handle : Option ℕ
  pub period_ms : ℕ
  pub count : ℕ
  pub remaining : ℕ
  pub fired : ℕ

pub data ResponseCode : Type 0 where
  ok ng_other_error : ResponseCode

-- A number of the configuration; `none` is one that is no integer.
abbrev pub Param : Type 0
Param = Option ℤ

pub record IoTimerConfig : Type 0 where
  pub period_ms : Param
  pub count : Param

abbrev pub max_16bit : ℕ
max_16bit = 0xffff

-- `isUint16`: the number, where it is one of 16 bits.
unfoldable pub is_uint16 : Param → Option ℕ
is_uint16 none = none
is_uint16 (some (negsuc n)) = none
is_uint16 (some (pos n)) = if leb n max_16bit then some n else none

unfoldable pub new : ℕ → IoTimer
new min_period_ms = record {
  min_period_ms = min_period_ms;
  handle = none;
  period_ms = 0;
  count = 0;
  remaining = 0;
  fired = 0;
}

abbrev has_handle : Option ℕ → Bool
has_handle none = false
has_handle (some w) = true

unfoldable pub running : IoTimer → Bool
running t = has_handle t.handle

unfoldable pub stop : IoTimer → IoTimer
stop t = record t { handle = none; period_ms = 0; count = 0; remaining = 0 }

unfoldable pub arm : IoTimer → IoTimer
arm t = record t { handle = some (max t.period_ms t.min_period_ms) }

-- The configuration of two numbers of 16 bits.
unfoldable pub apply : ℕ → ℕ → IoTimer → IoTimer
apply period count t =
    if period == 0
    then stop t
    else arm (record (stop t) { period_ms = period; count = count; remaining = count; fired = 0 })

abbrev configured : Option ℕ → Option ℕ → IoTimer → IoTimer × ResponseCode
configured none c t = (t, ng_other_error)
configured (some p) none t = (t, ng_other_error)
configured (some p) (some c) t = (apply p c t, ok)

unfoldable pub configure : IoTimerConfig → IoTimer → IoTimer × ResponseCode
configure params t = configured (is_uint16 params.period_ms) (is_uint16 params.count) t

unfoldable pub expire : IoTimer → IoTimer
expire t =
    let t₁ = record t { fired = t.fired + 1 } in
    if ltb 0 t₁.count
    then (let t₂ = record t₁ { remaining = t₁.remaining - 1 } in
        if leb t₂.remaining 0 then stop t₂ else arm t₂)
    else arm t₁

-- The scheduler's callback: it comes while a reservation stands, and notifies once.
unfoldable pub fire : IoTimer → IoTimer × Bool
fire t = if running t then (expire (record t { handle = none }), true) else (t, false)
