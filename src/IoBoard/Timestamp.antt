-- ===== src/IoBoard/Timestamp.antt =====
-- The eight bytes of the time of io_time.ts.
use retro_cpu_emu.Shared.{ℕ, ◌+◌, ◌*◌, ◌-◌, ◌/◌, ◌%◌, ◌^◌, ◌<◌, ◌≡◌, ◌∙◌, ap, arith, List, [], ◌∷◌}
use retro_cpu_emu.IoBoard.Clock
use retro_cpu_emu.IoBoard.Clock.{
  IoTimeCounter, put_bytes, read_timestamp, ticks, current_ticks, stop,
}

-- The number that a list of bytes writes, the highest first, after `acc`.
abbrev pub from_bytes : ℕ → List ℕ → ℕ
from_bytes acc [] = acc
from_bytes acc (b ∷ bs) = from_bytes (acc * 2 ^ 8 + b) bs

-- Eight bytes: the digits of the number below 2 ^ 64.
put_bytes-eight : (v : ℕ) → v < 2 ^ 64 → from_bytes 0 (put_bytes 8 v []) ≡ v
unfolding put_bytes
put_bytes-eight v h = omega arith

ticks-reset : (t₀ t₁ : ℕ) → ticks t₁ (Clock.reset t₀) ≡ (t₁ - t₀) / 10000 % 2 ^ 64
unfolding ticks current_ticks Clock.reset
ticks-reset t₀ t₁ = ground arith

ticks-stop : (t₁ t₂ : ℕ) (c : IoTimeCounter) → ticks t₂ (stop t₁ c) ≡ ticks t₁ c
unfolding ticks stop
ticks-stop t₁ t₂ c = ground arith

-- After a reset at the time `t₀` in nanoseconds, the eight bytes read at `t₁` write the 10
-- microseconds from `t₀` to `t₁`, to 64 bits, the highest byte first; and if the counter is stopped
-- at `t₁`, every later read has the same bytes.
pub read_timestamp-reset :
    (t₀ t₁ t₂ : ℕ)
    → (from_bytes 0 (read_timestamp t₁ (Clock.reset t₀)) ≡ (t₁ - t₀) / 10000 % 2 ^ 64)
      × (read_timestamp t₂ (stop t₁ (Clock.reset t₀)) ≡ read_timestamp t₁ (Clock.reset t₀))
unfolding read_timestamp
read_timestamp-reset t₀ t₁ t₂ =
    let e = ticks-reset t₀ t₁ in
    (
      put_bytes-eight (ticks t₁ (Clock.reset t₀)) (omega (arith, e)) ∙ e,
      ap (λ (v : ℕ). put_bytes 8 v []) (ticks-stop t₁ t₂ (Clock.reset t₀)),
    )
