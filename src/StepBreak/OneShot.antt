-- ===== src/StepBreak/OneShot.antt =====
-- When an armed step unit fires.
use retro_cpu_emu.Shared.{
  ℕ, zero, suc, ◌+◌, ◌-◌, ◌%◌, ◌^◌, ◌<◌, ◌≡◌, refl, arith, true, false, leb, if◌then◌else◌,
}
use retro_cpu_emu.StepBreak.{
  StepBreakUnit, on_instruction_fetch, write_port, io_port_step_ena, io_port_step_delay,
}

-- The hits that `n` instruction fetches raise, and the unit after them.
pub fetches : ℕ → StepBreakUnit → StepBreakUnit × ℕ
fetches zero u = (u, 0)
fetches (suc n) u =
    let (u', hit) = on_instruction_fetch u in
    let (u'', hits) = fetches n u' in (u'', if hit then hits + 1 else hits)

-- Writing the delay to 0037 and 1 to 0036.
abbrev pub arm : ℕ → StepBreakUnit → StepBreakUnit
arm d u = (write_port io_port_step_ena 1 (write_port io_port_step_delay d u).0).0

fetches-disarmed : (n : ℕ) (u : StepBreakUnit) → u.ena ≡ 0 → fetches n u ≡ (u, 0)
unfolding fetches on_instruction_fetch
fetches-disarmed zero u h = refl
fetches-disarmed (suc n) u h = ground (arith, fetches-disarmed n u h)

abbrev counting : ℕ → ℕ → StepBreakUnit
counting d r = record { ena = 1; delay = d; remaining = r; skip_first_fetch = false }

spent : ℕ → StepBreakUnit
spent d = record { ena = 0; delay = d; remaining = 0; skip_first_fetch = false }

fetch_last : (d : ℕ) → on_instruction_fetch (counting d 1) ≡ (spent d, true)
unfolding on_instruction_fetch spent
fetch_last d = refl

fetch_more :
    (d r : ℕ)
    → suc (suc r) < 2 ^ 8
    → on_instruction_fetch (counting d (suc (suc r))) ≡ (counting d (suc r), false)
unfolding on_instruction_fetch
fetch_more d r h = ground arith

fetches-counting :
    (n d r : ℕ)
    → suc r < 2 ^ 8
    → fetches n (counting d (suc r))
      ≡ (if leb (suc r) n then (spent d, 1) else (counting d (suc r - n), 0))
unfolding fetches
fetches-counting zero d r k = ground arith
fetches-counting (suc n) d zero k =
    rw (fetch_last, fetches-disarmed n (spent d) (unfold spent in refl)) (ground arith)
fetches-counting (suc n) d (suc r) k =
    rw (fetch_more d r k) (ground (arith, fetches-counting n d r (omega arith)))

armed : ℕ → StepBreakUnit
armed d = record { ena = 1; delay = d; remaining = (d + 1) % 2 ^ 8; skip_first_fetch = true }

arm_lem : (d : ℕ) (u : StepBreakUnit) → d < 2 ^ 8 → arm d u ≡ armed d
unfolding write_port armed
arm_lem d u h = ground arith

fetch_skip : (d : ℕ) → on_instruction_fetch (armed d) ≡ (counting d ((d + 1) % 2 ^ 8), false)
unfolding on_instruction_fetch armed
fetch_skip d = refl

-- An armed unit with a delay below 255 fires at the fetch number `d + 2`, once, whatever its state
-- was before, and is disarmed from then on.
pub fetches-arm :
    (n d : ℕ) (u : StepBreakUnit)
    → d < 255
    → ((fetches n (arm d u)).1 ≡ (if leb (d + 2) n then 1 else 0))
      × ((fetches n (arm d u)).0.ena ≡ (if leb (d + 2) n then 0 else 1))
unfolding fetches
fetches-arm zero d u h = rw (arm_lem d u (omega arith)) (unfold armed in ground arith)
fetches-arm (suc n) d u h =
    let e : (d + 1) % 2 ^ 8 ≡ suc d = omega arith in
    rw (arm_lem d u (omega arith), fetch_skip d, e, fetches-counting n d d (omega arith))
      (unfold spent in ground arith)

-- At a delay of 255 the count wraps to 0, and the unit fires at the second fetch.
pub fetches-arm_wrapped :
    (n : ℕ) (u : StepBreakUnit) → (fetches n (arm 255 u)).1 ≡ (if leb 2 n then 1 else 0)
unfolding fetches on_instruction_fetch armed
fetches-arm_wrapped zero u = ground arith
fetches-arm_wrapped (suc zero) u = rw (arm_lem 255 u (omega arith)) refl
fetches-arm_wrapped (suc (suc n)) u =
    rw
      (
        arm_lem 255 u (omega arith),
        fetches-disarmed n
            (record { ena = 0; delay = 255; remaining = 0; skip_first_fetch = false }) refl,
      )
      (ground arith)
