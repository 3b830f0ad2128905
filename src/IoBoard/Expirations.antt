-- ===== src/IoBoard/Expirations.antt =====
-- How often the timer of io_timer.ts notifies.
use retro_cpu_emu.Shared.{
  ℕ, zero, suc, ◌+◌, ◌<◌, min, ◌≡◌, refl, ◌∙◌, arith, Bool, true, false, ◌==◌, if◌then◌else◌,
}
use retro_cpu_emu.IoBoard.Timer.{IoTimer, fire, expire, arm, stop, running, apply}

abbrev one_if : Bool → ℕ
one_if true = 1
one_if false = 0

-- The notifications of `k` calls of the scheduler, and the timer after them.
unfoldable pub fires : ℕ → IoTimer → ℕ × IoTimer
fires zero t = (0, t)
fires (suc k) t = let (n, t') = fires k (fire t).0 in (one_if (fire t).1 + n, t')

-- The timer waits, with `r` of its notifications left.
record Waits (r : ℕ) (t : IoTimer) : Type 0 where
  counted : 0 < t.count
  waiting : running t ≡ true
  left : t.remaining ≡ r

fire-more : (r : ℕ) (t : IoTimer) → Waits (suc (suc r)) t → Waits (suc r) (fire t).0
unfolding fire expire arm running
fire-more r t h = ground arith

fire-last : (t : IoTimer) → Waits 1 t → running (fire t).0 ≡ false
unfolding fire expire stop running
fire-last t h = ground arith

fire-notifies : (t : IoTimer) → running t ≡ true → (fire t).1 ≡ true
unfolding fire
fire-notifies t h = rw h refl

fires-stopped : (k : ℕ) (t : IoTimer) → running t ≡ false → (fires k t).0 ≡ 0
unfolding fires fire
fires-stopped zero t h = refl
fires-stopped (suc k) t h = rw h (omega (arith, fires-stopped k t h))

fires-suc :
    (k : ℕ) (t : IoTimer) → running t ≡ true → (fires (suc k) t).0 ≡ 1 + (fires k (fire t).0).0
unfolding fires
fires-suc k t h = rw (fire-notifies t h) refl

fires-Waits : (k r : ℕ) (t : IoTimer) → Waits (suc r) t → (fires k t).0 ≡ min k (suc r)
unfolding fires
fires-Waits zero r t h = omega arith
fires-Waits (suc k) zero t h =
    omega (arith, fires-suc k t h.waiting, fires-stopped k (fire t).0 (fire-last t h))
fires-Waits (suc k) (suc r) t h =
    omega (arith, fires-suc k t h.waiting, fires-Waits k r (fire t).0 (fire-more r t h))

-- The timer waits without a count.
record Endless (t : IoTimer) : Type 0 where
  uncounted : t.count ≡ 0
  waiting : running t ≡ true

fire-Endless : (t : IoTimer) → Endless t → Endless (fire t).0
unfolding fire expire arm running
fire-Endless t h = ground arith

fires-Endless : (k : ℕ) (t : IoTimer) → Endless t → (fires k t).0 ≡ k
unfolding fires
fires-Endless zero t h = refl
fires-Endless (suc k) t h =
    omega (arith, fires-suc k t h.waiting, fires-Endless k (fire t).0 (fire-Endless t h))

apply-Waits : (p n : ℕ) (t : IoTimer) → 0 < p → Waits (suc n) (apply p (suc n) t)
unfolding apply arm running
apply-Waits p n t h = ground arith

apply-Endless : (p : ℕ) (t : IoTimer) → 0 < p → Endless (apply p 0 t)
unfolding apply arm running
apply-Endless p t h = ground arith

-- A period above 0 and a count, applied to the timer in any state: of `k` calls that the scheduler
-- makes, the timer notifies at each with the count 0, and at the first `count` of them otherwise,
-- after which it notifies no more.
pub fires-apply :
    (k period count : ℕ) (t : IoTimer)
    → 0 < period
    → (fires k (apply period count t)).0 ≡ (if count == 0 then k else min k count)
fires-apply k period zero t h = fires-Endless k _ (apply-Endless period t h)
fires-apply k period (suc n) t h = fires-Waits k n _ (apply-Waits period n t h) ∙ ground arith
