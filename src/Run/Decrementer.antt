-- ===== src/Run/Decrementer.antt =====
-- The decrementer of tms9995.ts, whose word of memory is FFFA.
use retro_cpu_emu.Shared.{
  ℕ, zero, suc, ◌+◌, ◌-◌, ◌/◌, ◌%◌, ◌^◌, ◌<◌, ◌≤◌, ◌≡◌, refl, sym, ◌∙◌, ap, arith, true, ◌||◌, leb,
  ◌==◌, Bool-cases, inl, inr,
}
use retro_cpu_emu.Machine.{Machine, read_word, write_word}
use retro_cpu_emu.Machine.Memory.{
  read_word-Frame, write_word-Frame, read_word-write_word, read_word-value, PlainWord,
}
use retro_cpu_emu.IoMmap.{is_io_addr}
use retro_cpu_emu.Run.{decrement, decrement_loop, tick_decrementer}

plain : PlainWord 0xfffa
unfolding is_io_addr
plain = refl

-- The word that a read of FFFA returns.
abbrev pub counter : Machine → ℕ
counter s = (read_word 0xfffa s).0

read-accum : (a : ℕ) (s : Machine) → (read_word a s).1.dec_clock_accum ≡ s.dec_clock_accum
read-accum a s = ap (λ (m : Machine). m.dec_clock_accum) (read_word-Frame a s)

write-accum : (a v : ℕ) (s : Machine) → (write_word a v s).1.dec_clock_accum ≡ s.dec_clock_accum
write-accum a v s = ap (λ (m : Machine). m.dec_clock_accum) (write_word-Frame a v s)

read-irq3 : (a : ℕ) (s : Machine) → (read_word a s).1.pending_irq3 ≡ s.pending_irq3
read-irq3 a s = ap (λ (m : Machine). m.pending_irq3) (read_word-Frame a s)

write-irq3 : (a v : ℕ) (s : Machine) → (write_word a v s).1.pending_irq3 ≡ s.pending_irq3
write-irq3 a v s = ap (λ (m : Machine). m.pending_irq3) (write_word-Frame a v s)

-- The state in which `decrement` reads.
abbrev charged : Machine → Machine
charged s = record s { dec_clock_accum = s.dec_clock_accum - 3000 }

counter-charged : (s : Machine) → counter (charged s) ≡ counter s
counter-charged s = read_word-value 0xfffa (charged s) plain ∙ sym (read_word-value 0xfffa s plain)

decrement-accum : (s : Machine) → (decrement s).dec_clock_accum ≡ s.dec_clock_accum - 3000
unfolding decrement
decrement-accum s = elim (Bool-cases (counter (charged s) == 0)) [
  | inl p ↦ rw p (write-accum 0xfffa 0xffff _ ∙ read-accum 0xfffa (charged s))
  | inr p ↦
      rw p (write-accum 0xfffa _ (read_word 0xfffa (charged s)).1 ∙ read-accum 0xfffa (charged s))
]

decrement-counter : (s : Machine) → counter (decrement s) ≡ (counter s + 2 ^ 16 - 1) % 2 ^ 16
unfolding decrement
decrement-counter s = elim (Bool-cases (counter (charged s) == 0)) [
  | inl p ↦ rw p (
      read_word-write_word 0xfffa 0xffff
        (record ((read_word 0xfffa (charged s)).1) { pending_irq3 = true }) plain
      ∙ ground (arith, counter-charged s))
  | inr p ↦ rw p (
      read_word-write_word 0xfffa ((counter (charged s) + 2 ^ 16 - 1) % 2 ^ 16)
        (read_word 0xfffa (charged s)).1 plain
      ∙ ground (arith, counter-charged s))
]

decrement-irq3 : (s : Machine) → (decrement s).pending_irq3 ≡ (counter s == 0 || s.pending_irq3)
unfolding decrement
decrement-irq3 s = elim (Bool-cases (counter (charged s) == 0)) [
  | inl p ↦ rw p (write-irq3 0xfffa 0xffff _ ∙ ground (arith, counter-charged s))
  | inr p ↦ rw p (
      write-irq3 0xfffa _ (read_word 0xfffa (charged s)).1
      ∙ read-irq3 0xfffa (charged s)
      ∙ ground (arith, counter-charged s))
]

loop-accum :
    (fuel : ℕ) (s : Machine)
    → s.dec_clock_accum / 3000 ≤ fuel
    → (decrement_loop fuel s).dec_clock_accum ≡ s.dec_clock_accum % 3000
unfolding decrement_loop
loop-accum zero s h = omega arith
loop-accum (suc fuel) s h = elim (Bool-cases (leb 3000 s.dec_clock_accum)) [
  | inl p ↦
      let q : 3000 ≤ s.dec_clock_accum = ground arith in
      rw (decrement_loop, p)
        (loop-accum fuel (decrement s) (omega (arith, decrement-accum s))
          ∙ omega (arith, decrement-accum s))
  | inr p ↦ rw (decrement_loop, p) (ground arith)
]

-- With the flag of the decrementer set, an instruction's twelve cycles are added and every whole
-- 3000 of the sum is counted, however many were waiting.
tick_decrementer-accum :
    (s : Machine)
    → s.ports.dec_enabled ≡ true
    → (tick_decrementer s).dec_clock_accum ≡ (s.dec_clock_accum + 12) % 3000
unfolding tick_decrementer
tick_decrementer-accum s h = simp h (
    loop-accum ((s.dec_clock_accum + 12) / 3000)
      (record s { dec_clock_accum = s.dec_clock_accum + 12 }) (omega arith))

unfoldable pub rounds : ℕ → Machine → Machine
rounds zero s = s
rounds (suc n) s = decrement (rounds n s)

rounds-counter :
    (n : ℕ) (s : Machine)
    → n ≤ counter s
    → counter s < 2 ^ 16
    → counter (rounds n s) ≡ counter s - n
unfolding rounds
rounds-counter zero s h lt = omega arith
rounds-counter (suc n) s h lt =
    omega (arith, decrement-counter (rounds n s), rounds-counter n s (omega arith) lt)

rounds-irq3 :
    (n : ℕ) (s : Machine)
    → n ≤ counter s
    → counter s < 2 ^ 16
    → (rounds n s).pending_irq3 ≡ s.pending_irq3
unfolding rounds
rounds-irq3 zero s h lt = refl
rounds-irq3 (suc n) s h lt =
    decrement-irq3 (rounds n s)
    ∙ ground (arith, rounds-counter n s (omega arith) lt, rounds-irq3 n s (omega arith) lt)

-- A decrementer at n counts n rounds without a request, requests interrupt 3 in the next one, and
-- then stands at FFFF.
pub rounds-request :
    (n : ℕ) (s : Machine)
    → counter s ≡ n
    → n < 2 ^ 16
    → (counter (rounds n s) ≡ 0)
      × ((rounds n s).pending_irq3 ≡ s.pending_irq3)
      × ((rounds (suc n) s).pending_irq3 ≡ true)
      × (counter (rounds (suc n) s) ≡ 0xffff)
unfolding rounds
rounds-request n s e lt =
    let z : counter (rounds n s) ≡ 0 =
      omega (arith, rounds-counter n s (omega arith) (omega arith)) in
    (
      z,
      rounds-irq3 n s (omega arith) (omega arith),
      decrement-irq3 (rounds n s) ∙ ground (arith, z),
      decrement-counter (rounds n s) ∙ omega (arith, z),
    )
