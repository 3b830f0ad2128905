-- ===== src/Execute/Shifting.antt =====
-- The shifts of execute.ts, by their counts.
use retro_cpu_emu.Shared.{
  ℕ, zero, suc, ◌+◌, ◌*◌, ◌/◌, ◌%◌, ◌^◌, ◌<◌, ◌≡◌, refl, ◌∙◌, ap, arith, Bool, ◌==◌,
}
use retro_cpu_emu.Execute.Shift.{ShiftKind, Shifted, shift_once, shift_loop, shift_word}
use native.Mathlib.Nat.{pow-suc, div-div-eq-div-mul, add-mul-mod_self_left}

half-half : (n x : ℕ) → x < 2 ^ 16 → x / 2 % 2 ^ 16 / 2 ^ n ≡ x / 2 ^ suc n
half-half n x h =
    let e : x / 2 % 2 ^ 16 ≡ x / 2 = omega arith in
    let f : 2 * 2 ^ n ≡ 2 ^ suc n = omega (arith, pow-suc 2 n) in
    rw (e, div-div-eq-div-mul x 2 (2 ^ n), f) refl

loop-srl :
    (n : ℕ) (sign : Bool) (r : Shifted)
    → r.v < 2 ^ 16
    → ((shift_loop (suc n) ShiftKind.srl sign r).v ≡ r.v / 2 ^ suc n)
      × ((shift_loop (suc n) ShiftKind.srl sign r).carry ≡ (r.v / 2 ^ n % 2 == 1))
unfolding shift_loop shift_once
loop-srl zero sign r h = (omega arith, ground arith)
loop-srl (suc n) sign r h =
    let (p, q) = loop-srl n sign (shift_once ShiftKind.srl sign r) (omega arith) in
    (p ∙ half-half (suc n) r.v h, q ∙ ap (λ (x : ℕ). x % 2 == 1) (half-half n r.v h))

-- SRL by a count from 1: the word divided by the power of 2, and the last bit shifted out.
shift_word-srl :
    (n v : ℕ)
    → v < 2 ^ 16
    → ((shift_word ShiftKind.srl (suc n) v).v ≡ v / 2 ^ suc n)
      × ((shift_word ShiftKind.srl (suc n) v).carry ≡ (v / 2 ^ n % 2 == 1))
unfolding shift_word
shift_word-srl n v h = loop-srl n _ _ h

distribute : (r q p : ℕ) → (r + 2 ^ 16 * q) * p ≡ r * p + 2 ^ 16 * (q * p)
distribute r q p = grind arith

double-mod : (n x : ℕ) → x * 2 % 2 ^ 16 * 2 ^ n % 2 ^ 16 ≡ x * 2 ^ suc n % 2 ^ 16
double-mod n x =
    let p = 2 ^ n in
    let r = x * 2 % 2 ^ 16 in
    let q = x * 2 / 2 ^ 16 in
    let e : x * 2 ≡ r + 2 ^ 16 * q = omega arith in
    let f : x * 2 ^ suc n ≡ r * p + 2 ^ 16 * (q * p) =
      rw (pow-suc 2 n) (grind arith) ∙ ap (λ (t : ℕ). t * p) e ∙ distribute r q p in
    rw (f, add-mul-mod_self_left (r * p) (2 ^ 16) (q * p)) refl

loop-sla :
    (n : ℕ) (sign : Bool) (r : Shifted)
    → r.v < 2 ^ 16
    → ((shift_loop (suc n) ShiftKind.sla sign r).v ≡ r.v * 2 ^ suc n % 2 ^ 16)
      × ((shift_loop (suc n) ShiftKind.sla sign r).carry ≡ (r.v * 2 ^ n % 2 ^ 16 / 2 ^ 15 == 1))
unfolding shift_loop shift_once
loop-sla zero sign r h = (omega arith, ground arith)
loop-sla (suc n) sign r h =
    let (p, q) = loop-sla n sign (shift_once ShiftKind.sla sign r) (omega arith) in
    (p ∙ double-mod (suc n) r.v, q ∙ ap (λ (x : ℕ). x / 2 ^ 15 == 1) (double-mod n r.v))

-- SLA by a count from 1: the word multiplied by the power of 2, to 16 bits, and the last bit
-- shifted out.
shift_word-sla :
    (n v : ℕ)
    → v < 2 ^ 16
    → ((shift_word ShiftKind.sla (suc n) v).v ≡ v * 2 ^ suc n % 2 ^ 16)
      × ((shift_word ShiftKind.sla (suc n) v).carry ≡ (v * 2 ^ n % 2 ^ 16 / 2 ^ 15 == 1))
unfolding shift_word
shift_word-sla n v h = loop-sla n _ _ h
