-- ===== src/Execute/Quotients.antt =====
-- The arithmetic of DIV and DIVS in execute.ts.
use retro_cpu_emu.Shared.{
  ℕ, zero, suc, ◌+◌, ◌*◌, ◌/◌, ◌%◌, ◌^◌, ◌<◌, ◌≡◌, ◌≤◌, refl, sym, arith, Bool, true, false, not,
  ◌||◌, ltb, leb, ◌==◌, if◌then◌else◌,
}
use retro_cpu_emu.Shared.Int.{ℤ, pos, negsuc, sub_ℕ}
use retro_cpu_emu.Status.{signed16}
use retro_cpu_emu.Status.Results.{fits16}
use retro_cpu_emu.Execute.Divide.{
  signed32, divs_overflow_signed, divs_overflow, div_overflow, floor_div16, trunc_div16, negate16,
  rem16, magnitude, same_sign,
}
use native.Mathlib.Nat.{div-lt_iff_lt-mul}

-- A quotient is below a bound exactly when the dividend is below the bound times the divisor.
ltb-div : (k x y : ℕ) → 0 < k → ltb (x / k) y ≡ ltb x (y * k)
ltb-div k x y h = ground (arith, div-lt_iff_lt-mul {k = k} {x = x} {y = y} h)

uncut :
    (u d : ℕ)
    → 0 < d
    → d < 2 ^ 16
    → u / d < 2 ^ 16
    → (u / d % 2 ^ 16 * d + u % d % 2 ^ 16 ≡ u) × (u % d % 2 ^ 16 < d)
uncut u d z m b =
    let e : u / d % 2 ^ 16 ≡ u / d = omega arith in
    let l : u % d < d = grind arith in
    let f : u % d % 2 ^ 16 ≡ u % d = omega arith in rw (e, f) (grind arith, l)

-- The quotient of DIV is not cut off, and quotient and remainder are those of the dividend, when
-- DIV reports no overflow and the dividend's top bit is clear.
pub div-quotient :
    (hi lo d : ℕ)
    → hi < 2 ^ 15
    → lo < 2 ^ 16
    → d < 2 ^ 16
    → div_overflow hi lo d ≡ false
    → (floor_div16 (signed32 hi lo) d * d + rem16 (signed32 hi lo) d ≡ hi * 2 ^ 16 + lo)
      × (rem16 (signed32 hi lo) d < d)
unfolding div_overflow signed32 floor_div16 rem16
div-quotient hi lo d h l m o =
    let e : div_overflow hi lo d ≡ (d == 0 || leb d hi) = ground arith in
    let s : signed32 hi lo ≡ pos (hi * 2 ^ 16 + lo) = ground arith in
    let z : 0 < d = ground arith in
    let b : (hi * 2 ^ 16 + lo) / d < 2 ^ 16 =
      ground (arith, ltb-div d (hi * 2 ^ 16 + lo) (2 ^ 16) z) in
    rw s (uncut (hi * 2 ^ 16 + lo) d z m b)

-- The quotient rounded towards 0, 0 for a divisor 0, and the remainder with the dividend's sign.
abbrev pub trunc_quotient : ℤ → ℤ → ℤ
trunc_quotient n d = let q = magnitude n / magnitude d in if same_sign n d then pos q else sub_ℕ 0 q

abbrev pub trunc_remainder : ℤ → ℤ → ℤ
trunc_remainder (pos n) d = pos (n % magnitude d)
trunc_remainder (negsuc n) d = sub_ℕ 0 ((n + 1) % magnitude d)

divs_overflow_signed-fits :
    (n d : ℤ) → divs_overflow_signed n d ≡ (magnitude d == 0 || not (fits16 (trunc_quotient n d)))
unfolding divs_overflow_signed
divs_overflow_signed-fits (pos n) (pos zero) = refl
divs_overflow_signed-fits (pos n) (pos (suc d)) =
    ground (arith, ltb-div (suc d) n (2 ^ 15) (omega arith))
divs_overflow_signed-fits (pos n) (negsuc d) =
    ground (arith, ltb-div (d + 1) n (2 ^ 15 + 1) (omega arith))
divs_overflow_signed-fits (negsuc n) (pos zero) = refl
divs_overflow_signed-fits (negsuc n) (pos (suc d)) =
    ground (arith, ltb-div (suc d) (n + 1) (2 ^ 15 + 1) (omega arith))
divs_overflow_signed-fits (negsuc n) (negsuc d) =
    ground (arith, ltb-div (d + 1) (n + 1) (2 ^ 15) (omega arith))

-- A word of 16 bits that stands for a small number, or for its negative, is read back by its sign.
signed16-small : (q : ℕ) → q < 2 ^ 15 → signed16 (q % 2 ^ 16) ≡ pos q
signed16-small q h = ground arith

signed16-negate16 : (q : ℕ) → q ≤ 2 ^ 15 → signed16 (negate16 q) ≡ sub_ℕ 0 q
signed16-negate16 q h = ground arith

signed_quotient :
    (n d : ℤ) → fits16 (trunc_quotient n d) ≡ true → signed16 (trunc_div16 n d) ≡ trunc_quotient n d
unfolding trunc_div16
signed_quotient (pos n) (pos d) h = signed16-small (n / d) (ground arith)
signed_quotient (pos n) (negsuc d) h = signed16-negate16 (n / (d + 1)) (ground arith)
signed_quotient (negsuc n) (pos d) h = signed16-negate16 ((n + 1) / d) (ground arith)
signed_quotient (negsuc n) (negsuc d) h = signed16-small ((n + 1) / (d + 1)) (ground arith)

mod_below : (n d : ℕ) → 0 < d → n % d < d
mod_below n d h = grind arith

signed_remainder :
    (n d : ℤ)
    → 0 < magnitude d
    → magnitude d ≤ 2 ^ 15
    → signed16 (rem16 n (magnitude d)) ≡ trunc_remainder n d
unfolding rem16
signed_remainder (pos n) d z h =
    let l = mod_below n (magnitude d) z in signed16-small (n % magnitude d) (omega arith)
signed_remainder (negsuc n) d z h =
    let l = mod_below (n + 1) (magnitude d) z in
    signed16-negate16 ((n + 1) % magnitude d) (omega arith)

magnitude-signed16 : (d : ℕ) → magnitude (signed16 d) ≤ 2 ^ 15
magnitude-signed16 d = ground arith

-- What is shown of a division whose test for an overflow is the Boolean.
abbrev pub Divided : Bool → ℤ → ℤ → Type 0
Divided true n d = (magnitude d == 0 || not (fits16 (trunc_quotient n d))) ≡ true
Divided false n d =
    ((magnitude d == 0 || not (fits16 (trunc_quotient n d))) ≡ false)
    × (signed16 (trunc_div16 n d) ≡ trunc_quotient n d)
    × (signed16 (rem16 n (magnitude d)) ≡ trunc_remainder n d)

Divided_lem :
    (n d : ℤ) (overflow : Bool)
    → magnitude d ≤ 2 ^ 15
    → overflow ≡ (magnitude d == 0 || not (fits16 (trunc_quotient n d)))
    → Divided overflow n d
Divided_lem n d true h e = sym e
Divided_lem n d false h e =
    let z : 0 < magnitude d = ground arith in
    let f : fits16 (trunc_quotient n d) ≡ true = ground arith in
    (sym e, signed_quotient n d f, signed_remainder n d z h)

-- The arithmetic of DIVS on words, which this core has but no operation code reaches: `divsOverflow`
-- tells exactly whether the divisor is 0 or the quotient, rounded towards 0, does not fit a signed
-- word; where it says no, the two words for R0 and R1 are, read with their sign, that quotient and
-- the remainder with the dividend's sign.
pub divs-quotient : (hi lo d : ℕ) → Divided (divs_overflow hi lo d) (signed32 hi lo) (signed16 d)
unfolding divs_overflow
divs-quotient hi lo d =
    Divided_lem (signed32 hi lo) (signed16 d) (divs_overflow hi lo d) (magnitude-signed16 d)
      (divs_overflow_signed-fits (signed32 hi lo) (signed16 d))
