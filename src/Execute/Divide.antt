-- ===== src/Execute/Divide.antt =====
-- Multiplication and division of execute.ts: `divsOverflow`, `divOverflow`, and the branches of
-- Format 9 and of MPYS and DIVS. A 32-bit dividend is read with its sign, as `<<` and `|` give it;
-- `-n & 0xffff` is written `(2 ^ 16 - n % 2 ^ 16) % 2 ^ 16`.
use retro_cpu_emu.Shared.{
  ℕ, ◌+◌, ◌*◌, ◌-◌, ◌/◌, ◌%◌, ◌^◌, bit_or, Bool, true, false, ◌||◌, ltb, leb, ◌==◌, if◌then◌else◌,
}
use retro_cpu_emu.Shared.Int.{ℤ, pos, negsuc}
use retro_cpu_emu.Shared.State.{State, ◌>>=◌, ◌>>◌}
use retro_cpu_emu.Status.{clear, st_ov, signed16}
use retro_cpu_emu.Machine
use retro_cpu_emu.Addressing.{Ea, read_word_ea}
use retro_cpu_emu.Context.{Context, on_core, set_st}

-- `(hi << 16) | lo`, read as a signed 32-bit number.
unfoldable pub signed32 : ℕ → ℕ → ℤ
signed32 hi lo =
    let u = hi % 2 ^ 16 * 2 ^ 16 + lo % 2 ^ 16 in
    if ltb u (2 ^ 31) then pos u else negsuc (2 ^ 32 - u - 1)

-- The four cases of signs.
unfoldable pub divs_overflow_signed : ℤ → ℤ → Bool
divs_overflow_signed (pos n) (pos d) = d == 0 || ltb (d * 2 ^ 15 - 1) n
divs_overflow_signed (pos n) (negsuc d) = ltb ((d + 1) * 2 ^ 15 + (d + 1) - 1) n
divs_overflow_signed (negsuc n) (pos d) = d == 0 || ltb (d * 2 ^ 15 + d - 1) (n + 1)
divs_overflow_signed (negsuc n) (negsuc d) = ltb ((d + 1) * 2 ^ 15 - 1) (n + 1)

unfoldable pub divs_overflow : ℕ → ℕ → ℕ → Bool
divs_overflow w1 w2 divisor = divs_overflow_signed (signed32 w1 w2) (signed16 divisor)

unfoldable pub div_overflow : ℕ → ℕ → ℕ → Bool
div_overflow hi lo divisor = divisor % 2 ^ 16 == 0 || leb (divisor % 2 ^ 16) (hi % 2 ^ 16)

abbrev pub negate16 : ℕ → ℕ
negate16 n = (2 ^ 16 - n % 2 ^ 16) % 2 ^ 16

-- `Math.floor(dividend / div) & 0xffff`, for a divisor above 0.
unfoldable pub floor_div16 : ℤ → ℕ → ℕ
floor_div16 (pos n) d = n / d % 2 ^ 16
floor_div16 (negsuc n) d = negate16 ((n + d) / d)

-- `(dividend % div) & 0xffff`: the remainder has the dividend's sign.
unfoldable pub rem16 : ℤ → ℕ → ℕ
rem16 (pos n) d = n % d % 2 ^ 16
rem16 (negsuc n) d = negate16 ((n + 1) % d)

abbrev pub magnitude : ℤ → ℕ
magnitude (pos n) = n
magnitude (negsuc n) = n + 1

abbrev pub same_sign : ℤ → ℤ → Bool
same_sign (pos _) (pos _) = true
same_sign (negsuc _) (negsuc _) = true
same_sign _ _ = false

-- `Math.trunc(dividend / divs) & 0xffff`
unfoldable pub trunc_div16 : ℤ → ℤ → ℕ
trunc_div16 n d =
    let q = magnitude n / magnitude d in if same_sign n d then q % 2 ^ 16 else negate16 q

unfoldable pub mpy : Ea → State Context (Unit {0})
mpy ea = do
  s ← on_core (read_word_ea ea)
  r0 ← on_core (Machine.read_reg 0)
  let prod = r0 % 2 ^ 16 * (s % 2 ^ 16)
  on_core (Machine.write_reg 0 (prod / 2 ^ 16 % 2 ^ 16))
  on_core (Machine.write_reg 1 (prod % 2 ^ 16))

-- The branch of DIV after the operands are read.
unfoldable pub div_result : ℕ → ℕ → ℕ → State Context (Unit {0})
div_result d hi lo c =
    if div_overflow hi lo d
    then set_st (bit_or c.st st_ov) c
    else (do
      set_st (clear c.st st_ov)
      on_core (Machine.write_reg 0 (floor_div16 (signed32 hi lo) d))
      on_core (Machine.write_reg 1 (rem16 (signed32 hi lo) d)))
        c

unfoldable pub div : Ea → State Context (Unit {0})
div ea = do
  d ← on_core (read_word_ea ea)
  hi ← on_core (Machine.read_reg 0)
  lo ← on_core (Machine.read_reg 1)
  div_result (d % 2 ^ 16) (hi % 2 ^ 16) (lo % 2 ^ 16)

unfoldable pub divs_result : ℕ → ℕ → ℕ → State Context (Unit {0})
divs_result d hi lo c =
    if divs_overflow hi lo d
    then set_st (bit_or c.st st_ov) c
    else (do
      set_st (clear c.st st_ov)
      on_core (Machine.write_reg 0 (trunc_div16 (signed32 hi lo) (signed16 d)))
      on_core (Machine.write_reg 1 (rem16 (signed32 hi lo) (magnitude (signed16 d)))))
        c

unfoldable pub divs : Ea → State Context (Unit {0})
divs ea = do
  d ← on_core (read_word_ea ea)
  hi ← on_core (Machine.read_reg 0)
  lo ← on_core (Machine.read_reg 1)
  divs_result (d % 2 ^ 16) (hi % 2 ^ 16) (lo % 2 ^ 16)

-- The low 32 bits of the signed product.
unfoldable pub signed_product : ℤ → ℤ → ℕ
signed_product a b =
    let p = magnitude a * magnitude b in
    if same_sign a b then p % 2 ^ 32 else (2 ^ 32 - p % 2 ^ 32) % 2 ^ 32

unfoldable pub mpys : Ea → State Context (Unit {0})
mpys ea = do
  v ← on_core (read_word_ea ea)
  r0 ← on_core (Machine.read_reg 0)
  let prod = signed_product (signed16 r0) (signed16 v)
  on_core (Machine.write_reg 0 (prod / 2 ^ 16 % 2 ^ 16))
  on_core (Machine.write_reg 1 (prod % 2 ^ 16))
