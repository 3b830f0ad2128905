-- ===== src/Mn1613/Width/Floats.antt =====
-- The floating point of mn1613.ts and the group 0x03 keep the widths of the registers.
use retro_cpu_emu.Shared.{ℕ, ◌*◌, ◌/◌, ◌%◌, ◌^◌, arith, Bool, true, false, if◌then◌else◌, bit_or}
use retro_cpu_emu.Shared.Bits.{has}
use retro_cpu_emu.Shared.Int.{ℤ}
use retro_cpu_emu.Mn1613.Core.{Cpu}
use retro_cpu_emu.Mn1613.Float.{
  JsNumber, fp_decode, fp_encode, fp_finish, skip_if_dr0, fp_to_words, fp_normalise, fp_pack,
  FpWords,
}
use retro_cpu_emu.Mn1613.Move.{fix, flt, exec03}
use retro_cpu_emu.Mn1613.Width.Fields.{
  IsValid, Word, set_r-IsValid, set_e-IsValid, set_ovf-IsValid, or-Word,
}
use retro_cpu_emu.Mn1613.Width.Steps.{skip_if-IsValid}
use retro_cpu_emu.Mn1613.Width.Groups.{rd_port-IsValid, neg-IsValid}

-- `_fpToWords` returns two words.
pack_high :
    (n : Bool) (e m : ℕ)
    → Word (bit_or (bit_or (if n then 2 ^ 15 else 0) (e % 2 ^ 7 * 2 ^ 8)) (m / 2 ^ 16 % 2 ^ 8))
pack_high true e m = or-Word _ _ (or-Word _ _ (omega arith) (omega arith)) (omega arith)
pack_high false e m = or-Word _ _ (or-Word _ _ (omega arith) (omega arith)) (omega arith)

pub record HasWords (w : FpWords) : Type 0 where
  pub high : Word w.w0
  pub low : Word w.w1

if-HasWords : (t : Bool) (x y : FpWords) → HasWords x → HasWords y → HasWords (if t then x else y)
if-HasWords true x y hx hy = hx
if-HasWords false x y hx hy = hy

abbrev zero_HasWords : (b : Bool) → HasWords (record { w0 = 0; w1 = 0; overflow = b })
zero_HasWords b = record { high = omega arith; low = omega arith }

pub fp_finish-IsValid : (k : ℕ) (s : Cpu) → IsValid s.reg → IsValid (fp_finish k s).1.reg
unfolding fp_finish skip_if_dr0
fp_finish-IsValid k s h = skip_if-IsValid k _ _ (set_e-IsValid false s.reg h)

masked : (t : Bool) (v : ℕ) → Word (if t then 0 else v % 2 ^ 16)
masked true v = omega arith
masked false v = omega arith

module _ (js : JsNumber) where
  fp_pack-HasWords : (n : Bool) (mant : js.Num) (exp : ℤ) → HasWords (fp_pack js n mant exp)
  unfolding fp_pack
  fp_pack-HasWords n mant exp = if-HasWords _ _ _ (zero_HasWords false) (
      if-HasWords _ _ _ (zero_HasWords true) (record { high = pack_high n _ _; low = omega arith }))

  pub fp_to_words-HasWords : (v : js.Num) → HasWords (fp_to_words js v)
  unfolding fp_to_words fp_normalise
  fp_to_words-HasWords v = if-HasWords _ _ _ (zero_HasWords false) (
      if-HasWords _ _ _ (zero_HasWords true)
        (if-HasWords _ _ _ (zero_HasWords true) (fp_pack-HasWords _ _ _)))

  pub fp_encode-IsValid : (v : js.Num) (s : Cpu) → IsValid s.reg → IsValid (fp_encode js v s).1.reg
  unfolding fp_encode
  fp_encode-IsValid v s h =
      let w = fp_to_words-HasWords v in
      set_ovf-IsValid _ _ (set_r-IsValid 1 _ _ w.low (set_r-IsValid 0 _ s.reg w.high h))

  fix-IsValid : (k : ℕ) (s : Cpu) → IsValid s.reg → IsValid (fix js k s).1.reg
  unfolding fix fp_decode
  fix-IsValid k s h =
      skip_if-IsValid k _ _
        (set_r-IsValid 0 _ _ (masked _ _) (set_ovf-IsValid _ _ (set_e-IsValid false s.reg h)))

  flt-IsValid : (k : ℕ) (s : Cpu) → IsValid s.reg → IsValid (flt js k s).1.reg
  unfolding flt skip_if_dr0
  flt-IsValid k s h = skip_if-IsValid k _ _ (set_e-IsValid false _ (fp_encode-IsValid _ s h))

  pub exec03-IsValid : (rrr lo : ℕ) (s : Cpu) → IsValid s.reg → IsValid (exec03 js rrr lo s).1.reg
  unfolding exec03
  exec03-IsValid rrr lo s h =
      let k = lo / 2 ^ 4 % 16 in
      ground (
        arith,
        rd_port-IsValid rrr lo s h,
        flt-IsValid k s h,
        fix-IsValid k s h,
        neg-IsValid k (lo % 8) (has lo 8) s h,
      )
