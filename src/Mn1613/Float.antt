-- ===== src/Mn1613/Float.antt =====
-- The floating point of the MN1613 core: the words of an IBM hexadecimal float, and the common
-- parts of its instructions. retrocpu_emu_ts/src/cpuboard/mn1613/mn1613.ts. The numbers of
-- JavaScript, which are not code of the repository, are the parameter `JsNumber`.
use retro_cpu_emu.Shared.{
  ℕ, zero, suc, ◌+◌, ◌*◌, ◌/◌, ◌%◌, ◌^◌, bit_or, Bool, true, false, not, ◌&&◌, ◌||◌, ◌==◌,
  if◌then◌else◌,
}
use retro_cpu_emu.Shared.Int.{ℤ, pos, ◌+ℤ◌, ◌-ℤ◌, ltb_ℤ, pos_part}
use retro_cpu_emu.Shared.State.{State, ◌>>=◌, ◌>>◌, return}
use retro_cpu_emu.Mn1613.Core.{Cpu, rd_c, modify_reg, get_reg, set_r, set_e, set_ovf, skip_if}

-- `to_int` is the value of an integral number, and `to_uint32` the 32 bits that `&` and `>>>` read.
pub record JsNumber : Type 1 where
  pub Num : Type 0
  pub of_int : ℤ → Num
  pub to_int : Num → ℤ
  pub to_uint32 : Num → ℕ
  pub add : Num → Num → Num
  pub sub : Num → Num → Num
  pub mul : Num → Num → Num
  pub div : Num → Num → Num
  pub neg : Num → Num
  pub abs : Num → Num
  pub floor : Num → Num
  pub round : Num → Num
  pub trunc : Num → Num
  pub log : Num → Num
  pub pow : Num → Num → Num
  pub lt : Num → Num → Bool
  pub eq : Num → Num → Bool
  pub is_finite : Num → Bool

-- The object that `_fpToWords` returns.
pub record FpWords : Type 0 where
  pub w0 : ℕ
  pub w1 : ℕ
  pub overflow : Bool

abbrev zero_words : Bool → FpWords
zero_words overflow = record { w0 = 0; w1 = 0; overflow = overflow }

module _ (js : JsNumber) where
  abbrev num : ℕ → js.Num
  num n = js.of_int (pos n)

  abbrev zero_num : js.Num
  zero_num = num 0

  unfoldable pub fp_from_words : ℕ → ℕ → js.Num
  fp_from_words w0 w1 =
      if bit_or w0 w1 == 0
      then zero_num
      else let exp = w0 / 2 ^ 8 % 2 ^ 7 in
        let mant = bit_or (w0 % 2 ^ 8 * 2 ^ 16) (w1 % 2 ^ 16) in
        let val = js.mul (num mant) (js.pow (num 16) (js.of_int (pos exp -ℤ pos 70))) in
        if w0 / 2 ^ 15 == 0 then val else js.neg val

  -- `while (mant < 0x100000 && exp > 0) { mant *= 16; exp--; }`
  unfoldable pub grow : ℕ → js.Num → ℤ → js.Num × ℤ
  grow zero mant exp = (mant, exp)
  grow (suc fuel) mant exp = elim (js.lt mant (num 0x100000) && ltb_ℤ (pos 0) exp) [
    | false ↦ (mant, exp)
    | true ↦ grow fuel (js.mul mant (num 16)) (exp -ℤ pos 1)
  ]

  -- `while (mant >= 0x1000000 && exp < 127) { mant = Math.floor(mant / 16); exp++; }`
  unfoldable pub shrink : ℕ → js.Num → ℤ → js.Num × ℤ
  shrink zero mant exp = (mant, exp)
  shrink (suc fuel) mant exp = elim (not (js.lt mant (num 0x1000000)) && ltb_ℤ exp (pos 127)) [
    | false ↦ (mant, exp)
    | true ↦ shrink fuel (js.floor (js.div mant (num 16))) (exp +ℤ pos 1)
  ]

  -- After the loops: underflow, overflow, or the fields of the two words.
  unfoldable pub fp_pack : Bool → js.Num → ℤ → FpWords
  fp_pack negative mant exp =
      if ltb_ℤ exp (pos 0) || js.lt mant (num 0x100000)
      then zero_words false
      else if ltb_ℤ (pos 127) exp || not (js.lt mant (num 0x1000000))
      then zero_words true
      else let m = js.to_uint32 mant % 2 ^ 24 in
        record {
          w0 =
              bit_or (bit_or (if negative then 2 ^ 15 else 0) (pos_part exp % 2 ^ 7 * 2 ^ 8))
                (m / 2 ^ 16 % 2 ^ 8);
          w1 = m % 2 ^ 16;
          overflow = false;
        }

  -- The two loops, each with the fuel that its exponent leaves it.
  unfoldable pub fp_normalise : Bool → js.Num → ℤ → FpWords
  fp_normalise negative mant exp =
      let (m₁, e₁) = grow (pos_part exp) mant exp in
      let (m₂, e₂) = shrink (pos_part (pos 127 -ℤ e₁)) m₁ e₁ in fp_pack negative m₂ e₂

  unfoldable pub fp_to_words : js.Num → FpWords
  fp_to_words v =
      if js.eq v zero_num
      then zero_words false
      else if not (js.is_finite v)
      then zero_words true
      else let size = js.abs v in
        let exp = js.add (js.floor (js.div (js.log size) (js.log (num 16)))) (num 65) in
        if not (js.is_finite exp)
        then zero_words true
        else fp_normalise (js.lt v zero_num)
            (js.round (js.mul size (js.pow (num 16) (js.sub (num 70) exp)))) (js.to_int exp)

  unfoldable pub fp_decode : State Cpu js.Num
  fp_decode = do
    w0 ← get_reg (λ reg. reg.r 0)
    w1 ← get_reg (λ reg. reg.r 1)
    return (fp_from_words w0 w1)

  unfoldable pub fp_encode : js.Num → State Cpu (Unit {0})
  fp_encode v = do
    let enc = fp_to_words v
    set_r 0 enc.w0
    set_r 1 enc.w1
    modify_reg (set_ovf enc.overflow)

  unfoldable pub fp_decode_at : ℕ → State Cpu js.Num
  fp_decode_at ea = do w0 ← rd_c ea; w1 ← rd_c ((ea + 1) % 2 ^ 16); return (fp_from_words w0 w1)

-- `if (_skip(kkkk, R[0] | R[1])) _skipNext();`
unfoldable pub skip_if_dr0 : ℕ → State Cpu (Unit {0})
skip_if_dr0 kkkk s = skip_if kkkk (bit_or (s.reg.r 0) (s.reg.r 1)) s

unfoldable pub fp_finish : ℕ → State Cpu (Unit {0})
fp_finish kkkk = do modify_reg (set_e false); skip_if_dr0 kkkk
