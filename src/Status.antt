-- ===== src/Status.antt =====
-- The TMS9995 status word: retrocpu_emu_ts/src/cpuboard/tms9995/status.ts, the masks of types.ts,
-- and `testCondition` of execute.ts. A mask to 16 or 8 bits is written `% 2 ^ 16`, `% 2 ^ 8`, and
-- `&`, `|` with a flag's mask are the native bit operations.
pub mod Flags
pub mod Results
use retro_cpu_emu.Shared.{ℕ, zero, suc, ◌+◌, ◌-◌, ◌/◌, ◌%◌, ◌^◌, bit_and, bit_or}
use retro_cpu_emu.Shared.{Bool, true, false, not, ◌&&◌, ◌||◌, ltb, leb, ◌==◌, if◌then◌else◌}
use retro_cpu_emu.Shared.Bits.{has}
use retro_cpu_emu.Shared.Int.{ℤ, pos, negsuc, ltb_ℤ}

abbrev pub st_lgt : ℕ
st_lgt = 0x8000

abbrev pub st_agt : ℕ
st_agt = 0x4000

abbrev pub st_eq : ℕ
st_eq = 0x2000

abbrev pub st_c : ℕ
st_c = 0x1000

abbrev pub st_ov : ℕ
st_ov = 0x0800

abbrev pub st_op : ℕ
st_op = 0x0400

abbrev pub st_x : ℕ
st_x = 0x0200

-- `st & ~mask`; `~` is the complement to 32 bits.
abbrev pub clear : ℕ → ℕ → ℕ
clear st mask = bit_and st (2 ^ 32 - 1 - mask)

-- `flag ? st | mask : st & ~mask`
unfoldable pub put_flag : ℕ → ℕ → Bool → ℕ
put_flag st mask flag = if flag then bit_or st mask else clear st mask

-- `if (flag) st |= mask`
unfoldable pub raise_if : ℕ → ℕ → Bool → ℕ
raise_if st mask flag = if flag then bit_or st mask else st

-- `(x << 16) >> 16` and `(x << 24) >> 24`: the signed reading of the low bits.
abbrev pub signed16 : ℕ → ℤ
signed16 x =
    if ltb (x % 2 ^ 16) (2 ^ 15) then pos (x % 2 ^ 16) else negsuc (2 ^ 16 - x % 2 ^ 16 - 1)

abbrev pub signed8 : ℕ → ℤ
signed8 x = if ltb (x % 2 ^ 8) (2 ^ 7) then pos (x % 2 ^ 8) else negsuc (2 ^ 8 - x % 2 ^ 8 - 1)

unfoldable pub set_lae_word : ℕ → ℕ → ℕ
set_lae_word st result =
    let r = result % 2 ^ 16 in
    let out = clear st 0xe000 in
    if r == 0 then bit_or out st_eq else raise_if (bit_or out st_lgt) st_agt (bit_and r 0x8000 == 0)

-- `for (let i = 0; i < 8; i += 1) if ((b >> i) & 1) ones += 1;` with `left` rounds to go.
unfoldable pub count_ones : ℕ → ℕ → ℕ → ℕ → ℕ
count_ones zero i b ones = ones
count_ones (suc left) i b ones =
    count_ones left (i + 1) b (if b / 2 ^ i % 2 == 1 then ones + 1 else ones)

unfoldable pub set_lae_byte : ℕ → ℕ → ℕ
set_lae_byte st result_byte =
    let b = result_byte % 2 ^ 8 in
    let cleared = clear st 0xe400 in
    let out =
      if b == 0
      then bit_or cleared st_eq
      else raise_if (bit_or cleared st_lgt) st_agt (bit_and b 0x80 == 0) in
    raise_if out st_op (count_ones 8 0 b 0 % 2 == 1)

unfoldable pub set_compare_word : ℕ → ℕ → ℕ → ℕ
set_compare_word st dest src =
    let d = dest % 2 ^ 16 in
    let s = src % 2 ^ 16 in
    let out₀ = clear st 0xe000 in
    let out₁ = raise_if out₀ st_eq (d == s) in
    let out₂ = raise_if out₁ st_lgt (ltb s d) in
    raise_if out₂ st_agt (ltb_ℤ (signed16 s) (signed16 d))

unfoldable pub set_compare_byte : ℕ → ℕ → ℕ → ℕ
set_compare_byte st dest_byte src_byte =
    let d = dest_byte % 2 ^ 8 in
    let s = src_byte % 2 ^ 8 in
    let out₀ = clear st 0xe400 in
    let out₁ = raise_if out₀ st_eq (d == s) in
    let out₂ = raise_if out₁ st_lgt (ltb s d) in
    let out₃ = raise_if out₂ st_agt (ltb_ℤ (signed8 s) (signed8 d)) in
    raise_if out₃ st_op (count_ones 8 0 d 0 % 2 == 1)

abbrev pub is_pos : ℤ → Bool
is_pos z = ltb_ℤ (pos 0) z

abbrev pub is_neg : ℤ → Bool
is_neg z = ltb_ℤ z (pos 0)

unfoldable pub set_add_flags : ℕ → ℕ → ℕ → ℕ → ℕ
set_add_flags st a b result =
    let aa = a % 2 ^ 16 in
    let bb = b % 2 ^ 16 in
    let sum = aa + bb in
    let out = put_flag (set_lae_word st result) st_c (ltb 0xffff sum) in
    let sa = signed16 aa in
    let sb = signed16 bb in
    let sr = signed16 result in
    let ov = (is_pos sa && is_pos sb && is_neg sr) || (is_neg sa && is_neg sb && not (is_neg sr)) in
    put_flag out st_ov ov

unfoldable pub set_sub_flags : ℕ → ℕ → ℕ → ℕ → ℕ
set_sub_flags st a b result =
    let aa = a % 2 ^ 16 in
    let bb = b % 2 ^ 16 in
    let out = put_flag (set_lae_word st result) st_c (leb bb aa) in
    let sa = signed16 aa in
    let sb = signed16 bb in
    let sr = signed16 result in
    let ov =
      (not (is_neg sa) && is_neg sb && is_neg sr)
      || (is_neg sa && not (is_neg sb) && not (is_neg sr)) in
    put_flag out st_ov ov

unfoldable pub interrupt_mask : ℕ → ℕ
interrupt_mask st = bit_and st 0x000f

-- `testCondition`: the code is taken from bits 4 to 7 of `cond`.
unfoldable pub test_condition : ℕ → ℕ → Bool
test_condition cond st =
    let c = cond / 2 ^ 4 % 16 in
    let lgt = has st st_lgt in
    let agt = has st st_agt in
    let eq = has st st_eq in
    let carry = has st st_c in
    let ov = has st st_ov in
    let op = has st st_op in
    if c == 0x0
    then true
    else if c == 0x2
    then not agt && not eq
    else if c == 0x3
    then not lgt || eq
    else if c == 0x4
    then eq
    else if c == 0x5
    then lgt || eq
    else if c == 0x6
    then agt
    else if c == 0x7
    then not eq
    else if c == 0x8
    then not carry
    else if c == 0x9
    then carry
    else if c == 0xa
    then not ov
    else if c == 0xb
    then not lgt && not eq
    else if c == 0xc
    then lgt && not eq
    else if c == 0xd
    then op
    else false
