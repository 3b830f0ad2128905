-- ===== src/Status/Results.antt =====
-- What each update of status.ts makes of the flags.
use retro_cpu_emu.Shared.{ℕ, ◌+◌, ◌-◌, ◌%◌, ◌^◌}
use retro_cpu_emu.Shared.{◌≡◌, arith, Bool, not, ◌&&◌, ◌||◌, ltb, leb, ◌==◌, Bool-cases, inl, inr}
use retro_cpu_emu.Shared.Int.{ℤ, pos, negsuc, ltb_ℤ, ◌+ℤ◌, ◌-ℤ◌}
use retro_cpu_emu.Status.{
  set_lae_word, set_lae_byte, set_compare_word, set_compare_byte, set_add_flags, set_sub_flags,
  signed16, signed8, count_ones, is_pos, is_neg,
}
use retro_cpu_emu.Status.Flags.{flags, flag_laws, sign_bit, sign_bit_byte}

-- After a result: logically greater iff it is not zero, arithmetically greater iff its signed
-- reading is positive, equal iff it is zero; no other bit of the status changes.
pub flags-set_lae_word :
    (st r : ℕ)
    → flags (set_lae_word st r) ≡ record (flags st) {
      lgt = not (r % 2 ^ 16 == 0);
      agt = ltb_ℤ (pos 0) (signed16 r);
      eq = r % 2 ^ 16 == 0;
    }
unfolding set_lae_word
flags-set_lae_word st r = rw (sign_bit (r % 2 ^ 16) (omega arith)) (simp flag_laws (ground arith))

-- After a byte result: as for a word, on the low byte, and the odd parity of that byte.
pub flags-set_lae_byte :
    (st r : ℕ)
    → flags (set_lae_byte st r) ≡ record (flags st) {
      lgt = not (r % 2 ^ 8 == 0);
      agt = ltb_ℤ (pos 0) (signed8 r);
      eq = r % 2 ^ 8 == 0;
      op = count_ones 8 0 (r % 2 ^ 8) 0 % 2 == 1;
    }
unfolding set_lae_byte
flags-set_lae_byte st r =
    rw (sign_bit_byte (r % 2 ^ 8) (omega arith)) (simp flag_laws (ground arith))

-- After a comparison of words: greater as numbers, greater as signed numbers, equal; no other
-- bit changes.
flags-set_compare_word :
    (st d s : ℕ)
    → flags (set_compare_word st d s) ≡ record (flags st) {
      lgt = ltb (s % 2 ^ 16) (d % 2 ^ 16);
      agt = ltb_ℤ (signed16 s) (signed16 d);
      eq = d % 2 ^ 16 == s % 2 ^ 16;
    }
unfolding set_compare_word
flags-set_compare_word st d s = simp flag_laws (ground arith)

-- After a comparison of bytes: as for words, on the low bytes, and the odd parity of the
-- destination byte.
pub flags-set_compare_byte :
    (st d s : ℕ)
    → flags (set_compare_byte st d s) ≡ record (flags st) {
      lgt = ltb (s % 2 ^ 8) (d % 2 ^ 8);
      agt = ltb_ℤ (signed8 s) (signed8 d);
      eq = d % 2 ^ 8 == s % 2 ^ 8;
      op = count_ones 8 0 (d % 2 ^ 8) 0 % 2 == 1;
    }
unfolding set_compare_byte
flags-set_compare_byte st d s = simp flag_laws (ground arith)

-- A signed number that a 16-bit word holds.
abbrev pub fits16 : ℤ → Bool
fits16 z = not (ltb_ℤ z (negsuc (2 ^ 15 - 1))) && ltb_ℤ z (pos (2 ^ 15))

-- The signs of the operands and of the wrapped sum show whether the signed sum fits.
add_overflow :
    (a b : ℕ)
    → let sa = signed16 (a % 2 ^ 16) in
      let sb = signed16 (b % 2 ^ 16) in
      let sr = signed16 ((a + b) % 2 ^ 16) in
      ((is_pos sa && is_pos sb && is_neg sr) || (is_neg sa && is_neg sb && not (is_neg sr)))
      ≡ not (fits16 (signed16 a +ℤ signed16 b))
add_overflow a b = elim (Bool-cases (ltb (a % 2 ^ 16) (2 ^ 15))) [
  | inl p ↦ elim (Bool-cases (ltb (b % 2 ^ 16) (2 ^ 15))) [
    | inl q ↦ ground arith
    | inr q ↦ ground arith
  ]
  | inr p ↦ elim (Bool-cases (ltb (b % 2 ^ 16) (2 ^ 15))) [
    | inl q ↦ ground arith
    | inr q ↦ ground arith
  ]
]

-- After an addition: the flags of the sum, the carry out of bit 15, and overflow exactly when the
-- sum of the signed readings does not fit a word; no other bit changes.
flags-set_add_flags :
    (st a b : ℕ)
    → flags (set_add_flags st a b ((a + b) % 2 ^ 16)) ≡ record (flags st) {
      lgt = not ((a + b) % 2 ^ 16 == 0);
      agt = ltb_ℤ (pos 0) (signed16 (a + b));
      eq = (a + b) % 2 ^ 16 == 0;
      c = leb (2 ^ 16) (a % 2 ^ 16 + b % 2 ^ 16);
      ov = not (fits16 (signed16 a +ℤ signed16 b));
    }
unfolding set_add_flags
flags-set_add_flags st a b = simp (flag_laws, flags-set_lae_word, add_overflow) (ground arith)

-- After a subtraction: the flags of the difference, the carry exactly when there is no borrow, and
-- overflow exactly when the difference of the signed readings does not fit a word; no other bit
-- changes.
flags-set_sub_flags :
    (st a b : ℕ)
    → flags (set_sub_flags st a b ((a + 2 ^ 16 - b % 2 ^ 16) % 2 ^ 16)) ≡ record (flags st) {
      lgt = not (a % 2 ^ 16 == b % 2 ^ 16);
      agt = ltb_ℤ (pos 0) (signed16 (a + 2 ^ 16 - b % 2 ^ 16));
      eq = a % 2 ^ 16 == b % 2 ^ 16;
      c = leb (b % 2 ^ 16) (a % 2 ^ 16);
      ov = not (fits16 (signed16 a -ℤ signed16 b));
    }
unfolding set_sub_flags
flags-set_sub_flags st a b = simp (flag_laws, flags-set_lae_word) (ground arith)
