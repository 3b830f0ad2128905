-- ===== src/Status/Flags.antt =====
-- Which bits of the status word each update of status.ts sets, and which it keeps.
use retro_cpu_emu.Shared.{ℕ, ◌%◌, ◌^◌, ◌<◌, bit_and, bit_or}
use retro_cpu_emu.Shared.{◌≡◌, refl, arith, Bool, true, false, ◌&&◌, ◌||◌, ltb, ◌==◌, if◌then◌else◌}
use retro_cpu_emu.Shared.Bits.{
  bit, bit-lt, has, and_pow, has-or, has-and, low-or, low-and, or_zero, and_ones,
}
use retro_cpu_emu.Status.{raise_if, put_flag, clear}
use retro_cpu_emu.Status.{st_lgt, st_agt, st_eq, st_c, st_ov, st_op, st_x}

-- A status word as the code tests it: its flags, and the nine low bits.
pub record Flags : Type 0 where
  pub lgt : Bool
  pub agt : Bool
  pub eq : Bool
  pub c : Bool
  pub ov : Bool
  pub op : Bool
  pub x : Bool
  pub low : ℕ

unfoldable pub flags : ℕ → Flags
flags st = record {
  lgt = has st st_lgt;
  agt = has st st_agt;
  eq = has st st_eq;
  c = has st st_c;
  ov = has st st_ov;
  op = has st st_op;
  x = has st st_x;
  low = st % 2 ^ 9;
}

-- What `| mask` and `& mask` do to the flags; at a numeral mask the tests compute.
abbrev or_flags : Flags → ℕ → Flags
or_flags f m = record {
  lgt = f.lgt || bit m 15 == 1;
  agt = f.agt || bit m 14 == 1;
  eq = f.eq || bit m 13 == 1;
  c = f.c || bit m 12 == 1;
  ov = f.ov || bit m 11 == 1;
  op = f.op || bit m 10 == 1;
  x = f.x || bit m 9 == 1;
  low = bit_or f.low (m % 2 ^ 9);
}

abbrev and_flags : Flags → ℕ → Flags
and_flags f m = record {
  lgt = f.lgt && bit m 15 == 1;
  agt = f.agt && bit m 14 == 1;
  eq = f.eq && bit m 13 == 1;
  c = f.c && bit m 12 == 1;
  ov = f.ov && bit m 11 == 1;
  op = f.op && bit m 10 == 1;
  x = f.x && bit m 9 == 1;
  low = bit_and f.low (m % 2 ^ 9);
}

pub flags-or : (a m : ℕ) → flags (bit_or a m) ≡ or_flags (flags a) m
unfolding flags
flags-or a m = λ i. record {
  lgt = has-or 15 a m i;
  agt = has-or 14 a m i;
  eq = has-or 13 a m i;
  c = has-or 12 a m i;
  ov = has-or 11 a m i;
  op = has-or 10 a m i;
  x = has-or 9 a m i;
  low = low-or 9 a m i;
}

pub flags-and : (a m : ℕ) → flags (bit_and a m) ≡ and_flags (flags a) m
unfolding flags
flags-and a m = λ i. record {
  lgt = has-and 15 a m i;
  agt = has-and 14 a m i;
  eq = has-and 13 a m i;
  c = has-and 12 a m i;
  ov = has-and 11 a m i;
  op = has-and 10 a m i;
  x = has-and 9 a m i;
  low = low-and 9 a m i;
}

pub flags-if : (t : Bool) (a b : ℕ) → flags (if t then a else b) ≡ (if t then flags a else flags b)
flags-if true a b = refl
flags-if false a b = refl

low-lt : (st : ℕ) → (flags st).low < 2 ^ 9
unfolding flags
low-lt st = omega arith

-- The low bits pass through a mask that has all nine of them.
low_kept : (st : ℕ) → bit_and (flags st).low 511 ≡ (flags st).low
low_kept st = omega (arith, and_ones 9 (flags st).low, low-lt st)

ruleset word_laws = (flags-or, flags-and, or_zero, low_kept)

pub flags-clear_lae :
    (st : ℕ) → flags (clear st 0xe000) ≡ record (flags st) { lgt = false; agt = false; eq = false }
flags-clear_lae st = simp word_laws (ground arith)

pub flags-clear_laeo :
    (st : ℕ)
    → flags (clear st 0xe400)
      ≡ record (flags st) { lgt = false; agt = false; eq = false; op = false }
flags-clear_laeo st = simp word_laws (ground arith)

pub flags-or_eq : (st : ℕ) → flags (bit_or st st_eq) ≡ record (flags st) { eq = true }
flags-or_eq st = simp word_laws (ground arith)

pub flags-or_lgt : (st : ℕ) → flags (bit_or st st_lgt) ≡ record (flags st) { lgt = true }
flags-or_lgt st = simp word_laws (ground arith)

pub flags-raise_eq :
    (st : ℕ) (b : Bool)
    → flags (raise_if st st_eq b) ≡ record (flags st) { eq = (flags st).eq || b }
unfolding raise_if
flags-raise_eq st true = simp word_laws (ground arith)
flags-raise_eq st false = ground arith

pub flags-raise_lgt :
    (st : ℕ) (b : Bool)
    → flags (raise_if st st_lgt b) ≡ record (flags st) { lgt = (flags st).lgt || b }
unfolding raise_if
flags-raise_lgt st true = simp word_laws (ground arith)
flags-raise_lgt st false = ground arith

pub flags-raise_agt :
    (st : ℕ) (b : Bool)
    → flags (raise_if st st_agt b) ≡ record (flags st) { agt = (flags st).agt || b }
unfolding raise_if
flags-raise_agt st true = simp word_laws (ground arith)
flags-raise_agt st false = ground arith

pub flags-raise_op :
    (st : ℕ) (b : Bool)
    → flags (raise_if st st_op b) ≡ record (flags st) { op = (flags st).op || b }
unfolding raise_if
flags-raise_op st true = simp word_laws (ground arith)
flags-raise_op st false = ground arith

pub flags-put_c : (st : ℕ) (b : Bool) → flags (put_flag st st_c b) ≡ record (flags st) { c = b }
unfolding put_flag
flags-put_c st true = simp word_laws (ground arith)
flags-put_c st false = simp word_laws (ground arith)

pub flags-put_ov : (st : ℕ) (b : Bool) → flags (put_flag st st_ov b) ≡ record (flags st) { ov = b }
unfolding put_flag
flags-put_ov st true = simp word_laws (ground arith)
flags-put_ov st false = simp word_laws (ground arith)

pub flags-put_eq : (st : ℕ) (b : Bool) → flags (put_flag st st_eq b) ≡ record (flags st) { eq = b }
unfolding put_flag
flags-put_eq st true = simp word_laws (ground arith)
flags-put_eq st false = simp word_laws (ground arith)

pub ruleset flag_laws = (
  flags-if, flags-clear_lae, flags-clear_laeo, flags-or_eq, flags-or_lgt, flags-raise_eq,
  flags-raise_lgt, flags-raise_agt, flags-raise_op, flags-put_c, flags-put_ov, flags-put_eq,
)

-- Bit 15 of a word, and bit 7 of a byte, tell whether the signed reading is negative.
pub sign_bit : (r : ℕ) → r < 2 ^ 16 → (bit_and r 0x8000 == 0) ≡ ltb r 0x8000
sign_bit r h = ground (arith, and_pow 15 r, bit-lt 15 r)

pub sign_bit_byte : (r : ℕ) → r < 2 ^ 8 → (bit_and r 0x80 == 0) ≡ ltb r 0x80
sign_bit_byte r h = ground (arith, and_pow 7 r, bit-lt 7 r)
