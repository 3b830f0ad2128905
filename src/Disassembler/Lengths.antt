-- ===== src/Disassembler/Lengths.antt =====
-- The number of words of a decoded instruction, group by group: decode.ts.
use retro_cpu_emu.Shared.{
  ℕ, zero, suc, ◌/◌, ◌%◌, ◌^◌, ◌≡◌, refl, Bool, true, false, not, ◌&&◌, ◌||◌, leb, ◌==◌,
  if◌then◌else◌, arith,
}
use Prim.Native.String.{String}
use retro_cpu_emu.Disassembler.Moves.{decode01, decode01_two, decode01_copy, decode02, decode03}
use retro_cpu_emu.Disassembler.Extended.{decode04, decode04_two, decode04_rest, decode07}
use retro_cpu_emu.Disassembler.Alu.{
  decode0a, decode0b, decode0c, decode0d, decode0e, decode0f, decode_double, decode_reg_family,
  FamilySpec,
}
use retro_cpu_emu.Disassembler.Decode.{decode_register, decode_memory}

abbrev pub words : Bool → ℕ
words long = if long then 2 else 1

words01_two :
    (ir b : ℕ) (bit7 bit3 : Bool) (ad : ℕ)
    → (decode01_two ir b bit7 bit3 ad).word_count ≡ words (not (bit3 && leb 3 b))
unfolding decode01_two
words01_two ir b false false ad = refl
words01_two ir b true false ad = refl
words01_two ir zero bit7 true ad = ground arith
words01_two ir (suc zero) bit7 true ad = ground arith
words01_two ir (suc (suc zero)) bit7 true ad = ground arith
words01_two ir (suc (suc (suc b))) bit7 true ad = ground arith

words01_copy :
    (ir b : ℕ) (bit7 bit3 : Bool) (r : ℕ) → (decode01_copy ir b bit7 bit3 r).word_count ≡ 1
unfolding decode01_copy
words01_copy ir b bit7 false r = refl
words01_copy ir zero bit7 true r = refl
words01_copy ir (suc zero) bit7 true r = refl
words01_copy ir (suc (suc zero)) bit7 true r = refl
words01_copy ir (suc (suc (suc b))) bit7 true r = refl

words01 :
    (ir rrr lo extra : ℕ)
    → (decode01 ir rrr lo extra).word_count
      ≡ words (rrr == 7 && lo % 8 == 7 && not (lo / 2 ^ 3 % 2 == 1 && leb 3 (lo / 2 ^ 4 % 8)))
unfolding decode01
words01 ir rrr lo extra = ground (
  arith,
  words01_two ir (lo / 2 ^ 4 % 8) (lo / 2 ^ 7 % 2 == 1) (lo / 2 ^ 3 % 2 == 1) extra,
  words01_copy ir (lo / 2 ^ 4 % 8) (lo / 2 ^ 7 % 2 == 1) (lo / 2 ^ 3 % 2 == 1) (lo % 8),
)

words02 :
    (ir rrr lo k extra : ℕ)
    → (decode02 ir rrr lo k extra).word_count
      ≡ words (rrr == 7 && not (lo == 0x0f) && not (lo == 0x07))
unfolding decode02
words02 ir rrr lo k extra = ground arith

words03 : (ir rrr lo k : ℕ) → (decode03 ir rrr lo k).word_count ≡ 1
unfolding decode03
words03 ir rrr lo k = ground arith

words07 : (ir rrr lo k : ℕ) → (decode07 ir rrr lo k).word_count ≡ 1
unfolding decode07
words07 ir rrr lo k = ground arith

words0e : (ir rrr lo k : ℕ) → (decode0e ir rrr lo k).word_count ≡ 1
unfolding decode0e
words0e ir rrr lo k = ground arith

words0f :
    (ir rrr lo k extra : ℕ)
    → (decode0f ir rrr lo k extra).word_count ≡ words (not (rrr == 7) && lo % 16 == 0x07)
unfolding decode0f
words0f ir rrr lo k extra = ground arith

words_double : (m n : String) (ir rrr lo k : ℕ) → (decode_double m n ir rrr lo k).word_count ≡ 1
unfolding decode_double
words_double m n ir rrr lo k = ground arith

words_family :
    (ir rrr lo k extra : ℕ) (spec : FamilySpec)
    → (decode_reg_family ir rrr lo k extra spec).word_count ≡ words (not (rrr == 7) && lo % 8 == 7)
unfolding decode_reg_family
words_family ir rrr lo k extra spec = ground arith

words04_two : (ir lo ad : ℕ) → (decode04_two ir lo ad).word_count ≡ 2
unfolding decode04_two
words04_two ir lo ad = ground arith

words04_rest : (ir rrr lo k b32 : ℕ) → (decode04_rest ir rrr lo k b32).word_count ≡ 1
unfolding decode04_rest
words04_rest ir rrr lo k b32 = ground arith

words04 :
    (ir rrr lo k b32 extra : ℕ)
    → (decode04 ir rrr lo k b32 extra).word_count
      ≡ words (rrr == 7 && lo / 2 ^ 3 % 2 == 1 || rrr == 6 && (lo == 0x07 || lo == 0x17))
unfolding decode04
words04 ir rrr lo k b32 extra =
    ground (arith, words04_two ir lo extra, words04_rest ir rrr lo k b32)

words0a :
    (ir rrr lo k extra : ℕ)
    → (decode0a ir rrr lo k extra).word_count ≡ words (not (rrr == 7) && lo % 8 == 7)
unfolding decode0a
words0a ir rrr lo k extra = ground (arith, words_family ir rrr lo k extra)

words0b :
    (ir rrr lo k extra : ℕ)
    → (decode0b ir rrr lo k extra).word_count ≡ words (not (rrr == 7) && lo % 8 == 7)
unfolding decode0b
words0b ir rrr lo k extra = ground arith

words0c :
    (ir rrr lo k extra : ℕ)
    → (decode0c ir rrr lo k extra).word_count ≡ words (not (rrr == 7) && lo % 8 == 7)
unfolding decode0c
words0c ir rrr lo k extra = ground arith

words0d :
    (ir rrr lo k extra : ℕ)
    → (decode0d ir rrr lo k extra).word_count ≡ words (not (rrr == 7) && lo % 8 == 7)
unfolding decode0d
words0d ir rrr lo k extra = ground arith

pub words_memory : (ir op rrr lo a : ℕ) → (decode_memory ir op rrr lo a).word_count ≡ 1
unfolding decode_memory
words_memory ir op rrr lo a = ground arith

-- The long instructions, by group.
abbrev pub long : ℕ → ℕ → ℕ → Bool
long op rrr lo =
    if op == 0x01
    then rrr == 7 && lo % 8 == 7 && not (lo / 2 ^ 3 % 2 == 1 && leb 3 (lo / 2 ^ 4 % 8))
    else if op == 0x02
    then rrr == 7 && not (lo == 0x0f) && not (lo == 0x07)
    else if op == 0x04
    then rrr == 7 && lo / 2 ^ 3 % 2 == 1 || rrr == 6 && (lo == 0x07 || lo == 0x17)
    else if leb 0x0a op && leb op 0x0d || op == 0x0f
    then not (rrr == 7) && lo % 8 == 7 && not (op == 0x0f && lo / 2 ^ 3 % 2 == 1)
    else false

pub words_register :
    (ir op rrr lo extra : ℕ)
    → (decode_register ir op rrr lo extra).word_count ≡ words (long op rrr lo)
unfolding decode_register
words_register ir op rrr lo extra = ground (
  arith,
  words01 ir rrr lo extra,
  words02 ir rrr lo (lo / 2 ^ 4 % 16) extra,
  words03 ir rrr lo (lo / 2 ^ 4 % 16),
  words04 ir rrr lo (lo / 2 ^ 4 % 16) (lo / 2 ^ 2 % 4) extra,
  words07 ir rrr lo (lo / 2 ^ 4 % 16),
  words_double "SD" "SI" ir rrr lo (lo / 2 ^ 4 % 16),
  words_double "AD" "AI" ir rrr lo (lo / 2 ^ 4 % 16),
  words0a ir rrr lo (lo / 2 ^ 4 % 16) extra,
  words0b ir rrr lo (lo / 2 ^ 4 % 16) extra,
  words0c ir rrr lo (lo / 2 ^ 4 % 16) extra,
  words0d ir rrr lo (lo / 2 ^ 4 % 16) extra,
  words0e ir rrr lo (lo / 2 ^ 4 % 16),
  words0f ir rrr lo (lo / 2 ^ 4 % 16) extra,
)
