-- ===== src/Disassembler/Skips.antt =====
-- The disassembler beside the core's skip, `_skipNext` of mn1613.ts.
use retro_cpu_emu.Shared.{
  ℕ, ◌+◌, ◌/◌, ◌%◌, ◌^◌, ◌≡◌, ◌<◌, refl, Bool, true, false, not, ◌&&◌, leb, arith, Bool-cases, inl,
  inr, ap, if◌then◌else◌,
}
use retro_cpu_emu.Mn1613.Core.{Cpu, is_2word, skip_next, rd_c}
use retro_cpu_emu.Disassembler.Labels.{Mn1613LabelTable}
use retro_cpu_emu.Disassembler.Decode.{decode_mn1613}
use retro_cpu_emu.Disassembler.Format.{disassemble}
use retro_cpu_emu.Disassembler.Lengths.{long, words, words_register, words_memory}
use retro_cpu_emu.Disassembler.Disputed.{disputed, long-is_2word, disputed-is_2word}

high_op : (op rrr lo : ℕ) → leb 0x10 op ≡ true → long op rrr lo ≡ false
high_op op rrr lo h = ground arith

-- The words of the instruction at an address are those that `_is2Word` counts, less the disputed.
pub word_count-is_2word :
    (a ir : ℕ) (read_word : ℕ → ℕ)
    → read_word (a % 2 ^ 16) % 2 ^ 16 ≡ ir
    → (decode_mn1613 a read_word).word_count ≡ words (is_2word ir && not (disputed ir))
unfolding decode_mn1613
word_count-is_2word a ir read_word e =
    let op = ir / 2 ^ 11 % 2 ^ 5 in
    let rrr = ir / 2 ^ 8 % 8 in
    let lo = ir % 2 ^ 8 in
    let extra = read_word ((a % 2 ^ 16 + 1) % 2 ^ 16) % 2 ^ 16 in
    rw e (
      rw (← long-is_2word ir) (elim (Bool-cases (leb 0x10 op)) [
        | inl h ↦ rw (h, high_op op rrr lo h) (words_memory ir op rrr lo (a % 2 ^ 16))
        | inr h ↦ rw h (words_register ir op rrr lo extra)
      ]))

is_2word-mod : (w : ℕ) → is_2word (w % 2 ^ 16) ≡ is_2word w
unfolding is_2word
is_2word-mod w =
    let e₁ : w % 2 ^ 16 / 2 ^ 11 % 2 ^ 5 ≡ w / 2 ^ 11 % 2 ^ 5 = omega arith in
    let e₂ : w % 2 ^ 16 / 2 ^ 8 % 2 ^ 3 ≡ w / 2 ^ 8 % 2 ^ 3 = omega arith in
    let e₃ : w % 2 ^ 16 % 2 ^ 8 ≡ w % 2 ^ 8 = omega arith in rw (e₁, e₂, e₃)

-- The address behind a skip, by the word at IC.
skip_next-ic :
    (s : Cpu) → (skip_next s).1.reg.ic ≡ (s.reg.ic + words (is_2word (rd_c s.reg.ic s).0)) % 2 ^ 16
unfolding skip_next rd_c
skip_next-ic s = elim (Bool-cases (is_2word (rd_c s.reg.ic s).0)) [
  | inl e ↦ rw e (omega arith)
  | inr e ↦ rw e (omega arith)
]

counted :
    (a : ℕ) (l d : Bool)
    → a < 2 ^ 16
    → (d ≡ true → l ≡ true)
    → (a + words l) % 2 ^ 16
      ≡ ((a % 2 ^ 16 + words (l && not d)) % 2 ^ 16 + (if d then 1 else 0)) % 2 ^ 16
counted a false false h i = omega arith
counted a true false h i = omega arith
counted a true true h i = omega arith
counted a false true h i = absurd (cc (i refl))

-- For an IC of 16 bits, a skip goes to the address that the disassembler gives for the instruction
-- behind the one at IC, and one word further where the two dispute the length of that word.
pub skip_next-disassemble :
    (s : Cpu) (labels : Mn1613LabelTable)
    → s.reg.ic < 2 ^ 16
    → (skip_next s).1.reg.ic
      ≡ ((disassemble labels s.reg.ic (λ a. (rd_c a s).0)).next_addr
          + (if disputed ((rd_c s.reg.ic s).0 % 2 ^ 16) then 1 else 0))
        % 2 ^ 16
unfolding disassemble
skip_next-disassemble s labels h =
    let w = (rd_c s.reg.ic s).0 in
    let e : s.reg.ic % 2 ^ 16 ≡ s.reg.ic = omega arith in
    let ir = w % 2 ^ 16 in
    let same : (rd_c (s.reg.ic % 2 ^ 16 % 2 ^ 16) s).0 % 2 ^ 16 ≡ ir =
      ap (λ a. (rd_c a s).0 % 2 ^ 16) (omega arith) in
    let count = word_count-is_2word (s.reg.ic % 2 ^ 16) ir (λ a. (rd_c a s).0) same in
    rw (skip_next-ic s, count, ← is_2word-mod w)
      (counted s.reg.ic (is_2word ir) (disputed ir) h (disputed-is_2word ir))
