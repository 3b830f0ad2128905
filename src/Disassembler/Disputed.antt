-- ===== src/Disassembler/Disputed.antt =====
-- The lengths of decode.ts against `_is2Word` of mn1613.ts, by which the core skips.
use native.Mathlib.Decide.{ℕ_discrete}
use retro_cpu_emu.Shared.{
  ℕ, ◌/◌, ◌%◌, ◌^◌, ◌≡◌, ◌≢◌, sym, subst, ◌∙◌, ap, Bool, true, false, not, ◌&&◌, ◌||◌, leb, ◌==◌,
  if◌then◌else◌, arith,
}
use retro_cpu_emu.Shared.Bits.{has, has_bit}
use retro_cpu_emu.Mn1613.Core.{is_2word}
use retro_cpu_emu.Disassembler.Lengths.{long}

-- The words that `_is2Word` takes for long and the disassembler for one word: SD and AD, the LS and
-- STS of a special register that is not there, and MVWI with register field 7.
abbrev pub disputed : ℕ → Bool
disputed ir =
    let op = ir / 2 ^ 11 % 2 ^ 5 in
    let lo = ir % 2 ^ 8 in
    ir / 2 ^ 8 % 2 ^ 3 == 7
    && ((op == 0x08 || op == 0x09) && lo / 2 ^ 2 % 2 == 1
        || op == 0x01 && lo % 16 == 0xf && leb 3 (lo / 2 ^ 4 % 8)
        || op == 0x0f && lo % 16 == 0x7)

has_8 : (lo : ℕ) → has lo 0x08 ≡ (lo / 2 ^ 3 % 2 == 1)
has_8 lo = has_bit 3 lo ∙ ap (λ (b : ℕ). b == 1) (omega arith)

has_4 : (lo : ℕ) → has lo 0x04 ≡ (lo / 2 ^ 2 % 2 == 1)
has_4 lo = has_bit 2 lo ∙ ap (λ (b : ℕ). b == 1) (omega arith)

-- `is_2word` and `disputed` by their fields.
abbrev is_2word_at : ℕ → ℕ → ℕ → Bool → Bool → Bool → Bool
is_2word_at op rrr lo b8 b40 b4 =
    if op == 0x01
    then rrr == 7 && lo % 8 == 7
    else if op == 0x02
    then rrr == 7 && not (lo == 0x0f) && not (lo == 0x07)
    else if op == 0x04
    then if rrr == 7 && b8 && not b40
      then true
      else if rrr == 7 && b8 && b40
      then true
      else rrr == 6 && (lo == 0x07 || lo == 0x17)
    else if op == 0x08 || op == 0x09
    then rrr == 7 && b4
    else if leb 0x0a op && leb op 0x0d
    then not (rrr == 7) && (lo % 16 == 0xf || lo % 16 == 0x7)
    else if op == 0x0f
    then lo % 16 == 0x7
    else false

abbrev disputed_at : ℕ → ℕ → ℕ → Bool
disputed_at op rrr lo =
    rrr == 7
    && ((op == 0x08 || op == 0x09) && lo / 2 ^ 2 % 2 == 1
        || op == 0x01 && lo % 16 == 0xf && leb 3 (lo / 2 ^ 4 % 8)
        || op == 0x0f && lo % 16 == 0x7)

abbrev Agree : ℕ → ℕ → ℕ → Bool → Type 0
Agree rrr lo op b40 = long op rrr lo ≡ (
    is_2word_at op rrr lo (lo / 2 ^ 3 % 2 == 1) b40 (lo / 2 ^ 2 % 2 == 1)
    && not (disputed_at op rrr lo))

module _ (rrr lo : ℕ) (b40 : Bool) where
  or_else : (k op : ℕ) → Agree rrr lo k b40 → (op ≢ k → Agree rrr lo op b40) → Agree rrr lo op b40
  or_else k op at_k other = elim (ℕ_discrete op k) [
    | yes e ↦ subst (λ n. Agree rrr lo n b40) (sym e) at_k
    | no ne ↦ other ne
  ]

  at_1 : Agree rrr lo 1 b40
  at_1 = ground arith

  at_2 : Agree rrr lo 2 b40
  at_2 = ground arith

  at_4 : Agree rrr lo 4 b40
  at_4 = ground arith

  at_8 : Agree rrr lo 8 b40
  at_8 = ground arith

  at_9 : Agree rrr lo 9 b40
  at_9 = ground arith

  at_10 : Agree rrr lo 10 b40
  at_10 = ground arith

  at_11 : Agree rrr lo 11 b40
  at_11 = ground arith

  at_12 : Agree rrr lo 12 b40
  at_12 = ground arith

  at_13 : Agree rrr lo 13 b40
  at_13 = ground arith

  at_15 : Agree rrr lo 15 b40
  at_15 = ground arith

  long-is_2word_at : (op : ℕ) → Agree rrr lo op b40
  long-is_2word_at op = or_else 1 op at_1 λ n1. or_else 2 op at_2 λ n2. or_else 4 op at_4 λ n4.
      or_else 8 op at_8 λ n8. or_else 9 op at_9 λ n9. or_else 10 op at_10 λ n10.
        or_else 11 op at_11 λ n11.
          or_else 12 op at_12
            λ n12. or_else 13 op at_13 λ n13. or_else 15 op at_15 λ n15. ground arith

pub long-is_2word :
    (ir : ℕ)
    → long (ir / 2 ^ 11 % 2 ^ 5) (ir / 2 ^ 8 % 8) (ir % 2 ^ 8) ≡ (is_2word ir && not (disputed ir))
unfolding is_2word
long-is_2word ir =
    rw (has_8 (ir % 2 ^ 8), has_4 (ir % 2 ^ 8))
      (long-is_2word_at (ir / 2 ^ 8 % 8) (ir % 2 ^ 8) (has (ir % 2 ^ 8) 0x40) (ir / 2 ^ 11 % 2 ^ 5))

disputed-is_2word_at :
    (op rrr lo : ℕ) (b8 b40 : Bool)
    → disputed_at op rrr lo ≡ true
    → is_2word_at op rrr lo b8 b40 (lo / 2 ^ 2 % 2 == 1) ≡ true
disputed-is_2word_at op rrr lo b8 b40 h = ground arith

pub disputed-is_2word : (ir : ℕ) → disputed ir ≡ true → is_2word ir ≡ true
unfolding is_2word
disputed-is_2word ir h = rw (has_4 (ir % 2 ^ 8)) (
    disputed-is_2word_at (ir / 2 ^ 11 % 2 ^ 5) (ir / 2 ^ 8 % 8) (ir % 2 ^ 8) (has (ir % 2 ^ 8) 0x08)
      (has (ir % 2 ^ 8) 0x40) h)
