-- ===== src/Addressing/Operands.antt =====
-- Operands: what is written to one is read from it.
use retro_cpu_emu.Shared.{ℕ, ◌+◌, ◌*◌, ◌%◌, ◌^◌, ◌≡◌, sym, ◌∙◌, ap, subst, arith, bit_or, false}
use retro_cpu_emu.Shared.Bits.{or_fields}
use retro_cpu_emu.IoMmap.{is_io_addr}
use retro_cpu_emu.Machine.{
  Machine, read_reg, write_reg, read_word, write_word, read_byte, write_byte,
}
use retro_cpu_emu.Machine.Memory.{
  write_word-Frame, read_word-Frame, read_word-write_word, read_byte-value, write_byte-memory,
  PlainWord,
}
use retro_cpu_emu.Addressing.{
  Ea, in_reg, at_addr, read_word_ea, write_word_ea, read_byte_ea, write_byte_ea,
}

-- The address of a workspace register.
abbrev pub reg_addr : Machine → ℕ → ℕ
reg_addr s n = s.wp + n % 16 * 2

write_reg-wp : (n v : ℕ) (s : Machine) → (write_reg n v s).1.wp ≡ s.wp
unfolding write_reg
write_reg-wp n v s = ap (λ (m : Machine). m.wp) (write_word-Frame (reg_addr s n) (v % 2 ^ 16) s)

read_reg-wp : (n : ℕ) (s : Machine) → (read_reg n s).1.wp ≡ s.wp
unfolding read_reg
read_reg-wp n s = ap (λ (m : Machine). m.wp) (read_word-Frame (reg_addr s n) s)

-- A register whose word lies outside the memory-mapped IO holds what was written to it.
pub read_reg-write_reg :
    (n v : ℕ) (s : Machine)
    → PlainWord (reg_addr s n)
    → (read_reg n (write_reg n v s).1).0 ≡ v % 2 ^ 16
unfolding read_reg write_reg
read_reg-write_reg n v s h =
    let s' = (write_word (reg_addr s n) (v % 2 ^ 16) s).1 in
    let e : s'.wp ≡ s.wp =
      ap (λ (m : Machine). m.wp) (write_word-Frame (reg_addr s n) (v % 2 ^ 16) s) in
    let p : (read_word (reg_addr s n) s').0 ≡ v % 2 ^ 16 % 2 ^ 16 =
      read_word-write_word (reg_addr s n) (v % 2 ^ 16) s h in
    ap (λ (w : ℕ). (read_word (w + n % 16 * 2) s').0) e ∙ p ∙ omega arith

-- The operand's word lies outside the memory-mapped IO.
abbrev pub PlainEa : Machine → Ea → Type 0
PlainEa s (in_reg n) = PlainWord (reg_addr s n)
PlainEa s (at_addr a) = PlainWord a

-- An operand outside the memory-mapped IO, a register or a word of memory, holds the word that was
-- written to it.
pub read_word_ea-write_word_ea :
    (ea : Ea) (v : ℕ) (s : Machine)
    → PlainEa s ea
    → (read_word_ea ea (write_word_ea ea v s).1).0 ≡ v % 2 ^ 16
unfolding read_word_ea write_word_ea
read_word_ea-write_word_ea (in_reg n) v s h =
    let p : (read_reg n (write_reg n (v % 2 ^ 16) s).1).0 ≡ v % 2 ^ 16 % 2 ^ 16 =
      read_reg-write_reg n (v % 2 ^ 16) s h in
    omega (arith, p)
read_word_ea-write_word_ea (at_addr a) v s h = read_word-write_word a (v % 2 ^ 16) s h ∙ omega arith

plain_byte : (a : ℕ) → PlainWord a → is_io_addr (a % 2 ^ 16) ≡ false
unfolding is_io_addr
plain_byte a h = ground arith

byte-byte :
    (a v : ℕ) (s : Machine)
    → PlainWord a
    → (read_byte a (write_byte a (v % 2 ^ 8) s).1).0 ≡ v % 2 ^ 8
byte-byte a v s h =
    let i = plain_byte a h in
    rw (read_byte-value a (write_byte a (v % 2 ^ 8) s).1 i, write_byte-memory a (v % 2 ^ 8) s i)
      (ground arith)

-- A byte operand outside the memory-mapped IO, the high byte of a register or a byte of memory,
-- holds the byte that was written to it.
pub read_byte_ea-write_byte_ea :
    (ea : Ea) (v : ℕ) (s : Machine)
    → PlainEa s ea
    → (read_byte_ea ea (write_byte_ea ea v s).1).0 ≡ v % 2 ^ 8
unfolding read_byte_ea write_byte_ea
read_byte_ea-write_byte_ea (in_reg n) v s h =
    let old = (read_reg n s).0 in
    let s₁ = (read_reg n s).1 in
    let w = bit_or (v % 2 ^ 8 * 2 ^ 8) (old % 2 ^ 16 % 2 ^ 8) % 2 ^ 16 in
    let h₁ : PlainWord (reg_addr s₁ n) =
      subst (λ (x : ℕ). PlainWord (x + n % 16 * 2)) (sym (read_reg-wp n s)) h in
    let f = or_fields 8 (v % 2 ^ 8) (old % 2 ^ 16 % 2 ^ 8) (omega arith) in
    omega (arith, read_reg-write_reg n w s₁ h₁, f)
read_byte_ea-write_byte_ea (at_addr a) v s h = byte-byte a v s h
