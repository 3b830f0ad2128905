-- ===== src/Mn1613/Alu.antt =====
-- `_add`, `_sub` and the division of mn1613.ts against arithmetic: the flags E and OVF of a result.
use retro_cpu_emu.Shared.{
  ℕ, ◌+◌, ◌-◌, ◌%◌, ◌^◌, ◌<◌, ◌≡◌, ◌↔◌, refl, ◌∙◌, arith, Bool, true, false, ltb, if◌then◌else◌,
}
use retro_cpu_emu.Shared.Bits.{has, has-or, has-and}
use retro_cpu_emu.Shared.Int.{◌+ℤ◌, ◌-ℤ◌}
use retro_cpu_emu.Mn1613.Register.{CpuRegister}
use retro_cpu_emu.Mn1613.Core.{
  Cpu, str_e, str_ovf, set_e, set_ovf, add, sub, add_overflow, sub_overflow,
}
use retro_cpu_emu.Mn1613.Move.{signed_word}

pub has_e-set_e : (v : Bool) (reg : CpuRegister) → has (set_e v reg).str str_e ≡ v
unfolding set_e
has_e-set_e true reg = rw (has-or 15 reg.str str_e) (ground arith)
has_e-set_e false reg = rw (has-and 15 reg.str 0x7fff) (ground arith)

pub has_ovf-set_ovf : (v : Bool) (reg : CpuRegister) → has (set_ovf v reg).str str_ovf ≡ v
unfolding set_ovf
has_ovf-set_ovf true reg = rw (has-or 13 reg.str str_ovf) (ground arith)
has_ovf-set_ovf false reg = rw (has-and 13 reg.str 0xdfff) (ground arith)

pub has_e-set_ovf :
    (v : Bool) (reg : CpuRegister) → has (set_ovf v reg).str str_e ≡ has reg.str str_e
unfolding set_ovf
has_e-set_ovf true reg = rw (has-or 15 reg.str str_ovf) (ground arith)
has_e-set_ovf false reg = rw (has-and 15 reg.str 0xdfff) (ground arith)

add_overflow_iff :
    (a b : ℕ)
    → a < 2 ^ 16
    → b < 2 ^ 16
    → (add_overflow a b (a + b) ≡ false)
      ↔ (signed_word ((a + b) % 2 ^ 16) ≡ signed_word a +ℤ signed_word b)
unfolding add_overflow signed_word
add_overflow_iff a b ha hb = ground arith

sub_overflow_iff :
    (a b : ℕ)
    → a < 2 ^ 16
    → b < 2 ^ 16
    → (sub_overflow a b ((a + 2 ^ 16 - b) % 2 ^ 16) ≡ false)
      ↔ (signed_word ((a + 2 ^ 16 - b) % 2 ^ 16) ≡ signed_word a -ℤ signed_word b)
unfolding sub_overflow signed_word
sub_overflow_iff a b ha hb = ground arith

-- Of two words, `_add` returns the sum to 16 bits, sets E where the sum needs a seventeenth bit and
-- clears it elsewhere, and clears OVF exactly where the result, read with its sign, is the sum of
-- the operands read with theirs.
add-flags :
    (a b : ℕ) (s : Cpu)
    → a < 2 ^ 16
    → b < 2 ^ 16
    → ((add a b s).0 ≡ (a + b) % 2 ^ 16)
      × (has (add a b s).1.reg.str str_e ≡ ltb 0xffff (a + b))
      × ((has (add a b s).1.reg.str str_ovf ≡ false)
          ↔ (signed_word (add a b s).0 ≡ signed_word a +ℤ signed_word b))
unfolding add
add-flags a b s ha hb =
    let v = add_overflow a b (a + b) in
    let reg = set_e (ltb 0xffff (a + b)) s.reg in
    (
      refl,
      has_e-set_ovf v reg ∙ has_e-set_e (ltb 0xffff (a + b)) s.reg,
      rw (has_ovf-set_ovf v reg) (add_overflow_iff a b ha hb),
    )

-- Of two words, `_sub` returns the difference to 16 bits, sets E exactly where it borrows, and
-- clears OVF exactly where the result, read with its sign, is the difference of the operands read
-- with theirs.
pub sub-flags :
    (a b : ℕ) (s : Cpu)
    → a < 2 ^ 16
    → b < 2 ^ 16
    → ((sub a b s).0 + (if ltb a b then 0 else 2 ^ 16) ≡ a + 2 ^ 16 - b)
      × (has (sub a b s).1.reg.str str_e ≡ ltb a b)
      × ((has (sub a b s).1.reg.str str_ovf ≡ false)
          ↔ (signed_word (sub a b s).0 ≡ signed_word a -ℤ signed_word b))
unfolding sub
sub-flags a b s ha hb =
    let res = (a + 2 ^ 16 - b) % 2 ^ 16 in
    let v = sub_overflow a b res in
    let reg = set_e (ltb a b) s.reg in
    (
      ground arith,
      has_e-set_ovf v reg ∙ has_e-set_e (ltb a b) s.reg,
      rw (has_ovf-set_ovf v reg) (sub_overflow_iff a b ha hb),
    )
