-- ===== src/Mn1613/Divide.antt =====
-- The branch D of `_executeOne`: the quotient and the remainder.
use retro_cpu_emu.Shared.{
  ℕ, ◌+◌, ◌*◌, ◌/◌, ◌%◌, ◌^◌, ◌<◌, ◌≤◌, ◌≡◌, ◌⊎◌, inl, inr, refl, ◌∙◌, ap, arith, true, false, ◌==◌,
  ltb, lt→ltb, bit_or, zero, suc,
}
use retro_cpu_emu.Shared.Bits.{has, or_fields}
use retro_cpu_emu.Machine.{store}
use retro_cpu_emu.Mn1613.Register.{CpuRegister}
use retro_cpu_emu.Mn1613.Core.{Cpu, str_ovf, set_ovf, skip_if, skip_next, rd_c}
use retro_cpu_emu.Mn1613.Logic.{div_by, div_quotient}
use retro_cpu_emu.Mn1613.Alu.{has_ovf-set_ovf}
use native.Mathlib.Nat.{div-lt_iff_lt-mul}

-- A skip moves IC alone of the registers.
abbrev pub MovedIc : CpuRegister → CpuRegister → Type 0
MovedIc reg reg' = reg' ≡ record reg { ic = reg'.ic }

pub skip_next-MovedIc : (s : Cpu) → MovedIc s.reg (skip_next s).1.reg
unfolding skip_next rd_c
skip_next-MovedIc s = ground arith

pub skip_if-MovedIc : (kkkk res : ℕ) (s : Cpu) → MovedIc s.reg (skip_if kkkk res s).1.reg
unfolding skip_if
skip_if-MovedIc kkkk res s = ground (arith, skip_next-MovedIc s)

-- The dividend of D.
abbrev pub dividend : CpuRegister → ℕ
dividend reg = reg.r 0 * 2 ^ 16 + reg.r 1

dividend-fields :
    (x y : ℕ) → x < 2 ^ 16 → y < 2 ^ 16 → bit_or (x * 2 ^ 16) y % 2 ^ 32 ≡ x * 2 ^ 16 + y
dividend-fields x y hx hy = rw (or_fields 16 x y hy) (omega arith)

-- The division succeeded: the words are the quotient and the remainder, and V is clear.
pub record Divided (d : ℕ) (reg reg' : CpuRegister) : Type 0 where
  pub exact : reg'.r 0 * d + reg'.r 1 ≡ dividend reg
  pub small : reg'.r 1 < d
  pub clear : has reg'.str str_ovf ≡ false

-- The division was refused: V is set, and no other register changes.
pub record Refused (reg reg' : CpuRegister) : Type 0 where
  pub flag : has reg'.str str_ovf ≡ true
  pub rest : reg' ≡ record reg { str = reg'.str }

div_quotient-Divided :
    (q r d kkkk : ℕ) (s : Cpu)
    → q < 2 ^ 16
    → r < 2 ^ 16
    → r < d
    → q * d + r ≡ dividend s.reg
    → Divided d s.reg (div_quotient q r kkkk s).1.reg
unfolding div_quotient set_ovf
div_quotient-Divided q r d kkkk s hq hr lt e =
    let clear = set_ovf false s.reg in
    let reg = record clear { r = store (store clear.r 0 (q % 2 ^ 16)) 1 (r % 2 ^ 16) } in
    let moved = skip_if-MovedIc kkkk (q % 2 ^ 16) (record s { reg = reg }) in
    let words = λ (i : ℕ). ap (λ (x : CpuRegister). x.r i) moved in
    let eq : q % 2 ^ 16 ≡ q = omega arith in
    let er : r % 2 ^ 16 ≡ r = omega arith in
    record {
      exact = rw (words 0, words 1, eq, er) e;
      small = rw (words 1, er) lt;
      clear = ap (λ (x : CpuRegister). has x.str str_ovf) moved ∙ has_ovf-set_ovf false s.reg;
    }

refuse-Refused : (s : Cpu) → Refused s.reg (set_ovf true s.reg)
unfolding set_ovf
refuse-Refused s = record { flag = has_ovf-set_ovf true s.reg; rest = refl }

quotient_lt : (d x y : ℕ) → x < d → y < 2 ^ 16 → (x * 2 ^ 16 + y) / d < 2 ^ 16
quotient_lt d x y h hy =
    (div-lt_iff_lt-mul {k = d} {x = x * 2 ^ 16 + y} {y = 2 ^ 16} (omega arith)).1 (omega arith)

quotient_ge : (d x y : ℕ) → 0 < d → d ≤ x → 2 ^ 16 ≤ (x * 2 ^ 16 + y) / d
quotient_ge d x y p h =
    ground (arith, div-lt_iff_lt-mul {k = d} {x = x * 2 ^ 16 + y} {y = 2 ^ 16} p)

le_or_lt : (a b : ℕ) → (b ≤ a) ⊎ (a < b)
le_or_lt a b = ground arith

div_by-Refused_zero : (kkkk : ℕ) (s : Cpu) → Refused s.reg (div_by 0 kkkk s).1.reg
unfolding div_by
div_by-Refused_zero kkkk s = refuse-Refused s

div_by-Refused_large :
    (d kkkk : ℕ) (s : Cpu)
    → 0 < d
    → d ≤ s.reg.r 0
    → s.reg.r 0 < 2 ^ 16
    → s.reg.r 1 < 2 ^ 16
    → Refused s.reg (div_by d kkkk s).1.reg
unfolding div_by
div_by-Refused_large d kkkk s p h h0 h1 =
    let e = dividend-fields (s.reg.r 0) (s.reg.r 1) h0 h1 in
    let z : (d == 0) ≡ false = ground arith in
    let t : ltb 0xffff (dividend s.reg / d) ≡ true =
      lt→ltb _ _ (omega (arith, quotient_ge d (s.reg.r 0) (s.reg.r 1) p h)) in
    rw (e, z, t) (refuse-Refused s)

div_by-Divided :
    (d kkkk : ℕ) (s : Cpu)
    → d < 2 ^ 16
    → s.reg.r 0 < d
    → s.reg.r 1 < 2 ^ 16
    → Divided d s.reg (div_by d kkkk s).1.reg
unfolding div_by
div_by-Divided d kkkk s hd h h1 =
    let e = dividend-fields (s.reg.r 0) (s.reg.r 1) (omega arith) h1 in
    let z : (d == 0) ≡ false = ground arith in
    let q = quotient_lt d (s.reg.r 0) (s.reg.r 1) h h1 in
    let t : ltb 0xffff (dividend s.reg / d) ≡ false = ground arith in
    let small : dividend s.reg % d < d = grind arith in
    rw (e, z, t)
      (div_quotient-Divided (dividend s.reg / d) (dividend s.reg % d) d kkkk s q (omega arith) small
        (grind arith))

-- D, of two words in R0 and R1 and a divisor of 16 bits: where the divisor is at most R0, which is
-- where it is 0 or the quotient needs more than 16 bits, V is set and no other register changes;
-- elsewhere V is clear, and R0 and R1 are the quotient and the remainder of R0 * 65536 + R1.
pub div_by-result :
    (d kkkk : ℕ) (s : Cpu)
    → d < 2 ^ 16
    → s.reg.r 0 < 2 ^ 16
    → s.reg.r 1 < 2 ^ 16
    → ((d ≤ s.reg.r 0) × Refused s.reg (div_by d kkkk s).1.reg)
      ⊎ ((s.reg.r 0 < d) × Divided d s.reg (div_by d kkkk s).1.reg)
div_by-result zero kkkk s hd h0 h1 = inl (omega arith, div_by-Refused_zero kkkk s)
div_by-result (suc d) kkkk s hd h0 h1 = elim (le_or_lt (s.reg.r 0) (suc d)) [
  | inl h ↦ inl (h, div_by-Refused_large (suc d) kkkk s (omega arith) h h0 h1)
  | inr h ↦ inr (h, div_by-Divided (suc d) kkkk s hd h h1)
]
