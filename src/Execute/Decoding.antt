-- ===== src/Execute/Decoding.antt =====
-- What the tests of `executeInstruction` make of whole ranges of instruction words.
use retro_cpu_emu.Shared.{
  ℕ, ◌+◌, ◌*◌, ◌-◌, ◌/◌, ◌%◌, ◌^◌, ◌<◌, ◌≤◌, ◌≡◌, ◌≢◌, refl, arith, true, none,
}
use retro_cpu_emu.Shared.Int.{ℤ, pos, negsuc}
use retro_cpu_emu.Status.{test_condition, signed8}
use retro_cpu_emu.Context.{Context, illegal}
use retro_cpu_emu.Execute.Shift.{ShiftKind, shift_op}
use retro_cpu_emu.Execute.Decode.{
  jump_target, jump_or_bit, format1_op, after_format1, run_format1, execute_other,
}

test_condition-nibble : (n st : ℕ) → test_condition (n * 2 ^ 8) st ≡ true
unfolding test_condition
test_condition-nibble n st = let e : n * 2 ^ 8 / 2 ^ 4 % 16 ≡ 0 = omega arith in rw e refl

-- The address two bytes times the displacement away, to 16 bits.
abbrev pub displaced : ℕ → ℤ → ℕ
displaced pc (pos n) = (pc + n * 2) % 2 ^ 16
displaced pc (negsuc n) = (pc + 2 ^ 16 - (n + 1) * 2) % 2 ^ 16

jump_target-displaced :
    (pc disp : ℕ) → disp < 2 ^ 8 → jump_target pc disp ≡ displaced pc (signed8 disp)
unfolding jump_target
jump_target-displaced pc disp h = ground arith

-- Every conditional jump is taken, whatever the status: the PC moves by the signed displacement and
-- nothing else changes.
pub jump_or_bit-taken :
    (ir : ℕ) (c : Context)
    → ir / 2 ^ 8 % 16 < 13
    → (jump_or_bit ir c).1 ≡ record c { pc = displaced c.pc (signed8 (ir % 2 ^ 8)) }
unfolding jump_or_bit
jump_or_bit-taken ir c h = ground (
  arith,
  test_condition-nibble (ir / 2 ^ 8 % 16) c.st,
  jump_target-displaced c.pc (ir % 2 ^ 8) (omega arith),
)

no_format1 : (ir : ℕ) → ir / 2 ^ 8 % 16 ≢ 0 → format1_op (ir / 2 ^ 8 * 2 ^ 8) ≡ none
unfolding format1_op
no_format1 ir h = ground arith

after_format1-illegal : (ir : ℕ) (c : Context) → 0x4000 ≤ ir → run_format1 none ir c ≡ illegal c
unfolding run_format1 after_format1
after_format1-illegal ir c h = ground arith

-- A two-operand instruction word with a bit of 8 to 11 set, which includes every one whose
-- destination is not a register from R0 to R3, is illegal.
pub execute_other-illegal :
    (ir : ℕ) (c : Context)
    → 0x4000 ≤ ir
    → ir < 2 ^ 16
    → ir / 2 ^ 8 % 16 ≢ 0
    → execute_other ir c ≡ illegal c
unfolding execute_other
execute_other-illegal ir c h l z =
    let p : run_format1 (format1_op (ir / 2 ^ 8 * 2 ^ 8)) ir c ≡ illegal c =
      rw (no_format1 ir z) (after_format1-illegal ir c h) in
    ground (arith, p)

-- Every shift instruction word runs SLA.
pub execute_other-shift :
    (ir : ℕ) (c : Context)
    → 0x0800 ≤ ir
    → ir < 0x0c00
    → execute_other ir c ≡ shift_op ir ShiftKind.sla c
unfolding execute_other
execute_other-shift ir c h l = ground arith
