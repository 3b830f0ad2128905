-- ===== src/Addressing.antt =====
-- The operands of an instruction: retrocpu_emu_ts/src/cpuboard/tms9995/addressing.ts, and the
-- context that execute.ts works in. `TmsMemOps` is the core's own memory access, so its functions
-- are the core's, on the state of the core inside the context.
pub mod Operands
use retro_cpu_emu.Shared.{
  ℕ, ◌+◌, ◌*◌, ◌-◌, ◌/◌, ◌%◌, ◌^◌, bit_or, Bool, true, false, Option, none, some, ltb, leb, ◌==◌,
  if◌then◌else◌,
}
use retro_cpu_emu.Shared.State.{State, ◌>>=◌, ◌>>◌, return, modify, gets}
use retro_cpu_emu.Machine
use retro_cpu_emu.Machine.{Machine}

-- TmsEa: `reg >= 0` is a workspace register, else `addr` is the byte address.
pub data Ea : Type 0 where
  in_reg : ℕ → Ea
  at_addr : ℕ → Ea

unfoldable pub indexed : ℕ → ℕ → State Machine Ea
indexed r imm =
    if r == 0
    then return (at_addr (imm % 2 ^ 16))
    else (do v ← Machine.read_reg r; return (at_addr ((imm + v) % 2 ^ 16)))

unfoldable pub resolve_ea : ℕ → ℕ → Bool → State Machine Ea
resolve_ea mode reg is_byte =
    let m = mode % 4 in
    let r = reg % 16 in
    if m == 0
    then return (in_reg r)
    else if m == 1
    then (do v ← Machine.read_reg r; return (at_addr (v % 2 ^ 16)))
    else if m == 3
    then (do
      v ← Machine.read_reg r
      let a = v % 2 ^ 16
      Machine.write_reg r ((a + (if is_byte then 1 else 2)) % 2 ^ 16)
      return (at_addr a))
    else (do imm ← Machine.fetch_word; indexed r imm)

unfoldable pub read_word_ea : Ea → State Machine ℕ
read_word_ea (in_reg r) = do v ← Machine.read_reg r; return (v % 2 ^ 16)
read_word_ea (at_addr a) = Machine.read_word a

unfoldable pub write_word_ea : Ea → ℕ → State Machine (Unit {0})
write_word_ea (in_reg r) v = Machine.write_reg r (v % 2 ^ 16)
write_word_ea (at_addr a) v = Machine.write_word a (v % 2 ^ 16)

unfoldable pub read_byte_ea : Ea → State Machine ℕ
read_byte_ea (in_reg r) = do v ← Machine.read_reg r; return (v / 2 ^ 8 % 2 ^ 8)
read_byte_ea (at_addr a) = Machine.read_byte a

unfoldable pub write_byte_ea : Ea → ℕ → State Machine (Unit {0})
write_byte_ea (in_reg r) v = do
  w ← Machine.read_reg r
  Machine.write_reg r (bit_or (v % 2 ^ 8 * 2 ^ 8) (w % 2 ^ 16 % 2 ^ 8) % 2 ^ 16)
write_byte_ea (at_addr a) v = Machine.write_byte a (v % 2 ^ 8)
