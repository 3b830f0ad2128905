-- ===== src/Disassembler/Moves.antt =====
-- The groups 01 to 03 of decode.ts. `extra` is the word behind the instruction, which the source
-- reads by a call.
use retro_cpu_emu.Shared.{
  ℕ, ◌/◌, ◌%◌, ◌^◌, Bool, false, not, ◌&&◌, [], ◌∷◌, none, some, get_elem?, ◌==◌, if◌then◌else◌,
}
use retro_cpu_emu.Shared.Text.{known}
use retro_cpu_emu.Disassembler.Operand.{
  plain, io, raw, addr, imm, DecodedInst, bbb, ppp, reg_name, one, two, undef, trail,
}

-- The form of group 01 with a second word.
unfoldable pub decode01_two : ℕ → ℕ → Bool → Bool → ℕ → DecodedInst
unfolding two undef
decode01_two ir b_bits bit7 bit3 ad =
    let address = addr ad plain none in
    let base = raw (known (get_elem? bbb b_bits)) in
    if not bit7 && not bit3
    then two "LB" ir (base ∷ address ∷ [])
    else if bit7 && not bit3
    then two "STB" ir (base ∷ address ∷ [])
    else elim (get_elem? ppp b_bits) [
      | none ↦ undef ir
      | some sr ↦ two (if bit7 then "STS" else "LS") ir (raw sr ∷ address ∷ [])
    ]

-- CPYB, CPYS, SETB and SETS.
unfoldable pub decode01_copy : ℕ → ℕ → Bool → Bool → ℕ → DecodedInst
unfolding one undef
decode01_copy ir b_bits bit7 bit3 b_lo =
    let reg = raw (reg_name b_lo) in
    if not bit3
    then one (if bit7 then "CPYB" else "SETB") ir (reg ∷ raw (known (get_elem? bbb b_bits)) ∷ [])
    else elim (get_elem? ppp b_bits) [
      | none ↦ undef ir
      | some sr ↦ one (if bit7 then "CPYS" else "SETS") ir (reg ∷ raw sr ∷ [])
    ]

unfoldable pub decode01 : ℕ → ℕ → ℕ → ℕ → DecodedInst
unfolding one decode01_two decode01_copy
decode01 ir rrr lo extra =
    let bit7 = lo / 2 ^ 7 % 2 == 1 in
    let b_bits = lo / 2 ^ 4 % 8 in
    let bit3 = lo / 2 ^ 3 % 2 == 1 in
    let b_lo = lo % 8 in
    if not (rrr == 7)
    then one "MVI" ir (raw (reg_name rrr) ∷ imm lo 8 ∷ [])
    else if b_lo == 7
    then decode01_two ir b_bits bit7 bit3 extra
    else decode01_copy ir b_bits bit7 bit3 b_lo

unfoldable pub decode02 : ℕ → ℕ → ℕ → ℕ → ℕ → DecodedInst
unfolding one two
decode02 ir rrr lo kkkk extra =
    if not (rrr == 7)
    then one "WT" ir (raw (reg_name rrr) ∷ addr lo io none ∷ [])
    else if lo == 0x0f
    then one "PSHM" ir []
    else if lo == 0x07
    then one "POPM" ir []
    else two (if lo / 2 ^ 3 % 2 == 1 then "TSET" else "TRST") ir
        (trail (raw (reg_name (lo % 8)) ∷ addr extra plain none ∷ []) kkkk 0 false)

unfoldable pub decode03 : ℕ → ℕ → ℕ → ℕ → DecodedInst
unfolding one
decode03 ir rrr lo kkkk =
    let bit3 = lo / 2 ^ 3 % 2 == 1 in
    if not (rrr == 7)
    then one "RD" ir (raw (reg_name rrr) ∷ addr lo io none ∷ [])
    else if lo / 2 ^ 2 % 2 == 1
    then if bit3
      then one "FLT" ir (trail (raw "DR0" ∷ raw "R0" ∷ []) kkkk 0 false)
      else one "FIX" ir (trail (raw "R0" ∷ raw "DR0" ∷ []) kkkk 0 false)
    else one "NEG" ir (trail (raw (reg_name (lo % 8)) ∷ []) kkkk 0 (not bit3))
