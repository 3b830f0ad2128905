-- ===== src/Disassembler/Decode.antt =====
-- One instruction of the disassembler, `decodeMn1613` of decode.ts; `read_word` reads the memory.
use retro_cpu_emu.Shared.{ℕ, ◌+◌, ◌/◌, ◌%◌, ◌^◌, [], ◌∷◌, leb, ◌==◌, if◌then◌else◌}
use retro_cpu_emu.Disassembler.Operand.{raw, DecodedInst, reg_name, one, undef, ea_op}
use retro_cpu_emu.Disassembler.Moves.{decode01, decode02, decode03}
use retro_cpu_emu.Disassembler.Extended.{decode04, decode07}
use retro_cpu_emu.Disassembler.Alu.{
  register_imm4, decode08, decode09, decode0a, decode0b, decode0c, decode0d, decode0e, decode0f,
}

-- The groups 10 to 1F.
unfoldable pub decode_memory : ℕ → ℕ → ℕ → ℕ → ℕ → DecodedInst
unfolding one
decode_memory ir op rrr lo a =
    let is_hi = op / 2 ^ 3 % 2 == 1 in
    let ea = ea_op (op % 8) lo a in
    if rrr == 7
    then one (if is_hi then "B" else "BAL") ir (ea ∷ [])
    else if rrr == 6
    then one (if is_hi then "IMS" else "DMS") ir (ea ∷ [])
    else one (if is_hi then "L" else "ST") ir (raw (reg_name rrr) ∷ ea ∷ [])

-- The groups 00 to 0F.
unfoldable pub decode_register : ℕ → ℕ → ℕ → ℕ → ℕ → DecodedInst
unfolding undef register_imm4
decode_register ir op rrr lo extra =
    let kkkk = lo / 2 ^ 4 % 16 in
    if op == 0x01
    then decode01 ir rrr lo extra
    else if op == 0x02
    then decode02 ir rrr lo kkkk extra
    else if op == 0x03
    then decode03 ir rrr lo kkkk
    else if op == 0x04
    then decode04 ir rrr lo kkkk (lo / 2 ^ 2 % 4) extra
    else if op == 0x05
    then register_imm4 "TBIT" ir rrr lo kkkk
    else if op == 0x06
    then register_imm4 "RBIT" ir rrr lo kkkk
    else if op == 0x07
    then decode07 ir rrr lo kkkk
    else if op == 0x08
    then decode08 ir rrr lo kkkk
    else if op == 0x09
    then decode09 ir rrr lo kkkk
    else if op == 0x0a
    then decode0a ir rrr lo kkkk extra
    else if op == 0x0b
    then decode0b ir rrr lo kkkk extra
    else if op == 0x0c
    then decode0c ir rrr lo kkkk extra
    else if op == 0x0d
    then decode0d ir rrr lo kkkk extra
    else if op == 0x0e
    then decode0e ir rrr lo kkkk
    else if op == 0x0f
    then decode0f ir rrr lo kkkk extra
    else undef ir

unfoldable pub decode_mn1613 : ℕ → (ℕ → ℕ) → DecodedInst
unfolding decode_memory decode_register
decode_mn1613 address read_word =
    let a = address % 2 ^ 16 in
    let ir = read_word a % 2 ^ 16 in
    let extra = read_word ((a + 1) % 2 ^ 16) % 2 ^ 16 in
    let op = ir / 2 ^ 11 % 2 ^ 5 in
    let rrr = ir / 2 ^ 8 % 8 in
    let lo = ir % 2 ^ 8 in
    if leb 0x10 op then decode_memory ir op rrr lo a else decode_register ir op rrr lo extra
