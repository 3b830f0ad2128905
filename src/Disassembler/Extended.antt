-- ===== src/Disassembler/Extended.antt =====
-- The groups 04 and 07 of decode.ts.
use retro_cpu_emu.Shared.{
  ℕ, ◌/◌, ◌%◌, ◌^◌, false, not, ◌&&◌, [], ◌∷◌, ◌++◌, none, some, get_elem?, leb, ◌==◌,
  if◌then◌else◌,
}
use retro_cpu_emu.Shared.Text.{◌&◌, known}
use Prim.Native.String.{String}
use retro_cpu_emu.Disassembler.Operand.{
  plain, at_sign, bb, DecodedOp, raw, addr, imm, DecodedInst, bb_names, hhh, reg_name, ri_name, one,
  two, undef, ri_mode, trail,
}

-- The address of LD and STD, with the base register's name unless it is CSBR.
unfoldable pub base_address : ℕ → ℕ → DecodedOp
base_address b54 ad =
    if b54 == 0 then addr ad plain none else addr ad bb (some (known (get_elem? bb_names b54)))

-- LD, BL, BALL and STD: register field 7 and bit 3.
unfoldable pub decode04_two : ℕ → ℕ → ℕ → DecodedInst
unfolding two
decode04_two ir lo ad =
    let b54 = lo / 2 ^ 4 % 4 in
    let dest = lo % 8 in
    let ops = raw (reg_name dest) ∷ base_address b54 ad ∷ [] in
    if lo / 2 ^ 6 % 2 == 0
    then if dest == 7
      then two (if b54 == 1 then "BALL" else "BL") ir (addr ad at_sign none ∷ [])
      else two "LD" ir ops
    else two "STD" ir ops

-- LR and STR.
unfoldable pub register_move : String → ℕ → ℕ → ℕ → String → DecodedInst
unfolding one
register_move mnemonic ir rrr b54 mm_str = one mnemonic ir (
    raw (reg_name rrr)
    ∷ ((if b54 == 0 then [] else raw (known (get_elem? bb_names b54)) ∷ []) ++ (raw mm_str ∷ [])))

-- The shifts, RDR and WTR, and what is undefined.
unfoldable pub decode04_shift : ℕ → ℕ → ℕ → ℕ → ℕ → DecodedInst
unfolding one undef
decode04_shift ir rrr lo kkkk b32 =
    let b10 = lo % 4 in
    let reg = raw (reg_name rrr) in
    if b32 == 2
    then one "SR" ir (trail (reg ∷ []) kkkk b10 false)
    else if b32 == 3
    then one "SL" ir (trail (reg ∷ []) kkkk b10 false)
    else if lo / 2 ^ 4 == 1 && b32 == 1 && not (rrr == 7)
    then one "RDR" ir (reg ∷ raw ("(" & ri_name b10 & ")") ∷ [])
    else if lo / 2 ^ 4 == 1 && b32 == 0
    then one "WTR" ir (reg ∷ raw ("(" & ri_name b10 & ")") ∷ [])
    else undef ir

-- From PUSH on.
unfoldable pub decode04_rest : ℕ → ℕ → ℕ → ℕ → ℕ → DecodedInst
unfolding one register_move decode04_shift ri_mode
decode04_rest ir rrr lo kkkk b32 =
    let b54 = lo / 2 ^ 4 % 4 in
    if lo == 0x01
    then one "PUSH" ir (raw (reg_name rrr) ∷ [])
    else if lo == 0x02
    then one "POP" ir (raw (reg_name rrr) ∷ [])
    else elim (ri_mode (lo / 2 ^ 6 % 4) (lo % 4)) [
      | none ↦ decode04_shift ir rrr lo kkkk b32
      | some mm_str ↦
          if b32 == 0
          then register_move "LR" ir rrr b54 mm_str
          else if b32 == 1
          then register_move "STR" ir rrr b54 mm_str
          else decode04_shift ir rrr lo kkkk b32
    ]

unfoldable pub decode04 : ℕ → ℕ → ℕ → ℕ → ℕ → ℕ → DecodedInst
unfolding one two decode04_two decode04_rest
decode04 ir rrr lo kkkk b32 extra =
    let target = raw ("@(" & ri_name (lo % 4) & ")") ∷ [] in
    if rrr == 0 && lo == 0x00
    then one "H" ir []
    else if rrr == 0 && lo == 0x03
    then one "RET" ir []
    else if rrr == 0 && leb 0x04 lo && leb lo 0x07
    then one "LPSW" ir (raw (known (get_elem? ("0" ∷ "1" ∷ "2" ∷ "3" ∷ []) (lo % 4))) ∷ [])
    else if rrr == 6 && lo == 0x07
    then two "BD" ir (addr extra plain none ∷ [])
    else if rrr == 6 && lo == 0x17
    then two "BALD" ir (addr extra plain none ∷ [])
    else if rrr == 7 && lo / 2 ^ 2 == 1
    then one "BR" ir target
    else if rrr == 7 && lo / 2 ^ 2 == 5
    then one "BALR" ir target
    else if rrr == 7 && lo / 2 ^ 3 % 2 == 1
    then decode04_two ir lo extra
    else decode04_rest ir rrr lo kkkk b32

-- SETH and CPYH.
unfoldable pub decode07_hardware : ℕ → ℕ → DecodedInst
unfolding one undef
decode07_hardware ir lo = elim (get_elem? hhh (lo / 2 ^ 4 % 8)) [
  | none ↦ undef ir
  | some hr ↦
      one (if lo / 2 ^ 7 % 2 == 1 then "CPYH" else "SETH") ir
        (raw (reg_name (lo % 8)) ∷ raw hr ∷ [])
]

unfoldable pub decode07 : ℕ → ℕ → ℕ → ℕ → DecodedInst
unfolding one undef decode07_hardware
decode07 ir rrr lo kkkk =
    let bit3 = lo / 2 ^ 3 % 2 == 1 in
    let reg = raw (reg_name (lo % 8)) in
    if not (rrr == 7)
    then one "SBIT" ir (trail (raw (reg_name rrr) ∷ imm (lo % 16) 4 ∷ []) kkkk 0 false)
    else if lo == 0x07
    then one "RETL" ir []
    else if lo == 0x17
    then one "BLK" ir []
    else if lo / 2 ^ 4 == 0x7 && not bit3
    then one "SRBT" ir (raw "R0" ∷ reg ∷ [])
    else if lo / 2 ^ 4 == 0xf && not bit3
    then one "DEBP" ir (reg ∷ raw "R0" ∷ [])
    else if bit3
    then undef ir
    else decode07_hardware ir lo
