-- ===== src/Disassembler/Alu.antt =====
-- The groups 08 to 0F of decode.ts.
use retro_cpu_emu.Shared.{
  ℕ, ◌/◌, ◌%◌, ◌^◌, Bool, false, not, ◌&&◌, List, [], ◌∷◌, get_elem?, ◌==◌, if◌then◌else◌,
}
use retro_cpu_emu.Shared.Text.{◌&◌, known, is_empty}
use Prim.Native.String.{String}
use retro_cpu_emu.Disassembler.Operand.{
  DecodedOp, raw, imm, DecodedInst, reg_name, ri_name, one, two, undef, trail,
}

abbrev pub indirect : ℕ → DecodedOp
indirect lo = raw ("(" & ri_name (lo % 4) & ")")

-- TBIT, RBIT, SI and AI: a register and 4 bits.
unfoldable pub register_imm4 : String → ℕ → ℕ → ℕ → ℕ → DecodedInst
unfolding one
register_imm4 mnemonic ir rrr lo kkkk =
    one mnemonic ir (trail (raw (reg_name rrr) ∷ imm (lo % 16) 4 ∷ []) kkkk 0 false)

-- An accumulator and an indirect register, which SD, AD, DAS and DAA have with the carry.
unfoldable pub accumulate : String → ℕ → String → ℕ → ℕ → Bool → DecodedInst
unfolding one
accumulate mnemonic ir acc lo kkkk with_carry =
    one mnemonic ir (trail (raw acc ∷ indirect lo ∷ []) kkkk 0 with_carry)

unfoldable pub register_imm16 : String → ℕ → ℕ → ℕ → ℕ → DecodedInst
unfolding two
register_imm16 mnemonic ir rrr kkkk im =
    two mnemonic ir (trail (raw (reg_name rrr) ∷ imm im 16 ∷ []) kkkk 0 false)

unfoldable pub register_register : String → ℕ → ℕ → ℕ → ℕ → DecodedInst
unfolding one
register_register mnemonic ir rrr lo kkkk =
    one mnemonic ir (trail (raw (reg_name rrr) ∷ raw (reg_name (lo % 8)) ∷ []) kkkk 0 false)

-- SD of group 08 and AD of group 09, or SI and AI.
unfoldable pub decode_double : String → String → ℕ → ℕ → ℕ → ℕ → DecodedInst
unfolding accumulate register_imm4
decode_double double single ir rrr lo kkkk =
    if rrr == 7 && lo / 2 ^ 2 % 2 == 1
    then accumulate double ir "DR0" lo kkkk (lo / 2 ^ 3 % 2 == 0)
    else register_imm4 single ir rrr lo kkkk

abbrev pub decode08 : ℕ → ℕ → ℕ → ℕ → DecodedInst
decode08 = decode_double "SD" "SI"

abbrev pub decode09 : ℕ → ℕ → ℕ → ℕ → DecodedInst
decode09 = decode_double "AD" "AI"

pub record FamilySpec : Type 0 where
  pub when7 : List String
  pub imm_hi : String
  pub imm_lo : String
  pub bit1 : String
  pub bit0 : String
  pub acc7 : String

-- The empty mnemonic has no instruction.
unfoldable pub family7 : String → ℕ → String → ℕ → ℕ → DecodedInst
unfolding undef accumulate
family7 mnemonic ir acc lo kkkk =
    if is_empty mnemonic then undef ir else accumulate mnemonic ir acc lo kkkk false

unfoldable pub decode_reg_family : ℕ → ℕ → ℕ → ℕ → ℕ → FamilySpec → DecodedInst
unfolding family7 register_imm16 register_register
decode_reg_family ir rrr lo kkkk extra spec =
    let tail = lo % 16 in
    if rrr == 7
    then family7 (known (get_elem? spec.when7 (lo / 2 ^ 2 % 4))) ir spec.acc7 lo kkkk
    else if tail == 0x0f
    then register_imm16 spec.imm_hi ir rrr kkkk extra
    else if tail == 0x07
    then register_imm16 spec.imm_lo ir rrr kkkk extra
    else register_register (if lo / 2 ^ 3 % 2 == 1 then spec.bit1 else spec.bit0) ir rrr lo kkkk

-- DAS of group 0A and DAA of group 0B, before the family.
unfoldable pub decimal_or : String → ℕ → ℕ → ℕ → ℕ → DecodedInst → DecodedInst
unfolding accumulate
decimal_or mnemonic ir rrr lo kkkk rest =
    if rrr == 7 && lo / 2 ^ 2 % 2 == 1
    then accumulate mnemonic ir "R0" lo kkkk (lo / 2 ^ 3 % 2 == 0)
    else rest

unfoldable pub decode0a : ℕ → ℕ → ℕ → ℕ → ℕ → DecodedInst
unfolding decimal_or decode_reg_family
decode0a ir rrr lo kkkk extra = decimal_or "DAS" ir rrr lo kkkk (
    decode_reg_family ir rrr lo kkkk extra (record {
      when7 = "CBR" ∷ "" ∷ "CWR" ∷ "" ∷ [];
      imm_hi = "CWI";
      imm_lo = "CBI";
      bit1 = "C";
      bit0 = "CB";
      acc7 = "R0";
    }))

unfoldable pub decode0b : ℕ → ℕ → ℕ → ℕ → ℕ → DecodedInst
unfolding decimal_or decode_reg_family
decode0b ir rrr lo kkkk extra = decimal_or "DAA" ir rrr lo kkkk (
    decode_reg_family ir rrr lo kkkk extra (record {
      when7 = "SWR" ∷ "" ∷ "AWR" ∷ "" ∷ [];
      imm_hi = "AWI";
      imm_lo = "SWI";
      bit1 = "A";
      bit0 = "S";
      acc7 = "R0";
    }))

-- The accumulator of groups 0C and 0D: the floating ones have bit 2.
abbrev pub acc_of : ℕ → String
acc_of lo = if lo / 2 ^ 2 % 2 == 1 then "DR0" else "R0"

unfoldable pub decode0c : ℕ → ℕ → ℕ → ℕ → ℕ → DecodedInst
unfolding decode_reg_family
decode0c ir rrr lo kkkk extra = decode_reg_family ir rrr lo kkkk extra (record {
  when7 = "EORR" ∷ "FD" ∷ "ORR" ∷ "FM" ∷ [];
  imm_hi = "ORI";
  imm_lo = "EORI";
  bit1 = "OR";
  bit0 = "EOR";
  acc7 = acc_of lo;
})

unfoldable pub decode0d : ℕ → ℕ → ℕ → ℕ → ℕ → DecodedInst
unfolding decode_reg_family
decode0d ir rrr lo kkkk extra = decode_reg_family ir rrr lo kkkk extra (record {
  when7 = "LADR" ∷ "FS" ∷ "ANDR" ∷ "FA" ∷ [];
  imm_hi = "ANDI";
  imm_lo = "LADI";
  bit1 = "AND";
  bit0 = "LAD";
  acc7 = acc_of lo;
})

unfoldable pub decode0e : ℕ → ℕ → ℕ → ℕ → DecodedInst
unfolding accumulate register_register undef
decode0e ir rrr lo kkkk =
    let b32 = lo / 2 ^ 2 % 4 in
    if rrr == 7
    then if b32 == 3
      then accumulate "D" ir "DR0" lo kkkk false
      else if b32 == 2
      then accumulate "BSWR" ir "R0" lo kkkk false
      else if b32 == 0
      then accumulate "DSWR" ir "R0" lo kkkk false
      else undef ir
    else if lo % 8 == 7
    then undef ir
    else register_register (if lo / 2 ^ 3 % 2 == 1 then "BSWP" else "DSWP") ir rrr lo kkkk

unfoldable pub decode0f : ℕ → ℕ → ℕ → ℕ → ℕ → DecodedInst
unfolding accumulate register_register register_imm16 undef
decode0f ir rrr lo kkkk extra =
    let b32 = lo / 2 ^ 2 % 4 in
    if not (rrr == 7) && lo % 16 == 0x07
    then register_imm16 "MVWI" ir rrr kkkk extra
    else if rrr == 7
    then if b32 == 3
      then accumulate "M" ir "DR0" lo kkkk false
      else if b32 == 2
      then accumulate "MVWR" ir "R0" lo kkkk false
      else if b32 == 0
      then accumulate "MVBR" ir "R0" lo kkkk false
      else undef ir
    else register_register (if lo / 2 ^ 3 % 2 == 1 then "MV" else "MVB") ir rrr lo kkkk
