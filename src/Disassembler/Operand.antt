-- ===== src/Disassembler/Operand.antt =====
-- The operands of a decoded instruction: retrocpu_emu_ts/src/dis_assembler/mn1613/decode.ts. A text
-- is a native String, and a property that may be absent (`bb`, a name out of its table) an Option.
use Prim.Native.String.{String}
use retro_cpu_emu.Shared.{
  ℕ, ◌+◌, ◌-◌, ◌/◌, ◌%◌, ◌^◌, Bool, List, [], ◌∷◌, ◌++◌, Option, none, some, get_elem?, ltb, ◌==◌,
  if◌then◌else◌,
}
use retro_cpu_emu.Shared.Text.{◌&◌, known, hex_digit}

pub data AddrForm : Type 0 where
  plain : AddrForm
  zp : AddrForm
  paren : AddrForm
  at_sign : AddrForm
  star_paren : AddrForm
  io : AddrForm
  bb : AddrForm

-- `c`, the carry of an operation, is `carry`.
pub data DecodedOp : Type 0 where
  raw : String → DecodedOp
  addr : ℕ → AddrForm → Option String → DecodedOp
  imm : ℕ → ℕ → DecodedOp
  skip : ℕ → DecodedOp
  ee : ℕ → DecodedOp
  carry : DecodedOp

pub record DecodedInst : Type 0 where
  pub mnemonic : String
  pub ops : List DecodedOp
  pub word_count : ℕ
  pub ir : ℕ

abbrev pub regs : List String
regs = "R0" ∷ "R1" ∷ "R2" ∷ "R3" ∷ "R4" ∷ "SP" ∷ "STR" ∷ "IC" ∷ []

abbrev pub ri : List String
ri = "R1" ∷ "R2" ∷ "R3" ∷ "R4" ∷ []

abbrev pub bb_names : List String
bb_names = "CSBR" ∷ "SSBR" ∷ "TSR0" ∷ "TSR1" ∷ []

abbrev pub bbb : List String
bbb = "CSBR" ∷ "SSBR" ∷ "TSR0" ∷ "TSR1" ∷ "OSR0" ∷ "OSR1" ∷ "OSR2" ∷ "OSR3" ∷ []

abbrev pub ppp : List String
ppp = "SBRB" ∷ "ICB" ∷ "NPP" ∷ []

abbrev pub hhh : List String
hhh = "TCR" ∷ "TIR" ∷ "TSR" ∷ "SCR" ∷ "SSR" ∷ "SOR" ∷ "IISR" ∷ []

unfoldable pub reg_name : ℕ → String
reg_name rrr = known (get_elem? regs (rrr % 8))

unfoldable pub ri_name : ℕ → String
ri_name ii = known (get_elem? ri (ii % 4))

-- A displacement of 8 bits with its sign, from the address of the instruction.
unfoldable pub rel_target : ℕ → ℕ → ℕ
rel_target instr_addr d =
    if ltb d 0x80 then (instr_addr + d) % 2 ^ 16 else (instr_addr + 2 ^ 16 + d - 0x100) % 2 ^ 16

unfoldable pub hex8 : ℕ → String
hex8 v = "0x" & hex_digit (v / 16) & hex_digit v

unfoldable pub one : String → ℕ → List DecodedOp → DecodedInst
one mnemonic ir ops = record { mnemonic = mnemonic; ops = ops; word_count = 1; ir = ir }

unfoldable pub two : String → ℕ → List DecodedOp → DecodedInst
two mnemonic ir ops = record { mnemonic = mnemonic; ops = ops; word_count = 2; ir = ir }

unfoldable pub undef : ℕ → DecodedInst
undef ir = record { mnemonic = ".word"; ops = imm (ir % 2 ^ 16) 16 ∷ []; word_count = 1; ir = ir }

unfoldable pub ri_mode : ℕ → ℕ → Option String
unfolding ri_name
ri_mode mm ii =
    if mm == 1
    then some ("(" & ri_name ii & ")")
    else if mm == 2
    then some ("-(" & ri_name ii & ")")
    else if mm == 3
    then some ("(" & ri_name ii & ")+")
    else none

-- What stands behind the operands: the carry, the EE field and the skip condition, those that are
-- not 0. An absent `ee` is 0, and an absent `carry` false.
unfoldable pub trail : List DecodedOp → ℕ → ℕ → Bool → List DecodedOp
trail ops k e with_carry =
    ops
    ++ (if with_carry then carry ∷ [] else [])
    ++ (if e % 4 == 0 then [] else ee (e % 4) ∷ [])
    ++ (if k % 16 == 0 then [] else skip (k % 16) ∷ [])

-- The operand of L, ST, B, BAL, IMS and DMS.
unfoldable pub ea_op : ℕ → ℕ → ℕ → DecodedOp
unfolding rel_target hex8
ea_op mmm d instr_addr =
    let disp = d % 2 ^ 8 in
    let m = mmm % 8 in
    if m == 0
    then addr disp zp none
    else if m == 1
    then addr (rel_target instr_addr disp) plain none
    else if m == 2
    then addr disp star_paren none
    else if m == 3
    then addr (rel_target instr_addr disp) paren none
    else if m == 4
    then raw (hex8 disp & "(X0)")
    else if m == 5
    then raw (hex8 disp & "(X1)")
    else if m == 6
    then raw ("(*" & hex8 disp & ")(X0)")
    else raw ("(*" & hex8 disp & ")(X1)")
