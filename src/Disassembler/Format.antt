-- ===== src/Disassembler/Format.antt =====
-- The text of an instruction: retrocpu_emu_ts/src/dis_assembler/mn1613/format.ts and
-- mn1613_disassembler.ts. The table of labels is empty where the source has none.
use Prim.Native.String.{String}
use retro_cpu_emu.Shared.{
  ℕ, ◌+◌, ◌/◌, ◌%◌, ◌^◌, List, [], ◌∷◌, ◌++◌, Option, none, some, get_elem?, ◌==◌, if◌then◌else◌,
}
use retro_cpu_emu.Shared.Text.{◌&◌, known, hex_digit, low_digits, is_empty, same_text}
use retro_cpu_emu.Disassembler.Operand.{
  AddrForm, plain, zp, paren, at_sign, star_paren, io, bb, DecodedOp, raw, addr, imm, skip, ee,
  carry, DecodedInst, hex8,
}
use retro_cpu_emu.Disassembler.Labels.{Mn1613LabelTable, lookup}
use retro_cpu_emu.Disassembler.Decode.{decode_mn1613}

abbrev pub skip_name : List String
skip_name =
    "" ∷ "SKP" ∷ "M" ∷ "PZ" ∷ "Z" ∷ "NZ" ∷ "MZ" ∷ "P" ∷ "EZ" ∷ "ENZ" ∷ "OZ" ∷ "ONZ" ∷ "LMZ" ∷ "LP"
    ∷ "LPZ" ∷ "LM" ∷ []

abbrev pub ee_name : List String
ee_name = "" ∷ "RE" ∷ "SE" ∷ "CE" ∷ []

unfoldable pub hex16 : ℕ → String
hex16 v =
    "0x" & hex_digit (v / 2 ^ 12) & hex_digit (v / 2 ^ 8) & hex_digit (v / 2 ^ 4) & hex_digit v

-- `name || hex`: an empty name counts as none.
abbrev pub non_empty : Option String → Option String
non_empty none = none
non_empty (some s) = if is_empty s then none else some s

abbrev pub or_text : Option String → String → String
or_text none s = s
or_text (some name) s = name

abbrev pub decimals : List String
decimals = low_digits ++ ("8" ∷ "9" ∷ "10" ∷ "11" ∷ "12" ∷ "13" ∷ "14" ∷ "15" ∷ [])

abbrev pub push_text : Option String → List String → List String
push_text none args = args
push_text (some s) args = s ∷ args

-- `args.join(", ")`.
unfoldable pub join_list : List String → String
join_list [] = ""
join_list (s ∷ []) = s
join_list (s ∷ t ∷ rest) = s & ", " & join_list (t ∷ rest)

abbrev pub join_args : String → List String → String
join_args mnemonic [] = mnemonic
join_args mnemonic (s ∷ args) = mnemonic & " " & join_list (s ∷ args)

pub record DisassembleResult : Type 0 where
  pub text : String
  pub word_count : ℕ
  pub next_addr : ℕ

module _ (labels : Mn1613LabelTable) where
  unfoldable pub addr_text : ℕ → ℕ → String
  unfolding hex8 hex16
  addr_text word_addr width =
      or_text (non_empty (lookup (word_addr % 2 ^ 16) labels))
        (if width == 8 then hex8 word_addr else hex16 word_addr)

  unfoldable pub imm_text : ℕ → ℕ → String
  unfolding hex8 hex16
  imm_text v bits =
      if bits == 16
      then "#" & or_text (non_empty (lookup (v % 2 ^ 16) labels)) (hex16 v)
      else if bits == 8
      then "#" & hex8 v
      else "#" & known (get_elem? decimals (v % 16))

  unfoldable pub format_addr : ℕ → AddrForm → Option String → String
  unfolding addr_text
  format_addr v plain base = addr_text v 16
  format_addr v zp base = "*" & addr_text v 8
  format_addr v paren base = "(" & addr_text v 16 & ")"
  format_addr v at_sign base = "@" & addr_text v 16
  format_addr v star_paren base = "(*" & addr_text v 8 & ")"
  format_addr v io base = addr_text v 8
  format_addr v bb base = addr_text v 16 & "(" & or_text base "CSBR" & ")"

  unfoldable pub format_op : DecodedOp → Option String
  unfolding imm_text format_addr
  format_op (raw s) = some s
  format_op (imm v bits) = some (imm_text v bits)
  format_op (skip n) = non_empty (get_elem? skip_name (n % 16))
  format_op (ee n) = non_empty (get_elem? ee_name (n % 4))
  format_op carry = some "C"
  format_op (addr v form base) = some (format_addr v form base)

  -- An operand with no text, or an empty one, is left out.
  unfoldable pub format_ops : List DecodedOp → List String
  unfolding format_op
  format_ops [] = []
  format_ops (op ∷ ops) = push_text (non_empty (format_op op)) (format_ops ops)

  unfoldable pub format_args : DecodedInst → String
  unfolding format_ops
  format_args inst = join_args inst.mnemonic (format_ops inst.ops)

  unfoldable pub format_decoded : DecodedInst → String
  unfolding format_args hex16
  format_decoded inst =
      if same_text inst.mnemonic ".word"
      then elim inst.ops [ imm v _ ∷ _ ↦ ".word " & hex16 v | _ ↦ format_args inst ]
      else format_args inst

  -- `Mn1613Disassembler.disassemble`.
  unfoldable pub disassemble : ℕ → (ℕ → ℕ) → DisassembleResult
  unfolding format_decoded
  disassemble address read_word =
      let a = address % 2 ^ 16 in
      let inst = decode_mn1613 a read_word in
      record {
        text = format_decoded inst;
        word_count = inst.word_count;
        next_addr = (a + inst.word_count) % 2 ^ 16;
      }
