-- ===== src/Examples/Text.antt =====
-- The disassembler at concrete inputs.
use retro_cpu_emu.Shared.{
  ℕ, ◌==◌, List, ◌+◌, ◌%◌, ◌^◌, ◌≡◌, refl, arith, [], ◌∷◌, some, if◌then◌else◌,
}
use retro_cpu_emu.Mn1613.Core.{skip_next, rd_c}
use retro_cpu_emu.Examples.Mn.{mn_cpu}
use retro_cpu_emu.Disassembler.Labels.{Symbol, empty_table, load_cdb, lookup}
use retro_cpu_emu.Disassembler.Decode.{decode_mn1613}
use retro_cpu_emu.Disassembler.Format.{disassemble, join_list}
use retro_cpu_emu.Disassembler.Operand.{reg_name}
use retro_cpu_emu.Disassembler.Extended.{decode04, base_address}
use retro_cpu_emu.Disassembler.Disputed.{disputed}
use retro_cpu_emu.Disassembler.Skips.{skip_next-disassemble}
use retro_cpu_emu.Disassembler.Precedence.{load_cdb-named}

skip_next-disassemble_example :
    (skip_next mn_cpu).1.reg.ic
    ≡ ((disassemble empty_table mn_cpu.reg.ic (λ a. (rd_c a mn_cpu).0)).next_addr
        + (if disputed ((rd_c mn_cpu.reg.ic mn_cpu).0 % 2 ^ 16) then 1 else 0))
      % 2 ^ 16
skip_next-disassemble_example = skip_next-disassemble mn_cpu empty_table (omega arith)

abbrev some_symbols : List Symbol
some_symbols =
    record { name = "main"; word_addr = 0x100; scope = "G" }
    ∷ record { name = "local"; word_addr = 0x100; scope = "L" }
    ∷ []

load_cdb-named_example :
    load_cdb some_symbols empty_table 0x100 ≡ some (record { name = "main"; scope = "G" })
load_cdb-named_example = load_cdb-named some_symbols empty_table 0x100

-- A word at every address.
abbrev memory_of : ℕ → ℕ → ℕ
memory_of ir a = if a == 0x200 then ir else 0x1234

ld_text : (disassemble empty_table 0x200 (memory_of 0x2708)).text ≡ "LD R0, 0x1234"
unfolding disassemble decode_mn1613 decode04 reg_name join_list base_address lookup
ld_text = refl
