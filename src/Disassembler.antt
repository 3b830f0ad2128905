-- ===== src/Disassembler.antt =====
-- The disassembler of the MN1613, retrocpu_emu_ts/src/dis_assembler/mn1613.
pub mod Operand
pub mod Moves
pub mod Extended
pub mod Alu
pub mod Decode
pub mod Labels
pub mod Format
pub mod Lengths
pub mod Disputed
pub mod Skips
pub mod Precedence
