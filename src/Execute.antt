-- ===== src/Execute.antt =====
-- One instruction: retrocpu_emu_ts/src/cpuboard/tms9995/execute.ts. The context has its own PC, WP,
-- ST and `idle`, which the caller copies back, beside the core, whose PC the fetches advance.
-- Fields of the instruction word are written by division: bits i up to j of `ir` are
-- `ir / 2 ^ i % 2 ^ (j - i + 1)`, and `ir & 0xff00` is `ir / 2 ^ 8 * 2 ^ 8`.
pub mod Shift
pub mod Divide
pub mod CruTransfer
pub mod Format1
pub mod Single
pub mod Decode
pub mod Decoding
pub mod Quotients
pub mod Shifting
pub mod Return
pub mod Fuel
