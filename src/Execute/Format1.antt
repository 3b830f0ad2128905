-- ===== src/Execute/Format1.antt =====
-- `format1` of execute.ts.
use retro_cpu_emu.Shared.{ℕ, ◌+◌, ◌-◌, ◌/◌, ◌%◌, ◌^◌, bit_and, bit_or, Bool, if◌then◌else◌}
use retro_cpu_emu.Shared.State.{State, ◌>>=◌, ◌>>◌}
use retro_cpu_emu.Status.{
  set_lae_word, set_lae_byte, set_compare_word, set_compare_byte, set_add_flags, set_sub_flags,
}
use retro_cpu_emu.Addressing.{
  Ea, resolve_ea, read_byte_ea, read_word_ea, write_byte_ea, write_word_ea,
}
use retro_cpu_emu.Context.{Context, on_core, set_st}

pub data Op : Type 0 where
  add sub soc szc compare mov : Op

abbrev put_byte : Ea → ℕ → ℕ → State Context (Unit {0})
put_byte dst st r = do set_st st; on_core (write_byte_ea dst r)

abbrev put_word : Ea → ℕ → ℕ → State Context (Unit {0})
put_word dst st r = do set_st st; on_core (write_word_ea dst r)

unfoldable pub byte_result : Op → Ea → ℕ → ℕ → State Context (Unit {0})
byte_result Op.add dst d s c =
    let r = (d + s) % 2 ^ 8 in put_byte dst (set_lae_byte (set_add_flags c.st d s r) r) r c
byte_result Op.sub dst d s c =
    let r = (d + 2 ^ 8 - s) % 2 ^ 8 in put_byte dst (set_lae_byte (set_sub_flags c.st d s r) r) r c
byte_result Op.soc dst d s c = let r = bit_or d s % 2 ^ 8 in put_byte dst (set_lae_byte c.st r) r c
byte_result Op.szc dst d s c =
    let r = bit_and d (2 ^ 32 - 1 - s) % 2 ^ 8 in put_byte dst (set_lae_byte c.st r) r c
byte_result Op.compare dst d s c = set_st (set_compare_byte c.st d s) c
byte_result Op.mov dst d s c = put_byte dst (set_lae_byte c.st s) s c

unfoldable pub word_result : Op → Ea → ℕ → ℕ → State Context (Unit {0})
word_result Op.add dst d s c =
    let r = (d + s) % 2 ^ 16 in put_word dst (set_add_flags c.st d s r) r c
word_result Op.sub dst d s c =
    let r = (d + 2 ^ 16 - s) % 2 ^ 16 in put_word dst (set_sub_flags c.st d s r) r c
word_result Op.soc dst d s c = let r = bit_or d s % 2 ^ 16 in put_word dst (set_lae_word c.st r) r c
word_result Op.szc dst d s c =
    let r = bit_and d (2 ^ 32 - 1 - s) % 2 ^ 16 in put_word dst (set_lae_word c.st r) r c
word_result Op.compare dst d s c = set_st (set_compare_word c.st d s) c
word_result Op.mov dst d s c = put_word dst (set_lae_word c.st s) s c

unfoldable pub format1 : ℕ → Bool → Op → State Context (Unit {0})
format1 ir byte_op op = do
  dst ← on_core (resolve_ea (ir / 2 ^ 10 % 4) (ir / 2 ^ 6 % 16) byte_op)
  src ← on_core (resolve_ea (ir / 2 ^ 4 % 4) (ir % 16) byte_op)
  if byte_op
      then (do
        d ← on_core (read_byte_ea dst)
        s ← on_core (read_byte_ea src)
        byte_result op dst d s)
      else (do
        d ← on_core (read_word_ea dst)
        s ← on_core (read_word_ea src)
        word_result op dst d s)
