-- ===== src/Execute/CruTransfer.antt =====
-- `cruAddr`, `inHandshakeCruRange` and `cruTransfer` of execute.ts.
use retro_cpu_emu.Shared.{
  ℕ, zero, suc, ◌+◌, ◌*◌, ◌-◌, ◌/◌, ◌%◌, ◌^◌, bit_or, Bool, ◌&&◌, ltb, leb, ◌==◌, if◌then◌else◌,
}
use retro_cpu_emu.Shared.State.{State, ◌>>=◌, ◌>>◌, return, gets}
use retro_cpu_emu.Status.{set_lae_word, set_lae_byte}
use retro_cpu_emu.IoPorts.{
  tms9995_cpu_read_cru_bit, tms9995_cpu_write_cru_bit, tms9995_cpu_read_cru_data_byte,
  tms9995_cpu_write_cru_data_byte,
}
use retro_cpu_emu.Machine
use retro_cpu_emu.Addressing.{
  Ea, resolve_ea, read_byte_ea, read_word_ea, write_byte_ea, write_word_ea,
}
use retro_cpu_emu.Context.{Context, on_core, on_ports, from_ports, set_st}

-- R12 with a signed displacement of eight bits.
unfoldable pub cru_addr : ℕ → State Context ℕ
cru_addr disp8 = do
  r12 ← on_core (Machine.read_reg 12)
  return ((r12 + disp8 % 2 ^ 8 + 2 ^ 16 - (if ltb (disp8 % 2 ^ 8) 128 then 0 else 256)) % 2 ^ 16)

abbrev cru_hshk_min : ℕ
cru_hshk_min = 0x0010

abbrev cru_hshk_max : ℕ
cru_hshk_max = 0x0027

unfoldable pub in_handshake_cru_range : ℕ → ℕ → Bool
in_handshake_cru_range base bits = leb cru_hshk_min base && leb (base + bits) (cru_hshk_max + 1)

-- The loops over the bits, with `left` rounds to go.
unfoldable pub read_bits : ℕ → ℕ → ℕ → ℕ → ℕ → State Context ℕ
read_bits zero i base width w = return w
read_bits (suc left) i base width w = do
  bit ← from_ports (λ p. tms9995_cpu_read_cru_bit (base + i) p)
  read_bits left (i + 1) base width (bit_or w (bit * 2 ^ i) % 2 ^ width)

unfoldable pub write_bits : ℕ → ℕ → ℕ → ℕ → State Context (Unit {0})
write_bits zero i base w = return tt
write_bits (suc left) i base w = do
  on_ports (tms9995_cpu_write_cru_bit (base + i) (w / 2 ^ i % 2))
  write_bits left (i + 1) base w

unfoldable pub read_range : ℕ → ℕ → ℕ → State Context ℕ
read_range base bits width =
    if in_handshake_cru_range base bits then read_bits bits 0 base width 0 else return 0

abbrev lae : (ℕ → ℕ → ℕ) → ℕ → State Context (Unit {0})
lae set v = do st ← gets (λ c. c.st); set_st (set st v)

unfoldable pub stcr : ℕ → ℕ → Ea → State Context (Unit {0})
stcr bits base ea =
    if base == 0x0027 && bits == 8
    then (do
      b ← from_ports tms9995_cpu_read_cru_data_byte
      on_core (write_byte_ea ea b)
      lae set_lae_byte b)
    else if leb bits 8
    then (do b ← read_range base bits 8; on_core (write_byte_ea ea b); lae set_lae_byte b)
    else (do w ← read_range base 16 16; on_core (write_word_ea ea w); lae set_lae_word w)

unfoldable pub ldcr : ℕ → ℕ → Ea → State Context (Unit {0})
ldcr bits base ea =
    if base == 0x0023 && bits == 8
    then (do b ← on_core (read_byte_ea ea); on_ports (tms9995_cpu_write_cru_data_byte (b % 2 ^ 8)))
    else if leb bits 8
    then (do b ← on_core (read_byte_ea ea); write_bits bits 0 base (b % 2 ^ 8))
    else (do w ← on_core (read_word_ea ea); write_bits 16 0 base (w % 2 ^ 16))

unfoldable pub cru_transfer : ℕ → Bool → State Context (Unit {0})
cru_transfer ir is_stcr = do
  let field = ir / 2 ^ 6 % 16
  let bits = if field == 0 then 16 else field
  ea ← on_core (resolve_ea (ir / 2 ^ 4 % 4) (ir % 16) (leb bits 8))
  r12 ← on_core (Machine.read_reg 12)
  if is_stcr then stcr bits (r12 % 2 ^ 16) ea else ldcr bits (r12 % 2 ^ 16) ea
