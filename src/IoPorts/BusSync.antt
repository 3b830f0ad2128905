-- ===== src/IoPorts/BusSync.antt =====
-- `busToCru` and `cruToBus` of io_ports.ts.
use retro_cpu_emu.Shared.{
  ℕ, ◌*◌, ◌/◌, ◌%◌, ◌^◌, ◌≡◌, refl, arith, bit_or, false, ◌||◌, some, ◌∷◌, ◌==◌, if◌then◌else◌,
}
use retro_cpu_emu.Cru.{
  Cru, Actor, out_data_base, in_data_base, update, to_bit, write_bit, normalize_bit_addr, store_bit,
  as_byte, cpu_write_out_data_byte, io_write_in_data_byte, io_set_int1_cause, io_set_int2_cause,
  snapshot,
}
use retro_cpu_emu.IoPorts.{Bus, bus_to_cru, cru_to_bus, apply_packed_cause, wire_bit}

as_byte-mod : (v : ℕ) → as_byte (v % 2 ^ 8) ≡ some (v % 2 ^ 8)
unfolding as_byte
as_byte-mod v = ground arith

abbrev latch_out : ℕ → Cru → Cru
latch_out b c = record c {
  out_data_byte = b;
  bits = update c.bits out_data_base (to_bit (b % 2));
  writes = record { actor = Actor.cpu; bit_addr = out_data_base; bit = to_bit (b % 2) } ∷ c.writes;
}

abbrev latch_in : ℕ → Cru → Cru
latch_in b c = record c {
  in_data_byte = b;
  bits = update c.bits in_data_base (to_bit (b % 2));
  writes = record { actor = Actor.io; bit_addr = in_data_base; bit = to_bit (b % 2) } ∷ c.writes;
}

write_out-mod :
    (v : ℕ) (c : Cru) → cpu_write_out_data_byte (v % 2 ^ 8) c ≡ some (latch_out (v % 2 ^ 8) c)
unfolding cpu_write_out_data_byte
write_out-mod v c = rw (cpu_write_out_data_byte, as_byte-mod v) refl

write_in-mod :
    (v : ℕ) (c : Cru) → io_write_in_data_byte (v % 2 ^ 8) c ≡ some (latch_in (v % 2 ^ 8) c)
unfolding io_write_in_data_byte
write_in-mod v c = rw (io_write_in_data_byte, as_byte-mod v) refl

-- The causes that come back: 1 as 2, and 2 and 3 as 1.
abbrev pub swapped_cause : ℕ → ℕ
swapped_cause k = if k % 8 == 1 then 2 else if k % 8 == 2 || k % 8 == 3 then 1 else 0

packed :
    (k : ℕ)
    → bit_or
        (to_bit ((if k % 8 / 2 * 2 == 2 then 1 else 0) % 2))
        (to_bit ((if k % 8 == 1 then 1 else 0) % 2) * 2)
      ≡ swapped_cause k
packed k = ground arith

byte_byte : (x : ℕ) → x % 2 ^ 8 % 2 ^ 8 ≡ x % 2 ^ 8
byte_byte x = omega arith

-- A bus copied to the board's CRU and back: every wire is cut to its low bit, the two data bytes to
-- 8 bits, and the interrupt cause changes to `swapped_cause`.
pub cru_to_bus-bus_to_cru :
    (b : Bus) (c : Cru)
    → let board = record c { strict_roles = false } in
      cru_to_bus (bus_to_cru b board) ≡ record {
        interrupt_busy = wire_bit b.interrupt_busy;
        int_cause = swapped_cause b.int_cause;
        hshk_out_req = wire_bit b.hshk_out_req;
        hshk_out_dena = wire_bit b.hshk_out_dena;
        hshk_in_dack = wire_bit b.hshk_in_dack;
        hshk_in_req = wire_bit b.hshk_in_req;
        hshk_in_dena = wire_bit b.hshk_in_dena;
        hshk_out_dack = wire_bit b.hshk_out_dack;
        hshk_out_data = b.hshk_out_data % 2 ^ 8;
        hshk_in_data = b.hshk_in_data % 2 ^ 8;
      }
unfolding cru_to_bus bus_to_cru apply_packed_cause write_bit normalize_bit_addr store_bit
    io_set_int1_cause io_set_int2_cause snapshot
cru_to_bus-bus_to_cru b c =
    simp (write_out-mod, write_in-mod)
      (rw (packed b.int_cause, byte_byte b.hshk_out_data, byte_byte b.hshk_in_data) refl)
