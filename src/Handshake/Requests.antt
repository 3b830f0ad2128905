-- ===== src/Handshake/Requests.antt =====
-- The requests of the debugger are read as they were encoded, whatever follows them in the buffer.
use retro_cpu_emu.Shared.{
  ℕ, ◌+◌, ◌*◌, ◌/◌, ◌%◌, ◌^◌, bit_or, ◌≡◌, ◌≤◌, ◌<◌, refl, ap, List, [], ◌∷◌, ◌++◌, some, length,
  take, arith,
}
use retro_cpu_emu.Shared.Bits.{or_fields}
use retro_cpu_emu.Handshake.Command.{read16}
use retro_cpu_emu.Handshake.Debug.{
  AddrBreakSetFields, debug_mem_max_bytes, read32, encode_addr_break_set_frame,
  parse_addr_break_set_frame, encode_mem_read_frame, parse_mem_read_frame, encode_mem_write_frame,
  parse_mem_write_frame, debug_pc_frame_length, debug_pc_needed_bytes,
}

pub take-append : (xs ys : List ℕ) → take (length xs) (xs ++ ys) ≡ xs
take-append [] ys = refl
take-append (x ∷ xs) ys = ap (λ (l : List ℕ). x ∷ l) (take-append xs ys)

length-append_le : (xs ys : List ℕ) → length xs ≤ length (xs ++ ys)
length-append_le [] ys = omega arith
length-append_le (x ∷ xs) ys = let h = length-append_le xs ys in omega arith

-- Four bytes of a number of 32 bits are joined to it.
join_bytes :
    (n : ℕ)
    → n < 2 ^ 32
    → n % 2 ^ 32 / 2 ^ 24 % 2 ^ 8 % 2 ^ 8 * 2 ^ 24
        + n % 2 ^ 32 / 2 ^ 16 % 2 ^ 8 % 2 ^ 8 * 2 ^ 16
        + n % 2 ^ 32 / 2 ^ 8 % 2 ^ 8 % 2 ^ 8 * 2 ^ 8
        + n % 2 ^ 32 % 2 ^ 8 % 2 ^ 8
      ≡ n
join_bytes n h = omega arith

pub mem_write-needed :
    (addr : ℕ) (content rest : List ℕ)
    → length content ≤ debug_mem_max_bytes
    → debug_pc_needed_bytes (encode_mem_write_frame addr content ++ rest)
      ≡ some (length (encode_mem_write_frame addr content))
unfolding debug_pc_needed_bytes encode_mem_write_frame read32
mem_write-needed addr content rest h = rw (join_bytes (length content) (omega arith)) (ground arith)

pub mem_write-parsed :
    (addr : ℕ) (content rest : List ℕ)
    → addr < 2 ^ 32
    → length content ≤ debug_mem_max_bytes
    → parse_mem_write_frame (encode_mem_write_frame addr content ++ rest)
      ≡ some (record { byte_addr = addr; content = content })
unfolding parse_mem_write_frame encode_mem_write_frame read32
mem_write-parsed addr content rest k h =
    let long = length-append_le content rest in
    rw (join_bytes (length content) (omega arith), join_bytes addr k, take-append content rest)
      (ground arith)

join_two :
    (w : ℕ)
    → w < 2 ^ 16
    → bit_or (w % 2 ^ 16 / 2 ^ 8 % 2 ^ 8 % 2 ^ 8 * 2 ^ 8) (w % 2 ^ 16 % 2 ^ 8 % 2 ^ 8) % 2 ^ 16 ≡ w
join_two w h =
    rw (or_fields 8 (w % 2 ^ 16 / 2 ^ 8 % 2 ^ 8 % 2 ^ 8) (w % 2 ^ 16 % 2 ^ 8 % 2 ^ 8) (omega arith))
      (omega arith)

-- Fields that fit the frame of an address break.
pub record Fits (f : AddrBreakSetFields) : Type 0 where
  pub slot : f.slot < 2 ^ 8
  pub flags : f.flags < 2 ^ 8
  pub count : f.count < 2 ^ 8
  pub addr : f.addr < 2 ^ 32
  pub content : f.content < 2 ^ 16

byte_lem : (n : ℕ) → n < 2 ^ 8 → n % 2 ^ 8 % 2 ^ 8 ≡ n
byte_lem n h = omega arith

-- A request for an address break whose fields fit the frame is taken from the buffer at the length it
-- was encoded with, and with the same fields, whatever bytes follow it.
pub addr_break_set-received :
    (f : AddrBreakSetFields) (rest : List ℕ)
    → Fits f
    → (debug_pc_needed_bytes (encode_addr_break_set_frame f ++ rest)
        ≡ some (length (encode_addr_break_set_frame f)))
      × (parse_addr_break_set_frame (encode_addr_break_set_frame f ++ rest) ≡ some f)
unfolding debug_pc_needed_bytes debug_pc_frame_length encode_addr_break_set_frame
    parse_addr_break_set_frame read32 read16
addr_break_set-received f rest h = (
  ground arith,
  rw
      (
        join_bytes f.addr h.addr,
        join_two f.content h.content,
        byte_lem f.slot h.slot,
        byte_lem f.flags h.flags,
        byte_lem f.count h.count,
      )
      (ground arith),
)

-- A request to write memory, with an address of 32 bits and at most 65536 bytes, is taken from the
-- buffer at the length it was encoded with, and with the same address and bytes, whatever bytes
-- follow it.
pub mem_write-received :
    (addr : ℕ) (content rest : List ℕ)
    → addr < 2 ^ 32
    → length content ≤ debug_mem_max_bytes
    → (debug_pc_needed_bytes (encode_mem_write_frame addr content ++ rest)
        ≡ some (length (encode_mem_write_frame addr content)))
      × (parse_mem_write_frame (encode_mem_write_frame addr content ++ rest)
          ≡ some (record { byte_addr = addr; content = content }))
mem_write-received addr content rest k h =
    (mem_write-needed addr content rest h, mem_write-parsed addr content rest k h)

-- A request to read memory, likewise.
pub mem_read-received :
    (addr count : ℕ) (rest : List ℕ)
    → addr < 2 ^ 32
    → count < 2 ^ 32
    → (debug_pc_needed_bytes (encode_mem_read_frame addr count ++ rest)
        ≡ some (length (encode_mem_read_frame addr count)))
      × (parse_mem_read_frame (encode_mem_read_frame addr count ++ rest)
          ≡ some (record { byte_addr = addr; byte_count = count }))
unfolding debug_pc_needed_bytes debug_pc_frame_length encode_mem_read_frame parse_mem_read_frame
    read32
mem_read-received addr count rest h k =
    (ground arith, rw (join_bytes addr h, join_bytes count k) (ground arith))
