-- ===== src/Handshake/Debug.antt =====
-- The requests of the debugger: retrocpu_emu_ts/src/ioboard/debug_addr_break.ts, debug_mem_read.ts and
-- debug_mem_write.ts. A frame is the list of its bytes.
use retro_cpu_emu.Shared.{
  ℕ, ◌+◌, ◌*◌, ◌/◌, ◌%◌, ◌^◌, Bool, not, List, [], ◌∷◌, Option, none, some, length, take, drop, ltb,
  ◌==◌, if◌then◌else◌,
}
use retro_cpu_emu.Handshake.Command.{Frame, byte_at, read16, addr_break_slot_count}

abbrev pub break_mem_io_set : ℕ
break_mem_io_set = 0x80

abbrev pub break_mem_io_clr : ℕ
break_mem_io_clr = 0x81

abbrev pub mem_read : ℕ
mem_read = 0x83

abbrev pub mem_write : ℕ
mem_write = 0x84

abbrev pub addr_break_set_payload_len : ℕ
addr_break_set_payload_len = 9

abbrev pub addr_break_set_frame_len : ℕ
addr_break_set_frame_len = 1 + addr_break_set_payload_len

abbrev pub addr_break_clr_frame_len : ℕ
addr_break_clr_frame_len = 2

abbrev pub mem_read_req_frame_len : ℕ
mem_read_req_frame_len = 9

abbrev pub mem_write_req_header_len : ℕ
mem_write_req_header_len = 9

abbrev pub debug_mem_max_bytes : ℕ
debug_mem_max_bytes = 65536

pub record AddrBreakSetFields : Type 0 where
  pub slot : ℕ
  pub flags : ℕ
  pub count : ℕ
  pub addr : ℕ
  pub content : ℕ

pub record MemReadReq : Type 0 where
  pub byte_addr : ℕ
  pub byte_count : ℕ

pub record MemWriteReq : Type 0 where
  pub byte_addr : ℕ
  pub content : List ℕ

-- Four bytes joined, upper byte first, and made unsigned by `>>> 0`.
unfoldable pub read32 : Frame → ℕ → ℕ
read32 frame ofs =
    byte_at frame ofs * 2 ^ 24
    + byte_at frame (ofs + 1) * 2 ^ 16
    + byte_at frame (ofs + 2) * 2 ^ 8
    + byte_at frame (ofs + 3)

unfoldable pub encode_addr_break_set_frame : AddrBreakSetFields → Frame
encode_addr_break_set_frame fields =
    let addr = fields.addr % 2 ^ 32 in
    let content = fields.content % 2 ^ 16 in
    break_mem_io_set
    ∷ fields.slot % 2 ^ 8
    ∷ fields.flags % 2 ^ 8
    ∷ fields.count % 2 ^ 8
    ∷ addr / 2 ^ 24 % 2 ^ 8
    ∷ addr / 2 ^ 16 % 2 ^ 8
    ∷ addr / 2 ^ 8 % 2 ^ 8
    ∷ addr % 2 ^ 8
    ∷ content / 2 ^ 8 % 2 ^ 8
    ∷ content % 2 ^ 8
    ∷ []

unfoldable pub parse_addr_break_set_frame : Frame → Option AddrBreakSetFields
unfolding read32
parse_addr_break_set_frame frame =
    if ltb (length frame) addr_break_set_frame_len
    then none
    else if not (byte_at frame 0 == break_mem_io_set)
    then none
    else some (record {
      slot = byte_at frame 1;
      flags = byte_at frame 2;
      count = byte_at frame 3;
      addr = read32 frame 4;
      content = read16 frame 8 % 2 ^ 16;
    })

-- What a frame that was parsed leaves for the payload.
abbrev payload : Frame → Option AddrBreakSetFields → Option Frame
payload frame none = none
payload frame (some _) = some (take addr_break_set_payload_len (drop 1 frame))

unfoldable pub addr_break_set_payload : Frame → Option Frame
addr_break_set_payload frame = payload frame (parse_addr_break_set_frame frame)

unfoldable pub encode_addr_break_clr_frame : ℕ → Frame
encode_addr_break_clr_frame slot = break_mem_io_clr ∷ slot % 2 ^ 8 ∷ []

unfoldable pub parse_addr_break_clr_slot : Frame → Option ℕ
parse_addr_break_clr_slot frame =
    if ltb (length frame) addr_break_clr_frame_len
    then none
    else if not (byte_at frame 0 == break_mem_io_clr)
    then none
    else some (byte_at frame 1)

unfoldable pub is_addr_break_slot : ℕ → Bool
is_addr_break_slot slot = ltb slot addr_break_slot_count

unfoldable pub encode_mem_read_frame : ℕ → ℕ → Frame
encode_mem_read_frame byte_addr byte_count =
    let a = byte_addr % 2 ^ 32 in
    let n = byte_count % 2 ^ 32 in
    mem_read
    ∷ a / 2 ^ 24 % 2 ^ 8
    ∷ a / 2 ^ 16 % 2 ^ 8
    ∷ a / 2 ^ 8 % 2 ^ 8
    ∷ a % 2 ^ 8
    ∷ n / 2 ^ 24 % 2 ^ 8
    ∷ n / 2 ^ 16 % 2 ^ 8
    ∷ n / 2 ^ 8 % 2 ^ 8
    ∷ n % 2 ^ 8
    ∷ []

unfoldable pub parse_mem_read_frame : Frame → Option MemReadReq
parse_mem_read_frame frame =
    if ltb (length frame) mem_read_req_frame_len
    then none
    else if not (byte_at frame 0 == mem_read)
    then none
    else some (record { byte_addr = read32 frame 1; byte_count = read32 frame 5 })

unfoldable pub encode_mem_write_frame : ℕ → List ℕ → Frame
encode_mem_write_frame byte_addr content =
    let a = byte_addr % 2 ^ 32 in
    let n = length content % 2 ^ 32 in
    mem_write
    ∷ a / 2 ^ 24 % 2 ^ 8
    ∷ a / 2 ^ 16 % 2 ^ 8
    ∷ a / 2 ^ 8 % 2 ^ 8
    ∷ a % 2 ^ 8
    ∷ n / 2 ^ 24 % 2 ^ 8
    ∷ n / 2 ^ 16 % 2 ^ 8
    ∷ n / 2 ^ 8 % 2 ^ 8
    ∷ n % 2 ^ 8
    ∷ content

unfoldable pub parse_mem_write_frame : Frame → Option MemWriteReq
parse_mem_write_frame frame =
    if ltb (length frame) mem_write_req_header_len
    then none
    else if not (byte_at frame 0 == mem_write)
    then none
    else let byte_count = read32 frame 5 in
      if ltb debug_mem_max_bytes byte_count
      then none
      else if ltb (length frame) (mem_write_req_header_len + byte_count)
      then none
      else some (record {
        byte_addr = read32 frame 1;
        content = take byte_count (drop mem_write_req_header_len frame);
      })

unfoldable pub debug_pc_frame_length : ℕ → ℕ
debug_pc_frame_length cmd =
    if cmd == break_mem_io_set
    then addr_break_set_frame_len
    else if cmd == break_mem_io_clr
    then addr_break_clr_frame_len
    else if cmd == mem_read
    then mem_read_req_frame_len
    else if cmd == mem_write
    then mem_write_req_header_len
    else 1

-- `none` while the header is not complete.
unfoldable pub debug_pc_needed_bytes : Frame → Option ℕ
unfolding debug_pc_frame_length
debug_pc_needed_bytes buf =
    let cmd = byte_at buf 0 in
    if ltb (length buf) 1
    then none
    else if cmd == mem_write
    then (if ltb (length buf) mem_write_req_header_len
        then none
        else let n = read32 buf 5 in
          if ltb debug_mem_max_bytes n
          then some mem_write_req_header_len
          else some (mem_write_req_header_len + n))
    else some (debug_pc_frame_length cmd)
