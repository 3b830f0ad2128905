-- ===== src/Handshake/Command.antt =====
-- The frames of the commands: handshake_type.ts and command_cpu_to_io.ts. A frame is the list of its
-- bytes; a byte past the end reads as `undefined & 0xff`, which is 0.
use retro_cpu_emu.Shared.{
  ℕ, ◌+◌, ◌-◌, ◌*◌, ◌%◌, ◌^◌, bit_or, ◌||◌, List, [], ◌∷◌, length, get_elem?, Option, none, some,
  ltb, ◌==◌, if◌then◌else◌,
}
use retro_cpu_emu.Handshake.Cmd

abbrev pub Frame : Type 0
Frame = List ℕ

-- RESPONSE_CODE.NG
abbrev pub ng : ℕ
ng = 0x01

abbrev pub addr_break_slot_count : ℕ
addr_break_slot_count = 4

abbrev pub break_notify_header_size : ℕ
break_notify_header_size = 11

abbrev pub break_history_entry_size_mn1613 : ℕ
break_history_entry_size_mn1613 = 66

abbrev pub break_history_entry_size_tms9995 : ℕ
break_history_entry_size_tms9995 = 78

abbrev pub cpu_state_notify_frame_size_mn1613 : ℕ
cpu_state_notify_frame_size_mn1613 = 60

abbrev pub cpu_state_notify_frame_size_tms9995 : ℕ
cpu_state_notify_frame_size_tms9995 = 70

abbrev pub break_history_max_count : ℕ
break_history_max_count = 4

-- HSHK_CPU_TYPE.TMS9995
abbrev pub tms9995 : ℕ
tms9995 = 2

unfoldable pub break_history_entry_size_for_cpu : ℕ → ℕ
break_history_entry_size_for_cpu cpu_type =
    if cpu_type == tms9995
    then break_history_entry_size_tms9995
    else break_history_entry_size_mn1613

-- `CPU_FRAME_SIZE[cmd] ?? 1`
unfoldable pub cpu_frame_size : ℕ → ℕ
cpu_frame_size cmd =
    if cmd == Cmd.mode_set || cmd == Cmd.pc_key_get
    then 2
    else if cmd == Cmd.led_display
    then 16
    else if cmd == Cmd.beep || cmd == Cmd.timer_set || cmd == Cmd.lcd_ctrl
    then 6
    else if cmd == Cmd.break_notify
    then break_notify_header_size
    else if cmd == Cmd.lcd_text
    then 20
    else if cmd == Cmd.step_notify || cmd == Cmd.undef_notify
    then cpu_state_notify_frame_size_mn1613
    else 1

unfoldable pub cpu_frame_size_for_cpu : ℕ → ℕ → ℕ
unfolding cpu_frame_size
cpu_frame_size_for_cpu cmd cpu_type =
    if cmd == Cmd.step_notify || cmd == Cmd.undef_notify
    then if cpu_type == tms9995
      then cpu_state_notify_frame_size_tms9995
      else cpu_state_notify_frame_size_mn1613
    else cpu_frame_size cmd

abbrev pub or_zero : Option ℕ → ℕ
or_zero none = 0
or_zero (some b) = b

-- `frame[ofs] & 0xff`
abbrev pub byte_at : Frame → ℕ → ℕ
byte_at frame ofs = or_zero (get_elem? frame ofs) % 2 ^ 8

unfoldable pub read16 : Frame → ℕ → ℕ
read16 buf ofs = bit_or (byte_at buf ofs * 2 ^ 8) (byte_at buf (ofs + 1))

-- The bytes that a notice of a break has in all, by those received.
unfoldable pub break_total : Frame → ℕ → ℕ
break_total frame entry_size =
    let history_count = byte_at frame 2 in
    if ltb (length frame) 3 || ltb break_history_max_count history_count
    then break_notify_header_size
    else break_notify_header_size + history_count * entry_size

-- The bytes still to come. `-` stops at 0 as the source's `Math.max` does.
unfoldable pub cpu_to_io_remaining_size : Frame → ℕ → ℕ → ℕ
unfolding break_total cpu_frame_size_for_cpu
cpu_to_io_remaining_size [] entry_size cpu_type = 0
cpu_to_io_remaining_size (b ∷ rest) entry_size cpu_type =
    let cmd = b % 2 ^ 8 in
    if cmd == Cmd.break_notify
    then break_total (b ∷ rest) entry_size - length (b ∷ rest)
    else cpu_frame_size_for_cpu cmd cpu_type - length (b ∷ rest)
