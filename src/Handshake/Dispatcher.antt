-- ===== src/Handshake/Dispatcher.antt =====
-- The dispatcher of command_cpu_to_io.ts. The handlers of the IO board are the record
-- CpuToIoHandlers of the operations on its state H; each may change that state. A `Uint8Array` keeps
-- the low 8 bits of what is stored.
use retro_cpu_emu.Shared.{
  ℕ, zero, suc, ◌-◌, ◌/◌, ◌%◌, ◌^◌, min, ◌||◌, List, [], ◌∷◌, ◌++◌, length, take, drop, ltb, leb,
  ◌==◌, if◌then◌else◌,
}
use retro_cpu_emu.Shared.Int.{ℤ}
use retro_cpu_emu.Shared.State.{State, ◌>>=◌, return}
use retro_cpu_emu.Handshake.Cmd
use retro_cpu_emu.Handshake.Command.{
  Frame, ng, byte_at, read16, cpu_frame_size_for_cpu, addr_break_slot_count,
  break_history_max_count, break_notify_header_size,
}
use retro_cpu_emu.Handshake.Notify.{CpuStateNotifyInfo, read_addr, decode_cpu_state_notify_info}

pub record LedDisplayData : Type 0 where
  pub seven_seg : List ℕ
  pub bullet_led0_7 : ℕ
  pub bullet_led8_f : ℕ

pub record BeepParams : Type 0 where
  pub frequency_hz : ℕ
  pub duration_ms : ℕ

pub record TimerParams : Type 0 where
  pub timer_no : ℕ
  pub period_ms : ℕ
  pub count : ℕ

pub record BreakInfo : Type 0 where
  pub kind : ℕ
  pub slot : ℕ
  pub flags : ℕ
  pub break_count : ℕ
  pub history_count : ℕ
  pub history_entries : List Frame
  pub addr : ℤ

pub record PcKey : Type 0 where
  pub ascii : ℕ
  pub key_code : ℕ
  pub status : ℕ

pub record Light : Type 0 where
  pub clear : ℕ
  pub red : ℕ
  pub green : ℕ
  pub blue : ℕ
  pub status : ℕ

pub record Distance : Type 0 where
  pub distance_mm : ℕ
  pub range_status : ℕ
  pub status : ℕ

pub record CpuToIoHandlers (H : Type 0) : Type 0 where
  pub on_mode_set : ℕ → State H ℕ
  pub get_hex_keys : State H (List ℕ × ℕ)
  pub get_pc_key : State H PcKey
  pub on_led_display : LedDisplayData → State H ℕ
  pub on_beep : BeepParams → State H ℕ
  pub on_timer_set : TimerParams → State H ℕ
  pub get_time : State H (List ℕ × ℕ)
  pub on_break_notify : BreakInfo → State H ℕ
  pub on_step_notify : CpuStateNotifyInfo → State H ℕ
  pub on_undef_notify : CpuStateNotifyInfo → State H ℕ
  pub on_lcd_control : Frame → State H ℕ
  pub on_lcd_text : Frame → State H ℕ
  pub get_rtc_raw : State H (List ℕ × ℕ)
  pub get_temp_raw : State H (ℕ × ℕ)
  pub get_light_raw : State H Light
  pub get_distance_raw : State H Distance

abbrev pub byte : ℕ → ℕ
byte v = v % 2 ^ 8

abbrev pub word : ℕ → List ℕ
word v = byte (v / 2 ^ 8) ∷ byte v ∷ []

-- `n` bytes: the first ones, with zeros behind those that are missing.
unfoldable pub padded : ℕ → List ℕ → List ℕ
padded zero bytes = []
padded (suc n) [] = 0 ∷ padded n []
padded (suc n) (b ∷ bytes) = byte b ∷ padded n bytes

-- The entries of the history, one behind another.
unfoldable pub slice_entries : ℕ → ℕ → List ℕ → List Frame
slice_entries entry_size zero bytes = []
slice_entries entry_size (suc n) bytes =
    take entry_size bytes ∷ slice_entries entry_size n (drop entry_size bytes)

-- The entries that a frame holds whole, at most as many as it says.
unfoldable pub break_info : ℕ → Frame → BreakInfo
unfolding slice_entries read_addr
break_info history_entry_size frame =
    let flags = byte_at frame 3 in
    let history_count = byte_at frame 2 in
    let available = (length frame - break_notify_header_size) / history_entry_size in
    record {
      kind = if flags / 2 ^ 6 % 2 == 1 then 0 else if flags % 2 == 1 then 2 else 1;
      slot = byte_at frame 1;
      flags = flags;
      break_count = byte_at frame 4;
      history_count = history_count;
      history_entries =
          slice_entries history_entry_size (min history_count available)
            (drop break_notify_header_size frame);
      addr = read_addr frame 5;
    }

module _ {H : Type 0} (handlers : CpuToIoHandlers H) where
  abbrev pub reply : State H ℕ → State H Frame
  reply handler = handler >>= λ status. return (byte status ∷ [])

  abbrev pub refuse : State H Frame
  refuse = return (ng ∷ [])

  unfoldable pub handle_mode_set : Frame → State H Frame
  handle_mode_set frame =
      let mode = byte_at frame 1 in
      if mode == 0 || mode == 1 then reply (handlers.on_mode_set mode) else refuse

  unfoldable pub handle_hex_key_get : State H Frame
  handle_hex_key_get = do
    (columns, status) ← handlers.get_hex_keys
    return (padded 8 columns ++ (byte status ∷ []))

  unfoldable pub handle_pc_key_get : State H Frame
  handle_pc_key_get = do
    key ← handlers.get_pc_key
    return (byte key.ascii ∷ byte key.key_code ∷ byte key.status ∷ [])

  unfoldable pub handle_led_display : Frame → State H Frame
  handle_led_display frame = reply (
      handlers.on_led_display (record {
        seven_seg = take 12 (drop 2 frame);
        bullet_led0_7 = byte_at frame 0x0e;
        bullet_led8_f = byte_at frame 0x0f;
      }))

  unfoldable pub handle_beep : Frame → State H Frame
  handle_beep frame =
      reply
        (handlers.on_beep (record { frequency_hz = read16 frame 1; duration_ms = read16 frame 3 }))

  unfoldable pub handle_timer_set : Frame → State H Frame
  handle_timer_set frame =
      if byte_at frame 1 == 0
      then reply (
          handlers.on_timer_set
            (record { timer_no = 0; period_ms = read16 frame 2; count = read16 frame 4 }))
      else refuse

  unfoldable pub handle_time_get : State H Frame
  handle_time_get = do
    (timestamp, status) ← handlers.get_time
    return (padded 8 timestamp ++ (byte status ∷ []))

  unfoldable pub handle_rtc_get_raw : State H Frame
  handle_rtc_get_raw = do
    (regs, status) ← handlers.get_rtc_raw
    return (padded 7 regs ++ (byte status ∷ []))

  unfoldable pub handle_temp_get_raw : State H Frame
  handle_temp_get_raw = do
    (raw, status) ← handlers.get_temp_raw
    return (word raw ++ (byte status ∷ []))

  unfoldable pub handle_light_get_raw : State H Frame
  handle_light_get_raw = do
    l ← handlers.get_light_raw
    return (word l.clear ++ (word l.red ++ (word l.green ++ (word l.blue ++ (byte l.status ∷ [])))))

  unfoldable pub handle_distance_get_raw : State H Frame
  handle_distance_get_raw = do
    d ← handlers.get_distance_raw
    return (word d.distance_mm ++ (d.range_status % 2 ^ 5 ∷ byte d.status ∷ []))

  module _ (history_entry_size cpu_type : ℕ) where
    unfoldable pub handle_break_notify : Frame → State H Frame
    unfolding break_info
    handle_break_notify frame =
        if leb addr_break_slot_count (byte_at frame 1)
        then refuse
        else if ltb break_history_max_count (byte_at frame 2)
        then refuse
        else reply (handlers.on_break_notify (break_info history_entry_size frame))

    -- The `switch` of `dispatch`.
    unfoldable pub handle : ℕ → Frame → State H Frame
    handle cmd frame =
        if cmd == Cmd.mode_set
        then handle_mode_set frame
        else if cmd == Cmd.hex_key_get
        then handle_hex_key_get
        else if cmd == Cmd.pc_key_get
        then handle_pc_key_get
        else if cmd == Cmd.led_display
        then handle_led_display frame
        else if cmd == Cmd.beep
        then handle_beep frame
        else if cmd == Cmd.timer_set
        then handle_timer_set frame
        else if cmd == Cmd.time_get
        then handle_time_get
        else if cmd == Cmd.break_notify
        then handle_break_notify frame
        else if cmd == Cmd.lcd_ctrl
        then reply (handlers.on_lcd_control frame)
        else if cmd == Cmd.lcd_text
        then reply (handlers.on_lcd_text frame)
        else if cmd == Cmd.step_notify
        then reply (handlers.on_step_notify (decode_cpu_state_notify_info cpu_type frame))
        else if cmd == Cmd.undef_notify
        then reply (handlers.on_undef_notify (decode_cpu_state_notify_info cpu_type frame))
        else if cmd == Cmd.rtc_get_raw
        then handle_rtc_get_raw
        else if cmd == Cmd.temp_get_raw
        then handle_temp_get_raw
        else if cmd == Cmd.light_get_raw
        then handle_light_get_raw
        else if cmd == Cmd.distance_get_raw
        then handle_distance_get_raw
        else refuse

    unfoldable pub dispatch : Frame → State H Frame
    dispatch [] = refuse
    dispatch (cmd ∷ rest) =
        if ltb (length (cmd ∷ rest)) (cpu_frame_size_for_cpu cmd cpu_type)
        then refuse
        else handle cmd (cmd ∷ rest)
