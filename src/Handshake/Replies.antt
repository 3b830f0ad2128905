-- ===== src/Handshake/Replies.antt =====
-- The replies of the dispatcher of command_cpu_to_io.ts.
use retro_cpu_emu.Shared.{
  ℕ, zero, suc, ◌+◌, ◌≡◌, refl, Bool, true, false, ◌||◌, List, [], ◌∷◌, ◌++◌, length, ltb, ◌==◌,
  if◌then◌else◌, arith,
}
use retro_cpu_emu.Handshake.Cmd
use retro_cpu_emu.Handshake.Command.{Frame, ng, cpu_frame_size_for_cpu}
use retro_cpu_emu.Handshake.Dispatcher.{
  CpuToIoHandlers, padded, handle_mode_set, handle_hex_key_get, handle_pc_key_get,
  handle_led_display, handle_beep, handle_timer_set, handle_time_get, handle_rtc_get_raw,
  handle_temp_get_raw, handle_light_get_raw, handle_distance_get_raw, handle_break_notify, handle,
  dispatch,
}

length-padded : (n : ℕ) (tail bytes : List ℕ) → length (padded n bytes ++ tail) ≡ n + length tail
unfolding padded
length-padded zero tail bytes = omega arith
length-padded (suc n) tail [] = omega (arith, length-padded n tail [])
length-padded (suc n) tail (b ∷ bytes) = omega (arith, length-padded n tail bytes)

-- The bytes of a reply, the status included, as .cursor/rules/HandShake.mdc lays them out: 11h, 14h
-- and 1Eh have 8 bytes before the status, 1Ch has 7 registers and a pad, 1Fh a distance, a range
-- status and a pad, 15h and 1Dh 2 bytes, and the others the status alone.
abbrev pub documented_size : ℕ → ℕ
documented_size cmd =
    if cmd == 0x11 || cmd == 0x14 || cmd == 0x1c || cmd == 0x1e
    then 9
    else if cmd == 0x1f
    then 5
    else if cmd == 0x15 || cmd == 0x1d
    then 3
    else 1

-- The pads of that layout that the code leaves out.
abbrev pub missing_pad : ℕ → ℕ
missing_pad cmd = if cmd == 0x1c || cmd == 0x1f then 1 else 0

-- The frames that the dispatcher refuses before any handler.
abbrev pub refused : ℕ → Frame → Bool
refused cpu_type [] = true
refused cpu_type (cmd ∷ rest) =
    ltb (length (cmd ∷ rest)) (cpu_frame_size_for_cpu cmd cpu_type)
    || ltb cmd Cmd.mode_set
    || ltb Cmd.distance_get_raw cmd

module _ {H : Type 0} (handlers : CpuToIoHandlers H) (entry_size cpu_type : ℕ) where
  -- The replies of more than one byte, or with a test before the handler.
  long_replies :
      (h : H)
      → (length (handle_hex_key_get handlers h).0 ≡ 9)
        × (length (handle_time_get handlers h).0 ≡ 9)
        × (length (handle_rtc_get_raw handlers h).0 ≡ 8)
  unfolding handle_hex_key_get handle_time_get handle_rtc_get_raw
  long_replies h = (
    length-padded 8 _ (handlers.get_hex_keys h).0.0,
    length-padded 8 _ (handlers.get_time h).0.0,
    length-padded 7 _ (handlers.get_rtc_raw h).0.0,
  )

  short_replies :
      (frame : Frame) (h : H)
      → (length (handle_mode_set handlers frame h).0 ≡ 1)
        × (length (handle_timer_set handlers frame h).0 ≡ 1)
        × (length (handle_break_notify handlers entry_size cpu_type frame h).0 ≡ 1)
  unfolding handle_mode_set handle_timer_set handle_break_notify
  short_replies frame h = ground arith

  plain_replies :
      (frame : Frame) (h : H)
      → (length (handle_led_display handlers frame h).0 ≡ 1)
        × (length (handle_beep handlers frame h).0 ≡ 1)
        × (length (handle_pc_key_get handlers h).0 ≡ 3)
        × (length (handle_temp_get_raw handlers h).0 ≡ 3)
        × (length (handle_light_get_raw handlers h).0 ≡ 9)
        × (length (handle_distance_get_raw handlers h).0 ≡ 4)
  unfolding handle_led_display handle_beep handle_pc_key_get handle_temp_get_raw
      handle_light_get_raw handle_distance_get_raw
  plain_replies frame h = (refl, refl, refl, refl, refl, refl)

  handle-length :
      (cmd : ℕ) (frame : Frame) (h : H)
      → length (handle handlers entry_size cpu_type cmd frame h).0 + missing_pad cmd
        ≡ documented_size cmd
  unfolding handle
  handle-length cmd frame h =
      ground (arith, long_replies h, short_replies frame h, plain_replies frame h)

  -- An empty frame, one that is shorter than its command, and one whose command is none of the 16 are
  -- answered by NG, and no handler is called.
  pub dispatch-refused :
      (frame : Frame) (h : H)
      → refused cpu_type frame ≡ true
      → dispatch handlers entry_size cpu_type frame h ≡ (ng ∷ [], h)
  unfolding dispatch handle
  dispatch-refused [] h e = refl
  dispatch-refused (cmd ∷ rest) h e = ground arith

  -- The reply to a frame that is not refused has the length that HandShake.mdc lays out for its
  -- command, whatever the handlers give, but for 1Ch and 1Fh: there it is one byte shorter, for the
  -- pad before the status is left out.
  pub dispatch-length :
      (cmd : ℕ) (rest : List ℕ) (h : H)
      → refused cpu_type (cmd ∷ rest) ≡ false
      → length (dispatch handlers entry_size cpu_type (cmd ∷ rest) h).0 + missing_pad cmd
        ≡ documented_size cmd
  unfolding dispatch
  dispatch-length cmd rest h e = ground (arith, handle-length cmd (cmd ∷ rest) h)
