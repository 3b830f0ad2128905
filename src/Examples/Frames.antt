-- ===== src/Examples/Frames.antt =====
-- The commands of the handshake at concrete inputs.
use retro_cpu_emu.Shared.{ℕ, ◌+◌, ◌≡◌, refl, arith, true, inl, List, [], ◌∷◌, ◌++◌, length, some}
use retro_cpu_emu.Shared.Int.{pos}
use retro_cpu_emu.Shared.State.{State}
use retro_cpu_emu.Handshake.Cmd
use retro_cpu_emu.Handshake.Command.{Frame, cpu_frame_size_for_cpu}
use retro_cpu_emu.Handshake.Notify.{CpuStateNotifyInfo, decode_cpu_state_notify_info}
use retro_cpu_emu.Handshake.Dispatcher.{CpuToIoHandlers, break_info, reply, dispatch}
use retro_cpu_emu.Handshake.Wire.{receive_framed_adaptive}
use retro_cpu_emu.Handshake.Transfers.{units_of}
use retro_cpu_emu.Handshake.Frames.{remaining, frame-received}
use retro_cpu_emu.Handshake.Breaks.{break_frame, dispatch-break_frame}
use retro_cpu_emu.Handshake.Layout.{mn1613_frame, decode-mn1613_frame}
use retro_cpu_emu.Handshake.Replies.{missing_pad, dispatch-refused, dispatch-length}

abbrev ok : State ℕ ℕ
ok n = (0, n + 1)

-- A board that counts the calls.
abbrev counting : CpuToIoHandlers ℕ
counting = record {
  on_mode_set = λ m. ok;
  get_hex_keys = λ n. ((1 ∷ 2 ∷ [], 0), n + 1);
  get_pc_key = λ n. (record { ascii = 0x41; key_code = 0x41; status = 0 }, n + 1);
  on_led_display = λ d. ok;
  on_beep = λ p. ok;
  on_timer_set = λ p. ok;
  get_time = λ n. ((0 ∷ [], 0), n + 1);
  on_break_notify = λ i. ok;
  on_step_notify = λ i. ok;
  on_undef_notify = λ i. ok;
  on_lcd_control = λ f. ok;
  on_lcd_text = λ f. ok;
  get_rtc_raw = λ n. ((0x30 ∷ [], 0), n + 1);
  get_temp_raw = λ n. ((0xc19, 0), n + 1);
  get_light_raw = λ n. (record { clear = 1; red = 2; green = 3; blue = 4; status = 0 }, n + 1);
  get_distance_raw = λ n. (record { distance_mm = 300; range_status = 9; status = 0 }, n + 1);
}

-- A timer's command of 6 bytes.
abbrev timer_rest : List ℕ
timer_rest = 0 ∷ 0 ∷ 100 ∷ 0 ∷ 3 ∷ []

frame-received_example :
    receive_framed_adaptive
      (remaining 66 1)
      (record { units = units_of 9 (Cmd.timer_set ∷ timer_rest) ++ []; released = true })
    ≡ some (Cmd.timer_set ∷ timer_rest)
unfolding cpu_frame_size_for_cpu
frame-received_example =
    frame-received 66 1 Cmd.timer_set timer_rest 9 [] true (omega arith) (inl (omega arith, refl))

abbrev two_entries : List Frame
two_entries = (1 ∷ 2 ∷ []) ∷ (3 ∷ 4 ∷ []) ∷ []

dispatch-break_frame_example :
    dispatch counting 2 1 (break_frame 1 0x42 0 0 0 1 0 0 0 two_entries) 5
    ≡ reply counting
        (counting.on_break_notify (record (break_info 2 (break_frame 1 0x42 0 0 0 1 0 0 0 [])) {
          history_count = 2;
          history_entries = two_entries;
        }))
        5
dispatch-break_frame_example =
    dispatch-break_frame 2 1 1 0x42 0 0 0 1 0 0 0 two_entries (omega arith) (omega arith)
      (refl, (refl, tt)) counting 5 (omega arith)

abbrev an_info : CpuStateNotifyInfo
an_info = record {
  addr = pos 0x12345;
  r0 = 1;
  r1 = 2;
  r2 = 0xffff;
  r3 = 4;
  r4 = 5;
  r5to15 = [];
  sp = 0x1000;
  str = 0x8000;
  ic = 0x2345;
  csbr_ssbr = 0x0102;
  tsr = 0;
  npp = 0x80;
  stack = 1 ∷ 2 ∷ 3 ∷ 4 ∷ 5 ∷ 6 ∷ 7 ∷ 8 ∷ 9 ∷ 10 ∷ 11 ∷ 12 ∷ 13 ∷ 14 ∷ 15 ∷ 16 ∷ [];
}

decode-mn1613_frame_example :
    decode_cpu_state_notify_info 1 (mn1613_frame Cmd.step_notify 0x12345 an_info) ≡ an_info
decode-mn1613_frame_example =
    decode-mn1613_frame Cmd.step_notify 0x12345 an_info (omega arith) refl (record {
      words = omega arith;
      npp = omega arith;
      no_r5 = refl;
      stack = omega arith;
      sixteen = refl;
    })

dispatch-refused_example : dispatch counting 66 1 (Cmd.beep ∷ 1 ∷ []) 5 ≡ (1 ∷ [], 5)
unfolding cpu_frame_size_for_cpu
dispatch-refused_example = dispatch-refused counting 66 1 (Cmd.beep ∷ 1 ∷ []) 5 refl

dispatch-length_example :
    length (dispatch counting 66 1 (Cmd.distance_get_raw ∷ []) 5).0
      + missing_pad Cmd.distance_get_raw
    ≡ 5
unfolding cpu_frame_size_for_cpu
dispatch-length_example = dispatch-length counting 66 1 Cmd.distance_get_raw [] 5 refl
