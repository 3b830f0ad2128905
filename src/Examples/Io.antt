-- ===== src/Examples/Io.antt =====
-- The IO board at concrete inputs.
use retro_cpu_emu.Shared.{some, ℕ, ◌+◌, ◌*◌, ◌≡◌, arith, true, false, List, [], ◌∷◌}
use retro_cpu_emu.IoBoard.Timer
use retro_cpu_emu.IoBoard.Timer.{apply}
use retro_cpu_emu.IoBoard.Expirations.{fires, fires-apply}
use retro_cpu_emu.IoBoard.Clock
use retro_cpu_emu.IoBoard.Clock.{read_timestamp, stop}
use retro_cpu_emu.IoBoard.Dma
use retro_cpu_emu.IoBoard.Dma.{Poll, create_dma_bus, write_bytes}
use retro_cpu_emu.IoBoard.Sessions.{Closed, write_bytes-Closed}
use retro_cpu_emu.Handshake.Cmd
use retro_cpu_emu.IoBoard.Lcd
use retro_cpu_emu.IoBoard.Lcd.{handle_text_frame, normalize_ascii}
use retro_cpu_emu.IoBoard.Screen.{handle_text_frame-shown}
use retro_cpu_emu.IoBoard.Visible.{IsValid, LcdFrame, control, text, handled, handled-IsValid}
use retro_cpu_emu.IoBoard.Settings
use retro_cpu_emu.IoBoard.Settings.{
  Raw, filled, initialize_setting_area, decode_setting_area, encode_setting_area,
}
use retro_cpu_emu.IoBoard.Stored.{
  Settled, decode-encode_setting_area, initialize_setting_area-Settled,
}
use retro_cpu_emu.IoBoard.Timestamp.{from_bytes, read_timestamp-reset}

fires-apply_example : (fires 5 (apply 20 3 (Timer.new 1))).0 ≡ 3
fires-apply_example = fires-apply 5 20 3 (Timer.new 1) (omega arith)

read_timestamp-reset_example :
    (from_bytes 0 (read_timestamp 5123456789 (Clock.reset 1000)) ≡ 512345)
    × (read_timestamp 9999999999 (stop 5123456789 (Clock.reset 1000))
        ≡ read_timestamp 5123456789 (Clock.reset 1000))
read_timestamp-reset_example = read_timestamp-reset 1000 5123456789 9999999999

abbrev a_dma : Dma.Dma
a_dma = record {
  bus = create_dma_bus;
  busy = false;
  hlt = false;
  memory = λ a. 0;
  byte_length = 0x20000;
  wave = [];
}

-- RUN is high at two polls and late at the second.
abbrev a_late_wait : List Poll
a_late_wait = record { running = true; late = false } ∷ record { running = true; late = true } ∷ []

write_bytes-Closed_example :
    Closed (write_bytes a_late_wait true 0x200 (1 ∷ 2 ∷ []) a_dma).0
    × ((write_bytes a_late_wait true 0x200 (1 ∷ 2 ∷ []) a_dma).1 ≡ false
        → (write_bytes a_late_wait true 0x200 (1 ∷ 2 ∷ []) a_dma).0.memory ≡ a_dma.memory)
write_bytes-Closed_example = write_bytes-Closed a_late_wait true 0x200 (1 ∷ 2 ∷ []) a_dma

-- HI at the last two places of the first row, and one letter too many.
abbrev hi_there : List ℕ
hi_there = 0x48 ∷ 0x49 ∷ 0x21 ∷ []

handle_text_frame-shown_example :
    (handle_text_frame (Cmd.lcd_text ∷ 0 ∷ 14 ∷ 3 ∷ hi_there) Lcd.reset).1.ddram (0 * 16 + 15)
    ≡ normalize_ascii 0x49
handle_text_frame-shown_example =
    handle_text_frame-shown 0 14 3 hi_there Lcd.reset 0 15 (omega arith) (omega arith) (omega arith)
      (omega arith) (omega arith)

abbrev some_frames : List LcdFrame
some_frames =
    control (Cmd.lcd_ctrl ∷ 0 ∷ 3 ∷ 0 ∷ 1 ∷ 99 ∷ [])
    ∷ text (Cmd.lcd_text ∷ 1 ∷ 10 ∷ 16 ∷ hi_there)
    ∷ []

handled-IsValid_example : IsValid (handled some_frames Lcd.reset)
handled-IsValid_example = handled-IsValid some_frames

-- A marked area of a TMS9995 whose reset flag is set.
abbrev a_marked_area : Raw
unfolding filled
a_marked_area = filled Settings.setting_area_size (0xaa ∷ 0x55 ∷ 1 ∷ 2 ∷ 1 ∷ [])

initialize_setting_area-Settled_example : Settled (initialize_setting_area (some a_marked_area))
initialize_setting_area-Settled_example = initialize_setting_area-Settled (some a_marked_area)

abbrev some_settings : Settings.IoBoardSettings
some_settings = record {
  clock_div = 3;
  cpu_type = 4;
  cpu_type_reset = 1;
  addr_step = 2;
  reset_vector = 0x12345678;
  seven_seg_addr_digits = 6;
  seven_seg_data_digits = 4;
  emulate_port = 0x1234;
  step_delay = 255;
}

decode-encode_setting_area_example :
    decode_setting_area (encode_setting_area some_settings) ≡ some_settings
decode-encode_setting_area_example = decode-encode_setting_area some_settings record {
  clock_div = omega arith;
  cpu_type = omega arith;
  cpu_type_reset = omega arith;
  addr_step = omega arith;
  reset_vector = omega arith;
  seven_seg_addr_digits = omega arith;
  seven_seg_data_digits = omega arith;
  emulate_port = omega arith;
  step_delay = omega arith;
}
