-- ===== src/Handshake/Cmd.antt =====
-- The numbers of the commands from the CPU to the IO board: CMD_CPU_TO_IO of handshake_type.ts.
use retro_cpu_emu.Shared.{ℕ}

abbrev pub mode_set : ℕ
mode_set = 0x10

abbrev pub time_get : ℕ
time_get = 0x11

abbrev pub timer_set : ℕ
timer_set = 0x12

abbrev pub undef_notify : ℕ
undef_notify = 0x13

abbrev pub hex_key_get : ℕ
hex_key_get = 0x14

abbrev pub pc_key_get : ℕ
pc_key_get = 0x15

abbrev pub led_display : ℕ
led_display = 0x16

abbrev pub lcd_ctrl : ℕ
lcd_ctrl = 0x17

abbrev pub lcd_text : ℕ
lcd_text = 0x18

abbrev pub beep : ℕ
beep = 0x19

abbrev pub break_notify : ℕ
break_notify = 0x1a

abbrev pub step_notify : ℕ
step_notify = 0x1b

abbrev pub rtc_get_raw : ℕ
rtc_get_raw = 0x1c

abbrev pub temp_get_raw : ℕ
temp_get_raw = 0x1d

abbrev pub light_get_raw : ℕ
light_get_raw = 0x1e

abbrev pub distance_get_raw : ℕ
distance_get_raw = 0x1f
