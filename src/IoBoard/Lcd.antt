-- ===== src/IoBoard/Lcd.antt =====
-- The LCD of the IO board: retrocpu_emu_ts/src/ioboard/lcd_console/lcd_console.ts. The display RAM
-- is a function from its 32 indices, and a text is the list of its character codes.
use retro_cpu_emu.Shared.{
  ℕ, zero, suc, ◌+◌, ◌-◌, ◌*◌, ◌/◌, ◌%◌, ◌^◌, min, Bool, true, false, not, ◌&&◌, ◌||◌, List, [],
  ◌∷◌, length, drop, get_elem?, ltb, ◌==◌, if◌then◌else◌,
}
use retro_cpu_emu.Shared.State.{State}
use retro_cpu_emu.Machine.{store}
use retro_cpu_emu.Handshake.Command.{Frame, or_zero}

abbrev pub lcd_cols : ℕ
lcd_cols = 16

-- SPACE
abbrev pub space : ℕ
space = 0x20

-- LCD_RESPONSE
abbrev pub lcd_ok : ℕ
lcd_ok = 0x00

abbrev pub lcd_ng : ℕ
lcd_ng = 0x01

pub record LcdConsoleEmulator : Type 0 where
  pub ddram : ℕ → ℕ
  pub cursor_row : ℕ
  pub cursor_col : ℕ
  pub display_on : Bool
  pub cursor_on : Bool
  pub blink_on : Bool

abbrev pub Lcd : Type 0
Lcd = LcdConsoleEmulator

unfoldable pub reset : Lcd
reset = record {
  ddram = λ i. space;
  cursor_row = 0;
  cursor_col = 0;
  display_on = true;
  cursor_on = false;
  blink_on = false;
}

unfoldable pub clear : Lcd → Lcd
clear lcd = record lcd { ddram = λ i. space; cursor_row = 0; cursor_col = 0 }

unfoldable pub home : Lcd → Lcd
home lcd = record lcd { cursor_row = 0; cursor_col = 0 }

unfoldable pub set_display_control : ℕ → Lcd → Lcd
set_display_control bits lcd = record lcd {
  display_on = bits % 2 == 1;
  cursor_on = bits / 2 % 2 == 1;
  blink_on = bits / 2 ^ 2 % 2 == 1;
}

abbrev pub is_valid_row : ℕ → Bool
is_valid_row row = row == 0 || row == 1

abbrev pub is_valid_col : ℕ → Bool
is_valid_col col = ltb col lcd_cols

unfoldable pub set_cursor : ℕ → ℕ → Lcd → Bool × Lcd
set_cursor row col lcd =
    if is_valid_row row && is_valid_col col
    then (true, record lcd { cursor_row = row; cursor_col = col })
    else (false, lcd)

abbrev pub index_of : ℕ → ℕ → ℕ
index_of row col = row * lcd_cols + col

unfoldable pub normalize_ascii : ℕ → ℕ
normalize_ascii code = let v = code % 2 ^ 8 in if ltb v 0x20 || ltb 0x7e v then space else v

-- The loop of a text: `n` cells from an index on; a code that is not there is a space.
unfoldable pub write_cells : ℕ → ℕ → List ℕ → (ℕ → ℕ) → ℕ → ℕ
write_cells zero index codes ram = ram
write_cells (suc n) index [] ram =
    write_cells n (index + 1) [] (store ram index (normalize_ascii space))
write_cells (suc n) index (code ∷ codes) ram =
    write_cells n (index + 1) codes (store ram index (normalize_ascii code))

-- `n` cells from a column on, and the cursor behind them.
unfoldable pub show_cells : ℕ → ℕ → ℕ → List ℕ → Lcd → Lcd
show_cells row col n codes lcd = record lcd {
  ddram = write_cells n (index_of row col) codes lcd.ddram;
  cursor_row = row;
  cursor_col = min (col + n) (lcd_cols - 1);
}

unfoldable pub write_text : ℕ → ℕ → List ℕ → Lcd → Bool × Lcd
unfolding show_cells
write_text row col text lcd =
    if is_valid_row row && is_valid_col col
    then (true, show_cells row col (min (length text) (lcd_cols - col)) text lcd)
    else (false, lcd)

abbrev pub status : Bool × Lcd → ℕ × Lcd
status (true, lcd) = (lcd_ok, lcd)
status (false, lcd) = (lcd_ng, lcd)

-- `frame[i] ?? 0`
abbrev pub field : Frame → ℕ → ℕ
field frame i = or_zero (get_elem? frame i)

unfoldable pub handle_control_frame : Frame → State Lcd ℕ
unfolding clear home set_display_control set_cursor
handle_control_frame frame lcd =
    let kind = field frame 2 in
    if ltb (length frame) 6
    then (lcd_ng, lcd)
    else if kind == 0
    then (lcd_ok, clear lcd)
    else if kind == 1
    then (lcd_ok, home lcd)
    else if kind == 2
    then (lcd_ok, set_display_control (field frame 3) lcd)
    else if kind == 3
    then status (set_cursor (field frame 4) (field frame 5) lcd)
    else (lcd_ng, lcd)

unfoldable pub handle_text_frame : Frame → State Lcd ℕ
unfolding show_cells
handle_text_frame frame lcd =
    let row = field frame 1 in
    let col = field frame 2 in
    let len = field frame 3 in
    if ltb (length frame) 4
    then (lcd_ng, lcd)
    else if not (is_valid_row row && is_valid_col col)
    then (lcd_ng, lcd)
    else if ltb 16 len
    then (lcd_ng, lcd)
    else (lcd_ok, show_cells row col (min len (lcd_cols - col)) (drop 4 frame) lcd)

-- `readLine` from a column on.
unfoldable pub read_line : ℕ → ℕ → ℕ → Lcd → List ℕ
read_line row col zero lcd = []
read_line row col (suc n) lcd =
    normalize_ascii (lcd.ddram (index_of row col)) ∷ read_line row (col + 1) n lcd

pub record LcdConsoleWire : Type 0 where
  pub lines : List ℕ × List ℕ
  pub state : Lcd

unfoldable pub snapshot : Lcd → LcdConsoleWire
unfolding read_line
snapshot lcd = record {
  lines = (read_line 0 0 lcd_cols lcd, read_line 1 0 lcd_cols lcd);
  state = lcd;
}
