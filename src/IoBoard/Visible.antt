-- ===== src/IoBoard/Visible.antt =====
-- The LCD stays well formed: lcd_console.ts.
use retro_cpu_emu.Shared.{
  ℕ, ◌-◌, ◌≡◌, ◌≤◌, ◌<◌, min, true, ◌&&◌, List, [], ◌∷◌, length, drop, get_elem?, ltb, ◌==◌, arith,
  Bool-cases, inl, inr,
}
use retro_cpu_emu.Handshake.Command.{Frame}
use retro_cpu_emu.IoBoard.Lcd
use retro_cpu_emu.IoBoard.Lcd.{
  Lcd, space, lcd_ok, index_of, normalize_ascii, write_cells, show_cells, field, lcd_ng, status,
  is_valid_row, is_valid_col, handle_control_frame, handle_text_frame, clear, home,
  set_display_control, set_cursor,
}
use retro_cpu_emu.IoBoard.Screen.{or_space, write_cells_lem}

-- The cursor is on the display and every cell holds a visible code.
pub record IsValid (lcd : Lcd) : Type 0 where
  pub row : lcd.cursor_row < 2
  pub col : lcd.cursor_col < 16
  pub low : (i : ℕ) → 0x20 ≤ lcd.ddram i
  pub high : (i : ℕ) → lcd.ddram i ≤ 0x7e

normalize_bounds : (k : ℕ) → (0x20 ≤ normalize_ascii k) × (normalize_ascii k ≤ 0x7e)
unfolding normalize_ascii
normalize_bounds k = ground arith

cells_bounds :
    (n index : ℕ) (codes : List ℕ) (ram : ℕ → ℕ)
    → ((i : ℕ) → (0x20 ≤ ram i) × (ram i ≤ 0x7e))
    → (i : ℕ) → (0x20 ≤ write_cells n index codes ram i) × (write_cells n index codes ram i ≤ 0x7e)
cells_bounds n index codes ram h i = ground (
  arith,
  write_cells_lem n index codes ram i,
  normalize_bounds (or_space (get_elem? codes (i - index))),
  h i,
)

show_cells-IsValid :
    (row col n : ℕ) (codes : List ℕ) (lcd : Lcd)
    → row < 2
    → IsValid lcd
    → IsValid (show_cells row col n codes lcd)
unfolding show_cells
show_cells-IsValid row col n codes lcd h v =
    let cells = cells_bounds n (index_of row col) codes lcd.ddram (λ i. (v.low i, v.high i)) in
    record { row = h; col = omega arith; low = λ i. (cells i).0; high = λ i. (cells i).1 }

-- A frame of a command of the LCD.
pub data LcdFrame : Type 0 where
  control : Frame → LcdFrame
  text : Frame → LcdFrame

abbrev pub handle : LcdFrame → Lcd → Lcd
handle (control frame) lcd = (handle_control_frame frame lcd).1
handle (text frame) lcd = (handle_text_frame frame lcd).1

abbrev pub handled : List LcdFrame → Lcd → Lcd
handled [] lcd = lcd
handled (f ∷ frames) lcd = handled frames (handle f lcd)

valid_row : (row col : ℕ) → (is_valid_row row && is_valid_col col) ≡ true → (row < 2) × (col < 16)
valid_row row col h = ground arith

set_cursor-IsValid :
    (row col : ℕ) (lcd : Lcd) → IsValid lcd → IsValid (status (set_cursor row col lcd)).1
unfolding set_cursor
set_cursor-IsValid row col lcd v = elim (Bool-cases (is_valid_row row && is_valid_col col)) [
  | inl e ↦
      let fits = valid_row row col e in
      rw e (record { row = fits.0; col = fits.1; low = v.low; high = v.high })
  | inr e ↦ rw e v
]

home-IsValid : (lcd : Lcd) → IsValid lcd → IsValid (home lcd)
unfolding home
home-IsValid lcd v = record { row = omega arith; col = omega arith; low = v.low; high = v.high }

clear-IsValid : (lcd : Lcd) → IsValid (clear lcd)
unfolding clear
clear-IsValid lcd = record {
  row = omega arith;
  col = omega arith;
  low = λ i. omega arith;
  high = λ i. omega arith;
}

control-IsValid :
    (frame : Frame) (lcd : Lcd) → IsValid lcd → IsValid (handle_control_frame frame lcd).1
unfolding handle_control_frame
control-IsValid frame lcd v = elim (Bool-cases (ltb (length frame) 6)) [
  | inl e ↦ rw e v
  | inr e₀ ↦ elim (Bool-cases (field frame 2 == 0)) [
    | inl e ↦ rw (e₀, e) (clear-IsValid lcd)
    | inr e₁ ↦ elim (Bool-cases (field frame 2 == 1)) [
      | inl e ↦ rw (e₀, e₁, e) (home-IsValid lcd v)
      | inr e₂ ↦ elim (Bool-cases (field frame 2 == 2)) [
        | inl e ↦
            rw (e₀, e₁, e₂, e) (record { row = v.row; col = v.col; low = v.low; high = v.high })
        | inr e₃ ↦ elim (Bool-cases (field frame 2 == 3)) [
          | inl e ↦
              rw (e₀, e₁, e₂, e₃, e) (set_cursor-IsValid (field frame 4) (field frame 5) lcd v)
          | inr e ↦ rw (e₀, e₁, e₂, e₃, e) v
        ]
      ]
    ]
  ]
]

text-IsValid : (frame : Frame) (lcd : Lcd) → IsValid lcd → IsValid (handle_text_frame frame lcd).1
unfolding handle_text_frame
text-IsValid frame lcd v = elim (Bool-cases (ltb (length frame) 4)) [
  | inl e ↦ rw e v
  | inr e₀ ↦ elim (Bool-cases (is_valid_row (field frame 1) && is_valid_col (field frame 2))) [
    | inr e ↦ rw (e₀, e) v
    | inl e₁ ↦ elim (Bool-cases (ltb 16 (field frame 3))) [
      | inl e ↦ rw (e₀, e₁, e) v
      | inr e ↦
          rw (e₀, e₁, e)
            (show_cells-IsValid (field frame 1) (field frame 2)
              (min (field frame 3) (16 - field frame 2)) (drop 4 frame) lcd
              (valid_row (field frame 1) (field frame 2) e₁).0 v)
    ]
  ]
]

reset-IsValid : IsValid Lcd.reset
unfolding Lcd.reset
reset-IsValid = record {
  row = omega arith;
  col = omega arith;
  low = λ i. omega arith;
  high = λ i. omega arith;
}

after-IsValid : (frames : List LcdFrame) (lcd : Lcd) → IsValid lcd → IsValid (handled frames lcd)
after-IsValid [] lcd v = v
after-IsValid (control frame ∷ frames) lcd v = after-IsValid frames _ (control-IsValid frame lcd v)
after-IsValid (text frame ∷ frames) lcd v = after-IsValid frames _ (text-IsValid frame lcd v)

-- Whatever frames come after a reset, the cursor stays on the two rows of 16 columns, and every cell
-- holds a code from 20 to 7E.
pub handled-IsValid : (frames : List LcdFrame) → IsValid (handled frames Lcd.reset)
handled-IsValid frames = after-IsValid frames Lcd.reset reset-IsValid
