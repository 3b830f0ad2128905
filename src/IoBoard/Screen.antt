-- ===== src/IoBoard/Screen.antt =====
-- What stands on the LCD: lcd_console.ts.
use retro_cpu_emu.Shared.{
  ℕ, zero, suc, ◌+◌, ◌-◌, ◌*◌, ◌≡◌, ◌≤◌, ◌<◌, ap, min, true, false, ◌&&◌, List, [], ◌∷◌, Option,
  none, some, length, get_elem?, ltb, leb, ◌==◌, if◌then◌else◌, arith, Bool-cases, inl, inr,
}
use retro_cpu_emu.Machine.{store}
use retro_cpu_emu.Handshake.Cmd
use retro_cpu_emu.IoBoard.Lcd.{
  Lcd, space, normalize_ascii, write_cells, show_cells, is_valid_row, is_valid_col,
  handle_text_frame,
}

abbrev pub or_space : Option ℕ → ℕ
or_space none = space
or_space (some code) = code

behind :
    (code : ℕ) (codes : List ℕ) (index j : ℕ)
    → index < j
    → get_elem? (code ∷ codes) (j - index) ≡ get_elem? codes (j - (index + 1))
behind code codes index j h =
    let e : j - index ≡ suc (j - (index + 1)) = omega arith in ap (get_elem? (code ∷ codes)) e

at_first :
    (code : ℕ) (codes : List ℕ) (index j : ℕ)
    → index ≡ j
    → get_elem? (code ∷ codes) (j - index) ≡ some code
at_first code codes index j h =
    let e : j - index ≡ 0 = omega arith in ap (get_elem? (code ∷ codes)) e

-- A run of cells after the loop.
pub write_cells_lem :
    (n index : ℕ) (codes : List ℕ) (ram : ℕ → ℕ) (j : ℕ)
    → write_cells n index codes ram j ≡ (
        if leb index j && ltb j (index + n)
        then normalize_ascii (or_space (get_elem? codes (j - index)))
        else ram j)
unfolding write_cells
write_cells_lem zero index codes ram j = ground arith
write_cells_lem (suc n) index [] ram j =
    ground (arith, write_cells_lem n (index + 1) [] (store ram index (normalize_ascii space)) j)
write_cells_lem (suc n) index (code ∷ codes) ram j = ground (
  arith,
  write_cells_lem n (index + 1) codes (store ram index (normalize_ascii code)) j,
  behind code codes index j,
  at_first code codes index j,
)

-- The cells of a text, as indices and as places.
region :
    (row col len r c : ℕ)
    → row < 2
    → col < 16
    → r < 2
    → c < 16
    → (leb (row * 16 + col) (r * 16 + c) && ltb (r * 16 + c) (row * 16 + col + min len (16 - col)))
      ≡ (r == row && leb col c && ltb c (col + len))
region row col len r c hr hc h k = ground arith

offset :
    (row col len r c : ℕ)
    → (r == row && leb col c && ltb c (col + len)) ≡ true
    → r * 16 + c - (row * 16 + col) ≡ c - col
offset row col len r c h = ground arith

-- A text of at most 16 characters for a place on the display shows on its row from its column to the
-- end of the row, an invisible or a missing code as a space, and leaves every other cell.
pub handle_text_frame-shown :
    (row col len : ℕ) (codes : List ℕ) (lcd : Lcd) (r c : ℕ)
    → row < 2
    → col < 16
    → len ≤ 16
    → r < 2
    → c < 16
    → (handle_text_frame (Cmd.lcd_text ∷ row ∷ col ∷ len ∷ codes) lcd).1.ddram (r * 16 + c) ≡ (
        if r == row && leb col c && ltb c (col + len)
        then normalize_ascii (or_space (get_elem? codes (c - col)))
        else lcd.ddram (r * 16 + c))
unfolding handle_text_frame show_cells
handle_text_frame-shown row col len codes lcd r c hr hc hl h k =
    let t₀ : ltb (length (Cmd.lcd_text ∷ row ∷ col ∷ len ∷ codes)) 4 ≡ false = ground arith in
    let t₁ : (is_valid_row row && is_valid_col col) ≡ true = ground arith in
    let t₂ : ltb 16 len ≡ false = ground arith in
    rw
      (
        t₀,
        t₁,
        t₂,
        write_cells_lem (min len (16 - col)) (row * 16 + col) codes lcd.ddram (r * 16 + c),
        region row col len r c hr hc h k,
      )
      (elim (Bool-cases (r == row && leb col c && ltb c (col + len))) [
        | inl e ↦ rw (e, offset row col len r c e)
        | inr e ↦ rw e
      ])
