-- ===== src/VgaBuffer/Bounds.antt =====
-- vga_buffer.rs: the cursor and the writes stay within the screen.
use vlad_os.Base.{
  ltb, leb, ◌==◌, Bool-cases, ℕ, zero, suc, ◌+◌, ◌-◌, ◌*◌, ◌≤◌, ◌<◌, ◌≡◌, refl, ◌∙◌, inl, inr, List,
  [], ◌∷◌, arith,
}
use vlad_os.VgaBuffer.{
  buffer_height, buffer_width, Writer, read_cell, write_cell, clear_row, scroll_up, new_line,
  write_byte, write_string, move_cells, move_rows, clear_cells, put_byte, shown,
}

abbrev screen_size : ℕ
screen_size = buffer_height * buffer_width * 2

-- What lies behind the screen is as before.
abbrev pub Untouched : Writer → Writer → Type 0
Untouched w w' = (o : ℕ) → screen_size ≤ o → w'.memory o ≡ w.memory o

-- The cursor is in a row of the screen, at most behind its last column.
abbrev pub InScreen : Writer → Type 0
InScreen w = (w.row_position < buffer_height) × (w.column_position ≤ buffer_width)

abbrev SameCursor : Writer → Writer → Type 0
SameCursor w w' = (w'.row_position ≡ w.row_position) × (w'.column_position ≡ w.column_position)

-- A change of cells of the screen.
abbrev Draws : Writer → Writer → Type 0
Draws w w' = SameCursor w w' × Untouched w w'

Draws-trans : (w v u : Writer) → Draws w v → Draws v u → Draws w u
Draws-trans w v u ((r, c), a) ((r', c'), b) = ((r' ∙ r, c' ∙ c), λ o h. b o h ∙ a o h)

write_cell-Draws :
    (row col byte : ℕ) (w : Writer)
    → row < buffer_height
    → col < buffer_width
    → Draws w (write_cell row col byte w)
unfolding write_cell
write_cell-Draws row col byte w hr hc = ((refl, refl), λ o h. ground (arith, hr, hc, h))

move_cells-Draws :
    (left row col : ℕ) (w : Writer)
    → row < buffer_height
    → col + left ≤ buffer_width
    → Draws w (move_cells left row col w)
unfolding move_cells
move_cells-Draws zero row col w hr hc = ((refl, refl), λ o h. refl)
move_cells-Draws (suc left) row col w hr hc =
    let byte = read_cell row col w in
    Draws-trans w (write_cell (row - 1) col byte w) _
      (write_cell-Draws (row - 1) col byte w (omega (arith, hr)) (omega (arith, hc)))
      (move_cells-Draws left row (col + 1) (write_cell (row - 1) col byte w) hr (omega (arith, hc)))

move_rows-Draws :
    (left row : ℕ) (w : Writer) → row + left ≤ buffer_height → Draws w (move_rows left row w)
unfolding move_rows
move_rows-Draws zero row w h = ((refl, refl), λ o h. refl)
move_rows-Draws (suc left) row w h =
    Draws-trans w (move_cells buffer_width row 0 w) _
      (move_cells-Draws buffer_width row 0 w (omega (arith, h)) (omega arith))
      (move_rows-Draws left (row + 1) (move_cells buffer_width row 0 w) (omega (arith, h)))

clear_cells-Draws :
    (left row col : ℕ) (w : Writer)
    → row < buffer_height
    → col + left ≤ buffer_width
    → Draws w (clear_cells left row col w)
unfolding clear_cells
clear_cells-Draws zero row col w hr hc = ((refl, refl), λ o h. refl)
clear_cells-Draws (suc left) row col w hr hc =
    Draws-trans w (write_cell row col 32 w) _ (write_cell-Draws row col 32 w hr (omega (arith, hc)))
      (clear_cells-Draws left row (col + 1) (write_cell row col 32 w) hr (omega (arith, hc)))

scroll_up-Draws : (w : Writer) → Draws w (scroll_up w)
unfolding scroll_up clear_row
scroll_up-Draws w =
    let moved = move_rows (buffer_height - 1) 1 w in
    Draws-trans w moved _ (move_rows-Draws (buffer_height - 1) 1 w (omega arith))
      (clear_cells-Draws buffer_width (buffer_height - 1) 0 moved (omega arith) (omega arith))

new_line-InScreen :
    (w : Writer)
    → InScreen w
    → (InScreen (new_line w) × ((new_line w).column_position ≡ 0)) × Untouched w (new_line w)
unfolding new_line
new_line-InScreen w (row, col) = elim (Bool-cases (ltb (w.row_position + 1) buffer_height)) [
  | inl b ↦ rw (b, new_line) (((ground (arith, b), omega arith), refl), λ o h. refl)
  | inr b ↦
      let ((r, c), untouched) = scroll_up-Draws (record w { column_position = 0 }) in
      rw (b, new_line) (((rw r row, omega (arith, c)), c), untouched)
]

put_byte-InScreen :
    (byte : ℕ) (w v : Writer)
    → InScreen v
    → v.column_position < buffer_width
    → Untouched w v
    → InScreen (put_byte byte v) × Untouched w (put_byte byte v)
unfolding write_cell
put_byte-InScreen byte w v (row, col) lt untouched =
    let drawn = write_cell-Draws v.row_position v.column_position byte v row lt in
    ((row, omega (arith, lt)), λ o h. drawn.1 o h ∙ untouched o h)

write_byte-InScreen :
    (byte : ℕ) (w : Writer)
    → InScreen w
    → InScreen (write_byte byte w) × Untouched w (write_byte byte w)
unfolding write_byte
write_byte-InScreen byte w s =
    let ((there, start), untouched) = new_line-InScreen w s in
    elim (Bool-cases (byte == 10)) [
      | inl b ↦ rw (b, write_byte) (there, untouched)
      | inr b ↦
          rw (b, write_byte)
            (elim (Bool-cases (leb buffer_width w.column_position)) [
              | inl full ↦
                  rw full
                    (put_byte-InScreen byte w (new_line w) there (omega (arith, start)) untouched)
              | inr room ↦
                  rw room (put_byte-InScreen byte w w s (ground (arith, room)) (λ o h. refl))
            ])
    ]

-- Writing a string, whatever its bytes, keeps the cursor in the screen, and changes nothing behind
-- the memory of the screen.
pub write_string-InScreen :
    (bytes : List ℕ) (w : Writer)
    → InScreen w
    → InScreen (write_string bytes w) × Untouched w (write_string bytes w)
unfolding write_string
write_string-InScreen [] w s = (s, λ o h. refl)
write_string-InScreen (byte ∷ rest) w s =
    let (there, untouched) = write_byte-InScreen (shown byte) w s in
    let (last, later) = write_string-InScreen rest (write_byte (shown byte) w) there in
    (last, λ o h. later o h ∙ untouched o h)
