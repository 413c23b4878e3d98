-- ===== src/VgaBuffer.antt =====
-- vga_buffer.rs: the text screen.
pub mod Scroll
pub mod Bounds
use vlad_os.Base.{
  ltb, leb, ◌==◌, if◌then◌else◌, ℕ, zero, suc, ◌+◌, ◌-◌, ◌*◌, ◌&&◌, ◌||◌, List, [], ◌∷◌,
}

abbrev pub buffer_height : ℕ
buffer_height = 25

abbrev pub buffer_width : ℕ
buffer_width = 80

abbrev pub color_byte : ℕ
color_byte = 0x0f

-- With the memory of the screen, by the offset from `VGA_BUFFER`. Offsets from 4000 on lie behind
-- the screen.
pub record Writer : Type 0 where
  pub column_position : ℕ
  pub row_position : ℕ
  pub memory : ℕ → ℕ

abbrev pub offset_of : ℕ → ℕ → ℕ
offset_of row col = (row * buffer_width + col) * 2

unfoldable pub read_cell : ℕ → ℕ → Writer → ℕ
read_cell row col w = w.memory (offset_of row col)

unfoldable pub write_cell : ℕ → ℕ → ℕ → Writer → Writer
write_cell row col byte w =
    let offset = offset_of row col in
    record w {
      memory =
          λ o. if o == offset + 1 then color_byte else if o == offset then byte else w.memory o;
    }

-- `for col in 0..BUFFER_WIDTH`: `left` cells from `col` on move up by a row.
move_cells : ℕ → ℕ → ℕ → Writer → Writer
move_cells zero row col w = w
move_cells (suc left) row col w =
    move_cells left row (col + 1) (write_cell (row - 1) col (read_cell row col w) w)

-- `for row in 1..BUFFER_HEIGHT`: `left` rows from `row` on.
move_rows : ℕ → ℕ → Writer → Writer
move_rows zero row w = w
move_rows (suc left) row w = move_rows left (row + 1) (move_cells buffer_width row 0 w)

clear_cells : ℕ → ℕ → ℕ → Writer → Writer
clear_cells zero row col w = w
clear_cells (suc left) row col w = clear_cells left row (col + 1) (write_cell row col 32 w)

unfoldable pub clear_row : ℕ → Writer → Writer
unfolding clear_cells
clear_row row w = clear_cells buffer_width row 0 w

unfoldable pub scroll_up : Writer → Writer
unfolding move_cells move_rows clear_row
scroll_up w = clear_row (buffer_height - 1) (move_rows (buffer_height - 1) 1 w)

unfoldable pub new_line : Writer → Writer
unfolding scroll_up
new_line w =
    let w' = record w { column_position = 0 } in
    if ltb (w.row_position + 1) buffer_height
    then record w' { row_position = w.row_position + 1 }
    else scroll_up w'

-- A byte that is not a line feed, in the place of the cursor.
abbrev put_byte : ℕ → Writer → Writer
put_byte byte w = record (write_cell w.row_position w.column_position byte w) {
  column_position = w.column_position + 1;
}

unfoldable pub write_byte : ℕ → Writer → Writer
unfolding new_line
write_byte byte w =
    if byte == 10
    then new_line w
    else put_byte byte (if leb buffer_width w.column_position then new_line w else w)

-- Bytes outside of printable ASCII are shown as a block.
abbrev shown : ℕ → ℕ
shown byte = if (leb 0x20 byte && leb byte 0x7e) || byte == 10 then byte else 0xfe

pub write_string : List ℕ → Writer → Writer
unfolding write_byte
write_string [] w = w
write_string (byte ∷ rest) w = write_string rest (write_byte (shown byte) w)
