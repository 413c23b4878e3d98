-- ===== src/VgaBuffer/Scroll.antt =====
-- vga_buffer.rs: scrolling moves each row up by one.
use vlad_os.Base.{
  ltb, leb, ◌==◌, if◌then◌else◌, Bool-cases, ℕ, zero, suc, ◌+◌, ◌-◌, ◌≤◌, ◌<◌, ◌≡◌, refl, ◌∙◌, inl,
  inr, Bool, true, false, ◌&&◌, arith,
}
use vlad_os.VgaBuffer.{
  buffer_height, buffer_width, Writer, read_cell, write_cell, clear_row, scroll_up, move_cells,
  move_rows, clear_cells,
}

read_cell-write_cell :
    (r c row col byte : ℕ) (w : Writer)
    → c < buffer_width
    → col < buffer_width
    → read_cell r c (write_cell row col byte w)
      ≡ (if r == row && c == col then byte else read_cell r c w)
unfolding read_cell write_cell
read_cell-write_cell r c row col byte w hc hcol = ground arith

-- The cell is among the ones from `col` on.
abbrev among : ℕ → ℕ → ℕ → Bool
among c col left = leb col c && ltb c (col + left)

read_cell-move_cells :
    (left row col : ℕ) (w : Writer) (r c : ℕ)
    → 1 ≤ row
    → col + left ≤ buffer_width
    → c < buffer_width
    → read_cell r c (move_cells left row col w)
      ≡ (if r + 1 == row && among c col left then read_cell row c w else read_cell r c w)
unfolding move_cells
read_cell-move_cells zero row col w r c h fits hc = ground arith
read_cell-move_cells (suc left) row col w r c h fits hc =
    let w' = write_cell (row - 1) col (read_cell row col w) w in
    let ih = read_cell-move_cells left row (col + 1) w' r c h (omega (arith, fits)) hc in
    let here =
      read_cell-write_cell r c (row - 1) col (read_cell row col w) w hc (omega (arith, fits)) in
    let below =
      read_cell-write_cell row c (row - 1) col (read_cell row col w) w hc (omega (arith, fits)) in
    ground (arith, ih, here, below, h)

read_cell-move_rows :
    (left row : ℕ) (w : Writer) (r c : ℕ)
    → 1 ≤ row
    → c < buffer_width
    → read_cell r c (move_rows left row w) ≡ (
        if leb row (r + 1) && ltb (r + 1) (row + left)
        then read_cell (r + 1) c w
        else read_cell r c w)
unfolding move_rows
read_cell-move_rows zero row w r c h hc = ground arith
read_cell-move_rows (suc left) row w r c h hc =
    let w' = move_cells buffer_width row 0 w in
    let ih = read_cell-move_rows left (row + 1) w' r c (omega arith) hc in
    let here = read_cell-move_cells buffer_width row 0 w r c h (omega arith) hc in
    let next = read_cell-move_cells buffer_width row 0 w (r + 1) c h (omega arith) hc in
    ground (arith, ih, here, next, h, hc)

read_cell-clear_cells :
    (left row col : ℕ) (w : Writer) (r c : ℕ)
    → col + left ≤ buffer_width
    → c < buffer_width
    → read_cell r c (clear_cells left row col w)
      ≡ (if r == row && among c col left then 32 else read_cell r c w)
unfolding clear_cells
read_cell-clear_cells zero row col w r c fits hc = ground arith
read_cell-clear_cells (suc left) row col w r c fits hc =
    let ih =
      read_cell-clear_cells left row (col + 1) (write_cell row col 32 w) r c (omega (arith, fits))
        hc in
    let here = read_cell-write_cell r c row col 32 w hc (omega (arith, fits)) in
    ground (arith, ih, here)

is_moved :
    (r : ℕ)
    → r < buffer_height
    → (r + 1 == buffer_height) ≡ false
    → (leb 1 (r + 1) && ltb (r + 1) (1 + (buffer_height - 1))) ≡ true
is_moved r h n = ground (arith, h, n)

-- After a scroll each row shows what the row below it showed, and the last one is blank.
pub read_cell-scroll_up :
    (w : Writer) (r c : ℕ)
    → r < buffer_height
    → c < buffer_width
    → read_cell r c (scroll_up w) ≡ (if r + 1 == buffer_height then 32 else read_cell (r + 1) c w)
unfolding scroll_up clear_row
read_cell-scroll_up w r c hr hc =
    let moved = move_rows (buffer_height - 1) 1 w in
    let cleared =
      read_cell-clear_cells buffer_width (buffer_height - 1) 0 moved r c (omega arith) hc in
    let up = read_cell-move_rows (buffer_height - 1) 1 w r c (omega arith) hc in
    let inside : among c 0 buffer_width ≡ true = ground (arith, hc) in
    elim (Bool-cases (r + 1 == buffer_height)) [
      | inl b ↦
          let last : (r == buffer_height - 1) ≡ true = ground (arith, b) in
          rw b (cleared ∙ rw (last, inside) refl)
      | inr b ↦
          let above : (r == buffer_height - 1) ≡ false = ground (arith, b) in
          let moves : (leb 1 (r + 1) && ltb (r + 1) (1 + (buffer_height - 1))) ≡ true =
            is_moved r hr b in
          rw b (cleared ∙ (rw above refl ∙ (up ∙ rw moves refl)))
    ]
