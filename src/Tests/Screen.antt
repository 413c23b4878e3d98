-- ===== src/Tests/Screen.antt =====
-- The text screen with the cursor in its last cell.
use vlad_os.Base.{◌==◌, if◌then◌else◌, ◌+◌, ◌≡◌, [], ◌∷◌, arith}
use vlad_os.VgaBuffer.{buffer_height, Writer, read_cell, scroll_up, write_string}
use vlad_os.VgaBuffer.Scroll.{read_cell-scroll_up}
use vlad_os.VgaBuffer.Bounds.{Untouched, InScreen, write_string-InScreen}

abbrev full_screen : Writer
full_screen = record { column_position = 80; row_position = 24; memory = λ o. 65 }

read_cell-scroll_up_example :
    read_cell 3 5 (scroll_up full_screen)
    ≡ (if 3 + 1 == buffer_height then 32 else read_cell (3 + 1) 5 full_screen)
read_cell-scroll_up_example = read_cell-scroll_up full_screen 3 5 (omega arith) (omega arith)

write_string-InScreen_example :
    InScreen (write_string (72 ∷ 10 ∷ 200 ∷ []) full_screen)
    × Untouched full_screen (write_string (72 ∷ 10 ∷ 200 ∷ []) full_screen)
write_string-InScreen_example =
    write_string-InScreen (72 ∷ 10 ∷ 200 ∷ []) full_screen (omega arith, omega arith)
