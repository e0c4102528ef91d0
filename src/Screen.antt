-- ===== src/Screen.antt =====
-- drivers/vga/vga.c: the text screen. `print` is the only way to it; the cells are the words of
-- the frame buffer at 0xC00B8000, by their index.
pub mod Safety
pub mod Scroll
pub mod Modes
pub mod Font
use master_os.Base.{
  ℕ, zero, suc, ◌+◌, ◌-◌, ◌*◌, ◌%◌, ◌^◌, Bool, true, false, ◌&&◌, not, List, [], ◌∷◌, ltb, leb,
  ◌==◌, if◌then◌else◌, bit_and, bit_or, u16, ◌<<<◌, put,
}

pub record Screen : Type 0 where
  pub column : ℕ
  pub line : ℕ
  pub color : ℕ
  pub width : ℕ
  pub height : ℕ
  pub cells : ℕ → ℕ

-- A character beside the colour; a `char` from 128 up is negative, and widens with its sign.
abbrev pub cell : ℕ → ℕ → ℕ
cell color c = if ltb c 128 then bit_or c color else u16 (bit_or (c + 0xFF00) color)

abbrev pub blank : Screen → ℕ
blank s = bit_or b' ' s.color

-- `for (x …) vga[to + x] = vga[from + x];` at `x`, with `left` rounds left.
unfoldable pub copy_row : (left from to x : ℕ) → (ℕ → ℕ) → ℕ → ℕ
copy_row zero from to x cells = cells
copy_row (suc left) from to x cells =
    copy_row left from to (x + 1) (put cells (to + x) (cells (from + x)))

-- The rows from `y` on, each copied to the row above it.
unfoldable pub copy_rows : (left width y : ℕ) → (ℕ → ℕ) → ℕ → ℕ
unfolding copy_row
copy_rows zero width y cells = cells
copy_rows (suc left) width y cells =
    copy_rows left width (y + 1) (copy_row width (y * width) ((y - 1) * width) 0 cells)

-- `for (x …) vga[to + x] = v;`
unfoldable pub fill : (left to : ℕ) (v : ℕ) → (ℕ → ℕ) → ℕ → ℕ
fill zero to v cells = cells
fill (suc left) to v cells = fill left (to + 1) v (put cells to v)

unfoldable pub scroll_up : Screen → Screen
unfolding copy_rows fill
scroll_up s =
    let moved = copy_rows (s.height - 1) s.width 1 s.cells in
    record s { cells = fill s.width ((s.height - 1) * s.width) (blank s) moved }

unfoldable pub new_line : Screen → Screen
new_line s =
    if ltb s.line (s.height - 1)
    then record s { line = s.line + 1; column = 0 }
    else record (scroll_up s) { column = 0 }

unfoldable pub reset : Screen → Screen
unfolding fill
reset s = record s { column = 0; line = 0; cells = fill (s.width * s.height) 0 (blank s) s.cells }

-- `((bg & 0x0F) << 12) | ((fg & 0x0F) << 8)`
unfoldable pub set_color : (fg bg : ℕ) → Screen → Screen
set_color fg bg s = record s { color = bit_or (bit_and bg 0x0F <<< 12) (bit_and fg 0x0F <<< 8) }

-- Writes a cell at the cursor.
abbrev pub put_cell : ℕ → Screen → Screen
put_cell v s = record s { cells = put s.cells (s.line * s.width + s.column) v }

abbrev pub advance : Screen → Screen
advance s = record s { column = s.column + 1 }

-- A full line is left before something is put on it.
unfoldable pub wrapped : Screen → Screen
wrapped s = if ltb s.column s.width then s else new_line s

-- `while (tabLen != 0 && column < VGAWidth)`
unfoldable pub tab_loop : ℕ → Screen → Screen
tab_loop zero s = s
tab_loop (suc left) s =
    let rest = tab_loop left (advance (put_cell (blank s) s)) in
    if ltb s.column s.width then rest else s

-- At the start of a line the cursor goes to the end of the line above.
unfoldable pub previous_line : Screen → Screen
previous_line s =
    if s.column == 0 && not (s.line == 0)
    then record s { line = s.line - 1; column = s.width }
    else s

unfoldable pub erase_last : Screen → Screen
erase_last s = if ltb 0 s.column then put_cell (blank s) (record s { column = s.column - 1 }) else s

unfoldable pub print_backspace : Screen → Screen
unfolding previous_line erase_last
print_backspace s = erase_last (previous_line s)

unfoldable pub print_char : ℕ → Screen → Screen
unfolding tab_loop wrapped print_backspace
print_char c s =
    if c == 0x0A
    then new_line s
    else if c == 0x0D
    then record s { column = 0 }
    else if c == 0x08
    then print_backspace s
    else if c == 0x09
    then tab_loop (4 - (wrapped s).column % 4) (wrapped s)
    else advance (put_cell (cell (wrapped s).color c) (wrapped s))

-- The string ends at a byte 0.
unfoldable pub print : List ℕ → Screen → Screen
unfolding print_char
print [] s = s
print (c ∷ text) s = let rest = print text (print_char c s) in if c == 0 then s else rest
