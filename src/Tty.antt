-- ===== src/Tty.antt =====
-- kernel/arch/i386/tty.c and kernel/arch/i386/vga.h: the text screen.
pub mod Scroll
pub mod Ways
pub mod Bounds
pub mod Cells
pub mod Tests
use r_oses.Prelude.{
  ℕ, zero, suc, ◌+◌, ◌-◌, ◌*◌, ◌&&◌, ◌||◌, Bool, true, false, List, [], ◌∷◌, ltb, leb, ◌==◌,
  if◌then◌else◌, u8, u16, add32, sub32, bit_and, bit_or, ◌<<<◌, ◌>>>◌,
}
use r_oses.Prelude.Slots.{update}

abbrev pub vga_width : ℕ
vga_width = 80

abbrev pub vga_height : ℕ
vga_height = 25

abbrev pub vga_color_black : ℕ
vga_color_black = 0

abbrev pub vga_color_light_grey : ℕ
vga_color_light_grey = 7

abbrev pub vga_entry_color : ℕ → ℕ → ℕ
vga_entry_color fg bg = u8 (bit_or fg (bg <<< 4))

abbrev pub vga_entry : ℕ → ℕ → ℕ
vga_entry uc color = u16 (bit_or uc (color <<< 8))

-- The static variables, the screen's memory and the two bytes of the controller's cursor.
-- `active` is that `terminal_buffer` is 0xB8000: it is NULL before `terminal_initialize`.
pub record Tty : Type 0 where
  pub row : ℕ
  pub column : ℕ
  pub color : ℕ
  pub active : Bool
  pub cells : ℕ → ℕ
  pub line_length : ℕ → ℕ
  pub cursor_low : ℕ
  pub cursor_high : ℕ

abbrev pub index_of : (x y : ℕ) → ℕ
index_of x y = y * vga_width + x

-- The two loops of `terminal_initialize` write every cell of the screen.
pub terminal_initialize : Tty → Tty
terminal_initialize t =
    let color = vga_entry_color vga_color_light_grey vga_color_black in
    record t {
      row = 0;
      column = 0;
      color = color;
      active = true;
      cells = λ i. if ltb i (vga_height * vga_width) then vga_entry b' ' color else t.cells i;
    }

pub terminal_setcolor : Tty → ℕ → Tty
terminal_setcolor t color = record t { color = color }

pub terminal_putentryat : Tty → (c color x y : ℕ) → Tty
terminal_putentryat t c color x y = record t {
  cells = update t.cells (index_of x y) (vga_entry c color);
}

pub terminal_move_cursor : Tty → (x y : ℕ) → Tty
terminal_move_cursor t x y = record t {
  cursor_low = bit_and (index_of x y) 0xFF;
  cursor_high = bit_and (index_of x y >>> 8) 0xFF;
}

pub terminal_backspace : Tty → Tty
unfolding terminal_move_cursor terminal_putentryat
terminal_backspace t =
    if t.column == 0
    then (if t.row == 0
        then t
        else (let row = t.row - 1 in
            let column = t.line_length row in
            terminal_move_cursor (record t { row = row; column = column }) column row))
    else (let column = t.column - 1 in
        let t' = terminal_putentryat (record t { column = column }) b' ' t.color column t.row in
        let t'' = terminal_move_cursor t' column t.row in
        record t'' { line_length = update t''.line_length t.row (u8 column) })

-- The loop of exchanges over `line_length`, from `i` on.
pub rotate : (rounds i : ℕ) → (ℕ → ℕ) → ℕ → ℕ
rotate zero i f = f
rotate (suc rounds) i f = rotate rounds (suc i) (update (update f i (f (suc i))) (suc i) (f i))

-- The `memmove` of all rows but the first, which goes up by one row.
abbrev pub move_rows : (ℕ → ℕ) → ℕ → ℕ
move_rows cells i = if ltb i (vga_width * (vga_height - 1)) then cells (i + vga_width) else cells i

-- The loop that blanks the last row.
pub blank_row : (rounds i color : ℕ) → (ℕ → ℕ) → ℕ → ℕ
blank_row zero i color cells = cells
blank_row (suc rounds) i color cells =
    blank_row rounds (suc i) color
      (update cells (index_of i (vga_height - 1)) (vga_entry b' ' color))

pub terminal_scrollup : Tty → Tty
terminal_scrollup t = record t {
  cells = blank_row vga_width 0 t.color (move_rows t.cells);
  line_length = rotate (vga_height - 1) 0 (update t.line_length 0 0);
  row = sub32 t.row 1;
}

-- `if (++terminal_row == VGA_HEIGHT) terminal_scrollup();`
pub next_row : Tty → Tty
next_row t =
    let t' = record t { row = add32 t.row 1 } in
    if add32 t.row 1 == vga_height then terminal_scrollup t' else t'

abbrev pub newline : ℕ
newline = 10

abbrev pub carriage_return : ℕ
carriage_return = 13

-- `c` is the character's byte.
pub terminal_putchar : Tty → ℕ → Tty
unfolding terminal_putentryat
terminal_putchar t c =
    if t.active
    then (if c == newline || c == carriage_return
        then next_row (record t { column = 0 })
        else (let t' = terminal_putentryat t c t.color t.column t.row in
            let column = add32 t.column 1 in
            let done =
              if column == vga_width
              then next_row (record t' {
                column = 0;
                line_length = update t.line_length t.row (u8 (t.line_length t.row + 1));
              })
              else record t' { column = column } in
            record done { line_length = update done.line_length done.row (u8 done.column) }))
    else t

pub write_loop : Tty → List ℕ → Tty
write_loop t [] = t
write_loop t (c ∷ cs) = write_loop (terminal_putchar t c) cs

pub terminal_write : Tty → List ℕ → Tty
unfolding terminal_move_cursor
terminal_write t cs = let t' = write_loop t cs in terminal_move_cursor t' t'.column t'.row

abbrev pub backspace : ℕ
backspace = 8

pub terminal_eval_unicode : Tty → ℕ → Tty
unfolding terminal_move_cursor
terminal_eval_unicode t c =
    if c == backspace
    then terminal_backspace t
    else (let t' = terminal_putchar t c in terminal_move_cursor t' t'.column t'.row)
