-- ===== src/Tty/Cells.antt =====
-- What `terminal_putchar` and `terminal_backspace` are to one another.
use r_oses.Prelude.{
  ℕ, ◌+◌, ◌-◌, ◌<◌, ◌≡◌, ◌≢◌, arith, ap, ◌∙◌, ◌==◌, ◌||◌, refl, add32, u8, true, false,
}
use r_oses.Prelude.Slots.{update}
use r_oses.Tty.{
  Tty, vga_entry, index_of, next_row, terminal_putchar, terminal_backspace, newline,
  carriage_return,
}
use r_oses.Tty.Ways.{terminal_putchar_inside, terminal_putchar_wraps, put}

-- The screen of `t` with one cell changed, and the cursor where it was.
pub record Undone (t t' : Tty) : Type 0 where
  pub row : t'.row ≡ t.row
  pub column : t'.column ≡ t.column
  pub cell : t'.cells (index_of t.column t.row) ≡ vga_entry b' ' t.color
  pub others : (i : ℕ) → i ≢ index_of t.column t.row → t'.cells i ≡ t.cells i

-- In an active terminal and inside a line, for a character that is no line break,
-- terminal_backspace takes back a character that terminal_putchar wrote: the cursor is where it
-- was, the cell is blank, and no other cell is touched.
pub terminal_backspace-terminal_putchar :
    (t : Tty) (c : ℕ)
    → t.active ≡ true
    → (c == newline || c == carriage_return) ≡ false
    → t.column < 79
    → Undone t (terminal_backspace (terminal_putchar t c))
unfolding terminal_backspace
terminal_backspace-terminal_putchar t c on plain lt =
    let back : t.column + 1 - 1 ≡ t.column = omega arith in
    let test : (t.column + 1 == 0) ≡ false = ground arith in
    rw (terminal_putchar_inside t c on plain lt, test, back)
      (record { row = refl; column = refl; cell = ground arith; others = λ i ne. ground arith })

-- Column 80, then a character `c` in the first cell of the row below and column 81.
pub record RunsOff (t : Tty) (c : ℕ) (t' t'' : Tty) : Type 0 where
  pub row : t'.row ≡ t.row
  pub column : t'.column ≡ 80
  pub row_after : t''.row ≡ t.row
  pub column_after : t''.column ≡ 81
  pub cell : t''.cells (index_of 0 (t.row + 1)) ≡ vga_entry c t.color

inner_row : (t : Tty) → t.row < 24 → next_row t ≡ record t { row = t.row + 1 }
unfolding next_row
inner_row t h =
    let step : add32 t.row 1 ≡ t.row + 1 = omega arith in
    let test : (t.row + 1 == 25) ≡ false = ground arith in rw (step, test)

-- A character that fills its line, a backspace and one more character.
module _ (t : Tty) (c d : ℕ) (on : t.active ≡ true)
    (plain : (c == newline || c == carriage_return) ≡ false)
    (plain' : (d == newline || d == carriage_return) ≡ false) (at : t.column ≡ 79)
    (inner : t.row < 24) (length : t.line_length t.row ≡ 79) where
  abbrev back : Tty
  back = terminal_backspace (terminal_putchar t c)

  after_wrap :
      ((terminal_putchar t c).row ≡ t.row + 1)
      × ((terminal_putchar t c).column ≡ 0)
      × ((terminal_putchar t c).line_length t.row ≡ 80)
      × ((terminal_putchar t c).active ≡ true)
      × ((terminal_putchar t c).color ≡ t.color)
  after_wrap =
      rw
        (
          terminal_putchar_wraps t c on plain at,
          inner_row
              (record (put t c on) {
                column = 0;
                line_length = update t.line_length t.row (u8 (t.line_length t.row + 1));
              })
              inner,
        )
        (refl, refl, ground arith, on, refl)

  back_lem : (back.row ≡ t.row) × (back.column ≡ 80) × (back.active ≡ true) × (back.color ≡ t.color)
  unfolding terminal_backspace
  back_lem =
      let (r, k, l, a, o) = after_wrap in
      let first : ((terminal_putchar t c).column == 0) ≡ true = ground arith in
      let below : ((terminal_putchar t c).row == 0) ≡ false = ground arith in
      let line : (terminal_putchar t c).row - 1 ≡ t.row = omega arith in
      rw (first, below, line) (refl, l, a, o)

  next_lem :
      ((terminal_putchar back d).row ≡ back.row)
      × ((terminal_putchar back d).column ≡ add32 back.column 1)
      × ((terminal_putchar back d).cells (index_of 80 t.row) ≡ vga_entry d t.color)
  unfolding terminal_putchar
  next_lem =
      let (r, k, a, o) = back_lem in
      let test : (add32 back.column 1 == 80) ≡ false = ground arith in
      rw (a, plain', test) (refl, refl, ground arith)

  -- In an active terminal, behind a line above the last row that a character has just filled to
  -- its last cell, terminal_backspace goes to column 80; the next character then stands in the
  -- first cell of the row below, and the column is 81.
  pub terminal_putchar-RunsOff : RunsOff t d back (terminal_putchar back d)
  terminal_putchar-RunsOff =
      let (r, k, a, o) = back_lem in
      let (r', k', cell) = next_lem in
      record {
        row = r;
        column = k;
        row_after = r' ∙ r;
        column_after = omega arith;
        cell = ap (terminal_putchar back d).cells (omega arith) ∙ cell;
      }
