-- ===== src/Tty/Ways.antt =====
-- The three ways through `terminal_putchar`: a line break, a character inside a line, and one that
-- fills its line.
use r_oses.Prelude.{ℕ, ◌+◌, ◌<◌, ◌≡◌, arith, ◌==◌, ◌||◌, add32, u8, true, false, Bool}
use r_oses.Prelude.Slots.{update}
use r_oses.Tty.{Tty, vga_entry, index_of, next_row, terminal_putchar, newline, carriage_return}

module _ (t : Tty) (c : ℕ) (on : t.active ≡ true) where
  abbrev breaks : Bool
  breaks = c == newline || c == carriage_return

  pub terminal_putchar_break :
      breaks ≡ true → terminal_putchar t c ≡ next_row (record t { column = 0 })
  unfolding terminal_putchar
  terminal_putchar_break h = rw (on, h)

  -- The state with the character on the screen.
  abbrev pub put : Tty
  put = record t { cells = update t.cells (index_of t.column t.row) (vga_entry c t.color) }

  pub terminal_putchar_inside :
      breaks ≡ false
      → t.column < 79
      → terminal_putchar t c ≡ record put {
        column = t.column + 1;
        line_length = update t.line_length t.row (t.column + 1);
      }
  unfolding terminal_putchar
  terminal_putchar_inside h lt =
      let step : add32 t.column 1 ≡ t.column + 1 = omega arith in
      let test : (t.column + 1 == 80) ≡ false = ground arith in
      let byte : u8 (t.column + 1) ≡ t.column + 1 = omega arith in rw (on, h, step, test, byte)

  abbrev pub wrapped : Tty
  wrapped = next_row (record put {
    column = 0;
    line_length = update t.line_length t.row (u8 (t.line_length t.row + 1));
  })

  pub terminal_putchar_wraps :
      breaks ≡ false
      → t.column ≡ 79
      → terminal_putchar t c ≡ record wrapped {
        line_length = update wrapped.line_length wrapped.row (u8 wrapped.column);
      }
  unfolding terminal_putchar
  terminal_putchar_wraps h e =
      let test : (add32 t.column 1 == 80) ≡ true = ground arith in rw (on, h, test)
