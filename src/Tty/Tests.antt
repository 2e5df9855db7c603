-- ===== src/Tty/Tests.antt =====
-- Runs of kernel/arch/i386/tty.c.
use r_oses.Prelude.{ℕ, ◌<◌, ◌≤◌, refl, arith, true, [], ◌∷◌}
use r_oses.Prelude.Slots.{update}
use r_oses.Tty.{Tty, terminal_scrollup, terminal_write, terminal_backspace, terminal_putchar}
use r_oses.Tty.Scroll.{Scrolled, terminal_scrollup-Scrolled}
use r_oses.Tty.Bounds.{IsScreen, CursorShown, terminal_write-IsScreen}
use r_oses.Tty.Cells.{
  Undone, RunsOff, terminal_backspace-terminal_putchar, terminal_putchar-RunsOff,
}

-- The cursor stands in column `k` of row 3, behind a line of that length.
abbrev pub screen_at : ℕ → Tty
screen_at k = record {
  row = 3;
  column = k;
  color = 7;
  active = true;
  cells = λ i. 0x720;
  line_length = update (λ _. 0) 3 k;
  cursor_low = 0;
  cursor_high = 0;
}

screen_at-IsScreen : (k : ℕ) → k ≤ 80 → IsScreen (screen_at k)
screen_at-IsScreen k h = record {
  row = omega arith;
  column = h;
  lengths = λ y hy. ground arith;
  link = λ ne. refl;
}

terminal_scrollup-Scrolled_example : Scrolled (screen_at 5) (terminal_scrollup (screen_at 5))
terminal_scrollup-Scrolled_example = terminal_scrollup-Scrolled (screen_at 5)

terminal_write-IsScreen_example :
    IsScreen (terminal_write (screen_at 79) (b'o' ∷ b'k' ∷ 10 ∷ []))
    × ((terminal_write (screen_at 79) (b'o' ∷ b'k' ∷ 10 ∷ [])).column < 80)
    × CursorShown (terminal_write (screen_at 79) (b'o' ∷ b'k' ∷ 10 ∷ []))
terminal_write-IsScreen_example =
    terminal_write-IsScreen (screen_at 79) (b'o' ∷ b'k' ∷ 10 ∷ []) refl (omega arith)
      (screen_at-IsScreen 79 (omega arith))

terminal_backspace-terminal_putchar_example :
    Undone (screen_at 12) (terminal_backspace (terminal_putchar (screen_at 12) b'a'))
terminal_backspace-terminal_putchar_example =
    terminal_backspace-terminal_putchar (screen_at 12) b'a' refl refl (omega arith)

terminal_putchar-RunsOff_example :
    RunsOff
      (screen_at 79)
      b'b'
      (terminal_backspace (terminal_putchar (screen_at 79) b'a'))
      (terminal_putchar (terminal_backspace (terminal_putchar (screen_at 79) b'a')) b'b')
terminal_putchar-RunsOff_example =
    terminal_putchar-RunsOff (screen_at 79) b'a' b'b' refl refl refl refl (omega arith) refl
