-- ===== src/Tty/Scroll.antt =====
-- `terminal_scrollup`: where every cell and every line length goes.
use r_oses.Prelude.{
  ℕ, zero, suc, ◌+◌, ◌*◌, ◌≤◌, ◌<◌, ◌≡◌, arith, ltb, leb, ◌==◌, ◌&&◌, if◌then◌else◌, refl, ap,
  sub32,
}
use r_oses.Prelude.Slots.{update}
use r_oses.Tty.{Tty, vga_entry, index_of, rotate, blank_row, move_rows, terminal_scrollup}

rotate_lem :
    (n i : ℕ) (f : ℕ → ℕ) (j : ℕ)
    → rotate n i f j
      ≡ (if leb i j && ltb j (i + n) then f (suc j) else if j == i + n then f i else f j)
unfolding rotate
rotate_lem zero i f j = ground arith
rotate_lem (suc n) i f j =
    ground (arith, rotate_lem n (suc i) (update (update f i (f (suc i))) (suc i) (f i)) j)

blank_row_lem :
    (n i color : ℕ) (cells : ℕ → ℕ) (j : ℕ)
    → blank_row n i color cells j
      ≡ (if leb (1920 + i) j && ltb j (1920 + (i + n)) then vga_entry b' ' color else cells j)
unfolding blank_row
blank_row_lem zero i color cells j = ground arith
blank_row_lem (suc n) i color cells j =
    ground
      (arith, blank_row_lem n (suc i) color (update cells (index_of i 24) (vga_entry b' ' color)) j)

-- Every row is the one that was below it, the last row is blank, and the line lengths have moved
-- along.
pub record Scrolled (t t' : Tty) : Type 0 where
  pub rows : (x y : ℕ) → x < 80 → y < 24 → t'.cells (index_of x y) ≡ t.cells (index_of x (y + 1))
  pub blank : (x : ℕ) → x < 80 → t'.cells (index_of x 24) ≡ vga_entry b' ' t.color
  pub beyond : (i : ℕ) → 2000 ≤ i → t'.cells i ≡ t.cells i
  pub lengths : (y : ℕ) → y < 24 → t'.line_length y ≡ t.line_length (y + 1)
  pub last_length : t'.line_length 24 ≡ 0
  pub row : t'.row ≡ sub32 t.row 1
  pub column : t'.column ≡ t.column
  pub color : t'.color ≡ t.color

-- terminal_scrollup moves every row up by one, blanks the last row, writes no cell behind the
-- screen, and moves the line lengths along.
pub terminal_scrollup-Scrolled : (t : Tty) → Scrolled t (terminal_scrollup t)
unfolding terminal_scrollup
terminal_scrollup-Scrolled t = record {
  rows = λ x y hx hy.
      ground
        (arith, blank_row_lem 80 0 t.color (move_rows t.cells) (index_of x y), ap t.cells (up x y));
  blank = λ x hx. ground (arith, blank_row_lem 80 0 t.color (move_rows t.cells) (index_of x 24));
  beyond = λ i h. ground (arith, blank_row_lem 80 0 t.color (move_rows t.cells) i);
  lengths = λ y h. ground (arith, rotate_lem 24 0 (update t.line_length 0 0) y);
  last_length = ground (arith, rotate_lem 24 0 (update t.line_length 0 0) 24);
  row = refl;
  column = refl;
  color = refl;
}
  where
    up : (x y : ℕ) → y * 80 + x + 80 ≡ (y + 1) * 80 + x
    up x y = omega arith
