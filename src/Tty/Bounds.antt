-- ===== src/Tty/Bounds.antt =====
-- The cursor stays on the screen, as far as it does.
use r_oses.Prelude.{
  ℕ, ◌+◌, ◌-◌, ◌*◌, ◌/◌, ◌≤◌, ◌<◌, ◌≡◌, ◌≢◌, arith, ◌==◌, ◌||◌, refl, add32, dec_lt, u8, List, [],
  ◌∷◌, true, false, ℕ_discrete, Bool-cases, inl, inr,
}
use r_oses.Prelude.Bits.{bit_and-ones}
use r_oses.Prelude.Slots.{update}
use r_oses.Tty.{
  Tty, terminal_scrollup, next_row, terminal_putchar, terminal_backspace, write_loop,
  terminal_write, newline, carriage_return,
}
use r_oses.Tty.Scroll.{terminal_scrollup-Scrolled}
use r_oses.Tty.Ways.{terminal_putchar_break, terminal_putchar_inside, terminal_putchar_wraps, put}

-- A column other than 0 is the length of its line, and no line is longer than the screen is wide.
-- The column may be 80, one past the last.
pub record IsScreen (t : Tty) : Type 0 where
  pub row : t.row < 25
  pub column : t.column ≤ 80
  pub lengths : (y : ℕ) → y < 25 → t.line_length y ≤ 80
  pub link : t.column ≢ 0 → t.line_length t.row ≡ t.column

-- What `next_row` does to the numbers.
record Advanced (t t' : Tty) : Type 0 where
  row : t'.row < 25
  column : t'.column ≡ t.column
  active : t'.active ≡ t.active
  lengths : ((y : ℕ) → y < 25 → t.line_length y ≤ 80) → (y : ℕ) → y < 25 → t'.line_length y ≤ 80

active-terminal_scrollup : (t : Tty) → (terminal_scrollup t).active ≡ t.active
unfolding terminal_scrollup
active-terminal_scrollup t = refl

next_row-Advanced : (t : Tty) → t.row < 25 → Advanced t (next_row t)
unfolding next_row
next_row-Advanced t h = elim (ℕ_discrete t.row 24) [
  | yes last ↦
      let up : Tty = record t { row = add32 t.row 1 } in
      let s = terminal_scrollup-Scrolled up in
      let test : (add32 t.row 1 == 25) ≡ true = ground arith in
      rw test (record {
        row = omega (arith, s.row);
        column = s.column;
        active = active-terminal_scrollup up;
        lengths = λ l y hy. elim (ℕ_discrete y 24) [
          | yes e ↦ ground (arith, s.last_length)
          | no ne ↦ omega (arith, s.lengths y (omega arith), l (y + 1) (omega arith))
        ];
      })
  | no inner ↦
      let test : (add32 t.row 1 == 25) ≡ false = ground arith in
      rw test (record { row = omega arith; column = refl; active = refl; lengths = λ l. l })
]

update-lengths :
    (f : ℕ → ℕ) (i v : ℕ)
    → v ≤ 80
    → ((y : ℕ) → y < 25 → f y ≤ 80)
    → (y : ℕ) → y < 25
    → update f i v y ≤ 80
update-lengths f i v hv h y hy = ground (arith, h y hy)

-- From a column on the screen `terminal_putchar` keeps the cursor on the screen.
pub terminal_putchar-IsScreen :
    (t : Tty) (c : ℕ)
    → t.active ≡ true
    → t.column < 80
    → IsScreen t
    → IsScreen (terminal_putchar t c)
      × ((terminal_putchar t c).column < 80)
      × ((terminal_putchar t c).active ≡ true)
terminal_putchar-IsScreen t c on lt v = elim (Bool-cases (c == newline || c == carriage_return)) [
  | inl breaks ↦
      let a = next_row-Advanced (record t { column = 0 }) v.row in
      rw (terminal_putchar_break t c on breaks) (
        record {
          row = a.row;
          column = omega (arith, a.column);
          lengths = a.lengths v.lengths;
          link = λ ne. absurd (ne a.column);
        },
        omega (arith, a.column),
        ground (arith, a.active),
      )
  | inr plain ↦ elim (dec_lt t.column 79) [
    | yes inside ↦ rw (terminal_putchar_inside t c on plain inside) (
      record {
        row = v.row;
        column = omega arith;
        lengths = update-lengths t.line_length t.row (t.column + 1) (omega arith) v.lengths;
        link = λ ne. ground arith;
      },
      omega arith,
      on,
    )
    | no edge ↦
        let at : t.column ≡ 79 = omega arith in
        let full : u8 (t.line_length t.row + 1) ≤ 80 = omega (arith, v.link (omega arith)) in
        let a =
          next_row-Advanced
            (record (put t c on) {
              column = 0;
              line_length = update t.line_length t.row (u8 (t.line_length t.row + 1));
            })
            v.row in
        rw (terminal_putchar_wraps t c on plain at) (
          record {
            row = a.row;
            column = omega (arith, a.column);
            lengths =
                update-lengths _ _ _ (omega (arith, a.column))
                  (a.lengths (update-lengths t.line_length t.row _ full v.lengths));
            link = λ ne. absurd (ne a.column);
          },
          omega (arith, a.column),
          ground (arith, a.active),
        )
  ]
]

-- From a row of the screen, a column of at most 80 and line lengths in step, terminal_backspace
-- keeps the cursor in a row of the screen and in a column of at most 80, and keeps the line
-- lengths in step.
pub terminal_backspace-IsScreen : (t : Tty) → IsScreen t → IsScreen (terminal_backspace t)
unfolding terminal_backspace
terminal_backspace-IsScreen t v = elim (ℕ_discrete t.column 0) [
  | yes z ↦
      let first : (t.column == 0) ≡ true = ground arith in
      elim (ℕ_discrete t.row 0) [
        | yes z' ↦ let top : (t.row == 0) ≡ true = ground arith in rw (first, top) v
        | no nz ↦
            let below : (t.row == 0) ≡ false = ground arith in
            rw (first, below)
              (record {
                row = omega (arith, v.row);
                column = v.lengths (t.row - 1) (omega (arith, v.row));
                lengths = v.lengths;
                link = λ ne. refl;
              })
      ]
  | no nz ↦
      let later : (t.column == 0) ≡ false = ground arith in
      let byte : u8 (t.column - 1) ≡ t.column - 1 = omega (arith, v.column) in
      rw (later, byte)
        (record {
          row = v.row;
          column = omega (arith, v.column);
          lengths =
              update-lengths t.line_length t.row (t.column - 1) (omega (arith, v.column)) v.lengths;
          link = λ ne. ground arith;
        })
]

write_loop-IsScreen :
    (cs : List ℕ) (t : Tty)
    → t.active ≡ true
    → t.column < 80
    → IsScreen t
    → IsScreen (write_loop t cs) × ((write_loop t cs).column < 80)
unfolding write_loop
write_loop-IsScreen [] t on lt v = (v, lt)
write_loop-IsScreen (c ∷ cs) t on lt v =
    let (w, lt', on') = terminal_putchar-IsScreen t c on lt v in
    write_loop-IsScreen cs (terminal_putchar t c) on' lt' w

-- The two bytes of the hardware's cursor give the cell of the cursor.
abbrev pub CursorShown : Tty → Type 0
CursorShown t = t.cursor_low + 256 * t.cursor_high ≡ t.row * 80 + t.column

-- From a column on the screen of an active terminal with its line lengths in step,
-- terminal_write leaves the cursor on the screen however long the text is, and the hardware's
-- cursor shows that place.
pub terminal_write-IsScreen :
    (t : Tty) (cs : List ℕ)
    → t.active ≡ true
    → t.column < 80
    → IsScreen t
    → IsScreen (terminal_write t cs)
      × ((terminal_write t cs).column < 80)
      × CursorShown (terminal_write t cs)
unfolding terminal_write
terminal_write-IsScreen t cs on lt v =
    let (w, lt') = write_loop-IsScreen cs t on lt v in
    let u = write_loop t cs in
    (
      record { row = w.row; column = w.column; lengths = w.lengths; link = w.link },
      lt',
      omega (
        arith,
        w.row,
        bit_and-ones 8 (u.row * 80 + u.column) (omega arith),
        bit_and-ones 8 ((u.row * 80 + u.column) / 256) (omega arith),
      ),
    )
