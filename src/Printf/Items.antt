-- ===== src/Printf/Items.antt =====
-- The directives of libc/stdio/printf.c with their parameters: what one of them prints.
use r_oses.Prelude.{
  ℕ, ◌≤◌, ◌<◌, ◌≡◌, arith, refl, List, [], ◌∷◌, length, if◌then◌else◌, true, false, Bool, u8,
}
use r_oses.Printf.{Arg, word, text, word_piece, directive, next_piece, piece}
use r_oses.Printf.Numerals.{
  Prints, PrintsSigned, decimal_value, hex_value, hex_numeral-Prints, signed_numeral-PrintsSigned,
  unsigned_numeral-Prints, length-PrintsSigned,
}

-- A directive with its parameter. `%x` has the letter `b'x'` or `b'X'`.
pub data Item : Type 0 where
  char_item : ℕ → Item
  string_item : List ℕ → Item
  signed_item : ℕ → Item
  unsigned_item : ℕ → Item
  hex_item : (upper : Bool) → ℕ → Item

abbrev pub letter : Item → ℕ
letter (char_item w) = b'c'
letter (string_item s) = b's'
letter (signed_item w) = b'd'
letter (unsigned_item w) = b'u'
letter (hex_item upper w) = if upper then b'X' else b'x'

abbrev pub parameter : Item → Arg
parameter (char_item w) = word w
parameter (string_item s) = text s
parameter (signed_item w) = word w
parameter (unsigned_item w) = word w
parameter (hex_item upper w) = word w

-- A number is a 32-bit word.
abbrev pub IsItem : Item → Type 0
IsItem (char_item w) = w < 4294967296
IsItem (string_item s) = Unit {0}
IsItem (signed_item w) = w < 4294967296
IsItem (unsigned_item w) = w < 4294967296
IsItem (hex_item upper w) = w < 4294967296

-- The most bytes that are counted for an item.
abbrev pub most : Item → ℕ
most (char_item w) = 1
most (string_item s) = length s
most (signed_item w) = 11
most (unsigned_item w) = 10
most (hex_item upper w) = 8

-- The bytes that an item prints, and the number that is counted: the `0x` of a hexadecimal number is
-- printed and not counted.
pub data Shows : Item → List ℕ → ℕ → Type 0 where
  shows_char : {w : ℕ} → Shows (char_item w) (u8 w ∷ []) 1
  shows_string : {s : List ℕ} → Shows (string_item s) s (length s)
  shows_signed : {w : ℕ} {ds : List ℕ} → PrintsSigned w ds → Shows (signed_item w) ds (length ds)
  shows_unsigned :
      {w : ℕ} {ds : List ℕ}
      → Prints 10 decimal_value 10 w ds
      → Shows (unsigned_item w) ds (length ds)
  shows_hex :
      {upper : Bool} {w : ℕ} {ds : List ℕ}
      → Prints 16 hex_value 8 w ds
      → Shows (hex_item upper w) (b'0' ∷ b'x' ∷ ds) (length ds)

-- The round of the loop for one item.
pub next_piece-Shows :
    (i : Item) (cs : List ℕ) (args : List Arg)
    → IsItem i
    → (bytes : List ℕ) × (n : ℕ) × (next_piece b'%' (letter i ∷ cs) (parameter i ∷ args)
        ≡ piece bytes n cs args)
      × Shows i bytes n
      × (n ≤ most i)
unfolding next_piece directive word_piece
next_piece-Shows (char_item w) cs args h = (u8 w ∷ [], 1, refl, shows_char, omega arith)
next_piece-Shows (string_item s) cs args h = (s, length s, refl, shows_string, omega arith)
next_piece-Shows (signed_item w) cs args h =
    let (ds, e, p) = signed_numeral-PrintsSigned w h in
    rw e (ds, length ds, refl, shows_signed p, length-PrintsSigned w ds p)
next_piece-Shows (unsigned_item w) cs args h =
    let (ds, e, p) = unsigned_numeral-Prints w h in
    rw e (ds, length ds, refl, shows_unsigned p, p.few)
next_piece-Shows (hex_item true w) cs args h =
    let (ds, e, p) = hex_numeral-Prints b'X' w h in
    rw e (b'0' ∷ b'x' ∷ ds, length ds, refl, shows_hex p, p.few)
next_piece-Shows (hex_item false w) cs args h =
    let (ds, e, p) = hex_numeral-Prints b'x' w h in
    rw e (b'0' ∷ b'x' ∷ ds, length ds, refl, shows_hex p, p.few)
