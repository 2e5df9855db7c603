-- ===== src/Printf.antt =====
-- libc/stdio/printf.c and putchar.c: formatted output.
-- A string is the list of its bytes in front of the 0 that ends it. `putchar` gives back the byte
-- that it wrote and never EOF, so `print` does not fail: what is printed is a list of bytes.
pub mod Digits
pub mod Numerals
pub mod Runs
pub mod Items
pub mod Formats
mod Tests
use r_oses.Prelude.{
  ℕ, zero, suc, ◌+◌, ◌-◌, ◌%◌, ◌/◌, ◌||◌, Option, none, some, List, [], ◌∷◌, ◌++◌, length, ltb, leb,
  ◌==◌, if◌then◌else◌, u8, add32,
}
use r_oses.Prelude.Slots.{update}

-- The `do` loop that fills a buffer from `pos` on with the digits of a value, the lowest first.
-- `rounds` is the room that is left, and `none` is the `return -1` of a buffer that is full.
pub digits : (rounds base : ℕ) → (ℕ → ℕ) → (ℕ → ℕ) → (pos value : ℕ) → Option ((ℕ → ℕ) × ℕ)
digits zero base digit buffer pos value = none
digits (suc rounds) base digit buffer pos value =
    let buffer' = update buffer pos (digit (value % base)) in
    let rest = digits rounds base digit buffer' (suc pos) (value / base) in
    if value / base == 0 then some (buffer', suc pos) else rest

-- Two bytes of the buffer change places.
abbrev pub exchange : (ℕ → ℕ) → (i j : ℕ) → ℕ → ℕ
exchange buffer i j = update (update buffer i (buffer j)) j (buffer i)

-- `for (size_t i = start, j = pos; i < --j; i++)`.
pub reverse_loop : (i j : ℕ) → (ℕ → ℕ) → ℕ → ℕ
reverse_loop i zero buffer = buffer
reverse_loop i (suc j) buffer =
    let rest = reverse_loop (suc i) j (exchange buffer i j) in if ltb i j then rest else buffer

-- The `n` bytes of a buffer from `i` on.
pub slice : (ℕ → ℕ) → (i n : ℕ) → List ℕ
slice buffer i zero = []
slice buffer i (suc n) = buffer i ∷ slice buffer (suc i) n

-- The digits of a value in a buffer of `size` bytes, from `start` on.
pub numeral : (size base : ℕ) → (ℕ → ℕ) → (buffer : ℕ → ℕ) → (start value : ℕ) → Option (List ℕ)
unfolding digits
numeral size base digit buffer start value =
    elim (digits (size - start) base digit buffer start value) [
      | none ↦ none
      | some (buffer', pos) ↦ some (slice (reverse_loop start pos buffer') 0 pos)
    ]

abbrev pub decimal_digit : ℕ → ℕ
decimal_digit d = b'0' + d

-- `upper` is that the directive is `%X`.
abbrev pub hex_digit : ℕ → ℕ → ℕ
hex_digit kind d = (if ltb 9 d then (if kind == b'X' then b'7' else b'W') else b'0') + d

-- The buffers are not initialised, and each byte that is printed was written before.
abbrev pub fresh_buffer : ℕ → ℕ
fresh_buffer i = 0

-- `%d`: a negative number is 2^31 or more as a word.
pub signed_numeral : ℕ → Option (List ℕ)
signed_numeral num =
    if leb 0x80000000 num
    then numeral 11 10 decimal_digit (update fresh_buffer 0 b'-') 1 (add32 (0xffffffff - num) 1)
    else numeral 11 10 decimal_digit fresh_buffer 0 num

pub unsigned_numeral : ℕ → Option (List ℕ)
unsigned_numeral value = numeral 10 10 decimal_digit fresh_buffer 0 value

pub hex_numeral : (kind value : ℕ) → Option (List ℕ)
hex_numeral kind value = numeral 8 16 (hex_digit kind) fresh_buffer 0 value

-- What follows the format: a 32-bit word, or a pointer to a string.
pub data Arg : Type 0 where
  word : ℕ → Arg
  text : List ℕ → Arg

-- One round of the loop: the bytes to print, the number of them that is checked and counted, and
-- the format and the parameters that are left; a `return -1`; or a parameter that is not there.
pub data Piece : Type 0 where
  piece : (bytes : List ℕ) → (counted : ℕ) → (format : List ℕ) → (parameters : List Arg) → Piece
  fails : Piece
  no_parameter : Piece

-- The bytes up to the next `%`, and the rest.
pub text_run : List ℕ → List ℕ × List ℕ
text_run [] = ([], [])
text_run (c ∷ cs) =
    let (run, rest) = text_run cs in if c == b'%' then ([], c ∷ cs) else (c ∷ run, rest)

-- A first byte that is printed as it is, and those behind it.
abbrev pub literal : ℕ → List ℕ → List Arg → Piece
literal c cs args = let (run, rest) = text_run cs in piece (c ∷ run) (suc (length run)) rest args

abbrev pub number_piece : List ℕ → Option (List ℕ) → List ℕ → List Arg → Piece
number_piece prefix none cs args = fails
number_piece prefix (some digits) cs args = piece (prefix ++ digits) (length digits) cs args

-- A directive that is not known prints the rest of the format, from its `%` on.
abbrev pub unknown : List ℕ → List Arg → Piece
unknown cs args = piece (b'%' ∷ cs) (suc (length cs)) [] args

-- The directives that take a word.
pub word_piece : (kind value : ℕ) → List ℕ → List Arg → Piece
word_piece kind value cs args =
    if kind == b'c'
    then piece (u8 value ∷ []) 1 cs args
    else if kind == b'd'
    then number_piece [] (signed_numeral value) cs args
    else if kind == b'u'
    then number_piece [] (unsigned_numeral value) cs args
    else number_piece (b'0' ∷ b'x' ∷ []) (hex_numeral kind value) cs args

pub directive : ℕ → List ℕ → List Arg → Piece
unfolding word_piece
directive kind cs args =
    if kind == b'%'
    then literal kind cs args
    else if kind == b's'
    then string_piece args
    else if kind == b'c' || (kind == b'd' || (kind == b'u' || (kind == b'x' || kind == b'X')))
    then number args
    else unknown (kind ∷ cs) args
  where
    string_piece : List Arg → Piece
    string_piece (text s ∷ args) = piece s (length s) cs args
    string_piece (word w ∷ args) = no_parameter
    string_piece [] = no_parameter

    number : List Arg → Piece
    number (word w ∷ args) = word_piece kind w cs args
    number (text s ∷ args) = no_parameter
    number [] = no_parameter

pub next_piece : ℕ → List ℕ → List Arg → Piece
unfolding directive
next_piece c [] args = if c == b'%' then unknown [] args else literal c [] args
next_piece c (k ∷ cs) args = if c == b'%' then directive k cs args else literal c (k ∷ cs) args

-- What a call returns, with what it printed. `undefined` is a parameter that is not there, which C
-- leaves open, or more rounds than the fuel.
pub data Outcome : Type 0 where
  done : (written : ℕ) → (out : List ℕ) → Outcome
  error : (out : List ℕ) → Outcome
  undefined : Outcome

abbrev pub int_max : ℕ
int_max = 0x7fffffff

pub printf_loop : ℕ → List ℕ → List Arg → (written : ℕ) → (out : List ℕ) → Outcome
printf_loop fuel [] args written out = done written out
printf_loop zero (c ∷ cs) args written out = undefined
printf_loop (suc fuel) (c ∷ cs) args written out = elim (next_piece c cs args) [
  | piece bytes counted format args' ↦
      let rest = printf_loop fuel format args' (written + counted) (out ++ bytes) in
      if ltb (int_max - written) counted then error out else rest
  | fails ↦ error out
  | no_parameter ↦ undefined
]

-- Each round takes at least one byte of the format, so its length is enough fuel.
pub printf : List ℕ → List Arg → Outcome
printf format args = printf_loop (length format) format args 0 []
