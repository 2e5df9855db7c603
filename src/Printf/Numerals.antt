-- ===== src/Printf/Numerals.antt =====
-- The numerals of libc/stdio/printf.c: what is printed reads back as the number.
use r_oses.Prelude.{
  ℕ, suc, ◌+◌, ◌-◌, ◌≤◌, ◌<◌, ◌≡◌, true, false, ◌∙◌, ap, arith, some, List, ◌∷◌, length, ltb, leb,
  if◌then◌else◌, dec_lt, add32,
}
use r_oses.Prelude.Slots.{update}
use r_oses.Printf.{
  slice, decimal_digit, hex_digit, fresh_buffer, signed_numeral, unsigned_numeral, hex_numeral,
}
use r_oses.Printf.Digits.{read_from, numeral-value, length-slice}

shift :
    (f : ℕ → ℕ) (start n pos : ℕ)
    → start + n ≡ pos
    → some (slice f 0 (start + n)) ≡ some (slice f 0 pos)
shift f start n pos e = ap (λ k. some (slice f 0 k)) e

-- A numeral of 1 to `most` bytes that reads back as the number.
pub record Prints (base : ℕ) (value_of : ℕ → ℕ) (most v : ℕ) (ds : List ℕ) : Type 0 where
  pub value : read_from base value_of 0 ds ≡ v
  pub some_digit : 1 ≤ length ds
  pub few : length ds ≤ most

abbrev pub decimal_value : ℕ → ℕ
decimal_value c = c - b'0'

-- Upper and lower case letters from 10 on.
abbrev pub hex_value : ℕ → ℕ
hex_value c = if ltb c 58 then c - b'0' else if ltb c 97 then c - b'7' else c - b'W'

-- `%u` prints every 32-bit word in at most 10 digits that read back as the word.
pub unsigned_numeral-Prints :
    (v : ℕ)
    → v < 4294967296
    → (ds : List ℕ) × (unsigned_numeral v ≡ some ds) × Prints 10 decimal_value 10 v ds
unfolding unsigned_numeral
unsigned_numeral-Prints v h =
    let (f, n, e, lo, hi, value, keep) =
      numeral-value 10 decimal_value decimal_digit (λ d. ground arith) (λ d. omega arith)
        (λ d l lt. omega arith) 10 10 0 v fresh_buffer (omega arith) (omega arith) (omega arith) in
    let count = length-slice f 0 n in
    (
      slice f 0 n,
      e ∙ shift f 0 n n (omega arith),
      record { value = value; some_digit = omega arith; few = omega arith },
    )

-- `%x` and `%X` print every 32-bit word in at most 8 digits that read back as the word.
pub hex_numeral-Prints :
    (kind v : ℕ)
    → v < 4294967296
    → (ds : List ℕ) × (hex_numeral kind v ≡ some ds) × Prints 16 hex_value 8 v ds
unfolding hex_numeral
hex_numeral-Prints kind v h =
    let (f, n, e, lo, hi, value, keep) =
      numeral-value 16 hex_value (hex_digit kind) (λ d. ground arith) (λ d. omega arith)
        (λ d l lt. omega arith) 8 8 0 v fresh_buffer (omega arith) (omega arith) (omega arith) in
    let count = length-slice f 0 n in
    (
      slice f 0 n,
      e ∙ shift f 0 n n (omega arith),
      record { value = value; some_digit = omega arith; few = omega arith },
    )

-- The numeral of a signed word: the digits of its amount, behind a `-` where it is negative.
pub data PrintsSigned (num : ℕ) : List ℕ → Type 0 where
  positive :
      {ds : List ℕ} → num < 0x80000000 → Prints 10 decimal_value 11 num ds → PrintsSigned num ds
  negative :
      {ds : List ℕ}
      → 0x80000000 ≤ num
      → Prints 10 decimal_value 10 (4294967296 - num) ds
      → PrintsSigned num (b'-' ∷ ds)

-- %d prints every 32-bit word: the digits, behind a minus sign where it is negative in two's
-- complement, read back as its amount, and there is room for them in the buffer.
pub signed_numeral-PrintsSigned :
    (num : ℕ)
    → num < 4294967296
    → (ds : List ℕ) × (signed_numeral num ≡ some ds) × PrintsSigned num ds
unfolding signed_numeral slice
signed_numeral-PrintsSigned num h = elim (dec_lt num 0x80000000) [
  | yes lt ↦
      let (f, n, e, lo, hi, value, keep) =
        numeral-value 10 decimal_value decimal_digit (λ d. ground arith) (λ d. omega arith)
          (λ d l lt. omega arith) 11 11 0 num fresh_buffer (omega arith) (omega arith)
          (omega arith) in
      let count = length-slice f 0 n in
      let test : leb 0x80000000 num ≡ false = ground arith in
      rw test (
        slice f 0 n,
        e ∙ shift f 0 n n (omega arith),
        positive lt (record { value = value; some_digit = omega arith; few = omega arith }),
      )
  | no ge ↦
      let amount : add32 (0xffffffff - num) 1 ≡ 4294967296 - num = omega arith in
      let (f, n, e, lo, hi, value, keep) =
        numeral-value 10 decimal_value decimal_digit (λ d. ground arith) (λ d. omega arith)
          (λ d l lt. omega arith) 11 10 1 (4294967296 - num) (update fresh_buffer 0 b'-')
          (omega arith) (omega arith) (omega arith) in
      let count = length-slice f 1 n in
      let minus : f 0 ≡ b'-' = keep 0 (omega arith) in
      let test : leb 0x80000000 num ≡ true = ground arith in
      rw (test, amount)
        (
          f 0 ∷ slice f 1 n,
          e ∙ shift f 1 n (suc n) (omega arith),
          rw minus (
              negative (omega arith)
                (record { value = value; some_digit = omega arith; few = omega arith })),
        )
]

pub length-PrintsSigned : (num : ℕ) (ds : List ℕ) → PrintsSigned num ds → length ds ≤ 11
length-PrintsSigned num ds (positive lt p) = p.few
length-PrintsSigned num (c ∷ ds) (negative ge p) = omega (arith, p.few)
