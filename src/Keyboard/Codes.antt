-- ===== src/Keyboard/Codes.antt =====
-- `scan_to_key` of kernel/arch/i386/keyboard.c: which scan codes are in the table.
use r_oses.Prelude.{
  ℕ, zero, suc, ◌+◌, ◌%◌, ◌≤◌, ◌<◌, ◌≡◌, refl, arith, Bool, true, false, none, some, List, [], ◌∷◌,
  length, get_elem?, ◌==◌, if◌then◌else◌, u8, bit_or, ◌<<<◌, ℕ_discrete, dec_lt,
}
use r_oses.Prelude.Checks.{all_below, all_below-at}
use r_oses.Keymap.{keycodes}
use r_oses.Keyboard.{Keyboard, low_bits, key_word, scan_to_key, no_key, is_released}

elem_below : (xs : List ℕ) (i : ℕ) → i < length xs → (x : ℕ) × (get_elem? xs i ≡ some x)
elem_below [] i h = absurd (omega arith)
elem_below (x ∷ xs) zero h = (x, refl)
elem_below (x ∷ xs) (suc i) h = elem_below xs i (omega arith)

elem_behind : (xs : List ℕ) (i : ℕ) → length xs ≤ i → get_elem? xs i ≡ none
elem_behind [] i h = refl
elem_behind (x ∷ xs) zero h = absurd (omega arith)
elem_behind (x ∷ xs) (suc i) h = elem_behind xs i (omega arith)

low_bits_check : all_below (λ c. low_bits c == c % 128) 256 ≡ true
low_bits_check = refl

low_bits_lem : (c : ℕ) → c < 256 → low_bits c ≡ c % 128
low_bits_lem c h = ground (arith, all_below-at (λ c. low_bits c == c % 128) 256 c low_bits_check h)

key_word_below : (r : Bool) (i : ℕ) → i < 183 → (k : ℕ) × (key_word r i ≡ some k)
unfolding key_word
key_word_below r i h =
    let (x, e) = elem_below keycodes i h in (bit_or ((if r then 1 else 0) <<< 8) x, rw e refl)

key_word_behind : (r : Bool) (i : ℕ) → 183 ≤ i → key_word r i ≡ none
unfolding key_word
key_word_behind r i h = rw (elem_behind keycodes i h) refl

-- For a byte from the keyboard, scan_to_key reads inside its table of 183 key codes, where an
-- extended code, if one is awaited, is below 110 without its top bit.
pub scan_to_key-some :
    (kb : Keyboard) (scan_code : ℕ)
    → scan_code < 256
    → (kb.extended ≡ 1 → scan_code % 128 < 110)
    → (k : ℕ) × ((scan_to_key kb scan_code).0 ≡ some k)
unfolding scan_to_key
scan_to_key-some kb c h inside = elim (dec_lt 1 kb.extended) [
  | yes more ↦ (no_key, ground arith)
  | no less ↦ elim (ℕ_discrete kb.extended 0) [
    | no one ↦
        let ext : (kb.extended ≡ 1) = omega arith in
        let (k, e) =
          key_word_below (is_released c) (u8 (low_bits c + 0x49))
            (omega (arith, low_bits_lem c h, inside ext)) in
        (k, rw ext e)
    | yes z ↦ elim (ℕ_discrete c 0xE1) [
      | yes q ↦ (no_key, rw (z, q) refl)
      | no n1 ↦ elim (ℕ_discrete c 0xE0) [
        | yes q ↦ (no_key, rw (z, q) refl)
        | no n2 ↦
            let (k, e) =
              key_word_below (is_released c) (low_bits c) (omega (arith, low_bits_lem c h)) in
            let t1 : (c == 0xE1) ≡ false = ground arith in
            let t2 : (c == 0xE0) ≡ false = ground arith in (k, rw (z, t1, t2) e)
      ]
    ]
  ]
]

pub scan_to_key-none :
    (kb : Keyboard) (scan_code : ℕ)
    → scan_code < 256
    → kb.extended ≡ 1
    → 110 ≤ scan_code % 128
    → (scan_to_key kb scan_code).0 ≡ none
unfolding scan_to_key
scan_to_key-none kb c h ext far =
    rw ext
      (key_word_behind (is_released c) (u8 (low_bits c + 0x49)) (omega (arith, low_bits_lem c h)))
