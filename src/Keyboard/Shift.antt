-- ===== src/Keyboard/Shift.antt =====
-- The letters that the keys of kernel/arch/i386/keyboard.c stand for.
use r_oses.Prelude.{
  ℕ, ◌+◌, ◌-◌, ◌≤◌, ◌<◌, ◌≡◌, refl, ap, ◌∙◌, arith, Bool, true, false, ◌&&◌, ◌||◌, not, get_or, leb,
  ◌==◌, if◌then◌else◌, bit_and, Bool-cases, inl, inr,
}
use r_oses.Prelude.Checks.{all_below, all_below-at}
use r_oses.Keymap.{us_querty}
use r_oses.Keyboard.{shifted, has, caps_of, shift_of, control_of, is_keypad, unicode_of}

abbrev pub is_small_letter : ℕ → Bool
is_small_letter u = leb 97 u && leb u 122

-- The exclusive or.
abbrev pub differ : Bool → Bool → Bool
differ true b = not b
differ false b = b

small_check : all_below (λ u. not (is_small_letter u) || (shifted u == u - 32)) 128 ≡ true
small_check = refl

large_check : all_below (λ u. not (leb 65 u && leb u 90) || (shifted u == u + 32)) 128 ≡ true
large_check = refl

keypad_check :
    all_below (λ k. not (is_small_letter (get_or us_querty k 0)) || not (is_keypad k)) 256 ≡ true
keypad_check = refl

implied : (a b : Bool) → (not a || b) ≡ true → a ≡ true → b ≡ true
implied true b e h = e
implied false b e h = absurd cc

shifted-small : (u : ℕ) → 97 ≤ u → u ≤ 122 → shifted u ≡ u - 32
shifted-small u lo hi =
    let e =
      implied (is_small_letter u) (shifted u == u - 32)
        (all_below-at (λ u. not (is_small_letter u) || (shifted u == u - 32)) 128 u small_check
          (omega arith))
        (ground arith) in
    ground arith

shifted-large : (u : ℕ) → 65 ≤ u → u ≤ 90 → shifted u ≡ u + 32
shifted-large u lo hi =
    let e =
      implied (leb 65 u && leb u 90) (shifted u == u + 32)
        (all_below-at (λ u. not (leb 65 u && leb u 90) || (shifted u == u + 32)) 128 u large_check
          (omega arith))
        (ground arith) in
    ground arith

-- A letter after Caps Lock, and after a shift key.
caps-letter : (t u : ℕ) → 97 ≤ u → u ≤ 122 → caps_of t u ≡ (if has t 0x4 then u - 32 else u)
caps-letter t u lo hi =
    let test : leb 0x61 u ≡ true = ground arith in
    elim (Bool-cases (has t 0x4)) [
      | inl e ↦ rw (e, test) (shifted-small u lo hi)
      | inr e ↦ rw e refl
    ]

shift-letter :
    (p u : ℕ) (caps : Bool)
    → 97 ≤ u
    → u ≤ 122
    → shift_of p (if caps then u - 32 else u)
      ≡ (if differ (has p 0x8 || has p 0x40) caps then u - 32 else u)
shift-letter p u true lo hi =
    let test : leb 0x28 (u - 32) ≡ true = ground arith in
    elim (Bool-cases (has p 0x8 || has p 0x40)) [
      | inl e ↦ rw (e, test) (shifted-large (u - 32) (omega arith) (omega arith) ∙ omega arith)
      | inr e ↦ rw e refl
    ]
shift-letter p u false lo hi =
    let test : leb 0x28 u ≡ true = ground arith in
    elim (Bool-cases (has p 0x8 || has p 0x40)) [
      | inl e ↦ rw (e, test) (shifted-small u lo hi)
      | inr e ↦ rw e refl
    ]

-- With a control key, both cases of a letter are its number in the alphabet.
control_check :
    all_below
      (λ u.
        not (is_small_letter u)
        || ((control_of 0x2 u == u - 96) && (control_of 0x2 (u - 32) == u - 96)))
      128
    ≡ true
control_check = refl

-- A key of a letter, without a control key, stands for the capital letter where either a shift
-- key is held or Caps Lock is on, and for the small one where both or neither is.
pub unicode_of-letter :
    (p t k : ℕ)
    → k < 256
    → 97 ≤ get_or us_querty k 0
    → get_or us_querty k 0 ≤ 122
    → (has p 0x2 || has p 0x10) ≡ false
    → unicode_of p t k ≡ (
        if differ (has p 0x8 || has p 0x40) (has t 0x4)
        then get_or us_querty k 0 - 32
        else get_or us_querty k 0)
unfolding unicode_of
unicode_of-letter p t k h lo hi no_control =
    let off : is_keypad k ≡ false = not_true (is_keypad k) (
      implied (is_small_letter (get_or us_querty k 0)) (not (is_keypad k))
        (all_below-at (λ k. not (is_small_letter (get_or us_querty k 0)) || not (is_keypad k)) 256 k
          keypad_check h)
        (ground arith)) in
    rw (no_control, off)
      (if_false (bit_and t 0x2 == 0) _
        ∙ ap (shift_of p) (caps-letter t (get_or us_querty k 0) lo hi)
        ∙ shift-letter p (get_or us_querty k 0) (has t 0x4) lo hi)
  where
    not_true : (b : Bool) → not b ≡ true → b ≡ false
    not_true true e = absurd cc
    not_true false e = refl

    if_false : (b : Bool) (x : ℕ) → (if b && false then 0 else x) ≡ x
    if_false true x = refl
    if_false false x = refl
