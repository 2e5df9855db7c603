-- ===== src/Keyboard.antt =====
-- kernel/arch/i386/keyboard.c: scan codes, key codes and what a key stands for.
pub mod Codes
pub mod Shift
pub mod Modifiers
pub mod Order
pub mod Held
mod Tests
use r_oses.Prelude.{
  ℕ, zero, suc, ◌+◌, ◌-◌, ◌/◌, ◌%◌, ◌<◌, ◌&&◌, ◌||◌, not, Bool, true, false, Option, none, some,
  List, [], ◌∷◌, get_elem?, get_or, ltb, leb, ◌==◌, if◌then◌else◌, u8, sub32, bit_and, bit_or,
  bit_xor, ◌<<<◌, ◌>>>◌,
}
use r_oses.Prelude.Slots.{update}
use r_oses.Keymap.{keycodes, us_querty, us_querty_shift}
use r_oses.Isr.{Machine}
use r_oses.Tty.{Tty, terminal_eval_unicode}
use r_oses.Ps2.{Ps2, keyboard_update_leds}

-- The entries of `keycode_stack` are numbered from 1, and `top` is 0 for an empty stack.
pub record Keyboard : Type 0 where
  pub extended : ℕ
  pub press_keys : ℕ
  pub toggle_keys : ℕ
  pub keycode_stack : ℕ → ℕ
  pub top : ℕ

-- The size of `keycode_stack`.
abbrev pub stack_size : ℕ
stack_size = 16

-- What `scan_to_key` returns where it is no key.
abbrev pub no_key : ℕ
no_key = 0xFF

-- `(scan_code & 0x80) == 0x80` and `scan_code & ~0x80`.
abbrev pub is_released : ℕ → Bool
is_released scan_code = bit_and scan_code 0x80 == 0x80

abbrev pub low_bits : ℕ → ℕ
low_bits scan_code = u8 (bit_and scan_code (0xffffffff - 0x80))

-- The last line of `scan_to_key`. `none` is a read behind the table.
pub key_word : (released : Bool) → (index : ℕ) → Option ℕ
key_word released index = elim (get_elem? keycodes index) [
  | none ↦ none
  | some k ↦ some (bit_or ((if released then 1 else 0) <<< 8) k)
]

pub scan_to_key : Keyboard → (scan_code : ℕ) → Option ℕ × Keyboard
scan_to_key kb scan_code =
    if ltb 1 kb.extended
    then (some no_key, record kb { extended = kb.extended - 1 })
    else if kb.extended == 0
    then if scan_code == 0xE1
      then (some no_key, record kb { extended = 5 })
      else if scan_code == 0xE0
      then (some no_key, record kb { extended = 1 })
      else (key_word (is_released scan_code) (low_bits scan_code), kb)
    else (
      key_word (is_released scan_code) (u8 (low_bits scan_code + 0x49)),
      record kb { extended = 0 },
    )

-- `none` is a read behind the table, or a write behind the stack.
pub ps2_key_handler : Keyboard → (scan_code : ℕ) → Option Keyboard
ps2_key_handler kb scan_code =
    let (key, kb') = scan_to_key kb scan_code in
    elim key [
      | none ↦ none
      | some k ↦
          if k == no_key
          then some kb'
          else if leb stack_size kb'.top
          then none
          else some (record kb' {
            top = kb'.top + 1;
            keycode_stack = update kb'.keycode_stack (kb'.top + 1) k;
          })
    ]

-- A test of bits in a condition.
abbrev pub has : ℕ → ℕ → Bool
has keys mask = not (bit_and keys mask == 0)

abbrev pub shifted : ℕ → ℕ
shifted unicode = get_or us_querty_shift (unicode - 0x28) 0

abbrev pub caps_of : (toggle_keys unicode : ℕ) → ℕ
caps_of toggle_keys unicode =
    if has toggle_keys 0x4 && leb 0x61 unicode then shifted unicode else unicode

abbrev pub shift_of : (press_keys unicode : ℕ) → ℕ
shift_of press_keys unicode =
    if (has press_keys 0x8 || has press_keys 0x40) && leb 0x28 unicode
    then shifted unicode
    else unicode

abbrev pub control_of : (press_keys unicode : ℕ) → ℕ
control_of press_keys unicode =
    let upper = if leb 0x61 unicode && leb unicode 0x7d then unicode - 0x20 else unicode in
    let low = if leb 0x40 upper && ltb upper 0x60 then bit_and upper 0x1F else upper in
    if has press_keys 0x2 || has press_keys 0x10 then low else unicode

-- Whether the key is one of the keypad's numbers.
abbrev pub is_keypad : ℕ → Bool
is_keypad keycode =
    ltb 0x40 keycode
    && (ltb keycode 0xC0
        && (ltb (sub32 (sub32 0x12 (keycode / 32)) (keycode % 32)) 3 || (keycode == 0xAE)))

pub unicode_of : (press_keys toggle_keys keycode : ℕ) → ℕ
unicode_of press_keys toggle_keys keycode =
    let unicode =
      control_of press_keys
        (shift_of press_keys (caps_of toggle_keys (get_or us_querty keycode 0))) in
    if (bit_and toggle_keys 0x2 == 0) && is_keypad keycode then 0 else unicode

abbrev pub clear : ℕ → ℕ → ℕ
clear keys mask = u8 (bit_and keys (0xffffffff - mask))

pub released_keys : (press_keys keycode : ℕ) → ℕ
released_keys press_keys keycode =
    if keycode == 0xA0
    then clear press_keys 0x2
    else if keycode == 0xA3
    then clear press_keys 0x4
    else if keycode == 0x80
    then clear press_keys 0x8
    else if keycode == 0xA6
    then clear press_keys 0x10
    else if keycode == 0xA5
    then clear press_keys 0x20
    else if keycode == 0x8B
    then clear press_keys 0x40
    else press_keys

pub pressed_keys : (press_keys keycode : ℕ) → ℕ
pressed_keys press_keys keycode =
    if keycode == 0xA0
    then bit_or press_keys 0x2
    else if keycode == 0xA3
    then bit_or press_keys 0x4
    else if keycode == 0x80
    then bit_or press_keys 0x8
    else if keycode == 0xA6
    then bit_or press_keys 0x10
    else if keycode == 0xA5
    then bit_or press_keys 0x20
    else if keycode == 0x8B
    then bit_or press_keys 0x40
    else press_keys

abbrev pub press_step : (press_keys : ℕ) → (released : Bool) → (keycode : ℕ) → ℕ
press_step press_keys released keycode =
    if released then released_keys press_keys keycode else pressed_keys press_keys keycode

abbrev pub is_modifier : ℕ → Bool
is_modifier keycode =
    (keycode == 0xA0)
    || ((keycode == 0xA3)
        || ((keycode == 0x80) || ((keycode == 0xA6) || ((keycode == 0xA5) || (keycode == 0x8B)))))

-- The bit of `toggle_keys` that a pressed key flips, 0 for none.
abbrev pub toggle_bit : ℕ → ℕ
toggle_bit keycode =
    if keycode == 0xC0
    then 0x1
    else if keycode == 0x2E
    then 0x2
    else if keycode == 0x60
    then 0x4
    else 0

-- The keyboard, the terminal and the PS/2 controller.
abbrev pub Console : Type 0 → Type 0
Console S = Keyboard × Tty × Ps2 S

module _ {S : Type 0} (io : Machine S) where
  -- The press of a key that is no modifier.
  pub press : Keyboard → Tty → Ps2 S → (keycode unicode : ℕ) → Console S
  press kb tty d keycode unicode =
      let toggled = bit_xor kb.toggle_keys (toggle_bit keycode) in
      if not (toggle_bit keycode == 0)
      then (record kb { toggle_keys = toggled }, tty, keyboard_update_leds io d toggled)
      else if not (unicode == 0)
      then (kb, terminal_eval_unicode tty unicode, d)
      else (kb, tty, d)

  -- A round of the outer loop of `keycode_handler` when the stack is not empty.
  pub keycode_round : Keyboard → Tty → Ps2 S → Console S
  keycode_round kb tty d =
      let word = kb.keycode_stack kb.top in
      let keycode = u8 word in
      let released = not (word >>> 8 == 0) in
      let unicode = unicode_of kb.press_keys kb.toggle_keys keycode in
      let kb' = record kb {
        top = kb.top - 1;
        press_keys = press_step kb.press_keys released keycode;
      } in
      if released || is_modifier keycode then (kb', tty, d) else press kb' tty d keycode unicode

  -- The loop until the stack is empty, where the thread gives way. `none` is more keys than the
  -- fuel.
  pub keycode_handler : (fuel : ℕ) → Keyboard → Tty → Ps2 S → Option (Console S)
  keycode_handler zero kb tty d = none
  keycode_handler (suc fuel) kb tty d =
      let (kb', tty', d') = keycode_round kb tty d in
      let rest = keycode_handler fuel kb' tty' d' in if kb.top == 0 then some (kb, tty, d) else rest
