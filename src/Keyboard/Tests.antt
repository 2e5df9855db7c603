-- ===== src/Keyboard/Tests.antt =====
-- Runs of kernel/arch/i386/keyboard.c.
use r_oses.Prelude.{ℕ, ◌≡◌, refl, arith, true, false, none, some, [], ◌∷◌}
use r_oses.Prelude.Slots.{update}
use r_oses.Tty.Tests.{screen_at}
use r_oses.Ps2.Tests.{constant, both_ports}
use r_oses.Keyboard.{Keyboard, scan_to_key, key_word, ps2_key_handler, keycode_round, unicode_of}
use r_oses.Keyboard.Codes.{scan_to_key-some, scan_to_key-none}
use r_oses.Keyboard.Shift.{unicode_of-letter}
use r_oses.Keyboard.Order.{stacked, only, SameConsole, ps2_key_handler-round}
use r_oses.Keyboard.Held.{Handled, keycode_handler-Handled}

abbrev idle : Keyboard
idle = record { extended = 0; press_keys = 0; toggle_keys = 0; keycode_stack = λ _. 0; top = 0 }

abbrev extended : Keyboard
extended = record idle { extended = 1 }

scan_to_key-some_example : (k : ℕ) × ((scan_to_key extended 0xE4).0 ≡ some k)
scan_to_key-some_example = scan_to_key-some extended 0xE4 (omega arith) (λ e. omega arith)

scan_to_key-none_example : (scan_to_key extended 0xFE).0 ≡ none
scan_to_key-none_example = scan_to_key-none extended 0xFE (omega arith) refl (omega arith)

-- The key 'q' with the left shift key.
unicode_of-letter_example : unicode_of 0x8 0 0x41 ≡ 81
unicode_of-letter_example =
    unicode_of-letter 0x8 0 0x41 (omega arith) (omega arith) (omega arith) refl

q_key : (scan_to_key idle 0x10).0 ≡ some 0x41
unfolding scan_to_key key_word
q_key = refl

ps2_key_handler-round_example :
    (kb : Keyboard) × (ps2_key_handler idle 0x10 ≡ some kb)
    × (stacked kb ≡ 0x41 ∷ [])
    × (stacked (keycode_round (constant 0) kb (screen_at 3) both_ports).0 ≡ [])
    × SameConsole
        (constant 0)
        (keycode_round (constant 0) kb (screen_at 3) both_ports)
        (keycode_round (constant 0) (only (constant 0) 0x41 kb) (screen_at 3) both_ports)
ps2_key_handler-round_example =
    ps2_key_handler-round (constant 0) idle 0x10 0x41 (screen_at 3) both_ports q_key (omega arith)
      (omega arith)

-- Sixteen keys that no thread has handled.
abbrev full : Keyboard
full = record idle { keycode_stack = λ i. 0x41; top = 16 }

q_key_full : (scan_to_key full 0x10).0 ≡ some 0x41
unfolding scan_to_key key_word
q_key_full = refl

-- The left shift key is pressed, and released, before the thread runs: the press, at the bottom, is
-- handled last, and the key stays pressed.
abbrev shift_twice : Keyboard
shift_twice = record idle { keycode_stack = update (λ _. 0x80) 2 0x180; top = 2 }

keycode_handler-Handled_example :
    Handled (constant 0) 3 shift_twice (screen_at 3) both_ports ((false, 0x80) ∷ (true, 0x80) ∷ [])
keycode_handler-Handled_example =
    keycode_handler-Handled (constant 0) 3 shift_twice (screen_at 3) both_ports [] (omega arith)
      refl
