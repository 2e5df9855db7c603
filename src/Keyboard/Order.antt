-- ===== src/Keyboard/Order.antt =====
-- The stack of kernel/arch/i386/keyboard.c: which key is handled next, and when there is no place.
use r_oses.Prelude.{
  ℕ, zero, suc, ◌+◌, ◌-◌, ◌≤◌, ◌<◌, ◌≡◌, ◌≢◌, refl, ap, ap₂, ◌∙◌, arith, true, false, ◌||◌, not,
  Option, none, some, List, [], ◌∷◌, leb, ◌==◌, ltb, u8, bit_xor, ◌>>>◌,
}
use r_oses.Prelude.Slots.{update}
use r_oses.Prelude.Checks.{if_either, if_related}
use r_oses.Isr.{Machine}
use r_oses.Tty.{Tty}
use r_oses.Ps2.{Ps2}
use r_oses.Keyboard.{
  Keyboard, Console, stack_size, no_key, scan_to_key, ps2_key_handler, toggle_bit, press,
  is_modifier, keycode_round, unicode_of, press_step, keyboard_update_leds,
}

-- The words of the stack, the last one pushed first.
abbrev pub words : (ℕ → ℕ) → ℕ → List ℕ
words f zero = []
words f (suc n) = f (suc n) ∷ words f n

abbrev pub stacked : Keyboard → List ℕ
stacked kb = words kb.keycode_stack kb.top

words-update : (f : ℕ → ℕ) (i v n : ℕ) → n < i → words (update f i v) n ≡ words f n
words-update f i v zero h = refl
words-update f i v (suc n) h =
    let e : update f i v (suc n) ≡ f (suc n) = ground arith in
    rw (e, words-update f i v n (omega arith)) refl

-- The same stack, but for its top, which is at `n`.
pub record StackAt (kb : Keyboard) (n : ℕ) (kb' : Keyboard) : Type 0 where
  pub top : kb'.top ≡ n
  pub words : kb'.keycode_stack ≡ kb.keycode_stack

kept : (kb : Keyboard) → StackAt kb kb.top kb
kept kb = record { top = refl; words = refl }

stacked_at :
    (kb : Keyboard) (n : ℕ) (kb' : Keyboard)
    → StackAt kb n kb'
    → stacked kb' ≡ words kb.keycode_stack n
stacked_at kb n kb' p = ap (λ f. words f kb'.top) p.words ∙ ap (words kb.keycode_stack) p.top

stacked_eq : (kb kb' : Keyboard) → StackAt kb kb.top kb' → stacked kb' ≡ stacked kb
stacked_eq kb kb' p = stacked_at kb kb.top kb' p

words-push : (f : ℕ → ℕ) (k n : ℕ) → words (update f (n + 1) k) (n + 1) ≡ k ∷ words f n
words-push f k n =
    let e : n + 1 ≡ suc n = omega arith in
    rw e (ap₂ (λ x xs. x ∷ xs) (ground arith) (words-update f (suc n) k n (omega arith)))

words-pop : (f : ℕ → ℕ) (k n : ℕ) → words (update f (n + 1) k) (n + 1 - 1) ≡ words f n
words-pop f k n =
    let e : n + 1 - 1 ≡ n = omega arith in rw e (words-update f (n + 1) k n (omega arith))

-- `scan_to_key` leaves the stack alone.
scan_to_key-StackAt : (kb : Keyboard) (c : ℕ) → StackAt kb kb.top (scan_to_key kb c).1
unfolding scan_to_key
scan_to_key-StackAt kb c =
    let P : (Option ℕ × Keyboard → Type 0) = λ r. StackAt kb kb.top r.1 in
    if_either P (ltb 1 kb.extended) (record { top = refl; words = refl })
      (if_either P (kb.extended == 0)
        (if_either P (c == 0xE1) (record { top = refl; words = refl })
          (if_either P (c == 0xE0) (record { top = refl; words = refl }) (kept kb)))
        (record { top = refl; words = refl }))

module _ {S : Type 0} (io : Machine S) where
  press-StackAt :
      (kb : Keyboard) (tty : Tty) (d : Ps2 S) (k u : ℕ)
      → StackAt kb kb.top (press io kb tty d k u).0
  unfolding press
  press-StackAt kb tty d k u =
      let P : (Console S → Type 0) = λ r. StackAt kb kb.top r.0 in
      if_either P (not (toggle_bit k == 0)) (record { top = refl; words = refl })
        (if_either P (not (u == 0)) (kept kb) (kept kb))

  pub keycode_round-StackAt :
      (kb : Keyboard) (tty : Tty) (d : Ps2 S)
      → StackAt kb (kb.top - 1) (keycode_round io kb tty d).0
  unfolding keycode_round
  keycode_round-StackAt kb tty d =
      let word = kb.keycode_stack kb.top in
      let kb' = record kb {
        top = kb.top - 1;
        press_keys = press_step kb.press_keys (not (word >>> 8 == 0)) (u8 word);
      } in
      let u = unicode_of kb.press_keys kb.toggle_keys (u8 word) in
      let p = press-StackAt kb' tty d (u8 word) u in
      if_either (λ (r : Console S). StackAt kb (kb.top - 1) r.0)
        (not (word >>> 8 == 0) || is_modifier (u8 word)) (record { top = refl; words = refl })
        (record { top = p.top; words = p.words })

  -- The same bits of the keys, and the same terminal and controller.
  abbrev pub SameKeys : Keyboard → Keyboard → Type 0
  SameKeys kb kb' = (kb.press_keys ≡ kb'.press_keys) × (kb.toggle_keys ≡ kb'.toggle_keys)

  abbrev pub SameConsole : Console S → Console S → Type 0
  SameConsole r r' = SameKeys r.0 r'.0 × (r.1 ≡ r'.1) × (r.2 ≡ r'.2)

  press-SameConsole :
      (kb kb' : Keyboard) (tty : Tty) (d : Ps2 S) (k u : ℕ)
      → SameKeys kb kb'
      → SameConsole (press io kb tty d k u) (press io kb' tty d k u)
  unfolding press
  press-SameConsole kb kb' tty d k u (e, e') =
      if_related SameConsole (not (toggle_bit k == 0))
        (
          (e, ap (λ t. bit_xor t (toggle_bit k)) e'),
          refl,
          ap (λ t. keyboard_update_leds io d (bit_xor t (toggle_bit k))) e',
        )
        (if_related SameConsole (not (u == 0)) ((e, e'), refl, refl) ((e, e'), refl, refl))

  -- A round handles the word at the top of the stack: it does what it would do with a stack that holds
  -- that word everywhere.
  abbrev pub only : ℕ → Keyboard → Keyboard
  only k kb = record kb { keycode_stack = λ _. k }

  keycode_round-only :
      (kb : Keyboard) (tty : Tty) (d : Ps2 S) (k : ℕ)
      → kb.keycode_stack kb.top ≡ k
      → SameConsole (keycode_round io kb tty d) (keycode_round io (only k kb) tty d)
  unfolding keycode_round
  keycode_round-only kb tty d k e =
      let p = press_step kb.press_keys (not (k >>> 8 == 0)) (u8 k) in
      let u = unicode_of kb.press_keys kb.toggle_keys (u8 k) in
      rw e (
        if_related SameConsole (not (k >>> 8 == 0) || is_modifier (u8 k)) ((refl, refl), refl, refl)
          (press-SameConsole (record kb { top = kb.top - 1; press_keys = p })
            (record (only k kb) { top = kb.top - 1; press_keys = p }) tty d (u8 k) u (refl, refl)))

  -- A scan code of a key, with a place left on the stack, puts its key in front of the keys that
  -- wait; the next round of keycode_handler takes it off, leaves the others, and does to the
  -- bits, the terminal and the controller what it does where the stack holds that key alone: the
  -- last key is handled first.
  pub ps2_key_handler-round :
      (kb : Keyboard) (c k : ℕ) (tty : Tty) (d : Ps2 S)
      → (scan_to_key kb c).0 ≡ some k
      → k ≢ no_key
      → kb.top < stack_size
      → (kb' : Keyboard) × (ps2_key_handler kb c ≡ some kb')
        × (stacked kb' ≡ k ∷ stacked kb)
        × (stacked (keycode_round io kb' tty d).0 ≡ stacked kb)
        × SameConsole (keycode_round io kb' tty d) (keycode_round io (only k kb') tty d)
  unfolding ps2_key_handler
  ps2_key_handler-round kb c k tty d e ne room =
      let kb₁ = (scan_to_key kb c).1 in
      let p = scan_to_key-StackAt kb c in
      let kb' = record kb₁ {
        top = kb₁.top + 1;
        keycode_stack = update kb₁.keycode_stack (kb₁.top + 1) k;
      } in
      let t1 : (k == no_key) ≡ false = ground arith in
      let t2 : leb stack_size kb₁.top ≡ false = ground (arith, p.top) in
      let q = keycode_round-StackAt kb' tty d in
      (
        kb',
        rw (ps2_key_handler, e, t1, t2) refl,
        words-push kb₁.keycode_stack k kb₁.top ∙ ap (λ ws. k ∷ ws) (stacked_eq kb kb₁ p),
        stacked_at kb' _ _ q ∙ words-pop kb₁.keycode_stack k kb₁.top ∙ stacked_eq kb kb₁ p,
        keycode_round-only kb' tty d k (ground arith),
      )

-- A scan code of a key, with sixteen or more keys on the stack, is written behind the stack.
pub ps2_key_handler-overflow :
    (kb : Keyboard) (c k : ℕ)
    → (scan_to_key kb c).0 ≡ some k
    → k ≢ no_key
    → stack_size ≤ kb.top
    → ps2_key_handler kb c ≡ none
unfolding ps2_key_handler
ps2_key_handler-overflow kb c k e ne full =
    let p = scan_to_key-StackAt kb c in
    let t1 : (k == no_key) ≡ false = ground arith in
    let t2 : leb stack_size (scan_to_key kb c).1.top ≡ true = ground (arith, p.top) in
    rw (ps2_key_handler, e, t1, t2) refl
