-- ===== src/Keyboard/Held.antt =====
-- The loop of `keycode_handler` in kernel/arch/i386/keyboard.c: it ends, and the bits of
-- `press_keys` are then those of the keys that are held.
use r_oses.Prelude.{
  ℕ, zero, suc, ◌-◌, ◌<◌, ◌≡◌, refl, ap, ◌∙◌, arith, Bool, true, false, ◌||◌, not, some, List, ◌∷◌,
  ◌==◌, u8, ◌>>>◌,
}
use r_oses.Prelude.Checks.{if_either}
use r_oses.Isr.{Machine}
use r_oses.Tty.{Tty}
use r_oses.Ps2.{Ps2}
use r_oses.Keyboard.{
  Keyboard, Console, has, toggle_bit, press, is_modifier, keycode_round, keycode_handler,
  unicode_of, press_step,
}
use r_oses.Keyboard.Modifiers.{mask, modifier, press_after, is_held, press_after-is_held}
use r_oses.Keyboard.Order.{keycode_round-StackAt}

-- A word of the stack as an event: whether the key was released, and its code.
abbrev pub event : ℕ → Bool × ℕ
event word = (not (word >>> 8 == 0), u8 word)

-- The events of the `n` words up to the top, handled after `es`; the last one is the first.
abbrev pub events : (ℕ → ℕ) → ℕ → List (Bool × ℕ) → List (Bool × ℕ)
events f zero es = es
events f (suc n) es = events f n (event (f (suc n)) ∷ es)

module _ {S : Type 0} (io : Machine S) where
  press-press_keys :
      (kb : Keyboard) (tty : Tty) (d : Ps2 S) (k u : ℕ)
      → (press io kb tty d k u).0.press_keys ≡ kb.press_keys
  unfolding press
  press-press_keys kb tty d k u =
      let P : (Console S → Type 0) = λ r. r.0.press_keys ≡ kb.press_keys in
      if_either P (not (toggle_bit k == 0)) refl (if_either P (not (u == 0)) refl refl)

  keycode_round-press_keys :
      (kb : Keyboard) (tty : Tty) (d : Ps2 S) (es : List (Bool × ℕ))
      → kb.press_keys ≡ press_after es
      → (keycode_round io kb tty d).0.press_keys
        ≡ press_after (event (kb.keycode_stack kb.top) ∷ es)
  unfolding keycode_round
  keycode_round-press_keys kb tty d es e =
      let word = kb.keycode_stack kb.top in
      let p = press_step kb.press_keys (not (word >>> 8 == 0)) (u8 word) in
      let kb' = record kb { top = kb.top - 1; press_keys = p } in
      let u = unicode_of kb.press_keys kb.toggle_keys (u8 word) in
      if_either (λ (r : Console S). r.0.press_keys ≡ p)
        (not (word >>> 8 == 0) || is_modifier (u8 word)) refl
        (press-press_keys kb' tty d (u8 word) u)
      ∙ ap (λ q. press_step q (not (word >>> 8 == 0)) (u8 word)) e

  -- What the loop comes to.
  pub Handled : (fuel : ℕ) → Keyboard → Tty → Ps2 S → List (Bool × ℕ) → Type 0
  Handled fuel kb tty d es =
      (c : Console S) × (keycode_handler io fuel kb tty d ≡ some c)
      × (c.0.top ≡ 0)
      × ((j : ℕ) → j < 6 → has c.0.press_keys (mask j) ≡ is_held es (modifier j))

  handled :
      (fuel n : ℕ) (kb : Keyboard) (tty : Tty) (d : Ps2 S) (es : List (Bool × ℕ))
      → kb.top ≡ n
      → n < fuel
      → kb.press_keys ≡ press_after es
      → Handled fuel kb tty d (events kb.keycode_stack n es)
  unfolding keycode_handler Handled
  handled zero n kb tty d es t h e = absurd (omega arith)
  handled (suc fuel) zero kb tty d es t h e =
      let test : (kb.top == 0) ≡ true = ground arith in
      (
        (kb, tty, d),
        rw test refl,
        t,
        λ j lt. ap (λ p. has p (mask j)) e ∙ press_after-is_held es j lt,
      )
  handled (suc fuel) (suc n) kb tty d es t h e =
      let test : (kb.top == 0) ≡ false = ground arith in
      let (kb', tty', d') = keycode_round io kb tty d in
      let p = keycode_round-StackAt io kb tty d in
      let q = keycode_round-press_keys kb tty d es e in
      let (c, run, empty, held) =
        handled fuel n kb' tty' d' (event (kb.keycode_stack (suc n)) ∷ es) (omega (arith, p.top))
          (omega arith) (q ∙ ap (λ k. press_after (event (kb.keycode_stack k) ∷ es)) t) in
      (
        c,
        rw test run,
        empty,
        λ j lt.
            held j lt
            ∙ ap (λ f. is_held (events f n (event (kb.keycode_stack (suc n)) ∷ es)) (modifier j))
                p.words,
      )

  -- With fuel for more than the keys on the stack, and bits of the pressed keys that agree with
  -- earlier events, the loop of keycode_handler empties the stack, from the top down, and the
  -- bit of each of the six modifier keys then says whether the event of that key that was
  -- handled last was a press, which of those on the stack is the lowest.
  pub keycode_handler-Handled :
      (fuel : ℕ) (kb : Keyboard) (tty : Tty) (d : Ps2 S) (es : List (Bool × ℕ))
      → kb.top < fuel
      → kb.press_keys ≡ press_after es
      → Handled fuel kb tty d (events kb.keycode_stack kb.top es)
  keycode_handler-Handled fuel kb tty d es h e = handled fuel kb.top kb tty d es refl h e
