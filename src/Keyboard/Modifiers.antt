-- ===== src/Keyboard/Modifiers.antt =====
-- The bits of `press_keys` in kernel/arch/i386/keyboard.c against the keys that are held.
use r_oses.Prelude.{
  ℕ, zero, suc, ◌+◌, ◌^◌, ◌≤◌, ◌<◌, ◌≡◌, ◌≢◌, refl, ap, sym, ◌∙◌, arith, ◌⊎◌, inl, inr, Bool, true,
  false, ◌&&◌, ◌||◌, not, List, [], ◌∷◌, get_or, ltb, ◌==◌, if◌then◌else◌, bit_or, ℕ_discrete,
}
use r_oses.Prelude.Bits.{zero-bit_and}
use r_oses.Prelude.Checks.{all_below, all_below-at}
use r_oses.Keyboard.{has, clear, released_keys, pressed_keys, press_step}

-- The six modifier keys, in the order of their bits.
abbrev pub modifier : ℕ → ℕ
modifier i = get_or (0xA0 ∷ 0xA3 ∷ 0x80 ∷ 0xA6 ∷ 0xA5 ∷ 0x8B ∷ []) i 0

abbrev pub mask : ℕ → ℕ
mask i = 2 ^ (i + 1)

abbrev pub same : Bool → Bool → Bool
same true b = b
same false b = not b

same_eq : (a b : Bool) → same a b ≡ true → a ≡ b
same_eq true b e = sym e
same_eq false true e = absurd cc
same_eq false false e = refl

-- What a key does to the bits, tried on all values of `press_keys` and all pairs of bits.
abbrev set_test : (p i j : ℕ) → Bool
set_test p i j =
    ltb (bit_or p (mask i)) 128
    && same (has (bit_or p (mask i)) (mask j)) ((i == j) || has p (mask j))

abbrev clear_test : (p i j : ℕ) → Bool
clear_test p i j =
    ltb (clear p (mask i)) 128
    && same (has (clear p (mask i)) (mask j)) (not (i == j) && has p (mask j))

set_check : all_below (λ p. all_below (λ i. all_below (set_test p i) 6) 6) 128 ≡ true
set_check = refl

clear_check : all_below (λ p. all_below (λ i. all_below (clear_test p i) 6) 6) 128 ≡ true
clear_check = refl

both : (a b : Bool) → (a && b) ≡ true → (a ≡ true) × (b ≡ true)
both true true e = (e, e)
both true false e = absurd cc
both false b e = absurd cc

at_three :
    (f : ℕ → ℕ → ℕ → Bool)
    → all_below (λ p. all_below (λ i. all_below (f p i) 6) 6) 128 ≡ true
    → (p i j : ℕ) → p < 128
    → i < 6
    → j < 6
    → f p i j ≡ true
at_three f e p i j hp hi hj =
    all_below-at (f p i) 6 j
      (all_below-at (λ i. all_below (f p i) 6) 6 i
        (all_below-at (λ p. all_below (λ i. all_below (f p i) 6) 6) 128 p e hp) hi)
      hj

set_lem :
    (p i j : ℕ)
    → p < 128
    → i < 6
    → j < 6
    → (bit_or p (mask i) < 128) × (has (bit_or p (mask i)) (mask j) ≡ ((i == j) || has p (mask j)))
set_lem p i j hp hi hj =
    let (lt, e) =
      both (ltb (bit_or p (mask i)) 128) _ (at_three set_test set_check p i j hp hi hj) in
    (ground (arith, lt), same_eq _ _ e)

clear_lem :
    (p i j : ℕ)
    → p < 128
    → i < 6
    → j < 6
    → (clear p (mask i) < 128)
      × (has (clear p (mask i)) (mask j) ≡ (not (i == j) && has p (mask j)))
clear_lem p i j hp hi hj =
    let (lt, e) =
      both (ltb (clear p (mask i)) 128) _ (at_three clear_test clear_check p i j hp hi hj) in
    (ground (arith, lt), same_eq _ _ e)

pressed-modifier : (p i : ℕ) → i < 6 → pressed_keys p (modifier i) ≡ bit_or p (mask i)
unfolding pressed_keys
pressed-modifier p zero h = refl
pressed-modifier p (suc zero) h = refl
pressed-modifier p (suc (suc zero)) h = refl
pressed-modifier p (suc (suc (suc zero))) h = refl
pressed-modifier p (suc (suc (suc (suc zero)))) h = refl
pressed-modifier p (suc (suc (suc (suc (suc zero))))) h = refl
pressed-modifier p (suc (suc (suc (suc (suc (suc n)))))) h = absurd (omega arith)

released-modifier : (p i : ℕ) → i < 6 → released_keys p (modifier i) ≡ clear p (mask i)
unfolding released_keys
released-modifier p zero h = refl
released-modifier p (suc zero) h = refl
released-modifier p (suc (suc zero)) h = refl
released-modifier p (suc (suc (suc zero))) h = refl
released-modifier p (suc (suc (suc (suc zero)))) h = refl
released-modifier p (suc (suc (suc (suc (suc zero))))) h = refl
released-modifier p (suc (suc (suc (suc (suc (suc n)))))) h = absurd (omega arith)

-- A key is one of the six, or none of them.
which : (k : ℕ) → ((i : ℕ) × (i < 6) × (k ≡ modifier i)) ⊎ ((i : ℕ) → i < 6 → k ≢ modifier i)
which k = go 6 (omega arith)
  where
    below :
        (n : ℕ)
        → k ≢ modifier n
        → ((i : ℕ) → i < n → k ≢ modifier i)
        → (i : ℕ) → i < suc n
        → k ≢ modifier i
    below n ne rest i lt e = elim (ℕ_discrete i n) [
      | yes q ↦ ne (e ∙ ap modifier q)
      | no nq ↦ rest i (omega arith) e
    ]

    go :
        (n : ℕ)
        → n ≤ 6
        → ((i : ℕ) × (i < 6) × (k ≡ modifier i)) ⊎ ((i : ℕ) → i < n → k ≢ modifier i)
    go zero h = inr (λ i lt. absurd (omega arith))
    go (suc n) h = elim (ℕ_discrete k (modifier n)) [
      | yes e ↦ inl (n, omega arith, e)
      | no ne ↦ elim (go n (omega arith)) [
        | inl found ↦ inl found
        | inr none_below ↦ inr (below n ne none_below)
      ]
    ]

other_key :
    (p k : ℕ)
    → ((i : ℕ) → i < 6 → k ≢ modifier i)
    → (pressed_keys p k ≡ p) × (released_keys p k ≡ p)
unfolding pressed_keys released_keys
other_key p k h =
    let n0 : (k ≢ 0xA0) = h 0 (omega arith) in
    let n1 : (k ≢ 0xA3) = h 1 (omega arith) in
    let n2 : (k ≢ 0x80) = h 2 (omega arith) in
    let n3 : (k ≢ 0xA6) = h 3 (omega arith) in
    let n4 : (k ≢ 0xA5) = h 4 (omega arith) in
    let n5 : (k ≢ 0x8B) = h 5 (omega arith) in (ground arith, ground arith)

-- The value of `press_keys` after keys, the last of them first, each with whether it was released.
abbrev pub press_after : List (Bool × ℕ) → ℕ
press_after [] = 0
press_after ((released, k) ∷ es) = press_step (press_after es) released k

-- Whether the last event of the key was a press.
abbrev pub is_held : List (Bool × ℕ) → ℕ → Bool
is_held [] k = false
is_held ((released, k') ∷ es) k = if k' == k then not released else is_held es k

distinct_check :
    all_below (λ i. all_below (λ j. same (modifier i == modifier j) (i == j)) 6) 6 ≡ true
distinct_check = refl

distinct : (i j : ℕ) → i < 6 → j < 6 → (modifier i == modifier j) ≡ (i == j)
distinct i j hi hj = same_eq _ _ (
    all_below-at (λ j. same (modifier i == modifier j) (i == j)) 6 j
      (all_below-at (λ i. all_below (λ j. same (modifier i == modifier j) (i == j)) 6) 6 i
        distinct_check hi)
      hj)

set_if : (b x : Bool) → (b || x) ≡ (if b then true else x)
set_if true x = refl
set_if false x = refl

clear_if : (b x : Bool) → (not b && x) ≡ (if b then false else x)
clear_if true x = refl
clear_if false x = refl

-- A modifier key moves, or another key.
modifier_step :
    (p : ℕ) (released : Bool) (i j : ℕ)
    → p < 128
    → i < 6
    → j < 6
    → (press_step p released (modifier i) < 128)
      × (has (press_step p released (modifier i)) (mask j)
          ≡ (if modifier i == modifier j then not released else has p (mask j)))
modifier_step p true i j hp hi hj =
    let (lt, e) = clear_lem p i j hp hi hj in
    rw (released-modifier p i hi, distinct i j hi hj) (lt, e ∙ clear_if (i == j) (has p (mask j)))
modifier_step p false i j hp hi hj =
    let (lt, e) = set_lem p i j hp hi hj in
    rw (pressed-modifier p i hi, distinct i j hi hj) (lt, e ∙ set_if (i == j) (has p (mask j)))

same_step :
    (p : ℕ) (released : Bool) (k : ℕ)
    → ((i : ℕ) → i < 6 → k ≢ modifier i)
    → press_step p released k ≡ p
same_step p true k h = (other_key p k h).1
same_step p false k h = (other_key p k h).0

step_lem :
    (p : ℕ) (released : Bool) (k j : ℕ)
    → p < 128
    → j < 6
    → (press_step p released k < 128)
      × (has (press_step p released k) (mask j)
          ≡ (if k == modifier j then not released else has p (mask j)))
step_lem p released k j hp hj = elim (which k) [
  | inr other ↦
      let ne = other j hj in
      let test : (k == modifier j) ≡ false = ground arith in
      rw (same_step p released k other, test) (hp, refl)
  | inl (i, hi, e) ↦ rw e (modifier_step p released i j hp hi hj)
]

press_after_small : (es : List (Bool × ℕ)) → press_after es < 128
press_after_small [] = omega arith
press_after_small ((released, k) ∷ es) =
    (step_lem (press_after es) released k 0 (press_after_small es) (omega arith)).0

pub press_after-is_held :
    (es : List (Bool × ℕ)) (j : ℕ) → j < 6 → has (press_after es) (mask j) ≡ is_held es (modifier j)
press_after-is_held [] j h = rw (zero-bit_and (mask j)) refl
press_after-is_held ((released, k) ∷ es) j h =
    (step_lem (press_after es) released k j (press_after_small es) h).1
    ∙ ap (λ b. if k == modifier j then not released else b) (press_after-is_held es j h)
