-- ===== src/Prelude/Slots.antt =====
-- An array of structs as a function from the slot's number: a write, the `memmove` that closes the
-- gap of a removed slot, and sums over the slots in use.
use Prim.Native.Nat.{ℕ, zero, suc, ◌+◌, ◌-◌, ◌≤◌, ◌<◌}
use mathlib.Core.Path.{◌≡◌, refl, ap}
use mathlib.Core.Bool.{◌&&◌}
use native.Mathlib.Omega.{arith}
use native.Mathlib.Decide.{ℕ_discrete}
use r_oses.Prelude.Tests.{leb, ltb, ◌==◌, if◌then◌else◌}

pred_suc : (n : ℕ) → suc n - 1 ≡ n
pred_suc n = omega arith

pred_add_one : (n : ℕ) → n + 1 - 1 ≡ n
pred_add_one n = omega arith

module _ {ℓ} {A : Type ℓ} where
  -- `slots[i] = v`.
  abbrev pub update : (ℕ → A) → ℕ → A → ℕ → A
  update f i v j = if j == i then v else f j

  -- `memmove(slots + b, slots + b + 1, n * sizeof *slots)`.
  abbrev pub move_down : (ℕ → A) → ℕ → ℕ → ℕ → A
  move_down f b n j = if leb b j && ltb j (b + n) then f (j + 1) else f j

  -- The sum of `g` over the slots 1 to n.
  abbrev pub sum_to : (A → ℕ) → (ℕ → A) → ℕ → ℕ
  sum_to g f zero = 0
  sum_to g f (suc n) = sum_to g f n + g (f (suc n))

  module _ (g : A → ℕ) where
    pub sum_to_agree :
        (f h : ℕ → A) (n : ℕ) → ((j : ℕ) → 1 ≤ j → j ≤ n → f j ≡ h j) → sum_to g f n ≡ sum_to g h n
    sum_to_agree f h zero same = refl
    sum_to_agree f h (suc n) same =
        ground (arith, same (suc n), sum_to_agree f h n (λ j lo hi. same j lo (omega arith)))

    -- A write changes the sum by the difference of the two values.
    pub sum_to-update :
        (f : ℕ → A) (i : ℕ) (v : A) (n : ℕ)
        → 1 ≤ i
        → i ≤ n
        → sum_to g (update f i v) n + g (f i) ≡ sum_to g f n + g v
    sum_to-update f i v zero lo hi = absurd (omega arith)
    sum_to-update f i v (suc n) lo hi = elim (ℕ_discrete i (suc n)) [
      | yes e ↦ ground (arith, sum_to_agree (update f i v) f n (λ j a b. ground arith))
      | no ne ↦ ground (arith, sum_to-update f i v n lo (omega arith))
    ]

    pub sum_to-update_above :
        (f : ℕ → A) (i : ℕ) (v : A) (n : ℕ) → n < i → sum_to g (update f i v) n ≡ sum_to g f n
    sum_to-update_above f i v n h = sum_to_agree (update f i v) f n (λ j a b. ground arith)

    same_slot : (f : ℕ → A) (i k : ℕ) → i ≡ k → g (f i) ≡ g (f k)
    same_slot f i k e = ap (λ j. g (f j)) e

    -- Closing the gap at `b` takes the slot's value out of the sum.
    pub sum_to-move_down :
        (f : ℕ → A) (b n : ℕ)
        → 1 ≤ b
        → b ≤ suc n
        → sum_to g (move_down f b (suc n - b)) n + g (f b) ≡ sum_to g f (suc n)
    sum_to-move_down f b zero lo hi = ground (arith, same_slot f b 1)
    sum_to-move_down f b (suc m) lo hi = elim (ℕ_discrete b (suc (suc m))) [
      | yes e ↦ ground (
        arith,
        same_slot f b (suc (suc m)),
        sum_to_agree (move_down f b (suc (suc m) - b)) f (suc m) (λ j a c. ground arith),
      )
      | no ne ↦ ground (
        arith,
        sum_to-move_down f b m lo (omega arith),
        sum_to_agree (move_down f b (suc (suc m) - b)) (move_down f b (suc m - b)) m
            (λ j a c. ground arith),
        same_slot f (suc m + 1) (suc (suc m)) (omega arith),
      )
    ]

    pub sum_to_pred : (f : ℕ → A) (n : ℕ) → 1 ≤ n → sum_to g f n ≡ sum_to g f (n - 1) + g (f n)
    sum_to_pred f zero h = absurd (omega arith)
    sum_to_pred f (suc n) h = ground (arith, ap (sum_to g f) (pred_suc n))

    -- What the last slot holds goes out of the sum with it.
    pub sum_to-pop :
        (f : ℕ → A) (v : A) (n : ℕ)
        → 1 ≤ n
        → sum_to g (update f n v) (n - 1) + g (f n) ≡ sum_to g f n
    sum_to-pop f v n h =
        omega (arith, sum_to_pred f n h, sum_to-update_above f n v (n - 1) (omega arith))

    pub sum_to-push :
        (f : ℕ → A) (v : A) (n : ℕ) → sum_to g (update f (n + 1) v) (n + 1) ≡ sum_to g f n + g v
    sum_to-push f v n = ground (
      arith,
      sum_to_pred (update f (n + 1) v) (n + 1) (omega arith),
      sum_to-update_above f (n + 1) v n (omega arith),
      ap (sum_to g (update f (n + 1) v)) (pred_add_one n),
    )

    pub sum_to-remove :
        (f : ℕ → A) (b n : ℕ)
        → 1 ≤ b
        → b ≤ n
        → sum_to g (move_down f b (n - b)) (n - 1) + g (f b) ≡ sum_to g f n
    sum_to-remove f b zero lo hi = absurd (omega arith)
    sum_to-remove f b (suc n) lo hi = ground (
      arith,
      sum_to-move_down f b n lo hi,
      ap (sum_to g (move_down f b (suc n - b))) (pred_suc n),
    )
