-- ===== src/Prelude/Checks.antt =====
-- A test that is run at all numbers below a bound.
use Prim.Native.Nat.{ℕ, zero, suc, ◌<◌}
use mathlib.Core.Path.{◌≡◌, ◌∙◌, ap}
use mathlib.Core.Bool.{Bool, true, false, ◌&&◌}
use native.Mathlib.Omega.{arith}
use native.Mathlib.Decide.{ℕ_discrete}
use r_oses.Prelude.Tests.{if◌then◌else◌}

abbrev pub all_below : (ℕ → Bool) → ℕ → Bool
all_below f zero = true
all_below f (suc n) = f n && all_below f n

both : (a b : Bool) → (a && b) ≡ true → (a ≡ true) × (b ≡ true)
both true true e = (e, e)
both true false e = absurd cc
both false b e = absurd cc

pub all_below-at : (f : ℕ → Bool) (n i : ℕ) → all_below f n ≡ true → i < n → f i ≡ true
all_below-at f zero i e h = absurd (omega arith)
all_below-at f (suc n) i e h =
    let (e1, e2) = both (f n) (all_below f n) e in
    elim (ℕ_discrete i n) [ yes q ↦ ap f q ∙ e1 | no ne ↦ all_below-at f n i e2 (omega arith) ]

-- What holds of both branches holds of the conditional.
pub if_either {ℓ} :
    {A : Type ℓ} (P : A → Type 0) (b : Bool) {x y : A} → P x → P y → P (if b then x else y)
if_either P true p q = p
if_either P false p q = q

-- And of two conditionals with the same test.
pub if_related {ℓ} :
    {A : Type ℓ} (R : A → A → Type 0) (b : Bool) {x x' y y' : A}
    → R x x'
    → R y y'
    → R (if b then x else y) (if b then x' else y')
if_related R true p q = p
if_related R false p q = q
