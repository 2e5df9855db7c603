-- ===== src/Prelude/Bits.antt =====
-- `&` and `|` as arithmetic: an operation on two words is the operation on their high parts and
-- on their low parts, at every place where the words are cut.
use Prim.Native.Nat.{ℕ, zero, suc, ◌+◌, ◌*◌, ◌/◌, ◌%◌, ◌-◌, ◌^◌, ◌≤◌, ◌<◌, min, max}
use Prim.Native.Nat.{bit_and, bit_or, digits, bit_and-bitwise, bit_or-bitwise}
use mathlib.Core.Path.{◌≡◌, refl, ap}
use native.Mathlib.Nat.{pow-suc}
use native.Mathlib.Omega.{arith}

-- The recursion on digits that the native operations stand for does not depend on its fuel.
module _ (z : ℕ → ℕ) (f : ℕ → ℕ → ℕ) where
  digits-fuel_irrel : (n m a b : ℕ) → a ≤ n → a ≤ m → digits z f n a b ≡ digits z f m a b
  digits-fuel_irrel zero zero a b p q = refl
  digits-fuel_irrel zero (suc m) zero b p q = refl
  digits-fuel_irrel zero (suc m) (suc a) b p q = absurd (omega arith)
  digits-fuel_irrel (suc n) zero zero b p q = refl
  digits-fuel_irrel (suc n) zero (suc a) b p q = absurd (omega arith)
  digits-fuel_irrel (suc n) (suc m) zero b p q = refl
  digits-fuel_irrel (suc n) (suc m) (suc a) b p q =
      rw (digits-fuel_irrel n m (suc a / 2) (b / 2) (omega arith) (omega arith))

  digits-suc :
      (a b : ℕ)
      → digits z f (suc a) (suc a) b
        ≡ digits z f (suc a / 2) (suc a / 2) (b / 2) * 2 + f (suc a % 2) (b % 2)
  digits-suc a b =
      omega (arith, digits-fuel_irrel a (suc a / 2) (suc a / 2) (b / 2) (omega arith) (omega arith))

bit_and_zero : (b : ℕ) → bit_and 0 b ≡ 0
bit_and_zero b = bit_and-bitwise 0 b

bit_or_zero : (b : ℕ) → bit_or 0 b ≡ b
bit_or_zero b = bit_or-bitwise 0 b

-- The lowest digit of the result.
bit_and_digit : (a b : ℕ) → bit_and a b ≡ bit_and (a / 2) (b / 2) * 2 + min (a % 2) (b % 2)
bit_and_digit zero b = omega (arith, bit_and_zero b, bit_and_zero (b / 2))
bit_and_digit (suc a) b = omega (
  arith,
  bit_and-bitwise (suc a) b,
  bit_and-bitwise (suc a / 2) (b / 2),
  digits-suc (λ y. 0) min a b,
)

bit_or_digit : (a b : ℕ) → bit_or a b ≡ bit_or (a / 2) (b / 2) * 2 + max (a % 2) (b % 2)
bit_or_digit zero b = omega (arith, bit_or_zero b, bit_or_zero (b / 2))
bit_or_digit (suc a) b = omega (
  arith,
  bit_or-bitwise (suc a) b,
  bit_or-bitwise (suc a / 2) (b / 2),
  digits-suc (λ y. y) max a b,
)

double-mul_pow : (q k : ℕ) → q * 2 ^ suc k ≡ 2 * (q * 2 ^ k)
double-mul_pow q k = omega (arith, ap (λ (t : ℕ). q * t) (pow-suc 2 k))

half_cut : (k q r : ℕ) → (q * 2 ^ suc k + r) / 2 ≡ q * 2 ^ k + r / 2
half_cut k q r = omega (arith, double-mul_pow q k)

odd_cut : (k q r : ℕ) → (q * 2 ^ suc k + r) % 2 ≡ r % 2
odd_cut k q r = omega (arith, double-mul_pow q k)

whole : (a p : ℕ) → a ≡ a / p * p + a % p
whole a p = omega arith

whole_cut : (q : ℕ) → q * 2 ^ 0 + 0 ≡ q
whole_cut q = omega arith

module _ (q m : ℕ) where
  bit_and_cut :
      (k r s : ℕ)
      → r < 2 ^ k
      → s < 2 ^ k
      → bit_and (q * 2 ^ k + r) (m * 2 ^ k + s) ≡ bit_and q m * 2 ^ k + bit_and r s
  bit_and_cut zero zero zero a b = ground (arith, whole_cut q, whole_cut m, bit_and_zero 0)
  bit_and_cut zero (suc r) s a b = absurd (omega arith)
  bit_and_cut zero zero (suc s) a b = absurd (omega arith)
  bit_and_cut (suc k) r s a b = ground (
    arith,
    bit_and_digit (q * 2 ^ suc k + r) (m * 2 ^ suc k + s),
    half_cut k q r,
    half_cut k m s,
    odd_cut k q r,
    odd_cut k m s,
    bit_and_cut k (r / 2) (s / 2) (omega (arith, pow-suc 2 k)) (omega (arith, pow-suc 2 k)),
    double-mul_pow (bit_and q m) k,
    bit_and_digit r s,
  )

  bit_or_cut :
      (k r s : ℕ)
      → r < 2 ^ k
      → s < 2 ^ k
      → bit_or (q * 2 ^ k + r) (m * 2 ^ k + s) ≡ bit_or q m * 2 ^ k + bit_or r s
  bit_or_cut zero zero zero a b = ground (arith, whole_cut q, whole_cut m, bit_or_zero 0)
  bit_or_cut zero (suc r) s a b = absurd (omega arith)
  bit_or_cut zero zero (suc s) a b = absurd (omega arith)
  bit_or_cut (suc k) r s a b = ground (
    arith,
    bit_or_digit (q * 2 ^ suc k + r) (m * 2 ^ suc k + s),
    half_cut k q r,
    half_cut k m s,
    odd_cut k q r,
    odd_cut k m s,
    bit_or_cut k (r / 2) (s / 2) (omega (arith, pow-suc 2 k)) (omega (arith, pow-suc 2 k)),
    double-mul_pow (bit_or q m) k,
    bit_or_digit r s,
  )

-- The same, of two words that are given whole.
module _ (k a b : ℕ) where
  pub bit_and_split :
      0 < 2 ^ k
      → bit_and a b ≡ bit_and (a / 2 ^ k) (b / 2 ^ k) * 2 ^ k + bit_and (a % 2 ^ k) (b % 2 ^ k)
  bit_and_split h = ground (
    arith,
    whole a (2 ^ k),
    whole b (2 ^ k),
    bit_and_cut (a / 2 ^ k) (b / 2 ^ k) k (a % 2 ^ k) (b % 2 ^ k),
  )

  pub bit_or_split :
      0 < 2 ^ k
      → bit_or a b ≡ bit_or (a / 2 ^ k) (b / 2 ^ k) * 2 ^ k + bit_or (a % 2 ^ k) (b % 2 ^ k)
  bit_or_split h = ground (
    arith,
    whole a (2 ^ k),
    whole b (2 ^ k),
    bit_or_cut (a / 2 ^ k) (b / 2 ^ k) k (a % 2 ^ k) (b % 2 ^ k),
  )

pub zero-bit_or : (a : ℕ) → bit_or 0 a ≡ a
zero-bit_or a = bit_or_zero a

pub zero-bit_and : (a : ℕ) → bit_and 0 a ≡ 0
zero-bit_and a = bit_and_zero a

bit_or-zero_fuel : (n a : ℕ) → a ≤ n → bit_or a 0 ≡ a
bit_or-zero_fuel n zero h = bit_or_zero 0
bit_or-zero_fuel zero (suc a) h = absurd (omega arith)
bit_or-zero_fuel (suc n) (suc a) h =
    omega (arith, bit_or_digit (suc a) 0, bit_or-zero_fuel n (suc a / 2) (omega arith))

pub bit_or-zero : (a : ℕ) → bit_or a 0 ≡ a
bit_or-zero a = bit_or-zero_fuel a a (omega arith)

bit_and-zero_fuel : (n a : ℕ) → a ≤ n → bit_and a 0 ≡ 0
bit_and-zero_fuel n zero h = bit_and_zero 0
bit_and-zero_fuel zero (suc a) h = absurd (omega arith)
bit_and-zero_fuel (suc n) (suc a) h =
    omega (arith, bit_and_digit (suc a) 0, bit_and-zero_fuel n (suc a / 2) (omega arith))

pub bit_and-zero : (a : ℕ) → bit_and a 0 ≡ 0
bit_and-zero a = bit_and-zero_fuel a a (omega arith)

bit_and-ones_self : (k r : ℕ) → r < 2 ^ k → bit_and r (2 ^ k - 1) ≡ r
bit_and-ones_self zero zero h = bit_and_zero 0
bit_and-ones_self zero (suc r) h = absurd (omega arith)
bit_and-ones_self (suc k) r h = ground (
  arith,
  pow-suc 2 k,
  bit_and_digit r (2 ^ suc k - 1),
  bit_and-ones_self k (r / 2) (omega (arith, pow-suc 2 k)),
)

-- A mask of `k` low ones is the remainder by `2 ^ k`.
pub bit_and-ones : (k a : ℕ) → 0 < 2 ^ k → bit_and a (2 ^ k - 1) ≡ a % 2 ^ k
bit_and-ones k a h = ground (
  arith,
  whole a (2 ^ k),
  bit_and_cut (a / 2 ^ k) 0 k (a % 2 ^ k) (2 ^ k - 1),
  bit_and-zero (a / 2 ^ k),
  bit_and-ones_self k (a % 2 ^ k) (omega arith),
)

-- `(q << k) | r` is a sum when `r` fits in `k` bits.
pub bit_or-fields : (k q r : ℕ) → r < 2 ^ k → bit_or (q * 2 ^ k) r ≡ q * 2 ^ k + r
bit_or-fields k q r h = ground (arith, bit_or_cut q 0 k 0 r, bit_or-zero q, zero-bit_or r)

-- A mask of `w - k` ones above `k` zeros rounds a `w`-bit word down to a multiple of `2 ^ k`.
pub bit_and-high :
    (w k a : ℕ)
    → 0 < 2 ^ k
    → a / 2 ^ k < 2 ^ w
    → bit_and a ((2 ^ w - 1) * 2 ^ k) ≡ a / 2 ^ k * 2 ^ k
bit_and-high w k a p h = ground (
  arith,
  whole a (2 ^ k),
  bit_and_cut (a / 2 ^ k) (2 ^ w - 1) k (a % 2 ^ k) 0,
  bit_and-zero (a % 2 ^ k),
  bit_and-ones_self w (a / 2 ^ k) h,
)
