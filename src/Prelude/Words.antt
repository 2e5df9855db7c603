-- ===== src/Prelude/Words.antt =====
-- Machine words as native numbers: what wraps in C wraps here by `%`.
use Prim.Native.Nat.{ℕ, ◌+◌, ◌-◌, ◌*◌, ◌/◌, ◌%◌, ◌^◌}

-- (uint8_t)x, (uint16_t)x and (uint32_t)x.
abbrev pub u8 : ℕ → ℕ
u8 x = x % 256

abbrev pub u16 : ℕ → ℕ
u16 x = x % 65536

abbrev pub u32 : ℕ → ℕ
u32 x = x % 4294967296

-- uint32_t a + b, a - b and a * b.
abbrev pub add32 : ℕ → ℕ → ℕ
add32 a b = (a + b) % 4294967296

abbrev pub sub32 : ℕ → ℕ → ℕ
sub32 a b = (a % 4294967296 + 4294967296 - b % 4294967296) % 4294967296

abbrev pub mul32 : ℕ → ℕ → ℕ
mul32 a b = a * b % 4294967296

-- x << k and x >> k, before a cast.
infixl 60 ◌<<<◌ ◌>>>◌
abbrev pub ◌<<<◌ : ℕ → ℕ → ℕ
x <<< k = x * 2 ^ k

abbrev pub ◌>>>◌ : ℕ → ℕ → ℕ
x >>> k = x / 2 ^ k
