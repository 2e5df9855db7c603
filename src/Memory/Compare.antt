-- ===== src/Memory/Compare.antt =====
-- `memcmp` and `strlen`.
use r_oses.Prelude.{
  ℕ, zero, suc, ◌+◌, ◌≤◌, ◌<◌, ◌≡◌, ◌≢◌, arith, lt→ltb, nlt→ltb, dec_lt, ℕ_discrete, some,
}
use r_oses.Memory.{Bytes, Sign, minus_one, null, one, compare_from, memcmp, length_from, strlen}

-- The bytes of the two blocks are the same from `i` up to `n`.
abbrev pub Same : Bytes → (a b i n : ℕ) → Type 0
Same mem a b i n = (j : ℕ) → i ≤ j → j < n → mem (a + j) ≡ mem (b + j)

-- At the first place where two blocks differ the bytes stand in the order that the sign tells.
pub data Differs (mem : Bytes) (a b i n : ℕ) : Sign → Type 0 where
  same : Same mem a b i n → Differs mem a b i n null
  below :
      (j : ℕ)
      → i ≤ j
      → j < n
      → Same mem a b i j
      → mem (a + j) < mem (b + j)
      → Differs mem a b i n minus_one
  above :
      (j : ℕ)
      → i ≤ j
      → j < n
      → Same mem a b i j
      → mem (b + j) < mem (a + j)
      → Differs mem a b i n one

Same-extend :
    (mem : Bytes) (a b i n : ℕ)
    → mem (a + i) ≡ mem (b + i)
    → Same mem a b (suc i) n
    → Same mem a b i n
Same-extend mem a b i n e s j lo hi = elim (ℕ_discrete j i) [
  | yes at ↦ ground arith
  | no ne ↦ s j (omega arith) hi
]

Differs-extend :
    (mem : Bytes) (a b i n : ℕ) (r : Sign)
    → mem (a + i) ≡ mem (b + i)
    → Differs mem a b (suc i) n r
    → Differs mem a b i n r
Differs-extend mem a b i n _ e (same s) = same (Same-extend mem a b i n e s)
Differs-extend mem a b i n _ e (below j lo hi s lt) =
    below j (omega arith) hi (Same-extend mem a b i j e s) lt
Differs-extend mem a b i n _ e (above j lo hi s lt) =
    above j (omega arith) hi (Same-extend mem a b i j e s) lt

compare_from-Differs :
    (rounds i a b n : ℕ) (mem : Bytes)
    → i + rounds ≡ n
    → Differs mem a b i n (compare_from rounds i a b mem)
unfolding compare_from
compare_from-Differs zero i a b n mem e = same (λ j lo hi. absurd (omega arith))
compare_from-Differs (suc rounds) i a b n mem e = elim (dec_lt (mem (a + i)) (mem (b + i))) [
  | yes lt ↦
      rw (lt→ltb _ _ lt) (below i (omega arith) (omega arith) (λ j lo hi. absurd (omega arith)) lt)
  | no ge ↦ elim (dec_lt (mem (b + i)) (mem (a + i))) [
    | yes gt ↦
        rw (nlt→ltb _ _ ge, lt→ltb _ _ gt)
          (above i (omega arith) (omega arith) (λ j lo hi. absurd (omega arith)) gt)
    | no le ↦
        rw (nlt→ltb _ _ ge, nlt→ltb _ _ le)
          (Differs-extend mem a b i n _ (omega arith)
            (compare_from-Differs rounds (suc i) a b n mem (omega arith)))
  ]
]

-- memcmp tells the order of two blocks by the first bytes in which they differ, and 0 only where
-- they are the same.
pub memcmp-Differs : (mem : Bytes) (a b n : ℕ) → Differs mem a b 0 n (memcmp mem a b n)
unfolding memcmp
memcmp-Differs mem a b n = compare_from-Differs n 0 a b n mem (omega arith)

-- The string at `str` has its first 0 at `n`.
pub record IsString (mem : Bytes) (str n : ℕ) : Type 0 where
  pub end : mem (str + n) ≡ 0
  pub inside : (j : ℕ) → j < n → mem (str + j) ≢ 0

length_from_lem :
    (fuel len str n : ℕ) (mem : Bytes)
    → IsString mem str n
    → len ≤ n
    → n < len + fuel
    → length_from fuel len str mem ≡ some n
unfolding length_from
length_from_lem zero len str n mem s le lt = absurd (omega arith)
length_from_lem (suc fuel) len str n mem s le lt = elim (ℕ_discrete len n) [
  | yes at ↦ ground (arith, s.end)
  | no ne ↦ ground (
    arith,
    s.inside len (omega arith),
    length_from_lem fuel (len + 1) str n mem s (omega arith) (omega arith),
  )
]

-- On a string whose first 0 is at n, strlen with fuel for more than n bytes ends and returns n.
pub strlen_lem :
    (fuel str n : ℕ) (mem : Bytes) → IsString mem str n → n < fuel → strlen fuel mem str ≡ some n
unfolding strlen
strlen_lem fuel str n mem s h = length_from_lem fuel 0 str n mem s (omega arith) (omega arith)
