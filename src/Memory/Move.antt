-- ===== src/Memory/Move.antt =====
-- `memmove`, `memcpy` and `memset`: what each byte is afterwards.
use r_oses.Prelude.{
  ℕ, zero, suc, ◌+◌, ◌-◌, ◌%◌, ◌≤◌, ◌<◌, ◌≡◌, ◌⊎◌, inl, arith, ltb, leb, ◌&&◌, if◌then◌else◌,
  dec_lt, u8,
}
use r_oses.Prelude.Slots.{update}
use r_oses.Memory.{Bytes, copy_up, copy_down, memcpy, memmove, memset, set_from}

-- The byte at `a` when the `n` bytes from `src` on have been copied to `dst`.
abbrev pub copied : Bytes → (dst src n a : ℕ) → ℕ
copied mem dst src n a = if leb dst a && ltb a (dst + n) then mem (src + (a - dst)) else mem a

-- Upwards, no byte is read after it was written if the target begins in front of the source, or
-- behind its end.
copy_up_lem :
    (n i dst src : ℕ) (mem : Bytes) (a : ℕ)
    → (dst < src) ⊎ (src + (i + n) ≤ dst)
    → copy_up n i dst src mem a
      ≡ (if leb (dst + i) a && ltb a (dst + (i + n)) then mem (src + (a - dst)) else mem a)
unfolding copy_up
copy_up_lem zero i dst src mem a h = ground arith
copy_up_lem (suc n) i dst src mem a h =
    ground
      (arith, copy_up_lem n (suc i) dst src (update mem (dst + i) (mem (src + i))) a (ground arith))

copy_down_lem :
    (i dst src : ℕ) (mem : Bytes) (a : ℕ)
    → src ≤ dst
    → copy_down i dst src mem a ≡ copied mem dst src i a
unfolding copy_down
copy_down_lem zero dst src mem a h = ground arith
copy_down_lem (suc i) dst src mem a h =
    ground (arith, copy_down_lem i dst src (update mem (dst + i) (mem (src + i))) a h)

-- memmove copies as if through a second buffer, also where the two blocks overlap, and writes
-- nowhere else.
pub memmove-copied :
    (mem : Bytes) (dst src n a : ℕ) → memmove mem dst src n a ≡ copied mem dst src n a
unfolding memmove
memmove-copied mem dst src n a = elim (dec_lt dst src) [
  | yes h ↦ ground (arith, copy_up_lem n 0 dst src mem a (inl h))
  | no h ↦ ground (arith, copy_down_lem n dst src mem a (omega arith))
]

-- memcpy copies as if through a second buffer where the target begins in front of the source or
-- behind its end.
pub memcpy-copied :
    (mem : Bytes) (dst src n a : ℕ)
    → (dst < src) ⊎ (src + n ≤ dst)
    → memcpy mem dst src n a ≡ copied mem dst src n a
unfolding memcpy
memcpy-copied mem dst src n a h = ground (arith, copy_up_lem n 0 dst src mem a (ground arith))

set_from_lem :
    (n i buf v : ℕ) (mem : Bytes) (a : ℕ)
    → set_from n i buf v mem a ≡ (if leb (buf + i) a && ltb a (buf + (i + n)) then u8 v else mem a)
unfolding set_from
set_from_lem zero i buf v mem a = ground arith
set_from_lem (suc n) i buf v mem a =
    ground (arith, set_from_lem n (suc i) buf v (update mem (buf + i) (u8 v)) a)

-- memset writes the low byte of its value into each byte of the buffer, and nowhere else.
pub memset_lem :
    (mem : Bytes) (buf v n a : ℕ)
    → memset mem buf v n a ≡ (if leb buf a && ltb a (buf + n) then v % 256 else mem a)
unfolding memset
memset_lem mem buf v n a = ground (arith, set_from_lem n 0 buf v mem a)
