-- ===== src/Memory.antt =====
-- libc/string: the functions on blocks of memory. Memory is a function from addresses to bytes, and
-- each function returns the memory that it leaves. An object does not go past the end of memory, so
-- addresses do not wrap.
pub mod Move
pub mod Compare
mod Tests
use r_oses.Prelude.{ℕ, zero, suc, ◌+◌, Option, none, some, ltb, ◌==◌, if◌then◌else◌, u8}
use r_oses.Prelude.Slots.{update}

abbrev pub Bytes : Type 0
Bytes = ℕ → ℕ

-- `for (i = …; i < size; i++) dst[i] = src[i];`, with the rounds that are left.
pub copy_up : (rounds i dst src : ℕ) → Bytes → Bytes
copy_up zero i dst src mem = mem
copy_up (suc rounds) i dst src mem =
    copy_up rounds (suc i) dst src (update mem (dst + i) (mem (src + i)))

-- `for (i = size; i != 0; i--) dst[i-1] = src[i-1];`
pub copy_down : (i dst src : ℕ) → Bytes → Bytes
copy_down zero dst src mem = mem
copy_down (suc i) dst src mem = copy_down i dst src (update mem (dst + i) (mem (src + i)))

pub memcpy : Bytes → (dst src size : ℕ) → Bytes
unfolding copy_up
memcpy mem dst src size = copy_up size 0 dst src mem

pub memmove : Bytes → (dst src size : ℕ) → Bytes
unfolding copy_up copy_down
memmove mem dst src size =
    if ltb dst src then copy_up size 0 dst src mem else copy_down size dst src mem

set_from : (rounds i buf value : ℕ) → Bytes → Bytes
set_from zero i buf value mem = mem
set_from (suc rounds) i buf value mem =
    set_from rounds (suc i) buf value (update mem (buf + i) (u8 value))

pub memset : Bytes → (buf value size : ℕ) → Bytes
unfolding set_from
memset mem buf value size = set_from size 0 buf value mem

-- The -1, 0 and 1 that `memcmp` returns.
pub data Sign : Type 0 where
  minus_one null one : Sign

pub compare_from : (rounds i a b : ℕ) → Bytes → Sign
compare_from zero i a b mem = null
compare_from (suc rounds) i a b mem =
    let rest = compare_from rounds (suc i) a b mem in
    if ltb (mem (a + i)) (mem (b + i))
    then minus_one
    else if ltb (mem (b + i)) (mem (a + i))
    then one
    else rest

pub memcmp : Bytes → (a b size : ℕ) → Sign
unfolding compare_from
memcmp mem a b size = compare_from size 0 a b mem

-- `none` is a string with no end in the first `fuel` bytes.
pub length_from : (fuel len str : ℕ) → Bytes → Option ℕ
length_from zero len str mem = none
length_from (suc fuel) len str mem =
    let rest = length_from fuel (len + 1) str mem in if mem (str + len) == 0 then some len else rest

pub strlen : ℕ → Bytes → ℕ → Option ℕ
unfolding length_from
strlen fuel mem str = length_from fuel 0 str mem
