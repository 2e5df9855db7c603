-- ===== src/Vmm/SelfTest.antt =====
-- `checksum` and `test_vmm` of kernel/arch/i386/vmm.c, the kernel's own test of the address spaces.
-- Memory is a function from an address to the 32-bit word there.
use mathlib.Core.Option
use r_oses.Prelude.{
  ℕ, zero, suc, ◌==◌, ◌||◌, Bool, true, false, Option, none, some, ◌>>=◌, not, if◌then◌else◌, mul32,
  add32,
}
use r_oses.Prelude.Slots.{update}
use r_oses.Pmm.{Block}
use r_oses.Space.{Space}
use r_oses.Vmm.{Vmm, alloc_block, free_block}

-- `checksum` over the first `n` slots.
unfoldable space_checksum_of : (ℕ → Block) → ℕ → ℕ
space_checksum_of f zero = 2983
space_checksum_of f (suc n) =
    mul32 (mul32 (space_checksum_of f n) (add32 (f (suc n)).addr 1)) (f (suc n)).len

-- Without a slot in use the end is in front of the start, and the loop, whose bound is then the
-- largest number, never ends: that is `none`.
unfoldable space_checksum : Space → Option ℕ
space_checksum s = if s.last == 0 then none else some (space_checksum_of s.blocks s.last)

-- A loop that writes words from `at` on and reads each back: whether all were found, and the memory.
abbrev pub fill_words : (rounds i : ℕ) → (key at : ℕ) → (ℕ → ℕ) → Bool × (ℕ → ℕ)
fill_words zero i key at mem = (true, mem)
fill_words (suc rounds) i key at mem =
    let word = mul32 key (add32 i 1) in
    let place = add32 at (mul32 4 i) in
    let mem = update mem place word in
    let rest = fill_words rounds (suc i) key at mem in
    if mem place == word then rest else (false, mem)

-- The end of `test_vmm`: the blocks go back, and the checksum is compared.
unfoldable give_back : (key a b c : ℕ) → Vmm → Option (Bool × Vmm)
give_back key a b c v = do
  (_, v₁) ← free_block v a 1 true
  (_, v₂) ← free_block v₁ b 2 true
  (_, v₃) ← free_block v₂ c 8 true
  key' ← space_checksum v₃.kernel_space
  some (key == key', v₃)

unfoldable test_vmm : Vmm → (ℕ → ℕ) → Option (Bool × Vmm × (ℕ → ℕ))
test_vmm v mem = do
  key ← space_checksum v.kernel_space
  (a, v₁) ← alloc_block v 1 true
  (b, v₂) ← alloc_block v₁ 2 true
  (c, v₃) ← alloc_block v₂ 8 true
  let (a_kept, mem₁) = fill_words 128 0 key a mem
  let (b_kept, mem₂) = fill_words 256 0 key b mem₁
  if a == 0 || b == 0 || c == 0
      then some (false, v₃, mem)
      else if not a_kept
      then some (false, v₃, mem₁)
      else if not b_kept
      then some (false, v₃, mem₂)
      else Option.map (λ r. (r.0, r.1, mem₂)) (give_back key a b c v₃)
