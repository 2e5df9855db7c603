-- ===== src/Pmm/Checksum.antt =====
-- `checksum` and `test_pmm`: what the kernel's own test of the allocator can notice.
use native.Mathlib.Nat.{zero-mul}
use r_oses.Prelude.{
  ℕ, zero, suc, ◌+◌, ◌≤◌, ◌<◌, ◌≡◌, ◌∙◌, ap, arith, ◌==◌, some, true, mul32, add32, ℕ_discrete,
}
use r_oses.Pmm.{Block, block, Pmm, alloc_page, free_page, coalesce, checksum_of, checksum, test_pmm}
use r_oses.Pmm.Pages.{IsBlock, IsValid}
use r_oses.Pmm.Alloc.{alloc_page-Taken, alloc_page_part}
use r_oses.Pmm.Free.{free_page-Released, coalesce_ptr-free_page, last-free_page}
use r_oses.Pmm.Coalesce.{coalesce-SamePages}

mul32-zero : (x y : ℕ) → mul32 (mul32 0 x) y ≡ 0
mul32-zero x y = simp zero-mul

checksum_of-zero : (f : ℕ → Block) (n j : ℕ) → 1 ≤ j → j ≤ n → (f j).len ≡ 0 → checksum_of f n ≡ 0
unfolding checksum_of
checksum_of-zero f zero j lo hi e = absurd (omega arith)
checksum_of-zero f (suc n) j lo hi e = elim (ℕ_discrete j (suc n)) [
  | yes last ↦ ground arith
  | no before ↦ ground (
    arith,
    checksum_of-zero f n j lo (omega arith) e,
    mul32-zero (add32 (f (suc n)).addr 1) (f (suc n)).len,
  )
]

-- One slot of length 0, in use or not, makes the checksum 0.
pub checksum-zero : (s : Pmm) (j : ℕ) → 1 ≤ j → j ≤ 1024 → (s.blocks j).len ≡ 0 → checksum s ≡ 0
unfolding checksum
checksum-zero s j lo hi e = checksum_of-zero s.blocks 1024 j lo hi e

-- What the three calls have in common: a slot above those in use is left alone.
alloc_page-above : (s : Pmm) (j : ℕ) → s.last < j → (alloc_page s).1.blocks j ≡ s.blocks j
unfolding alloc_page
alloc_page-above s j h = ground arith

free_page-above : (s : Pmm) (p j : ℕ) → s.last + 1 < j → (free_page s p).blocks j ≡ s.blocks j
unfolding free_page
free_page-above s p j h = ground arith

coalesce_ptr-alloc_page : (s : Pmm) → (alloc_page s).1.coalesce_ptr ≡ s.coalesce_ptr
unfolding alloc_page
coalesce_ptr-alloc_page s = ground arith

-- A state with a block of more than `k` pages on top.
pub record HasPages (k : ℕ) (s : Pmm) : Type 0 where
  pub valid : IsValid s
  pub some_block : 1 ≤ s.last
  pub long : k < (s.blocks s.last).len

alloc_page-HasPages :
    (k : ℕ) (s : Pmm)
    → HasPages (suc k) s
    → HasPages k (alloc_page s).1 × ((alloc_page s).1.last ≡ s.last)
alloc_page-HasPages k s h =
    let b = h.valid.live s.last h.some_block (omega arith) in
    let t = alloc_page-Taken s h.valid h.some_block in
    let e = alloc_page_part s h.valid h.some_block (omega (arith, h.long)) in
    (
      record {
        valid = t.valid;
        some_block = rw e h.some_block;
        long = rw e (ground (arith, h.long));
      },
      rw e,
    )

-- The three pages that the test takes and gives back.
module _ (s : Pmm) (h : HasPages 3 s) (room : s.last + 3 < 1024) where
  abbrev s₁ : Pmm
  s₁ = (alloc_page s).1

  abbrev s₂ : Pmm
  s₂ = (alloc_page s₁).1

  abbrev s₃ : Pmm
  s₃ = (alloc_page s₂).1

  taken : HasPages 0 s₃ × (s₃.last ≡ s.last)
  taken =
      let (h₁, e₁) = alloc_page-HasPages 2 s h in
      let (h₂, e₂) = alloc_page-HasPages 1 s₁ h₁ in
      let (h₃, e₃) = alloc_page-HasPages 0 s₂ h₂ in (h₃, e₃ ∙ e₂ ∙ e₁)

  pages :
      IsBlock (block (alloc_page s).0 1)
      × IsBlock (block (alloc_page s₁).0 1)
      × IsBlock (block (alloc_page s₂).0 1)
  pages =
      let (h₁, e₁) = alloc_page-HasPages 2 s h in
      let (h₂, e₂) = alloc_page-HasPages 1 s₁ h₁ in
      (
        (alloc_page-Taken s h.valid h.some_block).page,
        (alloc_page-Taken s₁ h₁.valid h₁.some_block).page,
        (alloc_page-Taken s₂ h₂.valid h₂.some_block).page,
      )

  abbrev freed : Pmm
  freed = free_page (free_page (free_page s₃ (alloc_page s).0) (alloc_page s₁).0) (alloc_page s₂).0

  -- The state between the calls of `free_page` and that of `coalesce`.
  freed-IsValid : IsValid freed × (1 ≤ freed.last) × (freed.last ≤ s.last + 3)
  freed-IsValid =
      let (h₃, e₃) = taken in
      let few₃ : s₃.last < 1021 = omega arith in
      let (a, b, c) = pages in
      let used = h₃.some_block in
      let f₁ =
        free_page-Released s₃ (alloc_page s).0 h₃.valid
          (a, λ z. absurd (omega arith), omega arith) in
      let t₁ = free_page s₃ (alloc_page s).0 in
      let m₁ = last-free_page s₃ (alloc_page s).0 in
      let f₂ =
        free_page-Released t₁ (alloc_page s₁).0 f₁.valid
          (b, λ z. absurd (omega arith), omega (arith, f₁.more)) in
      let t₂ = free_page t₁ (alloc_page s₁).0 in
      let m₂ = last-free_page t₁ (alloc_page s₁).0 in
      let f₃ =
        free_page-Released t₂ (alloc_page s₂).0 f₂.valid
          (c, λ z. absurd (omega arith), omega (arith, f₁.more, f₂.more)) in
      let m₃ = last-free_page t₂ (alloc_page s₂).0 in
      (f₃.valid, omega arith, omega (arith, f₁.more, f₂.more, f₃.more))

  -- A slot well above those in use keeps what it holds.
  freed-above : (j : ℕ) → s.last + 3 < j → freed.blocks j ≡ s.blocks j
  freed-above j far =
      let (h₁, e₁) = alloc_page-HasPages 2 s h in
      let (h₂, e₂) = alloc_page-HasPages 1 s₁ h₁ in
      let (h₃, e₃) = alloc_page-HasPages 0 s₂ h₂ in
      let (a, b, c) = pages in
      let few₃ : s₃.last < 1021 = omega (arith, taken.1) in
      let t₁ = free_page s₃ (alloc_page s).0 in
      let t₂ = free_page t₁ (alloc_page s₁).0 in
      let f₁ =
        free_page-Released s₃ (alloc_page s).0 h₃.valid
          (a, λ z. absurd (omega (arith, h₃.some_block)), omega arith) in
      let f₂ = free_page-Released t₁ (alloc_page s₁).0 f₁.valid (
        b,
        λ z. absurd (omega (arith, h₃.some_block, last-free_page s₃ (alloc_page s).0)),
        omega (arith, f₁.more),
      ) in
      free_page-above t₂ (alloc_page s₂).0 j (omega (arith, f₁.more, f₂.more))
      ∙ free_page-above t₁ (alloc_page s₁).0 j (omega (arith, f₁.more))
      ∙ free_page-above s₃ (alloc_page s).0 j (omega arith)
      ∙ alloc_page-above s₂ j (omega arith)
      ∙ alloc_page-above s₁ j (omega arith)
      ∙ alloc_page-above s j (omega arith)

  freed-pointer : freed.coalesce_ptr ≡ s.coalesce_ptr
  freed-pointer =
      coalesce_ptr-free_page _ (alloc_page s₂).0
      ∙ coalesce_ptr-free_page _ (alloc_page s₁).0
      ∙ coalesce_ptr-free_page s₃ (alloc_page s).0
      ∙ coalesce_ptr-alloc_page s₂
      ∙ coalesce_ptr-alloc_page s₁
      ∙ coalesce_ptr-alloc_page s

  test_pmm-eq :
      (t : Pmm) → coalesce freed ≡ some t → test_pmm s ≡ some (checksum s == checksum t, t)
  unfolding test_pmm
  test_pmm-eq t e = rw (test_pmm, e)

  -- With valid slots, a block of more than three pages on top, a pointer that is set, three
  -- slots to spare and the last slot never used, test_pmm ends and passes, and both checksums
  -- that it compares are 0.
  pub test_pmm_blind :
      (c : ℕ)
      → s.coalesce_ptr ≡ some c
      → 1 ≤ c
      → (s.blocks 1024).len ≡ 0
      → (s' : Pmm) × (test_pmm s ≡ some (true, s')) × (checksum s ≡ 0) × (checksum s' ≡ 0)
  test_pmm_blind c p lo unused =
      let (v, used, more) = freed-IsValid in
      let (t, run, same) = coalesce-SamePages freed c v (freed-pointer ∙ p) lo in
      let kept : t.blocks 1024 ≡ s.blocks 1024 =
        same.above 1024 (omega arith) ∙ freed-above 1024 (omega arith) in
      let before : checksum s ≡ 0 = checksum-zero s 1024 (omega arith) (omega arith) unused in
      let after : checksum t ≡ 0 =
        checksum-zero t 1024 (omega arith) (omega arith)
          (ap (λ (b : Block). b.len) kept ∙ unused) in
      (t, test_pmm-eq t run ∙ ground arith, before, after)
