-- ===== src/Pmm/Merge.antt =====
-- One merge of `coalesce_loop` keeps the multiset of free pages.
use r_oses.Prelude.{ℕ, ◌+◌, ◌-◌, ◌≤◌, ◌<◌, ◌≡◌, ◌≢◌, arith, ltb, if◌then◌else◌, add32, some}
use r_oses.Prelude.Slots.{update, sum_to-update, sum_to-remove}
use r_oses.Pmm.{Block, block, Pmm, end_of, merge, after_removal}
use r_oses.Pmm.Pages.{in_block, free_count, IsBlock, IsValid, in_block-join, IsBlock-IsRange}

-- The same pages are free, in at most as many slots; the slots that were not in use are left
-- alone, and the pointer has not gone back by more than `k`.
pub record Coalesced (k : ℕ) (s s' : Pmm) : Type 0 where
  pub counts : (q : ℕ) → free_count s' q ≡ free_count s q
  pub valid : IsValid s'
  pub last : s'.last ≤ s.last
  pub above : (j : ℕ) → s.last < j → s'.blocks j ≡ s.blocks j
  pub some_left : 1 ≤ s.last → 1 ≤ s'.last
  pub pointer :
      (c : ℕ) → s.coalesce_ptr ≡ some c → (c' : ℕ) × (s'.coalesce_ptr ≡ some c') × (c ≤ c' + k)

module _ (s : Pmm) (b p : ℕ) (v : IsValid s) (lo : 1 ≤ b) (hi : b ≤ s.last) (plo : 1 ≤ p)
    (phi : p ≤ s.last) (ne : p ≢ b) where
  merge-counts :
      (m : Block) (q : ℕ)
      → in_block q m ≡ in_block q (s.blocks p) + in_block q (s.blocks b)
      → free_count (merge s b p m) q ≡ free_count s q
  unfolding merge
  merge-counts m q e = ground (
    arith,
    sum_to-remove (in_block q) (update s.blocks p m) b s.last lo hi,
    sum_to-update (in_block q) s.blocks p m s.last plo phi,
  )

  merge-live :
      (m : Block)
      → IsBlock m
      → (j : ℕ) → 1 ≤ j
      → j ≤ s.last - 1
      → IsBlock ((merge s b p m).blocks j)
  unfolding merge
  merge-live m w j a c =
      ground (arith, v.live j a (omega arith), v.live (j + 1) (omega arith) (omega arith))

  -- The merged block holds what the two held.
  pub merge-Coalesced :
      (m : Block)
      → IsBlock m
      → ((q : ℕ) → in_block q m ≡ in_block q (s.blocks p) + in_block q (s.blocks b))
      → Coalesced 1 s (merge s b p m)
  unfolding merge
  merge-Coalesced m w e = record {
    counts = λ q. merge-counts m q (e q);
    valid = record { live = merge-live m w };
    last = omega arith;
    above = λ j h. ground arith;
    some_left = λ h. omega arith;
    pointer = λ c h. ((if ltb b c then c - 1 else c), ground arith, ground arith);
  }

  pub after_removal_bounds : (1 ≤ after_removal b p) × (after_removal b p ≤ s.last - 1)
  after_removal_bounds = ground arith

  -- `ptr` ends where `block` begins.
  pub merge-below :
      end_of (s.blocks p) ≡ (s.blocks b).addr
      → Coalesced 1 s
          (merge s b p (record (s.blocks p) { len = add32 (s.blocks p).len (s.blocks b).len }))
  merge-below e =
      let x = v.live p plo phi in
      let y = v.live b lo hi in
      let n : add32 (s.blocks p).len (s.blocks b).len ≡ (s.blocks p).len + (s.blocks b).len =
        omega arith in
      rw n (
        merge-Coalesced _ (omega arith) (λ q.
          in_block-join q (s.blocks p) (s.blocks b) (IsBlock-IsRange _ x) (IsBlock-IsRange _ y) e))

  -- `block` ends where `ptr` begins.
  pub merge-above :
      end_of (s.blocks b) ≡ (s.blocks p).addr
      → Coalesced 1 s
          (merge s b p (block (s.blocks b).addr (add32 (s.blocks p).len (s.blocks b).len)))
  merge-above e =
      let x = v.live p plo phi in
      let y = v.live b lo hi in
      let n : add32 (s.blocks p).len (s.blocks b).len ≡ (s.blocks b).len + (s.blocks p).len =
        omega arith in
      rw n (
        merge-Coalesced _ (omega arith) (λ q. omega (
          arith,
          in_block-join q (s.blocks b) (s.blocks p) (IsBlock-IsRange _ y) (IsBlock-IsRange _ x) e,
        )))
