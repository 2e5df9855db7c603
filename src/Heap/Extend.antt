-- ===== src/Heap/Extend.antt =====
-- `kmalloc` where no block is large enough, with the kernel's virtual addresses.
use r_oses.Prelude.{
  ℕ, ◌+◌, ◌*◌, ◌/◌, ◌%◌, ◌≤◌, ◌<◌, ◌≡◌, ◌≢◌, refl, arith, List, [], ◌∷◌, ◌++◌, true, Option, some,
  length, fun_ext, ℕ_discrete,
}
use r_oses.Prelude.Slots.{update}
use r_oses.Vmm.{Vmm, alloc_block}
use r_oses.Vmm.Alloc.{Allocated, Refused, Outcome, gives, refuses, alloc_block-Outcome}
use r_oses.Heap.{
  Heap, Found, kmalloc_lock, kmalloc_loop, aligned, grown_pages, grow, after_loop, kmalloc, next_at,
}
use r_oses.Heap.Cells.{Cell, covers, covered, rev_append, IsList}
use r_oses.Heap.Places.{place}
use r_oses.Heap.Alloc.{aligned_lem, fits_exact, fits_room}
use r_oses.Heap.Abstract.{fits}
use r_oses.Heap.Search.{NoFit, Spot, exact, room, full, kmalloc_loop-Spot}
use r_oses.Heap.Grow.{new_cell, new_cells, Grown, grow-Grown, grown_pages_lem}
use r_oses.Heap.Interrupts.{unlocked}
use r_oses.Heap.Pages.{
  Owns, kernel_count, covers_le, first_free, new-IsCell, new-outside, new_room, some_pages,
  Owns-grown, Owns-Refused,
}

-- What `kmalloc` returns where no cell fits: NULL and the memory as it was, or a block of new pages.
pub data Answer (s : Heap) (size : ℕ) (cells : List Cell) : Option (ℕ × Heap) → Type 0 where
  grows :
      {virt p : ℕ} {s' : Heap}
      → Grown s size virt cells p s'
      → Owns s'.vmm (cells ++ new_cells size virt)
      → Answer s size cells (some (p, s'))
  null :
      {s' : Heap}
      → IsList s'.mem s'.start_header cells
      → ((a : ℕ) → s'.mem a ≡ s.mem a)
      → s'.interrupts ≡ s.interrupts
      → Owns s'.vmm cells
      → Answer s size cells (some (0, s'))

rev_append-NoFit : (size : ℕ) (ls rs : List Cell) → NoFit size (rev_append ls rs) → NoFit size rs
rev_append-NoFit size [] rs h = h
rev_append-NoFit size (l ∷ ls) rs h = (rev_append-NoFit size ls (l ∷ rs) h).1

pub unfit :
    (size : ℕ) (xs ls : List Cell) (d : Cell) (rs : List Cell)
    → xs ≡ rev_append ls (d ∷ rs)
    → NoFit size xs
    → fits d size ≡ true
    → ⊥
unfit size xs ls d rs e h fit =
    let (none_fits, _) = rev_append-NoFit size ls (d ∷ rs) (rw e at h) in absurd cc

apart_sum :
    (cells : List Cell) (d : Cell) (a : ℕ)
    → covered cells a ≤ 1
    → (covers d a ≡ 1 → covered cells a ≡ 0)
    → covered cells a + covers d a ≤ 1
apart_sum cells d a h out = elim (ℕ_discrete (covers d a) 1) [
  | yes e ↦ omega (arith, out e)
  | no ne ↦ omega (arith, covers_le d a)
]

same_write : (mem : ℕ → ℕ) (i x : ℕ) → mem i ≡ x → (a : ℕ) → update mem i x a ≡ mem a
same_write mem i x e a = elim (ℕ_discrete a i) [
  | yes q ↦ rw q (ground (arith, e))
  | no ne ↦ ground arith
]

-- The answer to a request that no cell fits, where the loop has stopped at the last cell.
module _ (s : Heap) (size : ℕ) (ls : List Cell) (c : Cell)
    (old : IsList s.mem s.start_header (rev_append ls (c ∷ [])))
    (o : Owns s.vmm (rev_append ls (c ∷ [])))
    (fresh : (q : ℕ) → 1 ≤ kernel_count s.vmm q → s.mem (q + 8) ≡ 0)
    (small : size + 16 + 4095 < 4294967296) (even : size % 8 ≡ 0) (lo : 1 ≤ (size + 16) % 4096)
    (hi : (size + 16) % 4096 ≤ 4080) where
  grows-Answer :
      (virt : ℕ) (v' : Vmm)
      → alloc_block s.vmm (grown_pages size) true ≡ some (virt, v')
      → virt ≢ 0
      → Allocated true s.vmm virt (grown_pages size) v'
      → Answer s size (rev_append ls (c ∷ [])) (grow (kmalloc_lock s) size c.addr)
  grows-Answer virt v' given nz t =
      let fit = new_room size small lo hi in
      let cells = rev_append ls (c ∷ []) in
      let pages = some_pages s.vmm v' cells size virt o t small nz in
      let (p, s', e, g, same) =
        grow-Grown s size virt ls c v' given (new-IsCell s.vmm v' cells size virt o t small nz) old
          (λ a.
            apart_sum cells (new_cell size virt) a (old.apart a)
              (new-outside s.vmm v' cells size virt o t small nz a))
          (fresh virt (first_free s.vmm v' cells (grown_pages size) virt o t pages)) even fit in
      rw e (grows g (rw same (Owns-grown s.vmm v' cells size virt o t small nz fit)))

  null-Answer :
      (v' : Vmm)
      → alloc_block s.vmm (grown_pages size) true ≡ some (0, v')
      → Refused true s.vmm v'
      → Answer s size (rev_append ls (c ∷ [])) (grow (kmalloc_lock s) size c.addr)
  unfolding grow
  null-Answer v' given t =
      let ((hc, _), _, _) = place ls (c ∷ []) old in
      let same : update s.mem (next_at c.addr) 0 ≡ s.mem =
        fun_ext (same_write s.mem (next_at c.addr) 0 hc.next) in
      rw (grow, given)
        (rw
          (
            unlocked s.interrupts (record s { mem = update s.mem (next_at c.addr) 0; vmm = v' }),
            same,
          )
          (null old (λ a. refl) refl (Owns-Refused s.vmm v' _ o t)))

  last-Answer : Answer s size (rev_append ls (c ∷ [])) (grow (kmalloc_lock s) size c.addr)
  last-Answer = go (alloc_block s.vmm (grown_pages size) true) refl (
      alloc_block-Outcome s.vmm (grown_pages size) true o.space
        (omega (arith, grown_pages_lem size small)))
    where
      go :
          (r : Option (ℕ × Vmm))
          → alloc_block s.vmm (grown_pages size) true ≡ r
          → Outcome true s.vmm (grown_pages size) r
          → Answer s size (rev_append ls (c ∷ [])) (grow (kmalloc_lock s) size c.addr)
      go r e (gives nz t) = grows-Answer _ _ e nz t
      go r e (refuses t) = null-Answer _ e t

at_last :
    (s : Heap) (size : ℕ) (xs ls : List Cell) (d : Cell)
    → xs ≡ rev_append ls (d ∷ [])
    → IsList s.mem s.start_header xs
    → Owns s.vmm xs
    → ((q : ℕ) → 1 ≤ kernel_count s.vmm q → s.mem (q + 8) ≡ 0)
    → size + 16 + 4095 < 4294967296
    → size % 8 ≡ 0
    → 1 ≤ (size + 16) % 4096
    → (size + 16) % 4096 ≤ 4080
    → Answer s size xs (grow (kmalloc_lock s) size d.addr)
at_last s size xs ls d e v o fresh small even lo hi =
    rw e (last-Answer s size ls d (rw e at v) (rw e at o) fresh small even lo hi)

pub kmalloc-Answer :
    (fuel : ℕ) (s : Heap) (n : ℕ) (c : Cell) (cs : List Cell)
    → IsList s.mem s.start_header (c ∷ cs)
    → length cs < fuel
    → NoFit (aligned n) (c ∷ cs)
    → Owns s.vmm (c ∷ cs)
    → ((q : ℕ) → 1 ≤ kernel_count s.vmm q → s.mem (q + 8) ≡ 0)
    → n + 4118 < 4294967296
    → 1 ≤ (aligned n + 16) % 4096
    → (aligned n + 16) % 4096 ≤ 4080
    → Answer s (aligned n) (c ∷ cs) (kmalloc fuel s n)
unfolding kmalloc after_loop
kmalloc-Answer fuel s n c cs v h busy o fresh small lo hi =
    let (f, e, spot) =
      kmalloc_loop-Spot s.mem s.start_header (aligned n) (omega (arith, wide)) fuel [] c cs v tt
        h in
    let looped : kmalloc_loop fuel s.mem (aligned n) s.start_header ≡ some f = rw v.start e in
    rw looped (go f spot)
  where
    wide : aligned n ≡ (n + 7) / 8 * 8
    wide = aligned_lem n (omega arith)

    go :
        (f : Found)
        → Spot (aligned n) (c ∷ cs) f
        → Answer s (aligned n) (c ∷ cs) (after_loop (kmalloc_lock s) (aligned n) (some f))
    go f (exact ls d rs e _ free same) =
        absurd (unfit (aligned n) (c ∷ cs) ls d rs e busy (fits_exact d (aligned n) free same))
    go f (room ls d rs e _ free ne more) =
        absurd (unfit (aligned n) (c ∷ cs) ls d rs e busy (fits_room d (aligned n) free more))
    go f (full ls d e _) =
        at_last s (aligned n) (c ∷ cs) ls d e v o fresh (omega (arith, wide)) (omega (arith, wide))
          lo hi
