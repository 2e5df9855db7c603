-- ===== src/Heap/Loop.antt =====
-- `kmalloc` where the request, with a header, ends at the end of a page.
use r_oses.Prelude.{
  ℕ, ◌+◌, ◌%◌, ◌≤◌, ◌<◌, ◌≡◌, ◌≢◌, refl, ap, ◌∙◌, arith, true, false, ◌==◌, Option, some, List, [],
  ◌∷◌, length, ◌/◌, ◌*◌, add32, sub32, Bool-cases, inl, inr,
}
use r_oses.Prelude.Slots.{update}
use r_oses.Vmm.{Vmm, alloc_block}
use r_oses.Heap.{
  Heap, kmalloc_unlock, header_size, next_at, split_header, split_words, grown_bytes, grown_pages,
  new_header, grow, Found, aligned, kmalloc, kmalloc_loop, kmalloc_lock, after_loop,
}
use r_oses.Heap.Cells.{Cell, IsList}
use r_oses.Heap.Places.{place}
use r_oses.Heap.Alloc.{aligned_lem, fits_exact, fits_room}
use r_oses.Heap.Search.{NoFit, Spot, exact, room, full, kmalloc_loop-Spot}
use r_oses.Heap.Extend.{unfit}
use r_oses.Heap.Grow.{grown_bytes_lem}

-- No byte is left for the free part: its size wraps, and the new header is the old one.
split_words_self :
    (mem : ℕ → ℕ) (block size : ℕ)
    → mem block ≡ size
    → block + 16 ≤ 4294967296
    → 0 < block
    → size + 16 < 4294967296
    → ((split_words mem block size).0 ≡ block)
      × ((split_words mem block size).1 (next_at block) ≡ block)
unfolding split_words
split_words_self mem block size e hi lo h =
    let same : (block == block) ≡ true = ground arith in
    let same' : (block + 8 == block + 8) ≡ true = ground arith in
    let next : add32 (add32 block header_size) (sub32 (mem block) (add32 size header_size))
        ≡ block =
      rw e (omega arith) in
    (rw (same, next) refl, rw (same, same', next) refl)

new_header_self :
    (mem : ℕ → ℕ) (size c block : ℕ)
    → c + 8 ≢ block + 12
    → size + 16 + 4095 < 4294967296
    → (size + 16) % 4096 ≡ 0
    → ((new_header (update mem (next_at c) block) size c).0 ≡ block)
      × ((new_header (update mem (next_at c) block) size c).1 block ≡ size)
unfolding new_header
new_header_self mem size c block ne small whole =
    let e1 : update mem (next_at c) block (next_at c) ≡ block = ground arith in
    let test : (c + 8 == block + 12) ≡ false = ground arith in
    let size_eq : sub32 (grown_bytes size) header_size ≡ size =
      omega (arith, grown_bytes_lem size small) in
    (rw (e1, test) refl, rw (e1, test) (ground (arith, size_eq)))

mem-unlocked : (s : Heap) → (kmalloc_unlock s).mem ≡ s.mem
mem-unlocked s = elim (Bool-cases s.flags) [ inl e ↦ rw e refl | inr e ↦ rw e refl ]

-- The heap after the split of the header `h`, and the result of `grow`.
module _ (s : Heap) (size : ℕ) (v : Vmm) (mem : ℕ → ℕ) (h : ℕ) where
  abbrev split_to : Heap
  split_to = kmalloc_unlock (record s { mem = (split_words mem h size).1; vmm = v })

  abbrev split_at : Option (ℕ × Heap)
  split_at = some (add32 (split_words mem h size).0 header_size, split_to)

-- The part of `kmalloc` behind its loop.
grow_self :
    (s : Heap) (size c block : ℕ) (v : Vmm)
    → alloc_block s.vmm (grown_pages size) true ≡ some (block, v)
    → 0 < block
    → block + 16 ≤ 4294967296
    → c + 8 ≢ block + 12
    → size + 16 + 4095 < 4294967296
    → (size + 16) % 4096 ≡ 0
    → (s' : Heap) × (grow s size c ≡ some (add32 block header_size, s'))
      × (s'.mem (next_at block) ≡ block)
unfolding grow split_header
grow_self s size c block v given pos hi ne small whole =
    let (e, sized) = new_header_self s.mem size c block ne small whole in
    let (e1, e2) =
      split_words_self (new_header (update s.mem (next_at c) block) size c).1 block size sized hi
        pos (omega arith) in
    let nz : (block == 0) ≡ false = ground arith in
    let words = (new_header (update s.mem (next_at c) block) size c).1 in
    let split = (split_words words block size).1 in
    (
      split_to s size v words block,
      rw (grow, given, nz)
          (ap (split_at s size v words) e
            ∙ ap (λ h. some (add32 h header_size, split_to s size v words block)) e1),
      ap (λ (m : ℕ → ℕ). m (next_at block)) (mem-unlocked (record s { mem = split; vmm = v })) ∙ e2,
    )

-- For a list of blocks that do not overlap and of which none is large enough, fuel for the list,
-- a request below 4 GiB less 4118 bytes that, rounded up and with a header, ends at the end of a
-- page, and an alloc_block that gives a block at a multiple of 8, kmalloc returns the bytes
-- behind a header whose next is itself.
pub kmalloc_self :
    (fuel : ℕ) (s : Heap) (n : ℕ) (c : Cell) (cs : List Cell) (block : ℕ) (v : Vmm)
    → IsList s.mem s.start_header (c ∷ cs)
    → length cs < fuel
    → NoFit (aligned n) (c ∷ cs)
    → alloc_block s.vmm (grown_pages (aligned n)) true ≡ some (block, v)
    → 0 < block
    → block % 8 ≡ 0
    → block + 16 ≤ 4294967296
    → n + 4118 < 4294967296
    → (aligned n + 16) % 4096 ≡ 0
    → (s' : Heap) × (kmalloc fuel s n ≡ some (add32 block header_size, s'))
      × (s'.mem (next_at block) ≡ block)
unfolding kmalloc after_loop
kmalloc_self fuel s n c cs block v list h busy given pos even hi small whole =
    let wide : aligned n ≡ (n + 7) / 8 * 8 = aligned_lem n (omega arith) in
    let (f, e, spot) =
      kmalloc_loop-Spot s.mem s.start_header (aligned n) (omega (arith, wide)) fuel [] c cs list tt
        h in
    let looped : kmalloc_loop fuel s.mem (aligned n) s.start_header ≡ some f = rw list.start e in
    rw looped (go f spot)
  where
    go :
        (f : Found)
        → Spot (aligned n) (c ∷ cs) f
        → (s' : Heap) × (after_loop (kmalloc_lock s) (aligned n) (some f)
            ≡ some (add32 block header_size, s'))
          × (s'.mem (next_at block) ≡ block)
    go f (exact ls d rs e _ free same) =
        absurd (unfit (aligned n) (c ∷ cs) ls d rs e busy (fits_exact d (aligned n) free same))
    go f (room ls d rs e _ free ne more) =
        absurd (unfit (aligned n) (c ∷ cs) ls d rs e busy (fits_room d (aligned n) free more))
    go f (full ls d e _) =
        let wide : aligned n ≡ (n + 7) / 8 * 8 = aligned_lem n (omega arith) in
        let (_, (w, _), _) = place {start = s.start_header} ls (d ∷ []) (rw e at list) in
        grow_self (kmalloc_lock s) (aligned n) d.addr block v given pos hi (omega (arith, w.addr))
          (omega (arith, wide)) whole
