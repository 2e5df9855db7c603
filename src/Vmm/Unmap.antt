-- ===== src/Vmm/Unmap.antt =====
-- The loops that unmap the pages of a block and give them back.
use r_oses.Prelude.{
  ℕ, zero, suc, ◌+◌, ◌*◌, ◌%◌, ◌≤◌, ◌<◌, ◌≡◌, ◌≢◌, ◌∙◌, arith, ltb, leb, ◌&&◌, if◌then◌else◌, refl,
}
use r_oses.Pmm.{block, Pmm, free_array_size, free_page}
use r_oses.Pmm.Pages.{IsBlock, IsValid}
use r_oses.Pmm.Free.{free_page-Released, coalesce_ptr-free_page, last-free_page}
use r_oses.Paging.{Tables, get_physaddr, unmap_page}
use r_oses.Paging.Lookup.{window, get_physaddr-unmap_page, get_physaddr-IsBlock}
use r_oses.Vmm.{page_at, unmap_pages}

-- The allocator and the tables behind the loop.
pub record Unmapped (n j virt : ℕ) (s : Pmm) (m : Tables) (r : Pmm × Tables) : Type 0 where
  pub valid : IsValid r.0
  pub used : 1 ≤ r.0.last
  pub pointer : r.0.coalesce_ptr ≡ s.coalesce_ptr
  pub lookup :
      (q : ℕ)
      → q < window
      → get_physaddr r.1 q
        ≡ (if leb (virt + 4096 * j) q && ltb q (virt + 4096 * (j + n)) then 0 else get_physaddr m q)

-- From page `j` on, `n` pages of a block that begins on a page and does not pass the end of memory
-- are mapped.
abbrev pub AllMapped : (n j virt : ℕ) → Tables → Type 0
AllMapped n j virt m = (i : ℕ) → j ≤ i → i < j + n → get_physaddr m (virt + 4096 * i) ≢ 0

-- For a block of mapped pages that begins on a page and stays below the last 4 MiB, and valid slots
-- with one in use and one left for each page, the loop that gives the pages back leaves valid slots, no translation for the
-- addresses of the block, and every other translation below the last
-- 4 MiB as it was.
pub unmap_pages-Unmapped :
    (n j virt : ℕ) (s : Pmm) (m : Tables)
    → virt % 4096 ≡ 0
    → virt + 4096 * (j + n) ≤ window
    → AllMapped n j virt m
    → IsValid s
    → 1 ≤ s.last
    → s.last + n ≤ free_array_size
    → Unmapped n j virt s m (unmap_pages n j virt s m)
unfolding unmap_pages
unmap_pages-Unmapped zero j virt s m al fits all v used room = record {
  valid = v;
  used = used;
  pointer = refl;
  lookup = λ q lq. ground arith;
}
unmap_pages-Unmapped (suc n) j virt s m al fits all v used room =
    let at : page_at virt j ≡ virt + 4096 * j = omega arith in
    let p = get_physaddr m (virt + 4096 * j) in
    let page : IsBlock (block p 1) =
      get_physaddr-IsBlock m (virt + 4096 * j) (omega arith) (all j (omega arith) (omega arith)) in
    let f = free_page-Released s p v (page, λ z. absurd (omega arith), omega arith) in
    let m' = unmap_page m (virt + 4096 * j) in
    let look = get_physaddr-unmap_page m (virt + 4096 * j) in
    let r =
      unmap_pages-Unmapped n (suc j) virt (free_page s p) m' al (omega arith)
        (λ i a b. ground (
          arith,
          look (virt + 4096 * i) (omega arith) (omega arith),
          all i (omega arith) (omega arith),
        ))
        f.valid (omega (arith, last-free_page s p)) (omega (arith, f.more)) in
    rw at (record {
      valid = r.valid;
      used = r.used;
      pointer = r.pointer ∙ coalesce_ptr-free_page s p;
      lookup = λ q lq. ground (arith, r.lookup q lq, look q (omega arith) lq);
    })
