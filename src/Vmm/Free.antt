-- ===== src/Vmm/Free.antt =====
-- `free_block`: the addresses are free again, and their pages are unmapped.
use r_oses.Prelude.{
  ℕ, zero, suc, ◌+◌, ◌*◌, ◌%◌, ◌≤◌, ◌<◌, ◌≡◌, ◌∙◌, arith, ◌==◌, ltb, leb, ◌&&◌, if◌then◌else◌, refl,
  ap, Option, none, some, Bool, true, false, not, inl, inr, ℕ_discrete, Bool-cases,
}
use r_oses.Pmm.{Block, block, Pmm, free_array_size, end_of, coalesce}
use r_oses.Pmm.Pages.{in_block, IsRange, IsValid}
use r_oses.Pmm.Coalesce.{coalesce-SamePages}
use r_oses.Space.{Space, space_size}
use r_oses.Space.Upper.{space_count, IsSpace}
use r_oses.Space.Take.{check_upper-give_back}
use r_oses.Space.Put.{Put, check_upper-push_block, check_upper-join_above}
use r_oses.Paging.{Tables, get_physaddr, flush_tlb}
use r_oses.Paging.Lookup.{window, get_physaddr-flush_tlb}
use r_oses.Vmm.{
  Vmm, space_of, with_space, stored, page_at, all_mapped, join_full, put_block, unmap_pages,
  release_pages, free_block,
}
use r_oses.Vmm.Alloc.{space_of-stored, space_of-stored_other, pmm-stored, tables-stored}
use r_oses.Vmm.Unmap.{AllMapped, Unmapped, unmap_pages-Unmapped}

all_mapped-AllMapped :
    (n j virt : ℕ) (m : Tables)
    → virt + 4096 * (j + n) ≤ 4294967296
    → all_mapped n j virt m ≡ true
    → AllMapped n j virt m
unfolding all_mapped
all_mapped-AllMapped zero j virt m fits e i a b = absurd (omega arith)
all_mapped-AllMapped (suc n) j virt m fits e i a b =
    let at : page_at virt j ≡ virt + 4096 * j = omega arith in
    elim (ℕ_discrete i j) [
      | yes here ↦ ground arith
      | no later ↦
          all_mapped-AllMapped n (suc j) virt m (omega arith) (ground arith) i (omega arith)
            (omega arith)
    ]

-- What `put_block` gives: `some none` only where there is no slot, and else the space with the block.
data PutOutcome (s : Space) (b : Block) : Option (Option Space) → Type 0 where
  full : s.last ≡ space_size → PutOutcome s b (some none)
  put : {s' : Space} → Put s b s' → PutOutcome s b (some (some s'))

module _ (s : Space) (addr size : ℕ) (v : IsSpace s) (r : IsRange (block addr size))
    (pos : 1 ≤ size) where
  join_full-PutOutcome :
      (k : ℕ)
      → k ≤ s.last
      → s.last ≡ space_size
      → PutOutcome s (block addr size) (join_full s addr size k)
  unfolding join_full
  join_full-PutOutcome zero hi f = full f
  join_full-PutOutcome (suc k) hi f =
      let x = v.ranges (suc k) (omega arith) hi in
      elim (Bool-cases (end_of (s.blocks (suc k)) == addr)) [
        | inl t ↦
            let meet : end_of (s.blocks (suc k)) ≡ addr = ground arith in
            let (s', b', e, counts, sp) =
              check_upper-give_back s (suc k) size v (omega arith) hi pos (omega (arith, r)) in
            rw (t, e)
              (put (record {
                counts = λ q. counts q ∙ ap (λ a. space_count s q + in_block q (block a size)) meet;
                space = sp;
              }))
        | inr t ↦ rw t (elim (Bool-cases (end_of (block addr size) == (s.blocks (suc k)).addr)) [
          | inl u ↦
              let meet : end_of (block addr size) ≡ (s.blocks (suc k)).addr = ground arith in
              let (s', b', e, p) =
                check_upper-join_above s (suc k) addr size v (omega arith) hi r.addr_pos
                  (omega (arith, r)) in
              rw (u, e) (put p)
          | inr u ↦ rw u (join_full-PutOutcome k (omega arith) f)
        ])
      ]

  put_block-PutOutcome : PutOutcome s (block addr size) (put_block s addr size)
  unfolding put_block
  put_block-PutOutcome = elim (Bool-cases (s.last + 1 == space_size + 1)) [
    | inl t ↦ rw t (join_full-PutOutcome space_size (ground arith) (ground arith))
    | inr t ↦
        let (s', b', e, p) = check_upper-push_block s (block addr size) v r in rw (t, e) (put p)
  ]

-- What `free_block` needs of the state: addresses that begin on a page, below the window where the
-- page tables show, and an allocator of pages that holds a block and a slot to spare for each page,
-- and whose `coalesce_ptr` is set.
pub record CanRelease (v : Vmm) (addr size : ℕ) : Type 0 where
  pub range : IsRange (block addr size)
  pub aligned : addr % 4096 ≡ 0
  pub some_page : 1 ≤ size
  pub pages : IsValid v.pmm
  pub used : 1 ≤ v.pmm.last
  pub below : addr + 4096 * size ≤ window
  pub room : v.pmm.last + size ≤ free_array_size
  pub start : ℕ
  pub pointer : v.pmm.coalesce_ptr ≡ some start
  pub start_pos : 1 ≤ start

-- The block is free in the space, the other space is as it was, the pages have no translation any
-- more and the other addresses below the window have the one that they had.
pub record Freed (k : Bool) (v : Vmm) (addr size : ℕ) (v' : Vmm) : Type 0 where
  pub put : Put (space_of k v) (block addr size) (space_of k v')
  pub other : space_of (not k) v' ≡ space_of (not k) v
  pub pages : IsValid v'.pmm
  pub lookup :
      (q : ℕ)
      → q < window
      → get_physaddr v'.tables q
        ≡ (if leb addr q && ltb q (addr + 4096 * size) then 0 else get_physaddr v.tables q)

pub data FreeOutcome (k : Bool) (v : Vmm) (addr size : ℕ) : Option (Bool × Vmm) → Type 0 where
  frees : {v' : Vmm} → Freed k v addr size v' → FreeOutcome k v addr size (some (true, v'))
  unmapped : all_mapped size 0 addr v.tables ≡ false → FreeOutcome k v addr size (some (false, v))
  no_slot : (space_of k v).last ≡ space_size → FreeOutcome k v addr size (some (false, v))

release_pages_run :
    (k : Bool) (v : Vmm) (sp : Space) (addr size : ℕ) (s : Pmm)
    → coalesce (unmap_pages size 0 addr v.pmm v.tables).0 ≡ some s
    → release_pages (with_space k v sp) addr size
      ≡ some (true, stored k v sp s (flush_tlb (unmap_pages size 0 addr v.pmm v.tables).1))
unfolding release_pages
release_pages_run true v sp addr size s e = rw (release_pages, e)
release_pages_run false v sp addr size s e = rw (release_pages, e)

module _ (k : Bool) (v : Vmm) (addr size : ℕ) (c : CanRelease v addr size)
    (m : all_mapped size 0 addr v.tables ≡ true) where
  all_mapped-Unmapped : Unmapped size 0 addr v.pmm v.tables (unmap_pages size 0 addr v.pmm v.tables)
  all_mapped-Unmapped =
      unmap_pages-Unmapped size 0 addr v.pmm v.tables c.aligned (omega (arith, c.below))
        (all_mapped-AllMapped size 0 addr v.tables (omega (arith, c.range)) m) c.pages c.used c.room

  release_pages-Freed :
      (sp : Space)
      → Put (space_of k v) (block addr size) sp
      → FreeOutcome k v addr size (release_pages (with_space k v sp) addr size)
  unfolding release_pages
  release_pages-Freed sp p =
      let u = all_mapped-Unmapped in
      let r = unmap_pages size 0 addr v.pmm v.tables in
      let (s', e, same) =
        coalesce-SamePages r.0 c.start u.valid (u.pointer ∙ c.pointer) c.start_pos in
      rw (release_pages_run k v sp addr size s' e) (
        frees (record {
          put = rw space_of-stored p;
          other = space_of-stored_other k v sp s' (flush_tlb r.1);
          pages = rw pmm-stored same.valid;
          lookup =
              λ q lq. rw (tables-stored, get_physaddr-flush_tlb) (ground (arith, u.lookup q lq));
        }))

free_block_mapped :
    (k : Bool) (v : Vmm) (addr size : ℕ) (sp : Space)
    → all_mapped size 0 addr v.tables ≡ true
    → put_block (space_of k v) addr size ≡ some (some sp)
    → free_block v addr size k ≡ release_pages (with_space k v sp) addr size
unfolding free_block
free_block_mapped k v addr size sp m e = rw (m, e)

free_block_full :
    (k : Bool) (v : Vmm) (addr size : ℕ)
    → all_mapped size 0 addr v.tables ≡ true
    → put_block (space_of k v) addr size ≡ some none
    → free_block v addr size k ≡ some (false, v)
unfolding free_block
free_block_full k v addr size m e = rw (m, e)

pub free_block_unmapped :
    (k : Bool) (v : Vmm) (addr size : ℕ)
    → all_mapped size 0 addr v.tables ≡ false
    → free_block v addr size k ≡ some (false, v)
unfolding free_block
free_block_unmapped k v addr size m = rw m

mapped-FreeOutcome :
    (k : Bool) (v : Vmm) (addr size : ℕ) (r : Option (Option Space))
    → CanRelease v addr size
    → all_mapped size 0 addr v.tables ≡ true
    → put_block (space_of k v) addr size ≡ r
    → PutOutcome (space_of k v) (block addr size) r
    → FreeOutcome k v addr size (free_block v addr size k)
mapped-FreeOutcome k v addr size _ c m e (full f) =
    rw (free_block_full k v addr size m e) (no_slot f)
mapped-FreeOutcome k v addr size _ c m e (put {s' = sp} p) =
    rw (free_block_mapped k v addr size sp m e) (release_pages-Freed k v addr size c m sp p)

-- From a space in order, for a block below the last 4 MiB of addresses and an allocator that can
-- take pages back and has a slot to spare for each, free_block ends. It refuses, and changes
-- nothing, only where a page of the block is not mapped or every slot of the space is in use.
-- Else the addresses are free in the space, their pages have no translation, and no other
-- translation below the last 4 MiB changes.
pub free_block-FreeOutcome :
    (k : Bool) (v : Vmm) (addr size : ℕ)
    → IsSpace (space_of k v)
    → CanRelease v addr size
    → FreeOutcome k v addr size (free_block v addr size k)
free_block-FreeOutcome k v addr size w c = elim (Bool-cases (all_mapped size 0 addr v.tables)) [
  | inl m ↦
      mapped-FreeOutcome k v addr size _ c m refl
        (put_block-PutOutcome (space_of k v) addr size w c.range c.some_page)
  | inr m ↦ rw (free_block_unmapped k v addr size m) (unmapped m)
]
