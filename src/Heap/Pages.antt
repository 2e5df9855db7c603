-- ===== src/Heap/Pages.antt =====
-- The heap and the kernel's virtual addresses: what `kmalloc` takes from `alloc_block` lies outside
-- the blocks that the heap has.
use r_oses.Prelude.{
  ℕ, ◌+◌, ◌-◌, ◌*◌, ◌/◌, ◌%◌, ◌≤◌, ◌<◌, ◌≡◌, ◌≢◌, arith, List, [], ◌∷◌, ◌++◌, true, sub32,
  ℕ_discrete,
}
use r_oses.Pmm.{block}
use r_oses.Pmm.Pages.{in_block}
use r_oses.Space.Upper.{space_count, IsSpace}
use r_oses.Vmm.{Vmm, space_of}
use r_oses.Vmm.Alloc.{Allocated, Refused}
use r_oses.Heap.{grown_bytes, grown_pages}
use r_oses.Heap.Cells.{Cell, covers, covered, IsCell}
use r_oses.Heap.Alloc.{halves-cover}
use r_oses.Heap.Grow.{new_cell, new_cells, grown_bytes_lem, grown_pages_lem}

-- How often the page at `q` is free in the kernel's space.
abbrev pub kernel_count : Vmm → ℕ → ℕ
kernel_count v q = space_count (space_of true v) q

-- The free pages of the kernel's space are whole pages, each is free once, and no cell reaches into
-- them.
pub record Owns (v : Vmm) (cells : List Cell) : Type 0 where
  pub space : IsSpace (space_of true v)
  pub once : (q : ℕ) → kernel_count v q ≤ 1
  pub even : (q : ℕ) → 1 ≤ kernel_count v q → q % 4096 ≡ 0
  pub below : (q : ℕ) → 1 ≤ kernel_count v q → q + 4096 ≤ 4294967296
  pub outside : (q a : ℕ) → 1 ≤ kernel_count v q → q ≤ a → a < q + 4096 → covered cells a ≡ 0

page_in : (b k n : ℕ) → k < n → in_block (b + 4096 * k) (block b n) ≡ 1
page_in b k n h = ground arith

first_in : (b n : ℕ) → 1 ≤ n → in_block b (block b n) ≡ 1
first_in b n h = ground arith

-- The page of an address, of a block of pages.
page_start : (b a n : ℕ) → b ≤ a → a < b + 4096 * n → (a - b) / 4096 < n
page_start b a n lo hi = omega arith

covers_range : (c : Cell) (a : ℕ) → covers c a ≡ 1 → (c.addr ≤ a) × (a < c.addr + 16 + c.size)
covers_range c a e = ground arith

pub covers_le : (c : Cell) (a : ℕ) → covers c a ≤ 1
covers_le c a = ground arith

module _ (v v' : Vmm) (cells : List Cell) (n virt : ℕ) (o : Owns v cells)
    (t : Allocated true v virt n v') where
  -- A page of the block was free.
  was_free : (k : ℕ) → k < n → 1 ≤ kernel_count v (virt + 4096 * k)
  was_free k h = omega (arith, t.counts (virt + 4096 * k), page_in virt k n h)

  pub first_free : 1 ≤ n → 1 ≤ kernel_count v virt
  first_free pos = omega (arith, t.counts virt, first_in virt n pos)

  block_even : 1 ≤ n → virt % 4096 ≡ 0
  block_even pos = omega (arith, o.even (virt + 4096 * 0) (was_free 0 (omega arith)))

  block_below : 1 ≤ n → virt + 4096 * n ≤ 4294967296
  block_below pos = omega (arith, o.below (virt + 4096 * (n - 1)) (was_free (n - 1) (omega arith)))

  block_outside : (a : ℕ) → virt ≤ a → a < virt + 4096 * n → covered cells a ≡ 0
  block_outside a lo hi =
      let k = page_start virt a n lo hi in
      o.outside (virt + 4096 * ((a - virt) / 4096)) a (was_free ((a - virt) / 4096) k) (omega arith)
        (omega arith)

-- The bytes of a new block: whole pages, without the header.
new_size :
    (size : ℕ)
    → size + 16 + 4095 < 4294967296
    → sub32 (grown_bytes size) 16 + 16 ≡ 4096 * grown_pages size
new_size size h = omega (arith, grown_bytes_lem size h, grown_pages_lem size h)

-- The request and two headers fit in the pages, unless the request ends just below a page's end.
pub new_room :
    (size : ℕ)
    → size + 16 + 4095 < 4294967296
    → 1 ≤ (size + 16) % 4096
    → (size + 16) % 4096 ≤ 4080
    → size + 16 ≤ sub32 (grown_bytes size) 16
new_room size h lo hi = omega (arith, new_size size h, grown_pages_lem size h)

module _ (v v' : Vmm) (cells : List Cell) (size virt : ℕ) (o : Owns v cells)
    (t : Allocated true v virt (grown_pages size) v') (small : size + 16 + 4095 < 4294967296)
    (nz : virt ≢ 0) where
  pub some_pages : 1 ≤ grown_pages size
  some_pages = omega (arith, grown_pages_lem size small)

  pub new-IsCell : IsCell (new_cell size virt)
  new-IsCell = record {
    above = omega (arith, nz);
    below =
        omega (
          arith,
          new_size size small,
          block_below v v' cells (grown_pages size) virt o t some_pages,
        );
    addr = omega (arith, block_even v v' cells (grown_pages size) virt o t some_pages);
    size = omega (arith, new_size size small);
  }

  pub new-outside : (a : ℕ) → covers (new_cell size virt) a ≡ 1 → covered cells a ≡ 0
  new-outside a e =
      let (lo, hi) = covers_range (new_cell size virt) a e in
      block_outside v v' cells (grown_pages size) virt o t a lo
        (omega (arith, new_size size small, hi))

covered-append : (xs ys : List Cell) (a : ℕ) → covered (xs ++ ys) a ≡ covered xs a + covered ys a
covered-append [] ys a = omega arith
covered-append (x ∷ xs) ys a = omega (arith, covered-append xs ys a)

-- A page that an address of a block of pages is in is a page of the block.
same_page :
    (b n q a : ℕ)
    → b % 4096 ≡ 0
    → q % 4096 ≡ 0
    → q ≤ a
    → a < q + 4096
    → b ≤ a
    → a < b + 4096 * n
    → in_block q (block b n) ≡ 1
same_page b n q a eb eq l1 l2 l3 l4 =
    let lo : b ≤ q = omega arith in
    let hi : q < b + 4096 * n = omega arith in
    let whole : (q - b) % 4096 ≡ 0 = omega arith in ground arith

module _ (v v' : Vmm) (cells : List Cell) (size virt : ℕ) (o : Owns v cells)
    (t : Allocated true v virt (grown_pages size) v') (small : size + 16 + 4095 < 4294967296)
    (nz : virt ≢ 0) where
  still_free : (q : ℕ) → 1 ≤ kernel_count v' q → 1 ≤ kernel_count v q
  still_free q h = omega (arith, t.counts q)

  not_taken : (q : ℕ) → 1 ≤ kernel_count v' q → in_block q (block virt (grown_pages size)) ≡ 0
  not_taken q h = omega (arith, t.counts q, o.once q)

  pub new-apart :
      (q a : ℕ) → 1 ≤ kernel_count v' q → q ≤ a → a < q + 4096 → covers (new_cell size virt) a ≡ 0
  new-apart q a h lo hi = elim (ℕ_discrete (covers (new_cell size virt) a) 1) [
    | yes e ↦
        let (lo', hi') = covers_range (new_cell size virt) a e in
        absurd (
          omega (
            arith,
            not_taken q h,
            same_page virt (grown_pages size) q a
                (block_even v v' cells (grown_pages size) virt o t
                  (some_pages v v' cells size virt o t small nz))
                (o.even q (still_free q h)) lo hi lo' (omega (arith, new_size size small, hi')),
          ))
    | no ne ↦ omega (arith, covers_le (new_cell size virt) a)
  ]

  pub Owns-grown : size + 16 ≤ sub32 (grown_bytes size) 16 → Owns v' (cells ++ new_cells size virt)
  Owns-grown fit = record {
    space = t.space;
    once = λ q. omega (arith, t.counts q, o.once q);
    even = λ q h. o.even q (still_free q h);
    below = λ q h. o.below q (still_free q h);
    outside = λ q a h lo hi. omega (
      arith,
      covered-append cells (new_cells size virt) a,
      halves-cover (new_cell size virt) size a fit,
      new-apart q a h lo hi,
      o.outside q a (still_free q h) lo hi,
    );
  }

pub Owns-Refused :
    (v v' : Vmm) (cells : List Cell) → Owns v cells → Refused true v v' → Owns v' cells
Owns-Refused v v' cells o t = record {
  space = t.space;
  once = λ q. omega (arith, t.counts q, o.once q);
  even = λ q h. o.even q (omega (arith, t.counts q));
  below = λ q h. o.below q (omega (arith, t.counts q));
  outside = λ q a h. o.outside q a (omega (arith, t.counts q));
}
