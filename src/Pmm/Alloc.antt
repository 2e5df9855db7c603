-- ===== src/Pmm/Alloc.antt =====
-- `alloc_page` and `free_page` against the multiset of free pages.
use r_oses.Prelude.{
  dec_lt, ℕ, ◌+◌, ◌-◌, ◌*◌, ◌≤◌, ◌<◌, ◌≡◌, arith, ◌==◌, if◌then◌else◌, mul32, add32, sub32,
}
use r_oses.Prelude.Slots.{sum_to, update, sum_to-update, sum_to-pop}
use r_oses.Pmm.{Block, block, Pmm, alloc_page}
use r_oses.Pmm.Pages.{in_block, free_count, IsBlock, IsValid, in_block-last}

-- With no free block there is no page, and nothing changes.
pub alloc_page_none : (s : Pmm) → s.last ≡ 0 → alloc_page s ≡ (0, s)
unfolding alloc_page
alloc_page_none s h = ground arith

-- The two ways to take a page: the last one of a block, which goes with its slot, and another.
module _ (s : Pmm) (v : IsValid s) (h : 1 ≤ s.last) where
  abbrev pub top : Block
  top = s.blocks s.last

  top-IsBlock : IsBlock top
  top-IsBlock = v.live s.last h (omega arith)

  pub alloc_page_whole :
      top.len ≡ 1
      → alloc_page s ≡ (
        top.addr,
        record s {
          blocks = update s.blocks s.last (record top { len = sub32 top.len 1 });
          last = s.last - 1;
        },
      )
  unfolding alloc_page
  alloc_page_whole e = ground (arith, top-IsBlock)

  pub alloc_page_part :
      1 < top.len
      → alloc_page s ≡ (
        add32 top.addr (mul32 4096 (sub32 top.len 1)),
        record s { blocks = update s.blocks s.last (record top { len = sub32 top.len 1 }) },
      )
  unfolding alloc_page
  alloc_page_part e = ground (arith, top-IsBlock)

-- `p` is a page that was free once more than it is now; nothing else is different.
pub record Taken (s : Pmm) (p : ℕ) (s' : Pmm) : Type 0 where
  pub counts : (q : ℕ) → free_count s q ≡ free_count s' q + (if q == p then 1 else 0)
  pub page : IsBlock (block p 1)
  pub valid : IsValid s'
  pub fewer : s'.last ≤ s.last

module _ (s : Pmm) (v : IsValid s) (h : 1 ≤ s.last) where
  abbrev end_page : ℕ
  end_page = (s.blocks s.last).addr + 4096 * ((s.blocks s.last).len - 1)

  whole-counts :
      (b : Block) (q : ℕ)
      → (s.blocks s.last).len ≡ 1
      → sum_to (in_block q) s.blocks s.last
        ≡ sum_to (in_block q) (update s.blocks s.last b) (s.last - 1)
          + (if q == (s.blocks s.last).addr then 1 else 0)
  whole-counts b q e =
      ground (
        arith,
        sum_to-pop (in_block q) s.blocks b s.last h,
        in_block-last q (s.blocks s.last).addr 0,
      )

  part-counts :
      (q : ℕ)
      → 1 < (s.blocks s.last).len
      → sum_to (in_block q) s.blocks s.last
        ≡ sum_to
            (in_block q)
            (update s.blocks s.last
              (record (s.blocks s.last) { len = sub32 (s.blocks s.last).len 1 }))
            s.last
          + (if q == add32 (s.blocks s.last).addr (mul32 4096 (sub32 (s.blocks s.last).len 1))
              then 1
              else 0)
  part-counts q e = ground (
    arith,
    v.live s.last h (omega arith),
    sum_to-update (in_block q) s.blocks s.last
        (record (s.blocks s.last) { len = sub32 (s.blocks s.last).len 1 }) s.last h (omega arith),
    in_block-last q (s.blocks s.last).addr ((s.blocks s.last).len - 1),
  )

-- With a valid block in use, alloc_page hands out a page that was free, and takes that page
-- once, and no other, from the free ones.
pub alloc_page-Taken :
    (s : Pmm) → IsValid s → 1 ≤ s.last → Taken s (alloc_page s).0 (alloc_page s).1
alloc_page-Taken s v h = elim (dec_lt 1 (s.blocks s.last).len) [
  | yes more ↦ rw (alloc_page_part s v h more) (record {
    counts = λ q. part-counts s v h q more;
    page = omega (arith, v.live s.last h (omega arith));
    valid = record {
      live = λ j lo hi. ground (arith, v.live s.last h (omega arith), v.live j lo hi);
    };
    fewer = omega arith;
  })
  | no less ↦
      let one : (s.blocks s.last).len ≡ 1 = omega (arith, v.live s.last h (omega arith)) in
      rw (alloc_page_whole s v h one) (record {
        counts = λ q. whole-counts s v h _ q one;
        page = omega (arith, v.live s.last h (omega arith));
        valid = record { live = λ j lo hi. ground (arith, v.live j lo (omega arith)) };
        fewer = omega arith;
      })
]

-- A bound from below on every block in use bounds the page, and holds afterwards.
pub alloc_page-above_first :
    (s : Pmm)
    → IsValid s
    → 1 ≤ s.last
    → ((j : ℕ) → 1 ≤ j → j ≤ s.last → 4096 ≤ (s.blocks j).addr)
    → (4096 ≤ (alloc_page s).0)
      × ((j : ℕ) → 1 ≤ j → j ≤ (alloc_page s).1.last → 4096 ≤ ((alloc_page s).1.blocks j).addr)
alloc_page-above_first s v h low = elim (dec_lt 1 (s.blocks s.last).len) [
  | yes more ↦ rw (alloc_page_part s v h more) (
    omega (arith, v.live s.last h (omega arith), low s.last h (omega arith)),
    λ j lo hi. ground (arith, low j lo hi, low s.last h (omega arith)),
  )
  | no less ↦
      let one : (s.blocks s.last).len ≡ 1 = omega (arith, v.live s.last h (omega arith)) in
      rw (alloc_page_whole s v h one)
        (low s.last h (omega arith), λ j lo hi. ground (arith, low j lo (omega arith)))
]
