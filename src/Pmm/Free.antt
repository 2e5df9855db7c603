-- ===== src/Pmm/Free.antt =====
-- `free_page` against the multiset of free pages, and what it is to `alloc_page`.
use r_oses.Prelude.{ℕ, ◌+◌, ◌≤◌, ◌<◌, ◌≡◌, ◌≢◌, arith, ◌==◌, if◌then◌else◌, ℕ_discrete, add32}
use r_oses.Prelude.Slots.{update, sum_to-update, sum_to-push}
use r_oses.Pmm.{Block, block, Pmm, free_array_size, end_of, alloc_page, free_page}
use r_oses.Pmm.Pages.{in_block, free_count, IsBlock, IsValid, in_block-last}

-- `p` is free once more than it was; nothing else is different.
pub record Released (s : Pmm) (p : ℕ) (s' : Pmm) : Type 0 where
  pub counts : (q : ℕ) → free_count s' q ≡ free_count s q + (if q == p then 1 else 0)
  pub valid : IsValid s'
  pub more : s'.last ≤ s.last + 1
  pub few : s'.last ≤ free_array_size

-- With no block in use `free_page` reads the place in front of the array, which must not happen to
-- look like a block that ends at the page; with every slot in use it may write behind the array.
abbrev pub CanFree : Pmm → ℕ → Type 0
CanFree s p =
    IsBlock (block p 1) × (s.last ≡ 0 → end_of (s.blocks 0) ≢ p) × (s.last < free_array_size)

abbrev grown : Pmm → Block
grown s = record (s.blocks s.last) { len = add32 (s.blocks s.last).len 1 }

module _ (s : Pmm) (p : ℕ) (v : IsValid s) (c : CanFree s p) where
  free_page_grow :
      p ≡ end_of (s.blocks s.last)
      → free_page s p ≡ record s { blocks = update s.blocks s.last (grown s) }
  unfolding free_page
  free_page_grow e = ground arith

  free_page_push :
      p ≢ end_of (s.blocks s.last)
      → free_page s p
        ≡ record s { blocks = update s.blocks (s.last + 1) (block p 1); last = s.last + 1 }
  unfolding free_page
  free_page_push e = ground arith

  last-pos : p ≡ end_of (s.blocks s.last) → 1 ≤ s.last
  last-pos e = elim (ℕ_discrete s.last 0) [
    | yes z ↦ absurd (c.1 z (ground arith))
    | no nz ↦ omega arith
  ]

-- In valid slots with one to spare, free_page makes the page free once more, changes no other
-- page, and stays within the slots, where the place in front of the array does not look like a
-- block that ends at the page.
pub free_page-Released : (s : Pmm) (p : ℕ) → IsValid s → CanFree s p → Released s p (free_page s p)
free_page-Released s p v c = elim (ℕ_discrete p (end_of (s.blocks s.last))) [
  | yes e ↦
      let h = last-pos s p v c e in
      rw (free_page_grow s p v c e) (record {
        counts = λ q. ground (
          arith,
          v.live s.last h (omega arith),
          sum_to-update (in_block q) s.blocks s.last (grown s) s.last h (omega arith),
          in_block-last q (s.blocks s.last).addr (s.blocks s.last).len,
        );
        valid = record {
          live = λ j lo hi. ground (arith, v.live s.last h (omega arith), v.live j lo hi);
        };
        more = omega arith;
        few = omega (arith, c);
      })
  | no ne ↦ rw (free_page_push s p v c ne) (record {
    counts = λ q.
        ground (arith, sum_to-push (in_block q) s.blocks (block p 1) s.last, in_block-last q p 0);
    valid = record {
      live = λ j lo hi. elim (ℕ_discrete j (s.last + 1)) [
        | yes e ↦ ground arith
        | no nj ↦ ground (arith, v.live j lo (omega arith))
      ];
    };
    more = omega arith;
    few = omega (arith, c);
  })
]

-- A page that was just freed is the next one handed out, and the slots in use are those from before.
pub record SameSlots (s s' : Pmm) : Type 0 where
  pub last : s'.last ≡ s.last
  pub live : (j : ℕ) → 1 ≤ j → j ≤ s.last → s'.blocks j ≡ s.blocks j
  pub pointer : s'.coalesce_ptr ≡ s.coalesce_ptr

-- In valid slots with one to spare, and where the place in front of the array does not look like
-- a block that ends at the page, a page that was just freed is the next one handed out, and the
-- slots in use are the ones from before.
pub alloc_page-free_page :
    (s : Pmm) (p : ℕ)
    → IsValid s
    → CanFree s p
    → ((alloc_page (free_page s p)).0 ≡ p) × SameSlots s (alloc_page (free_page s p)).1
unfolding alloc_page
alloc_page-free_page s p v c = elim (ℕ_discrete p (end_of (s.blocks s.last))) [
  | yes e ↦
      let h = last-pos s p v c e in
      rw (free_page_grow s p v c e) (
        ground (arith, v.live s.last h (omega arith)),
        record {
          last = ground (arith, v.live s.last h (omega arith));
          live = λ j lo hi. ground (arith, v.live s.last h (omega arith), v.live j lo hi);
          pointer = ground (arith, v.live s.last h (omega arith));
        },
      )
  | no ne ↦ rw (free_page_push s p v c ne) (
    ground arith,
    record { last = ground arith; live = λ j lo hi. ground arith; pointer = ground arith },
  )
]

pub coalesce_ptr-free_page : (s : Pmm) (p : ℕ) → (free_page s p).coalesce_ptr ≡ s.coalesce_ptr
unfolding free_page
coalesce_ptr-free_page s p = ground arith

pub last-free_page : (s : Pmm) (p : ℕ) → s.last ≤ (free_page s p).last
unfolding free_page
last-free_page s p = ground arith
