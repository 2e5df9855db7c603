-- ===== src/Heap/Tests.antt =====
-- Runs of kernel/arch/i386/heap.c on small heaps.
use r_oses.Prelude.{ℕ, ◌+◌, ◌≤◌, ◌≡◌, refl, arith, List, [], ◌∷◌, true, false, some}
use r_oses.Prelude.Slots.{update}
use r_oses.Pmm.{block}
use r_oses.Vmm.{Vmm, vmm_init}
use r_oses.Vmm.Tests.{small_state, one_page_given, one_page_run}
use r_oses.Heap.{Heap, heap_free, heap_used, aligned, kmalloc, kfree}
use r_oses.Heap.Cells.{Cell, cell, lent, lends, rev_append, IsCell, IsList}
use r_oses.Heap.Abstract.{fits, free_cells}
use r_oses.Heap.Search.{NoFit}
use r_oses.Heap.Alloc.{Granted, kmalloc-Grants}
use r_oses.Heap.Free.{kfree-Frees}
use r_oses.Heap.RoundTrip.{Restored, kmalloc-kfree}
use r_oses.Heap.Loop.{kmalloc_self}
use r_oses.Heap.Steps.{IsHeap, MayAsk, kmalloc-IsHeap}
use r_oses.Heap.Start.{
  Ready, Tags, find_tag, find_tag_lem, kernel_block, started_count, started-Owns,
}

-- One free block.
abbrev arena : Cell
arena = cell 0x1000 4080 false

abbrev arena_words : ℕ → ℕ
arena_words = update (update (λ _. 0) 0x1000 4080) 0x1004 heap_free

abbrev empty_state : Vmm
empty_state = record small_state { kernel_space = record { blocks = λ _. block 0 0; last = 0 } }

abbrev arena_heap : Heap
arena_heap = record {
  mem = arena_words;
  start_header = 0x1000;
  interrupts = true;
  flags = false;
  vmm = vmm_init empty_state;
}

arena-IsCell : IsCell arena
arena-IsCell = record {
  above = omega arith;
  below = omega arith;
  addr = omega arith;
  size = omega arith;
}

arena-IsList : IsList arena_words 0x1000 (arena ∷ [])
arena-IsList = record {
  start = refl;
  chain = (record { size = refl; status = refl; next = refl; prev = refl }, tt);
  cells = (arena-IsCell, tt);
  apart = λ a. ground arith;
}

fits_100 : ¬ NoFit (aligned 100) (arena ∷ [])
unfolding aligned
fits_100 (e, _) = absurd cc

kmalloc-Grants_example :
    (ls : List Cell) × (d : Cell) × (rs : List Cell) × (p : ℕ) × (s' : Heap) × (arena ∷ []
      ≡ rev_append ls (d ∷ rs))
    × NoFit (aligned 100) ls
    × (fits d (aligned 100) ≡ true)
    × (kmalloc 1 arena_heap 100 ≡ some (p, s'))
    × Granted arena_heap (aligned 100) ls d rs p s'
kmalloc-Grants_example =
    kmalloc-Grants 1 arena_heap 100 arena [] arena-IsList (omega arith) (omega arith) fits_100

kmalloc-kfree_example :
    (p : ℕ) × (s' : Heap) × (kmalloc 3 arena_heap 100 ≡ some (p, s')) × Restored 3 s' p (arena ∷ [])
kmalloc-kfree_example =
    kmalloc-kfree 3 arena_heap 100 arena [] arena-IsList (omega arith) (omega arith) (omega arith)
      fits_100

-- A free block in front of a used one.
abbrev front : Cell
front = cell 0x1000 32 false

abbrev taken : Cell
taken = cell 0x1030 64 true

abbrev pair_words : ℕ → ℕ
pair_words =
    update
      (update
        (update (update (update (update (λ _. 0) 0x1000 32) 0x1004 heap_free) 0x1008 0x1030) 0x1030
          64)
        0x1034 heap_used)
      0x103c 0x1000

abbrev pair_heap : Heap
pair_heap = record arena_heap { mem = pair_words }

pair-IsList : IsList pair_words 0x1000 (front ∷ taken ∷ [])
pair-IsList = record {
  start = refl;
  chain = (
    record { size = refl; status = refl; next = refl; prev = refl },
    (record { size = refl; status = refl; next = refl; prev = refl }, tt),
  );
  cells = (
    record { above = omega arith; below = omega arith; addr = omega arith; size = omega arith },
    (
      record { above = omega arith; below = omega arith; addr = omega arith; size = omega arith },
      tt,
    ),
  );
  apart = λ a. ground arith;
}

kfree-Frees_example :
    (mem' : ℕ → ℕ) × (kfree 2 pair_heap (0x1030 + 16) ≡ some (record pair_heap { mem = mem' }))
    × IsList mem' 0x1000 (free_cells (front ∷ []) taken [])
    × ((a : ℕ)
        → lent (free_cells (front ∷ []) taken []) a + lends taken a
          ≡ lent (rev_append (front ∷ []) (taken ∷ [])) a)
kfree-Frees_example = kfree-Frees (front ∷ []) taken [] 2 pair_heap pair-IsList (omega arith)

-- The pages of the kernel's space are above the arena.
page_above : (q : ℕ) → 1 ≤ kernel_block q → 0xC0400000 ≤ q
page_above q h = ground arith

-- Information of two tags, the second of the memory map.
abbrev boot_words : ℕ → ℕ
boot_words =
    update (update (update (update (update (λ _. 0) 0x9000 40) 0x9008 1) 0x900c 12) 0x9018 6) 0x901c
      16

boot-Tags : Tags boot_words 0x9028 0x9008 ((1, 12) ∷ (6, 16) ∷ [])
boot-Tags =
    (omega arith, refl, refl, omega arith, (omega arith, refl, refl, omega arith, omega arith))

find_tag_lem_example : find_tag 3 boot_words 0x9000 6 0x9008 ≡ some 0x9018
find_tag_lem_example =
    find_tag_lem 3 boot_words 0x9000 6 0x9008 ((1, 12) ∷ (6, 16) ∷ []) boot-Tags (omega arith)

abbrev boot_heap : Heap
boot_heap = record arena_heap { mem = boot_words; vmm = empty_state }

-- A block in use, and a request that fills a page with its header.
abbrev taken_block : Cell
taken_block = cell 0x1000 4080 true

abbrev taken_heap : Heap
taken_heap = record arena_heap {
  mem = update (update (λ _. 0) 0x1000 4080) 0x1004 heap_used;
  vmm = small_state;
}

taken_heap-IsList : IsList taken_heap.mem 0x1000 (taken_block ∷ [])
taken_heap-IsList = record {
  start = refl;
  chain = (record { size = refl; status = refl; next = refl; prev = refl }, tt);
  cells = (
    record { above = omega arith; below = omega arith; addr = omega arith; size = omega arith },
    tt,
  );
  apart = λ a. ground arith;
}

kmalloc_self_example :
    (s' : Heap) × (kmalloc 1 taken_heap 4080 ≡ some (0x410010, s')) × (s'.mem 0x410008 ≡ 0x410000)
unfolding aligned
kmalloc_self_example =
    kmalloc_self 1 taken_heap 4080 taken_block [] 0x410000 one_page_given.1 taken_heap-IsList
      (omega arith) (refl, tt) one_page_run (omega arith) (omega arith) (omega arith) (omega arith)
      (omega arith)

-- The heap as `heap_init` leaves it, at 0x1000.
abbrev first_block : Cell
first_block = cell 0x1000 65520 false

abbrev first_heap : Heap
first_heap = record arena_heap { mem = update (update (λ _. 0) 0x1000 65520) 0x1004 heap_free }

first_heap-IsList : IsList first_heap.mem 0x1000 (first_block ∷ [])
first_heap-IsList = record {
  start = refl;
  chain = (record { size = refl; status = refl; next = refl; prev = refl }, tt);
  cells = (
    record { above = omega arith; below = omega arith; addr = omega arith; size = omega arith },
    tt,
  );
  apart = λ a. ground arith;
}

first_heap-Ready : Ready first_heap
first_heap-Ready = record {
  list = first_heap-IsList;
  pages =
      let o = started-Owns empty_state refl in
      record {
        space = o.space;
        once = o.once;
        even = o.even;
        below = o.below;
        outside = λ q a h lo hi.
            let far = page_above q (rw (started_count empty_state q refl) at h) in ground arith;
      };
}

first_heap-IsHeap : IsHeap first_heap (first_block ∷ [])
first_heap-IsHeap = record {
  list = first_heap-IsList;
  pages = first_heap-Ready.pages;
  some_block = λ z. omega arith;
}

first_heap-MayAsk : MayAsk first_heap 100
unfolding aligned
first_heap-MayAsk = record {
  small = omega arith;
  some_bytes = omega arith;
  room = omega arith;
  fresh =
      λ q h. let far = page_above q (rw (started_count empty_state q refl) at h) in ground arith;
}

-- The heap after a request of 100 bytes.
abbrev asked :
    (p : ℕ) × (s' : Heap) × (cells : List Cell) × (kmalloc 2 first_heap 100 ≡ some (p, s'))
    × IsHeap s' cells
asked =
    kmalloc-IsHeap 2 first_heap 100 first_block [] first_heap-IsHeap (omega arith) first_heap-MayAsk
