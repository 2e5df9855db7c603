-- ===== src/Heap/Reach.antt =====
-- The states of the heap that calls of `kmalloc` and `kfree` lead to from `heap_init`.
use r_oses.Prelude.{ℕ, ◌+◌, ◌<◌, ◌≡◌, List, ◌∷◌, some, length}
use r_oses.Heap.{Heap, kmalloc, kfree}
use r_oses.Heap.Cells.{Cell, rev_append, IsList}
use r_oses.Heap.Start.{Ready}
use r_oses.Heap.Steps.{MayAsk}

-- A call with fuel for every list that the memory may hold.
abbrev pub Enough : ℕ → Heap → Type 0
Enough fuel s = (cells : List Cell) → IsList s.mem s.start_header cells → length cells < fuel

-- `kmalloc` of a size that it handles, and `kfree` of a block of the heap.
pub data Step (s : Heap) : Heap → Type 0 where
  asks :
      {s' : Heap} (fuel n p : ℕ)
      → Enough fuel s
      → MayAsk s n
      → kmalloc fuel s n ≡ some (p, s')
      → Step s s'
  gives_back :
      {s' : Heap} (fuel : ℕ) (ls : List Cell) (c : Cell) (rs : List Cell)
      → Enough fuel s
      → IsList s.mem s.start_header (rev_append ls (c ∷ rs))
      → kfree fuel s (c.addr + 16) ≡ some s'
      → Step s s'

pub data Reached : Heap → Type 0 where
  booted : {s : Heap} → Ready s → Reached s
  then_step : {s s' : Heap} → Reached s → Step s s' → Reached s'
