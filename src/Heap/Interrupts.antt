-- ===== src/Heap/Interrupts.antt =====
-- `kmalloc_lock` and `kmalloc_unlock`: the processor's interrupt flag over a call of `kmalloc`.
use r_oses.Prelude.{◌≡◌, refl, Bool, true, false}
use r_oses.Heap.{Heap, kmalloc_unlock}

pub unlocked :
    (i : Bool) (s : Heap)
    → kmalloc_unlock (record s { interrupts = false; flags = i })
      ≡ record s { interrupts = i; flags = i }
unlocked true s = refl
unlocked false s = refl
