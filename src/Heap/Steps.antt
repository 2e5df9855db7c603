-- ===== src/Heap/Steps.antt =====
-- One call of `kmalloc` or `kfree` and the heap that it leaves: the blocks do not overlap, and no page
-- of theirs is free in the kernel's space.
use r_oses.Prelude.{
  ℕ, ◌+◌, ◌%◌, ◌≤◌, ◌<◌, ◌≡◌, ◌≢◌, refl, ap, ap₂, sym, ◌∙◌, arith, List, [], ◌∷◌, ◌++◌, Bool, true,
  false, Option, some, Bool-cases, ◌⊎◌, inl, inr, length,
}
use r_oses.Vmm.{Vmm}
use r_oses.Heap.{Heap, aligned, kmalloc, kfree, status_at}
use r_oses.Heap.Cells.{Cell, cell, status_word, covered, first, rev_append, Chain, AllCells, IsList}
use r_oses.Heap.Abstract.{fits, take_from, free_cells, covered-free_cells}
use r_oses.Heap.Search.{NoFit}
use r_oses.Heap.Alloc.{Granted, kmalloc-Grants}
use r_oses.Heap.Free.{kfree-Frees}
use r_oses.Heap.Pages.{Owns, kernel_count}
use r_oses.Heap.Extend.{Answer, grows, null, kmalloc-Answer}

pub record IsHeap (s : Heap) (cells : List Cell) : Type 0 where
  pub list : IsList s.mem s.start_header cells
  pub pages : Owns s.vmm cells
  pub some_block : s.start_header ≢ 0

-- Only which addresses are covered matters for the free pages.
Owns-covered :
    (v : Vmm) (xs ys : List Cell) → ((a : ℕ) → covered ys a ≡ covered xs a) → Owns v xs → Owns v ys
Owns-covered v xs ys same o = record {
  space = o.space;
  once = o.once;
  even = o.even;
  below = o.below;
  outside = λ q a h lo hi. same a ∙ o.outside q a h lo hi;
}

-- The list that a memory holds is determined by it.
status_word-inj : (a b : Bool) → status_word a ≡ status_word b → a ≡ b
status_word-inj true true e = refl
status_word-inj false false e = refl
status_word-inj true false e = absurd (omega arith)
status_word-inj false true e = absurd (omega arith)

cell_eq : (a b n m : ℕ) (u w : Bool) → a ≡ b → n ≡ m → u ≡ w → cell a n u ≡ cell b m w
cell_eq a b n m u w e e' e'' = rw (e, e', e'') refl

Chain-unique :
    (mem : ℕ → ℕ) (p q : ℕ) (xs ys : List Cell)
    → AllCells xs
    → AllCells ys
    → first xs ≡ first ys
    → Chain mem p xs
    → Chain mem q ys
    → xs ≡ ys
Chain-unique mem p q [] [] _ _ e _ _ = refl
Chain-unique mem p q [] (y ∷ ys) _ (w, _) e _ _ = absurd (omega (arith, w.above))
Chain-unique mem p q (x ∷ xs) [] (w, _) _ e _ _ = absurd (omega (arith, w.above))
Chain-unique mem p q (x ∷ xs) (y ∷ ys) (_, wx) (_, wy) e (h, t) (k, u) =
    ap₂ (λ z zs. z ∷ zs)
      (cell_eq x.addr y.addr x.size y.size x.used y.used e (sym h.size ∙ ap mem e ∙ k.size)
        (status_word-inj x.used y.used (sym h.status ∙ ap (λ a. mem (status_at a)) e ∙ k.status)))
      (Chain-unique mem x.addr y.addr xs ys wx wy (sym h.next ∙ ap (λ a. mem (a + 8)) e ∙ k.next) t
        u)

pub IsList-unique :
    (mem : ℕ → ℕ) (start : ℕ) (xs ys : List Cell)
    → IsList mem start xs
    → IsList mem start ys
    → xs ≡ ys
IsList-unique mem start xs ys v w =
    Chain-unique mem 0 0 xs ys v.cells w.cells (sym v.start ∙ w.start) v.chain w.chain

-- The list is not empty.
pub cons_of :
    (mem : ℕ → ℕ) (start : ℕ) (xs : List Cell)
    → IsList mem start xs
    → start ≢ 0
    → (c : Cell) × (cs : List Cell) × (xs ≡ c ∷ cs)
cons_of mem start [] v nz = absurd (nz v.start)
cons_of mem start (x ∷ xs) v nz = (x, xs, refl)

-- Whether a request can be granted from the list.
NoFit-cases : (size : ℕ) (cs : List Cell) → NoFit size cs ⊎ ¬ NoFit size cs
NoFit-cases size [] = inl tt
NoFit-cases size (c ∷ cs) = elim (Bool-cases (fits c size)) [
  | inl e ↦ inr (λ (no_fit : NoFit size (c ∷ cs)). absurd (cc (e, no_fit.0)))
  | inr e ↦ elim (NoFit-cases size cs) [
    | inl n ↦ inl (e, n)
    | inr f ↦ inr (λ (no_fit : NoFit size (c ∷ cs)). f no_fit.1)
  ]
]

-- The request is one that `kmalloc` handles, and the fresh pages hold 0 in their third word.
pub record MayAsk (s : Heap) (n : ℕ) : Type 0 where
  pub small : n + 4118 < 4294967296
  pub some_bytes : 1 ≤ (aligned n + 16) % 4096
  pub room : (aligned n + 16) % 4096 ≤ 4080
  pub fresh : (q : ℕ) → 1 ≤ kernel_count s.vmm q → s.mem (q + 8) ≡ 0

granted-IsHeap :
    (s : Heap) (size : ℕ) (xs ls : List Cell) (c : Cell) (rs : List Cell) (p : ℕ) (s' : Heap)
    → xs ≡ rev_append ls (c ∷ rs)
    → Owns s.vmm xs
    → s.start_header ≢ 0
    → Granted s size ls c rs p s'
    → IsHeap s' (rev_append ls ((take_from c size).1 ++ rs))
granted-IsHeap s size xs ls c rs p s' e o nz g = record {
  list = g.list;
  pages = rw g.vmm (Owns-covered s.vmm xs _ (λ a. g.covers a ∙ ap (λ ys. covered ys a) (sym e)) o);
  some_block = λ z. nz (sym g.start ∙ z);
}

pub kmalloc-IsHeap :
    (fuel : ℕ) (s : Heap) (n : ℕ) (c : Cell) (cs : List Cell)
    → IsHeap s (c ∷ cs)
    → length cs < fuel
    → MayAsk s n
    → (p : ℕ) × (s' : Heap) × (cells : List Cell) × (kmalloc fuel s n ≡ some (p, s'))
      × IsHeap s' cells
kmalloc-IsHeap fuel s n c cs v h ask = elim (NoFit-cases (aligned n) (c ∷ cs)) [
  | inr f ↦
      let (ls, d, rs, p, s', e, _, _, run, g) =
        kmalloc-Grants fuel s n c cs v.list h (omega (arith, ask.small)) f in
      (p, s', _, run, granted-IsHeap s (aligned n) (c ∷ cs) ls d rs p s' e v.pages v.some_block g)
  | inl busy ↦ answered (kmalloc fuel s n) (
      kmalloc-Answer fuel s n c cs v.list h busy v.pages ask.fresh ask.small ask.some_bytes
        ask.room)
]
  where
    answered :
        (r : Option (ℕ × Heap))
        → Answer s (aligned n) (c ∷ cs) r
        → (p : ℕ) × (s' : Heap) × (cells : List Cell) × (r ≡ some (p, s')) × IsHeap s' cells
    answered _ (grows {p = p} {s' = s'} g o) = (
      p,
      s',
      _,
      refl,
      record { list = g.list; pages = o; some_block = λ z. v.some_block (sym g.start ∙ z) },
    )
    answered _ (null {s' = s'} w _ _ o) = (
      0,
      s',
      _,
      refl,
      record {
        list = w;
        pages = o;
        some_block = λ z. absurd (omega (arith, w.start, w.cells.0.above, z));
      },
    )

pub kfree-IsHeap :
    (fuel : ℕ) (s : Heap) (ls : List Cell) (c : Cell) (rs : List Cell)
    → IsHeap s (rev_append ls (c ∷ rs))
    → length ls + length rs < fuel
    → (s' : Heap) × (kfree fuel s (c.addr + 16) ≡ some s') × IsHeap s' (free_cells ls c rs)
kfree-IsHeap fuel s ls c rs v h =
    let (mem, run, w, _) = kfree-Frees ls c rs fuel s v.list h in
    (
      record s { mem = mem },
      run,
      record {
        list = w;
        pages =
            Owns-covered s.vmm (rev_append ls (c ∷ rs)) (free_cells ls c rs)
              (covered-free_cells ls c rs) v.pages;
        some_block = v.some_block;
      },
    )
