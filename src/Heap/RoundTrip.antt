-- ===== src/Heap/RoundTrip.antt =====
-- What `kmalloc` gives, `kfree` takes back.
use r_oses.Prelude.{
  ℕ, ◌+◌, ◌-◌, ◌≤◌, ◌<◌, ◌≡◌, ap, ◌∙◌, arith, List, [], ◌∷◌, true, false, ◌==◌, some, Bool-cases,
  inl, inr, length,
}
use r_oses.Heap.{Heap, aligned, kmalloc, kfree}
use r_oses.Heap.Cells.{Cell, cell, covered, lends, lent, within, rev_append, IsCell, IsList}
use r_oses.Heap.Places.{place}
use r_oses.Heap.Abstract.{fits, free_cells, covered-free_cells, lent-free_cells}
use r_oses.Heap.Search.{NoFit}
use r_oses.Heap.Free.{kfree-Frees}
use r_oses.Heap.Alloc.{Granted, kmalloc-Grants, aligned_lem}

length-rev_append : (ls rs : List Cell) → length (rev_append ls rs) ≡ length ls + length rs
length-rev_append [] rs = omega arith
length-rev_append (l ∷ ls) rs = omega (arith, length-rev_append ls (l ∷ rs))

-- After the call, the heap lends what `cs` lends, and covers what `cs` covers.
pub Restored : (fuel : ℕ) (s : Heap) (p : ℕ) → List Cell → Type 0
Restored fuel s p cs =
    (mem : ℕ → ℕ) × (cs' : List Cell) × (kfree fuel s p ≡ some (record s { mem = mem }))
    × IsList mem s.start_header cs'
    × ((a : ℕ) → lent cs' a ≡ lent cs a)
    × ((a : ℕ) → covered cs' a ≡ covered cs a)

Restored_eq :
    (fuel : ℕ) (s : Heap) (p : ℕ) (xs ys : List Cell)
    → xs ≡ ys
    → Restored fuel s p ys
    → Restored fuel s p xs
Restored_eq fuel s p xs ys e r = rw e r

-- The block `t` of a heap is freed that lends more than `cs` by that block.
freed :
    (fuel : ℕ) (s : Heap) (p : ℕ) (ls : List Cell) (t : Cell) (rs cs : List Cell)
    → IsList s.mem s.start_header (rev_append ls (t ∷ rs))
    → p ≡ t.addr + 16
    → length ls + length rs < fuel
    → ((a : ℕ) → lent (rev_append ls (t ∷ rs)) a ≡ lent cs a + lends t a)
    → ((a : ℕ) → covered (rev_append ls (t ∷ rs)) a ≡ covered cs a)
    → Restored fuel s p cs
unfolding Restored
freed fuel s p ls t rs cs v e h more same =
    let (mem, f, w, _) = kfree-Frees ls t rs fuel s v h in
    (
      mem,
      free_cells ls t rs,
      rw e f,
      w,
      λ a. omega (arith, more a, lent-free_cells ls t rs a),
      λ a. covered-free_cells ls t rs a ∙ same a,
    )

Granted-Restored :
    (fuel : ℕ) (s : Heap) (size : ℕ) (ls : List Cell) (c : Cell) (rs : List Cell) (p : ℕ)
    (s' : Heap)
    → Granted s size ls c rs p s'
    → IsCell c
    → 0 < size
    → fits c size ≡ true
    → length ls + length rs + 1 < fuel
    → Restored fuel s' p (rev_append ls (c ∷ rs))
Granted-Restored fuel s size ls c rs p s' g w pos fit h = elim (Bool-cases (c.size == size)) [
  | inl e ↦
      let same : (c.size ≡ size) = ground arith in
      freed fuel s' p ls (cell c.addr c.size true) rs (rev_append ls (c ∷ rs)) (rw e at g.list)
        (omega (arith, rw e at g.address, w.below)) (omega arith)
        (λ a. omega (arith, rw e at g.lends a, ap (λ n. within (c.addr + 16) n a) same))
        (λ a. rw e at g.covers a)
  | inr e ↦
      let more : (size + 16 ≤ c.size) = ground arith in
      freed fuel s' p (cell c.addr (c.size - (size + 16)) false ∷ ls)
        (cell (c.addr + (c.size - size)) size true) rs (rev_append ls (c ∷ rs)) (rw e at g.list)
        (omega (arith, rw e at g.address, w.below)) (omega arith) (λ a. rw e at g.lends a)
        (λ a. rw e at g.covers a)
]

cells_of :
    {mem : ℕ → ℕ} {start : ℕ} (xs ls : List Cell) (d : Cell) (rs : List Cell)
    → xs ≡ rev_append ls (d ∷ rs)
    → IsList mem start xs
    → IsCell d
cells_of xs ls d rs e v = let (_, (w, _), _) = place ls (d ∷ rs) (rw e at v) in w

-- For a list of blocks that do not overlap, with fuel for two more, a request of at least one
-- byte and below 4 GiB less 23 bytes, and a free block that is large enough, kfree takes back
-- what kmalloc gave: the heap lends and covers the bytes it did before, and its blocks do not
-- overlap.
pub kmalloc-kfree :
    (fuel : ℕ) (s : Heap) (n : ℕ) (c : Cell) (cs : List Cell)
    → IsList s.mem s.start_header (c ∷ cs)
    → length cs + 2 < fuel
    → 0 < n
    → n + 23 < 4294967296
    → ¬ NoFit (aligned n) (c ∷ cs)
    → (p : ℕ) × (s' : Heap) × (kmalloc fuel s n ≡ some (p, s')) × Restored fuel s' p (c ∷ cs)
kmalloc-kfree fuel s n c cs v h pos small some_fit =
    let (ls, d, rs, p, s', e, _, fit, run, g) =
      kmalloc-Grants fuel s n c cs v (omega arith) small some_fit in
    let len = length-rev_append ls (d ∷ rs) in
    let back =
      Granted-Restored fuel s (aligned n) ls d rs p s' g (cells_of (c ∷ cs) ls d rs e v)
        (omega (arith, aligned_lem n (omega arith))) fit (omega (arith, len, ap length e)) in
    (p, s', run, Restored_eq fuel s' p (c ∷ cs) _ e back)
