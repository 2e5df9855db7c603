-- ===== src/Heap/Free.antt =====
-- `kfree` does to the list in memory what `free_cells` does to the list of blocks.
use r_oses.Prelude.{
  ℕ, zero, suc, ◌+◌, ◌%◌, ◌≤◌, ◌<◌, ◌≡◌, refl, ap, arith, List, [], ◌∷◌, true, false, ◌&&◌, ◌||◌,
  not, ◌==◌, some, Bool-cases, inl, inr, add32, sub32, length, ℕ_discrete,
}
use r_oses.Heap.{
  Heap, header_size, heap_free, heap_used, status_at, is_free, absorb, joins, absorb_prev,
  absorb_next, kfree_words, kfree,
}
use r_oses.Heap.Cells.{Cell, cell, status_word, lent, lends, first, rev_append, IsCell, IsList}
use r_oses.Heap.Places.{replace-IsList, place, mark-IsList}
use r_oses.Heap.Absorb.{union, covers-union, Joined, absorb-Joined}
use r_oses.Heap.Abstract.{meets, join_back, join_next, free_cells, lent-free_cells}

-- A block that ends with the last address ends at 0, where no other block begins.
end_test :
    (a n b : ℕ)
    → a + 16 + n ≤ 4294967296
    → 0 < b
    → b < 4294967296
    → (add32 (add32 a header_size) n == b) ≡ (a + 16 + n == b)
end_test a n b h lo hi =
    let e : add32 (add32 a header_size) n ≡ (a + 16 + n) % 4294967296 = omega arith in
    rw e (elim (ℕ_discrete (a + 16 + n) 4294967296) [
      | yes q ↦ rw q (ground arith)
      | no ne ↦ ap (λ t. t == b) (omega arith)
    ])

-- The loops' condition, where the headers in memory are those of cells.
pub joins-meets :
    (mem : ℕ → ℕ) (a b o : Cell)
    → mem a.addr ≡ a.size
    → mem (status_at o.addr) ≡ status_word o.used
    → IsCell a
    → IsCell b
    → IsCell o
    → joins mem a.addr b.addr o.addr ≡ meets a b o
joins-meets mem a b o e e' wa wb wo =
    let nz : ((o.addr == 0) ≡ false) = ground (arith, wo.above) in
    let status : (is_free mem o.addr ≡ not o.used) = ground arith in
    rw (nz, status, e)
      (ap (λ t. not o.used && t)
        (end_test a.addr a.size b.addr wa.below wb.above (omega (arith, wb.below))))

-- The union of two cells that stand next to each other is a cell.
IsCell-union :
    (c d : Cell) → c.addr + 16 + c.size ≡ d.addr → IsCell c → IsCell d → IsCell (union c d)
IsCell-union c d e wc wd = record {
  above = wc.above;
  below = omega (arith, wd.below);
  addr = wc.addr;
  size = omega (arith, wc.size, wd.size);
}

-- One round of either loop.
absorb-IsList :
    (mem : ℕ → ℕ) (start : ℕ) (ls : List Cell) (c d : Cell) (rs : List Cell)
    → IsList mem start (rev_append ls (c ∷ d ∷ rs))
    → c.addr + 16 + c.size ≡ d.addr
    → IsList (absorb mem c.addr d.addr) start (rev_append ls (union c d ∷ rs))
unfolding Joined
absorb-IsList mem start ls c d rs v e =
    let (chain, (wc, (wd, ws)), apart) = place ls (c ∷ d ∷ rs) v in
    let (chain', same) = absorb-Joined mem (first ls) c d rs chain (wd, ws) apart e in
    replace-IsList mem _ start ls (c ∷ d ∷ rs) (union c d ∷ rs) v chain'
      (IsCell-union c d e wc wd, ws) same refl (λ a. omega (arith, covers-union c d a e))

meets_end : (a b o : Cell) → meets a b o ≡ true → a.addr + 16 + a.size ≡ b.addr
meets_end a b o e = ground arith

-- A place in the list where the loops of `kfree` have come to.
module _ (start : ℕ) where
  absorb_prev_lem :
      (ls : List Cell) (fuel : ℕ) (mem : ℕ → ℕ) (c : Cell) (rs : List Cell)
      → IsList mem start (rev_append ls (c ∷ rs))
      → length ls < fuel
      → (mem' : ℕ → ℕ) × (absorb_prev fuel mem c.addr ≡ some ((join_back ls c).1.addr, mem'))
        × IsList mem' start (rev_append (join_back ls c).0 ((join_back ls c).1 ∷ rs))
  unfolding absorb_prev
  absorb_prev_lem ls zero mem c rs v h = absurd (omega arith)
  absorb_prev_lem [] (suc fuel) mem c rs v h =
      let ((hc, t), _, _) = place [] (c ∷ rs) v in (mem, rw hc.prev refl, v)
  absorb_prev_lem (l ∷ ls) (suc fuel) mem c rs v h =
      let ((hl, (hc, t)), (wl, (wc, ws)), _) = place ls (l ∷ c ∷ rs) v in
      let test = joins-meets mem l c l hl.size hl.status wl wc wl in
      rw (hc.prev, test)
        (elim (Bool-cases (meets l c l)) [
          | inl e ↦ rw e (
              absorb_prev_lem ls fuel (absorb mem l.addr c.addr) (union l c) rs
                (absorb-IsList mem start ls l c rs v (meets_end l c l e)) (omega arith))
          | inr e ↦ rw e (mem, refl, v)
        ])

  absorb_next_lem :
      (rs : List Cell) (fuel : ℕ) (mem : ℕ → ℕ) (ls : List Cell) (c : Cell)
      → IsList mem start (rev_append ls (c ∷ rs))
      → length rs < fuel
      → (mem' : ℕ → ℕ) × (absorb_next fuel mem c.addr ≡ some mem')
        × IsList mem' start (rev_append ls (join_next c rs))
  unfolding absorb_next
  absorb_next_lem rs zero mem ls c v h = absurd (omega arith)
  absorb_next_lem [] (suc fuel) mem ls c v h =
      let ((hc, t), _, _) = place ls (c ∷ []) v in (mem, rw hc.next refl, v)
  absorb_next_lem (r ∷ rs) (suc fuel) mem ls c v h =
      let ((hc, (hr, t)), (wc, (wr, ws)), _) = place ls (c ∷ r ∷ rs) v in
      let test = joins-meets mem c r r hc.size hr.status wc wr wr in
      rw (hc.next, test)
        (elim (Bool-cases (meets c r r)) [
          | inl e ↦ rw e (
              absorb_next_lem rs fuel (absorb mem c.addr r.addr) ls (union c r)
                (absorb-IsList mem start ls c r rs v (meets_end c r r e)) (omega arith))
          | inr e ↦ rw e (mem, refl, v)
        ])

  kfree_words-IsList :
      (ls : List Cell) (c : Cell) (rs : List Cell) (fuel : ℕ) (mem : ℕ → ℕ)
      → IsList mem start (rev_append ls (c ∷ rs))
      → length ls + length rs < fuel
      → (mem' : ℕ → ℕ) × (kfree_words fuel mem c.addr ≡ some mem')
        × IsList mem' start (free_cells ls c rs)
  unfolding kfree_words free_cells
  kfree_words-IsList ls c rs fuel mem v h =
      let freed = cell c.addr c.size false in
      let (m, e, w) =
        absorb_prev_lem ls fuel _ freed rs (mark-IsList mem start ls c rs false v) (omega arith) in
      let (m', e', w') =
        absorb_next_lem rs fuel m (join_back ls freed).0 (join_back ls freed).1 w (omega arith) in
      (m', rw (kfree_words, e) e', w')

-- For a list of blocks in memory that do not overlap, and fuel for more than the other blocks,
-- kfree of a block of the list ends: the list in memory is the one with the block free and one
-- with its free neighbours, no two blocks overlap, and exactly the bytes of the block are lent
-- no more.
pub kfree-Frees :
    (ls : List Cell) (c : Cell) (rs : List Cell) (fuel : ℕ) (s : Heap)
    → IsList s.mem s.start_header (rev_append ls (c ∷ rs))
    → length ls + length rs < fuel
    → (mem' : ℕ → ℕ) × (kfree fuel s (c.addr + 16) ≡ some (record s { mem = mem' }))
      × IsList mem' s.start_header (free_cells ls c rs)
      × ((a : ℕ) → lent (free_cells ls c rs) a + lends c a ≡ lent (rev_append ls (c ∷ rs)) a)
unfolding kfree
kfree-Frees ls c rs fuel s v h =
    let ((hc, t), (wc, ws), _) = place ls (c ∷ rs) v in
    let (m, e, w) = kfree_words-IsList s.start_header ls c rs fuel s.mem v h in
    let back : sub32 (c.addr + 16) header_size ≡ c.addr = omega (arith, wc.below) in
    let known : ((s.mem (status_at c.addr) == heap_free || s.mem (status_at c.addr) == heap_used)
        ≡ true) =
      rw hc.status (elim (Bool-cases c.used) [ inl e ↦ rw e refl | inr e ↦ rw e refl ]) in
    (m, rw (back, known, e), w, λ a. lent-free_cells ls c rs a)
