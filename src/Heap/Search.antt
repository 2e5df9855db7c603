-- ===== src/Heap/Search.antt =====
-- The loop of `kmalloc`: it stops at the first block that fits, and at the last where none does.
use r_oses.Prelude.{
  ℕ, zero, suc, ◌+◌, ◌≤◌, ◌<◌, ◌≡◌, ◌≢◌, refl, arith, List, [], ◌∷◌, true, false, ◌&&◌, not,
  if◌then◌else◌, ◌==◌, some, Bool-cases, inl, inr, add32, length, leb,
}
use r_oses.Heap.{Found, header_size, status_at, is_free, kmalloc_loop}
use r_oses.Heap.Cells.{Cell, status_word, first, rev_append, IsCell, IsHeader, IsList}
use r_oses.Heap.Places.{place}
use r_oses.Heap.Abstract.{fits}

-- No cell of the list is free and large enough.
abbrev pub NoFit : ℕ → List Cell → Type 0
NoFit size [] = Unit
NoFit size (c ∷ cs) = (fits c size ≡ false) × NoFit size cs

-- What a stop of the loop means for the cells of the list.
pub data Spot (size : ℕ) (cells : List Cell) : Found → Type 0 where
  exact :
      (ls : List Cell) (c : Cell) (rs : List Cell)
      → cells ≡ rev_append ls (c ∷ rs)
      → NoFit size ls
      → c.used ≡ false
      → c.size ≡ size
      → Spot size cells (Found.fits c.addr)
  room :
      (ls : List Cell) (c : Cell) (rs : List Cell)
      → cells ≡ rev_append ls (c ∷ rs)
      → NoFit size ls
      → c.used ≡ false
      → c.size ≢ size
      → size + 16 ≤ c.size
      → Spot size cells (Found.larger c.addr)
  full :
      (ls : List Cell) (c : Cell)
      → cells ≡ rev_append ls (c ∷ [])
      → NoFit size (c ∷ ls)
      → Spot size cells (Found.last c.addr)

is_free_lem :
    (mem : ℕ → ℕ) (c : Cell)
    → mem (status_at c.addr) ≡ status_word c.used
    → is_free mem c.addr ≡ not c.used
is_free_lem mem c e = ground arith

-- The first two tests of a round.
module _ (size : ℕ) (c : Cell) where
  no_fit :
      (not c.used && (c.size == size)) ≡ false
      → (not c.used && leb (size + 16) c.size) ≡ false
      → fits c size ≡ false
  no_fit e e' = ground arith

  is_exact : (not c.used && (c.size == size)) ≡ true → (c.used ≡ false) × (c.size ≡ size)
  is_exact e = ground arith

  has_room :
      (not c.used && (c.size == size)) ≡ false
      → (not c.used && leb (size + 16) c.size) ≡ true
      → (c.used ≡ false) × (c.size ≢ size) × (size + 16 ≤ c.size)
  has_room e e' = ground arith

module _ (mem : ℕ → ℕ) (start size : ℕ) (small : size + 16 < 4294967296) where
  -- One round.
  round :
      (fuel : ℕ) (p n : ℕ) (c : Cell)
      → IsHeader mem p c n
      → IsCell c
      → kmalloc_loop (suc fuel) mem size c.addr ≡ (
          if not c.used && (c.size == size)
          then some (Found.fits c.addr)
          else if not c.used && leb (size + 16) c.size
          then some (Found.larger c.addr)
          else if n == 0
          then some (Found.last c.addr)
          else kmalloc_loop fuel mem size n)
  unfolding kmalloc_loop
  round fuel p n c h w =
      let nz : ((c.addr == 0) ≡ false) = ground (arith, w.above) in
      let wide : (add32 size header_size ≡ size + 16) = omega arith in
      rw (nz, is_free_lem mem c h.status, h.size, h.next, wide) refl

  -- The tests of a round, where the rest of the loop is known.
  round-Spot :
      (fuel : ℕ) (ls : List Cell) (c : Cell) (rs : List Cell)
      → IsList mem start (rev_append ls (c ∷ rs))
      → NoFit size ls
      → (fits c size ≡ false
          → (f : Found) × ((if first rs == 0
                then some (Found.last c.addr)
                else kmalloc_loop fuel mem size (first rs))
              ≡ some f)
            × Spot size (rev_append ls (c ∷ rs)) f)
      → (f : Found) × (kmalloc_loop (suc fuel) mem size c.addr ≡ some f)
        × Spot size (rev_append ls (c ∷ rs)) f
  round-Spot fuel ls c rs v busy rest =
      let ((hc, t), (wc, ws), _) = place ls (c ∷ rs) v in
      rw (round fuel (first ls) (first rs) c hc wc)
        (elim (Bool-cases (not c.used && (c.size == size))) [
          | inl e ↦
              let (free, same) = is_exact size c e in
              rw e (Found.fits c.addr, refl, exact ls c rs refl busy free same)
          | inr e ↦ rw e (elim (Bool-cases (not c.used && leb (size + 16) c.size)) [
            | inl e' ↦
                let (free, ne, more) = has_room size c e e' in
                rw e' (Found.larger c.addr, refl, room ls c rs refl busy free ne more)
            | inr e' ↦ rw e' (rest (no_fit size c e e'))
          ])
        ])

  pub kmalloc_loop-Spot :
      (fuel : ℕ) (ls : List Cell) (c : Cell) (rs : List Cell)
      → IsList mem start (rev_append ls (c ∷ rs))
      → NoFit size ls
      → length rs < fuel
      → (f : Found) × (kmalloc_loop fuel mem size c.addr ≡ some f)
        × Spot size (rev_append ls (c ∷ rs)) f
  kmalloc_loop-Spot zero ls c rs v busy h = absurd (omega arith)
  kmalloc_loop-Spot (suc fuel) ls c [] v busy h =
      round-Spot fuel ls c [] v busy
        (λ unfit. (Found.last c.addr, refl, full ls c refl (unfit, busy)))
  kmalloc_loop-Spot (suc fuel) ls c (r ∷ rs) v busy h =
      let (_, (_, (wr, _)), _) = place ls (c ∷ r ∷ rs) v in
      let nz : ((r.addr == 0) ≡ false) = ground (arith, wr.above) in
      round-Spot fuel ls c (r ∷ rs) v busy
        (λ unfit. rw nz (kmalloc_loop-Spot fuel (c ∷ ls) r rs v (unfit, busy) (omega arith)))
