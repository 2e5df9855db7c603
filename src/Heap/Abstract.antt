-- ===== src/Heap/Abstract.antt =====
-- The heap without its memory: what `kmalloc` and `kfree` promise to do to the list of blocks.
use r_oses.Prelude.{
  ℕ, ◌+◌, ◌-◌, ◌≡◌, refl, arith, List, [], ◌∷◌, Bool, true, false, leb, ◌&&◌, ◌||◌, not,
  if◌then◌else◌, ◌==◌, Bool-cases, inl, inr,
}
use r_oses.Heap.Cells.{
  Cell, cell, covers, covered, lends, lent, rev_append, covered-rev_append, lent-rev_append,
}
use r_oses.Heap.Absorb.{union, covers-union}

-- Whether `a` ends where `b` begins and `other`, one of the two, is free.
abbrev pub meets : (a b other : Cell) → Bool
meets a b other = not other.used && (a.addr + 16 + a.size == b.addr)

-- The cell with what is free in front of it and next to it.
abbrev pub join_back : List Cell → Cell → List Cell × Cell
join_back [] c = ([], c)
join_back (l ∷ ls) c =
    let rest = join_back ls (union l c) in if meets l c l then rest else (l ∷ ls, c)

abbrev pub join_next : Cell → List Cell → List Cell
join_next c [] = c ∷ []
join_next c (r ∷ rs) =
    let rest = join_next (union c r) rs in if meets c r r then rest else c ∷ r ∷ rs

-- The cell `c` is given back: it is free, and one with its free neighbours.
unfoldable pub free_cells : (ls : List Cell) → Cell → (rs : List Cell) → List Cell
free_cells ls c rs =
    let (ls', c') = join_back ls (cell c.addr c.size false) in rev_append ls' (join_next c' rs)

abbrev pub fits : Cell → ℕ → Bool
fits c size = not c.used && ((c.size == size) || leb (size + 16) c.size)

-- The first free cell of the very size, or with room for one more header, gives its last bytes.
abbrev pub take_from : Cell → ℕ → ℕ × List Cell
take_from c size = if c.size == size then (c.addr, cell c.addr c.size true ∷ []) else (
  c.addr + (c.size - size),
  cell c.addr (c.size - (size + 16)) false ∷ cell (c.addr + (c.size - size)) size true ∷ [],
)

pub lends_free : (c : Cell) (a : ℕ) → c.used ≡ false → lends c a ≡ 0
lends_free c a free = rw free

-- The sums over the cells are what they were, but for the bytes that the cell lent.
join_back-counts :
    (ls : List Cell) (c : Cell) (a : ℕ)
    → c.used ≡ false
    → (covered (join_back ls c).0 a + covers (join_back ls c).1 a ≡ covered ls a + covers c a)
      × (lent (join_back ls c).0 a ≡ lent ls a)
      × ((join_back ls c).1.used ≡ false)
join_back-counts [] c a free = (refl, refl, free)
join_back-counts (l ∷ ls) c a free = elim (Bool-cases (meets l c l)) [
  | inl e ↦
      let l_free : (l.used ≡ false) = ground arith in
      let (e1, e2, e3) = join_back-counts ls (union l c) a l_free in
      let u = covers-union l c a (ground arith) in
      rw e (omega (arith, e1, u), omega (arith, e2, lends_free l a l_free), e3)
  | inr e ↦ rw e (refl, refl, free)
]

join_next-counts :
    (c : Cell) (rs : List Cell) (a : ℕ)
    → c.used ≡ false
    → (covered (join_next c rs) a ≡ covers c a + covered rs a)
      × (lent (join_next c rs) a ≡ lent rs a)
join_next-counts c [] a free = (refl, omega (arith, lends_free c a free))
join_next-counts c (r ∷ rs) a free = elim (Bool-cases (meets c r r)) [
  | inl e ↦
      let r_free : (r.used ≡ false) = ground arith in
      let (e1, e2) = join_next-counts (union c r) rs a free in
      let u = covers-union c r a (ground arith) in
      rw e (omega (arith, e1, u), omega (arith, e2, lends_free r a r_free))
  | inr e ↦ rw e (refl, omega (arith, lends_free c a free))
]

pub covered-free_cells :
    (ls : List Cell) (c : Cell) (rs : List Cell) (a : ℕ)
    → covered (free_cells ls c rs) a ≡ covered (rev_append ls (c ∷ rs)) a
unfolding free_cells
covered-free_cells ls c rs a =
    let freed = cell c.addr c.size false in
    let (ls', c') = join_back ls freed in
    let (e1, _, free) = join_back-counts ls freed a refl in
    let (e2, _) = join_next-counts c' rs a free in
    omega
      (arith, e1, e2, covered-rev_append ls' (join_next c' rs) a, covered-rev_append ls (c ∷ rs) a)

-- What the cell lent is lent no more, and all other bytes are as they were.
pub lent-free_cells :
    (ls : List Cell) (c : Cell) (rs : List Cell) (a : ℕ)
    → lent (free_cells ls c rs) a + lends c a ≡ lent (rev_append ls (c ∷ rs)) a
unfolding free_cells
lent-free_cells ls c rs a =
    let freed = cell c.addr c.size false in
    let (ls', c') = join_back ls freed in
    let (_, e1, free) = join_back-counts ls freed a refl in
    let (_, e2) = join_next-counts c' rs a free in
    omega (arith, e1, e2, lent-rev_append ls' (join_next c' rs) a, lent-rev_append ls (c ∷ rs) a)
