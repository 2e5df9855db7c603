-- ===== src/Heap/Places.antt =====
-- A change at one place of the heap's list, and the mark in a header that both `kmalloc` and `kfree`
-- make.
use r_oses.Prelude.{ℕ, ◌+◌, ◌≤◌, ◌<◌, ◌≡◌, ◌≢◌, ◌⊎◌, refl, ap, ◌∙◌, arith, List, ◌∷◌, Bool}
use r_oses.Prelude.Slots.{update}
use r_oses.Heap.{status_at}
use r_oses.Heap.Cells.{
  Cell, cell, status_word, covers, covered, covers_header, covers_start, first, rev_append,
  IsHeader, Chain, AllCells, IsList, SameOn, SameOff, Back-frame, Chain-frame, Chain-rev_append,
  Chain-Zip, covered-rev_append, AllCells-rev_append, rev_append-AllCells, first-rev_append,
}

-- What the memory holds behind the cells `ls` is replaced by other cells.
pub follow-IsList :
    (mem mem' : ℕ → ℕ) (start : ℕ) (ls rs rs' : List Cell)
    → IsList mem start (rev_append ls rs)
    → Chain mem' (first ls) rs'
    → AllCells rs'
    → SameOn ls mem mem'
    → first rs ≡ first rs'
    → ((a : ℕ) → covered ls a + covered rs' a ≤ 1)
    → IsList mem' start (rev_append ls rs')
follow-IsList mem mem' start ls rs rs' v chain cells on e apart =
    let (back, _) = Chain-Zip mem ls rs v.chain in
    record {
      start = v.start ∙ first-rev_append ls rs rs' e;
      chain =
          Chain-rev_append mem' ls rs'
            (rw (← e) (Back-frame mem mem' (first rs) ls on back), chain);
      cells = AllCells-rev_append ls rs' (rev_append-AllCells ls rs v.cells).0 cells;
      apart = λ a. omega (arith, covered-rev_append ls rs' a, apart a);
    }

-- The other cells cover the same addresses.
pub replace-IsList :
    (mem mem' : ℕ → ℕ) (start : ℕ) (ls rs rs' : List Cell)
    → IsList mem start (rev_append ls rs)
    → Chain mem' (first ls) rs'
    → AllCells rs'
    → SameOff rs mem mem'
    → first rs ≡ first rs'
    → ((a : ℕ) → covered rs' a ≡ covered rs a)
    → IsList mem' start (rev_append ls rs')
replace-IsList mem mem' start ls rs rs' v chain cells same e cover =
    follow-IsList mem mem' start ls rs rs' v chain cells
      (λ a i. same a (omega (arith, v.apart a, covered-rev_append ls rs a))) e
      (λ a. omega (arith, v.apart a, covered-rev_append ls rs a, cover a))

-- What an IsList knows at a place.
pub place :
    {mem : ℕ → ℕ} {start : ℕ} (ls rs : List Cell)
    → IsList mem start (rev_append ls rs)
    → Chain mem (first ls) rs × AllCells rs × ((a : ℕ) → covered rs a ≤ 1)
place ls rs v = (
  (Chain-Zip _ ls rs v.chain).1,
  (rev_append-AllCells ls rs v.cells).1,
  λ a. omega (arith, v.apart a, covered-rev_append ls rs a),
)

pub update_other : (mem : ℕ → ℕ) (i v a : ℕ) → a ≢ i → update mem i v a ≡ mem a
update_other mem i v a ne = ground arith

-- An address that a cell does not cover is not one of its header's.
pub not_header : (c : Cell) (k a : ℕ) → k < 16 → covers c a ≡ 0 → a ≢ c.addr + k
not_header c k a h e q = absurd (omega (arith, ap (covers c) q, covers_header c k h))

mark-IsHeader :
    (mem : ℕ → ℕ) (p n : ℕ) (c : Cell) (u : Bool)
    → IsHeader mem p c n
    → IsHeader (update mem (status_at c.addr) (status_word u)) p (cell c.addr c.size u) n
mark-IsHeader mem p n c u h = record {
  size = ground (arith, h.size);
  status = ground arith;
  next = ground (arith, h.next);
  prev = ground (arith, h.prev);
}

-- A cell is marked as free or as used.
pub mark-IsList :
    (mem : ℕ → ℕ) (start : ℕ) (ls : List Cell) (c : Cell) (rs : List Cell) (u : Bool)
    → IsList mem start (rev_append ls (c ∷ rs))
    → IsList
        (update mem (status_at c.addr) (status_word u))
        start
        (rev_append ls (cell c.addr c.size u ∷ rs))
mark-IsList mem start ls c rs u v =
    let ((h, t), (w, ws), apart) = place ls (c ∷ rs) v in
    replace-IsList mem _ start ls (c ∷ rs) (cell c.addr c.size u ∷ rs) v
      (
        mark-IsHeader mem (first ls) (first rs) c u h,
        Chain-frame mem _ c.addr rs
            (λ a i.
              update_other mem _ _ a (not_header c 4 a (omega arith) (omega (arith, apart a))))
            t,
      )
      (record { above = w.above; below = w.below; addr = w.addr; size = w.size }, ws)
      (λ a e. update_other mem _ _ a (not_header c 4 a (omega arith) (omega arith))) refl
      (λ a. refl)

-- Where two cells do not overlap, an address of one is not an address of the other.
pub not_covered : (c : Cell) (a : ℕ) → covers c a ≡ 0 → (a < c.addr) ⊎ (c.addr + 16 + c.size ≤ a)
not_covered c a e = ground arith

-- The `prev` of the cell behind is the one address outside the cell that is written.
pub link_off :
    (c d : Cell)
    → covers c (d.addr + 12) ≡ 0
    → d.addr ≢ 0
    → (d.addr + 12 < c.addr) ⊎ (c.addr + 16 + c.size ≤ d.addr + 12)
link_off c d e nz = not_covered c (d.addr + 12) e

-- The cell behind, in a memory where only its `prev` is another.
pub IsHeader-relinked :
    (mem mem' : ℕ → ℕ) (p p' n : ℕ) (d : Cell)
    → ((a : ℕ) → covers d a ≡ 1 → a ≢ d.addr + 12 → mem' a ≡ mem a)
    → mem' (d.addr + 12) ≡ p'
    → IsHeader mem p d n
    → IsHeader mem' p' d n
IsHeader-relinked mem mem' p p' n d same e h = record {
  size = same d.addr (covers_start d) (λ e. omega arith) ∙ h.size;
  status = same (d.addr + 4) (covers_header d 4 (omega arith)) (λ e. omega arith) ∙ h.status;
  next = same (d.addr + 8) (covers_header d 8 (omega arith)) (λ e. omega arith) ∙ h.next;
  prev = e;
}

pub Chain-relinked :
    (mem mem' : ℕ → ℕ) (p p' : ℕ) (d : Cell) (ds : List Cell)
    → ((a : ℕ) → covered (d ∷ ds) a ≤ 1)
    → ((a : ℕ) → 1 ≤ covered (d ∷ ds) a → a ≢ d.addr + 12 → mem' a ≡ mem a)
    → mem' (d.addr + 12) ≡ p'
    → Chain mem p (d ∷ ds)
    → Chain mem' p' (d ∷ ds)
Chain-relinked mem mem' p p' d ds apart same e (h, t) = (
  IsHeader-relinked mem mem' p p' (first ds) d (λ a i. same a (omega arith)) e h,
  Chain-frame mem mem' d.addr ds
      (λ a i.
        same a (omega arith)
          (λ k. absurd (omega (arith, apart a, ap (covers d) k, covers_header d 12 (omega arith)))))
      t,
)
