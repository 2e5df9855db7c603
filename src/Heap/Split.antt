-- ===== src/Heap/Split.antt =====
-- `split_header`: a free block becomes a smaller free one and a used one at its end.
use r_oses.Prelude.{
  ℕ, ◌+◌, ◌-◌, ◌≤◌, ◌<◌, ◌≡◌, ◌≢◌, refl, ap, ◌∙◌, arith, List, [], ◌∷◌, true, false, ◌&&◌,
  if◌then◌else◌, ◌==◌, add32, sub32, ◌⊎◌, inl, inr, not, fun_ext, ℕ_discrete,
}
use r_oses.Prelude.Slots.{update}
use r_oses.Heap.{header_size, heap_free, heap_used, split_words, link_back}
use r_oses.Heap.Cells.{
  Cell, cell, covers, covered, covers_header, AllCells, IsCell, IsHeader, Chain, SameOff, first,
}
use r_oses.Heap.Places.{not_covered, link_off, Chain-relinked}

-- The header at `h` of `sz` bytes is split; `r` is the one behind it, which is somewhere else.
module _ (mem : ℕ → ℕ) (h sz size r : ℕ) (is_size : mem h ≡ sz) (is_next : mem (h + 8) ≡ r)
    (above : 0 < h) (below : h + 16 + sz ≤ 4294967296) (fits : size + 16 ≤ sz)
    (off : r ≢ 0 → (r + 12 < h) ⊎ (h + 16 + sz ≤ r + 12)) where
  -- Where the new header stands.
  abbrev new : ℕ
  new = h + (sz - size)

  abbrev filled : ℕ → ℕ
  filled =
      update
        (update (update (update (update mem h (sz - (size + 16))) new size) (new + 4) heap_used)
          (new + 12) h)
        (new + 8) r

  size_lem : sub32 (mem h) (add32 size header_size) ≡ sz - (size + 16)
  size_lem = ground arith

  new_lem : add32 (add32 h header_size) (sz - (size + 16)) ≡ new
  new_lem = ground arith

  eq_refl : (a : ℕ) → (a == a) ≡ true
  eq_refl a = ground arith

  next_lem :
      (v : ℕ)
      → update
          (update (update (update mem h (sz - (size + 16))) new size) (new + 4) v)
          (new + 12)
          h
          (h + 8)
        ≡ r
  next_lem v = ground arith

  split_words_lem : split_words mem h size ≡ (new, update (link_back filled new new) (h + 8) new)
  unfolding split_words
  split_words_lem = rw (eq_refl h, size_lem, new_lem, next_lem heap_used)

  -- The memory after the split.
  abbrev written : ℕ → ℕ
  written a = if a == h + 8 then new else if (not (r == 0)) && (a == r + 12) then new else filled a

  filled_next : filled (new + 8) ≡ r
  filled_next = ground arith

  linked : (a : ℕ) → update (link_back filled new new) (h + 8) new a ≡ written a
  linked a = rw filled_next (elim (ℕ_discrete r 0) [ yes e ↦ ground arith | no ne ↦ ground arith ])

  split_words_eq : split_words mem h size ≡ (new, written)
  split_words_eq = split_words_lem ∙ ap (λ m. (new, m)) (fun_ext linked)

  IsHeader-old :
      (p : ℕ)
      → mem (h + 4) ≡ heap_free
      → mem (h + 12) ≡ p
      → IsHeader written p (cell h (sz - (size + 16)) false) new
  IsHeader-old p free before = record {
    size = ground (arith, off);
    status = ground (arith, off);
    next = ground arith;
    prev = ground (arith, off);
  }

  IsHeader-new : IsHeader written h (cell new size true) r
  IsHeader-new = record {
    size = ground (arith, off);
    status = ground (arith, off);
    next = ground (arith, off);
    prev = ground (arith, off);
  }

  written_link : r ≢ 0 → written (r + 12) ≡ new
  written_link nz = ground (arith, off)

  written_off : (a : ℕ) → (a < h) ⊎ (h + 16 + sz ≤ a) → (r ≡ 0) ⊎ (a ≢ r + 12) → written a ≡ mem a
  written_off a o n = ground arith

-- The list after the split of a free cell, and the memory elsewhere.
unfoldable pub Halved : (ℕ → ℕ) → (p size : ℕ) → Cell → List Cell → ℕ × (ℕ → ℕ) → Type 0
Halved mem p size c rs (new, mem') =
    (new ≡ c.addr + (c.size - size))
    × Chain mem' p (cell c.addr (c.size - (size + 16)) false ∷ cell new size true ∷ rs)
    × SameOff (c ∷ rs) mem mem'

module _ (mem : ℕ → ℕ) (p size : ℕ) (c : Cell) (rs : List Cell) (hd : IsHeader mem p c (first rs))
    (free : c.used ≡ false) (w : IsCell c) (fits : size + 16 ≤ c.size)
    (off : first rs ≢ 0 → (first rs + 12 < c.addr) ⊎ (c.addr + 16 + c.size ≤ first rs + 12)) where
  abbrev after : ℕ → ℕ
  after = written mem c.addr c.size size (first rs) hd.size hd.next w.above w.below fits off

  is_free_lem : mem (c.addr + 4) ≡ heap_free
  is_free_lem = rw free at hd.status

  after-Halved :
      Chain after (c.addr + (c.size - size)) rs
      → SameOff (c ∷ rs) mem after
      → Halved mem p size c rs (c.addr + (c.size - size), after)
  unfolding Halved
  after-Halved t same = (
    refl,
    (
      IsHeader-old mem c.addr c.size size (first rs) hd.size hd.next w.above w.below fits off p
          is_free_lem hd.prev,
      (IsHeader-new mem c.addr c.size size (first rs) hd.size hd.next w.above w.below fits off, t),
    ),
    same,
  )

  halved :
      Chain after (c.addr + (c.size - size)) rs
      → SameOff (c ∷ rs) mem after
      → Halved mem p size c rs (split_words mem c.addr size)
  halved t same =
      rw (split_words_eq mem c.addr c.size size (first rs) hd.size hd.next w.above w.below fits off)
        (after-Halved t same)

  after_off : (a : ℕ) → covers c a ≡ 0 → (first rs ≡ 0) ⊎ (a ≢ first rs + 12) → after a ≡ mem a
  after_off a e n =
      written_off mem c.addr c.size size (first rs) hd.size hd.next w.above w.below fits off a
        (not_covered c a e) n

  after_link : first rs ≢ 0 → after (first rs + 12) ≡ c.addr + (c.size - size)
  after_link =
      written_link mem c.addr c.size size (first rs) hd.size hd.next w.above w.below fits off

pub split_words-Halved :
    (mem : ℕ → ℕ) (p size : ℕ) (c : Cell) (rs : List Cell)
    → Chain mem p (c ∷ rs)
    → c.used ≡ false
    → AllCells (c ∷ rs)
    → ((a : ℕ) → covered (c ∷ rs) a ≤ 1)
    → size + 16 ≤ c.size
    → Halved mem p size c rs (split_words mem c.addr size)
split_words-Halved mem p size c [] (h, _) free (w, _) apart fits =
    let off : (0 ≢ 0 → (0 + 12 < c.addr) ⊎ (c.addr + 16 + c.size ≤ 0 + 12)) =
      λ nz. absurd (nz refl) in
    halved mem p size c [] h free w fits off tt
      (λ a e. after_off mem p size c [] h free w fits off a (omega arith) (inl refl))
split_words-Halved mem p size c (d ∷ ds) (h, t) free (w, (wd, _)) apart fits =
    let nz : (d.addr ≢ 0) = λ e. absurd (omega (arith, wd.above)) in
    let off : (d.addr ≢ 0 → (d.addr + 12 < c.addr) ⊎ (c.addr + 16 + c.size ≤ d.addr + 12)) =
      link_off c d (omega (arith, apart (d.addr + 12), covers_header d 12 (omega arith))) in
    halved mem p size c (d ∷ ds) h free w fits off
      (Chain-relinked mem _ c.addr _ d ds (λ a. omega (arith, apart a))
        (λ a i ne.
          after_off mem p size c (d ∷ ds) h free w fits off a (omega (arith, apart a)) (inr ne))
        (after_link mem p size c (d ∷ ds) h free w fits off nz) t)
      (λ a e.
        after_off mem p size c (d ∷ ds) h free w fits off a (omega arith)
          (inr (λ k. absurd (omega (arith, ap (covers d) k, covers_header d 12 (omega arith))))))
