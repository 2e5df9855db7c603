-- ===== src/Heap/Alloc.antt =====
-- `kmalloc` where a block is large enough: the first such block gives its last bytes.
use r_oses.Prelude.{
  ℕ, ◌+◌, ◌-◌, ◌*◌, ◌/◌, ◌%◌, ◌≤◌, ◌<◌, ◌≡◌, ◌≢◌, refl, ap, arith, List, [], ◌∷◌, ◌++◌, true, false,
  ◌==◌, some, Bool-cases, inl, inr, add32, length,
}
use r_oses.Prelude.Bits.{bit_and-high}
use r_oses.Prelude.Slots.{update}
use r_oses.Heap.{
  Heap, Found, kmalloc_lock, kmalloc_loop, split_header, split_words, aligned, after_loop, kmalloc,
  header_size, heap_used, status_at,
}
use r_oses.Heap.Cells.{
  Cell, cell, covers, covered, lent, within, first, rev_append, IsList, covered-rev_append,
  lent-rev_append,
}
use r_oses.Heap.Places.{place, replace-IsList, mark-IsList}
use r_oses.Heap.Split.{Halved, split_words-Halved}
use r_oses.Heap.Abstract.{fits, take_from, lends_free}
use r_oses.Heap.Interrupts.{unlocked}
use r_oses.Heap.Search.{NoFit, Spot, exact, room, full, kmalloc_loop-Spot}

-- The size is rounded up to a multiple of 8.
pub aligned_lem : (n : ℕ) → n + 7 < 4294967296 → aligned n ≡ (n + 7) / 8 * 8
unfolding aligned
aligned_lem n h =
    let e : add32 n 7 ≡ n + 7 = omega arith in
    rw e (bit_and-high 29 3 (n + 7) (omega arith) (omega arith))

-- What `kmalloc` returns when `c` is the cell that gives the bytes.
pub record Granted (s : Heap) (size : ℕ) (ls : List Cell) (c : Cell) (rs : List Cell) (p : ℕ)
    (s' : Heap) : Type 0 where
  pub address : p ≡ add32 (take_from c size).0 16
  pub list : IsList s'.mem s'.start_header (rev_append ls ((take_from c size).1 ++ rs))
  pub lends :
      (a : ℕ)
      → lent (rev_append ls ((take_from c size).1 ++ rs)) a
        ≡ lent (rev_append ls (c ∷ rs)) a + within ((take_from c size).0 + 16) size a
  pub covers :
      (a : ℕ)
      → covered (rev_append ls ((take_from c size).1 ++ rs)) a ≡ covered (rev_append ls (c ∷ rs)) a
  pub start : s'.start_header ≡ s.start_header
  pub interrupts : s'.interrupts ≡ s.interrupts
  pub vmm : s'.vmm ≡ s.vmm

pub split-IsList :
    (mem : ℕ → ℕ) (start size : ℕ) (ls : List Cell) (c : Cell) (rs : List Cell)
    → IsList mem start (rev_append ls (c ∷ rs))
    → c.used ≡ false
    → size + 16 ≤ c.size
    → size % 8 ≡ 0
    → ((split_words mem c.addr size).0 ≡ c.addr + (c.size - size))
      × IsList (split_words mem c.addr size).1 start (
          rev_append ls (
            cell c.addr (c.size - (size + 16)) false
            ∷ cell (c.addr + (c.size - size)) size true
            ∷ rs))
unfolding Halved
split-IsList mem start size ls c rs v free h even =
    let (chain, (wc, ws), apart) = place ls (c ∷ rs) v in
    let (e, chain', same) =
      split_words-Halved mem (first ls) size c rs chain free (wc, ws) apart h in
    (
      e,
      replace-IsList mem _ start ls (c ∷ rs) _ v (rw e at chain')
          (
            record {
              above = wc.above;
              below = omega (arith, wc.below);
              addr = wc.addr;
              size = omega (arith, wc.size);
            },
            (
              record {
                above = omega (arith, wc.above);
                below = omega (arith, wc.below);
                addr = omega (arith, wc.addr, wc.size);
                size = even;
              },
              ws,
            ),
          )
          same refl (λ a. ground arith),
    )

-- The bytes that are lent: those that were, and those of the new block.
take_from-lent :
    (size : ℕ) (ls : List Cell) (c : Cell) (rs : List Cell) (a : ℕ)
    → c.used ≡ false
    → lent (rev_append ls ((take_from c size).1 ++ rs)) a
      ≡ lent (rev_append ls (c ∷ rs)) a + within ((take_from c size).0 + 16) size a
take_from-lent size ls c rs a free =
    let old = lent-rev_append ls (c ∷ rs) a in
    let new = lent-rev_append ls ((take_from c size).1 ++ rs) a in
    elim (Bool-cases (c.size == size)) [
      | inl e ↦
          let same : (c.size ≡ size) = ground arith in
          rw e (
            omega (
              arith,
              old,
              rw e at new,
              lends_free c a free,
              ap (λ n. within (c.addr + 16) n a) same,
            ))
      | inr e ↦ rw e (omega (arith, old, rw e at new, lends_free c a free))
    ]

pub halves-cover :
    (c : Cell) (size a : ℕ)
    → size + 16 ≤ c.size
    → covers (cell c.addr (c.size - (size + 16)) false) a
        + covers (cell (c.addr + (c.size - size)) size true) a
      ≡ covers c a
halves-cover c size a h = ground arith

-- No address is covered that was not, and none is lost.
take_from-covered :
    (size : ℕ) (ls : List Cell) (c : Cell) (rs : List Cell) (a : ℕ)
    → fits c size ≡ true
    → covered (rev_append ls ((take_from c size).1 ++ rs)) a ≡ covered (rev_append ls (c ∷ rs)) a
take_from-covered size ls c rs a fit =
    let old = covered-rev_append ls (c ∷ rs) a in
    let new = covered-rev_append ls ((take_from c size).1 ++ rs) a in
    elim (Bool-cases (c.size == size)) [
      | inl e ↦ rw e (omega (arith, old, rw e at new))
      | inr e ↦
          let more : (size + 16 ≤ c.size) = ground arith in
          rw e (omega (arith, old, rw e at new, halves-cover c size a more))
    ]

pub NoFit-rev_append :
    (size : ℕ) (ls rs : List Cell) → NoFit size ls → NoFit size rs → NoFit size (rev_append ls rs)
NoFit-rev_append size [] rs _ h = h
NoFit-rev_append size (l ∷ ls) rs (e, g) h = NoFit-rev_append size ls (l ∷ rs) g (e, h)

pub NoFit-eq : (size : ℕ) (xs ys : List Cell) → xs ≡ ys → NoFit size ys → NoFit size xs
NoFit-eq size xs ys e h = rw e h

pub fits_exact : (c : Cell) (size : ℕ) → c.used ≡ false → c.size ≡ size → fits c size ≡ true
fits_exact c size free same = ground arith

pub fits_room : (c : Cell) (size : ℕ) → c.used ≡ false → size + 16 ≤ c.size → fits c size ≡ true
fits_room c size free more = ground arith

-- The two ways to give a block.
module _ (s : Heap) (size : ℕ) (ls : List Cell) (c : Cell) (rs : List Cell)
    (v : IsList s.mem s.start_header (rev_append ls (c ∷ rs))) (free : c.used ≡ false)
    (even : size % 8 ≡ 0) where
  exact-Granted :
      c.size ≡ size
      → (p : ℕ) × (s' : Heap) × (after_loop (kmalloc_lock s) size (some (Found.fits c.addr))
          ≡ some (p, s'))
        × Granted s size ls c rs p s'
  unfolding after_loop
  exact-Granted same =
      let chosen : (c.size == size) ≡ true = ground arith in
      let w = mark-IsList s.mem s.start_header ls c rs true v in
      (
        add32 c.addr header_size,
        _,
        ap (λ t. some (add32 c.addr header_size, t))
            (unlocked s.interrupts (record s { mem = update s.mem (status_at c.addr) heap_used })),
        record {
          address = rw chosen refl;
          list = rw chosen w;
          lends = λ a. take_from-lent size ls c rs a free;
          covers = λ a. take_from-covered size ls c rs a (fits_exact c size free same);
          start = refl;
          interrupts = refl;
          vmm = refl;
        },
      )

  room-Granted :
      c.size ≢ size
      → size + 16 ≤ c.size
      → (p : ℕ) × (s' : Heap) × (after_loop (kmalloc_lock s) size (some (Found.larger c.addr))
          ≡ some (p, s'))
        × Granted s size ls c rs p s'
  unfolding after_loop split_header
  room-Granted ne h =
      let chosen : (c.size == size) ≡ false = ground arith in
      let (e, w) = split-IsList s.mem s.start_header size ls c rs v free h even in
      (
        add32 (split_words s.mem c.addr size).0 header_size,
        _,
        ap (λ t. some (add32 (split_words s.mem c.addr size).0 header_size, t))
            (unlocked s.interrupts (record s { mem = (split_words s.mem c.addr size).1 })),
        record {
          address = rw (chosen, e) refl;
          list = rw chosen w;
          lends = λ a. take_from-lent size ls c rs a free;
          covers = λ a. take_from-covered size ls c rs a (fits_room c size free h);
          start = refl;
          interrupts = refl;
          vmm = refl;
        },
      )

-- For a list of blocks in memory that do not overlap, longer by none than the fuel, a request
-- below 4 GiB less 23 bytes, and a free block that is large enough, kmalloc gives the last bytes
-- of the first such block: the list is then that one with the block marked or split, exactly
-- those bytes are lent besides the ones that were, no two blocks overlap, the interrupt flag and
-- the address spaces are as before.
pub kmalloc-Grants :
    (fuel : ℕ) (s : Heap) (n : ℕ) (c : Cell) (cs : List Cell)
    → IsList s.mem s.start_header (c ∷ cs)
    → length cs < fuel
    → n + 23 < 4294967296
    → ¬ NoFit (aligned n) (c ∷ cs)
    → (ls : List Cell) × (d : Cell) × (rs : List Cell) × (p : ℕ) × (s' : Heap) × (c ∷ cs
        ≡ rev_append ls (d ∷ rs))
      × NoFit (aligned n) ls
      × (fits d (aligned n) ≡ true)
      × (kmalloc fuel s n ≡ some (p, s'))
      × Granted s (aligned n) ls d rs p s'
unfolding kmalloc
kmalloc-Grants fuel s n c cs v h small some_fit =
    let (f, e, spot) =
      kmalloc_loop-Spot s.mem s.start_header (aligned n) (omega (arith, wide)) fuel [] c cs v tt
        h in
    let looped : kmalloc_loop fuel s.mem (aligned n) s.start_header ≡ some f = rw v.start e in
    rw looped (go f spot)
  where
    wide : aligned n ≡ (n + 7) / 8 * 8
    wide = aligned_lem n (omega arith)

    go :
        (f : Found)
        → Spot (aligned n) (c ∷ cs) f
        → (ls : List Cell) × (d : Cell) × (rs : List Cell) × (p : ℕ) × (s' : Heap) × (c ∷ cs
            ≡ rev_append ls (d ∷ rs))
          × NoFit (aligned n) ls
          × (fits d (aligned n) ≡ true)
          × (after_loop (kmalloc_lock s) (aligned n) (some f) ≡ some (p, s'))
          × Granted s (aligned n) ls d rs p s'
    go f (exact ls d rs e busy free same) =
        let (p, s', r, g) =
          exact-Granted s (aligned n) ls d rs (rw e at v) free (omega (arith, wide)) same in
        (ls, d, rs, p, s', e, busy, fits_exact d (aligned n) free same, r, g)
    go f (room ls d rs e busy free ne more) =
        let (p, s', r, g) =
          room-Granted s (aligned n) ls d rs (rw e at v) free (omega (arith, wide)) ne more in
        (ls, d, rs, p, s', e, busy, fits_room d (aligned n) free more, r, g)
    go f (full ls d e (b, busy)) = absurd (
        some_fit (
          NoFit-eq (aligned n) (c ∷ cs) _ e
            (NoFit-rev_append (aligned n) ls (d ∷ []) busy (b, tt))))
