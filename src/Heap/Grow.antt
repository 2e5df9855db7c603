-- ===== src/Heap/Grow.antt =====
-- `kmalloc` where no block is large enough: pages from `alloc_block` become a new block at the end of
-- the list.
use r_oses.Prelude.{
  ℕ, ◌+◌, ◌-◌, ◌*◌, ◌/◌, ◌%◌, ◌≤◌, ◌<◌, ◌≡◌, ◌≢◌, refl, ap, ◌∙◌, arith, List, [], ◌∷◌, ◌++◌, Bool,
  true, false, ◌==◌, Option, some, add32, sub32,
}
use r_oses.Prelude.Bits.{bit_and-high}
use r_oses.Prelude.Slots.{update}
use r_oses.Heap.{
  Heap, header_size, heap_free, next_at, kmalloc_lock, kmalloc_unlock, split_header, split_words,
  grown_bytes, grown_pages, new_header, grow,
}
use r_oses.Heap.Cells.{
  Cell, cell, covers, covered, covers_header, covers_start, first, rev_append, IsCell, IsHeader,
  IsList, covered-rev_append,
}
use r_oses.Heap.Places.{place, follow-IsList, not_header}
use r_oses.Heap.Alloc.{split-IsList}
use r_oses.Heap.Interrupts.{unlocked}
use r_oses.Vmm.{Vmm, alloc_block}

pub grown_bytes_lem :
    (size : ℕ) → size + 16 + 4095 < 4294967296 → grown_bytes size ≡ (size + 16 + 4095) / 4096 * 4096
grown_bytes_lem size h =
    let e : add32 (add32 size header_size) 4095 ≡ size + 16 + 4095 = omega arith in
    rw e (bit_and-high 20 12 (size + 16 + 4095) (omega arith) (omega arith))

pub grown_pages_lem :
    (size : ℕ) → size + 16 + 4095 < 4294967296 → grown_pages size ≡ (size + 16 + 4095) / 4096
grown_pages_lem size h = omega arith

add_apart : (a i j : ℕ) → a + i ≡ a + j → i ≢ j → ⊥
add_apart a i j e n = n (omega arith)

-- The memory after the writes in front of `split_header`: the cell `d` is made behind `c`.
abbrev linked : (ℕ → ℕ) → Cell → Cell → ℕ → ℕ
linked mem c d =
    update (update (update (update mem (c.addr + 8) d.addr) (d.addr + 12) c.addr) d.addr d.size)
      (d.addr + 4) heap_free

module _ (mem : ℕ → ℕ) (c d : Cell) (apart : (a : ℕ) → covers c a + covers d a ≤ 1) where
  linked_at :
      (a : ℕ)
      → a ≢ c.addr + 8
      → a ≢ d.addr + 12
      → a ≢ d.addr
      → a ≢ d.addr + 4
      → linked mem c d a ≡ mem a
  linked_at a n1 n2 n3 n4 = ground arith

  not_first : (a : ℕ) → covers d a ≡ 0 → a ≢ d.addr
  not_first a e q = absurd (omega (arith, ap (covers d) q, covers_start d))

  linked_off : (a : ℕ) → a ≢ c.addr + 8 → covers d a ≡ 0 → linked mem c d a ≡ mem a
  linked_off a ne e =
      linked_at a ne (not_header d 12 a (omega arith) e) (not_first a e)
        (not_header d 4 a (omega arith) e)

  next_apart : covers d (c.addr + 8) ≡ 0
  next_apart = omega (arith, apart (c.addr + 8), covers_header c 8 (omega arith))

  linked_next : linked mem c d (c.addr + 8) ≡ d.addr
  linked_next =
      let n1 = not_header d 12 (c.addr + 8) (omega arith) next_apart in
      let n2 = not_first (c.addr + 8) next_apart in
      let n3 = not_header d 4 (c.addr + 8) (omega arith) next_apart in ground arith

  IsHeader-front : (p n : ℕ) → IsHeader mem p c n → IsHeader (linked mem c d) p c d.addr
  IsHeader-front p n h =
      let off : (k : ℕ) → k < 16 → covers d (c.addr + k) ≡ 0 =
        λ k l. omega (arith, apart (c.addr + k), covers_header c k l) in
      record {
        size =
            linked_off c.addr (λ q. omega arith) (omega (arith, apart c.addr, covers_start c))
            ∙ h.size;
        status = linked_off (c.addr + 4) (λ q. omega arith) (off 4 (omega arith)) ∙ h.status;
        next = linked_next;
        prev = linked_off (c.addr + 12) (λ q. omega arith) (off 12 (omega arith)) ∙ h.prev;
      }

  IsHeader-behind : d.used ≡ false → mem (d.addr + 8) ≡ 0 → IsHeader (linked mem c d) c.addr d 0
  IsHeader-behind free fresh =
      let other : d.addr + 8 ≢ c.addr + 8 = λ q. absurd (
        omega (
          arith,
          apart (d.addr + 8),
          covers_header d 8 (omega arith),
          ap (covers c) q,
          covers_header c 8 (omega arith),
        )) in
      record {
        size = ground arith;
        status = rw free (ground arith);
        next =
            linked_at (d.addr + 8) other (λ q. add_apart d.addr 8 12 q (omega arith))
              (λ q. add_apart d.addr 8 0 (q ∙ omega arith) (omega arith))
              (λ q. add_apart d.addr 8 4 q (omega arith))
            ∙ fresh;
        prev = ground arith;
      }

-- The new cell at the end of the list.
append-IsList :
    (mem : ℕ → ℕ) (start : ℕ) (ls : List Cell) (c d : Cell)
    → IsList mem start (rev_append ls (c ∷ []))
    → IsCell d
    → d.used ≡ false
    → ((a : ℕ) → covered (rev_append ls (c ∷ [])) a + covers d a ≤ 1)
    → mem (d.addr + 8) ≡ 0
    → (apart : (a : ℕ) → covers c a + covers d a ≤ 1)
    → IsList (linked mem c d) start (rev_append ls (c ∷ d ∷ []))
append-IsList mem start ls c d v w free outside fresh apart =
    let ((hc, _), (wc, _), _) = place ls (c ∷ []) v in
    follow-IsList mem _ start ls (c ∷ []) (c ∷ d ∷ []) v
      (IsHeader-front mem c d apart (first ls) 0 hc, (IsHeader-behind mem c d apart free fresh, tt))
      (wc, (w, tt))
      (λ a i.
        let sum = covered-rev_append ls (c ∷ []) a in
        linked_off mem c d apart a (not_header c 8 a (omega arith) (omega (arith, v.apart a, sum)))
          (omega (arith, outside a, sum)))
      refl (λ a. omega (arith, outside a, covered-rev_append ls (c ∷ []) a))

new_header_lem :
    (mem : ℕ → ℕ) (c : Cell) (size block : ℕ) (u : Bool)
    → (apart : (a : ℕ) → covers c a + covers (cell block (sub32 (grown_bytes size) 16) u) a ≤ 1)
    → new_header (update mem (next_at c.addr) block) size c.addr
      ≡ (block, linked mem c (cell block (sub32 (grown_bytes size) 16) u))
unfolding new_header
new_header_lem mem c size block u apart =
    let e1 : update mem (next_at c.addr) block (next_at c.addr) ≡ block = ground arith in
    let ne = next_apart mem c (cell block (sub32 (grown_bytes size) 16) u) apart in
    let n1 =
      not_header (cell block (sub32 (grown_bytes size) 16) u) 12 (c.addr + 8) (omega arith) ne in
    let test : (c.addr + 8 == block + 12) ≡ false = ground arith in rw (e1, test) refl

-- The cell that `kmalloc` makes of the pages at `block`.
abbrev pub new_cell : (size block : ℕ) → Cell
new_cell size block = cell block (sub32 (grown_bytes size) 16) false

-- The cells behind the old ones when `new_cell` has given `size` bytes.
abbrev pub new_cells : (size block : ℕ) → List Cell
new_cells size block =
    cell block (sub32 (grown_bytes size) 16 - (size + 16)) false
    ∷ cell (block + (sub32 (grown_bytes size) 16 - size)) size true
    ∷ []

-- What `kmalloc` returns with a new block.
pub record Grown (s : Heap) (size block : ℕ) (cells : List Cell) (p : ℕ) (s' : Heap) : Type 0 where
  pub address : p ≡ add32 (block + (sub32 (grown_bytes size) 16 - size)) 16
  pub list : IsList s'.mem s'.start_header (cells ++ new_cells size block)
  pub start : s'.start_header ≡ s.start_header
  pub interrupts : s'.interrupts ≡ s.interrupts

rev_append-append : (ls rs ys : List Cell) → rev_append ls rs ++ ys ≡ rev_append ls (rs ++ ys)
rev_append-append [] rs ys = refl
rev_append-append (l ∷ ls) rs ys = rev_append-append ls (l ∷ rs) ys

module _ (s : Heap) (size block : ℕ) (ls : List Cell) (c : Cell) (v : Vmm)
    (given : alloc_block s.vmm (grown_pages size) true ≡ some (block, v))
    (w : IsCell (new_cell size block)) (old : IsList s.mem s.start_header (rev_append ls (c ∷ [])))
    (outside : (a : ℕ) → covered (rev_append ls (c ∷ [])) a + covers (new_cell size block) a ≤ 1)
    (fresh : s.mem (block + 8) ≡ 0) (even : size % 8 ≡ 0)
    (room : size + 16 ≤ sub32 (grown_bytes size) 16) where
  apart : (a : ℕ) → covers c a + covers (new_cell size block) a ≤ 1
  apart a = omega (arith, outside a, covered-rev_append ls (c ∷ []) a)

  abbrev made : ℕ × (ℕ → ℕ)
  made = split_words (linked s.mem c (new_cell size block)) block size

  split_new : ℕ × (ℕ → ℕ) → Option (ℕ × Heap)
  split_new (header, mem) =
      let (h, s') = split_header (record (kmalloc_lock s) { mem = mem; vmm = v }) header size in
      some (add32 h header_size, s')

  grow_lem :
      grow (kmalloc_lock s) size c.addr
      ≡ some (
        add32 made.0 header_size,
        kmalloc_unlock (record (kmalloc_lock s) { mem = made.1; vmm = v }),
      )
  unfolding grow split_header split_new
  grow_lem =
      let nz : (block == 0) ≡ false = ground (arith, w.above) in
      rw (grow, given, nz) (ap split_new (new_header_lem s.mem c size block false apart))

  pub grow-Grown :
      (p : ℕ) × (s' : Heap) × (grow (kmalloc_lock s) size c.addr ≡ some (p, s'))
      × Grown s size block (rev_append ls (c ∷ [])) p s'
      × (s'.vmm ≡ v)
  grow-Grown =
      let (e, list) =
        split-IsList _ s.start_header size (c ∷ ls) (new_cell size block) []
          (append-IsList s.mem s.start_header ls c (new_cell size block) old w refl outside fresh
            apart)
          refl room even in
      (
        add32 made.0 header_size,
        _,
        grow_lem
            ∙ ap (λ t. some (add32 made.0 header_size, t))
                (unlocked s.interrupts (record s { mem = made.1; vmm = v })),
        record {
          address = rw e refl;
          list = rw (rev_append-append ls (c ∷ []) (new_cells size block)) list;
          start = refl;
          interrupts = refl;
        },
        refl,
      )
