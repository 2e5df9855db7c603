-- ===== src/Heap/Absorb.antt =====
-- The bodies of the loops of `kfree`: a free block takes in the one that follows it.
use r_oses.Prelude.{
  ℕ, ◌+◌, ◌≤◌, ◌<◌, ◌≡◌, ◌≢◌, refl, ap, ◌∙◌, arith, List, [], ◌∷◌, ◌&&◌, if◌then◌else◌, ◌==◌, add32,
  ◌⊎◌, inl, inr, not, fun_ext, ℕ_discrete,
}
use r_oses.Prelude.Slots.{update}
use r_oses.Heap.{header_size, absorb, link_back}
use r_oses.Heap.Cells.{
  Cell, cell, covers, covered, covers_header, first, status_word, IsCell, IsHeader, Chain, AllCells,
  SameOff,
}
use r_oses.Heap.Places.{not_covered, Chain-relinked}

-- The headers at `h` and `k` are neighbours, and `r` is the one behind them.
module _ (mem : ℕ → ℕ) (h k sh sk r : ℕ) (h_size : mem h ≡ sh) (k_size : mem k ≡ sk)
    (is_next : mem (k + 8) ≡ r) (meets : h + 16 + sh ≡ k) (below : k + 16 + sk ≤ 4294967296)
    (off : r ≢ 0 → (r + 12 < h) ⊎ (k + 16 + sk ≤ r + 12)) where
  abbrev sized : ℕ → ℕ
  sized = update mem h (sh + (16 + sk))

  -- The memory after the write of the link back.
  abbrev joined : ℕ → ℕ
  joined a = if (not (r == 0)) && (a == r + 12) then h else update sized (h + 8) r a

  size_lem : add32 (mem h) (add32 header_size (mem k)) ≡ sh + (16 + sk)
  size_lem = ground arith

  sized_next : sized (k + 8) ≡ r
  sized_next = ground arith

  still_next : update sized (h + 8) r (k + 8) ≡ r
  still_next = ground arith

  linked : (a : ℕ) → link_back (update sized (h + 8) r) k h a ≡ joined a
  linked a = rw still_next (elim (ℕ_discrete r 0) [ yes e ↦ ground arith | no ne ↦ ground arith ])

  absorb_eq : absorb mem h k ≡ joined
  unfolding absorb
  absorb_eq =
      ap (λ x. link_back (update (update mem h x) (h + 8) (update mem h x (k + 8))) k h) size_lem
      ∙ ap (λ y. link_back (update sized (h + 8) y) k h) sized_next
      ∙ fun_ext linked

  IsHeader-joined :
      (p status : ℕ)
      → mem (h + 4) ≡ status
      → mem (h + 12) ≡ p
      → (joined h ≡ sh + (16 + sk))
        × (joined (h + 4) ≡ status)
        × (joined (h + 8) ≡ r)
        × (joined (h + 12) ≡ p)
  IsHeader-joined p status e e' =
      (ground (arith, off), ground (arith, off), ground (arith, off), ground (arith, off))

  joined_link : r ≢ 0 → joined (r + 12) ≡ h
  joined_link nz = ground arith

  joined_off : (a : ℕ) → (a < h) ⊎ (h + 16 ≤ a) → (r ≡ 0) ⊎ (a ≢ r + 12) → joined a ≡ mem a
  joined_off a o n = ground arith

-- The two cells `c` and `d` as one.
abbrev pub union : (c d : Cell) → Cell
union c d = cell c.addr (c.size + (16 + d.size)) c.used

pub covers-union :
    (c d : Cell) (a : ℕ)
    → c.addr + 16 + c.size ≡ d.addr
    → covers (union c d) a ≡ covers c a + covers d a
covers-union c d a e = ground arith

-- The list after two cells have become one, and the memory elsewhere.
unfoldable pub Joined : (ℕ → ℕ) → (p : ℕ) → (c d : Cell) → List Cell → (ℕ → ℕ) → Type 0
Joined mem p c d rs mem' = Chain mem' p (union c d ∷ rs) × SameOff (c ∷ d ∷ rs) mem mem'

module _ (mem : ℕ → ℕ) (p : ℕ) (c d : Cell) (rs : List Cell) (hc : IsHeader mem p c d.addr)
    (hd : IsHeader mem c.addr d (first rs)) (wd : IsCell d) (meets : c.addr + 16 + c.size ≡ d.addr)
    (off : first rs ≢ 0 → (first rs + 12 < c.addr) ⊎ (d.addr + 16 + d.size ≤ first rs + 12)) where
  abbrev after : ℕ → ℕ
  after =
      joined mem c.addr d.addr c.size d.size (first rs) hc.size hd.size hd.next meets wd.below off

  IsHeader-union : IsHeader after p (union c d) (first rs)
  IsHeader-union =
      let (e1, e2, e3, e4) =
        IsHeader-joined mem c.addr d.addr c.size d.size (first rs) hc.size hd.size hd.next meets
          wd.below off p (status_word c.used) hc.status hc.prev in
      record { size = e1; status = e2; next = e3; prev = e4 }

  after_off : (a : ℕ) → covers c a ≡ 0 → (first rs ≡ 0) ⊎ (a ≢ first rs + 12) → after a ≡ mem a
  after_off a e n =
      joined_off mem c.addr d.addr c.size d.size (first rs) hc.size hd.size hd.next meets wd.below
        off a (ground (arith, not_covered c a e)) n

  after_link : first rs ≢ 0 → after (first rs + 12) ≡ c.addr
  after_link =
      joined_link mem c.addr d.addr c.size d.size (first rs) hc.size hd.size hd.next meets wd.below
        off

  after-Joined : Chain after c.addr rs → SameOff (c ∷ d ∷ rs) mem after → Joined mem p c d rs after
  unfolding Joined
  after-Joined t same = ((IsHeader-union, t), same)

  absorb-after :
      Chain after c.addr rs
      → SameOff (c ∷ d ∷ rs) mem after
      → Joined mem p c d rs (absorb mem c.addr d.addr)
  absorb-after t same =
      rw
        (absorb_eq mem c.addr d.addr c.size d.size (first rs) hc.size hd.size hd.next meets wd.below
          off)
        (after-Joined t same)

last_off : (a b : ℕ) → first [] ≢ 0 → (first [] + 12 < a) ⊎ (b ≤ first [] + 12)
last_off a b nz = absurd (nz refl)

union_off :
    (c d e : Cell)
    → c.addr + 16 + c.size ≡ d.addr
    → covers c (e.addr + 12) + covers d (e.addr + 12) ≡ 0
    → e.addr ≢ 0
    → (e.addr + 12 < c.addr) ⊎ (d.addr + 16 + d.size ≤ e.addr + 12)
union_off c d e meets z nz = ground arith

-- Two cells that stand next to each other become one.
pub absorb-Joined :
    (mem : ℕ → ℕ) (p : ℕ) (c d : Cell) (rs : List Cell)
    → Chain mem p (c ∷ d ∷ rs)
    → AllCells (d ∷ rs)
    → ((a : ℕ) → covered (c ∷ d ∷ rs) a ≤ 1)
    → c.addr + 16 + c.size ≡ d.addr
    → Joined mem p c d rs (absorb mem c.addr d.addr)
absorb-Joined mem p c d [] (hc, (hd, _)) (wd, _) apart meets =
    let off = last_off c.addr (d.addr + 16 + d.size) in
    absorb-after mem p c d [] hc hd wd meets off tt
      (λ a e. after_off mem p c d [] hc hd wd meets off a (omega arith) (inl refl))
absorb-Joined mem p c d (e ∷ es) (hc, (hd, t)) (wd, (we, _)) apart meets =
    let nz : (e.addr ≢ 0) = λ k. absurd (omega (arith, we.above)) in
    let off =
      union_off c d e meets
        (omega (arith, apart (e.addr + 12), covers_header e 12 (omega arith))) in
    absorb-after mem p c d (e ∷ es) hc hd wd meets off
      (Chain-relinked mem _ d.addr c.addr e es (λ a. omega (arith, apart a))
        (λ a i ne.
          after_off mem p c d (e ∷ es) hc hd wd meets off a (omega (arith, apart a)) (inr ne))
        (after_link mem p c d (e ∷ es) hc hd wd meets off nz) t)
      (λ a z.
        after_off mem p c d (e ∷ es) hc hd wd meets off a (omega arith)
          (inr (λ k. absurd (omega (arith, ap (covers e) k, covers_header e 12 (omega arith))))))
