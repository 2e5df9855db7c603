-- ===== src/Space/Take.antt =====
-- `alloc_block` on a space: the block that it finds, and what is left of it.
use r_oses.Prelude.{
  ℕ, zero, suc, ◌+◌, ◌-◌, ◌*◌, ◌≤◌, ◌<◌, ◌≡◌, ◌∙◌, arith, leb, ◌==◌, inl, inr, Bool-cases, refl,
  ℕ_discrete, some, add32, sub32, ap, sym,
}
use r_oses.Prelude.Slots.{sum_to, update, sum_to-update, sum_to_pred}
use r_oses.Pmm.{Block, block, end_of}
use r_oses.Pmm.Pages.{in_block, in_block-cut}
use r_oses.Space.{Space, resize, drop_empty, check_lower, check_upper, find_fit}
use r_oses.Space.Order.{MayRise, MaySink, sink-IsSorted}
use r_oses.Space.Moves.{AreRanges, sink-Moved}
use r_oses.Space.Upper.{space_count, IsSpace, check_upper-Tidied}

-- The slot found is the last one that is large enough.
pub record Fits (f : ℕ → Block) (size n k : ℕ) : Type 0 where
  pub first : 1 ≤ k
  pub final : k ≤ n
  pub enough : size ≤ (f k).len
  pub behind : (j : ℕ) → k < j → j ≤ n → (f j).len < size

-- A slot that find_fit gives is in use and large enough, and it is the last one that is.
pub find_fit-Fits : (f : ℕ → Block) (size n k : ℕ) → find_fit f size n ≡ some k → Fits f size n k
unfolding find_fit
find_fit-Fits f size zero k e = cc
find_fit-Fits f size (suc n) k e = elim (Bool-cases (leb size (f (suc n)).len)) [
  | inl yes' ↦
      let here : suc n ≡ k = ground arith in
      record {
        first = omega arith;
        final = omega arith;
        enough = ground arith;
        behind = λ j a b. absurd (omega arith);
      }
  | inr no' ↦
      let h = find_fit-Fits f size n k (ground arith) in
      record {
        first = h.first;
        final = omega (arith, h.final);
        enough = h.enough;
        behind = λ j a b. elim (ℕ_discrete j (suc n)) [
          | yes at ↦ ground arith
          | no below ↦ h.behind j a (omega arith)
        ];
      }
]

-- `size` pages at the end of the block in slot `r.1` are no longer in the space.
pub record Took (s : Space) (size : ℕ) (r : Space × ℕ) : Type 0 where
  pub counts :
      (q : ℕ)
      → space_count s q ≡ space_count r.0 q + in_block q (block (end_of (r.0.blocks r.1)) size)
  pub space : IsSpace r.0
  pub first : 1 ≤ r.1
  pub final : r.1 ≤ r.0.last
  pub same_last : r.0.last ≡ s.last
  pub fits : (r.0.blocks r.1).addr + 4096 * ((r.0.blocks r.1).len + size) ≤ 4294967296

module _ (s : Space) (k size : ℕ) (v : IsSpace s) (lo : 1 ≤ k) (hi : k ≤ s.last) (pos : 1 ≤ size)
    (enough : size ≤ (s.blocks k).len) where
  abbrev less : Block
  less = record (s.blocks k) { len = (s.blocks k).len - size }

  less-len : sub32 (s.blocks k).len size ≡ (s.blocks k).len - size
  less-len = omega (arith, v.ranges k lo hi)

  less-AreRanges : AreRanges (update s.blocks k less) s.last
  less-AreRanges j a b = ground (arith, v.ranges k lo hi, v.ranges j a b)

  less-MaySink : MaySink (update s.blocks k less) s.last k
  less-MaySink = record {
    others = λ i j ilo ij jn ni nj. ground (arith, v.sorted i j);
    before = λ i ilo ik. ground (arith, v.sorted i k);
  }

  less-end : end_of less ≡ less.addr + 4096 * less.len
  less-end = omega (arith, v.ranges k lo hi)

  less-whole : (q : ℕ) → in_block q (block less.addr (less.len + size)) ≡ in_block q (s.blocks k)
  less-whole q = ap (λ n. in_block q (block less.addr n)) (omega arith)

  less-counts :
      (q : ℕ)
      → space_count s q
        ≡ sum_to (in_block q) (update s.blocks k less) s.last
          + in_block q (block (end_of less) size)
  less-counts q = rw less-end (
      omega (
        arith,
        sum_to-update (in_block q) s.blocks k less s.last lo hi,
        in_block-cut q less.addr less.len size,
        less-whole q,
      ))

  -- In a space in order, after size pages, one or more, are taken off the end of a block that is
  -- large enough, check_lower puts the space in order, and what is free there is what was free
  -- less exactly those pages.
  pub check_lower-Took : Took s size (check_lower (resize s k (sub32 (s.blocks k).len size)) k)
  unfolding check_lower
  check_lower-Took =
      let m = sink-Moved (s.last - k) s.last k (update s.blocks k less) lo (omega arith) in
      let at : update s.blocks k less k ≡ less = ground arith in
      let holds = m.holds ∙ at in
      rw less-len (record {
        counts = λ q. rw holds (
            less-counts q
            ∙ ap (λ t. t + in_block q (block (end_of less) size)) (sym (m.sums (in_block q))));
        space = record {
          ranges = m.ranges less-AreRanges;
          sorted =
              sink-IsSorted (s.last - k) s.last k (update s.blocks k less) lo (omega arith)
                less-MaySink;
        };
        first = m.first;
        final = m.final;
        same_last = refl;
        fits = rw holds (omega (arith, v.ranges k lo hi));
      })

-- Dropping a block of size 0 at the end takes no address out of the space.
pub drop_empty-counts :
    (s : Space) (b q : ℕ)
    → IsSpace s
    → 1 ≤ b
    → b ≤ s.last
    → space_count (drop_empty s b) q ≡ space_count s q
drop_empty-counts s b q v lo hi = elim (ℕ_discrete (s.blocks b).len 0) [
  | yes e ↦ ground (arith, sum_to_pred (in_block q) s.blocks s.last, final-empty)
  | no ne ↦ ground arith
]
  where
    final-empty : (s.blocks b).len ≡ 0 → (s.blocks s.last).len ≡ 0
    final-empty e = elim (ℕ_discrete b s.last) [
      | yes at ↦ ground arith
      | no ne ↦ omega (arith, v.sorted b s.last lo (omega arith) (omega arith))
    ]

pub drop_empty-IsSpace : (s : Space) (b : ℕ) → IsSpace s → IsSpace (drop_empty s b)
drop_empty-IsSpace s b v = elim (Bool-cases ((s.blocks b).len == 0)) [
  | inl e ↦ rw e (record {
    ranges = λ j a c. v.ranges j a (omega arith);
    sorted = λ i j a c d. v.sorted i j a c (omega arith);
  })
  | inr e ↦ rw e v
]

-- Pages that go back to the block that they follow.
module _ (s : Space) (b size : ℕ) (v : IsSpace s) (lo : 1 ≤ b) (hi : b ≤ s.last) (pos : 1 ≤ size)
    (fits : (s.blocks b).addr + 4096 * ((s.blocks b).len + size) ≤ 4294967296) where
  abbrev more : Block
  more = record (s.blocks b) { len = (s.blocks b).len + size }

  more-MayRise : MayRise (update s.blocks b more) s.last b
  more-MayRise = record {
    others = λ i j ilo ij jn ni nj. ground (arith, v.sorted i j);
    behind = λ j bj jn. ground (arith, v.sorted b j);
  }

  more-AreRanges : AreRanges (update s.blocks b more) s.last
  more-AreRanges j a c = ground (arith, v.ranges b lo hi, v.ranges j a c)

  more-counts :
      (q : ℕ)
      → sum_to (in_block q) (update s.blocks b more) s.last
        ≡ space_count s q + in_block q (block (end_of (s.blocks b)) size)
  more-counts q =
      let e : end_of (s.blocks b) ≡ (s.blocks b).addr + 4096 * (s.blocks b).len =
        omega (arith, v.ranges b lo hi) in
      rw e (
        omega (
          arith,
          sum_to-update (in_block q) s.blocks b more s.last lo hi,
          in_block-cut q (s.blocks b).addr (s.blocks b).len size,
        ))

  pub check_upper-give_back :
      (s' : Space) × (b' : ℕ) × (check_upper
          (suc s.last)
          (resize s b (add32 (s.blocks b).len size))
          b
        ≡ some (s', b'))
      × ((q : ℕ)
          → space_count s' q ≡ space_count s q + in_block q (block (end_of (s.blocks b)) size))
      × IsSpace s'
  check_upper-give_back =
      let n : add32 (s.blocks b).len size ≡ (s.blocks b).len + size =
        omega (arith, v.ranges b lo hi) in
      let (s', b', e, t) =
        check_upper-Tidied (suc s.last) (record s { blocks = update s.blocks b more }) b
          (more-AreRanges, lo, hi, more-MayRise, omega arith) in
      rw n (s', b', e, λ q. t.counts q ∙ more-counts q, t.space)
