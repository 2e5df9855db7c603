-- ===== src/Space/Put.antt =====
-- A block that is put into a space: in a new slot, or joined to a block that it touches.
use r_oses.Prelude.{ℕ, suc, ◌+◌, ◌*◌, ◌≤◌, ◌<◌, ◌≡◌, ◌∙◌, arith, ℕ_discrete, some, add32}
use r_oses.Prelude.Slots.{update, sum_to-update, sum_to-push}
use r_oses.Pmm.{Block, block}
use r_oses.Pmm.Pages.{in_block, IsRange, in_block-cut}
use r_oses.Space.{Space, push_block, check_upper}
use r_oses.Space.Order.{MayRise}
use r_oses.Space.Moves.{AreRanges}
use r_oses.Space.Upper.{space_count, IsSpace, check_upper-Tidied}

-- The addresses of the block are free once more, and the space is in order.
pub record Put (s : Space) (b : Block) (s' : Space) : Type 0 where
  pub counts : (q : ℕ) → space_count s' q ≡ space_count s q + in_block q b
  pub space : IsSpace s'

module _ (s : Space) (b : Block) (v : IsSpace s) (r : IsRange b) where
  pushed-MayRise : MayRise (update s.blocks (s.last + 1) b) (s.last + 1) (s.last + 1)
  pushed-MayRise = record {
    others = λ i j lo ij jn ni nj. ground (arith, v.sorted i j);
    behind = λ j bj jn. absurd (omega arith);
  }

  pushed-AreRanges : AreRanges (update s.blocks (s.last + 1) b) (s.last + 1)
  pushed-AreRanges j lo hi = elim (ℕ_discrete j (s.last + 1)) [
    | yes at ↦ ground arith
    | no ne ↦ ground (arith, v.ranges j lo (omega arith))
  ]

  -- The block in a new slot, and `check_upper` from there.
  pub check_upper-push_block :
      (s' : Space) × (b' : ℕ) × (check_upper (suc (suc s.last)) (push_block s b) (s.last + 1)
        ≡ some (s', b'))
      × Put s b s'
  check_upper-push_block =
      let (s', b', e, t) =
        check_upper-Tidied (suc (suc s.last)) (push_block s b) (s.last + 1)
          (pushed-AreRanges, omega arith, omega arith, pushed-MayRise, omega arith) in
      (
        s',
        b',
        e,
        record {
          counts = λ q. t.counts q ∙ sum_to-push (in_block q) s.blocks b s.last;
          space = t.space;
        },
      )

-- A block that ends where the block of slot `k` begins.
module _ (s : Space) (k addr size : ℕ) (v : IsSpace s) (lo : 1 ≤ k) (hi : k ≤ s.last)
    (pos : 0 < addr) (touch : addr + 4096 * size ≡ (s.blocks k).addr) where
  abbrev grown : Block
  grown = block addr ((s.blocks k).len + size)

  grown-MayRise : MayRise (update s.blocks k grown) s.last k
  grown-MayRise = record {
    others = λ i j ilo ij jn ni nj. ground (arith, v.sorted i j);
    behind = λ j bj jn. ground (arith, v.sorted k j);
  }

  grown-AreRanges : AreRanges (update s.blocks k grown) s.last
  grown-AreRanges j a c = ground (arith, v.ranges k lo hi, v.ranges j a c)

  grown-in_block :
      (q : ℕ) → in_block q grown ≡ in_block q (s.blocks k) + in_block q (block addr size)
  grown-in_block q = ground (arith, in_block-cut q addr size (s.blocks k).len)

  pub check_upper-join_above :
      (s' : Space) × (b' : ℕ) × (check_upper
          (suc s.last)
          (record s { blocks = update s.blocks k (block addr (add32 (s.blocks k).len size)) })
          k
        ≡ some (s', b'))
      × Put s (block addr size) s'
  check_upper-join_above =
      let n : add32 (s.blocks k).len size ≡ (s.blocks k).len + size =
        omega (arith, v.ranges k lo hi) in
      let (s', b', e, t) =
        check_upper-Tidied (suc s.last) (record s { blocks = update s.blocks k grown }) k
          (grown-AreRanges, lo, hi, grown-MayRise, omega arith) in
      rw n (
        s',
        b',
        e,
        record {
          counts = λ q.
              t.counts q
              ∙ omega (
                arith,
                sum_to-update (in_block q) s.blocks k grown s.last lo hi,
                grown-in_block q,
              );
          space = t.space;
        },
      )
