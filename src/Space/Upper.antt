-- ===== src/Space/Upper.antt =====
-- `check_upper`: the space is in order afterwards and holds the same addresses.
use r_oses.Prelude.{
  ℕ, zero, suc, ◌+◌, ◌-◌, ◌≤◌, ◌≡◌, ◌≢◌, ◌∙◌, arith, ltb, ◌==◌, ◌||◌, inl, inr, Bool-cases, refl,
  Option, some, add32, false,
}
use r_oses.Prelude.Slots.{sum_to, update, sum_to-update, sum_to-remove}
use r_oses.Pmm.{Block, end_of}
use r_oses.Pmm.Pages.{in_block, IsRange, in_block-join}
use r_oses.Space.{Space, raise, join, after_removal, returning, join_scan, check_upper}
use r_oses.Space.Order.{IsSorted, MayRise, raise-IsSorted}
use r_oses.Space.Moves.{AreRanges, raise-Moved}

-- How often the page of addresses at `q` is free in the space.
abbrev pub space_count : Space → ℕ → ℕ
space_count s q = sum_to (in_block q) s.blocks s.last

pub record IsSpace (s : Space) : Type 0 where
  pub ranges : AreRanges s.blocks s.last
  pub sorted : IsSorted s.blocks s.last

-- The same addresses are free, and the space is in order.
pub record Tidied (s s' : Space) : Type 0 where
  pub counts : (q : ℕ) → space_count s' q ≡ space_count s q
  pub space : IsSpace s'
  pub fewer : s'.last ≤ s.last

abbrev Ends : Space → Option (Space × ℕ) → Type 0
Ends s r = (s' : Space) × (b : ℕ) × (r ≡ some (s', b)) × Tidied s s'

module _ (s : Space) (b p : ℕ) (v : IsSpace s) (lo : 1 ≤ b) (hi : b ≤ s.last) (plo : 1 ≤ p)
    (phi : p ≤ s.last) (ne : p ≢ b) where
  join-counts :
      (m : Block) (q : ℕ)
      → in_block q m ≡ in_block q (s.blocks p) + in_block q (s.blocks b)
      → space_count (join s b p m) q ≡ space_count s q
  unfolding join
  join-counts m q e = ground (
    arith,
    sum_to-remove (in_block q) (update s.blocks p m) b s.last lo hi,
    sum_to-update (in_block q) s.blocks p m s.last plo phi,
  )

  join-AreRanges : (m : Block) → IsRange m → AreRanges (join s b p m).blocks (s.last - 1)
  unfolding join
  join-AreRanges m w j a c =
      ground (arith, v.ranges j a (omega arith), v.ranges (j + 1) (omega arith) (omega arith))

  join-MayRise :
      (m : Block)
      → (s.blocks p).len ≤ m.len
      → MayRise (join s b p m).blocks (s.last - 1) (after_removal b p)
  unfolding join
  join-MayRise m big = record {
    others = λ i j ilo ij jn ni nj.
        ground (arith, v.sorted i j, v.sorted i (j + 1), v.sorted (i + 1) (j + 1));
    behind = λ j pj jn. ground (arith, v.sorted p j, v.sorted p (j + 1));
  }

  removal_bounds : (1 ≤ after_removal b p) × (after_removal b p ≤ s.last - 1)
  removal_bounds = ground arith

abbrev pub CanTidy : ℕ → Space → ℕ → Type 0
CanTidy fuel s b =
    AreRanges s.blocks s.last × (1 ≤ b) × (b ≤ s.last) × MayRise s.blocks s.last b × (s.last ≤ fuel)

same-Tidied : (s : Space) → IsSpace s → Tidied s s
same-Tidied s v = record { counts = λ q. refl; space = v; fewer = omega arith }

-- A join and the recursive call behind it.
returning-Ends :
    (s t : Space) (p : ℕ) (r : Option (Space × ℕ))
    → ((q : ℕ) → space_count t q ≡ space_count s q)
    → t.last ≤ s.last
    → Ends t r
    → Ends s (returning p r)
returning-Ends s t p r same le (u, b, e, m) = rw e (
  u,
  p,
  refl,
  record { counts = λ q. m.counts q ∙ same q; space = m.space; fewer = omega (arith, m.fewer) },
)

module _ (fuel : ℕ) (again : Space → ℕ → Option (Space × ℕ))
    (ends : (s : Space) (b : ℕ) → CanTidy fuel s b → Ends s (again s b)) where
  join-Ends :
      (s : Space) (b p : ℕ) (v : IsSpace s) (m : Block)
      → 1 ≤ b
      → b ≤ s.last
      → 1 ≤ p
      → p ≤ s.last
      → p ≢ b
      → s.last ≤ suc fuel
      → IsRange m
      → ((q : ℕ) → in_block q m ≡ in_block q (s.blocks p) + in_block q (s.blocks b))
      → (s.blocks p).len ≤ m.len
      → Ends s (returning (after_removal b p) (again (join s b p m) (after_removal b p)))
  unfolding join
  join-Ends s b p v m lo hi plo phi ne le w e big =
      let (rlo, rhi) = removal_bounds s b p v lo hi plo phi ne in
      returning-Ends s (join s b p m) (after_removal b p) _
        (λ q. join-counts s b p v lo hi plo phi ne m q (e q)) (omega arith)
        (ends (join s b p m) (after_removal b p) (
          join-AreRanges s b p v lo hi plo phi ne m w,
          rlo,
          rhi,
          join-MayRise s b p v lo hi plo phi ne m big,
          omega arith,
        ))

  join_scan-Ends :
      (rounds : ℕ) (s : Space) (b p : ℕ)
      → IsSpace s
      → 1 ≤ b
      → b ≤ s.last
      → 1 ≤ p
      → p + rounds ≤ s.last + 1
      → s.last ≤ suc fuel
      → Ends s (join_scan again s b rounds p)
  unfolding join_scan
  join_scan-Ends zero s b p v lo hi plo phi le = (s, b, refl, same-Tidied s v)
  join_scan-Ends (suc rounds) s b p v lo hi plo phi le =
      let rest = join_scan-Ends rounds s b (suc p) v lo hi (omega arith) (omega arith) le in
      elim (Bool-cases (p == b)) [
        | inl e ↦ rw e rest
        | inr e ↦
            let ne : p ≢ b = ground arith in
            let pin : p ≤ s.last = omega arith in
            let x = v.ranges p plo pin in
            let y = v.ranges b lo hi in
            rw e (elim (Bool-cases ((s.blocks p).addr == end_of (s.blocks b))) [
              | inl t ↦
                  let touch : end_of (s.blocks b) ≡ (s.blocks p).addr = ground arith in
                  let n : add32 (s.blocks p).len (s.blocks b).len
                      ≡ (s.blocks b).len + (s.blocks p).len =
                    omega arith in
                  rw (t, n)
                    (join-Ends s b p v _ lo hi plo pin ne le (omega arith)
                      (λ q. omega (arith, in_block-join q (s.blocks b) (s.blocks p) y x touch))
                      (omega arith))
              | inr t ↦ rw t (elim (Bool-cases ((s.blocks b).addr == end_of (s.blocks p))) [
                | inl u ↦
                    let touch : end_of (s.blocks p) ≡ (s.blocks b).addr = ground arith in
                    let n : add32 (s.blocks p).len (s.blocks b).len
                        ≡ (s.blocks p).len + (s.blocks b).len =
                      omega arith in
                    rw (u, n)
                      (join-Ends s b p v _ lo hi plo pin ne le (omega arith)
                        (λ q. in_block-join q (s.blocks p) (s.blocks b) x y touch) (omega arith))
                | inr u ↦ rw u rest
              ])
            ])
      ]

-- Where slot b is in use and not too small for its place, the others are in order and the fuel
-- is no less than the slots in use, check_upper ends: the space is in order, the same addresses
-- are free, and no more slots are in use.
pub check_upper-Tidied :
    (fuel : ℕ) (s : Space) (b : ℕ)
    → CanTidy fuel s b
    → (s' : Space) × (b' : ℕ) × (check_upper fuel s b ≡ some (s', b')) × Tidied s s'
unfolding check_upper
check_upper-Tidied zero s b (v, lo, hi, m, le) = absurd (omega arith)
check_upper-Tidied (suc fuel) s b (v, lo, hi, m, le) =
    let r = raise s.blocks b in
    let w = raise-Moved s.last b s.blocks lo hi in
    let t : Space = record s { blocks = r.0 } in
    let (u, b', e, x) =
      join_scan-Ends fuel (check_upper fuel) (check_upper-Tidied fuel) s.last t r.1 1
        (record { ranges = w.ranges v; sorted = raise-IsSorted s.last b s.blocks hi m }) w.first
        w.final (omega arith) (omega arith) le in
    let inside : (ltb b 1 || ltb s.last b) ≡ false = ground arith in
    rw inside (
      u,
      b',
      e,
      record { counts = λ q. x.counts q ∙ w.sums (in_block q); space = x.space; fewer = x.fewer },
    )
