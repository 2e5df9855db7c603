-- ===== src/Space/Moves.antt =====
-- Moving a block through a space keeps what the space holds.
use r_oses.Prelude.{
  ℕ, zero, suc, ◌+◌, ◌≤◌, ◌≡◌, ◌∙◌, arith, ltb, inl, inr, Bool-cases, refl, ℕ_discrete,
}
use r_oses.Prelude.Slots.{sum_to, update, sum_to_agree, sum_to-update}
use r_oses.Pmm.{Block}
use r_oses.Pmm.Pages.{IsRange}
use r_oses.Space.{swap, sink, raise}

abbrev pub AreRanges : (ℕ → Block) → ℕ → Type 0
AreRanges f n = (j : ℕ) → 1 ≤ j → j ≤ n → IsRange (f j)

-- The slots 1 to n hold the same blocks in another order, and the block of slot `b` is at `r.1`.
pub record Moved (n b : ℕ) (f : ℕ → Block) (r : (ℕ → Block) × ℕ) : Type 0 where
  pub sums : (g : Block → ℕ) → sum_to g r.0 n ≡ sum_to g f n
  pub holds : r.0 r.1 ≡ f b
  pub first : 1 ≤ r.1
  pub final : r.1 ≤ n
  pub ranges : AreRanges f n → AreRanges r.0 n

still-Moved : (n b : ℕ) (f : ℕ → Block) → 1 ≤ b → b ≤ n → Moved n b f (f, b)
still-Moved n b f lo hi = record {
  sums = λ g. refl;
  holds = refl;
  first = lo;
  final = hi;
  ranges = λ v. v;
}

sum_to-swap :
    (g : Block → ℕ) (f : ℕ → Block) (i n : ℕ)
    → 1 ≤ i
    → suc i ≤ n
    → sum_to g (swap f i) n ≡ sum_to g f n
sum_to-swap g f i n lo hi = ground (
  arith,
  sum_to_agree g (swap f i) (update (update f i (f (suc i))) (suc i) (f i)) n
      (λ j a b. ground arith),
  sum_to-update g (update f i (f (suc i))) (suc i) (f i) n (omega arith) hi,
  sum_to-update g f i (f (suc i)) n lo (omega arith),
)

swap-AreRanges :
    (f : ℕ → Block) (i n : ℕ) → 1 ≤ i → suc i ≤ n → AreRanges f n → AreRanges (swap f i) n
swap-AreRanges f i n lo hi v j a b = elim (ℕ_discrete j i) [
  | yes e ↦ ground (arith, v (suc i) (omega arith) hi)
  | no ne ↦ elim (ℕ_discrete j (suc i)) [
    | yes e ↦ ground (arith, v i lo (omega arith))
    | no ne' ↦ ground (arith, v j a b)
  ]
]

pub raise-Moved : (n b : ℕ) (f : ℕ → Block) → 1 ≤ b → b ≤ n → Moved n b f (raise f b)
unfolding raise
raise-Moved n zero f lo hi = absurd (omega arith)
raise-Moved n (suc zero) f lo hi = still-Moved n 1 f lo hi
raise-Moved n (suc (suc b)) f lo hi =
    elim (Bool-cases (ltb (f (suc b)).len (f (suc (suc b))).len)) [
      | inl more ↦
          let m = raise-Moved n (suc b) (swap f (suc b)) (omega arith) (omega arith) in
          rw more (record {
            sums = λ g. m.sums g ∙ sum_to-swap g f (suc b) n (omega arith) hi;
            holds = m.holds ∙ ground arith;
            first = m.first;
            final = m.final;
            ranges = λ v. m.ranges (swap-AreRanges f (suc b) n (omega arith) hi v);
          })
      | inr less ↦ rw less (still-Moved n (suc (suc b)) f lo hi)
    ]

pub sink-Moved :
    (rounds n b : ℕ) (f : ℕ → Block) → 1 ≤ b → b + rounds ≡ n → Moved n b f (sink rounds f b)
unfolding sink
sink-Moved zero n b f lo e = still-Moved n b f lo (omega arith)
sink-Moved (suc rounds) n b f lo e = elim (Bool-cases (ltb (f b).len (f (suc b)).len)) [
  | inl more ↦
      let m = sink-Moved rounds n (suc b) (swap f b) (omega arith) (omega arith) in
      rw more (record {
        sums = λ g. m.sums g ∙ sum_to-swap g f b n lo (omega arith);
        holds = m.holds ∙ ground arith;
        first = m.first;
        final = m.final;
        ranges = λ v. m.ranges (swap-AreRanges f b n lo (omega arith) v);
      })
  | inr less ↦ rw less (still-Moved n b f lo (omega arith))
]
