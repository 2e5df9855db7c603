-- ===== src/Space/Order.antt =====
-- The blocks of a space stand in order of falling size: what `check_lower` and the first loop of
-- `check_upper` do for that order.
use r_oses.Prelude.{
  ℕ, zero, suc, ◌+◌, ◌≤◌, ◌<◌, ◌≡◌, ◌≢◌, arith, ltb, inl, inr, Bool-cases, ℕ_discrete,
}
use r_oses.Pmm.{Block}
use r_oses.Space.{swap, sink, raise}

-- No block in the slots 1 to n is larger than one in front of it.
abbrev pub IsSorted : (ℕ → Block) → ℕ → Type 0
IsSorted f n = (i j : ℕ) → 1 ≤ i → i < j → j ≤ n → (f j).len ≤ (f i).len

-- The same of all slots but `b`, and slot `b` is not too small for its place.
pub record MayRise (f : ℕ → Block) (n b : ℕ) : Type 0 where
  pub others : (i j : ℕ) → 1 ≤ i → i < j → j ≤ n → i ≢ b → j ≢ b → (f j).len ≤ (f i).len
  pub behind : (j : ℕ) → b < j → j ≤ n → (f j).len ≤ (f b).len

-- Slot `b` is not too large for its place.
pub record MaySink (f : ℕ → Block) (n b : ℕ) : Type 0 where
  pub others : (i j : ℕ) → 1 ≤ i → i < j → j ≤ n → i ≢ b → j ≢ b → (f j).len ≤ (f i).len
  pub before : (i : ℕ) → 1 ≤ i → i < b → (f b).len ≤ (f i).len

swap-MayRise :
    (f : ℕ → Block) (n b : ℕ)
    → MayRise f n (suc (suc b))
    → suc (suc b) ≤ n
    → (f (suc b)).len < (f (suc (suc b))).len
    → MayRise (swap f (suc b)) n (suc b)
swap-MayRise f n b v hi lt = record {
  others =
      λ i j lo ij jn ni nj. ground (arith, v.others i j, v.others (suc b) j, v.others i (suc b));
  behind = λ j bj jn. ground (arith, v.behind j);
}

done-MayRise :
    (f : ℕ → Block) (n b : ℕ)
    → MayRise f n b
    → ((i : ℕ) → 1 ≤ i → i < b → b ≤ n → (f b).len ≤ (f i).len)
    → IsSorted f n
done-MayRise f n b v front i j lo ij jn = elim (ℕ_discrete i b) [
  | yes e ↦ ground (arith, v.behind j)
  | no ne ↦ elim (ℕ_discrete j b) [
    | yes e ↦ ground (arith, front i)
    | no ne' ↦ v.others i j lo ij jn ne ne'
  ]
]

-- Raising a block that is not too small for its place puts the space in order.
pub raise-IsSorted : (n b : ℕ) (f : ℕ → Block) → b ≤ n → MayRise f n b → IsSorted (raise f b).0 n
unfolding raise
raise-IsSorted n zero f hi v = done-MayRise f n zero v (λ i lo ib bn. absurd (omega arith))
raise-IsSorted n (suc zero) f hi v = done-MayRise f n 1 v (λ i lo ib bn. absurd (omega arith))
raise-IsSorted n (suc (suc b)) f hi v =
    elim (Bool-cases (ltb (f (suc b)).len (f (suc (suc b))).len)) [
      | inl more ↦ rw more (
          raise-IsSorted n (suc b) (swap f (suc b)) (omega arith)
            (swap-MayRise f n b v hi (ground arith)))
      | inr less ↦
          rw less
            (done-MayRise f n (suc (suc b)) v (λ i lo ib bn. ground (arith, v.others i (suc b))))
    ]

swap-MaySink :
    (f : ℕ → Block) (n b : ℕ)
    → MaySink f n b
    → 1 ≤ b
    → suc b ≤ n
    → (f b).len < (f (suc b)).len
    → MaySink (swap f b) n (suc b)
swap-MaySink f n b v lo hi lt = record {
  others =
      λ i j ilo ij jn ni nj. ground (arith, v.others i j, v.others (suc b) j, v.others i (suc b));
  before = λ i ilo ib. ground (arith, v.before i);
}

done-MaySink :
    (f : ℕ → Block) (n b : ℕ)
    → MaySink f n b
    → ((j : ℕ) → b < j → j ≤ n → (f j).len ≤ (f b).len)
    → IsSorted f n
done-MaySink f n b v back i j lo ij jn = elim (ℕ_discrete i b) [
  | yes e ↦ ground (arith, back j)
  | no ne ↦ elim (ℕ_discrete j b) [
    | yes e ↦ ground (arith, v.before i)
    | no ne' ↦ v.others i j lo ij jn ne ne'
  ]
]

-- Letting a block that is not too large for its place sink puts the space in order.
pub sink-IsSorted :
    (rounds n b : ℕ) (f : ℕ → Block)
    → 1 ≤ b
    → b + rounds ≡ n
    → MaySink f n b
    → IsSorted (sink rounds f b).0 n
unfolding sink
sink-IsSorted zero n b f lo e v = done-MaySink f n b v (λ j bj jn. absurd (omega arith))
sink-IsSorted (suc rounds) n b f lo e v = elim (Bool-cases (ltb (f b).len (f (suc b)).len)) [
  | inl more ↦ rw more (
      sink-IsSorted rounds n (suc b) (swap f b) (omega arith) (omega arith)
        (swap-MaySink f n b v lo (omega arith) (ground arith)))
  | inr less ↦ rw less (done-MaySink f n b v (λ j bj jn. ground (arith, v.others (suc b) j)))
]
