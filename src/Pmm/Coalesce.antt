-- ===== src/Pmm/Coalesce.antt =====
-- `coalesce` ends, and changes how the free pages are kept but not which pages are free.
use r_oses.Prelude.{
  ℕ, zero, suc, ◌+◌, ◌≤◌, ◌<◌, ◌≡◌, ◌≢◌, ◌∙◌, arith, ◌==◌, ℕ_discrete, refl, Option, some,
  Bool-cases, inl, inr, dec_lt,
}
use r_oses.Pmm.{
  Pmm, end_of, merge, resume, step_on, after_removal, coalesce_scan, coalesce_loop, coalesce_while,
  coalesce,
}
use r_oses.Pmm.Pages.{free_count, IsValid}
use r_oses.Pmm.Merge.{Coalesced, merge-below, merge-above, after_removal_bounds}

-- The run ends in a state, and that state is related to the one it began in.
abbrev pub Ends : ℕ → Pmm → Option Pmm → Type 0
Ends k s r = (s' : Pmm) × (r ≡ some s') × Coalesced k s s'

same-Coalesced : (s : Pmm) → IsValid s → Coalesced 0 s s
same-Coalesced s v = record {
  counts = λ q. refl;
  valid = v;
  last = omega arith;
  above = λ j h. refl;
  some_left = λ h. h;
  pointer = λ c e. (c, e, omega arith);
}

-- A merge, the recursive call and the step of the pointer that follows it.
resume-Ends :
    (s t : Pmm) (r : Option Pmm) → Coalesced 1 s t → Ends 0 t r → 1 ≤ t.last → Ends 0 s (resume r)
resume-Ends s t r m (u, e, n) h = rw e (
  record u { coalesce_ptr = step_on u.coalesce_ptr },
  refl,
  record {
    counts = λ q. ground (arith, n.counts q, m.counts q);
    valid = record { live = n.valid.live };
    last = omega (arith, n.last, m.last);
    above = λ j k. n.above j (omega (arith, m.last)) ∙ m.above j k;
    some_left = λ k. n.some_left h;
    pointer = λ c p.
        let (d, p', le) = m.pointer c p in
        let (d', p'', le') = n.pointer d p' in (d' + 1, rw p'', omega arith);
  },
)

module _ (fuel : ℕ) (again : Pmm → ℕ → Option Pmm)
    (ends : (s : Pmm) (b : ℕ)
      → IsValid s
      → 1 ≤ b
      → b ≤ s.last
      → s.last ≤ fuel
      → Ends 0 s (again s b)) where
  coalesce_scan-Ends :
      (rounds : ℕ) (s : Pmm) (b p : ℕ)
      → IsValid s
      → 1 ≤ b
      → b ≤ s.last
      → 1 ≤ p
      → p + rounds ≤ s.last + 1
      → s.last ≤ suc fuel
      → Ends 0 s (coalesce_scan again s b rounds p)
  unfolding coalesce_scan merge
  coalesce_scan-Ends zero s b p v lo hi plo phi le = (s, refl, same-Coalesced s v)
  coalesce_scan-Ends (suc rounds) s b p v lo hi plo phi le =
      let rest = coalesce_scan-Ends rounds s b (suc p) v lo hi (omega arith) (omega arith) le in
      elim (Bool-cases (p == b)) [
        | inl e ↦ rw e rest
        | inr e ↦
            let ne : p ≢ b = ground arith in
            let pin : p ≤ s.last = omega arith in
            let (rlo, rhi) = after_removal_bounds s b p v lo hi plo pin ne in
            rw e (elim (Bool-cases (end_of (s.blocks p) == (s.blocks b).addr)) [
              | inl t ↦
                  let m = merge-below s b p v lo hi plo pin ne (ground arith) in
                  rw t (
                    resume-Ends s _ _ m (ends _ (after_removal b p) m.valid rlo rhi (omega arith))
                      (omega arith))
              | inr t ↦ rw t (elim (Bool-cases (end_of (s.blocks b) == (s.blocks p).addr)) [
                | inl u ↦
                    let m = merge-above s b p v lo hi plo pin ne (ground arith) in
                    rw u (
                      resume-Ends s _ _ m (ends _ (after_removal b p) m.valid rlo rhi (omega arith))
                        (omega arith))
                | inr u ↦ rw u rest
              ])
            ])
      ]

coalesce_loop-Ends :
    (fuel : ℕ) (s : Pmm) (b : ℕ)
    → IsValid s
    → 1 ≤ b
    → b ≤ s.last
    → s.last ≤ fuel
    → Ends 0 s (coalesce_loop fuel s b)
unfolding coalesce_loop
coalesce_loop-Ends zero s b v lo hi le = absurd (omega arith)
coalesce_loop-Ends (suc fuel) s b v lo hi le =
    coalesce_scan-Ends fuel (coalesce_loop fuel) (coalesce_loop-Ends fuel) s.last s b 1 v lo hi
      (omega arith) (omega arith) le

-- Two runs, one behind the other.
trans-Coalesced : {s t u : Pmm} → Coalesced 0 s t → Coalesced 0 t u → Coalesced 0 s u
trans-Coalesced m n = record {
  counts = λ q. ground (arith, n.counts q, m.counts q);
  valid = n.valid;
  last = omega (arith, n.last, m.last);
  above = λ j k. n.above j (omega (arith, m.last)) ∙ m.above j k;
  some_left = λ k. n.some_left (m.some_left k);
  pointer = λ c p.
      let (d, p', le) = m.pointer c p in
      let (d', p'', le') = n.pointer d p' in (d', p'', omega arith);
}

step-Coalesced :
    {s t : Pmm}
    → Coalesced 0 s t
    → Coalesced 0 s (record t { coalesce_ptr = step_on t.coalesce_ptr })
step-Coalesced m = record {
  counts = m.counts;
  valid = record { live = m.valid.live };
  last = m.last;
  above = m.above;
  some_left = m.some_left;
  pointer = λ c p. let (d, p', le) = m.pointer c p in (d + 1, rw p', omega arith);
}

module _ (fuel : ℕ) (s : Pmm) (c : ℕ) (e : s.coalesce_ptr ≡ some c) where
  coalesce_while_stop : s.last < c → coalesce_while (suc fuel) s ≡ some s
  unfolding coalesce_while
  coalesce_while_stop past = ground arith

  coalesce_while_step :
      (t : Pmm)
      → c ≤ s.last
      → coalesce_loop (s.last + 1) s c ≡ some t
      → coalesce_while (suc fuel) s
        ≡ coalesce_while fuel (record t { coalesce_ptr = step_on t.coalesce_ptr })
  unfolding coalesce_while
  coalesce_while_step t within run = ground arith

-- The pointer moves on in each round, so `last + 2` rounds are enough.
coalesce_while-Ends :
    (fuel : ℕ) (s : Pmm) (c : ℕ)
    → IsValid s
    → s.coalesce_ptr ≡ some c
    → 1 ≤ c
    → s.last + 1 < fuel + c
    → 1 ≤ fuel
    → Ends 0 s (coalesce_while fuel s)
coalesce_while-Ends zero s c v e lo le one = absurd (omega arith)
coalesce_while-Ends (suc fuel) s c v e lo le one = elim (dec_lt s.last c) [
  | yes past ↦ (s, coalesce_while_stop fuel s c e past, same-Coalesced s v)
  | no within ↦
      let (t, run, m) = coalesce_loop-Ends (s.last + 1) s c v lo (omega arith) (omega arith) in
      let (d, p, dle) = m.pointer c e in
      let m' = step-Coalesced m in
      let (u, run', n) =
        coalesce_while-Ends fuel (record t { coalesce_ptr = step_on t.coalesce_ptr }) (d + 1)
          m'.valid (rw p) (omega arith) (omega (arith, m.last)) (omega arith) in
      (u, coalesce_while_step fuel s c e t (omega arith) run ∙ run', trans-Coalesced m' n)
]

coalesce_one : (s : Pmm) → s.last ≡ 1 → coalesce s ≡ some s
unfolding coalesce
coalesce_one s h = ground arith

coalesce_more :
    (s : Pmm) (c : ℕ) (t : Pmm)
    → s.coalesce_ptr ≡ some c
    → s.last ≢ 1
    → coalesce_while (s.last + 2) s ≡ some t
    → coalesce s ≡ some (record t { coalesce_ptr = some (t.last + 1) })
unfolding coalesce
coalesce_more s c t e h run = ground arith

-- What a caller of `coalesce` may rely on.
pub record SamePages (s s' : Pmm) : Type 0 where
  pub counts : (q : ℕ) → free_count s' q ≡ free_count s q
  pub valid : IsValid s'
  pub fewer : s'.last ≤ s.last
  pub above : (j : ℕ) → s.last < j → s'.blocks j ≡ s.blocks j

-- From valid slots and a pointer that is set, coalesce ends: every page is free as often
-- afterwards as before, the slots are valid and no more of them are in use.
pub coalesce-SamePages :
    (s : Pmm) (c : ℕ)
    → IsValid s
    → s.coalesce_ptr ≡ some c
    → 1 ≤ c
    → (s' : Pmm) × (coalesce s ≡ some s') × SamePages s s'
coalesce-SamePages s c v e lo = elim (ℕ_discrete s.last 1) [
  | yes one ↦ (
    s,
    coalesce_one s one,
    record { counts = λ q. refl; valid = v; fewer = omega arith; above = λ j k. refl },
  )
  | no other ↦
      let (t, run, m) = coalesce_while-Ends (s.last + 2) s c v e lo (omega arith) (omega arith) in
      (
        record t { coalesce_ptr = some (t.last + 1) },
        coalesce_more s c t e other run,
        record {
          counts = m.counts;
          valid = record { live = m.valid.live };
          fewer = m.last;
          above = m.above;
        },
      )
]
