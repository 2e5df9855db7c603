-- ===== src/Thread/New.antt =====
-- `new_thread`: the slot that it fills and the stack that it takes.
use r_oses.Prelude.{
  ℕ, ◌+◌, ◌≤◌, ◌<◌, ◌≡◌, ◌≢◌, arith, refl, Option, none, some, true, false, ◌==◌, ◌||◌, add32, inl,
  inr, Bool-cases,
}
use r_oses.Space.Upper.{IsSpace}
use r_oses.Vmm.{Vmm, alloc_block}
use r_oses.Vmm.Alloc.{Allocated, Refused, Outcome, gives, refuses, alloc_block-Outcome}
use r_oses.Thread.{Threads, new_thread}
use r_oses.Thread.Kill.{IsTable}

-- A thread in the slot behind the others, and every other slot as it was, on a stack of four pages that are
-- taken from the kernel's space; the running thread is the same.
pub record Created (t : Threads) (cr3 : ℕ) (t' : Threads) : Type 0 where
  pub stack : ℕ
  pub taken : Allocated true t.vmm stack 4 t'.vmm
  pub slot :
      t'.threads t.used ≡ record { esp0 = add32 stack 0x3fff; esp = add32 stack 0x3feb; cr3 = cr3 }
  pub others : (j : ℕ) → j ≢ t.used → t'.threads j ≡ t.threads j
  pub used : t'.used ≡ t.used + 1
  pub few : t'.used ≤ 6
  pub running : t'.current ≡ t.current

pub data NewOutcome (t : Threads) (cr3 : ℕ) : Option (Option ℕ × Threads) → Type 0 where
  creates : {t' : Threads} → Created t cr3 t' → NewOutcome t cr3 (some (some t.used, t'))
  rejects : t.used ≡ 6 → NewOutcome t cr3 (some (none, t))
  no_stack : {v : Vmm} → Refused true t.vmm v → NewOutcome t cr3 (some (none, record t { vmm = v }))

module _ (t : Threads) (c cr3 : ℕ) (v : IsTable t c) where
  new_thread_run :
      (r : Option (ℕ × Vmm))
      → (t.used == 6 || cr3 == 0) ≡ false
      → alloc_block t.vmm 4 true ≡ r
      → Outcome true t.vmm 4 r
      → NewOutcome t cr3 (new_thread t cr3)
  unfolding new_thread
  new_thread_run _ test e (gives {virt = virt} {v' = w} nz a) =
      let some_stack : (virt == 0) ≡ false = ground arith in
      let room : t.used < 6 = let few : t.used ≤ 6 = v.few in ground arith in
      rw (new_thread, test, e, some_stack)
        (creates (record {
          stack = virt;
          taken = a;
          slot = ground arith;
          others = λ j h. ground arith;
          used = omega arith;
          few = omega arith;
          running = rw v.running refl;
        }))
  new_thread_run _ test e (refuses r) = rw (new_thread, test, e) (no_stack r)

-- In such a table and a kernel space in order, for a page directory that is not NULL, new_thread
-- ends. With a slot left it fills the slot behind the others with a thread on four pages taken
-- from the kernel's space, and changes no other slot and not the running thread; or there is no
-- block for the stack. In a full table nothing changes.
pub new_thread-NewOutcome :
    (t : Threads) (c cr3 : ℕ)
    → IsTable t c
    → cr3 ≢ 0
    → IsSpace t.vmm.kernel_space
    → NewOutcome t cr3 (new_thread t cr3)
unfolding new_thread
new_thread-NewOutcome t c cr3 v given space = elim (Bool-cases (t.used == 6 || cr3 == 0)) [
  | inr test ↦
      new_thread_run t c cr3 v _ test refl (alloc_block-Outcome t.vmm 4 true space (omega arith))
  | inl test ↦ elim (Bool-cases (t.used == 6)) [
    | inl full ↦ rw (new_thread, test) (rejects (ground arith))
    | inr room ↦ absurd (given (ground arith))
  ]
]
