-- ===== src/Thread/Kill.antt =====
-- `kill_thread` and `switch_thread` against the list of threads.
use r_oses.Prelude.{
  ℕ, ◌+◌, ◌-◌, ◌≤◌, ◌<◌, ◌≡◌, ◌≢◌, ◌⊎◌, ◌∙◌, inl, inr, arith, refl, Option, none, some, Bool, true,
  false, leb, ltb, ◌==◌, ◌||◌, if◌then◌else◌, sub32, ap, Bool-cases,
}
use r_oses.Prelude.Slots.{update}
use r_oses.Space.Upper.{IsSpace}
use r_oses.Vmm.{Vmm, free_block}
use r_oses.Vmm.Free.{
  CanRelease, Freed, FreeOutcome, frees, unmapped, no_slot, free_block-FreeOutcome,
}
use r_oses.Thread.{Threads, is_current, remove_thread, remember_stack, kill_thread}

-- The table holds between 1 and 6 threads, and one of them runs.
pub record IsTable (t : Threads) (c : ℕ) : Type 0 where
  pub few : t.used ≤ 6
  pub running : t.current ≡ some c
  pub inside : c < t.used

abbrev pub stack_of : Threads → ℕ → ℕ
stack_of t index = sub32 (t.threads index).esp0 0x3fff

-- The other threads stand in the same order, the same one runs, and the stack of the thread is free
-- or remembered as dead. Interrupts are off.
pub record Removed (t : Threads) (index c : ℕ) (t' : Threads) : Type 0 where
  pub used : t'.used + 1 ≡ t.used
  pub slots : (j : ℕ) → j < t'.used → t'.threads j ≡ t.threads (if ltb j index then j else j + 1)
  pub running : ℕ
  pub table : IsTable t' running
  pub same_thread : t'.threads running ≡ t.threads c
  pub interrupts : t'.interrupts ≡ false
  pub stack :
      Freed true t.vmm (stack_of t index) 4 t'.vmm
      ⊎ ((t'.dead_stacks t.dead_stack_count ≡ stack_of t index)
          × (t'.dead_stack_count ≡ t.dead_stack_count + 1))

module _ (t : Threads) (index c : ℕ) (v : IsTable t c) (lt : index < t.used) (ne : c ≢ index)
    (place : t.dead_stack_count < 6) where
  kept-slots :
      (j : ℕ)
      → j < t.used - 1
      → (remove_thread t index).threads j ≡ t.threads (if ltb j index then j else j + 1)
  unfolding remove_thread
  kept-slots j h = let few : t.used ≤ 6 = v.few in ground arith

  kept-IsTable :
      IsTable (remove_thread t index) (if ltb index c then c - 1 else c)
      × ((remove_thread t index).threads (if ltb index c then c - 1 else c) ≡ t.threads c)
  unfolding remove_thread
  kept-IsTable = elim (Bool-cases (ltb index c)) [
    | inl u ↦
        let in_front : index < c = ground arith in
        let at : c - 1 + 1 ≡ c = omega arith in
        rw u (
          record {
            few = omega (arith, v.few);
            running = rw (v.running, u) refl;
            inside = omega (arith, v.inside);
          },
          kept-slots (c - 1) (omega (arith, v.inside))
              ∙ moved (c - 1) (omega arith)
              ∙ ap t.threads at,
        )
    | inr u ↦
        let behind : c < index = ground arith in
        rw u (
          record {
            few = omega (arith, v.few);
            running = rw (v.running, u) refl;
            inside = omega arith;
          },
          kept-slots c (omega arith) ∙ stays_put c behind,
        )
  ]
    where
      moved : (j : ℕ) → index ≤ j → t.threads (if ltb j index then j else j + 1) ≡ t.threads (j + 1)
      moved j h = let no : ltb j index ≡ false = ground arith in rw no refl

      stays_put : (j : ℕ) → j < index → t.threads (if ltb j index then j else j + 1) ≡ t.threads j
      stays_put j h = let yes' : ltb j index ≡ true = ground arith in rw yes' refl

  several : (leb t.used 1 || leb 6 index) ≡ false
  several = let few : t.used ≤ 6 = v.few in let inside : c < t.used = v.inside in ground arith

  not_current : is_current t.current index ≡ false
  not_current = let no : (c == index) ≡ false = ground arith in rw (v.running, no) refl

  abbrev removed : Vmm → Threads
  removed w = record (remove_thread t index) { interrupts = false; vmm = w }

  kill_thread_freed :
      (w : Vmm)
      → free_block t.vmm (stack_of t index) 4 true ≡ some (true, w)
      → kill_thread t index ≡ some (none, removed w)
  unfolding kill_thread remove_thread remember_stack
  kill_thread_freed w e = rw (kill_thread, several, not_current, e) refl

  abbrev remembered : Vmm → Threads
  remembered w = record (removed w) {
    dead_stack_count = t.dead_stack_count + 1;
    dead_stacks = update t.dead_stacks t.dead_stack_count (stack_of t index);
  }

  kill_thread_dead :
      (w : Vmm)
      → free_block t.vmm (stack_of t index) 4 true ≡ some (false, w)
      → kill_thread t index ≡ some (none, remembered w)
  unfolding kill_thread remove_thread remember_stack
  kill_thread_dead w e =
      let room : leb 6 t.dead_stack_count ≡ false = ground arith in
      rw (kill_thread, several, not_current, e, room) refl

  used_lem : (remove_thread t index).used + 1 ≡ t.used
  unfolding remove_thread
  used_lem = omega (arith, v.inside)

  used-pred : (remove_thread t index).used ≡ t.used - 1
  unfolding remove_thread
  used-pred = refl

  remembered-Removed : (w : Vmm) → Removed t index c (remembered w)
  remembered-Removed w = record {
    used = used_lem;
    slots = λ j h. kept-slots j (omega (arith, used-pred));
    running = if ltb index c then c - 1 else c;
    table = record {
      few = kept-IsTable.0.few;
      running = kept-IsTable.0.running;
      inside = kept-IsTable.0.inside;
    };
    same_thread = kept-IsTable.1;
    interrupts = refl;
    stack = inr (ground arith, refl);
  }

  kill_thread_run :
      (r : Option (Bool × Vmm))
      → free_block t.vmm (stack_of t index) 4 true ≡ r
      → FreeOutcome true t.vmm (stack_of t index) 4 r
      → (t' : Threads) × (kill_thread t index ≡ some (none, t')) × Removed t index c t'
  kill_thread_run _ e (frees {v' = w} f) = (
    removed w,
    kill_thread_freed w e,
    record {
      used = used_lem;
      slots = λ j h. kept-slots j (omega (arith, used-pred));
      running = if ltb index c then c - 1 else c;
      table = record {
        few = kept-IsTable.0.few;
        running = kept-IsTable.0.running;
        inside = kept-IsTable.0.inside;
      };
      same_thread = kept-IsTable.1;
      interrupts = refl;
      stack = inl f;
    },
  )
  kill_thread_run _ e (unmapped m) =
      (remembered t.vmm, kill_thread_dead t.vmm e, remembered-Removed t.vmm)
  kill_thread_run _ e (no_slot f) =
      (remembered t.vmm, kill_thread_dead t.vmm e, remembered-Removed t.vmm)

-- In a table of at most six threads of which one runs, with a place left for a dead stack, and
-- with a stack that free_block can be asked for, kill_thread of another thread ends: the other
-- threads stay in their order, the same one runs, the stack is free or remembered as dead, and
-- interrupts are off.
pub kill_thread-Removed :
    (t : Threads) (index c : ℕ)
    → IsTable t c
    → index < t.used
    → c ≢ index
    → t.dead_stack_count < 6
    → IsSpace t.vmm.kernel_space
    → CanRelease t.vmm (stack_of t index) 4
    → (t' : Threads) × (kill_thread t index ≡ some (none, t')) × Removed t index c t'
kill_thread-Removed t index c v lt ne place space can =
    kill_thread_run t index c v lt ne place _ refl
      (free_block-FreeOutcome true t.vmm (stack_of t index) 4 space can)
