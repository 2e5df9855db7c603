-- ===== src/Thread/Unused.antt =====
-- `kill_thread` on a slot that no thread is in.
use r_oses.Prelude.{ℕ, ◌+◌, ◌≤◌, ◌<◌, ◌≡◌, arith, refl, none, some, true, false, leb, ◌==◌, ◌||◌}
use r_oses.Prelude.Slots.{update}
use r_oses.Vmm.{all_mapped}
use r_oses.Vmm.Free.{free_block_unmapped}
use r_oses.Thread.{Threads, is_current, remove_thread, remember_stack, kill_thread}
use r_oses.Thread.Kill.{IsTable, stack_of}

-- The table is one thread shorter, and every slot in use is as it was.
pub record Shortened (t t' : Threads) : Type 0 where
  pub used : t'.used + 1 ≡ t.used
  pub slots : (j : ℕ) → j < t.used → t'.threads j ≡ t.threads j

-- kill_thread of a slot below six that is not in use and whose stack is not mapped takes the
-- last thread off the table, where there are two or more, one runs and there is a place left for
-- a dead stack.
pub kill_thread-Shortened :
    (t : Threads) (index c : ℕ)
    → IsTable t c
    → 2 ≤ t.used
    → t.used ≤ index
    → index < 6
    → t.dead_stack_count < 6
    → all_mapped 4 0 (stack_of t index) t.vmm.tables ≡ false
    → (t' : Threads) × (kill_thread t index ≡ some (none, t')) × Shortened t t'
unfolding kill_thread remove_thread remember_stack
kill_thread-Shortened t index c v two past inside place unmapped =
    let several : (leb t.used 1 || leb 6 index) ≡ false = ground arith in
    let no : (c == index) ≡ false = let lt : c < t.used = v.inside in ground arith in
    let other : is_current t.current index ≡ false = rw (v.running, no) refl in
    let room : leb 6 t.dead_stack_count ≡ false = ground arith in
    (
      record (remove_thread t index) {
        interrupts = false;
        dead_stack_count = t.dead_stack_count + 1;
        dead_stacks = update t.dead_stacks t.dead_stack_count (stack_of t index);
      },
      rw
          (
            kill_thread,
            several,
            other,
            free_block_unmapped true t.vmm (stack_of t index) 4 unmapped,
            room,
          )
          refl,
      record { used = omega arith; slots = λ j h. ground arith },
    )
