-- ===== src/Thread/Tests.antt =====
-- Runs of kernel/arch/i386/thread.c on the state of Vmm/Tests.
use r_oses.Prelude.{◌≡◌, refl, some, none, arith, false, true}
use r_oses.Vmm.Tests.{small_state, small_space-IsSpace, few_pages-CanRelease, no_stack_there}
use r_oses.Thread.{Threads, kill_thread, new_thread}
use r_oses.Thread.Kill.{IsTable, Removed, kill_thread-Removed}
use r_oses.Thread.Unused.{Shortened, kill_thread-Shortened}
use r_oses.Thread.New.{NewOutcome, new_thread-NewOutcome}

-- Three threads with the same stack, of which the last runs.
abbrev three_threads : Threads
three_threads = record {
  threads = λ j. record { esp0 = 0x403fff; esp = 0x403feb; cr3 = 0x1000 };
  used = 3;
  current = some 2;
  dead_stacks = λ j. 0;
  dead_stack_count = 0;
  piti = false;
  interrupts = true;
  vmm = small_state;
}

three_threads-IsTable : IsTable three_threads 2
three_threads-IsTable = record { few = omega arith; running = refl; inside = omega arith }

kill_thread-Removed_example :
    (t' : Threads) × (kill_thread three_threads 1 ≡ some (none, t')) × Removed three_threads 1 2 t'
kill_thread-Removed_example =
    kill_thread-Removed three_threads 1 2 three_threads-IsTable (omega arith) (omega arith)
      (omega arith) small_space-IsSpace few_pages-CanRelease

kill_thread-Shortened_example :
    (t' : Threads) × (kill_thread three_threads 4 ≡ some (none, t')) × Shortened three_threads t'
kill_thread-Shortened_example =
    kill_thread-Shortened three_threads 4 2 three_threads-IsTable (omega arith) (omega arith)
      (omega arith) (omega arith) no_stack_there

new_thread-NewOutcome_example : NewOutcome three_threads 0x1000 (new_thread three_threads 0x1000)
new_thread-NewOutcome_example =
    new_thread-NewOutcome three_threads 2 0x1000 three_threads-IsTable (omega arith)
      small_space-IsSpace
