-- ===== src/Thread.antt =====
-- kernel/arch/i386/thread.c and kernel/include/kernel/thread.h: the table of threads.
-- A task is its slot's number, from 0 on. The switch itself is assembly: a call gives the task that
-- it passes to it. The words that `new_thread` pushes on the new stack are not modelled.
pub mod Kill
pub mod New
pub mod Unused
mod Tests
use mathlib.Core.Option
use r_oses.Prelude.{
  ℕ, ◌+◌, ◌-◌, ◌||◌, Bool, true, false, Option, none, some, leb, ltb, ◌==◌, if◌then◌else◌, add32,
  sub32, u8,
}
use r_oses.Prelude.Slots.{update, move_down}
use r_oses.Vmm.{Vmm, alloc_block, free_block}

-- `tcb_t`.
pub record Tcb : Type 0 where
  pub esp0 : ℕ
  pub esp : ℕ
  pub cr3 : ℕ

-- `current` is `none` where `current_task_TCB` is NULL, and `interrupts` is the processor's interrupt
-- flag. `free_block` and `alloc_block` work on `vmm`.
pub record Threads : Type 0 where
  pub threads : ℕ → Tcb
  pub used : ℕ
  pub current : Option ℕ
  pub dead_stacks : ℕ → ℕ
  pub dead_stack_count : ℕ
  pub piti : Bool
  pub interrupts : Bool
  pub vmm : Vmm

abbrev pub tcb_max_threads : ℕ
tcb_max_threads = 6

-- `stack_top` and `cr3` are the address and the register that the call reads.
pub thread_init : Threads → (stack_top cr3 : ℕ) → Threads
thread_init t stack_top cr3 = record t {
  threads = update t.threads t.used (record (t.threads t.used) { esp0 = stack_top; cr3 = cr3 });
  current = some t.used;
  used = u8 (t.used + 1);
}

-- `(current_task_TCB == threads + used_threads - 1 ? threads : current_task_TCB + 1)`.
abbrev pub next_task : (current used : ℕ) → ℕ
next_task current used = if current == used - 1 then 0 else current + 1

-- What a call of `switch_thread` does outside the table: it acknowledges the interrupt, or does
-- nothing, or goes to a task.
pub data Switch : Type 0 where
  acknowledges stays : Switch
  goes_to : Option ℕ → Switch

-- The pointer behind NULL is no slot.
abbrev pub next_of : Option ℕ → ℕ → Option ℕ
next_of none used = none
next_of (some c) used = some (next_task c used)

pub switch_thread : Threads → Bool → Switch × Threads
switch_thread t send_eoi =
    if ltb t.used 2
    then (if send_eoi then acknowledges else stays, t)
    else (goes_to (next_of t.current t.used), record t { piti = send_eoi || t.piti })

-- The slot where the stack was given.
abbrev pub start_thread : Threads → (stack cr3 : ℕ) → Threads
start_thread t stack cr3 = record t {
  threads =
      update t.threads t.used
        (record { esp0 = add32 stack 0x3fff; esp = add32 stack 0x3feb; cr3 = cr3 });
  current = first t.current;
  used = u8 (t.used + 1);
}
  where
    first : Option ℕ → Option ℕ
    first none = some t.used
    first (some c) = some c

-- The new slot, or `none` for NULL; the outer `none` is that of `alloc_block`. `eip` is only pushed.
pub new_thread : Threads → (cr3 : ℕ) → Option (Option ℕ × Threads)
new_thread t cr3 =
    if t.used == tcb_max_threads || cr3 == 0
    then some (none, t)
    else elim (alloc_block t.vmm 4 true) [
      | none ↦ none
      | some (stack, v) ↦
          if stack == 0
          then some (none, record t { vmm = v })
          else some (some t.used, start_thread (record t { vmm = v }) stack cr3)
    ]

abbrev pub is_current : Option ℕ → ℕ → Bool
is_current none index = false
is_current (some c) index = c == index

abbrev pub current_after : Option ℕ → ℕ → Option ℕ
current_after none index = none
current_after (some c) index = some (if ltb index c then c - 1 else c)

-- The slot goes, and the ones behind it move down.
pub remove_thread : Threads → ℕ → Threads
remove_thread t index = record t {
  threads = move_down t.threads index (tcb_max_threads - index - 1);
  used = t.used - 1;
  current = current_after t.current index;
}

-- The call of `free_block` gives whether the stack is free. `none` is a write behind `dead_stacks`,
-- which has a place for each of six stacks.
pub remember_stack : Threads → (stack : ℕ) → Bool → Option Threads
remember_stack t stack true = some t
remember_stack t stack false =
    if leb tcb_max_threads t.dead_stack_count
    then none
    else some (record t {
      dead_stack_count = t.dead_stack_count + 1;
      dead_stacks = update t.dead_stacks t.dead_stack_count stack;
    })

-- The task that the call switches to, if it kills its own thread. Interrupts go off, and stay off.
pub kill_thread : Threads → ℕ → Option (Option ℕ × Threads)
unfolding remember_stack
kill_thread t index =
    if leb t.used 1 || leb tcb_max_threads index
    then some (none, t)
    else (let t = record t { interrupts = false } in
        if is_current t.current index
        then some (next_of t.current t.used, t)
        else (let stack = sub32 (t.threads index).esp0 0x3fff in
            elim (free_block t.vmm stack 4 true) [
              | none ↦ none
              | some (freed, v) ↦
                  Option.map (λ t'. (none, t'))
                    (remember_stack (record (remove_thread t index) { vmm = v }) stack freed)
            ]))
