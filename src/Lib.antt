-- ===== src/Lib.antt =====
-- rOSes, a small operating system kernel for i386: its memory management with the heap, its
-- threads, its screen and keyboard, its descriptor tables and the C library functions they stand on.
--
-- The parts and where they are modelled:
--   kernel/arch/i386/pmm.c, the allocator of physical pages, is Pmm. `free_blocks`, `last_freed`
--     and `coalesce_ptr` are the record Pmm, alloc_page, free_page, coalesce, pmm_init and
--     test_pmm are functions on it. Its slots stand for a multiset of free pages (Pmm/Pages).
--   kernel/arch/i386/vmm.c has three parts. The lists of free virtual addresses with check_lower
--     and check_upper are Space, the page tables with map_page, unmap_page and get_physaddr are
--     Paging, and alloc_block and free_block, which work on both and on the allocator, are Vmm.
--   kernel/arch/i386/tty.c and vga.h, the text screen, are Tty.
--   kernel/arch/i386/gdt.c and kernel/include/kernel/gdt.h, the segment descriptors, are Gdt.
--   libc/string is Memory.
--   libc/stdio/printf.c is Printf. A format and a string are lists of bytes, and what is printed is
--     one: putchar gives back its byte and never EOF.
--   kernel/arch/i386/isr.c, the interrupt controllers and the timer, is Isr. The ports and the
--     instructions are the record Machine, a parameter; Isr/Masks states what the 8259 promises of
--     the ports of the two controllers, as the hypothesis IsPic, and Isr/Tests has a machine that keeps it.
--   kernel/arch/i386/idt.c, the interrupt table, is Idt.
--   kernel/arch/i386/thread.c, the table of threads, is Thread, which calls alloc_block and
--     free_block of Vmm for the stacks.
--
--   kernel/arch/i386/heap.c, the heap of the kernel, is Heap: kmalloc, kfree, split_header and
--     heap_init on the words of memory, with the pages of alloc_block of Vmm. Heap/Cells says which
--     list of blocks the memory holds, Heap/Abstract what kfree does to such a list, Heap/Reach
--     which states calls lead to, and Heap/SelfTest is test_heap. Vmm/SelfTest is test_vmm.
--   kernel/arch/i386/device.c, the PS/2 controller, is Ps2, over the same Machine as Isr.
--   kernel/arch/i386/keyboard.c is Keyboard: scan_to_key, PS2_key_handler and keycode_handler, with
--     the terminal of Tty and the lights of Ps2; its tables are Keymap.
--   kernel/arch/i386/pd.c and earlyinit.c, the first page directory and the guard of the stack, are
--     Boot.
--
-- Prelude has what they share: tests on numbers, 32-bit words with their wrap-around, the laws of
-- bit operations, and arrays of structs as functions from the slot's number.
--
-- A pointer into an array of blocks is the slot's number, from 1 on, and 0 is the place in front of
-- the array, which `last_freed` and the ends of the spaces point to when nothing is in use. NULL is
-- the number 0 as an address, and `none` as `coalesce_ptr`. Arithmetic on addresses wraps at 2^32.
--
-- Loops over arrays are structural recursion on the rounds that are left. coalesce_loop,
-- check_upper and the loop of coalesce recurse on fuel, and give `none` without it: a call of the
-- first two removes a slot before it recurses, so the number of slots in use is enough, and
-- coalesce's loop moves its pointer on each round, so two more than that number is enough. strlen's
-- fuel is the number of bytes looked at, and printf's is the length of the format, of which each
-- round takes a byte. The loops of kmalloc and kfree have the length of the list as fuel, that over
-- the boot tags their number, and that of keycode_handler the keys on the stack, each with one more.
-- A device that never stops to send bytes has no bound, so reading its identity may give `none`.
--
-- The memory of the heap is a function from an address to the 32-bit word there; headers stand at
-- multiples of 8, and the bytes behind them are the callers'.
--
-- Not modelled: the boot code and the linker script (assembly), the instructions that load registers,
-- and the functions that only print the state. The words that new_thread pushes on a new
-- stack are left out. PS2_key_handler's value is not used, and keycode_handler is modelled up to the
-- point where its stack is empty and it gives way to another thread. The page tables show at the last
-- 4 MiB of addresses: what a mapping or an unmapping of an address there does to the table that shows
-- there is not modelled, and the theorems are about addresses below, in a
-- directory whose entries name different pages. Nor is what a write behind
-- free_blocks does to other variables: the theorems on what free_page leaves ask for a slot to spare.
pub mod Prelude
pub mod Memory
pub mod Gdt
pub mod Tty
pub mod Pmm
pub mod Space
pub mod Paging
pub mod Vmm
pub mod Printf
pub mod Isr
pub mod Idt
pub mod Thread
pub mod Heap
pub mod Ps2
pub mod Keymap
pub mod Keyboard
pub mod Boot
