-- ===== src/Vmm/Tests.antt =====
-- Runs of kernel/arch/i386/vmm.c on a small state.
use r_oses.Prelude.{ℕ, ◌≡◌, ◌+◌, ◌*◌, refl, arith, true, false, none, some}
use r_oses.Pmm.{block}
use r_oses.Space.{Space, find_fit, check_lower, sink}
use r_oses.Paging.{map_page}
use r_oses.Pmm.{alloc_page}
use r_oses.Space.Upper.{IsSpace}
use r_oses.Paging.Tests.{second_page, few_pages, few_pages-IsValid, small_tables, first_page}
use r_oses.Vmm.{map_block, map_pages, all_mapped, Vmm, alloc_block, free_block}
use r_oses.Vmm.Map.{IsStock}
use r_oses.Vmm.Backed.{Backed, IsBelow, alloc_block-Backed}
use r_oses.Vmm.Unmap.{AllMapped}
use r_oses.Vmm.Free.{CanRelease, FreeOutcome, free_block-FreeOutcome}

abbrev small_space : Space
small_space = record { blocks = λ _. block 0x401000 16; last = 1 }

pub small_space-IsSpace : IsSpace small_space
small_space-IsSpace = record {
  ranges = λ j lo hi. ground arith;
  sorted = λ i j lo ij jn. absurd (omega arith);
}

abbrev pub small_state : Vmm
small_state = record {
  kernel_space = small_space;
  user_space = small_space;
  pmm = few_pages;
  tables = small_tables;
}

one_page : AllMapped 1 0 0x400000 small_tables
one_page i lo hi =
    let at : 0x400000 + 4096 * i ≡ 0x400000 = omega arith in ground (arith, first_page)

free_block-FreeOutcome_example :
    FreeOutcome false small_state 0x400000 1 (free_block small_state 0x400000 1 false)
free_block-FreeOutcome_example =
    free_block-FreeOutcome false small_state 0x400000 1 small_space-IsSpace (record {
      range = record { addr_pos = omega arith; fits = omega arith };
      aligned = omega arith;
      some_page = omega arith;
      pages = few_pages-IsValid;
      used = omega arith;
      below = omega arith;
      room = omega arith;
      start = 1;
      pointer = refl;
      start_pos = omega arith;
    })

small_space-IsBelow : IsBelow small_space
small_space-IsBelow q h = ground arith

few_pages-IsStock : IsStock few_pages
few_pages-IsStock = record { valid = few_pages-IsValid; above_first = λ j lo hi. ground arith }

alloc_block-Backed_example : Backed small_state 3 (alloc_block small_state 3 true)
alloc_block-Backed_example =
    alloc_block-Backed small_state 3 true small_space-IsSpace few_pages-IsStock small_space-IsBelow
      (omega arith)

-- Four pages at 0x400000, of which only the first is mapped.
pub few_pages-CanRelease : CanRelease small_state 0x400000 4
few_pages-CanRelease = record {
  range = record { addr_pos = omega arith; fits = omega arith };
  aligned = omega arith;
  some_page = omega arith;
  pages = few_pages-IsValid;
  used = omega arith;
  below = omega arith;
  room = omega arith;
  start = 1;
  pointer = refl;
  start_pos = omega arith;
}

pub no_stack_there : all_mapped 4 0 0x400000 small_tables ≡ false
unfolding all_mapped
no_stack_there = ground (arith, first_page, second_page)

-- One page for the kernel.
abbrev pub one_page_given : ℕ × Vmm
one_page_given = elim (alloc_block small_state 1 true) [ none ↦ (0, small_state) | some r ↦ r ]

pub one_page_run : alloc_block small_state 1 true ≡ some (0x410000, one_page_given.1)
unfolding alloc_block map_block map_pages find_fit check_lower sink map_page alloc_page
one_page_run = refl
