-- ===== src/Paging/Tests.antt =====
-- Runs of the page tables of kernel/arch/i386/vmm.c.
use r_oses.Prelude.{◌≡◌, ◌==◌, ◌+◌, ◌*◌, ◌/◌, ◌%◌, if◌then◌else◌, refl, some, arith, true}
use r_oses.Pmm.{block, Pmm}
use r_oses.Pmm.Pages.{IsValid}
use r_oses.Paging.{Tables, get_physaddr, map_page}
use r_oses.Paging.Lookup.{get_physaddr-map_page}

abbrev pub few_pages : Pmm
few_pages = record { blocks = λ _. block 0x800000 64; last = 1; coalesce_ptr = some 1 }

pub few_pages-IsValid : IsValid few_pages
few_pages-IsValid = record { live = λ j lo hi. ground arith }

-- Every directory entry is present, and only the page at 0x400000 is mapped, to 0x5000.
abbrev pub small_tables : Tables
small_tables = record {
  pt = λ j. if j / 0x400 == 0x3ff then 0x6007 else if j == 0x400 then 0x5007 else 0;
  flushes = 0;
}

pub first_page : get_physaddr small_tables 0x400000 ≡ 0x5000
unfolding get_physaddr
first_page = refl

pub second_page : get_physaddr small_tables 0x401000 ≡ 0
unfolding get_physaddr
second_page = refl

maps : (map_page few_pages small_tables 0x9000 0x401000 2).0 ≡ true
unfolding map_page
maps = refl

get_physaddr-map_page_example :
    get_physaddr (map_page few_pages small_tables 0x9000 0x401000 2).2 0x401234 ≡ (
      if 0x401234 / 4096 == 0x401000 / 4096
      then 0x9000 / 4096 * 4096 + 0x401234 % 4096
      else get_physaddr small_tables 0x401234)
get_physaddr-map_page_example =
    get_physaddr-map_page few_pages small_tables 0x9000 0x401000 2 (omega arith) 0x401234
      (omega arith) (omega arith) (omega arith) maps
