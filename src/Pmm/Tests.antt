-- ===== src/Pmm/Tests.antt =====
-- Runs of kernel/arch/i386/pmm.c.
use r_oses.Prelude.{ℕ, ◌≡◌, refl, ◌==◌, if◌then◌else◌, Option, none, some, arith, true}
use r_oses.Prelude.Slots.{update}
use r_oses.Pmm.{
  Block, block, Pmm, free_page, alloc_page, coalesce, merge, coalesce_loop, coalesce_scan,
  coalesce_while, pmm_init, checksum, test_pmm,
}
use r_oses.Pmm.Pages.{IsValid}
use r_oses.Pmm.Alloc.{Taken, alloc_page-Taken}
use r_oses.Pmm.Free.{Released, SameSlots, free_page-Released, alloc_page-free_page}
use r_oses.Pmm.Coalesce.{SamePages, coalesce-SamePages}
use r_oses.Pmm.Init.{map_entries, Started, pmm_init-Started}
use r_oses.Pmm.Checksum.{test_pmm_blind}

abbrev one_block : Pmm
one_block = record { blocks = λ _. block 0x10000 1; last = 1; coalesce_ptr = some 2 }

abbrev first_three : Option Pmm → Option (ℕ × Block × Block × Block)
first_three none = none
first_three (some s) = some (s.last, s.blocks 1, s.blocks 2, s.blocks 3)

-- Two blocks that touch are left: the first merge skips the block that moves into its place.
coalesce_leaves_neighbours :
    first_three (coalesce (free_page (free_page (free_page one_block 0xf000) 0x21000) 0x20000))
    ≡ some (3, block 0xf000 2, block 0x21000 1, block 0x20000 1)
unfolding coalesce free_page coalesce_while coalesce_loop coalesce_scan merge
coalesce_leaves_neighbours = refl

-- Two slots, of 3 pages and of 2, where the upper one follows the lower one.
abbrev two_blocks : Pmm
two_blocks = record {
  blocks = update (λ _. block 0x20000 3) 2 (block 0x23000 2);
  last = 2;
  coalesce_ptr = some 1;
}

two_blocks-IsValid : IsValid two_blocks
two_blocks-IsValid = record { live = λ j lo hi. ground arith }

alloc_page-Taken_example : Taken two_blocks (alloc_page two_blocks).0 (alloc_page two_blocks).1
alloc_page-Taken_example = alloc_page-Taken two_blocks two_blocks-IsValid (omega arith)

free_page-Released_example : Released two_blocks 0x25000 (free_page two_blocks 0x25000)
free_page-Released_example =
    free_page-Released two_blocks 0x25000 two_blocks-IsValid
      (omega arith, λ z. absurd (omega arith), omega arith)

alloc_page-free_page_example :
    ((alloc_page (free_page two_blocks 0x30000)).0 ≡ 0x30000)
    × SameSlots two_blocks (alloc_page (free_page two_blocks 0x30000)).1
alloc_page-free_page_example =
    alloc_page-free_page two_blocks 0x30000 two_blocks-IsValid
      (omega arith, λ z. absurd (omega arith), omega arith)

coalesce-SamePages_example : (s' : Pmm) × (coalesce two_blocks ≡ some s') × SamePages two_blocks s'
coalesce-SamePages_example = coalesce-SamePages two_blocks 1 two_blocks-IsValid refl (omega arith)

-- A memory map at 0x9000 of three entries of 24 bytes, the last one reserved.
abbrev map_words : ℕ → ℕ
map_words a =
    if a == 0x9004
    then 88
    else if a == 0x9008
    then 24
    else if a == 0x9018
    then 0x9fc00
    else if a == 0x9020
    then 1
    else if a == 0x9028
    then 0x100000
    else if a == 0x9030
    then 0x7ee0000
    else if a == 0x9038
    then 1
    else if a == 0x9040
    then 0xfffc0000
    else if a == 0x9048
    then 0x3ffff
    else if a == 0x9050
    then 2
    else 0

pmm_init-Started_example :
    (s : Pmm) × (pmm_init 4 map_words 0x9000
        (record { blocks = λ _. block 0 0; last = 0; coalesce_ptr = none })
      ≡ some s)
    × Started (map_entries map_words 0x9000 3) s
pmm_init-Started_example =
    pmm_init-Started 4 map_words 0x9000 3 (λ _. block 0 0)
      (record { size = refl; step = omega arith; fits = omega arith; few = omega arith })
      (
        record { addr = omega arith; len = omega arith },
        omega arith,
        (
          record { addr = omega arith; len = omega arith },
          omega arith,
          (record { addr = omega arith; len = omega arith }, omega arith, tt),
        ),
      )
      (omega arith)

-- One slot of 9 pages is in use, and all the others are still empty.
abbrev nine_pages : Pmm
nine_pages = record {
  blocks = update (λ _. block 0 0) 1 (block 0x400000 9);
  last = 1;
  coalesce_ptr = some 2;
}

test_pmm_blind_example :
    (s' : Pmm) × (test_pmm nine_pages ≡ some (true, s'))
    × (checksum nine_pages ≡ 0)
    × (checksum s' ≡ 0)
test_pmm_blind_example =
    test_pmm_blind nine_pages
      (record {
        valid = record { live = λ j lo hi. ground arith };
        some_block = omega arith;
        long = ground arith;
      })
      (omega arith) 2 refl (omega arith) refl
