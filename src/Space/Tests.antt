-- ===== src/Space/Tests.antt =====
-- Runs of the block lists of kernel/arch/i386/vmm.c.
use r_oses.Prelude.{ℕ, ◌≡◌, refl, some, arith}
use r_oses.Prelude.Slots.{update}
use r_oses.Pmm.{block}
use r_oses.Space.{Space, check_upper, find_fit}
use r_oses.Space.Upper.{IsSpace, Tidied, check_upper-Tidied}

-- Three blocks in order of falling size; the second begins where the third ends.
abbrev three_blocks : Space
three_blocks = record {
  blocks = update (update (λ _. block 0x800000 9) 2 (block 0x402000 4)) 3 (block 0x400000 2);
  last = 3;
}

three_blocks-IsSpace : IsSpace three_blocks
three_blocks-IsSpace = record {
  ranges = λ j lo hi. ground arith;
  sorted = λ i j lo ij jn. ground arith;
}

second_fits : find_fit three_blocks.blocks 3 3 ≡ some 2
unfolding find_fit
second_fits = refl

-- The last block is larger than the one in front of it, and ends where that one begins.
abbrev rising_blocks : Space
rising_blocks = record three_blocks { blocks = update three_blocks.blocks 3 (block 0x3fd000 5) }

check_upper-Tidied_example :
    (s' : Space) × (b : ℕ) × (check_upper 3 rising_blocks 3 ≡ some (s', b))
    × Tidied rising_blocks s'
check_upper-Tidied_example = check_upper-Tidied 3 rising_blocks 3 (
  λ j lo hi. ground arith,
  omega arith,
  omega arith,
  record { others = λ i j lo ij jn ni nj. ground arith; behind = λ j bj jn. absurd (omega arith) },
  omega arith,
)
