-- ===== src/Heap/Crowd.antt =====
-- A heap of eleven blocks in use, for a run of `checksum` in kernel/arch/i386/heap.c.
use r_oses.Prelude.{
  ℕ, zero, suc, ◌+◌, ◌-◌, ◌*◌, ◌%◌, ◌≤◌, ◌≡◌, refl, arith, List, [], ◌∷◌, true, false, ltb, ◌==◌,
  some, if◌then◌else◌,
}
use r_oses.Vmm.Tests.{small_state}
use r_oses.Heap.{Heap, heap_used}
use r_oses.Heap.Cells.{Cell, cell, first, covered, Chain, AllCells, IsList}
use r_oses.Heap.SelfTest.{heap_checksum, heap_checksum-zero}

-- `n` blocks of 16 bytes, the first at the place number `i` of 32 bytes from 0x1000 on.
abbrev row : (n i : ℕ) → List Cell
row zero i = []
row (suc n) i = cell (0x1000 + 32 * i) 16 true ∷ row n (suc i)

abbrev row_words : ℕ → ℕ
row_words a =
    if a % 32 == 0
    then 16
    else if a % 32 == 4
    then heap_used
    else if a % 32 == 8
    then if a == 0x1148 then 0 else a + 24
    else if a == 0x100c
    then 0
    else a - 44

row-covered : (n i a : ℕ) → covered (row n i) a ≤ (if ltb a (0x1000 + 32 * i) then 0 else 1)
row-covered zero i a = omega arith
row-covered (suc n) i a = let rest = row-covered n (suc i) a in ground arith

row-AllCells : (n i : ℕ) → n + i ≤ 11 → AllCells (row n i)
row-AllCells zero i h = tt
row-AllCells (suc n) i h = (
  record { above = omega arith; below = omega arith; addr = omega arith; size = refl },
  row-AllCells n (suc i) (omega arith),
)

abbrev place_before : ℕ → ℕ
place_before zero = 0
place_before (suc i) = 0x1000 + 32 * i

row_next : (n i : ℕ) → suc n + i ≡ 11 → row_words (0x1000 + 32 * i + 8) ≡ first (row n (suc i))
row_next zero i h = ground arith
row_next (suc n) i h = ground arith

row_prev : (n i : ℕ) → suc n + i ≡ 11 → row_words (0x1000 + 32 * i + 12) ≡ place_before i
row_prev n zero h = refl
row_prev n (suc i) h = ground arith

row-Chain : (n i : ℕ) → n + i ≡ 11 → Chain row_words (place_before i) (row n i)
row-Chain zero i h = tt
row-Chain (suc n) i h = (
  record {
    size = ground arith;
    status = ground arith;
    next = row_next n i h;
    prev = row_prev n i h;
  },
  row-Chain n (suc i) (omega arith),
)

abbrev crowd : Heap
crowd = record {
  mem = row_words;
  start_header = 0x1000;
  interrupts = true;
  flags = false;
  vmm = small_state;
}

crowd-IsList : IsList row_words 0x1000 (row 11 0)
crowd-IsList = record {
  start = refl;
  chain = row-Chain 11 0 refl;
  cells = row-AllCells 11 0 (omega arith);
  apart = λ a. ground (arith, row-covered 11 0 a);
}

heap_checksum-zero_example : heap_checksum 12 crowd ≡ some 0
heap_checksum-zero_example =
    heap_checksum-zero 12 crowd (row 11 0) crowd-IsList (omega arith) (omega arith)
