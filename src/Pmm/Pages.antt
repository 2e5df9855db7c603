-- ===== src/Pmm/Pages.antt =====
-- What the slots of kernel/arch/i386/pmm.c stand for: a multiset of free pages.
use r_oses.Prelude.{
  ℕ, ◌+◌, ◌-◌, ◌*◌, ◌%◌, ◌≤◌, ◌<◌, ◌≡◌, ◌&&◌, arith, leb, ltb, ◌==◌, if◌then◌else◌,
}
use r_oses.Prelude.Slots.{sum_to}
use r_oses.Pmm.{Block, block, Pmm, end_of}

-- How often (0 or 1 times) the page at address `q` is one of the block's pages.
abbrev pub in_block : ℕ → Block → ℕ
in_block q b =
    if leb b.addr q && (ltb q (b.addr + 4096 * b.len) && ((q - b.addr) % 4096 == 0)) then 1 else 0

-- How often the page at `q` is free.
abbrev pub free_count : Pmm → ℕ → ℕ
free_count s q = sum_to (in_block q) s.blocks s.last

-- A block of at least one page that does not begin at address 0 or go past the end of memory.
pub record IsBlock (b : Block) : Type 0 where
  pub addr_pos : 0 < b.addr
  pub len_pos : 0 < b.len
  pub fits : b.addr + 4096 * b.len ≤ 4294967296

pub record IsValid (s : Pmm) : Type 0 where
  pub live : (j : ℕ) → 1 ≤ j → j ≤ s.last → IsBlock (s.blocks j)

-- The address behind a block wraps to 0 at the end of memory, and only there.
pub end_of_lem : (b : Block) → IsBlock b → end_of b ≡ (b.addr + 4096 * b.len) % 4294967296
end_of_lem b v = omega arith

-- The same without the page: `vmm.c` keeps blocks of size 0 for a while.
pub record IsRange (b : Block) : Type 0 where
  pub addr_pos : 0 < b.addr
  pub fits : b.addr + 4096 * b.len ≤ 4294967296

pub IsBlock-IsRange : (b : Block) → IsBlock b → IsRange b
IsBlock-IsRange b v = record { addr_pos = v.addr_pos; fits = v.fits }

-- Two blocks that touch hold together what the joined block holds.
pub in_block-join :
    (q : ℕ) (a b : Block)
    → IsRange a
    → IsRange b
    → end_of a ≡ b.addr
    → in_block q (block a.addr (a.len + b.len)) ≡ in_block q a + in_block q b
in_block-join q a b v w e = ground arith

-- The last page of a block.
pub in_block-last :
    (q a n : ℕ)
    → in_block q (block a (n + 1)) ≡ in_block q (block a n) + (if q == a + 4096 * n then 1 else 0)
in_block-last q a n = ground arith

-- A block cut in two.
pub in_block-cut :
    (q a n k : ℕ)
    → in_block q (block a (n + k)) ≡ in_block q (block a n) + in_block q (block (a + 4096 * n) k)
in_block-cut q a n k = ground arith
