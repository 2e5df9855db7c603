-- ===== src/Pmm.antt =====
-- kernel/arch/i386/pmm.c: the allocator of physical pages.
-- The slots of `free_blocks` are numbered from 1, and 0 is the place in front of the array, so
-- that `last_freed` is a number and `free_blocks - 1` is 0. The code has no bound: what lies in front
-- of the array and behind its 1024 slots is memory like any other here, but what a write there does to
-- other variables is not modelled, and the theorems on `free_page` and `pmm_init` stay within the slots.
pub mod Pages
pub mod Alloc
pub mod Merge
pub mod Coalesce
pub mod Free
pub mod Init
pub mod Checksum
mod Tests
use r_oses.Prelude.{
  ℕ, zero, suc, ◌+◌, ◌-◌, ◌/◌, ◌&&◌, ◌||◌, Bool, true, false, Option, none, some, leb, ltb, ◌==◌,
  if◌then◌else◌, add32, sub32, mul32, bit_and, u32,
}
use r_oses.Prelude.Slots.{update, move_down}

-- `pmm_block_t`: `len` pages from `addr` on.
pub record Block : Type 0 where
  pub addr : ℕ
  pub len : ℕ

abbrev pub block : ℕ → ℕ → Block
block a n = record { addr = a; len = n }

-- `coalesce_ptr` is `none` where it is NULL, as it is before `pmm_init`.
pub record Pmm : Type 0 where
  pub blocks : ℕ → Block
  pub last : ℕ
  pub coalesce_ptr : Option ℕ

abbrev pub free_array_size : ℕ
free_array_size = 1024

-- The address behind a block, as the pointer arithmetic computes it.
abbrev pub end_of : Block → ℕ
end_of b = add32 b.addr (mul32 4096 b.len)

-- NULL is 0.
unfoldable pub alloc_page : Pmm → ℕ × Pmm
alloc_page s =
    if s.last == 0
    then (0, s)
    else (let top = s.blocks s.last in
        let len' = sub32 top.len 1 in
        let s' = record s { blocks = update s.blocks s.last (record top { len = len' }) } in
        if len' == 0
        then (top.addr, record s' { last = s.last - 1 })
        else (add32 top.addr (mul32 4096 len'), s'))

pub free_page : Pmm → ℕ → Pmm
free_page s addr =
    let top = s.blocks s.last in
    if addr == end_of top
    then record s { blocks = update s.blocks s.last (record top { len = add32 top.len 1 }) }
    else record s { blocks = update s.blocks (s.last + 1) (block addr 1); last = s.last + 1 }

-- `if (block < coalesce_ptr) coalesce_ptr--;`, where NULL is below every slot.
abbrev pub step_back : Option ℕ → ℕ → Option ℕ
step_back none b = none
step_back (some c) b = some (if ltb b c then c - 1 else c)

abbrev pub step_on : Option ℕ → Option ℕ
step_on none = none
step_on (some c) = some (c + 1)

-- Slot `b` goes, and slot `p` becomes `merged`.
pub merge : Pmm → (b p : ℕ) → Block → Pmm
merge s b p merged = record {
  blocks = move_down (update s.blocks p merged) b (s.last - b);
  last = s.last - 1;
  coalesce_ptr = step_back s.coalesce_ptr b;
}

-- Where slot `p` stands when slot `b` is gone.
abbrev pub after_removal : (b p : ℕ) → ℕ
after_removal b p = if ltb b p then p - 1 else p

abbrev pub resume : Option Pmm → Option Pmm
resume none = none
resume (some s) = some (record s { coalesce_ptr = step_on s.coalesce_ptr })

-- The loop over the slots, with the `rounds` that are left and the recursive call as a function.
pub coalesce_scan : (Pmm → ℕ → Option Pmm) → Pmm → (b rounds p : ℕ) → Option Pmm
coalesce_scan again s b zero p = some s
coalesce_scan again s b (suc rounds) p =
    let rest = coalesce_scan again s b rounds (suc p) in
    let this = s.blocks b in
    let that = s.blocks p in
    if p == b
    then rest
    else if end_of that == this.addr
    then resume
        (again (merge s b p (record that { len = add32 that.len this.len })) (after_removal b p))
    else if end_of this == that.addr
    then resume
        (again (merge s b p (block this.addr (add32 that.len this.len))) (after_removal b p))
    else rest

-- `none` is a recursion that is deeper than the fuel.
pub coalesce_loop : ℕ → Pmm → ℕ → Option Pmm
coalesce_loop zero s b = none
coalesce_loop (suc fuel) s b = coalesce_scan (coalesce_loop fuel) s b s.last 1

-- `while (coalesce_ptr <= last_freed)`, started at a pointer that is not NULL.
pub coalesce_while : ℕ → Pmm → Option Pmm
coalesce_while zero s = none
coalesce_while (suc fuel) s = elim s.coalesce_ptr [
  | none ↦ none
  | some c ↦ elim (leb c s.last) [
    | false ↦ some s
    | true ↦ elim (coalesce_loop (s.last + 1) s c) [
      | none ↦ none
      | some s' ↦ coalesce_while fuel (record s' { coalesce_ptr = step_on s'.coalesce_ptr })
    ]
  ]
]

abbrev pub is_null : Option ℕ → Bool
is_null none = true
is_null (some c) = false

-- The last line of `coalesce` and of `pmm_init`.
abbrev pub rewind : Option Pmm → Option Pmm
rewind none = none
rewind (some s) = some (record s { coalesce_ptr = some (s.last + 1) })

pub coalesce : Pmm → Option Pmm
coalesce s =
    if s.last == 1 || is_null s.coalesce_ptr then some s else rewind (coalesce_while (s.last + 2) s)

-- `struct multiboot_mmap_entry`, less the fields that the kernel does not read.
pub record Entry : Type 0 where
  pub addr_low : ℕ
  pub len_low : ℕ
  pub kind : ℕ

-- `(addr + 4095) & ~4095`, and no lower than the 4 MiB that are mapped already.
pub aligned_addr : Entry → ℕ
aligned_addr e =
    let up = bit_and (add32 e.addr_low 4095) 0xfffff000 in if ltb up 0x400000 then 0x400000 else up

-- The sum is one of `uint32_t`, and is widened afterwards.
pub end_addr : Entry → ℕ
end_addr e =
    let sum = add32 e.addr_low e.len_low in if ltb 0x100000000 sum then 0x100000000 else sum

-- `last_freed++`, and the block is written there.
abbrev pub push_block : Pmm → Block → Pmm
push_block s b = record s { blocks = update s.blocks (s.last + 1) b; last = s.last + 1 }

pub add_entry : Pmm → Entry → Pmm
add_entry s e =
    if (e.kind == 1) && leb e.addr_low 0xfffff000
    then (if ltb (aligned_addr e) (end_addr e)
        then (let pages = u32 (end_addr e - aligned_addr e) / 4096 in
            if pages == 0 then s else push_block s (block (aligned_addr e) pages))
        else s)
    else s

-- `struct multiboot_mmap_entry` at an address, in the 32-bit words of memory.
abbrev pub entry_at : (ℕ → ℕ) → ℕ → Entry
entry_at mem a = record { addr_low = mem a; len_low = mem (a + 8); kind = mem (a + 16) }

-- The fields `size` and `map_entry_size` of the memory map's tag, and the address of its entries.
abbrev pub map_size : (ℕ → ℕ) → ℕ → ℕ
map_size mem mmap = mem (mmap + 4)

abbrev pub map_entry_size : (ℕ → ℕ) → ℕ → ℕ
map_entry_size mem mmap = mem (mmap + 8)

abbrev pub entries_of : ℕ → ℕ
entries_of mmap = mmap + 16

-- The loop over the entries from `entry` on, in front of `stop`. `none` is a map that is longer than
-- the fuel.
pub add_entries : (fuel : ℕ) → (ℕ → ℕ) → (stop step entry : ℕ) → Pmm → Option Pmm
add_entries zero mem stop step entry s = none
add_entries (suc fuel) mem stop step entry s =
    let rest =
      add_entries fuel mem stop step (add32 entry step) (add_entry s (entry_at mem entry)) in
    if ltb entry stop then rest else some s

-- The two variables that only `read_mmap` uses are left out.
pub pmm_init : (fuel : ℕ) → (ℕ → ℕ) → (mmap : ℕ) → Pmm → Option Pmm
pmm_init fuel mem mmap s = rewind (
    add_entries fuel mem (add32 mmap (map_size mem mmap)) (map_entry_size mem mmap)
      (entries_of mmap) s)

-- `checksum`, over the first `n` slots of the array.
pub checksum_of : (ℕ → Block) → ℕ → ℕ
checksum_of f zero = 2983
checksum_of f (suc n) = mul32 (mul32 (checksum_of f n) (add32 (f (suc n)).addr 1)) (f (suc n)).len

pub checksum : Pmm → ℕ
unfolding checksum_of
checksum s = checksum_of s.blocks free_array_size

-- Whether the checksum comes out the same, and the state that is left.
pub test_pmm : Pmm → Option (Bool × Pmm)
test_pmm s =
    let (a, s₁) = alloc_page s in
    let (b, s₂) = alloc_page s₁ in
    let (c, s₃) = alloc_page s₂ in
    elim (coalesce (free_page (free_page (free_page s₃ a) b) c)) [
      | none ↦ none
      | some s' ↦ some (checksum s == checksum s', s')
    ]
