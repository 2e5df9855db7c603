-- ===== src/Vmm.antt =====
-- kernel/arch/i386/vmm.c: `alloc_block` and `free_block`, over the two spaces of virtual
-- addresses, the page tables and the allocator of physical pages.
pub mod Alloc
pub mod Unmap
pub mod Map
pub mod Backed
pub mod Free
pub mod SelfTest
pub mod Tests
use mathlib.Core.Option
use r_oses.Prelude.{
  ℕ, zero, suc, ◌+◌, ◌-◌, Bool, true, false, Option, none, some, ◌==◌, if◌then◌else◌, add32, sub32,
  mul32, bit_or,
}
use r_oses.Prelude.Slots.{update}
use r_oses.Pmm.{Block, block, Pmm, end_of, alloc_page, free_page, coalesce}
use r_oses.Space.{
  Space, space_size, resize, drop_empty, push_block, check_lower, check_upper, find_fit,
}
use r_oses.Paging.{Tables, get_physaddr, map_page, unmap_page, flush_tlb}

pub record Vmm : Type 0 where
  pub kernel_space : Space
  pub user_space : Space
  pub pmm : Pmm
  pub tables : Tables

abbrev pub space_of : Bool → Vmm → Space
space_of true v = v.kernel_space
space_of false v = v.user_space

abbrev pub with_space : Bool → Vmm → Space → Vmm
with_space true v s = record v { kernel_space = s }
with_space false v s = record v { user_space = s }

unfoldable pub vmm_init : Vmm → Vmm
vmm_init v = record v {
  user_space = push_block v.user_space (block 0x400000 785408);
  kernel_space = push_block v.kernel_space (block 0xC0400000 260096);
}

-- The space, the allocator and the tables that a call leaves.
abbrev pub stored : Bool → Vmm → Space → Pmm → Tables → Vmm
stored true v sp s m = record v { kernel_space = sp; pmm = s; tables = m }
stored false v sp s m = record v { user_space = sp; pmm = s; tables = m }

-- The address of the page number `i` of a block.
abbrev pub page_at : ℕ → ℕ → ℕ
page_at virt i = add32 virt (mul32 i 4096)

-- The loop that maps the pages of a block, or the number of the page at which it failed.
pub data Mapping : Type 0 where
  mapped : Pmm → Tables → Mapping
  failed : ℕ → Pmm → Tables → Mapping

pub map_pages : (rounds i virt flags : ℕ) → Pmm → Tables → Mapping
map_pages zero i virt flags s m = mapped s m
map_pages (suc rounds) i virt flags s m =
    let (phys, s₁) = alloc_page s in
    let (done, s₂, m') = map_page s₁ m phys (page_at virt i) flags in
    let rest = map_pages rounds (suc i) virt flags s₂ m' in
    if phys == 0 then failed i s₁ m else if done then rest else failed i (free_page s₂ phys) m'

-- The loops that give pages back: `rounds` of them, from page `j` on.
pub unmap_pages : (rounds j virt : ℕ) → Pmm → Tables → Pmm × Tables
unmap_pages zero j virt s m = (s, m)
unmap_pages (suc rounds) j virt s m =
    unmap_pages rounds (suc j) virt (free_page s (get_physaddr m (page_at virt j)))
      (unmap_page m (page_at virt j))

abbrev pub flags_for : Bool → ℕ
flags_for is_kernel = bit_or 0x02 (if is_kernel then 0x2 else 0x6)

-- The end of `alloc_block` where page `i` could not be had.
abbrev pub roll_back :
    Vmm → Bool → (b virt i : ℕ) → Pmm → Tables → Option (Space × ℕ) → Option (ℕ × Vmm)
roll_back v is_kernel b virt i s m none = none
roll_back v is_kernel b virt i s m (some (sp, _)) =
    let (s', m') = unmap_pages i 0 virt s m in some (0, stored is_kernel v sp s' (flush_tlb m'))

-- `alloc_block` from the mapping of the pages on, with the block's slot and address.
pub map_block : Vmm → Bool → (size b virt : ℕ) → Option (ℕ × Vmm)
map_block v is_kernel size b virt =
    let sp = space_of is_kernel v in
    elim (map_pages size 0 virt (flags_for is_kernel) v.pmm v.tables) [
      | mapped s m ↦ some (virt, stored is_kernel v (drop_empty sp b) s m)
      | failed i s m ↦
          roll_back v is_kernel b virt i s m
            (check_upper (suc sp.last) (resize sp b (add32 (sp.blocks b).len size)) b)
    ]

-- NULL is 0, and `none` is a recursion in `check_upper` that is deeper than its fuel.
pub alloc_block : Vmm → (size : ℕ) → Bool → Option (ℕ × Vmm)
alloc_block v size is_kernel =
    let sp = space_of is_kernel v in
    elim (find_fit sp.blocks size sp.last) [
      | none ↦ some (0, v)
      | some k ↦
          let (sp', b) = check_lower (resize sp k (sub32 (sp.blocks k).len size)) k in
          let v' = with_space is_kernel v sp' in
          let virt = end_of (sp'.blocks b) in
          if virt == 0 then some (0, v') else map_block v' is_kernel size b virt
    ]

-- The first loop of `free_block`.
pub all_mapped : (rounds i addr : ℕ) → Tables → Bool
all_mapped zero i addr m = true
all_mapped (suc rounds) i addr m =
    let rest = all_mapped rounds (suc i) addr m in
    if get_physaddr m (page_at addr i) == 0 then false else rest

abbrev pub space_only : Option (Space × ℕ) → Option Space
space_only none = none
space_only (some (s, b)) = some s

-- `free_block` where every slot is in use: the block is joined to one that it touches. `some none`
-- is that there is no such block.
pub join_full : Space → (addr size k : ℕ) → Option (Option Space)
join_full s addr size zero = some none
join_full s addr size (suc k) =
    let rest = join_full s addr size k in
    let ptr = s.blocks (suc k) in
    let n = add32 ptr.len size in
    let below = check_upper (suc s.last) (resize s (suc k) n) (suc k) in
    let above =
      check_upper (suc s.last) (record s { blocks = update s.blocks (suc k) (block addr n) })
        (suc k) in
    if end_of ptr == addr
    then Option.map some (space_only below)
    else if end_of (block addr size) == ptr.addr
    then Option.map some (space_only above)
    else rest

-- The space that `free_block` goes on with.
pub put_block : Space → (addr size : ℕ) → Option (Option Space)
put_block s addr size =
    if s.last + 1 == space_size + 1
    then join_full s addr size space_size
    else Option.map some
        (space_only (check_upper (suc (suc s.last)) (push_block s (block addr size)) (s.last + 1)))

-- The end of `free_block`: the pages go back, and `coalesce` and `flush_tlb` run.
pub release_pages : Vmm → (addr size : ℕ) → Option (Bool × Vmm)
release_pages v addr size =
    let (s, m) = unmap_pages size 0 addr v.pmm v.tables in
    elim (coalesce s) [
      | none ↦ none
      | some s' ↦ some (true, record v { pmm = s'; tables = flush_tlb m })
    ]

pub free_block : Vmm → (addr size : ℕ) → Bool → Option (Bool × Vmm)
free_block v addr size is_kernel =
    if all_mapped size 0 addr v.tables
    then elim (put_block (space_of is_kernel v) addr size) [
      | none ↦ none
      | some none ↦ some (false, v)
      | some (some sp) ↦ release_pages (with_space is_kernel v sp) addr size
    ]
    else some (false, v)
