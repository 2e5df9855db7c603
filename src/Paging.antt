-- ===== src/Paging.antt =====
-- kernel/arch/i386/vmm.c: the page directory and the page tables.
-- The directory maps itself, so the table of entry `i` shows at 0xFFC00000 + 0x1000 * i: the words
-- of these last 4 MiB of addresses are one array, with the entry `j` of table `i` at 0x400 * i + j,
-- and the directory is its table 0x3ff. A write of a directory's entry also changes which table shows
-- at its place. `map_page` clears that table at once; where the address that is mapped or unmapped is
-- itself one of the last 4 MiB, the other table that then shows is not modelled.
-- No two entries of the directory name the same page.
pub mod Lookup
pub mod Tests
use r_oses.Prelude.{
  ℕ, ◌+◌, ◌*◌, ◌&&◌, Bool, true, false, leb, ltb, ◌==◌, if◌then◌else◌, ◌>>>◌, add32, bit_and,
  bit_or,
}
use r_oses.Prelude.Slots.{update}
use r_oses.Pmm.{Pmm, alloc_page}

-- `flushes` counts the runs of `flush_tlb`.
pub record Tables : Type 0 where
  pub pt : ℕ → ℕ
  pub flushes : ℕ

-- The place of the directory's entry `i`, at 0xFFFFF000, and the entry.
abbrev pub pd_place : ℕ → ℕ
pd_place i = 0x3ff * 0x400 + i

abbrev pub pd : Tables → ℕ → ℕ
pd m i = m.pt (pd_place i)

abbrev pub pd_index : ℕ → ℕ
pd_index va = va >>> 22

abbrev pub pt_index : ℕ → ℕ
pt_index va = 0x400 * (va >>> 22) + bit_and (va >>> 12) 0x3ff

pub flush_tlb : Tables → Tables
flush_tlb m = record m { flushes = m.flushes + 1 }

-- NULL is 0.
pub get_physaddr : Tables → ℕ → ℕ
get_physaddr m va =
    if bit_and (pd m (pd_index va)) 0x1 == 0
    then 0
    else if bit_and (m.pt (pt_index va)) 0x1 == 0
    then 0
    else add32 (bit_and (m.pt (pt_index va)) 0xfffff000) (bit_and va 0xfff)

-- The entries of one table all become 0.
abbrev pub clear_table : (ℕ → ℕ) → ℕ → ℕ → ℕ
clear_table pt i j = if leb (0x400 * i) j && ltb j (0x400 * i + 0x400) then 0 else pt j

-- The entry that `map_page` writes.
pub entry_for : ℕ → ℕ → ℕ
entry_for phys flags = bit_or (bit_or (bit_and phys 0xfffff000) (bit_and flags 0xfff)) 0x1

-- The write at the end of `map_page`, with its flush where a mapping was there before.
pub set_entry : Tables → ℕ → ℕ → Tables
unfolding flush_tlb
set_entry m i e =
    let m' = record m { pt = update m.pt i e } in
    if bit_and (m.pt i) 0x1 == 1 then flush_tlb m' else m'

unfoldable pub map_page : Pmm → Tables → (phys va flags : ℕ) → Bool × Pmm × Tables
map_page s m phys va flags =
    let va' = bit_and va 0xfffff000 in
    if bit_and (pd m (pd_index va')) 0x1 == 0
    then (let (page, s') = alloc_page s in
        if page == 0
        then (false, s', m)
        else (let m' = record m {
          pt = clear_table (update m.pt (pd_place (pd_index va')) (bit_or page 0x7)) (pd_index va');
        } in
            (true, s', set_entry m' (pt_index va') (entry_for phys flags))))
    else (true, s, set_entry m (pt_index va') (entry_for phys flags))

pub unmap_page : Tables → ℕ → Tables
unmap_page m va =
    let va' = bit_and va 0xfffff000 in
    if bit_and (pd m (pd_index va')) 0x1 == 0
    then m
    else if bit_and (m.pt (pt_index va')) 0x1 == 0
    then m
    else record m { pt = update m.pt (pt_index va') 0 }
