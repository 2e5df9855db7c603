-- ===== src/Paging/Lookup.antt =====
-- What `get_physaddr` finds after `map_page` and `unmap_page`.
use r_oses.Prelude.{
  ℕ, zero, suc, ℕ_discrete, ◌+◌, ◌*◌, ◌/◌, ◌%◌, ◌<◌, ◌≡◌, ◌≢◌, arith, ◌==◌, if◌then◌else◌, refl,
  true, false, bit_and, bit_or, add32, ◌⊎◌, inl, inr, Bool-cases,
}
use r_oses.Prelude.Bits.{
  bit_and-ones, bit_and-high, bit_and-zero, bit_and_split, bit_or_split, bit_or-fields, bit_or-zero,
}
use r_oses.Prelude.Slots.{update}
use r_oses.Pmm.Pages.{IsBlock}
use r_oses.Pmm.{block, Pmm, alloc_page}
use r_oses.Paging.{
  Tables, pd, pd_place, pd_index, pt_index, flush_tlb, get_physaddr, clear_table, entry_for,
  set_entry, map_page, unmap_page,
}

low_bit : (e : ℕ) → bit_and e 0x1 ≡ e % 2
low_bit e = bit_and-ones 1 e (omega arith)

pub page_of : (a : ℕ) → a < 4294967296 → bit_and a 0xfffff000 ≡ a / 4096 * 4096
page_of a h = bit_and-high 20 12 a (omega arith) (omega arith)

digit-bit_or : (r : ℕ) → r < 2 → bit_or r 1 ≡ 1
digit-bit_or zero h = refl
digit-bit_or (suc zero) h = refl
digit-bit_or (suc (suc r)) h = absurd (omega arith)

bit_or_one : (a : ℕ) → bit_or a 1 ≡ a / 2 * 2 + 1
bit_or_one a = ground (
  arith,
  bit_or_split 1 a 1 (omega arith),
  bit_or-zero (a / 2),
  digit-bit_or (a % 2) (omega arith),
)

-- The entry of a fresh table in the directory is present.
pub directory_entry-odd : (p : ℕ) → bit_or p 7 % 2 ≡ 1
directory_entry-odd p =
    ground (arith, bit_or_split 1 p 7 (omega arith), digit-bit_or (p % 2) (omega arith))

entry_for_lem :
    (phys flags : ℕ)
    → phys < 4294967296
    → entry_for phys flags ≡ phys / 4096 * 4096 + flags % 4096 / 2 * 2 + 1
unfolding entry_for
entry_for_lem phys flags h = ground (
  arith,
  page_of phys h,
  bit_and-ones 12 flags (omega arith),
  bit_or-fields 12 (phys / 4096) (flags % 4096) (omega arith),
  bit_or_one (phys / 4096 * 4096 + flags % 4096),
)

pt_index_lem : (va : ℕ) → pt_index va ≡ va / 4096
pt_index_lem va = ground (arith, bit_and-ones 10 (va / 4096) (omega arith))

pub get_physaddr_lem :
    (m : Tables) (q : ℕ)
    → get_physaddr m q ≡ (
        if pd m (q / 4194304) % 2 == 0
        then 0
        else if m.pt (q / 4096) % 2 == 0
        then 0
        else add32 (bit_and (m.pt (q / 4096)) 0xfffff000) (q % 4096))
unfolding get_physaddr
get_physaddr_lem m q = ground (
  arith,
  pt_index_lem q,
  low_bit (pd m (q / 4194304)),
  low_bit (m.pt (q / 4096)),
  bit_and-ones 12 q (omega arith),
)

pt-set_entry : (m : Tables) (i e : ℕ) → (set_entry m i e).pt ≡ update m.pt i e
unfolding set_entry
pt-set_entry m i e = ground arith

-- Where the page tables show: the last 4 MiB of addresses.
abbrev pub window : ℕ
window = 0xffc00000

-- A write into a table that is present, below the window.
get_physaddr-set_entry :
    (m : Tables) (phys va flags q : ℕ)
    → phys < 4294967296
    → va < window
    → q < window
    → pd m (va / 4194304) % 2 ≡ 1
    → get_physaddr (set_entry m (va / 4096) (entry_for phys flags)) q
      ≡ (if q / 4096 == va / 4096 then phys / 4096 * 4096 + q % 4096 else get_physaddr m q)
get_physaddr-set_entry m phys va flags q h lv lq p =
    let e = entry_for phys flags in
    let m' = set_entry m (va / 4096) e in
    rw (get_physaddr_lem m' q, pt-set_entry)
      (ground
        (arith, get_physaddr_lem m q, entry_for_lem phys flags h, page_of (entry_for phys flags)))

page_index : (va : ℕ) → va < 4294967296 → pt_index (bit_and va 0xfffff000) ≡ va / 4096
page_index va h = ground (arith, page_of va h, pt_index_lem (va / 4096 * 4096))

-- `map_page` with the directory's entry there already, and with a fresh table.
module _ (s : Pmm) (m : Tables) (phys va flags : ℕ) (hv : va < 4294967296) where
  map_page_present :
      pd m (va / 4194304) % 2 ≡ 1
      → map_page s m phys va flags ≡ (true, s, set_entry m (va / 4096) (entry_for phys flags))
  unfolding map_page
  map_page_present p =
      ground (arith, page_of va hv, page_index va hv, low_bit (pd m (va / 4194304)))

  abbrev fresh : Tables
  fresh = record m {
    pt =
        clear_table (update m.pt (pd_place (va / 4194304)) (bit_or (alloc_page s).0 0x7))
          (va / 4194304);
  }

  map_page_absent :
      pd m (va / 4194304) % 2 ≡ 0
      → (alloc_page s).0 ≢ 0
      → map_page s m phys va flags
        ≡ (true, (alloc_page s).1, set_entry fresh (va / 4096) (entry_for phys flags))
  unfolding map_page
  map_page_absent p a =
      ground (arith, page_of va hv, page_index va hv, low_bit (pd m (va / 4194304)))

  -- Without a page for the table nothing is mapped.
  pub map_page_fails :
      pd m (va / 4194304) % 2 ≡ 0
      → (alloc_page s).0 ≡ 0
      → map_page s m phys va flags ≡ (false, (alloc_page s).1, m)
  unfolding map_page
  map_page_fails p a = ground (arith, page_of va hv, low_bit (pd m (va / 4194304)))

  -- A fresh table changes no translation below the window: there was none before.
  get_physaddr-fresh :
      (q : ℕ)
      → va < window
      → q < window
      → pd m (va / 4194304) % 2 ≡ 0
      → get_physaddr fresh q ≡ get_physaddr m q
  get_physaddr-fresh q lv lq p = ground (arith, get_physaddr_lem fresh q, get_physaddr_lem m q)

  -- For a 32-bit frame and an address below the last 4 MiB, after a map_page that succeeds the
  -- addresses of the page translate into the frame, and every other address below the last 4 MiB
  -- translates as before, whether the table was there or is fresh.
  pub get_physaddr-map_page :
      (q : ℕ)
      → phys < 4294967296
      → va < window
      → q < window
      → (map_page s m phys va flags).0 ≡ true
      → get_physaddr (map_page s m phys va flags).2 q
        ≡ (if q / 4096 == va / 4096 then phys / 4096 * 4096 + q % 4096 else get_physaddr m q)
  get_physaddr-map_page q hp lv lq ok = elim (ℕ_discrete (pd m (va / 4194304) % 2) 1) [
    | yes p ↦ rw (map_page_present p) (get_physaddr-set_entry m phys va flags q hp lv lq p)
    | no np ↦
        let p : pd m (va / 4194304) % 2 ≡ 0 = omega arith in
        elim (ℕ_discrete (alloc_page s).0 0) [
          | yes a ↦ ground (arith, map_page_fails p a)
          | no a ↦ ground (
            arith,
            map_page_absent p a,
            directory_entry-odd (alloc_page s).0,
            get_physaddr-set_entry fresh phys va flags q hp lv lq
                (ground (arith, directory_entry-odd (alloc_page s).0)),
            get_physaddr-fresh q lv lq p,
          )
        ]
  ]

-- For addresses below the window, after unmap_page the addresses of the page have no translation, and
-- every other address translates as before.
pub get_physaddr-unmap_page :
    (m : Tables) (va q : ℕ)
    → va < window
    → q < window
    → get_physaddr (unmap_page m va) q ≡ (if q / 4096 == va / 4096 then 0 else get_physaddr m q)
unfolding unmap_page
get_physaddr-unmap_page m va q h lq = ground (
  arith,
  page_of va (omega arith),
  page_index va (omega arith),
  low_bit (pd m (va / 4194304)),
  low_bit (m.pt (va / 4096)),
  get_physaddr_lem m q,
  get_physaddr_lem (record m { pt = update m.pt (va / 4096) 0 }) q,
)

frame_of : (e : ℕ) → bit_and e 0xfffff000 ≡ e / 4096 % 1048576 * 4096
frame_of e = ground (
  arith,
  bit_and_split 12 e 0xfffff000 (omega arith),
  bit_and-ones 20 (e / 4096) (omega arith),
  bit_and-zero (e % 4096),
)

-- What a page translates into is a page.
pub get_physaddr-IsBlock :
    (m : Tables) (q : ℕ)
    → q % 4096 ≡ 0
    → get_physaddr m q ≢ 0
    → IsBlock (block (get_physaddr m q) 1)
get_physaddr-IsBlock m q a nz = ground (arith, get_physaddr_lem m q, frame_of (m.pt (q / 4096)))

pub get_physaddr-flush_tlb : (m : Tables) (q : ℕ) → get_physaddr (flush_tlb m) q ≡ get_physaddr m q
unfolding get_physaddr flush_tlb
get_physaddr-flush_tlb m q = refl

-- The allocator behind `map_page`: as it was, or less a page for a table.
pub pmm-map_page :
    (s : Pmm) (m : Tables) (phys va flags : ℕ)
    → (map_page s m phys va flags).0 ≡ true
    → ((map_page s m phys va flags).1 ≡ s)
      ⊎ (((alloc_page s).0 ≢ 0) × ((map_page s m phys va flags).1 ≡ (alloc_page s).1))
unfolding map_page
pmm-map_page s m phys va flags ok =
    elim (Bool-cases (bit_and (pd m (pd_index (bit_and va 0xfffff000))) 0x1 == 0)) [
      | inr p ↦ inl (rw (map_page, p) refl)
      | inl p ↦ elim (Bool-cases ((alloc_page s).0 == 0)) [
        | inl a ↦
            let no : (map_page s m phys va flags).0 ≡ false = rw (map_page, p, a) refl in absurd cc
        | inr a ↦ inr (ground arith, rw (map_page, p, a) refl)
      ]
    ]
