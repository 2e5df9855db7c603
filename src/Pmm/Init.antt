-- ===== src/Pmm/Init.antt =====
-- `pmm_init` against the memory map: which pages it makes free.
use native.Mathlib.Nat.{suc-mul}
use r_oses.Prelude.{
  ℕ, zero, suc, ap, ◌+◌, ◌-◌, ◌*◌, ◌/◌, ◌%◌, ◌≤◌, ◌<◌, ◌≡◌, arith, ◌&&◌, ◌==◌, ltb, leb,
  if◌then◌else◌, refl, true, false, some, none, inl, inr, Bool-cases, ℕ_discrete, List, [], ◌∷◌,
  length, add32, Bool,
}
use r_oses.Prelude.Bits.{bit_and-high}
use r_oses.Prelude.Slots.{sum_to-push}
use r_oses.Pmm.{
  Block, block, Pmm, free_array_size, Entry, entry_at, map_size, map_entry_size, entries_of,
  add_entry, add_entries, rewind, pmm_init, aligned_addr, end_addr, push_block,
}
use r_oses.Pmm.Pages.{in_block, free_count, IsBlock, IsValid}

-- A region of memory in 32-bit fields.
pub record IsEntry (e : Entry) : Type 0 where
  pub addr : e.addr_low < 4294967296
  pub len : e.len_low < 4294967296

-- Whether the page at `q` lies in an available region, above the 4 MiB that are mapped already.
abbrev pub covers : Entry → ℕ → Bool
covers e q =
    (e.kind == 1)
    && (leb 0x400000 q
        && (leb e.addr_low q && (leb (q + 4096) (e.addr_low + e.len_low) && (q % 4096 == 0))))

-- Rounding up to a page.
aligned_addr_lem :
    (e : Entry)
    → e.addr_low ≤ 0xfffff000
    → aligned_addr e ≡ (
        if ltb ((e.addr_low + 4095) / 4096 * 4096) 0x400000
        then 0x400000
        else (e.addr_low + 4095) / 4096 * 4096)
unfolding aligned_addr
aligned_addr_lem e h =
    ground (arith, bit_and-high 20 12 (add32 e.addr_low 4095) (omega arith) (omega arith))

-- Whether the region is added, and the block that it gives.
abbrev usable : Entry → Bool
usable e = (e.kind == 1) && (leb e.addr_low 0xfffff000 && leb (aligned_addr e + 4096) (end_addr e))

abbrev region : Entry → Block
region e = block (aligned_addr e) ((end_addr e - aligned_addr e) / 4096)

end_addr-lt : (e : Entry) → end_addr e < 4294967296
unfolding end_addr
end_addr-lt e = ground arith

add_entry_lem :
    (s : Pmm) (e : Entry) → add_entry s e ≡ (if usable e then push_block s (region e) else s)
unfolding add_entry
add_entry_lem s e = ground (arith, end_addr-lt e)

module _ (e : Entry) (v : IsEntry e) where
  -- Where the sum of base and length wraps, the end lies below the base.
  wrapped-unusable : 4294967296 ≤ e.addr_low + e.len_low → usable e ≡ false
  unfolding end_addr
  wrapped-unusable h = ground (arith, aligned_addr_lem e)

  region-IsBlock : usable e ≡ true → IsBlock (region e)
  region-IsBlock h = ground (arith, aligned_addr_lem e, end_addr-lt e)

  region-covers :
      (q : ℕ)
      → e.addr_low + e.len_low < 4294967296
      → (if usable e then in_block q (region e) else 0) ≡ (if covers e q then 1 else 0)
  unfolding end_addr
  region-covers q h = ground (arith, aligned_addr_lem e)

add_entry-counts :
    (s : Pmm) (e : Entry) (q : ℕ)
    → IsEntry e
    → e.addr_low + e.len_low < 4294967296
    → free_count (add_entry s e) q ≡ free_count s q + (if covers e q then 1 else 0)
add_entry-counts s e q v h = elim (Bool-cases (usable e)) [
  | inl u ↦ ground (
    arith,
    add_entry_lem s e,
    region-covers e v q h,
    sum_to-push (in_block q) s.blocks (region e) s.last,
  )
  | inr u ↦ ground (arith, add_entry_lem s e, region-covers e v q h)
]

add_entry-IsValid : (s : Pmm) (e : Entry) → IsEntry e → IsValid s → IsValid (add_entry s e)
add_entry-IsValid s e v w = elim (Bool-cases (usable e)) [
  | inl u ↦
      rw (add_entry_lem s e, u)
        (record {
          live = λ j lo hi. elim (ℕ_discrete j (s.last + 1)) [
            | yes at ↦ ground (arith, region-IsBlock e v u)
            | no below ↦ ground (arith, w.live j lo (omega arith))
          ];
        })
  | inr u ↦ rw (add_entry_lem s e, u) w
]

-- A region of 32-bit fields whose end is at or past 4 GiB gives no page, however long it is.
pub add_entry_wrapped :
    (s : Pmm) (e : Entry) → IsEntry e → 4294967296 ≤ e.addr_low + e.len_low → add_entry s e ≡ s
add_entry_wrapped s e v h = rw (add_entry_lem s e, wrapped-unusable e v h)

last-add_entry : (s : Pmm) (e : Entry) → (add_entry s e).last ≤ s.last + 1
last-add_entry s e = ground (arith, add_entry_lem s e)

abbrev pub AreEntries : List Entry → Type 0
AreEntries [] = Unit {0}
AreEntries (e ∷ es) = IsEntry e × (e.addr_low + e.len_low < 4294967296) × AreEntries es

-- In how many regions of the map the page at `q` lies.
abbrev pub cover_count : List Entry → ℕ → ℕ
cover_count [] q = 0
cover_count (e ∷ es) q = (if covers e q then 1 else 0) + cover_count es q

-- The regions in a list, from the first on.
abbrev pub push_entries : Pmm → List Entry → Pmm
push_entries s [] = s
push_entries s (e ∷ es) = push_entries (add_entry s e) es

push_entries-counts :
    (es : List Entry) (s : Pmm) (q : ℕ)
    → AreEntries es
    → free_count (push_entries s es) q ≡ free_count s q + cover_count es q
push_entries-counts [] s q v = omega arith
push_entries-counts (e ∷ es) s q (v, h, vs) =
    omega (arith, push_entries-counts es (add_entry s e) q vs, add_entry-counts s e q v h)

push_entries-IsValid :
    (es : List Entry) (s : Pmm) → AreEntries es → IsValid s → IsValid (push_entries s es)
push_entries-IsValid [] s v w = w
push_entries-IsValid (e ∷ es) s (v, h, vs) w =
    push_entries-IsValid es (add_entry s e) vs (add_entry-IsValid s e v w)

last-push_entries : (es : List Entry) (s : Pmm) → (push_entries s es).last ≤ s.last + length es
last-push_entries [] s = omega arith
last-push_entries (e ∷ es) s =
    omega (arith, last-push_entries es (add_entry s e), last-add_entry s e)

-- What `pmm_init` makes of the entries that it reads.
abbrev pub with_entries : Pmm → List Entry → Pmm
with_entries s es = let t = push_entries s es in record t { coalesce_ptr = some (t.last + 1) }

-- The `n` entries of a map from an address on, each `step` bytes behind the last.
abbrev pub entries_from : (ℕ → ℕ) → (step n entry : ℕ) → List Entry
entries_from mem step zero entry = []
entries_from mem step (suc n) entry = entry_at mem entry ∷ entries_from mem step n (entry + step)

length-entries_from : (mem : ℕ → ℕ) (step n entry : ℕ) → length (entries_from mem step n entry) ≡ n
length-entries_from mem step zero entry = refl
length-entries_from mem step (suc n) entry = ap suc (length-entries_from mem step n (entry + step))

add_entries-eq :
    (fuel : ℕ) (mem : ℕ → ℕ) (stop step n entry : ℕ) (s : Pmm)
    → 1 ≤ step
    → n < fuel
    → entry + n * step ≡ stop
    → stop < 4294967296
    → add_entries fuel mem stop step entry s ≡ some (push_entries s (entries_from mem step n entry))
unfolding add_entries
add_entries-eq zero mem stop step n entry s pos f e h = absurd (omega arith)
add_entries-eq (suc fuel) mem stop step zero entry s pos f e h =
    let test : ltb entry stop ≡ false = ground arith in rw test refl
add_entries-eq (suc fuel) mem stop step (suc n) entry s pos f e h =
    let next : entry + step + n * step ≡ stop = grind (arith, suc-mul n step) in
    let test : ltb entry stop ≡ true = ground arith in
    let at : add32 entry step ≡ entry + step = omega arith in
    rw (test, at)
      (add_entries-eq fuel mem stop step n (entry + step) (add_entry s (entry_at mem entry)) pos
        (omega arith) next h)

-- A memory map of `n` entries in memory, whose tag says so, as many as `free_blocks` has slots for.
pub record IsMap (mem : ℕ → ℕ) (mmap n : ℕ) : Type 0 where
  pub size : map_size mem mmap ≡ 16 + n * map_entry_size mem mmap
  pub step : 1 ≤ map_entry_size mem mmap
  pub fits : mmap + 16 + n * map_entry_size mem mmap < 4294967296
  pub few : n ≤ free_array_size

abbrev pub map_entries : (ℕ → ℕ) → (mmap n : ℕ) → List Entry
map_entries mem mmap n = entries_from mem (map_entry_size mem mmap) n (entries_of mmap)

-- The walk over such a map reads its entries, from any state.
pub pmm_init_lem :
    (fuel : ℕ) (mem : ℕ → ℕ) (mmap n : ℕ) (s : Pmm)
    → IsMap mem mmap n
    → n < fuel
    → pmm_init fuel mem mmap s ≡ some (with_entries s (map_entries mem mmap n))
unfolding pmm_init
pmm_init_lem fuel mem mmap n s m lt =
    let stop : add32 mmap (map_size mem mmap) ≡ mmap + 16 + n * map_entry_size mem mmap =
      omega (arith, m.size, m.fits) in
    ap rewind (
      add_entries-eq fuel mem (add32 mmap (map_size mem mmap)) (map_entry_size mem mmap) n
        (entries_of mmap) s m.step lt (omega (arith, stop)) (omega (arith, stop, m.fits)))

-- From the empty array that the kernel starts with.
pub record Started (es : List Entry) (s : Pmm) : Type 0 where
  pub counts : (q : ℕ) → free_count s q ≡ cover_count es q
  pub valid : IsValid s
  pub few : s.last ≤ length es
  pub slots : s.last ≤ free_array_size
  pub pointer : s.coalesce_ptr ≡ some (s.last + 1)

-- From an empty array, for a map in memory of at most 1024 entries, whose regions have 32-bit
-- fields and end below 4 GiB, and fuel for more than the entries, the walk of pmm_init ends: a
-- page is free as often as a region that is available covers it whole, above the first 4 MiB;
-- the slots are valid, and there are no more of them than entries or than 1024.
pub pmm_init-Started :
    (fuel : ℕ) (mem : ℕ → ℕ) (mmap n : ℕ) (f : ℕ → Block)
    → IsMap mem mmap n
    → AreEntries (map_entries mem mmap n)
    → n < fuel
    → (s : Pmm) × (pmm_init fuel mem mmap (record { blocks = f; last = 0; coalesce_ptr = none })
        ≡ some s)
      × Started (map_entries mem mmap n) s
pmm_init-Started fuel mem mmap n f m v lt =
    let es = map_entries mem mmap n in
    let s : Pmm = record { blocks = f; last = 0; coalesce_ptr = none } in
    let few = last-push_entries es s in
    (
      with_entries s es,
      pmm_init_lem fuel mem mmap n s m lt,
      record {
        counts = λ q. omega (arith, push_entries-counts es s q v);
        valid = record {
          live =
              (push_entries-IsValid es s v
                (record { live = λ j lo hi. absurd (omega arith) })).live;
        };
        few = omega (arith, few);
        slots = omega (
          arith,
          few,
          length-entries_from mem (map_entry_size mem mmap) n (entries_of mmap),
          m.few,
        );
        pointer = refl;
      },
    )
