-- ===== src/Heap/Start.antt =====
-- `multiboot_find_tag` and `heap_init` of kernel/arch/i386/heap.c. A tag is two words in memory, its
-- type and its size.
use r_oses.Prelude.{
  ℕ, zero, suc, ◌+◌, ◌-◌, ◌*◌, ◌/◌, ◌%◌, ◌≤◌, ◌<◌, ◌≡◌, ◌≢◌, refl, arith, List, [], ◌∷◌, true,
  false, if◌then◌else◌, ◌==◌, Option, none, some, Bool-cases, inl, inr, add32, length, ltb,
}
use r_oses.Prelude.Slots.{update}
use r_oses.Pmm.{block, Entry}
use r_oses.Pmm.Init.{with_entries}
use r_oses.Pmm.Pages.{in_block}
use r_oses.Space.Upper.{IsSpace}
use r_oses.Vmm.{Vmm, alloc_block, vmm_init, space_of}
use r_oses.Heap.{Heap, header_size, heap_free, status_at, next_at, prev_at}
use r_oses.Heap.Cells.{cell, IsList}
use r_oses.Heap.Pages.{Owns, kernel_count}

abbrev pub bootloader_magic : ℕ
bootloader_magic = 0x36d76289

abbrev pub tag_type_mmap : ℕ
tag_type_mmap = 6

-- The tag behind the one at `tag`, at a multiple of 8.
abbrev pub next_tag : (ℕ → ℕ) → ℕ → ℕ
next_tag mem tag =
    let t = add32 tag (mem (tag + 4)) in if ltb 0 (t % 8) then add32 t (8 - t % 8) else t

-- The loop, from `tag` on. `none` is more tags than the fuel.
pub find_tag : (fuel : ℕ) → (ℕ → ℕ) → (mbd type tag : ℕ) → Option ℕ
find_tag zero mem mbd type tag = none
find_tag (suc fuel) mem mbd type tag =
    let rest = find_tag fuel mem mbd type (next_tag mem tag) in
    if ltb tag (add32 mbd (mem mbd)) then if mem tag == type then some tag else rest else some 0

abbrev pub multiboot_find_tag : (fuel : ℕ) → (ℕ → ℕ) → (mbd type : ℕ) → Option ℕ
multiboot_find_tag fuel mem mbd type = find_tag fuel mem mbd type (add32 mbd 8)

-- The writes to the first header.
abbrev pub first_words : (ℕ → ℕ) → ℕ → ℕ → ℕ
first_words mem h =
    update
      (update (update (update mem (status_at h) heap_free) h (0x10000 - header_size)) (next_at h) 0)
      (prev_at h) 0

-- `none` is `abort`, or a `none` of a callee. `entries` are those that the walk of `pmm_init` reads at a
-- tag, and `with_entries` what it makes of them.
pub heap_init : (fuel : ℕ) → (entries : ℕ → List Entry) → Heap → (mbd magic : ℕ) → Option Heap
heap_init fuel entries s mbd magic =
    if magic == bootloader_magic
    then elim (multiboot_find_tag fuel s.mem mbd tag_type_mmap) [
      | none ↦ none
      | some tag ↦
          let v = vmm_init (record s.vmm { pmm = with_entries s.vmm.pmm (entries tag) }) in
          if tag == 0 then none else elim (alloc_block v 16 true) [
            | none ↦ none
            | some (h, v') ↦
                if h == 0
                then none
                else some (record s { mem = first_words s.mem h; start_header = h; vmm = v' })
          ]
    ]
    else none

-- From `tag` on there are tags of these types and sizes, up to `end`.
abbrev pub Tags : (ℕ → ℕ) → (end tag : ℕ) → List (ℕ × ℕ) → Type 0
Tags mem end tag [] = end ≤ tag
Tags mem end tag ((type, size) ∷ ts) =
    (tag < end)
    × (mem tag ≡ type)
    × (mem (tag + 4) ≡ size)
    × (tag + size + 7 < 4294967296)
    × Tags mem end ((tag + size + 7) / 8 * 8) ts

-- The address of the first tag of a type, 0 where there is none.
abbrev pub first_tag : (type tag : ℕ) → List (ℕ × ℕ) → ℕ
first_tag type tag [] = 0
first_tag type tag ((t, size) ∷ ts) =
    if t == type then tag else first_tag type ((tag + size + 7) / 8 * 8) ts

next_tag_lem :
    (mem : ℕ → ℕ) (tag size : ℕ)
    → mem (tag + 4) ≡ size
    → tag + size + 7 < 4294967296
    → next_tag mem tag ≡ (tag + size + 7) / 8 * 8
next_tag_lem mem tag size e h =
    let t : add32 tag (mem (tag + 4)) ≡ tag + size = omega arith in rw t (ground arith)

pub find_tag_lem :
    (fuel : ℕ) (mem : ℕ → ℕ) (mbd type tag : ℕ) (ts : List (ℕ × ℕ))
    → Tags mem (add32 mbd (mem mbd)) tag ts
    → length ts < fuel
    → find_tag fuel mem mbd type tag ≡ some (first_tag type tag ts)
unfolding find_tag
find_tag_lem zero mem mbd type tag ts v h = absurd (omega arith)
find_tag_lem (suc fuel) mem mbd type tag [] v h =
    let test : ltb tag (add32 mbd (mem mbd)) ≡ false = ground arith in rw test refl
find_tag_lem (suc fuel) mem mbd type tag ((t, size) ∷ ts) (lt, e, e', fits, v) h =
    let test : ltb tag (add32 mbd (mem mbd)) ≡ true = ground arith in
    rw (test, e, next_tag_lem mem tag size e' fits)
      (elim (Bool-cases (t == type)) [
        | inl q ↦ rw q refl
        | inr q ↦ rw q (find_tag_lem fuel mem mbd type _ ts v (omega arith))
      ])

-- What `vmm_init` puts into an empty space.
abbrev pub kernel_block : ℕ → ℕ
kernel_block q = in_block q (block 0xC0400000 260096)

kernel_block-even : (q : ℕ) → 1 ≤ kernel_block q → (q % 4096 ≡ 0) × (q + 4096 ≤ 4294967296)
kernel_block-even q h = (ground arith, ground arith)

pub started_count :
    (v : Vmm) (q : ℕ) → v.kernel_space.last ≡ 0 → kernel_count (vmm_init v) q ≡ kernel_block q
unfolding vmm_init
started_count v q e = rw e (ground arith)

started-IsSpace : (v : Vmm) → v.kernel_space.last ≡ 0 → IsSpace (space_of true (vmm_init v))
unfolding vmm_init
started-IsSpace v e = record {
  ranges = λ j lo hi.
      rw (the_first j v.kernel_space.last e lo hi, e)
        (record { addr_pos = omega arith; fits = omega arith });
  sorted = λ i j lo ij hi. absurd (omega arith);
}
  where
    the_first : (j n : ℕ) → n ≡ 0 → 1 ≤ j → j ≤ n + 1 → j ≡ 1
    the_first j n e lo hi = omega arith

pub started-Owns : (v : Vmm) → v.kernel_space.last ≡ 0 → Owns (vmm_init v) []
started-Owns v e = record {
  space = started-IsSpace v e;
  once = λ q. rw (started_count v q e) (ground arith);
  even = λ q h. (kernel_block-even q (rw (started_count v q e) at h)).0;
  below = λ q h. (kernel_block-even q (rw (started_count v q e) at h)).1;
  outside = λ q a h lo hi. refl;
}

-- The heap that `heap_init` leaves: one free block.
pub record Ready (s : Heap) : Type 0 where
  pub list : IsList s.mem s.start_header (cell s.start_header 65520 false ∷ [])
  pub pages : Owns s.vmm (cell s.start_header 65520 false ∷ [])

-- The state that `heap_init` hands to `alloc_block`.
abbrev pub started : (ℕ → List Entry) → Heap → (tag : ℕ) → Vmm
started entries s tag = vmm_init (record s.vmm { pmm = with_entries s.vmm.pmm (entries tag) })

-- What `heap_init` comes to: a stop for one of three reasons, or the heap.
pub data Booted (entries : ℕ → List Entry) (s : Heap) (magic tag : ℕ) : Option Heap → Type 0 where
  no_magic : magic ≢ bootloader_magic → Booted entries s magic tag none
  no_map : magic ≡ bootloader_magic → tag ≡ 0 → Booted entries s magic tag none
  no_pages :
      {v : Vmm}
      → magic ≡ bootloader_magic
      → tag ≢ 0
      → alloc_block (started entries s tag) 16 true ≡ some (0, v)
      → Booted entries s magic tag none
  ready :
      {s' : Heap}
      → magic ≡ bootloader_magic
      → tag ≢ 0
      → Ready s'
      → Booted entries s magic tag (some s')
