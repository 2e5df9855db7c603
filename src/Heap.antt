-- ===== src/Heap.antt =====
-- kernel/arch/i386/heap.c and kernel/include/kernel/heap.h: the kernel's heap.
-- Memory is a function from an address to the 32-bit word there. A header is four words, its size,
-- its status, `next` and `prev`, at an address that is a multiple of 4. A word of a page that is not
-- mapped yet is the one that will be found there.
pub mod Cells
pub mod Places
pub mod Split
pub mod Search
pub mod Absorb
pub mod Abstract
pub mod Grow
pub mod Pages
pub mod Extend
pub mod Loop
pub mod Start
pub mod Steps
pub mod Reach
pub mod Alloc
pub mod Free
pub mod RoundTrip
pub mod Interrupts
pub mod SelfTest
mod Tests
mod Crowd
use r_oses.Prelude.{
  ℕ, zero, suc, ◌+◌, ◌/◌, ◌&&◌, ◌||◌, not, Bool, true, false, Option, none, some, leb, ◌==◌,
  if◌then◌else◌, add32, sub32, bit_and,
}
use r_oses.Prelude.Slots.{update}
use r_oses.Vmm.{Vmm, alloc_block}

-- `interrupts` is the processor's interrupt flag, and `flags` that flag as `kmalloc_lock` saw it.
pub record Heap : Type 0 where
  pub mem : ℕ → ℕ
  pub start_header : ℕ
  pub interrupts : Bool
  pub flags : Bool
  pub vmm : Vmm

-- `sizeof(heap_header_t)`.
abbrev pub header_size : ℕ
header_size = 16

abbrev pub heap_free : ℕ
heap_free = 0x46524545

abbrev pub heap_used : ℕ
heap_used = 0x55534544

-- The addresses of a header's fields.
abbrev pub status_at : ℕ → ℕ
status_at h = h + 4

abbrev pub next_at : ℕ → ℕ
next_at h = h + 8

abbrev pub prev_at : ℕ → ℕ
prev_at h = h + 12

abbrev pub kmalloc_lock : Heap → Heap
kmalloc_lock s = record s { flags = s.interrupts; interrupts = false }

abbrev pub kmalloc_unlock : Heap → Heap
kmalloc_unlock s = if s.flags then record s { interrupts = true } else s

-- `if (h->next != NULL) h->next->prev = p;`
abbrev pub link_back : (ℕ → ℕ) → (h p : ℕ) → ℕ → ℕ
link_back mem h p = if mem (next_at h) == 0 then mem else update mem (prev_at (mem (next_at h))) p

-- The writes of `split_header`, and the address of the header that it makes.
pub split_words : (ℕ → ℕ) → (header size : ℕ) → ℕ × (ℕ → ℕ)
split_words mem header size =
    let mem = update mem header (sub32 (mem header) (add32 size header_size)) in
    let next = add32 (add32 header header_size) (mem header) in
    let mem = update (update mem next size) (status_at next) heap_used in
    let mem = update mem (prev_at next) header in
    let mem = link_back (update mem (next_at next) (mem (next_at header))) next next in
    (next, update mem (next_at header) next)

pub split_header : Heap → (header size : ℕ) → ℕ × Heap
unfolding split_words
split_header s header size =
    let (next, mem) = split_words s.mem header size in
    (next, kmalloc_unlock (record s { mem = mem }))

-- Where the loop of `kmalloc` ends: at a free header of the very size, at a larger one, or at the
-- last header (NULL where there is none).
pub data Found : Type 0 where
  fits larger last : ℕ → Found

abbrev pub is_free : (ℕ → ℕ) → ℕ → Bool
is_free mem h = mem (status_at h) == heap_free

-- `none` is a list that is longer than the fuel.
pub kmalloc_loop : (fuel : ℕ) → (ℕ → ℕ) → (size current : ℕ) → Option Found
kmalloc_loop zero mem size current = none
kmalloc_loop (suc fuel) mem size current =
    let rest = kmalloc_loop fuel mem size (mem (next_at current)) in
    if current == 0
    then some (last current)
    else if is_free mem current && (mem current == size)
    then some (fits current)
    else if is_free mem current && leb (add32 size header_size) (mem current)
    then some (larger current)
    else if mem (next_at current) == 0
    then some (last current)
    else rest

-- `(aligned_size + sizeof(heap_header_t) + 4095) & ~4095` and the same in pages.
abbrev pub grown_bytes : ℕ → ℕ
grown_bytes size = bit_and (add32 (add32 size header_size) 4095) 0xfffff000

abbrev pub grown_pages : ℕ → ℕ
grown_pages size = add32 (add32 size header_size) 4095 / 4096

-- The header of a block that was just allocated, behind `current`, whose `next` is the block.
pub new_header : (ℕ → ℕ) → (size current : ℕ) → ℕ × (ℕ → ℕ)
new_header mem size current =
    let mem = update mem (prev_at (mem (next_at current))) current in
    let block = mem (next_at current) in
    (
      block,
      update (update mem block (sub32 (grown_bytes size) header_size)) (status_at block) heap_free,
    )

-- The end of `kmalloc`, where no block is big enough.
pub grow : Heap → (size current : ℕ) → Option (ℕ × Heap)
unfolding split_header new_header
grow s size current = elim (alloc_block s.vmm (grown_pages size) true) [
  | none ↦ none
  | some (block, v) ↦
      let mem = update s.mem (next_at current) block in
      if block == 0
      then some (0, kmalloc_unlock (record s { mem = mem; vmm = v }))
      else (let (header, mem) = new_header mem size current in
          let (h, s') = split_header (record s { mem = mem; vmm = v }) header size in
          some (add32 h header_size, s'))
]

pub aligned : ℕ → ℕ
aligned size = bit_and (add32 size 7) 0xfffffff8

pub after_loop : Heap → (size : ℕ) → Option Found → Option (ℕ × Heap)
unfolding split_header
after_loop s size none = none
after_loop s size (some (fits h)) =
    some (
      add32 h header_size,
      kmalloc_unlock (record s { mem = update s.mem (status_at h) heap_used }),
    )
after_loop s size (some (larger h)) =
    let (next, s') = split_header s h size in some (add32 next header_size, s')
after_loop s size (some (last h)) = grow s size h

-- NULL is 0. `none` is a list that is longer than the fuel, or a `none` of `alloc_block`.
pub kmalloc : (fuel : ℕ) → Heap → ℕ → Option (ℕ × Heap)
kmalloc fuel s size =
    after_loop (kmalloc_lock s) (aligned size)
      (kmalloc_loop fuel s.mem (aligned size) s.start_header)

-- The body of both loops of `kfree`: the header at `a` takes in the one at `b`, which follows it.
pub absorb : (ℕ → ℕ) → (a b : ℕ) → ℕ → ℕ
absorb mem a b =
    let mem = update mem a (add32 (mem a) (add32 header_size (mem b))) in
    let mem = update mem (next_at a) (mem (next_at b)) in link_back mem b a

-- Whether `b` is no NULL and the free header `other`, one of the two, ends where the other begins.
abbrev pub joins : (ℕ → ℕ) → (a b other : ℕ) → Bool
joins mem a b other =
    not (other == 0) && (is_free mem other && (add32 (add32 a header_size) (mem a) == b))

-- The first loop of `kfree`, over the headers in front.
pub absorb_prev : (fuel : ℕ) → (ℕ → ℕ) → (current : ℕ) → Option (ℕ × (ℕ → ℕ))
absorb_prev zero mem current = none
absorb_prev (suc fuel) mem current =
    let prev = mem (prev_at current) in
    let rest = absorb_prev fuel (absorb mem prev current) prev in
    if joins mem prev current prev then rest else some (current, mem)

-- The second loop, over the headers behind.
pub absorb_next : (fuel : ℕ) → (ℕ → ℕ) → (current : ℕ) → Option (ℕ → ℕ)
absorb_next zero mem current = none
absorb_next (suc fuel) mem current =
    let next = mem (next_at current) in
    let rest = absorb_next fuel (absorb mem current next) current in
    if joins mem current next next then rest else some mem

pub kfree_words : (fuel : ℕ) → (ℕ → ℕ) → (header : ℕ) → Option (ℕ → ℕ)
kfree_words fuel mem header =
    elim (absorb_prev fuel (update mem (status_at header) heap_free) header) [
      | none ↦ none
      | some (current, mem) ↦ absorb_next fuel mem current
    ]

pub kfree : (fuel : ℕ) → Heap → ℕ → Option Heap
kfree fuel s addr =
    let header = sub32 addr header_size in
    let status = s.mem (status_at header) in
    if status == heap_free || status == heap_used
    then elim (kfree_words fuel s.mem header) [
      | none ↦ none
      | some mem ↦ some (record s { mem = mem })
    ]
    else some s
