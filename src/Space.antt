-- ===== src/Space.antt =====
-- kernel/arch/i386/vmm.c: a space of virtual addresses, as a list of free blocks that is kept in
-- order of falling size. A `vmm_block_t` has the fields of a `pmm_block_t`, its `size` being
-- `len` here. As in Pmm, slots are numbered from 1, and `last` is 0 for an empty space.
pub mod Order
pub mod Moves
pub mod Upper
pub mod Take
pub mod Put
mod Tests
use r_oses.Prelude.{
  ℕ, zero, suc, ◌+◌, ◌-◌, ◌||◌, Option, none, some, leb, ltb, ◌==◌, if◌then◌else◌, add32,
}
use r_oses.Prelude.Slots.{update, move_down}
use r_oses.Pmm.{Block, block, end_of}

-- `user_space` and `user_space_end`, or `kernel_space` and `kernel_space_end`.
pub record Space : Type 0 where
  pub blocks : ℕ → Block
  pub last : ℕ

abbrev pub space_size : ℕ
space_size = 512

-- `block->size = n`.
abbrev pub resize : Space → ℕ → ℕ → Space
resize s b n = record s { blocks = update s.blocks b (record (s.blocks b) { len = n }) }

-- `space_end++`, and the block is written there.
abbrev pub push_block : Space → Block → Space
push_block s b = record { blocks = update s.blocks (s.last + 1) b; last = s.last + 1 }

-- The end of `alloc_block` where every page was mapped: a block that is used up goes.
abbrev pub drop_empty : Space → ℕ → Space
drop_empty s b = if (s.blocks b).len == 0 then record s { last = s.last - 1 } else s

-- The exchange of the blocks in the slots `i` and `i + 1`.
abbrev pub swap : (ℕ → Block) → ℕ → ℕ → Block
swap f i j = if j == i then f (suc i) else if j == suc i then f i else f j

-- The loop of `check_lower`, with the rounds that are left before `space_end`.
unfoldable pub sink : (rounds : ℕ) → (ℕ → Block) → ℕ → (ℕ → Block) × ℕ
sink zero f b = (f, b)
sink (suc rounds) f b =
    let rest = sink rounds (swap f b) (suc b) in
    if ltb (f b).len (f (suc b)).len then rest else (f, b)

unfoldable pub check_lower : Space → ℕ → Space × ℕ
unfolding sink
check_lower s b = let (f, b') = sink (s.last - b) s.blocks b in (record s { blocks = f }, b')

-- The first loop of `check_upper`: the block moves down in number while it is the larger one.
pub raise : (ℕ → Block) → ℕ → (ℕ → Block) × ℕ
raise f zero = (f, zero)
raise f (suc zero) = (f, suc zero)
raise f (suc (suc b)) =
    let rest = raise (swap f (suc b)) (suc b) in
    if ltb (f (suc b)).len (f (suc (suc b))).len then rest else (f, suc (suc b))

-- Slot `b` goes, and slot `p` becomes `joined`.
pub join : Space → (b p : ℕ) → Block → Space
join s b p joined = record {
  blocks = move_down (update s.blocks p joined) b (s.last - b);
  last = s.last - 1;
}

-- Where slot `p` stands when slot `b` is gone.
abbrev pub after_removal : (b p : ℕ) → ℕ
after_removal b p = if ltb b p then p - 1 else p

-- The value of the recursive call is dropped, and its space kept.
abbrev pub returning : ℕ → Option (Space × ℕ) → Option (Space × ℕ)
returning p none = none
returning p (some (s, b)) = some (s, p)

-- The second loop of `check_upper`.
pub join_scan : (Space → ℕ → Option (Space × ℕ)) → Space → (b rounds p : ℕ) → Option (Space × ℕ)
join_scan again s b zero p = some (s, b)
join_scan again s b (suc rounds) p =
    let rest = join_scan again s b rounds (suc p) in
    let this = s.blocks b in
    let that = s.blocks p in
    let p' = after_removal b p in
    let joined = block this.addr (add32 that.len this.len) in
    let grown = record that { len = add32 that.len this.len } in
    if p == b
    then rest
    else if that.addr == end_of this
    then returning p' (again (join s b p joined) p')
    else if this.addr == end_of that
    then returning p' (again (join s b p grown) p')
    else rest

-- `none` is a recursion that is deeper than the fuel.
pub check_upper : ℕ → Space → ℕ → Option (Space × ℕ)
unfolding raise
check_upper zero s b = none
check_upper (suc fuel) s b =
    if ltb b 1 || ltb s.last b
    then some (s, b)
    else (let (f, b') = raise s.blocks b in
        join_scan (check_upper fuel) (record s { blocks = f }) b' s.last 1)

-- The slot that `alloc_block` takes: the last one that is large enough.
unfoldable pub find_fit : (ℕ → Block) → (size : ℕ) → (k : ℕ) → Option ℕ
find_fit f size zero = none
find_fit f size (suc k) =
    let rest = find_fit f size k in if leb size (f (suc k)).len then some (suc k) else rest
