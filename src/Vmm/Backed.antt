-- ===== src/Vmm/Backed.antt =====
-- What `alloc_block` leaves in the page tables.
use r_oses.Prelude.{
  ℕ, suc, ◌+◌, ◌-◌, ◌*◌, ◌≤◌, ◌≡◌, ◌≢◌, inl, inr, ◌∙◌, sym, arith, ◌==◌, if◌then◌else◌, refl, true,
  false, Bool, Option, some, none, add32, Option-cases,
}
use r_oses.Pmm.{Pmm, block, end_of}
use r_oses.Pmm.Pages.{in_block}
use r_oses.Paging.Lookup.{window}
use r_oses.Paging.{Tables}
use r_oses.Space.{Space, resize, drop_empty, check_upper, find_fit}
use r_oses.Space.Upper.{space_count, IsSpace}
use r_oses.Space.Take.{find_fit-Fits, Took, check_lower-Took}
use r_oses.Vmm.Alloc.{
  tables-stored, alloc_block_found, alloc_block_none, Outcome, gives, refuses, alloc_block-Outcome,
}
use r_oses.Vmm.{
  space_of, with_space, stored, flags_for, roll_back, map_block, alloc_block, Vmm, Mapping, mapped,
  failed, map_pages,
}
use r_oses.Vmm.Map.{IsStock, Mapped, map_pages-Mapped}

tables-with_space : (k : Bool) (v : Vmm) (s : Space) → (with_space k v s).tables ≡ v.tables
tables-with_space true v s = refl
tables-with_space false v s = refl

pmm-with_space : (k : Bool) (v : Vmm) (s : Space) → (with_space k v s).pmm ≡ v.pmm
pmm-with_space true v s = refl
pmm-with_space false v s = refl

map_block-Mapped :
    (v v' : Vmm) (k : Bool) (size b virt got : ℕ)
    → IsStock v.pmm
    → virt + 4096 * size ≤ window
    → map_block v k size b virt ≡ some (got, v')
    → got ≢ 0
    → (got ≡ virt) × Mapped size 0 virt v.tables v'.tables
unfolding map_block
map_block-Mapped v v' k size b virt got w fits e nz =
    go (map_pages size 0 virt (flags_for k) v.pmm v.tables) refl
  where
    refused :
        (i : ℕ) (s : Pmm) (m : Tables) (r : Option (Space × ℕ))
        → roll_back v k b virt i s m r ≡ some (got, v')
        → ⊥
    refused i s m none h = cc
    refused i s m (some (sp, c)) h = nz cc

    go :
        (r : Mapping)
        → map_pages size 0 virt (flags_for k) v.pmm v.tables ≡ r
        → (got ≡ virt) × Mapped size 0 virt v.tables v'.tables
    go (mapped s m) run =
        let out : map_block v k size b virt
            ≡ some (virt, stored k v (drop_empty (space_of k v) b) s m) =
          rw (map_block, run) refl in
        let same : v' ≡ stored k v (drop_empty (space_of k v) b) s m = cc in
        let first : got ≡ virt = cc in
        (
          first,
          rw (same, tables-stored)
              (map_pages-Mapped size 0 virt (flags_for k) v.pmm s v.tables m w (omega arith) run),
        )
    go (failed i s m) run =
        let out : map_block v k size b virt
            ≡ roll_back v k b virt i s m (
                check_upper (suc (space_of k v).last)
                  (resize (space_of k v) b (add32 ((space_of k v).blocks b).len size)) b) =
          rw (map_block, run) refl in
        absurd (refused i s m _ (sym out ∙ e))

-- Every page of addresses that is free in the space ends below the window where the page tables show.
abbrev pub IsBelow : Space → Type 0
IsBelow s = (q : ℕ) → 1 ≤ space_count s q → q + 4096 ≤ window

-- So do the pages that are taken from it.
taken-below :
    (s : Space) (size : ℕ) (r : Space × ℕ)
    → Took s size r
    → IsBelow s
    → 1 ≤ size
    → end_of (r.0.blocks r.1) + 4096 * size ≤ window
taken-below s size r t below pos =
    let virt = end_of (r.0.blocks r.1) in
    let q = virt + 4096 * (size - 1) in
    let one : in_block q (block virt size) ≡ 1 = ground arith in
    omega (arith, t.counts q, below q (omega (arith, t.counts q, one)))

taken_slot :
    (v v' : Vmm) (size virt : ℕ) (k : Bool)
    → IsStock v.pmm
    → IsBelow (space_of k v)
    → 1 ≤ size
    → (r : Space × ℕ) → Took (space_of k v) size r
    → virt ≢ 0
    → (if end_of (r.0.blocks r.1) == 0
        then some (0, with_space k v r.0)
        else map_block (with_space k v r.0) k size r.1 (end_of (r.0.blocks r.1)))
      ≡ some (virt, v')
    → Mapped size 0 virt v.tables v'.tables
taken_slot v v' size virt k stock below pos (sp, b) t nz e =
    let range = t.space.ranges b t.first t.final in
    let start : end_of (sp.blocks b) ≢ 0 = omega (arith, t.fits, range) in
    let test : (end_of (sp.blocks b) == 0) ≡ false = ground arith in
    let (at, m) =
      map_block-Mapped (with_space k v sp) v' k size b (end_of (sp.blocks b)) virt
        (rw pmm-with_space stock) (taken-below (space_of k v) size (sp, b) t below pos)
        (rw test at e) nz in
    rw at (rw tables-with_space at m)

alloc_block-Mapped :
    (v v' : Vmm) (size virt : ℕ) (k : Bool)
    → IsSpace (space_of k v)
    → IsStock v.pmm
    → IsBelow (space_of k v)
    → 1 ≤ size
    → alloc_block v size k ≡ some (virt, v')
    → virt ≢ 0
    → Mapped size 0 virt v.tables v'.tables
alloc_block-Mapped v v' size virt k w stock below pos e nz =
    elim (Option-cases (find_fit (space_of k v).blocks size (space_of k v).last)) [
      | inl none' ↦ let out = alloc_block_none v size k none' in absurd (nz cc)
      | inr (i, found) ↦
          let f = find_fit-Fits (space_of k v).blocks size (space_of k v).last i found in
          let out = alloc_block_found v size k i found in
          let t = check_lower-Took (space_of k v) i size w f.first f.final pos f.enough in
          taken_slot v v' size virt k stock below pos _ t nz (sym out ∙ e)
    ]

-- What `alloc_block` returns: an address with pages behind it, or NULL.
pub data Backed (v : Vmm) (size : ℕ) : Option (ℕ × Vmm) → Type 0 where
  backed :
      {virt : ℕ} {v' : Vmm}
      → virt ≢ 0
      → Mapped size 0 virt v.tables v'.tables
      → Backed v size (some (virt, v'))
  no_block : {v' : Vmm} → Backed v size (some (0, v'))

outcome-Backed :
    (v : Vmm) (size : ℕ) (k : Bool) (r : Option (ℕ × Vmm))
    → IsSpace (space_of k v)
    → IsStock v.pmm
    → IsBelow (space_of k v)
    → 1 ≤ size
    → alloc_block v size k ≡ r
    → Outcome k v size r
    → Backed v size r
outcome-Backed v size k _ w stock below pos e (gives {virt} {v'} nz a) =
    backed nz (alloc_block-Mapped v v' size virt k w stock below pos e nz)
outcome-Backed v size k _ w stock below pos e (refuses r) = no_block

-- In a space whose blocks are in order and whose free pages lie below the last 4 MiB of
-- addresses, for at least one page and with an allocator that does not hold the page at address
-- 0, alloc_block ends, and where it gives an address, every page of the block has a translation
-- and no address of another page below the last 4 MiB translates differently.
pub alloc_block-Backed :
    (v : Vmm) (size : ℕ) (k : Bool)
    → IsSpace (space_of k v)
    → IsStock v.pmm
    → IsBelow (space_of k v)
    → 1 ≤ size
    → Backed v size (alloc_block v size k)
alloc_block-Backed v size k w stock below pos =
    outcome-Backed v size k _ w stock below pos refl (alloc_block-Outcome v size k w pos)
