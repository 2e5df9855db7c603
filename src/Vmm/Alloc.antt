-- ===== src/Vmm/Alloc.antt =====
-- `alloc_block` against the free addresses of a space.
use r_oses.Prelude.{
  ℕ, ◌+◌, ◌*◌, ◌≤◌, ◌≡◌, ◌≢◌, ◌∙◌, sym, arith, ◌==◌, if◌then◌else◌, refl, ap, Option, none, some,
  Bool, true, false, not, inl, inr, Option-cases, sub32,
}
use r_oses.Pmm.{block, Pmm, end_of}
use r_oses.Pmm.Pages.{in_block}
use r_oses.Space.{Space, resize, check_lower, find_fit}
use r_oses.Space.Upper.{space_count, IsSpace}
use r_oses.Space.Take.{
  find_fit-Fits, Took, check_lower-Took, drop_empty-counts, drop_empty-IsSpace,
  check_upper-give_back,
}
use r_oses.Paging.{Tables}
use r_oses.Vmm.{
  Vmm, space_of, with_space, stored, Mapping, mapped, failed, map_pages, flags_for, map_block,
  alloc_block,
}

pub space_of-stored :
    (k : Bool) (v : Vmm) (sp : Space) (s : Pmm) (m : Tables) → space_of k (stored k v sp s m) ≡ sp
space_of-stored true v sp s m = refl
space_of-stored false v sp s m = refl

pub space_of-stored_other :
    (k : Bool) (v : Vmm) (sp : Space) (s : Pmm) (m : Tables)
    → space_of (not k) (stored k v sp s m) ≡ space_of (not k) v
space_of-stored_other true v sp s m = refl
space_of-stored_other false v sp s m = refl

pub pmm-stored :
    (k : Bool) (v : Vmm) (sp : Space) (s : Pmm) (m : Tables) → (stored k v sp s m).pmm ≡ s
pmm-stored true v sp s m = refl
pmm-stored false v sp s m = refl

pub tables-stored :
    (k : Bool) (v : Vmm) (sp : Space) (s : Pmm) (m : Tables) → (stored k v sp s m).tables ≡ m
tables-stored true v sp s m = refl
tables-stored false v sp s m = refl

space_of-with_space : (k : Bool) (v : Vmm) (s : Space) → space_of k (with_space k v s) ≡ s
space_of-with_space true v s = refl
space_of-with_space false v s = refl

space_of-with_space_other :
    (k : Bool) (v : Vmm) (s : Space) → space_of (not k) (with_space k v s) ≡ space_of (not k) v
space_of-with_space_other true v s = refl
space_of-with_space_other false v s = refl

-- What is left of the space when the pages at `virt` are taken, and the other space as it was.
pub record Allocated (k : Bool) (v : Vmm) (virt size : ℕ) (v' : Vmm) : Type 0 where
  pub counts :
      (q : ℕ)
      → space_count (space_of k v) q ≡ space_count (space_of k v') q + in_block q (block virt size)
  pub space : IsSpace (space_of k v')
  pub other : space_of (not k) v' ≡ space_of (not k) v

-- The space holds what it held, and the other one is as it was.
pub record Refused (k : Bool) (v v' : Vmm) : Type 0 where
  pub counts : (q : ℕ) → space_count (space_of k v') q ≡ space_count (space_of k v) q
  pub space : IsSpace (space_of k v')
  pub other : space_of (not k) v' ≡ space_of (not k) v

-- What `alloc_block` returns.
pub data Outcome (k : Bool) (v : Vmm) (size : ℕ) : Option (ℕ × Vmm) → Type 0 where
  gives :
      {virt : ℕ} {v' : Vmm}
      → virt ≢ 0
      → Allocated k v virt size v'
      → Outcome k v size (some (virt, v'))
  refuses : {v' : Vmm} → Refused k v v' → Outcome k v size (some (0, v'))

module _ (v : Vmm) (k : Bool) (size b : ℕ) (w : IsSpace (space_of k v)) (lo : 1 ≤ b)
    (hi : b ≤ (space_of k v).last) (pos : 1 ≤ size)
    (fits : ((space_of k v).blocks b).addr + 4096 * (((space_of k v).blocks b).len + size)
      ≤ 4294967296) where
  abbrev virt : ℕ
  virt = end_of ((space_of k v).blocks b)

  -- The pages are mapped, or the addresses go back to the space.
  map_block-Outcome :
      (v₀ : Vmm)
      → ((q : ℕ)
          → space_count (space_of k v₀) q
            ≡ space_count (space_of k v) q + in_block q (block virt size))
      → space_of (not k) v ≡ space_of (not k) v₀
      → virt ≢ 0
      → Outcome k v₀ size (map_block v k size b virt)
  unfolding map_block
  map_block-Outcome v₀ took other nz = go (map_pages size 0 virt (flags_for k) v.pmm v.tables) refl
    where
      go :
          (r : Mapping)
          → map_pages size 0 virt (flags_for k) v.pmm v.tables ≡ r
          → Outcome k v₀ size (map_block v k size b virt)
      go (mapped s m) e =
          rw (map_block, e)
            (gives nz (record {
              counts = λ q. rw space_of-stored (
                  took q
                  ∙ ap (λ n. n + in_block q (block virt size))
                      (sym (drop_empty-counts (space_of k v) b q w lo hi)));
              space = rw space_of-stored (drop_empty-IsSpace (space_of k v) b w);
              other = space_of-stored_other k v _ s m ∙ other;
            }))
      go (failed i s m) e =
          let (sp, b', t, counts, sorted) =
            check_upper-give_back (space_of k v) b size w lo hi pos fits in
          rw (map_block, e, t)
            (refuses (record {
              counts = λ q. rw space_of-stored (counts q ∙ sym (took q));
              space = rw space_of-stored sorted;
              other = space_of-stored_other k v _ _ _ ∙ other;
            }))

-- The call, with the slot that `find_fit` gives.
pub alloc_block_found :
    (v : Vmm) (size : ℕ) (k : Bool) (i : ℕ)
    → find_fit (space_of k v).blocks size (space_of k v).last ≡ some i
    → alloc_block v size k ≡ (
        let r =
          check_lower (resize (space_of k v) i (sub32 ((space_of k v).blocks i).len size)) i in
        if end_of (r.0.blocks r.1) == 0
        then some (0, with_space k v r.0)
        else map_block (with_space k v r.0) k size r.1 (end_of (r.0.blocks r.1)))
unfolding alloc_block
alloc_block_found v size k i e = rw (alloc_block, e)

pub alloc_block_none :
    (v : Vmm) (size : ℕ) (k : Bool)
    → find_fit (space_of k v).blocks size (space_of k v).last ≡ none
    → alloc_block v size k ≡ some (0, v)
unfolding alloc_block
alloc_block_none v size k e = rw (alloc_block, e)

taken-Outcome :
    (v : Vmm) (size : ℕ) (k : Bool) (r : Space × ℕ)
    → 1 ≤ size
    → Took (space_of k v) size r
    → Outcome k v size (
        if end_of (r.0.blocks r.1) == 0
        then some (0, with_space k v r.0)
        else map_block (with_space k v r.0) k size r.1 (end_of (r.0.blocks r.1)))
taken-Outcome v size k (sp, b) pos t =
    let nz : end_of (sp.blocks b) ≢ 0 = omega (arith, t.space.ranges b t.first t.final, t.fits) in
    let test : (end_of (sp.blocks b) == 0) ≡ false = ground arith in
    let v' = with_space k v sp in
    let same = space_of-with_space k v sp in
    rw test (
      rw same at (
        map_block-Outcome v' k size b (rw same t.space) t.first (rw same t.final) pos
          (rw same t.fits) v (λ q. rw same (t.counts q)) (space_of-with_space_other k v sp)
          (rw same nz)))

pub alloc_block-Outcome :
    (v : Vmm) (size : ℕ) (k : Bool)
    → IsSpace (space_of k v)
    → 1 ≤ size
    → Outcome k v size (alloc_block v size k)
alloc_block-Outcome v size k w pos =
    elim (Option-cases (find_fit (space_of k v).blocks size (space_of k v).last)) [
      | inl e ↦
          rw (alloc_block_none v size k e)
            (refuses (record { counts = λ q. refl; space = w; other = refl }))
      | inr (i, e) ↦
          let f = find_fit-Fits (space_of k v).blocks size (space_of k v).last i e in
          rw (alloc_block_found v size k i e) (
            taken-Outcome v size k _ pos
              (check_lower-Took (space_of k v) i size w f.first f.final pos f.enough))
    ]
