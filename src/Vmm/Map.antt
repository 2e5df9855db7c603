-- ===== src/Vmm/Map.antt =====
-- The loop that maps the pages of a block.
use r_oses.Prelude.{
  ℕ, zero, suc, ◌+◌, ◌*◌, ◌/◌, ◌≤◌, ◌<◌, ◌≡◌, ◌≢◌, ◌⊎◌, inl, inr, ◌∙◌, sym, arith, ◌==◌, refl, ap,
  Bool-cases, ℕ_discrete, true,
}
use r_oses.Pmm.{Pmm, alloc_page, free_page}
use r_oses.Pmm.Pages.{IsValid}
use r_oses.Pmm.Alloc.{alloc_page-Taken, alloc_page_none, alloc_page-above_first}
use r_oses.Paging.{Tables, get_physaddr, map_page}
use r_oses.Paging.Lookup.{window, get_physaddr-map_page, pmm-map_page}
use r_oses.Vmm.{page_at, mapped, failed, map_pages}

-- A valid allocator that does not hold the page at address 0.
pub record IsStock (s : Pmm) : Type 0 where
  pub valid : IsValid s
  pub above_first : (j : ℕ) → 1 ≤ j → j ≤ s.last → 4096 ≤ (s.blocks j).addr

-- The pages from number `i` on have a translation, and every other address below the window has the
-- one it had.
pub record Mapped (n i virt : ℕ) (m m' : Tables) : Type 0 where
  pub inside : (j : ℕ) → i ≤ j → j < i + n → get_physaddr m' (virt + 4096 * j) ≢ 0
  pub outside :
      (q : ℕ)
      → q < window
      → (q / 4096 < virt / 4096 + i) ⊎ (virt / 4096 + (i + n) ≤ q / 4096)
      → get_physaddr m' q ≡ get_physaddr m q

-- A page that is not NULL comes from such an allocator, and leaves one.
alloc_page-IsStock :
    (s : Pmm)
    → IsStock s
    → (alloc_page s).0 ≢ 0
    → IsStock (alloc_page s).1 × (4096 ≤ (alloc_page s).0) × ((alloc_page s).0 < 4294967296)
alloc_page-IsStock s w nz = elim (ℕ_discrete s.last 0) [
  | yes e ↦ absurd (nz (ap (λ r. r.0) (alloc_page_none s e)))
  | no ne ↦
      let t = alloc_page-Taken s w.valid (omega arith) in
      let (p, b) = alloc_page-above_first s w.valid (omega arith) w.above_first in
      (record { valid = t.valid; above_first = b }, p, omega (arith, t.page))
]

map_page-IsStock :
    (s : Pmm) (m : Tables) (phys va flags : ℕ)
    → IsStock s
    → (map_page s m phys va flags).0 ≡ true
    → IsStock (map_page s m phys va flags).1
map_page-IsStock s m phys va flags w ok = elim (pmm-map_page s m phys va flags ok) [
  | inl e ↦ rw e w
  | inr (nz, e) ↦ rw e (alloc_page-IsStock s w nz).0
]

map_page-Mapped :
    (s : Pmm) (n i virt flags phys : ℕ) (m m' : Tables)
    → virt + 4096 * (i + suc n) ≤ window
    → 4096 ≤ phys
    → phys < 4294967296
    → (map_page s m phys (virt + 4096 * i) flags).0 ≡ true
    → Mapped n (suc i) virt (map_page s m phys (virt + 4096 * i) flags).2 m'
    → Mapped (suc n) i virt m m'
map_page-Mapped s n i virt flags phys m m' fits lo hi ok r =
    let look = λ (q : ℕ) (lq : q < window).
      get_physaddr-map_page s m phys (virt + 4096 * i) flags (omega arith) q hi (omega arith) lq
        ok in
    record {
      inside = λ j a b. elim (ℕ_discrete j i) [
        | yes here ↦ ground (
          arith,
          r.outside (virt + 4096 * i) (omega arith) (inl (omega arith)),
          look (virt + 4096 * i) (omega arith),
        )
        | no later ↦ r.inside j (omega arith) (omega arith)
      ];
      outside = λ q lq far. ground (arith, r.outside q lq (ground arith), look q lq);
    }

-- One round, by what `alloc_page` and `map_page` return.
map_pages_step :
    (rounds i virt flags : ℕ) (s s' : Pmm) (m m' : Tables)
    → map_pages (suc rounds) i virt flags s m ≡ mapped s' m'
    → ((alloc_page s).0 ≢ 0)
      × ((map_page (alloc_page s).1 m (alloc_page s).0 (page_at virt i) flags).0 ≡ true)
      × (map_pages rounds
            (suc i)
            virt
            flags
            (map_page (alloc_page s).1 m (alloc_page s).0 (page_at virt i) flags).1
            (map_page (alloc_page s).1 m (alloc_page s).0 (page_at virt i) flags).2
          ≡ mapped s' m')
unfolding map_pages
map_pages_step rounds i virt flags s s' m m' e =
    let x = map_page (alloc_page s).1 m (alloc_page s).0 (page_at virt i) flags in
    elim (Bool-cases ((alloc_page s).0 == 0)) [
      | inl t ↦
          let no : map_pages (suc rounds) i virt flags s m ≡ failed i (alloc_page s).1 m =
            rw (map_pages, t) refl in
          absurd cc
      | inr t ↦ elim (Bool-cases x.0) [
        | inl u ↦
            let step : map_pages (suc rounds) i virt flags s m
                ≡ map_pages rounds (suc i) virt flags x.1 x.2 =
              rw (map_pages, t, u) refl in
            (ground arith, u, sym step ∙ e)
        | inr u ↦
            let no : map_pages (suc rounds) i virt flags s m
                ≡ failed i (free_page x.1 (alloc_page s).0) x.2 =
              rw (map_pages, t, u) refl in
            absurd cc
      ]
    ]

pub map_pages-Mapped :
    (n i virt flags : ℕ) (s s' : Pmm) (m m' : Tables)
    → IsStock s
    → virt + 4096 * (i + n) ≤ window
    → map_pages n i virt flags s m ≡ mapped s' m'
    → Mapped n i virt m m'
unfolding map_pages
map_pages-Mapped zero i virt flags s s' m m' w fits e =
    let same : m ≡ m' = cc in
    rw (← same) (record { inside = λ j a b. absurd (omega arith); outside = λ q lq far. refl })
map_pages-Mapped (suc n) i virt flags s s' m m' w fits e =
    let at : page_at virt i ≡ virt + 4096 * i = omega arith in
    let (nz, ok, run) = map_pages_step n i virt flags s s' m m' e in
    let (w₁, lo, hi) = alloc_page-IsStock s w nz in
    let r =
      map_pages-Mapped n (suc i) virt flags _ s' _ m'
        (map_page-IsStock (alloc_page s).1 m (alloc_page s).0 (page_at virt i) flags w₁ ok)
        (omega arith) run in
    map_page-Mapped (alloc_page s).1 n i virt flags (alloc_page s).0 m m' fits lo hi (rw at at ok)
      (rw at at r)
