-- ===== src/Heap/Cells.antt =====
-- The blocks of the heap as a list: what the list in memory must be, which addresses its blocks
-- cover, and which of them are lent to callers.
use r_oses.Prelude.{
  ℕ, ◌+◌, ◌%◌, ◌≤◌, ◌<◌, ◌≡◌, refl, ◌∙◌, arith, List, [], ◌∷◌, Bool, leb, ltb, ◌&&◌, if◌then◌else◌,
}
use r_oses.Heap.{heap_free, heap_used, status_at, next_at, prev_at}

-- A header at `addr`, and the `size` bytes behind it.
pub record Cell : Type 0 where
  pub addr : ℕ
  pub size : ℕ
  pub used : Bool

abbrev pub cell : ℕ → ℕ → Bool → Cell
cell a n u = record { addr = a; size = n; used = u }

abbrev pub status_word : Bool → ℕ
status_word u = if u then heap_used else heap_free

-- 1 at the addresses of a cell, its header included, and 0 elsewhere.
abbrev pub covers : Cell → ℕ → ℕ
covers c a = if leb c.addr a && ltb a (c.addr + 16 + c.size) then 1 else 0

-- 1 at the addresses that a range holds, and 0 elsewhere.
abbrev pub within : (p n a : ℕ) → ℕ
within p n a = if leb p a && ltb a (p + n) then 1 else 0

-- 1 at the addresses that the caller of `kmalloc` may use.
abbrev pub lends : Cell → ℕ → ℕ
lends c a = if c.used then within (c.addr + 16) c.size a else 0

-- How many of the cells cover an address, and how many lend it.
abbrev pub covered : List Cell → ℕ → ℕ
covered [] a = 0
covered (c ∷ cs) a = covers c a + covered cs a

abbrev pub lent : List Cell → ℕ → ℕ
lent [] a = 0
lent (c ∷ cs) a = lends c a + lent cs a

-- The address of the first cell, NULL where there is none.
abbrev pub first : List Cell → ℕ
first [] = 0
first (c ∷ cs) = c.addr

pub record IsHeader (mem : ℕ → ℕ) (before : ℕ) (c : Cell) (behind : ℕ) : Type 0 where
  pub size : mem c.addr ≡ c.size
  pub status : mem (status_at c.addr) ≡ status_word c.used
  pub next : mem (next_at c.addr) ≡ behind
  pub prev : mem (prev_at c.addr) ≡ before

-- The headers of the cells follow one another, and the first is behind `prev`.
abbrev pub Chain : (ℕ → ℕ) → ℕ → List Cell → Type 0
Chain mem prev [] = Unit
Chain mem prev (c ∷ cs) = IsHeader mem prev c (first cs) × Chain mem c.addr cs

-- The same of the cells in front of `next`, the nearest first.
abbrev pub Back : (ℕ → ℕ) → ℕ → List Cell → Type 0
Back mem next [] = Unit
Back mem next (c ∷ cs) = IsHeader mem (first cs) c next × Back mem c.addr cs

-- The cells in front of a place in the list, the nearest first, and the cells behind it.
abbrev pub Zip : (ℕ → ℕ) → (ls rs : List Cell) → Type 0
Zip mem ls rs = Back mem (first rs) ls × Chain mem (first ls) rs

abbrev pub rev_append : List Cell → List Cell → List Cell
rev_append [] rs = rs
rev_append (l ∷ ls) rs = rev_append ls (l ∷ rs)

pub record IsCell (c : Cell) : Type 0 where
  pub above : 0 < c.addr
  pub below : c.addr + 16 + c.size ≤ 4294967296
  pub addr : c.addr % 8 ≡ 0
  pub size : c.size % 8 ≡ 0

abbrev pub AllCells : List Cell → Type 0
AllCells [] = Unit
AllCells (c ∷ cs) = IsCell c × AllCells cs

-- The cells are what the memory holds from `start` on; no two of them overlap.
pub record IsList (mem : ℕ → ℕ) (begin : ℕ) (cs : List Cell) : Type 0 where
  pub start : begin ≡ first cs
  pub chain : Chain mem 0 cs
  pub cells : AllCells cs
  pub apart : (a : ℕ) → covered cs a ≤ 1

-- The memory is as it was at every address that the cells cover.
abbrev pub SameOn : List Cell → (mem mem' : ℕ → ℕ) → Type 0
SameOn cs mem mem' = (a : ℕ) → 1 ≤ covered cs a → mem' a ≡ mem a

abbrev pub SameOff : List Cell → (mem mem' : ℕ → ℕ) → Type 0
SameOff cs mem mem' = (a : ℕ) → covered cs a ≡ 0 → mem' a ≡ mem a

pub covers_header : (c : Cell) (k : ℕ) → k < 16 → covers c (c.addr + k) ≡ 1
covers_header c k h = ground arith

pub covers_start : (c : Cell) → covers c c.addr ≡ 1
covers_start c = ground arith

pub IsHeader-frame :
    (mem mem' : ℕ → ℕ) (p n : ℕ) (c : Cell)
    → ((a : ℕ) → covers c a ≡ 1 → mem' a ≡ mem a)
    → IsHeader mem p c n
    → IsHeader mem' p c n
IsHeader-frame mem mem' p n c same h = record {
  size = same c.addr (covers_start c) ∙ h.size;
  status = same (c.addr + 4) (covers_header c 4 (omega arith)) ∙ h.status;
  next = same (c.addr + 8) (covers_header c 8 (omega arith)) ∙ h.next;
  prev = same (c.addr + 12) (covers_header c 12 (omega arith)) ∙ h.prev;
}

pub Chain-frame :
    (mem mem' : ℕ → ℕ) (p : ℕ) (cs : List Cell)
    → SameOn cs mem mem'
    → Chain mem p cs
    → Chain mem' p cs
Chain-frame mem mem' p [] same _ = tt
Chain-frame mem mem' p (c ∷ cs) same (h, t) = (
  IsHeader-frame mem mem' p (first cs) c (λ a e. same a (omega arith)) h,
  Chain-frame mem mem' c.addr cs (λ a e. same a (omega arith)) t,
)

pub Back-frame :
    (mem mem' : ℕ → ℕ) (n : ℕ) (cs : List Cell)
    → SameOn cs mem mem'
    → Back mem n cs
    → Back mem' n cs
Back-frame mem mem' n [] same _ = tt
Back-frame mem mem' n (c ∷ cs) same (h, t) = (
  IsHeader-frame mem mem' (first cs) n c (λ a e. same a (omega arith)) h,
  Back-frame mem mem' c.addr cs (λ a e. same a (omega arith)) t,
)

-- A place in the list is a list, and a list is its own first place.
pub Chain-rev_append :
    (mem : ℕ → ℕ) (ls rs : List Cell) → Zip mem ls rs → Chain mem 0 (rev_append ls rs)
Chain-rev_append mem [] rs (_, t) = t
Chain-rev_append mem (l ∷ ls) rs ((h, b), t) = Chain-rev_append mem ls (l ∷ rs) (b, (h, t))

pub Chain-Zip : (mem : ℕ → ℕ) (ls rs : List Cell) → Chain mem 0 (rev_append ls rs) → Zip mem ls rs
Chain-Zip mem [] rs t = (tt, t)
Chain-Zip mem (l ∷ ls) rs t = let (b, (h, t')) = Chain-Zip mem ls (l ∷ rs) t in ((h, b), t')

pub covered-rev_append :
    (ls rs : List Cell) (a : ℕ) → covered (rev_append ls rs) a ≡ covered ls a + covered rs a
covered-rev_append [] rs a = omega arith
covered-rev_append (l ∷ ls) rs a = omega (arith, covered-rev_append ls (l ∷ rs) a)

pub lent-rev_append :
    (ls rs : List Cell) (a : ℕ) → lent (rev_append ls rs) a ≡ lent ls a + lent rs a
lent-rev_append [] rs a = omega arith
lent-rev_append (l ∷ ls) rs a = omega (arith, lent-rev_append ls (l ∷ rs) a)

pub AllCells-rev_append :
    (ls rs : List Cell) → AllCells ls → AllCells rs → AllCells (rev_append ls rs)
AllCells-rev_append [] rs _ v = v
AllCells-rev_append (l ∷ ls) rs (c, w) v = AllCells-rev_append ls (l ∷ rs) w (c, v)

pub rev_append-AllCells :
    (ls rs : List Cell) → AllCells (rev_append ls rs) → AllCells ls × AllCells rs
rev_append-AllCells [] rs v = (tt, v)
rev_append-AllCells (l ∷ ls) rs v =
    let (w, (c, v')) = rev_append-AllCells ls (l ∷ rs) v in ((c, w), v')

-- The first cell is the same one if the cells in front of a place stay, or there are none and the
-- first cell behind it stays where it is.
pub first-rev_append :
    (ls rs rs' : List Cell)
    → first rs ≡ first rs'
    → first (rev_append ls rs) ≡ first (rev_append ls rs')
first-rev_append [] rs rs' e = e
first-rev_append (l ∷ ls) rs rs' e = first-rev_append ls (l ∷ rs) (l ∷ rs') refl
