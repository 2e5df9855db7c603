-- ===== src/Heap/SelfTest.antt =====
-- `checksum` and `test_heap` of kernel/arch/i386/heap.c, the kernel's own test of the heap.
use native.Mathlib.Nat.{add-mul, div-add-mod', add-mul-mod_self_right, mul_assoc}
use r_oses.Prelude.{
  ℕ, zero, suc, ◌+◌, ◌-◌, ◌*◌, ◌/◌, ◌%◌, ◌≤◌, ◌<◌, ◌≡◌, refl, sym, ap, ◌∙◌, arith, ◌==◌, ◌||◌, ◌&&◌,
  Bool, false, Option, none, some, ◌>>=◌, if◌then◌else◌, mul32, add32, List, [], ◌∷◌, length,
}
use r_oses.Prelude.Slots.{update}
use r_oses.Vmm.SelfTest.{fill_words}
use r_oses.Heap.{Heap, status_at, next_at, prev_at, kmalloc, kfree}
use r_oses.Heap.Cells.{Cell, first, Chain, AllCells, IsCell, IsHeader, IsList}

-- What one round of the loop of `checksum` makes of the key.
header_key : (ℕ → ℕ) → (key ptr : ℕ) → ℕ
header_key mem key ptr =
    let key = mul32 (mul32 key (mem ptr)) (mem (status_at ptr)) in
    mul32 (mul32 key (add32 (mem (prev_at ptr)) 1)) (add32 (mem (next_at ptr)) 1)

-- The loop of `checksum`; `none` is a list that is longer than the fuel.
pub list_key : (fuel : ℕ) → (ℕ → ℕ) → (key ptr : ℕ) → Option ℕ
list_key zero mem key ptr = none
list_key (suc fuel) mem key ptr =
    let rest = list_key fuel mem (header_key mem key ptr) (mem (next_at ptr)) in
    if ptr == 0 then some key else rest

abbrev pub heap_checksum : (fuel : ℕ) → Heap → Option ℕ
heap_checksum fuel s = list_key fuel s.mem 2983 s.start_header

-- A byte and a half word, written at a place of four bytes.
abbrev put_u8 : (ℕ → ℕ) → (at x : ℕ) → ℕ → ℕ
put_u8 mem at x = update mem at (mem at - mem at % 256 + x)

abbrev put_u16 : (ℕ → ℕ) → (at x : ℕ) → ℕ → ℕ
put_u16 mem at x = update mem at (mem at - mem at % 65536 + x)

-- The four blocks go back in the order of the code.
unfoldable free_four : (fuel : ℕ) → (a b c d : ℕ) → Heap → Option Heap
free_four fuel a b c d s = do
  s₁ ← kfree fuel s b
  s₂ ← kfree fuel s₁ c
  s₃ ← kfree fuel s₂ a
  kfree fuel s₃ d

-- The end of `test_heap`, where `kept` is that the first three words were found again.
abbrev compared : (fuel key : ℕ) → Bool → Heap → Option (Bool × Heap)
compared fuel key kept s =
    let same = heap_checksum fuel s >>= λ key'. some (key' == key, s) in
    if kept then same else some (false, s)

-- The part of `test_heap` behind the calls of `kmalloc`, with the checksum from before them.
unfoldable use_four : (fuel key : ℕ) → (a b c d : ℕ) → Heap → Option (Bool × Heap)
use_four fuel key a b c d s = do
  let mem = put_u16 (put_u8 (update s.mem a 0xABCDEFAB) b 0xBC) c 0xCDEF
  let (d_kept, mem) = fill_words 128 0 key d mem
  let kept = (mem a == 0xABCDEFAB) && (mem b % 256 == 0xBC) && (mem c % 65536 == 0xCDEF)
  let rest = free_four fuel a b c d (record s { mem = mem }) >>= compared fuel key kept
  if d_kept then rest else some (false, record s { mem = mem })

unfoldable test_heap : (fuel : ℕ) → Heap → Option (Bool × Heap)
test_heap fuel s = do
  key ← heap_checksum fuel s
  (a, s₁) ← kmalloc fuel s 32
  (b, s₂) ← kmalloc fuel s₁ 8
  (c, s₃) ← kmalloc fuel s₂ 16
  (d, s₄) ← kmalloc fuel s₃ 4096
  let rest = use_four fuel key a b c d s₄
  if a == 0 || b == 0 || c == 0 || d == 0 then some (false, s₄) else rest

-- A key that is a multiple of `n` as a word.
abbrev IsMultiple : ℕ → ℕ → Type 0
IsMultiple n key = (m : ℕ) × (key ≡ n * m % 4294967296)

ring_split : (a b : ℕ) → a * b ≡ a % 4294967296 * b + a / 4294967296 * b * 4294967296
ring_split a b =
    let e : a / 4294967296 * 4294967296 + a % 4294967296 ≡ a = div-add-mod' a 4294967296 in
    ap (λ x. x * b) (sym e) ∙ add-mul (a / 4294967296 * 4294967296) (a % 4294967296) b ∙ grind arith

mul-mod : (a b : ℕ) → a % 4294967296 * b % 4294967296 ≡ a * b % 4294967296
mul-mod a b =
    let e : a * b ≡ a % 4294967296 * b + a / 4294967296 * b * 4294967296 = ring_split a b in
    sym (
      ap (λ x. x % 4294967296) e
      ∙ add-mul-mod_self_right (a % 4294967296 * b) (a / 4294967296 * b) 4294967296)

mul32-IsMultiple : (n key x : ℕ) → IsMultiple n key → IsMultiple n (mul32 key x)
mul32-IsMultiple n key x (m, e) = (m * x, rw e (mul-mod (n * m) x ∙ rw (mul_assoc n m x) refl))

-- A size that is a multiple of 8 makes it one of eight times that.
mul32-IsMultiple_size : (n key q : ℕ) → IsMultiple n key → IsMultiple (8 * n) (mul32 key (8 * q))
mul32-IsMultiple_size n key q (m, e) =
    (m * q, rw e (mul-mod (n * m) (8 * q) ∙ ap (λ x. x % 4294967296) (grind arith)))

header_key-IsMultiple :
    (mem : ℕ → ℕ) (n key ptr : ℕ) → IsMultiple n key → IsMultiple n (header_key mem key ptr)
unfolding header_key
header_key-IsMultiple mem n key ptr h =
    mul32-IsMultiple n _ _
      (mul32-IsMultiple n _ _ (mul32-IsMultiple n _ _ (mul32-IsMultiple n key _ h)))

header_key-IsMultiple_size :
    (mem : ℕ → ℕ) (n key p next : ℕ) (c : Cell)
    → IsHeader mem p c next
    → IsCell c
    → IsMultiple n key
    → IsMultiple (8 * n) (header_key mem key c.addr)
unfolding header_key
header_key-IsMultiple_size mem n key p next c h w m =
    let e : mem c.addr ≡ 8 * (c.size / 8) = h.size ∙ omega (arith, w.size) in
    mul32-IsMultiple (8 * n) _ _ (
      mul32-IsMultiple (8 * n) _ _
        (mul32-IsMultiple (8 * n) _ _ (rw e (mul32-IsMultiple_size n key (c.size / 8) m))))

-- `n` times 8 to the power of `k`.
abbrev eights : (k n : ℕ) → ℕ
eights zero n = n
eights (suc k) n = eights k (8 * n)

list_key-header :
    (fuel : ℕ) (mem : ℕ → ℕ) (key p next : ℕ) (c : Cell)
    → IsHeader mem p c next
    → IsCell c
    → list_key (suc fuel) mem key c.addr ≡ list_key fuel mem (header_key mem key c.addr) next
unfolding list_key
list_key-header fuel mem key p next c h w =
    let nz : (c.addr == 0) ≡ false = ground (arith, w.above) in rw (nz, h.next) refl

list_key-IsMultiple :
    (fuel : ℕ) (mem : ℕ → ℕ) (key p k n : ℕ) (cs : List Cell)
    → length cs < fuel
    → k ≤ length cs
    → Chain mem p cs
    → AllCells cs
    → IsMultiple n key
    → (r : ℕ) × (list_key fuel mem key (first cs) ≡ some r) × IsMultiple (eights k n) r
unfolding list_key
list_key-IsMultiple zero mem key p k n cs f l h w m = absurd (omega arith)
list_key-IsMultiple (suc fuel) mem key p zero n [] f l h w m = (key, refl, m)
list_key-IsMultiple (suc fuel) mem key p (suc k) n [] f l h w m = absurd (omega arith)
list_key-IsMultiple (suc fuel) mem key p zero n (c ∷ cs) f l (h, t) (w, ws) m =
    let (r, e, m') =
      list_key-IsMultiple fuel mem (header_key mem key c.addr) c.addr 0 n cs (omega arith)
        (omega arith) t ws (header_key-IsMultiple mem n key c.addr m) in
    (r, list_key-header fuel mem key p (first cs) c h w ∙ e, m')
list_key-IsMultiple (suc fuel) mem key p (suc k) n (c ∷ cs) f l (h, t) (w, ws) m =
    let (r, e, m') =
      list_key-IsMultiple fuel mem (header_key mem key c.addr) c.addr k (8 * n) cs (omega arith)
        (omega arith) t ws (header_key-IsMultiple_size mem n key p (first cs) c h w m) in
    (r, list_key-header fuel mem key p (first cs) c h w ∙ e, m')

-- For a list of eleven blocks or more in memory, and fuel for more than those, the checksum that
-- test_heap compares is 0, whatever their headers hold.
pub heap_checksum-zero :
    (fuel : ℕ) (s : Heap) (cs : List Cell)
    → IsList s.mem s.start_header cs
    → 11 ≤ length cs
    → length cs < fuel
    → heap_checksum fuel s ≡ some 0
heap_checksum-zero fuel s cs list many f =
    let (r, e, (m, z)) =
      list_key-IsMultiple fuel s.mem 2983 0 11 1 cs f many list.chain list.cells (2983, refl) in
    ap (list_key fuel s.mem 2983) list.start ∙ e ∙ ap some (z ∙ omega arith)
