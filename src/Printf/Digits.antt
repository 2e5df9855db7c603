-- ===== src/Printf/Digits.antt =====
-- The digits that libc/stdio/printf.c writes into a buffer, and their order.
use r_oses.Prelude.{
  ℕ, zero, suc, ◌+◌, ◌-◌, ◌*◌, ◌%◌, ◌/◌, ◌≤◌, ◌<◌, ◌≡◌, ◌⊎◌, false, ◌∙◌, sym, ap, arith, refl, some,
  List, [], ◌∷◌, ◌++◌, length, ltb, leb, ◌==◌, ◌&&◌, Bool-cases, inl, inr,
}
use r_oses.Prelude.Slots.{update}
use r_oses.Printf.{digits, exchange, reverse_loop, slice, numeral}

-- Reading a numeral from left to right.
abbrev pub read_from : (base : ℕ) → (ℕ → ℕ) → ℕ → List ℕ → ℕ
read_from base value_of acc [] = acc
read_from base value_of acc (c ∷ cs) = read_from base value_of (acc * base + value_of c) cs

-- The value of the `n` digits in a buffer from `pos` on, the lowest first.
little : (base : ℕ) → (ℕ → ℕ) → (ℕ → ℕ) → (pos n : ℕ) → ℕ
little base value_of buffer pos zero = 0
little base value_of buffer pos (suc n) =
    value_of (buffer pos) + little base value_of buffer (suc pos) n * base

abbrev limit : ℕ → ℕ → ℕ
limit base zero = 1
limit base (suc n) = base * limit base n

-- Outside the part that is reversed nothing moves.
reverse_loop_outside :
    (j i : ℕ) (buffer : ℕ → ℕ) (k : ℕ)
    → (leb i k && ltb k j) ≡ false
    → reverse_loop i j buffer k ≡ buffer k
unfolding reverse_loop
reverse_loop_outside zero i buffer k h = refl
reverse_loop_outside (suc j) i buffer k h = elim (Bool-cases (ltb i j)) [
  | inl t ↦
      let e : exchange buffer i j k ≡ buffer k = ground arith in
      rw t (reverse_loop_outside j (suc i) (exchange buffer i j) k (ground arith) ∙ e)
  | inr t ↦ rw t refl
]

-- Place `k` gets what stood as far from the other end.
reverse_loop_inside :
    (j i : ℕ) (buffer : ℕ → ℕ) (k m : ℕ)
    → i ≤ k
    → k < j
    → m + k + 1 ≡ i + j
    → reverse_loop i j buffer k ≡ buffer m
unfolding reverse_loop
reverse_loop_inside zero i buffer k m lo hi e = absurd (omega arith)
reverse_loop_inside (suc j) i buffer k m lo hi e = elim (Bool-cases (ltb i j)) [
  | inl t ↦ rw t (elim (Bool-cases (leb (suc i) k && ltb k j)) [
    | inl u ↦
        let same : exchange buffer i j m ≡ buffer m = ground arith in
        reverse_loop_inside j (suc i) (exchange buffer i j) k m (ground arith) (ground arith)
          (omega arith)
        ∙ same
    | inr u ↦ reverse_loop_outside j (suc i) (exchange buffer i j) k u ∙ ends (ground arith)
  ])
  | inr t ↦ let at : k ≡ m = ground arith in rw t (ap buffer at)
]
  where
    ends : (k ≡ i) ⊎ (k ≡ j) → exchange buffer i j k ≡ buffer m
    ends (inl a) = let b : j ≡ m = omega arith in ground arith
    ends (inr a) = let b : i ≡ m = omega arith in ground arith

slice-snoc : (f : ℕ → ℕ) (i n : ℕ) → slice f i (suc n) ≡ slice f i n ++ (f (i + n) ∷ [])
unfolding slice
slice-snoc f i zero = let e : i ≡ i + 0 = omega arith in ap (λ j. f j ∷ []) e
slice-snoc f i (suc n) =
    let e : suc i + n ≡ i + suc n = omega arith in
    ap (λ xs. f i ∷ xs) (slice-snoc f (suc i) n ∙ ap (λ j. slice f (suc i) n ++ (f j ∷ [])) e)

pub length-slice : (f : ℕ → ℕ) (i n : ℕ) → length (slice f i n) ≡ n
unfolding slice
length-slice f i zero = refl
length-slice f i (suc n) = ap suc (length-slice f (suc i) n)

update-same : (f : ℕ → ℕ) (i v : ℕ) → update f i v i ≡ v
update-same f i v = ground arith

update-below : (f : ℕ → ℕ) (i j v : ℕ) → j < i → update f i v j ≡ f j
update-below f i j v h = ground arith

numeral-some :
    (size base : ℕ) (digit buffer : ℕ → ℕ) (start v room pos : ℕ) (buffer' : ℕ → ℕ)
    → size - start ≡ room
    → digits room base digit buffer start v ≡ some (buffer', pos)
    → numeral size base digit buffer start v ≡ some (slice (reverse_loop start pos buffer') 0 pos)
unfolding numeral
numeral-some size base digit buffer start v room pos buffer' r e = rw (numeral, r, e)

module _ (base : ℕ) (value_of : ℕ → ℕ) where
  some_room : (rounds v : ℕ) → v < limit base rounds → (v == 0) ≡ false → 1 ≤ rounds
  some_room zero v h t = ground arith
  some_room (suc rounds) v h t = omega arith

  read_from-snoc :
      (acc : ℕ) (xs : List ℕ) (c : ℕ)
      → read_from base value_of acc (xs ++ (c ∷ []))
        ≡ read_from base value_of acc xs * base + value_of c
  read_from-snoc acc [] c = refl
  read_from-snoc acc (x ∷ xs) c = read_from-snoc (acc * base + value_of x) xs c

  -- The digits in reverse, read from left to right.
  read_from-little :
      (n a b : ℕ) (f buffer : ℕ → ℕ)
      → ((k m : ℕ) → k < n → m + k + 1 ≡ n → f (a + k) ≡ buffer (b + m))
      → read_from base value_of 0 (slice f a n) ≡ little base value_of buffer b n
  unfolding slice little
  read_from-little zero a b f buffer h = refl
  read_from-little (suc n) a b f buffer h =
      let last : f (a + n) ≡ buffer b =
        h n 0 (omega arith) (omega arith) ∙ ap buffer (omega arith) in
      let rest =
        read_from-little n a (suc b) f buffer
          (λ k m lt e. h k (suc m) (omega arith) (omega arith) ∙ ap buffer (omega arith)) in
      ap (read_from base value_of 0) (slice-snoc f a n)
      ∙ read_from-snoc 0 (slice f a n) (f (a + n))
      ∙ (rw (rest, last) (omega arith))

  module _ (digit : ℕ → ℕ) (value_of-digit : (v : ℕ) → value_of (digit (v % base)) ≡ v % base)
      (split : (v : ℕ) → v % base + v / base * base ≡ v)
      (smaller : (v l : ℕ) → v < base * l → v / base < l) where
    -- With enough room the loop ends, and what it wrote has the value.
    digits-little :
        (rounds : ℕ) (buffer : ℕ → ℕ) (pos v : ℕ)
        → v < limit base rounds
        → 1 ≤ rounds
        → (buffer' : ℕ → ℕ) × (n : ℕ) × (digits rounds base digit buffer pos v
            ≡ some (buffer', pos + n))
          × (1 ≤ n)
          × (n ≤ rounds)
          × (little base value_of buffer' pos n ≡ v)
          × ((j : ℕ) → j < pos → buffer' j ≡ buffer j)
    unfolding digits little
    digits-little zero buffer pos v small one = absurd (omega arith)
    digits-little (suc rounds) buffer pos v small one = elim (Bool-cases (v / base == 0)) [
      | inl t ↦
          let z : v / base ≡ 0 = ground arith in
          let e : suc pos ≡ pos + 1 = omega arith in
          let first : update buffer pos (digit (v % base)) pos ≡ digit (v % base) = ground arith in
          rw t (
            update buffer pos (digit (v % base)),
            1,
            ap (λ p. some (update buffer pos (digit (v % base)), p)) e,
            omega arith,
            omega arith,
            rw (first, value_of-digit v) (ap (λ q. v % base + q * base) (sym z) ∙ split v),
            λ j lt. ground arith,
          )
      | inr t ↦
          let below = smaller v (limit base rounds) small in
          let written = update buffer pos (digit (v % base)) in
          let (buffer', n, e, lo, hi, value, keep) =
            digits-little rounds written (suc pos) (v / base) below
              (some_room rounds (v / base) below t) in
          let p : suc pos + n ≡ pos + suc n = omega arith in
          let first : buffer' pos ≡ digit (v % base) =
            keep pos (omega arith) ∙ update-same buffer pos (digit (v % base)) in
          rw t (
            buffer',
            suc n,
            e ∙ ap (λ k. some (buffer', k)) p,
            omega arith,
            omega arith,
            rw (first, value_of-digit v, value) (split v),
            λ j lt. keep j (omega arith) ∙ update-below buffer pos j (digit (v % base)) lt,
          )
    ]

    -- A numeral from `start` on, behind whatever the buffer holds in front.
    pub numeral-value :
        (size room start v : ℕ) (buffer : ℕ → ℕ)
        → size - start ≡ room
        → v < limit base room
        → 1 ≤ room
        → (f : ℕ → ℕ) × (n : ℕ) × (numeral size base digit buffer start v
            ≡ some (slice f 0 (start + n)))
          × (1 ≤ n)
          × (n ≤ room)
          × (read_from base value_of 0 (slice f start n) ≡ v)
          × ((j : ℕ) → j < start → f j ≡ buffer j)
    numeral-value size room start v buffer r small one =
        let (buffer', n, e, lo, hi, value, keep) = digits-little room buffer start v small one in
        (
          reverse_loop start (start + n) buffer',
          n,
          numeral-some size base digit buffer start v room (start + n) buffer' r e,
          lo,
          hi,
          read_from-little n start start (reverse_loop start (start + n) buffer') buffer'
                (λ k m lt s.
                  reverse_loop_inside (start + n) start buffer' (start + k) (start + m)
                    (omega arith) (omega arith) (omega arith))
              ∙ value,
          λ j lt. reverse_loop_outside (start + n) start buffer' j (ground arith) ∙ keep j lt,
        )
