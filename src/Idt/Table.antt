-- ===== src/Idt/Table.antt =====
-- The table that `idt_init` fills.
use r_oses.Prelude.{
  ℕ, zero, suc, ◌+◌, ◌*◌, ◌≤◌, ◌<◌, ◌≡◌, ◌≢◌, ◌∙◌, arith, refl, true, ℕ_discrete, ◌⊎◌, inl, inr,
}
use r_oses.Prelude.Bits.{bit_and-ones}
use r_oses.Prelude.Slots.{update}
use r_oses.Isr.{Machine}
use r_oses.Idt.{Idt, IdtEntry, idt_set_descriptor, set_vectors, idt_init}

-- An interrupt gate of the kernel's code segment, present, at the address of the handler.
pub record IsGate (isr : ℕ) (e : IdtEntry) : Type 0 where
  pub low : e.offset_low < 65536
  pub high : e.offset_high < 65536
  pub offset : e.offset_low + 65536 * e.offset_high ≡ isr
  pub kernel_cs : e.kernel_cs ≡ 8
  pub reserved : e.reserved ≡ 0
  pub flags : e.flags ≡ 0x8E

set_descriptor-IsGate :
    (idt : ℕ → IdtEntry) (vector isr : ℕ)
    → isr < 4294967296
    → IsGate isr (idt_set_descriptor idt vector isr 0x8E vector)
unfolding idt_set_descriptor
set_descriptor-IsGate idt vector isr h = ground (arith, bit_and-ones 16 isr (omega arith))

set_descriptor-other :
    (idt : ℕ → IdtEntry) (vector isr flags j : ℕ)
    → j ≢ vector
    → idt_set_descriptor idt vector isr flags j ≡ idt j
unfolding idt_set_descriptor
set_descriptor-other idt vector isr flags j ne = ground arith

-- Outside its rounds the loop writes nothing.
set_vectors-other :
    (stubs : ℕ → ℕ) (rounds vector : ℕ) (t : Idt) (j : ℕ)
    → (j < vector) ⊎ (vector + rounds ≤ j)
    → ((set_vectors stubs rounds vector t).idt j ≡ t.idt j)
      × ((set_vectors stubs rounds vector t).vectors j ≡ t.vectors j)
unfolding set_vectors
set_vectors-other stubs zero vector t j h = (refl, refl)
set_vectors-other stubs (suc rounds) vector t j h =
    let ne : j ≢ vector = ground arith in
    let (a, b) =
      set_vectors-other stubs rounds (suc vector)
        (record t {
          idt = idt_set_descriptor t.idt vector (stubs vector) 0x8E;
          vectors = update t.vectors vector true;
        })
        j (ground arith) in
    (a ∙ set_descriptor-other t.idt vector (stubs vector) 0x8E j ne, b ∙ ground arith)

set_vectors-IsGate :
    (stubs : ℕ → ℕ) (rounds vector : ℕ) (t : Idt) (j : ℕ)
    → ((i : ℕ) → stubs i < 4294967296)
    → vector ≤ j
    → j < vector + rounds
    → IsGate (stubs j) ((set_vectors stubs rounds vector t).idt j)
      × ((set_vectors stubs rounds vector t).vectors j ≡ true)
unfolding set_vectors
set_vectors-IsGate stubs zero vector t j w lo hi = absurd (omega arith)
set_vectors-IsGate stubs (suc rounds) vector t j w lo hi =
    let t' : Idt = record t {
      idt = idt_set_descriptor t.idt vector (stubs vector) 0x8E;
      vectors = update t.vectors vector true;
    } in
    elim (ℕ_discrete j vector) [
      | yes here ↦
          let (a, b) = set_vectors-other stubs rounds (suc vector) t' j (inl (omega arith)) in
          rw (a, b, here)
            (set_descriptor-IsGate t.idt vector (stubs vector) (w vector), ground arith)
      | no later ↦ set_vectors-IsGate stubs rounds (suc vector) t' j w (omega arith) (omega arith)
    ]

-- The table of `idt_init`.
pub record Filled (stubs : ℕ → ℕ) (idt_addr : ℕ) (t t' : Idt) : Type 0 where
  pub gates : (j : ℕ) → j < 34 → IsGate (stubs j) (t'.idt j)
  pub vectors : (j : ℕ) → j < 34 → t'.vectors j ≡ true
  pub others : (j : ℕ) → 34 ≤ j → t'.idt j ≡ t.idt j
  pub base : t'.base ≡ idt_addr
  pub limit : t'.limit ≡ 2047

base-set_vectors :
    (stubs : ℕ → ℕ) (rounds vector : ℕ) (t : Idt)
    → ((set_vectors stubs rounds vector t).base ≡ t.base)
      × ((set_vectors stubs rounds vector t).limit ≡ t.limit)
unfolding set_vectors
base-set_vectors stubs zero vector t = (refl, refl)
base-set_vectors stubs (suc rounds) vector t = base-set_vectors stubs rounds (suc vector) _

-- For handlers at 32-bit addresses, idt_init makes the first 34 vectors interrupt gates to their
-- handlers, leaves the others as they are, and sets the register to the table.
pub idt_init-Filled :
    {S : Type 0} (io : Machine S) (stubs : ℕ → ℕ) (idt_addr : ℕ) (s : S) (t : Idt)
    → ((i : ℕ) → stubs i < 4294967296)
    → Filled stubs idt_addr t (idt_init io stubs idt_addr s t).1
unfolding idt_init
idt_init-Filled io stubs idt_addr s t w =
    let t' : Idt = record t { base = idt_addr; limit = 2047 } in
    let (b, l) = base-set_vectors stubs 34 0 t' in
    record {
      gates = λ j lt. (set_vectors-IsGate stubs 34 0 t' j w (omega arith) (omega arith)).0;
      vectors = λ j lt. (set_vectors-IsGate stubs 34 0 t' j w (omega arith) (omega arith)).1;
      others = λ j ge. (set_vectors-other stubs 34 0 t' j (inr (omega arith))).0;
      base = b;
      limit = l;
    }
