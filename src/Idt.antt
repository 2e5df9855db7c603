-- ===== src/Idt.antt =====
-- kernel/arch/i386/idt.c and kernel/include/kernel/idt.h: the table of interrupt handlers.
pub mod Table
pub mod Lines
mod Tests
use r_oses.Prelude.{ℕ, zero, suc, ◌+◌, ◌-◌, ◌*◌, Bool, true, bit_and, u16, ◌>>>◌}
use r_oses.Prelude.Slots.{update}
use r_oses.Isr.{Machine, pic_remap, irq_set_mask, irq_clear_mask, pit_init}

-- `idt_entry_t`.
pub record IdtEntry : Type 0 where
  pub offset_low : ℕ
  pub kernel_cs : ℕ
  pub reserved : ℕ
  pub flags : ℕ
  pub offset_high : ℕ

-- `sizeof(idt_entry_t)`.
abbrev pub entry_size : ℕ
entry_size = 8

pub idt_set_descriptor : (ℕ → IdtEntry) → (vector isr flags : ℕ) → ℕ → IdtEntry
idt_set_descriptor idt vector isr flags = update idt vector (record {
  offset_low = bit_and isr 0xFFFF;
  kernel_cs = 0x08;
  reserved = 0;
  flags = flags;
  offset_high = u16 (isr >>> 16);
})

-- The table, the register and the vectors that are set.
pub record Idt : Type 0 where
  pub idt : ℕ → IdtEntry
  pub vectors : ℕ → Bool
  pub base : ℕ
  pub limit : ℕ

-- The loop over the vectors, with the addresses of the handlers, which the assembler places.
pub set_vectors : (ℕ → ℕ) → (rounds vector : ℕ) → Idt → Idt
set_vectors isr_stub_table zero vector t = t
set_vectors isr_stub_table (suc rounds) vector t =
    set_vectors isr_stub_table rounds (suc vector) (record t {
      idt = idt_set_descriptor t.idt vector (isr_stub_table vector) 0x8E;
      vectors = update t.vectors vector true;
    })

module _ {S : Type 0} (io : Machine S) where
  -- The loop that masks the lines from `i` on.
  pub mask_lines : (rounds i : ℕ) → S → S
  mask_lines zero i s = s
  mask_lines (suc rounds) i s = mask_lines rounds (suc i) (irq_set_mask io s i)

  -- `idt_addr` is the address of the table.
  pub idt_init : (ℕ → ℕ) → (idt_addr : ℕ) → S → Idt → S × Idt
  idt_init isr_stub_table idt_addr s t =
      let s = pic_remap io (io.cli s) 0x20 0x28 in
      let s = irq_clear_mask io (irq_clear_mask io (mask_lines 16 0 s) 0) 1 in
      let s = pit_init io s in
      let t = record t { base = idt_addr; limit = u16 (entry_size * 256 - 1) } in
      let t = set_vectors isr_stub_table 34 0 t in (io.sti (io.lidt s t.limit t.base), t)
