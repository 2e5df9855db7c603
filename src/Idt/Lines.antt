-- ===== src/Idt/Lines.antt =====
-- Which interrupts `idt_init` lets through.
use r_oses.Prelude.{ℕ, zero, suc, ◌≡◌, ◌∙◌, refl}
use r_oses.Isr.{Machine, pic_remap, irq_set_mask, pic1_data, pic2_data}
use r_oses.Isr.Masks.{IsPic, first_data, second_data, Agrees, set_bit}
use r_oses.Isr.Lines.{pic_remap-Agrees, irq_set_mask-Agrees, irq_clear_mask-Agrees, pit_init-Agrees}
use r_oses.Idt.{Idt, mask_lines, idt_init}

set_bits : (rounds i : ℕ) → ℕ × ℕ → ℕ × ℕ
set_bits zero i m = m
set_bits (suc rounds) i m = set_bits rounds (suc i) (set_bit m i)

all_bits : set_bits 16 0 (0, 0) ≡ (0xFF, 0xFF)
unfolding set_bits
all_bits = refl

module _ {S : Type 0} (io : Machine S) (pic : IsPic io) where
  mask_lines-Agrees :
      (rounds i : ℕ) (s : S) (m : ℕ × ℕ)
      → Agrees io pic s m
      → Agrees io pic (mask_lines io rounds i s) (set_bits rounds i m)
  unfolding mask_lines set_bits
  mask_lines-Agrees zero i s m w = w
  mask_lines-Agrees (suc rounds) i s m w =
      mask_lines-Agrees rounds (suc i) (irq_set_mask io s i) (set_bit m i)
        (irq_set_mask-Agrees io pic s m.0 m.1 i w)

  -- On a machine whose two interrupt controllers do at their ports what the 8259 promises,
  -- idt_init leaves the lines of the timer and of the keyboard unmasked and all others masked,
  -- whatever the controllers did before.
  pub idt_init-Agrees :
      (isr_stub_table : ℕ → ℕ) (idt_addr : ℕ) (s : S) (t : Idt)
      → Agrees io pic (idt_init io isr_stub_table idt_addr s t).0 (0xFC, 0xFF)
  unfolding idt_init
  idt_init-Agrees isr_stub_table idt_addr s t =
      let w = pic_remap-Agrees io pic (io.cli s) 0x20 0x28 in
      let w = mask_lines-Agrees 16 0 (pic_remap io (io.cli s) 0x20 0x28) (0, 0) w in
      let w : Agrees io pic (mask_lines io 16 0 (pic_remap io (io.cli s) 0x20 0x28)) (0xFF, 0xFF) =
        rw all_bits at w in
      let w = irq_clear_mask-Agrees io pic _ 0xFF 0xFF 0 w in
      let w = irq_clear_mask-Agrees io pic _ 0xFE 0xFF 1 w in
      let w = pit_init-Agrees io pic _ (0xFC, 0xFF) w in
      record {
        first =
            pic.sti_mask _ pic1_data first_data
            ∙ pic.lidt_mask _ _ _ pic1_data first_data
            ∙ w.first;
        second =
            pic.sti_mask _ pic2_data second_data
            ∙ pic.lidt_mask _ _ _ pic2_data second_data
            ∙ w.second;
        first_waits =
            pic.sti_awaits _ pic1_data first_data
            ∙ pic.lidt_awaits _ _ _ pic1_data first_data
            ∙ w.first_waits;
        second_waits =
            pic.sti_awaits _ pic2_data second_data
            ∙ pic.lidt_awaits _ _ _ pic2_data second_data
            ∙ w.second_waits;
      }
