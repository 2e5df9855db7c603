-- ===== src/Isr/Lines.antt =====
-- What the calls of kernel/arch/i386/isr.c leave in the masks.
use r_oses.Prelude.{ℕ, ◌≢◌, ◌∙◌, arith, ltb, Bool-cases, inl, inr}
use r_oses.Isr.{
  Machine, icw1, pic1_command, pic2_command, pic1_data, pic2_data, io_wait, pic_remap, irq_set_mask,
  irq_clear_mask, pit_set_count, pit_init,
}
use r_oses.Isr.Masks.{
  IsPic, first_data, second_data, Waits, Agrees, Waits-elsewhere, Waits-first_word,
  Waits-second_word, Agrees-first, Agrees-second, set_bit, clear_bit,
}

module _ {S : Type 0} (io : Machine S) (pic : IsPic io) where
  -- The two writes that start the initialisation of both controllers.
  start-Waits :
      (s : S)
      → Waits io pic
          (io_wait io (io.outb (io_wait io (io.outb s pic1_command icw1)) pic2_command icw1))
          (0, 0)
          (3, 3)
  start-Waits s =
      let s₁ = io.outb s pic1_command icw1 in
      let s₂ = io_wait io s₁ in
      let s₃ = io.outb s₂ pic2_command icw1 in
      Waits-elsewhere io pic s₃ (0, 0) (3, 3) 0x80 0
        (record {
          first =
              pic.other_mask s₂ pic2_command pic1_data icw1 first_data (omega arith) (omega arith)
              ∙ pic.other_mask s₁ 0x80 pic1_data 0 first_data (omega arith) (omega arith)
              ∙ pic.start_mask s pic1_command first_data;
          second = pic.start_mask s₂ pic2_command second_data;
          first_waits =
              pic.other_awaits s₂ pic2_command pic1_data icw1 first_data (omega arith) (omega arith)
              ∙ pic.other_awaits s₁ 0x80 pic1_data 0 first_data (omega arith) (omega arith)
              ∙ pic.start_awaits s pic1_command first_data;
          second_waits = pic.start_awaits s₂ pic2_command second_data;
        })
        (omega arith) (omega arith) (omega arith) (omega arith)

  -- On controllers that do what the 8259 promises, PIC_remap goes through the whole
  -- initialisation of both and leaves every line unmasked, whatever they did before.
  pub pic_remap-Agrees :
      (s : S) (offset1 offset2 : ℕ) → Agrees io pic (pic_remap io s offset1 offset2) (0, 0)
  unfolding pic_remap
  pic_remap-Agrees s offset1 offset2 =
      let w = start-Waits s in
      let w = Waits-first_word io pic _ 0 0 2 3 _ w in
      let w = Waits-second_word io pic _ 0 0 2 2 _ w in
      let w = Waits-first_word io pic _ 0 0 1 2 _ w in
      let w = Waits-second_word io pic _ 0 0 1 1 _ w in
      let w = Waits-first_word io pic _ 0 0 0 1 _ w in
      let w = Waits-second_word io pic _ 0 0 0 0 _ w in
      Agrees-second io pic _ 0 0 0 (omega arith) (Agrees-first io pic _ 0 0 0 (omega arith) w)

  read-Agrees : (s : S) (m : ℕ × ℕ) (p : ℕ) → Agrees io pic s m → Agrees io pic (io.inb s p).1 m
  read-Agrees s m p w = record {
    first = pic.read_mask s p pic1_data first_data ∙ w.first;
    second = pic.read_mask s p pic2_data second_data ∙ w.second;
    first_waits = pic.read_awaits s p pic1_data first_data ∙ w.first_waits;
    second_waits = pic.read_awaits s p pic2_data second_data ∙ w.second_waits;
  }

  -- With both controllers initialised, IRQ_set_mask sets the bit of its line in the mask of the
  -- line's controller and leaves the other mask.
  pub irq_set_mask-Agrees :
      (s : S) (a b line : ℕ)
      → Agrees io pic s (a, b)
      → Agrees io pic (irq_set_mask io s line) (set_bit (a, b) line)
  unfolding irq_set_mask
  irq_set_mask-Agrees s a b line w = elim (Bool-cases (ltb line 8)) [
    | inl t ↦
        let value = pic.read s pic1_data first_data w.first_waits ∙ w.first in
        rw (irq_set_mask, t, value)
          (Agrees-first io pic (io.inb s pic1_data).1 a b _ (omega arith)
            (read-Agrees s (a, b) pic1_data w))
    | inr t ↦
        let value = pic.read s pic2_data second_data w.second_waits ∙ w.second in
        rw (irq_set_mask, t, value)
          (Agrees-second io pic (io.inb s pic2_data).1 a b _ (omega arith)
            (read-Agrees s (a, b) pic2_data w))
  ]

  -- With both controllers initialised, IRQ_clear_mask clears the bit of its line in the mask of
  -- the line's controller and leaves the other mask.
  pub irq_clear_mask-Agrees :
      (s : S) (a b line : ℕ)
      → Agrees io pic s (a, b)
      → Agrees io pic (irq_clear_mask io s line) (clear_bit (a, b) line)
  unfolding irq_clear_mask
  irq_clear_mask-Agrees s a b line w = elim (Bool-cases (ltb line 8)) [
    | inl t ↦
        let value = pic.read s pic1_data first_data w.first_waits ∙ w.first in
        rw (irq_clear_mask, t, value)
          (Agrees-first io pic (io.inb s pic1_data).1 a b _ (omega arith)
            (read-Agrees s (a, b) pic1_data w))
    | inr t ↦
        let value = pic.read s pic2_data second_data w.second_waits ∙ w.second in
        rw (irq_clear_mask, t, value)
          (Agrees-second io pic (io.inb s pic2_data).1 a b _ (omega arith)
            (read-Agrees s (a, b) pic2_data w))
  ]

  cli-Agrees : (s : S) (m : ℕ × ℕ) → Agrees io pic s m → Agrees io pic (io.cli s) m
  cli-Agrees s m w = record {
    first = pic.cli_mask s pic1_data first_data ∙ w.first;
    second = pic.cli_mask s pic2_data second_data ∙ w.second;
    first_waits = pic.cli_awaits s pic1_data first_data ∙ w.first_waits;
    second_waits = pic.cli_awaits s pic2_data second_data ∙ w.second_waits;
  }

  elsewhere-Agrees :
      (s : S) (m : ℕ × ℕ) (p v : ℕ)
      → Agrees io pic s m
      → p ≢ 0x21
      → p ≢ 0xA1
      → p ≢ 0x20
      → p ≢ 0xA0
      → Agrees io pic (io.outb s p v) m
  elsewhere-Agrees s m p v w a b c d = Waits-elsewhere io pic s m (0, 0) p v w a b c d

  -- The timer's ports are none of the controllers'.
  pub pit_init-Agrees : (s : S) (m : ℕ × ℕ) → Agrees io pic s m → Agrees io pic (pit_init io s) m
  unfolding pit_init pit_set_count
  pit_init-Agrees s m w =
      let w = cli-Agrees s m w in
      let w =
        elsewhere-Agrees _ m 0x43 0x36 w (omega arith) (omega arith) (omega arith) (omega arith) in
      let w = cli-Agrees _ m w in
      let w =
        elsewhere-Agrees _ m 0x40 _ w (omega arith) (omega arith) (omega arith) (omega arith) in
      elsewhere-Agrees _ m 0x40 _ w (omega arith) (omega arith) (omega arith) (omega arith)
