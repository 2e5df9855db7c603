-- ===== src/Isr/Masks.antt =====
-- The masks of the two interrupt controllers, and what the code of kernel/arch/i386/isr.c does to
-- them. `IsPic` is what the 8259 promises of its two ports, at the ports of
-- the two controllers.
use r_oses.Prelude.{
  ℕ, suc, ◌+◌, ◌-◌, ◌<◌, ◌≡◌, ◌≢◌, ◌∙◌, arith, ltb, if◌then◌else◌, u8, bit_and, bit_or, ◌<<<◌,
}
use r_oses.Isr.{Machine, icw1, pic1_command, pic2_command, pic1_data, pic2_data, io_wait}

-- The data ports of the two controllers.
pub data IsData : ℕ → Type 0 where
  first_data : IsData pic1_data
  second_data : IsData pic2_data

-- The mask of a controller, and the number of words of its initialisation that it waits for, by its
-- data port, whose command port is the one before. A write of ICW1 to the command port clears the mask
-- and starts an initialisation of three more words; with none left, a byte written to the data port
-- becomes the mask, and a read of it gives the mask. Writes to ports that are not the controller's, and
-- reads and the processor's instructions, change neither.
pub record IsPic {S : Type 0} (io : Machine S) : Type 0 where
  pub mask : S → ℕ → ℕ
  pub awaits : S → ℕ → ℕ
  pub start_mask : (s : S) (c : ℕ) → IsData (c + 1) → mask (io.outb s c icw1) (c + 1) ≡ 0
  pub start_awaits : (s : S) (c : ℕ) → IsData (c + 1) → awaits (io.outb s c icw1) (c + 1) ≡ 3
  pub word_mask :
      (s : S) (p v n : ℕ) → IsData p → awaits s p ≡ suc n → mask (io.outb s p v) p ≡ mask s p
  pub word_awaits :
      (s : S) (p v n : ℕ) → IsData p → awaits s p ≡ suc n → awaits (io.outb s p v) p ≡ n
  pub set_mask :
      (s : S) (p v : ℕ) → IsData p → v < 256 → awaits s p ≡ 0 → mask (io.outb s p v) p ≡ v
  pub set_awaits : (s : S) (p v : ℕ) → IsData p → awaits s p ≡ 0 → awaits (io.outb s p v) p ≡ 0
  pub other_mask :
      (s : S) (p q v : ℕ) → IsData q → q ≢ p → q ≢ p + 1 → mask (io.outb s p v) q ≡ mask s q
  pub other_awaits :
      (s : S) (p q v : ℕ) → IsData q → q ≢ p → q ≢ p + 1 → awaits (io.outb s p v) q ≡ awaits s q
  pub read : (s : S) (p : ℕ) → IsData p → awaits s p ≡ 0 → (io.inb s p).0 ≡ mask s p
  pub read_mask : (s : S) (p q : ℕ) → IsData q → mask (io.inb s p).1 q ≡ mask s q
  pub read_awaits : (s : S) (p q : ℕ) → IsData q → awaits (io.inb s p).1 q ≡ awaits s q
  pub cli_mask : (s : S) (q : ℕ) → IsData q → mask (io.cli s) q ≡ mask s q
  pub cli_awaits : (s : S) (q : ℕ) → IsData q → awaits (io.cli s) q ≡ awaits s q
  pub sti_mask : (s : S) (q : ℕ) → IsData q → mask (io.sti s) q ≡ mask s q
  pub sti_awaits : (s : S) (q : ℕ) → IsData q → awaits (io.sti s) q ≡ awaits s q
  pub lidt_mask : (s : S) (l b q : ℕ) → IsData q → mask (io.lidt s l b) q ≡ mask s q
  pub lidt_awaits : (s : S) (l b q : ℕ) → IsData q → awaits (io.lidt s l b) q ≡ awaits s q

-- The masks as a pair of bytes, and the two calls on that pair.
abbrev pub set_bit : ℕ × ℕ → ℕ → ℕ × ℕ
set_bit (a, b) line =
    if ltb line 8 then (u8 (bit_or a (1 <<< line)), b) else (a, u8 (bit_or b (1 <<< (line - 8))))

abbrev pub clear_bit : ℕ × ℕ → ℕ → ℕ × ℕ
clear_bit (a, b) line =
    if ltb line 8
    then (u8 (bit_and a (0xffffffff - (1 <<< line))), b)
    else (a, u8 (bit_and b (0xffffffff - (1 <<< (line - 8)))))

module _ {S : Type 0} (io : Machine S) (pic : IsPic io) where
  -- One controller, or both, with their initialisation behind them.
  pub record Waits (s : S) (m n : ℕ × ℕ) : Type 0 where
    pub first : pic.mask s pic1_data ≡ m.0
    pub second : pic.mask s pic2_data ≡ m.1
    pub first_waits : pic.awaits s pic1_data ≡ n.0
    pub second_waits : pic.awaits s pic2_data ≡ n.1

  abbrev pub Agrees : S → ℕ × ℕ → Type 0
  Agrees s m = Waits s m (0, 0)

  -- A write to a port of neither controller.
  pub Waits-elsewhere :
      (s : S) (m n : ℕ × ℕ) (p v : ℕ)
      → Waits s m n
      → p ≢ pic1_data
      → p ≢ pic2_data
      → p ≢ pic1_command
      → p ≢ pic2_command
      → Waits (io.outb s p v) m n
  Waits-elsewhere s m n p v w a b c d = record {
    first = pic.other_mask s p pic1_data v first_data (omega arith) (omega arith) ∙ w.first;
    second = pic.other_mask s p pic2_data v second_data (omega arith) (omega arith) ∙ w.second;
    first_waits =
        pic.other_awaits s p pic1_data v first_data (omega arith) (omega arith) ∙ w.first_waits;
    second_waits =
        pic.other_awaits s p pic2_data v second_data (omega arith) (omega arith) ∙ w.second_waits;
  }

  pub Waits-first_word :
      (s : S) (a b k n v : ℕ)
      → Waits s (a, b) (suc k, n)
      → Waits (io_wait io (io.outb s pic1_data v)) (a, b) (k, n)
  Waits-first_word s a b k n v w =
      Waits-elsewhere (io.outb s pic1_data v) (a, b) (k, n) 0x80 0
        (record {
          first = pic.word_mask s pic1_data v k first_data w.first_waits ∙ w.first;
          second =
              pic.other_mask s pic1_data pic2_data v second_data (omega arith) (omega arith)
              ∙ w.second;
          first_waits = pic.word_awaits s pic1_data v k first_data w.first_waits;
          second_waits =
              pic.other_awaits s pic1_data pic2_data v second_data (omega arith) (omega arith)
              ∙ w.second_waits;
        })
        (omega arith) (omega arith) (omega arith) (omega arith)

  pub Waits-second_word :
      (s : S) (a b k n v : ℕ)
      → Waits s (a, b) (n, suc k)
      → Waits (io_wait io (io.outb s pic2_data v)) (a, b) (n, k)
  Waits-second_word s a b k n v w =
      Waits-elsewhere (io.outb s pic2_data v) (a, b) (n, k) 0x80 0
        (record {
          first =
              pic.other_mask s pic2_data pic1_data v first_data (omega arith) (omega arith)
              ∙ w.first;
          second = pic.word_mask s pic2_data v k second_data w.second_waits ∙ w.second;
          first_waits =
              pic.other_awaits s pic2_data pic1_data v first_data (omega arith) (omega arith)
              ∙ w.first_waits;
          second_waits = pic.word_awaits s pic2_data v k second_data w.second_waits;
        })
        (omega arith) (omega arith) (omega arith) (omega arith)

  pub Agrees-first :
      (s : S) (a b v : ℕ) → v < 256 → Agrees s (a, b) → Agrees (io.outb s pic1_data v) (v, b)
  Agrees-first s a b v byte w = record {
    first = pic.set_mask s pic1_data v first_data byte w.first_waits;
    second =
        pic.other_mask s pic1_data pic2_data v second_data (omega arith) (omega arith) ∙ w.second;
    first_waits = pic.set_awaits s pic1_data v first_data w.first_waits;
    second_waits =
        pic.other_awaits s pic1_data pic2_data v second_data (omega arith) (omega arith)
        ∙ w.second_waits;
  }

  pub Agrees-second :
      (s : S) (a b v : ℕ) → v < 256 → Agrees s (a, b) → Agrees (io.outb s pic2_data v) (a, v)
  Agrees-second s a b v byte w = record {
    first = pic.other_mask s pic2_data pic1_data v first_data (omega arith) (omega arith) ∙ w.first;
    second = pic.set_mask s pic2_data v second_data byte w.second_waits;
    first_waits =
        pic.other_awaits s pic2_data pic1_data v first_data (omega arith) (omega arith)
        ∙ w.first_waits;
    second_waits = pic.set_awaits s pic2_data v second_data w.second_waits;
  }
