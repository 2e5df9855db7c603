-- ===== src/Isr.antt =====
-- kernel/arch/i386/isr.c and kernel/include/kernel/isr.h: the interrupt controllers and the timer.
-- What lies behind the processor's instructions is no part of the program: a state of any type,
-- with the instructions as functions on it.
pub mod Masks
pub mod Lines
pub mod Tests
use r_oses.Prelude.{
  ℕ, ◌+◌, ◌-◌, ◌/◌, leb, ltb, if◌then◌else◌, u8, u16, bit_and, bit_or, ◌<<<◌, ◌>>>◌,
}

-- `outb`, `inb`, `cli`, `sti` and `lidt`, the last with the limit and the base of its register.
pub record Machine (S : Type 0) : Type 0 where
  pub outb : S → (port value : ℕ) → S
  pub inb : S → (port : ℕ) → ℕ × S
  pub cli : S → S
  pub sti : S → S
  pub lidt : S → (limit base : ℕ) → S

abbrev pub pic1_command : ℕ
pic1_command = 0x20

abbrev pub pic1_data : ℕ
pic1_data = 0x21

abbrev pub pic2_command : ℕ
pic2_command = 0xA0

abbrev pub pic2_data : ℕ
pic2_data = 0xA1

abbrev pub pic_eoi : ℕ
pic_eoi = 0x20

-- `ICW1_INIT | ICW1_ICW4`.
abbrev pub icw1 : ℕ
icw1 = bit_or 0x10 0x01

abbrev pub icw4_8086 : ℕ
icw4_8086 = 0x01

abbrev pub cascade_irq : ℕ
cascade_irq = 2

abbrev pub pic_read_irr : ℕ
pic_read_irr = 0x0a

abbrev pub pic_read_isr : ℕ
pic_read_isr = 0x0b

abbrev pub pit_mode_command : ℕ
pit_mode_command = 0x43

module _ {S : Type 0} (io : Machine S) where
  abbrev pub io_wait : S → S
  io_wait s = io.outb s 0x80 0

  pub pic_send_eoi : S → ℕ → S
  pic_send_eoi s irq =
      let s' = if leb 8 irq then io.outb s pic2_command pic_eoi else s in
      io.outb s' pic1_command pic_eoi

  pub pic_remap : S → (offset1 offset2 : ℕ) → S
  pic_remap s offset1 offset2 =
      let s = io_wait (io.outb s pic1_command icw1) in
      let s = io_wait (io.outb s pic2_command icw1) in
      let s = io_wait (io.outb s pic1_data (u8 offset1)) in
      let s = io_wait (io.outb s pic2_data (u8 offset2)) in
      let s = io_wait (io.outb s pic1_data (1 <<< cascade_irq)) in
      let s = io_wait (io.outb s pic2_data cascade_irq) in
      let s = io_wait (io.outb s pic1_data icw4_8086) in
      let s = io_wait (io.outb s pic2_data icw4_8086) in io.outb (io.outb s pic1_data 0) pic2_data 0

  abbrev pub port_of : ℕ → ℕ
  port_of line = if ltb line 8 then pic1_data else pic2_data

  abbrev pub bit_of : ℕ → ℕ
  bit_of line = if ltb line 8 then line else line - 8

  pub irq_set_mask : S → ℕ → S
  irq_set_mask s line =
      let (value, s') = io.inb s (port_of line) in
      io.outb s' (port_of line) (u8 (bit_or value (1 <<< bit_of line)))

  pub irq_clear_mask : S → ℕ → S
  irq_clear_mask s line =
      let (value, s') = io.inb s (port_of line) in
      io.outb s' (port_of line) (u8 (bit_and value (0xffffffff - (1 <<< bit_of line))))

  pub pic_get_irq_reg : S → ℕ → ℕ × S
  pic_get_irq_reg s ocw3 =
      let s = io.outb (io.outb s pic1_command ocw3) pic2_command ocw3 in
      let (high, s) = io.inb s pic2_command in
      let (low, s) = io.inb s pic1_command in (u16 (bit_or (high <<< 8) low), s)

  pub pic_get_irr : S → ℕ × S
  unfolding pic_get_irq_reg
  pic_get_irr s = pic_get_irq_reg s pic_read_irr

  pub pic_get_isr : S → ℕ × S
  unfolding pic_get_irq_reg
  pic_get_isr s = pic_get_irq_reg s pic_read_isr

  pub pit_set_count : S → ℕ → S
  pit_set_count s count =
      let s = io.cli s in
      io.outb (io.outb s 0x40 (bit_and count 0xFF)) 0x40 (bit_and count 0xFF00 >>> 8)

  pub pit_init : S → S
  unfolding pit_set_count
  pit_init s = pit_set_count (io.outb (io.cli s) pit_mode_command 0x36) (3579545 / 300)
