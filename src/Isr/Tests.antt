-- ===== src/Isr/Tests.antt =====
-- A machine with the two interrupt controllers at their ports, and runs of kernel/arch/i386/isr.c on it.
use r_oses.Prelude.{ℕ, ◌+◌, ◌-◌, ◌==◌, ◌≡◌, ◌⊎◌, inl, inr, arith, refl, if◌then◌else◌}
use r_oses.Isr.{Machine, pic1_command, pic1_data, pic2_command, pic2_data}
use r_oses.Isr.Masks.{IsPic, IsData, first_data, second_data}

-- The mask of a controller and the words that it waits for.
pub record Chip : Type 0 where
  pub mask : ℕ
  pub awaits : ℕ

pub record Chips : Type 0 where
  pub master : Chip
  pub slave : Chip

abbrev at_command : Chip → ℕ → Chip
at_command c v = if v == 0x11 then record { mask = 0; awaits = 3 } else c

abbrev at_data : Chip → ℕ → Chip
at_data c v = if c.awaits == 0 then record c { mask = v } else record c { awaits = c.awaits - 1 }

abbrev write_port : Chips → (port value : ℕ) → Chips
write_port s p v =
    if p == pic1_command
    then record s { master = at_command s.master v }
    else if p == pic1_data
    then record s { master = at_data s.master v }
    else if p == pic2_command
    then record s { slave = at_command s.slave v }
    else if p == pic2_data
    then record s { slave = at_data s.slave v }
    else s

abbrev chip_of : Chips → ℕ → Chip
chip_of s q = if q == pic1_data then s.master else s.slave

abbrev read_port : Chips → ℕ → ℕ
read_port s p =
    if p == pic1_data then s.master.mask else if p == pic2_data then s.slave.mask else 0xff

abbrev pub chips : Machine Chips
chips = record {
  outb = λ s p v. write_port s p v;
  inb = λ s p. (read_port s p, s);
  cli = λ s. s;
  sti = λ s. s;
  lidt = λ s l b. s;
}

pub data_port : (q : ℕ) → IsData q → (q ≡ pic1_data) ⊎ (q ≡ pic2_data)
data_port _ first_data = inl refl
data_port _ second_data = inr refl

pub chips-IsPic : IsPic chips
chips-IsPic = record {
  mask = λ s q. (chip_of s q).mask;
  awaits = λ s q. (chip_of s q).awaits;
  start_mask = λ s c d. ground (arith, data_port (c + 1) d);
  start_awaits = λ s c d. ground (arith, data_port (c + 1) d);
  word_mask = λ s p v n d e. ground (arith, data_port p d);
  word_awaits = λ s p v n d e. ground (arith, data_port p d);
  set_mask = λ s p v d b e. ground (arith, data_port p d);
  set_awaits = λ s p v d e. ground (arith, data_port p d);
  other_mask = λ s p q v d a b. ground (arith, data_port q d);
  other_awaits = λ s p q v d a b. ground (arith, data_port q d);
  read = λ s p d e. ground (arith, data_port p d);
  read_mask = λ s p q d. refl;
  read_awaits = λ s p q d. refl;
  cli_mask = λ s q d. refl;
  cli_awaits = λ s q d. refl;
  sti_mask = λ s q d. refl;
  sti_awaits = λ s q d. refl;
  lidt_mask = λ s l b q d. refl;
  lidt_awaits = λ s l b q d. refl;
}

-- Both controllers with a mask, and one of them in the middle of its initialisation.
abbrev pub before : Chips
before = record {
  master = record { mask = 0xB8; awaits = 2 };
  slave = record { mask = 0xB8; awaits = 0 };
}
