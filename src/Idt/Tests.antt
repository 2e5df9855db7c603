-- ===== src/Idt/Tests.antt =====
-- Runs of kernel/arch/i386/idt.c on the machine of Isr/Tests.
use r_oses.Prelude.{ℕ, ◌+◌, ◌*◌, ◌%◌, arith, false}
use r_oses.Isr.Masks.{Agrees}
use r_oses.Isr.Tests.{chips, chips-IsPic, before}
use r_oses.Idt.{Idt, idt_init}
use r_oses.Idt.Lines.{idt_init-Agrees}
use r_oses.Idt.Table.{Filled, idt_init-Filled}

abbrev empty_idt : Idt
empty_idt = record {
  idt = λ j. record { offset_low = 0; kernel_cs = 0; reserved = 0; flags = 0; offset_high = 0 };
  vectors = λ j. false;
  base = 0;
  limit = 0;
}

-- Handlers of 16 bytes each.
abbrev stubs : ℕ → ℕ
stubs j = 0xC0101000 + 16 * (j % 256)

idt_init-Agrees_example :
    Agrees chips chips-IsPic (idt_init chips stubs 0xC0108000 before empty_idt).0 (0xFC, 0xFF)
idt_init-Agrees_example = idt_init-Agrees chips chips-IsPic stubs 0xC0108000 before empty_idt

idt_init-Filled_example :
    Filled stubs 0xC0108000 empty_idt (idt_init chips stubs 0xC0108000 before empty_idt).1
idt_init-Filled_example = idt_init-Filled chips stubs 0xC0108000 before empty_idt (λ j. omega arith)
