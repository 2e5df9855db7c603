-- ===== src/Gdt/Tests.antt =====
-- Runs of kernel/arch/i386/gdt.c.
use r_oses.Prelude.{ℕ, arith}
use r_oses.Gdt.{GdtEntry, gdt_init}
use r_oses.Gdt.Fields.{IsTable, gdt_init-IsTable}

abbrev empty_gdt : ℕ → GdtEntry
empty_gdt i = record {
  limit_low = 0;
  base_low = 0;
  base_mid = 0;
  access = 0;
  limit_high = 0;
  flags = 0;
  base_high = 0;
}

gdt_init-IsTable_example :
    IsTable 0xC0105020 (gdt_init empty_gdt 0xC0105000 0xC0105020 0xC0109000).0
gdt_init-IsTable_example = gdt_init-IsTable empty_gdt 0xC0105000 0xC0105020 0xC0109000 (omega arith)
