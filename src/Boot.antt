-- ===== src/Boot.antt =====
-- kernel/arch/i386/pd.c, the first page directory, and kernel/arch/i386/earlyinit.c, the value that
-- guards the stack. The addresses of the tables come from the linker, and the processor's time stamp
-- is a parameter.
pub mod Tables
pub mod Guard
mod Tests
use r_oses.Prelude.{ℕ, zero, suc, ◌+◌, ◌*◌, ◌%◌, ◌==◌, bit_and, bit_or, if◌then◌else◌}
use r_oses.Prelude.Slots.{update}

-- `page_directory_start`, `page_table0_start` and `page_table768_start`.
pub record BootTables : Type 0 where
  pub page_directory : ℕ → ℕ
  pub page_table0 : ℕ → ℕ
  pub page_table768 : ℕ → ℕ

-- The loop, with the rounds that are left.
pub fill_tables : (rounds i : ℕ) → BootTables → BootTables
fill_tables zero i t = t
fill_tables (suc rounds) i t = fill_tables rounds (suc i) (record t {
  page_table0 = update t.page_table0 i (bit_or (i * 0x1000) 0x7);
  page_table768 = update t.page_table768 i (bit_or (i * 0x1000) 0x7);
})

pub pd_init : (directory table0 table768 : ℕ) → BootTables → BootTables
pd_init directory table0 table768 t =
    let t' = fill_tables 1024 0 t in
    record t' {
      page_directory =
          update (update (update t'.page_directory 0 (bit_or table0 0x7)) 768 (bit_or table768 0x7))
            1023 (bit_or directory 0x7);
    }

-- The value of `__stack_chk_guard` after `init_ssp`, where the time stamp is `seed`. Both macros of
-- the test are not defined, so the first branch is the one that is compiled.
pub init_ssp : (seed : ℕ) → ℕ
init_ssp seed =
    let seed' = (seed * 6364136223846793005 + 1) % 18446744073709551616 in bit_and seed' 0xFFFFFF00
