-- ===== src/Boot/Tests.antt =====
-- Runs of kernel/arch/i386/pd.c and kernel/arch/i386/earlyinit.c.
use r_oses.Prelude.{◌+◌, ◌≡◌, arith, bit_or}
use r_oses.Paging.{pd, get_physaddr}
use r_oses.Boot.{BootTables}
use r_oses.Boot.Tables.{Places, shown, initialised, pd_init-get_physaddr}

abbrev no_tables : BootTables
no_tables = record { page_directory = λ _. 0; page_table0 = λ _. 0; page_table768 = λ _. 0 }

abbrev kernel_places : Places
kernel_places = record { directory = 0x103000; table0 = 0x104000; table768 = 0x105000 }

pd_init-get_physaddr_example :
    (get_physaddr (shown (λ _ _. 0) kernel_places (initialised kernel_places no_tables)) 0xB8000
      ≡ 0xB8000)
    × (get_physaddr
          (shown (λ _ _. 0) kernel_places (initialised kernel_places no_tables))
          (3221225472 + 0xB8000)
        ≡ 0xB8000)
    × (pd (shown (λ _ _. 0) kernel_places (initialised kernel_places no_tables)) 0
        ≡ bit_or 0x104000 0x7)
    × (pd (shown (λ _ _. 0) kernel_places (initialised kernel_places no_tables)) 768
        ≡ bit_or 0x105000 0x7)
    × (pd (shown (λ _ _. 0) kernel_places (initialised kernel_places no_tables)) 1023
        ≡ bit_or 0x103000 0x7)
pd_init-get_physaddr_example =
    pd_init-get_physaddr kernel_places (λ _ _. 0) no_tables 0xB8000
      (record {
        directory = (omega arith, omega arith);
        table0 = (omega arith, omega arith);
        table768 = (omega arith, omega arith);
        low_table = omega arith;
        high_table = omega arith;
        two_tables = omega arith;
      })
      (omega arith)
