-- ===== src/Gdt/Fields.antt =====
-- What the processor reads out of a descriptor.
use r_oses.Prelude.{ℕ, ◌+◌, ◌*◌, ◌%◌, ◌/◌, ◌≤◌, ◌<◌, ◌≡◌, ◌≢◌, arith, bit_and}
use r_oses.Prelude.Bits.{bit_and-ones}
use r_oses.Gdt.{GdtEntry, entry_of, create_gdt_entry, gdt_init}

-- The base and the limit of a segment, put together from the fields of its descriptor.
abbrev pub base_of : GdtEntry → ℕ
base_of e = e.base_low + 65536 * e.base_mid + 16777216 * e.base_high

abbrev pub limit_of : GdtEntry → ℕ
limit_of e = e.limit_low + 65536 * e.limit_high

-- Every field fits its width.
pub record IsEntry (e : GdtEntry) : Type 0 where
  pub limit_low : e.limit_low < 65536
  pub base_low : e.base_low < 65536
  pub base_mid : e.base_mid < 256
  pub access : e.access < 256
  pub limit_high : e.limit_high < 16
  pub flags : e.flags < 16
  pub base_high : e.base_high < 256

-- What was asked for can be read back.
pub record Encodes (b l f : ℕ) (e : GdtEntry) : Type 0 where
  pub fields : IsEntry e
  pub base : base_of e ≡ b
  pub limit : limit_of e ≡ l
  pub access : e.access ≡ f % 256
  pub flags : e.flags ≡ f / 4096

low_byte : (a : ℕ) → bit_and a 0xFF ≡ a % 256
low_byte a = bit_and-ones 8 a (omega arith)

low_half : (a : ℕ) → bit_and a 0xFFFF ≡ a % 65536
low_half a = bit_and-ones 16 a (omega arith)

low_nibble : (a : ℕ) → bit_and a 0xF ≡ a % 16
low_nibble a = bit_and-ones 4 a (omega arith)

entry_of-Encodes :
    (base limit flags : ℕ)
    → base < 4294967296
    → limit ≤ 0xFFFFF
    → flags < 65536
    → Encodes base limit flags (entry_of base limit flags)
entry_of-Encodes base limit flags hb hl hf = ground (
  arith,
  low_half limit,
  low_half base,
  low_byte (base / 65536),
  low_byte flags,
  low_nibble (limit / 65536),
  low_nibble (flags / 4096),
  low_byte (base / 16777216),
)

-- For a base of 32 bits, a limit of 20 and flags of 16, create_gdt_entry writes an entry whose
-- fields fit their widths and from which base, limit, access and flags can be read back, and it
-- writes no other entry.
pub create_gdt_entry-Encodes :
    (gdt : ℕ → GdtEntry) (index base limit flags : ℕ)
    → base < 4294967296
    → limit ≤ 0xFFFFF
    → flags < 65536
    → Encodes base limit flags (create_gdt_entry gdt index base limit flags index)
      × ((j : ℕ) → j ≢ index → create_gdt_entry gdt index base limit flags j ≡ gdt j)
unfolding create_gdt_entry
create_gdt_entry-Encodes gdt index base limit flags hb hl hf =
    (ground (arith, entry_of-Encodes base limit flags hb hl hf), λ j ne. ground arith)

-- A limit of more than 20 bits leaves the table as it is.
pub create_gdt_entry_refuses :
    (gdt : ℕ → GdtEntry) (index base limit flags : ℕ)
    → 0xFFFFF < limit
    → create_gdt_entry gdt index base limit flags ≡ gdt
unfolding create_gdt_entry
create_gdt_entry_refuses gdt index base limit flags h = ground arith

-- The table of `gdt_init`: a null descriptor, code and data for the kernel and for programs over
-- the whole of memory (a limit of 20 ones in pages of 4 KiB), and the task state.
pub record IsTable (tss_addr : ℕ) (gdt : ℕ → GdtEntry) : Type 0 where
  pub none : Encodes 0 0 0 (gdt 0)
  pub kernel_code : Encodes 0 0xFFFFF 0xC09A (gdt 1)
  pub kernel_data : Encodes 0 0xFFFFF 0xC092 (gdt 2)
  pub user_code : Encodes 0 0xFFFFF 0xC0FA (gdt 3)
  pub user_data : Encodes 0 0xFFFFF 0xC0F2 (gdt 4)
  pub task : Encodes tss_addr 107 0x89 (gdt 5)

-- For a task state at a 32-bit address, gdt_init fills the six entries with descriptors from
-- which the null segment, the code and data segments of the kernel and of programs over 4 GiB,
-- and the task state can be read back, whatever the table held.
pub gdt_init-IsTable :
    (gdt : ℕ → GdtEntry) (gdt_addr tss_addr stack_top : ℕ)
    → tss_addr < 4294967296
    → IsTable tss_addr (gdt_init gdt gdt_addr tss_addr stack_top).0
unfolding gdt_init create_gdt_entry
gdt_init-IsTable gdt gdt_addr tss_addr stack_top h = record {
  none = entry_of-Encodes 0 0 0 (omega arith) (omega arith) (omega arith);
  kernel_code = entry_of-Encodes 0 0xFFFFF 0xC09A (omega arith) (omega arith) (omega arith);
  kernel_data = entry_of-Encodes 0 0xFFFFF 0xC092 (omega arith) (omega arith) (omega arith);
  user_code = entry_of-Encodes 0 0xFFFFF 0xC0FA (omega arith) (omega arith) (omega arith);
  user_data = entry_of-Encodes 0 0xFFFFF 0xC0F2 (omega arith) (omega arith) (omega arith);
  task = entry_of-Encodes tss_addr 107 0x89 h (omega arith) (omega arith);
}
