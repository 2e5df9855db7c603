-- ===== src/Gdt.antt =====
-- kernel/arch/i386/gdt.c and kernel/include/kernel/gdt.h: the segment descriptors.
pub mod Fields
mod Tests
use r_oses.Prelude.{ℕ, ◌-◌, if◌then◌else◌, ltb, bit_and, bit_or, ◌<<<◌, ◌>>>◌}
use r_oses.Prelude.Slots.{update}

-- `gdt_entry_t`, whose bit fields `limit_high` and `flags` have 4 bits.
pub record GdtEntry : Type 0 where
  pub limit_low : ℕ
  pub base_low : ℕ
  pub base_mid : ℕ
  pub access : ℕ
  pub limit_high : ℕ
  pub flags : ℕ
  pub base_high : ℕ

-- The flags of a descriptor.
abbrev pub seg_desctype : ℕ → ℕ
seg_desctype x = x <<< 0x04

abbrev pub seg_priv : ℕ → ℕ
seg_priv x = bit_and x 0x03 <<< 0x05

abbrev pub seg_pres : ℕ → ℕ
seg_pres x = x <<< 0x07

abbrev pub seg_savl : ℕ → ℕ
seg_savl x = x <<< 0x0C

abbrev pub seg_long : ℕ → ℕ
seg_long x = x <<< 0x0D

abbrev pub seg_size : ℕ → ℕ
seg_size x = x <<< 0x0E

abbrev pub seg_gran : ℕ → ℕ
seg_gran x = x <<< 0x0F

abbrev pub seg_data_rdwr : ℕ
seg_data_rdwr = 0x02

abbrev pub seg_code_exa : ℕ
seg_code_exa = 0x09

abbrev pub seg_code_exrd : ℕ
seg_code_exrd = 0x0A

abbrev segment : (priv kind : ℕ) → ℕ
segment priv kind =
    bit_or
      (bit_or
        (bit_or
          (bit_or (bit_or (bit_or (bit_or (seg_desctype 1) (seg_pres 1)) (seg_savl 0)) (seg_long 0))
            (seg_size 1))
          (seg_gran 1))
        (seg_priv priv))
      kind

abbrev pub gdt_code_pl0 : ℕ
gdt_code_pl0 = segment 0 seg_code_exrd

abbrev pub gdt_data_pl0 : ℕ
gdt_data_pl0 = segment 0 seg_data_rdwr

abbrev pub gdt_code_pl3 : ℕ
gdt_code_pl3 = segment 3 seg_code_exrd

abbrev pub gdt_data_pl3 : ℕ
gdt_data_pl3 = segment 3 seg_data_rdwr

-- The fields that `create_gdt_entry` writes.
abbrev pub entry_of : (base limit flags : ℕ) → GdtEntry
entry_of base limit flags = record {
  limit_low = bit_and limit 0xFFFF;
  base_low = bit_and base 0xFFFF;
  base_mid = bit_and (base >>> 0x10) 0xFF;
  access = bit_and flags 0xFF;
  limit_high = bit_and (limit >>> 0x10) 0xF;
  flags = bit_and (flags >>> 0xC) 0xF;
  base_high = bit_and (base >>> 0x18) 0xFF;
}

-- The table is a function from the index.
pub create_gdt_entry : (ℕ → GdtEntry) → (index base limit flags : ℕ) → ℕ → GdtEntry
create_gdt_entry gdt index base limit flags =
    if ltb 0xFFFFF limit then gdt else update gdt index (entry_of base limit flags)

-- The fields of `tss_t` that `gdt_init` writes.
pub record Tss : Type 0 where
  pub ss0 : ℕ
  pub esp0 : ℕ
  pub iopb : ℕ

pub record Gdtr : Type 0 where
  pub limit : ℕ
  pub base : ℕ

-- `sizeof(tss_t)`: 25 words, two half words and one more word.
abbrev pub tss_size : ℕ
tss_size = 108

-- `sizeof gdt`: 6 entries of 8 bytes.
abbrev pub gdt_size : ℕ
gdt_size = 48

-- The table, the task state and the register that `gdt_init` leaves, with the addresses of the
-- table and of the task state and the word at `stack_top`, which the linker places.
pub gdt_init : (ℕ → GdtEntry) → (gdt_addr tss_addr stack_top : ℕ) → (ℕ → GdtEntry) × Tss × Gdtr
gdt_init gdt gdt_addr tss_addr stack_top =
    let gdt = create_gdt_entry gdt 0 0 0 0 in
    let gdt = create_gdt_entry gdt 1 0 0xFFFFF gdt_code_pl0 in
    let gdt = create_gdt_entry gdt 2 0 0xFFFFF gdt_data_pl0 in
    let gdt = create_gdt_entry gdt 3 0 0xFFFFF gdt_code_pl3 in
    let gdt = create_gdt_entry gdt 4 0 0xFFFFF gdt_data_pl3 in
    let gdt = create_gdt_entry gdt 5 tss_addr (tss_size - 1) (bit_or seg_code_exa (seg_pres 1)) in
    (
      gdt,
      record { ss0 = 0x10; esp0 = stack_top; iopb = tss_size },
      record { limit = gdt_size - 1; base = gdt_addr },
    )
