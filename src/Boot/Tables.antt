-- ===== src/Boot/Tables.antt =====
-- What the first page directory of kernel/arch/i386/pd.c translates.
use r_oses.Prelude.{
  ℕ, zero, suc, ◌+◌, ◌*◌, ◌/◌, ◌%◌, ◌<◌, ◌≡◌, ◌≢◌, refl, ap, ◌∙◌, arith, true, false, ◌&&◌, leb,
  ltb, ◌==◌, if◌then◌else◌, bit_and, bit_or,
}
use r_oses.Prelude.Bits.{bit_or-fields}
use r_oses.Prelude.Slots.{update}
use r_oses.Paging.{Tables, pd, get_physaddr}
use r_oses.Paging.Lookup.{get_physaddr_lem, page_of, directory_entry-odd}
use r_oses.Boot.{BootTables, fill_tables, pd_init}

-- Where the directory and the tables lie: at addresses of pages, which differ.
pub record Places : Type 0 where
  pub directory : ℕ
  pub table0 : ℕ
  pub table768 : ℕ

pub record AreApart (p : Places) : Type 0 where
  pub directory : (p.directory % 4096 ≡ 0) × (p.directory < 4294967296)
  pub table0 : (p.table0 % 4096 ≡ 0) × (p.table0 < 4294967296)
  pub table768 : (p.table768 % 4096 ≡ 0) × (p.table768 < 4294967296)
  pub low_table : p.table0 ≢ p.directory
  pub high_table : p.table768 ≢ p.directory
  pub two_tables : p.table768 ≢ p.table0

-- The 1024 words of the page at an address; `others` is memory outside the three.
abbrev pub page_words : (others : ℕ → ℕ → ℕ) → Places → BootTables → (page j : ℕ) → ℕ
page_words others p t page j =
    if page == p.directory
    then t.page_directory j
    else if page == p.table0
    then t.page_table0 j
    else if page == p.table768
    then t.page_table768 j
    else others page j

-- The tables as the last 4 MiB of addresses show them: the words of the page that the directory's
-- entry names.
abbrev pub shown : (others : ℕ → ℕ → ℕ) → Places → BootTables → Tables
shown others p t = record {
  pt = λ j. page_words others p t (bit_and (t.page_directory (j / 1024)) 0xfffff000) (j % 1024);
  flushes = 0;
}

-- The state behind `pd_init`.
abbrev pub initialised : Places → BootTables → BootTables
initialised p t = pd_init p.directory p.table0 p.table768 t

fill_tables-page_table0 :
    (n i : ℕ) (t : BootTables) (j : ℕ)
    → (fill_tables n i t).page_table0 j
      ≡ (if leb i j && ltb j (i + n) then bit_or (j * 0x1000) 0x7 else t.page_table0 j)
unfolding fill_tables
fill_tables-page_table0 zero i t j = ground arith
fill_tables-page_table0 (suc n) i t j =
    rw
      (fill_tables-page_table0 n (suc i)
        (record t {
          page_table0 = update t.page_table0 i (bit_or (i * 0x1000) 0x7);
          page_table768 = update t.page_table768 i (bit_or (i * 0x1000) 0x7);
        })
        j)
      (ground (arith, entry_eq i j))
  where
    entry_eq : (a b : ℕ) → a ≡ b → bit_or (a * 0x1000) 0x7 ≡ bit_or (b * 0x1000) 0x7
    entry_eq a b e = ap (λ x. bit_or (x * 0x1000) 0x7) e

-- The two tables are written alike.
fill_tables-page_table768 :
    (n i : ℕ) (t : BootTables) (j : ℕ)
    → (fill_tables n i t).page_table768 j
      ≡ (if leb i j && ltb j (i + n) then bit_or (j * 0x1000) 0x7 else t.page_table768 j)
unfolding fill_tables
fill_tables-page_table768 zero i t j = ground arith
fill_tables-page_table768 (suc n) i t j =
    rw
      (fill_tables-page_table768 n (suc i)
        (record t {
          page_table0 = update t.page_table0 i (bit_or (i * 0x1000) 0x7);
          page_table768 = update t.page_table768 i (bit_or (i * 0x1000) 0x7);
        })
        j)
      (ground (arith, entry_eq i j))
  where
    entry_eq : (a b : ℕ) → a ≡ b → bit_or (a * 0x1000) 0x7 ≡ bit_or (b * 0x1000) 0x7
    entry_eq a b e = ap (λ x. bit_or (x * 0x1000) 0x7) e

entry_lem : (j : ℕ) → bit_or (j * 0x1000) 0x7 ≡ j * 4096 + 7
entry_lem j = bit_or-fields 12 j 7 (omega arith)

entry-frame : (j : ℕ) → j < 1048576 → bit_and (j * 4096 + 7) 0xfffff000 ≡ j * 4096
entry-frame j h = page_of (j * 4096 + 7) (omega arith) ∙ omega arith

-- The frame of a directory's entry.
frame_lem : (a : ℕ) → a % 4096 ≡ 0 → a < 4294967296 → bit_and (bit_or a 0x7) 0xfffff000 ≡ a
frame_lem a e h =
    let page : a ≡ a / 4096 * 4096 = omega arith in
    let flags : bit_or a 0x7 ≡ a + 7 =
      ap (λ x. bit_or x 0x7) page ∙ bit_or-fields 12 (a / 4096) 7 (omega arith) ∙ omega arith in
    ap (λ x. bit_and x 0xfffff000) flags ∙ page_of (a + 7) (omega arith) ∙ omega arith

-- A present entry of a present table.
translates :
    (m : Tables) (va q : ℕ)
    → q < 1024
    → pd m (va / 4194304) % 2 ≡ 1
    → m.pt (va / 4096) ≡ q * 4096 + 7
    → get_physaddr m va ≡ q * 4096 + va % 4096
translates m va q h on e =
    get_physaddr_lem m va
    ∙ ground (arith, entry-frame q (omega arith), ap (λ x. bit_and x 0xfffff000) e)

module _ (p : Places) (others : ℕ → ℕ → ℕ) (t : BootTables) (apart : AreApart p) where
  abbrev started : Tables
  started = shown others p (initialised p t)

  -- The place of word `j` behind the directory's entry `i`.
  word_at :
      (k i j page : ℕ)
      → k ≡ 1024 * i + j
      → j < 1024
      → bit_and ((initialised p t).page_directory i) 0xfffff000 ≡ page
      → started.pt k ≡ page_words others p (initialised p t) page j
  word_at k i j page e h f =
      let index : k / 1024 ≡ i = omega arith in
      let word : k % 1024 ≡ j = omega arith in rw (index, word, f) refl

  low_frame : bit_and ((initialised p t).page_directory 0) 0xfffff000 ≡ p.table0
  unfolding pd_init
  low_frame = frame_lem p.table0 apart.table0.0 apart.table0.1

  high_frame : bit_and ((initialised p t).page_directory 768) 0xfffff000 ≡ p.table768
  unfolding pd_init
  high_frame = frame_lem p.table768 apart.table768.0 apart.table768.1

  own_frame : bit_and ((initialised p t).page_directory 1023) 0xfffff000 ≡ p.directory
  unfolding pd_init
  own_frame = frame_lem p.directory apart.directory.0 apart.directory.1

  -- The directory shows as its own last table.
  shown-directory : (i : ℕ) → i < 1024 → pd started i ≡ (initialised p t).page_directory i
  shown-directory i h =
      let same : (p.directory == p.directory) ≡ true = ground arith in
      word_at (1047552 + i) 1023 i p.directory (omega arith) h own_frame ∙ rw same refl

  table0_words : (q : ℕ) → q < 1024 → (initialised p t).page_table0 q ≡ q * 4096 + 7
  unfolding pd_init
  table0_words q h =
      let within : (leb 0 q && ltb q (0 + 1024)) ≡ true = ground arith in
      rw (fill_tables-page_table0 1024 0 t q, within) (entry_lem q)

  table768_words : (q : ℕ) → q < 1024 → (initialised p t).page_table768 q ≡ q * 4096 + 7
  unfolding pd_init
  table768_words q h =
      let within : (leb 0 q && ltb q (0 + 1024)) ≡ true = ground arith in
      rw (fill_tables-page_table768 1024 0 t q, within) (entry_lem q)

  low_pd : pd started 0 ≡ bit_or p.table0 0x7
  unfolding pd_init
  low_pd = shown-directory 0 (omega arith) ∙ refl

  high_pd : pd started 768 ≡ bit_or p.table768 0x7
  unfolding pd_init
  high_pd = shown-directory 768 (omega arith) ∙ refl

  own_pd : pd started 1023 ≡ bit_or p.directory 0x7
  unfolding pd_init
  own_pd = shown-directory 1023 (omega arith) ∙ refl

  low_entry : (q : ℕ) → q < 1024 → started.pt q ≡ q * 4096 + 7
  low_entry q h =
      let no : (p.table0 == p.directory) ≡ false = ground (arith, apart.low_table) in
      let same : (p.table0 == p.table0) ≡ true = ground arith in
      word_at q 0 q p.table0 (omega arith) h low_frame ∙ rw (no, same) (table0_words q h)

  high_entry : (q : ℕ) → q < 1024 → started.pt (786432 + q) ≡ q * 4096 + 7
  high_entry q h =
      let no : (p.table768 == p.directory) ≡ false = ground (arith, apart.high_table) in
      let no' : (p.table768 == p.table0) ≡ false = ground (arith, apart.two_tables) in
      let same : (p.table768 == p.table768) ≡ true = ground arith in
      word_at (786432 + q) 768 q p.table768 (omega arith) h high_frame
      ∙ rw (no, no', same) (table768_words q h)

  low_present : pd started 0 % 2 ≡ 1
  low_present = ap (λ e. e % 2) low_pd ∙ directory_entry-odd p.table0

  high_present : pd started 768 % 2 ≡ 1
  high_present = ap (λ e. e % 2) high_pd ∙ directory_entry-odd p.table768

  low_lem : (va : ℕ) → va < 4194304 → get_physaddr started va ≡ va
  low_lem va h =
      let index : va / 4194304 ≡ 0 = omega arith in
      translates started va (va / 4096) (omega arith)
        (ap (λ i. pd started i % 2) index ∙ low_present) (low_entry (va / 4096) (omega arith))
      ∙ omega arith

  high_lem : (va : ℕ) → va < 4194304 → get_physaddr started (3221225472 + va) ≡ va
  high_lem va h =
      let index : (3221225472 + va) / 4194304 ≡ 768 = omega arith in
      let page : (3221225472 + va) / 4096 ≡ 786432 + va / 4096 = omega arith in
      translates started (3221225472 + va) (va / 4096) (omega arith)
        (ap (λ i. pd started i % 2) index ∙ high_present)
        (ap (λ i. started.pt i) page ∙ high_entry (va / 4096) (omega arith))
      ∙ omega arith

-- For a directory and two tables on different pages, after pd_init the first 4 MiB of memory
-- stand at address 0 and at 0xC0000000, and the directory shows in the last page of addresses
-- with its entries for both tables and for itself.
pub pd_init-get_physaddr :
    (p : Places) (others : ℕ → ℕ → ℕ) (t : BootTables) (va : ℕ)
    → AreApart p
    → va < 4194304
    → (get_physaddr (shown others p (initialised p t)) va ≡ va)
      × (get_physaddr (shown others p (initialised p t)) (3221225472 + va) ≡ va)
      × (pd (shown others p (initialised p t)) 0 ≡ bit_or p.table0 0x7)
      × (pd (shown others p (initialised p t)) 768 ≡ bit_or p.table768 0x7)
      × (pd (shown others p (initialised p t)) 1023 ≡ bit_or p.directory 0x7)
pd_init-get_physaddr p others t va apart h = (
  low_lem p others t apart va h,
  high_lem p others t apart va h,
  low_pd p others t apart,
  high_pd p others t apart,
  own_pd p others t apart,
)
