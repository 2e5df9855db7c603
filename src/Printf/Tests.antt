-- ===== src/Printf/Tests.antt =====
-- Runs of libc/stdio/printf.c.
use r_oses.Prelude.{ℕ, ◌+◌, ◌≡◌, arith, List, [], ◌∷◌, ◌++◌, length, true}
use r_oses.Printf.{done, printf}
use r_oses.Printf.Items.{Item, hex_item, signed_item, string_item}
use r_oses.Printf.Formats.{format_of, parameters_of, ShowsAll, printf-ShowsAll}

abbrev ok_text : List ℕ
ok_text = b'O' ∷ b'K' ∷ []

abbrev three_items : List (Item × List ℕ)
three_items =
    (hex_item true 0xBEEF, b' ' ∷ [])
    ∷ (string_item ok_text, [])
    ∷ (signed_item 4294967254, 10 ∷ [])
    ∷ []

printf-ShowsAll_example :
    (bytes : List ℕ) × (n : ℕ) × (printf
        (ok_text ++ format_of three_items)
        (parameters_of three_items)
      ≡ done (length ok_text + n) (ok_text ++ bytes))
    × ShowsAll three_items bytes n
printf-ShowsAll_example =
    printf-ShowsAll ok_text three_items (omega arith, (omega arith, tt))
      (omega arith, (omega arith, tt), (tt, tt, (omega arith, (omega arith, tt), tt))) (omega arith)
