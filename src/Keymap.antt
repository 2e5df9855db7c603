-- ===== src/Keymap.antt =====
-- The tables of kernel/arch/i386/keyboard.c: the key code of a scan code, and the character of a
-- key code, alone and shifted.
use r_oses.Prelude.{ℕ, List, [], ◌∷◌}

abbrev pub keycodes : List ℕ
keycodes =
    0x00 ∷ 0x00 ∷ 0x21 ∷ 0x22 ∷ 0x23 ∷ 0x24 ∷ 0x25 ∷ 0x26 ∷ 0x27 ∷ 0x28 ∷ 0x29 ∷ 0x2a ∷ 0x2b ∷ 0x2c
    ∷ 0x2d ∷ 0x40 ∷ 0x41 ∷ 0x42 ∷ 0x43 ∷ 0x44 ∷ 0x45 ∷ 0x46 ∷ 0x47 ∷ 0x48 ∷ 0x49 ∷ 0x4a ∷ 0x4b
    ∷ 0x4c ∷ 0x6c ∷ 0xa0 ∷ 0x61 ∷ 0x62 ∷ 0x63 ∷ 0x64 ∷ 0x65 ∷ 0x66 ∷ 0x67 ∷ 0x68 ∷ 0x69 ∷ 0x6a
    ∷ 0x6b ∷ 0x20 ∷ 0x80 ∷ 0x4d ∷ 0x81 ∷ 0x82 ∷ 0x83 ∷ 0x84 ∷ 0x85 ∷ 0x86 ∷ 0x87 ∷ 0x88 ∷ 0x89
    ∷ 0x8a ∷ 0x8b ∷ 0x30 ∷ 0xa3 ∷ 0xa4 ∷ 0x60 ∷ 0x01 ∷ 0x02 ∷ 0x03 ∷ 0x04 ∷ 0x05 ∷ 0x06 ∷ 0x07
    ∷ 0x08 ∷ 0x09 ∷ 0x0a ∷ 0x2e ∷ 0xc0 ∷ 0x4e ∷ 0x4f ∷ 0x50 ∷ 0x31 ∷ 0x6d ∷ 0x6e ∷ 0x6f ∷ 0x51
    ∷ 0x8c ∷ 0x8d ∷ 0x8e ∷ 0xad ∷ 0xae ∷ 0x00 ∷ 0x00 ∷ 0x00 ∷ 0x0b ∷ 0x0c ∷ 0xc1 ∷ 0x00 ∷ 0x00
    ∷ 0x00 ∷ 0x00 ∷ 0x00 ∷ 0x00 ∷ 0x00 ∷ 0x00 ∷ 0xc2 ∷ 0x00 ∷ 0x00 ∷ 0x8f ∷ 0xa6 ∷ 0x00 ∷ 0x00
    ∷ 0x13 ∷ 0x0f ∷ 0x16 ∷ 0x00 ∷ 0xc3 ∷ 0x00 ∷ 0x00 ∷ 0x00 ∷ 0x00 ∷ 0x00 ∷ 0x1c ∷ 0x00 ∷ 0x00
    ∷ 0x00 ∷ 0x14 ∷ 0x00 ∷ 0x15 ∷ 0x00 ∷ 0xc4 ∷ 0x00 ∷ 0x00 ∷ 0x2f ∷ 0x00 ∷ 0x1c ∷ 0xa5 ∷ 0x00
    ∷ 0x00 ∷ 0x00 ∷ 0x00 ∷ 0x00 ∷ 0x00 ∷ 0x00 ∷ 0x00 ∷ 0x00 ∷ 0x00 ∷ 0x00 ∷ 0x00 ∷ 0xd1 ∷ 0x00
    ∷ 0x1d ∷ 0xa9 ∷ 0xa7 ∷ 0x00 ∷ 0xa8 ∷ 0x00 ∷ 0xac ∷ 0x00 ∷ 0x1e ∷ 0xaa ∷ 0xab ∷ 0x0d ∷ 0x0e
    ∷ 0x00 ∷ 0x00 ∷ 0x00 ∷ 0x00 ∷ 0x00 ∷ 0x00 ∷ 0x00 ∷ 0xa2 ∷ 0xc5 ∷ 0x1f ∷ 0x12 ∷ 0xc6 ∷ 0x00
    ∷ 0x00 ∷ 0x00 ∷ 0xc7 ∷ 0x00 ∷ 0xc8 ∷ 0xc9 ∷ 0xca ∷ 0xcb ∷ 0xcc ∷ 0xcd ∷ 0xce ∷ 0xcf ∷ 0xd0 ∷ []

abbrev pub us_querty : List ℕ
us_querty =
    0x00 ∷ 0x00 ∷ 0x00 ∷ 0x00 ∷ 0x00 ∷ 0x00 ∷ 0x00 ∷ 0x00 ∷ 0x00 ∷ 0x00 ∷ 0x00 ∷ 0x00 ∷ 0x00 ∷ 0x00
    ∷ 0x00 ∷ 0x00 ∷ 0x00 ∷ 0x00 ∷ 0x00 ∷ 0x00 ∷ 0x00 ∷ 0x00 ∷ 0x00 ∷ 0x00 ∷ 0x00 ∷ 0x00 ∷ 0x00
    ∷ 0x00 ∷ 0x00 ∷ 0x00 ∷ 0x00 ∷ 0x00 ∷ 0x60 ∷ 0x31 ∷ 0x32 ∷ 0x33 ∷ 0x34 ∷ 0x35 ∷ 0x36 ∷ 0x37
    ∷ 0x38 ∷ 0x39 ∷ 0x30 ∷ 0x2d ∷ 0x3d ∷ 0x08 ∷ 0x00 ∷ 0x2f ∷ 0x2a ∷ 0x2d ∷ 0x00 ∷ 0x00 ∷ 0x00
    ∷ 0x00 ∷ 0x00 ∷ 0x00 ∷ 0x00 ∷ 0x00 ∷ 0x00 ∷ 0x00 ∷ 0x00 ∷ 0x00 ∷ 0x00 ∷ 0x00 ∷ 0x09 ∷ 0x71
    ∷ 0x77 ∷ 0x65 ∷ 0x72 ∷ 0x74 ∷ 0x79 ∷ 0x75 ∷ 0x69 ∷ 0x6f ∷ 0x70 ∷ 0x5b ∷ 0x5d ∷ 0x5c ∷ 0x37
    ∷ 0x38 ∷ 0x39 ∷ 0x2b ∷ 0x00 ∷ 0x00 ∷ 0x00 ∷ 0x00 ∷ 0x00 ∷ 0x00 ∷ 0x00 ∷ 0x00 ∷ 0x00 ∷ 0x00
    ∷ 0x00 ∷ 0x00 ∷ 0x00 ∷ 0x00 ∷ 0x00 ∷ 0x61 ∷ 0x73 ∷ 0x64 ∷ 0x66 ∷ 0x67 ∷ 0x68 ∷ 0x6a ∷ 0x6b
    ∷ 0x6c ∷ 0x3b ∷ 0x27 ∷ 0x0d ∷ 0x34 ∷ 0x35 ∷ 0x36 ∷ 0x00 ∷ 0x00 ∷ 0x00 ∷ 0x00 ∷ 0x00 ∷ 0x00
    ∷ 0x00 ∷ 0x00 ∷ 0x00 ∷ 0x00 ∷ 0x00 ∷ 0x00 ∷ 0x00 ∷ 0x00 ∷ 0x00 ∷ 0x00 ∷ 0x00 ∷ 0x7a ∷ 0x78
    ∷ 0x63 ∷ 0x76 ∷ 0x62 ∷ 0x6e ∷ 0x6d ∷ 0x2c ∷ 0x2e ∷ 0x2f ∷ 0x00 ∷ 0x31 ∷ 0x32 ∷ 0x33 ∷ 0x0d
    ∷ 0x00 ∷ 0x00 ∷ 0x00 ∷ 0x00 ∷ 0x00 ∷ 0x00 ∷ 0x00 ∷ 0x00 ∷ 0x00 ∷ 0x00 ∷ 0x00 ∷ 0x00 ∷ 0x00
    ∷ 0x00 ∷ 0x00 ∷ 0x00 ∷ 0x00 ∷ 0x00 ∷ 0x00 ∷ 0x00 ∷ 0x20 ∷ 0x00 ∷ 0x00 ∷ 0x00 ∷ 0x00 ∷ 0x00
    ∷ 0x00 ∷ 0x00 ∷ 0x00 ∷ 0x30 ∷ 0x2e ∷ 0x00 ∷ 0x00 ∷ 0x00 ∷ 0x00 ∷ 0x00 ∷ 0x00 ∷ 0x00 ∷ 0x00
    ∷ 0x00 ∷ 0x00 ∷ 0x00 ∷ 0x00 ∷ 0x00 ∷ 0x00 ∷ 0x00 ∷ 0x00 ∷ 0x00 ∷ 0x00 ∷ 0x00 ∷ 0x00 ∷ 0x00
    ∷ 0x00 ∷ 0x00 ∷ 0x00 ∷ 0x00 ∷ 0x00 ∷ 0x00 ∷ 0x00 ∷ 0x00 ∷ 0x00 ∷ 0x00 ∷ 0x00 ∷ 0x00 ∷ 0x00
    ∷ 0x00 ∷ 0x00 ∷ 0x00 ∷ 0x00 ∷ 0x00 ∷ 0x00 ∷ 0x00 ∷ 0x00 ∷ 0x00 ∷ 0x00 ∷ 0x00 ∷ 0x00 ∷ 0x00
    ∷ 0x00 ∷ 0x00 ∷ 0x00 ∷ 0x00 ∷ 0x00 ∷ 0x00 ∷ 0x00 ∷ 0x00 ∷ 0x00 ∷ 0x00 ∷ 0x00 ∷ 0x00 ∷ 0x00
    ∷ 0x00 ∷ 0x00 ∷ 0x00 ∷ 0x00 ∷ 0x00 ∷ 0x00 ∷ 0x00 ∷ 0x00 ∷ 0x00 ∷ 0x00 ∷ 0x00 ∷ 0x00 ∷ 0x00
    ∷ 0x00 ∷ 0x00 ∷ 0x00 ∷ 0x00 ∷ 0x00 ∷ 0x00 ∷ 0x00 ∷ 0x00 ∷ []

abbrev pub us_querty_shift : List ℕ
us_querty_shift =
    0x22 ∷ 0x28 ∷ 0x29 ∷ 0x2b ∷ 0x3c ∷ 0x5f ∷ 0x3e ∷ 0x3f ∷ 0x29 ∷ 0x21 ∷ 0x40 ∷ 0x23 ∷ 0x24 ∷ 0x25
    ∷ 0x5e ∷ 0x26 ∷ 0x2a ∷ 0x28 ∷ 0x3a ∷ 0x3a ∷ 0x3c ∷ 0x3d ∷ 0x3e ∷ 0x3f ∷ 0x40 ∷ 0x61 ∷ 0x62
    ∷ 0x63 ∷ 0x64 ∷ 0x65 ∷ 0x66 ∷ 0x67 ∷ 0x68 ∷ 0x69 ∷ 0x6a ∷ 0x6b ∷ 0x6c ∷ 0x6d ∷ 0x6e ∷ 0x6f
    ∷ 0x70 ∷ 0x71 ∷ 0x72 ∷ 0x73 ∷ 0x74 ∷ 0x75 ∷ 0x76 ∷ 0x77 ∷ 0x78 ∷ 0x79 ∷ 0x7a ∷ 0x7b ∷ 0x7c
    ∷ 0x7d ∷ 0x5e ∷ 0x5f ∷ 0x7e ∷ 0x41 ∷ 0x42 ∷ 0x43 ∷ 0x44 ∷ 0x45 ∷ 0x46 ∷ 0x47 ∷ 0x48 ∷ 0x49
    ∷ 0x4a ∷ 0x4b ∷ 0x4c ∷ 0x4d ∷ 0x4e ∷ 0x4f ∷ 0x50 ∷ 0x51 ∷ 0x52 ∷ 0x53 ∷ 0x54 ∷ 0x55 ∷ 0x56
    ∷ 0x57 ∷ 0x58 ∷ 0x59 ∷ 0x5a ∷ 0x5b ∷ 0x5c ∷ 0x5d ∷ 0x7e ∷ 0x7f ∷ []
