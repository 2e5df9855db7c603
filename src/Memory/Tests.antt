-- ===== src/Memory/Tests.antt =====
-- Runs of libc/string.
use r_oses.Prelude.{◌≡◌, arith}
use r_oses.Prelude.Slots.{update}
use r_oses.Memory.{Bytes, memmove}
use r_oses.Memory.Move.{copied, memmove-copied}
use r_oses.Memory.Compare.{IsString}

-- Each byte is its own address, but for a 0 at 7.
abbrev some_bytes : Bytes
some_bytes = update (λ a. a) 7 0

-- The target begins inside the source.
memmove-copied_example : memmove some_bytes 6 4 5 8 ≡ copied some_bytes 6 4 5 8
memmove-copied_example = memmove-copied some_bytes 6 4 5 8

word : IsString some_bytes 3 4
word = record { end = ground arith; inside = λ j lt. ground arith }
