-- ===== src/Boot/Guard.antt =====
-- The guard of the stack that `init_ssp` of kernel/arch/i386/earlyinit.c makes.
use r_oses.Prelude.{ℕ, ◌+◌, ◌*◌, ◌/◌, ◌%◌, ◌<◌, ◌≡◌, ap₂, ◌∙◌, arith, bit_and}
use r_oses.Prelude.Bits.{bit_and_split, bit_and-ones, bit_and-zero}
use r_oses.Boot.{init_ssp}

low_byte_lem : (x : ℕ) → bit_and x 0xFFFFFF00 ≡ x / 256 % 16777216 * 256
low_byte_lem x =
    bit_and_split 8 x 0xFFFFFF00 (omega arith)
    ∙ ap₂ (λ a b. a * 256 + b) (bit_and-ones 24 (x / 256) (omega arith)) (bit_and-zero (x % 256))
    ∙ omega arith

-- The guard is a word whose low byte is 0, whatever the time stamp.
pub init_ssp-word : (seed : ℕ) → (init_ssp seed < 4294967296) × (init_ssp seed % 256 ≡ 0)
unfolding init_ssp
init_ssp-word seed =
    let e = low_byte_lem ((seed * 6364136223846793005 + 1) % 18446744073709551616) in
    (omega (arith, e), omega (arith, e))
