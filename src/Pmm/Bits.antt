-- ===== src/Pmm/Bits.antt =====
-- Runs of pages in the bitmap, and what the loops over bits do to every page.
use cynix.Base.{ℕ, zero, suc, ◌+◌, ◌≡◌, Bool, true, false, ◌&&◌, arith, leb, ltb, if◌then◌else◌}
use cynix.Misc.{Bytes, bit_test, bit_set, bit_reset}
use cynix.Misc.Bitmap.{
  IsBytes, bit_test-bit_set, bit_test-bit_reset, bit_set-IsBytes, bit_reset-IsBytes,
}
use cynix.Pmm.{set_bits, reset_bits}

-- Page `j` is one of the `n` pages from `first` on.
abbrev pub in_run : (first n j : ℕ) → Bool
in_run first n j = leb first j && ltb j (first + n)

pub set_bits-IsBytes : (b : Bytes) (i n : ℕ) → IsBytes b → IsBytes (set_bits b i n)
unfolding set_bits
set_bits-IsBytes b i zero h = h
set_bits-IsBytes b i (suc n) h = set_bits-IsBytes (bit_set b i) (i + 1) n (bit_set-IsBytes b i h)

pub reset_bits-IsBytes : (b : Bytes) (i n : ℕ) → IsBytes b → IsBytes (reset_bits b i n)
unfolding reset_bits
reset_bits-IsBytes b i zero h = h
reset_bits-IsBytes b i (suc n) h =
    reset_bits-IsBytes (bit_reset b i) (i + 1) n (bit_reset-IsBytes b i h)

-- Setting a run sets the bits of its pages alone.
pub bit_test-set_bits :
    (b : Bytes) (i n j : ℕ)
    → IsBytes b
    → bit_test (set_bits b i n) j ≡ (if in_run i n j then true else bit_test b j)
unfolding set_bits
bit_test-set_bits b i zero j h = ground arith
bit_test-set_bits b i (suc n) j h = ground (
  arith,
  bit_test-set_bits (bit_set b i) (i + 1) n j (bit_set-IsBytes b i h),
  bit_test-bit_set b i j h,
)

-- Clearing a run clears the bits of its pages alone.
pub bit_test-reset_bits :
    (b : Bytes) (i n j : ℕ)
    → IsBytes b
    → bit_test (reset_bits b i n) j ≡ (if in_run i n j then false else bit_test b j)
unfolding reset_bits
bit_test-reset_bits b i zero j h = ground arith
bit_test-reset_bits b i (suc n) j h = ground (
  arith,
  bit_test-reset_bits (bit_reset b i) (i + 1) n j (bit_reset-IsBytes b i h),
  bit_test-bit_reset b i j h,
)
