-- ===== src/Misc.antt =====
-- kernel/src/lib/misc.k.h: the arithmetic macros, at 64 bits, and the bit operations on a bitmap.
pub mod Align
pub mod Bitmap
use Prim.Native.Nat.{ℕ, ◌+◌, ◌-◌, ◌*◌, ◌/◌, ◌%◌, ◌^◌}
use cynix.Base.{bit_and, bit_or, Bool, not, ltb, ◌==◌, if◌then◌else◌, add64, mul64, sub64, update}

unfoldable pub min_of : ℕ → ℕ → ℕ
min_of a b = if ltb a b then a else b

unfoldable pub max_of : ℕ → ℕ → ℕ
max_of a b = if ltb b a then a else b

unfoldable pub div_roundup : ℕ → ℕ → ℕ
div_roundup value div = add64 value (sub64 div 1) / div

unfoldable pub align_up : ℕ → ℕ → ℕ
unfolding div_roundup
align_up value align = mul64 (div_roundup value align) align

unfoldable pub align_down : ℕ → ℕ → ℕ
align_down value align = mul64 (value / align) align

-- The bytes of a bitmap, by their offset.
abbrev pub Bytes : Type 0
Bytes = ℕ → ℕ

-- `bitmap_u8[bit / 8] & (1 << (bit % 8))`, as a `bool`
unfoldable pub bit_test : Bytes → ℕ → Bool
bit_test bitmap bit = not (bit_and (bitmap (bit / 8)) (2 ^ (bit % 8)) == 0)

-- `|=` and `&= ~` compute an `int`; the store keeps its low byte.
unfoldable pub bit_set : Bytes → ℕ → Bytes
bit_set bitmap bit = update bitmap (bit / 8) (bit_or (bitmap (bit / 8)) (2 ^ (bit % 8)) % 2 ^ 8)

unfoldable pub bit_reset : Bytes → ℕ → Bytes
bit_reset bitmap bit =
    update bitmap (bit / 8) (bit_and (bitmap (bit / 8)) (2 ^ 32 - 1 - 2 ^ (bit % 8)) % 2 ^ 8)
