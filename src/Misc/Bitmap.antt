-- ===== src/Misc/Bitmap.antt =====
-- A bitmap is a map from bit numbers to Booleans: what setting and clearing a bit does to every bit.
use cynix.Base.{
  ℕ, ◌-◌, ◌/◌, ◌%◌, ◌^◌, ◌<◌, bit_and, bit_or, ◌≡◌, refl, sym, Bool, true, false, not, ◌&&◌, arith,
  ◌==◌, if◌then◌else◌, passes, test_of_passes,
}
use cynix.Misc.{Bytes, bit_test, bit_set, bit_reset}

abbrev pub IsBytes : Bytes → Type 0
IsBytes bitmap = (i : ℕ) → bitmap i < 256

byte_test : ℕ → ℕ → Bool
byte_test b k = not (bit_and b (2 ^ k) == 0)

same : Bool → Bool → Bool
same true b = b
same false b = not b

same_eq : (a b : Bool) → same a b ≡ true → a ≡ b
unfolding same
same_eq true b h = sym h
same_eq false true h = h
same_eq false false h = refl

-- Both bit operations at one byte and one bit, seen at a second bit.
set_agrees : ℕ → ℕ → ℕ → Bool
set_agrees b k j =
    same (byte_test (bit_or b (2 ^ k) % 2 ^ 8) j) (if k == j then true else byte_test b j)

reset_agrees : ℕ → ℕ → ℕ → Bool
reset_agrees b k j =
    same (byte_test (bit_and b (2 ^ 32 - 1 - 2 ^ k) % 2 ^ 8) j)
      (if k == j then false else byte_test b j)

byte_agrees : ℕ → Bool
byte_agrees b = passes (λ k. passes (λ j. set_agrees b k j && reset_agrees b k j) 8) 8

byte_table : passes byte_agrees 256 ≡ true
unfolding passes byte_agrees set_agrees reset_agrees byte_test same
byte_table = refl

module _ (b k j : ℕ) (hb : b < 256) (hk : k < 8) (hj : j < 8) where
  agrees : (set_agrees b k j && reset_agrees b k j) ≡ true
  unfolding byte_agrees
  agrees =
      test_of_passes (λ i. set_agrees b k i && reset_agrees b k i) 8
        (test_of_passes (λ i. passes (λ j. set_agrees b i j && reset_agrees b i j) 8) 8
          (test_of_passes byte_agrees 256 byte_table hb) hk)
        hj

  byte_test-set : byte_test (bit_or b (2 ^ k) % 2 ^ 8) j ≡ (if k == j then true else byte_test b j)
  unfolding set_agrees
  byte_test-set = same_eq _ _ (ground (arith, agrees))

  byte_test-reset :
      byte_test (bit_and b (2 ^ 32 - 1 - 2 ^ k) % 2 ^ 8) j
      ≡ (if k == j then false else byte_test b j)
  unfolding reset_agrees
  byte_test-reset = same_eq _ _ (ground (arith, agrees))

module _ (bitmap : Bytes) (i j : ℕ) (bytes : IsBytes bitmap) where
  -- Setting bit `i` sets that bit alone.
  pub bit_test-bit_set :
      bit_test (bit_set bitmap i) j ≡ (if i == j then true else bit_test bitmap j)
  unfolding bit_test bit_set byte_test
  bit_test-bit_set = ground (
    arith,
    byte_test-set (bitmap (i / 8)) (i % 8) (j % 8) (bytes (i / 8)) (omega arith) (omega arith),
  )

  -- Clearing bit `i` clears that bit alone.
  pub bit_test-bit_reset :
      bit_test (bit_reset bitmap i) j ≡ (if i == j then false else bit_test bitmap j)
  unfolding bit_test bit_reset byte_test
  bit_test-bit_reset = ground (
    arith,
    byte_test-reset (bitmap (i / 8)) (i % 8) (j % 8) (bytes (i / 8)) (omega arith) (omega arith),
  )

module _ (bitmap : Bytes) (i : ℕ) (bytes : IsBytes bitmap) where
  pub bit_set-IsBytes : IsBytes (bit_set bitmap i)
  unfolding bit_set
  bit_set-IsBytes k = ground (arith, bytes k)

  pub bit_reset-IsBytes : IsBytes (bit_reset bitmap i)
  unfolding bit_reset
  bit_reset-IsBytes k = ground (arith, bytes k)

ff_table : passes (λ k. byte_test 0xff k) 8 ≡ true
unfolding passes byte_test
ff_table = refl

-- Every bit of a byte of ones is set.
pub bit_test_ff : (bitmap : Bytes) (j : ℕ) → bitmap (j / 8) ≡ 0xff → bit_test bitmap j ≡ true
unfolding bit_test byte_test
bit_test_ff bitmap j e = rw e (test_of_passes (λ k. byte_test 0xff k) 8 ff_table (omega arith))
