-- ===== src/Base/Bits.antt =====
-- `&` and `|` at unknown words: the law of the lowest bit, and from it masks and disjoint fields.
use Prim.Native.Nat.{
  ℕ, zero, suc, ◌+◌, ◌-◌, ◌*◌, ◌/◌, ◌%◌, ◌^◌, ◌≤◌, ◌<◌, min, max, digits, bit_and, bit_or,
  bit_and-bitwise, bit_or-bitwise,
}
use mathlib.Core.Path.{◌≡◌, refl, sym, ◌∙◌, ap}
use native.Mathlib.Nat.{div-add-mod, div-div-eq-div-mul, pow-suc, one-le-pow}
use native.Mathlib.Omega.{arith}

module _ (rest : ℕ → ℕ) (bit : ℕ → ℕ → ℕ) where
  no_digits : (fuel b : ℕ) → digits rest bit fuel zero b ≡ rest b
  no_digits zero b = refl
  no_digits (suc fuel) b = refl

  -- Fuel beyond the number itself changes nothing.
  digits_enough : (f g a b : ℕ) → a ≤ f → a ≤ g → digits rest bit f a b ≡ digits rest bit g a b
  digits_enough f g zero b le_f le_g = no_digits f b ∙ sym (no_digits g b)
  digits_enough zero g (suc a) b le_f le_g = absurd (omega arith)
  digits_enough (suc f) zero (suc a) b le_f le_g = absurd (omega arith)
  digits_enough (suc f) (suc g) (suc a) b le_f le_g =
      omega (arith, digits_enough f g (suc a / 2) (b / 2) (omega arith) (omega arith))

pub bit_and-halves : (a b : ℕ) → bit_and a b ≡ 2 * bit_and (a / 2) (b / 2) + min (a % 2) (b % 2)
bit_and-halves zero b = omega (arith, bit_and-bitwise 0 b, bit_and-bitwise 0 (b / 2))
bit_and-halves (suc a) b = omega (
  arith,
  bit_and-bitwise (suc a) b,
  bit_and-bitwise (suc a / 2) (b / 2),
  digits_enough (λ _. zero) min a (suc a / 2) (suc a / 2) (b / 2) (omega arith) (omega arith),
)

pub bit_or-halves : (a b : ℕ) → bit_or a b ≡ 2 * bit_or (a / 2) (b / 2) + max (a % 2) (b % 2)
bit_or-halves zero b = omega (arith, bit_or-bitwise 0 b, bit_or-bitwise 0 (b / 2))
bit_or-halves (suc a) b = omega (
  arith,
  bit_or-bitwise (suc a) b,
  bit_or-bitwise (suc a / 2) (b / 2),
  digits_enough (λ x. x) max a (suc a / 2) (suc a / 2) (b / 2) (omega arith) (omega arith),
)

-- A function that halves its argument and doubles its value is 0 if it is 0 at 0.
zero-of-halves :
    (f : ℕ → ℕ) → ((a : ℕ) → f a ≡ 2 * f (a / 2)) → (k a : ℕ) → a ≤ k → f 0 ≡ 0 → f a ≡ 0
zero-of-halves f halves zero a le z = ap f (omega arith) ∙ z
zero-of-halves f halves (suc k) zero le z = z
zero-of-halves f halves (suc k) (suc a) le z =
    omega (arith, halves (suc a), zero-of-halves f halves k (suc a / 2) (omega arith) z)

pub bit_and-zero_right : (a : ℕ) → bit_and a 0 ≡ 0
bit_and-zero_right a =
    zero-of-halves (λ x. bit_and x 0) (λ x. omega (arith, bit_and-halves x 0)) a a (omega arith)
      refl

two_pow_suc : (k : ℕ) → 2 ^ suc k ≡ 2 * 2 ^ k
two_pow_suc k = omega (arith, pow-suc 2 k)

div_pow_suc : (a k : ℕ) → a / 2 ^ suc k ≡ a / 2 / 2 ^ k
div_pow_suc a k = ap (λ (t : ℕ). a / t) (two_pow_suc k) ∙ sym (div-div-eq-div-mul a 2 (2 ^ k))

mod_pow_suc : (a k : ℕ) → a % 2 ^ suc k ≡ 2 * (a / 2 % 2 ^ k) + a % 2
mod_pow_suc a k = omega (
  arith,
  div-add-mod a (2 ^ suc k),
  div-add-mod (a / 2) (2 ^ k),
  div_pow_suc a k,
  ap (λ (t : ℕ). t * (a / 2 / 2 ^ k)) (two_pow_suc k),
  ap (λ (t : ℕ). 2 ^ suc k * t) (div_pow_suc a k),
)

-- A mask of `k` ones keeps the remainder.
pub bit_and_ones : (k a : ℕ) → bit_and a (2 ^ k - 1) ≡ a % 2 ^ k
bit_and_ones zero a = bit_and-zero_right a ∙ omega arith
bit_and_ones (suc k) a = ground (
  arith,
  bit_and-halves a (2 ^ suc k - 1),
  two_pow_suc k,
  one-le-pow k 2,
  mod_pow_suc a k,
  bit_and_ones k (a / 2),
)

bit_or-zero_right : (k a : ℕ) → a ≤ k → bit_or a 0 ≡ a
bit_or-zero_right k zero le = refl
bit_or-zero_right zero (suc a) le = absurd (omega arith)
bit_or-zero_right (suc k) (suc a) le =
    omega (arith, bit_or-halves (suc a) 0, bit_or-zero_right k (suc a / 2) (omega arith))

-- A field that starts at bit `k`, over `k` lower bits.
pub bit_or_low : (k hi lo : ℕ) → lo < 2 ^ k → bit_or (hi * 2 ^ k) lo ≡ hi * 2 ^ k + lo
bit_or_low zero hi lo lt = ground (arith, bit_or-zero_right hi hi)
bit_or_low (suc k) hi lo lt = ground (
  arith,
  bit_or-halves (hi * 2 ^ suc k) lo,
  ap (λ (t : ℕ). hi * t) (two_pow_suc k),
  two_pow_suc k,
  bit_or_low k hi (lo / 2),
)

-- A mask whose `k` low bits are 0 clears those bits.
pub bit_and_high : (k a m : ℕ) → bit_and a (m * 2 ^ k) ≡ bit_and (a / 2 ^ k) m * 2 ^ k
bit_and_high zero a m = ground arith
bit_and_high (suc k) a m = ground (
  arith,
  bit_and-halves a (m * 2 ^ suc k),
  ap (λ (t : ℕ). m * t) (two_pow_suc k),
  two_pow_suc k,
  div_pow_suc a k,
  ap (λ (t : ℕ). bit_and (a / 2 / 2 ^ k) m * t) (two_pow_suc k),
  bit_and_high k (a / 2) m,
)

half_or : (a b : ℕ) → bit_or a b / 2 ≡ bit_or (a / 2) (b / 2)
half_or a b = omega (arith, bit_or-halves a b)

half_and : (a b : ℕ) → bit_and a b / 2 ≡ bit_and (a / 2) (b / 2)
half_and a b = omega (arith, bit_and-halves a b)

-- `|` and `&`, bit by bit
pub bit_or-bit : (k a b : ℕ) → bit_or a b / 2 ^ k % 2 ≡ max (a / 2 ^ k % 2) (b / 2 ^ k % 2)
bit_or-bit zero a b = omega (arith, bit_or-halves a b)
bit_or-bit (suc k) a b = omega (
  arith,
  div_pow_suc (bit_or a b) k,
  div_pow_suc a k,
  div_pow_suc b k,
  ap (λ (t : ℕ). t / 2 ^ k % 2) (half_or a b),
  bit_or-bit k (a / 2) (b / 2),
)

pub bit_and-bit : (k a b : ℕ) → bit_and a b / 2 ^ k % 2 ≡ min (a / 2 ^ k % 2) (b / 2 ^ k % 2)
bit_and-bit zero a b = omega (arith, bit_and-halves a b)
bit_and-bit (suc k) a b = omega (
  arith,
  div_pow_suc (bit_and a b) k,
  div_pow_suc a k,
  div_pow_suc b k,
  ap (λ (t : ℕ). t / 2 ^ k % 2) (half_and a b),
  bit_and-bit k (a / 2) (b / 2),
)
