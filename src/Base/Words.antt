-- ===== src/Base/Words.antt =====
-- `size_t`, `uint64_t` and `uintptr_t` are numbers below 2 ^ 64, and their arithmetic wraps.
use Prim.Native.Nat.{ℕ, ◌+◌, ◌-◌, ◌*◌, ◌%◌, ◌^◌, ◌≤◌, ◌<◌}
use mathlib.Core.Path.{◌≡◌}
use native.Mathlib.Omega.{arith}

abbrev pub word_mod : ℕ
word_mod = 2 ^ 64

-- a + b, a - b and a * b at 64 bits
abbrev pub add64 : ℕ → ℕ → ℕ
add64 a b = (a + b) % 2 ^ 64

abbrev pub sub64 : ℕ → ℕ → ℕ
sub64 a b = (a + 2 ^ 64 - b) % 2 ^ 64

abbrev pub mul64 : ℕ → ℕ → ℕ
mul64 a b = (a * b) % 2 ^ 64

pub sub64_exact : (a b : ℕ) → b ≤ a → a < word_mod → sub64 a b ≡ a - b
sub64_exact a b h l = omega arith
