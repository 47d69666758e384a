-- ===== src/Slab/Sizes.antt =====
-- Which slab a request leads to.
use native.Mathlib.Nat.{pow-suc, pow-le-pow_right}
use native.Mathlib.Decide.{dec_le}
use cynix.Base.{
  ℕ, zero, suc, ◌-◌, ◌*◌, ◌^◌, ◌≤◌, ◌<◌, ◌≡◌, refl, ap, ◌⊎◌, inl, inr, none, some, leb, true, false,
  ==_false, arith,
}
use cynix.Slab.{highest_bit, bsr, slab_for}
use cynix.Slab.Classes.{class_size}

leb-true : (a b : ℕ) → a ≤ b → leb a b ≡ true
leb-true a b le = ground arith

leb-false : (a b : ℕ) → ¬ (a ≤ b) → leb a b ≡ false
leb-false a b gt = ground arith

abbrev IsHighest : (x b : ℕ) → Type 0
IsHighest x b = (2 ^ b ≤ x) × (x < 2 ^ suc b)

highest_bit-IsHighest : (k x : ℕ) → 0 < x → x < 2 ^ suc k → IsHighest x (highest_bit k x)
unfolding highest_bit
highest_bit-IsHighest zero x pos lt = (omega arith, lt)
highest_bit-IsHighest (suc k) x pos lt = elim (dec_le (2 ^ suc k) x) [
  | yes le ↦ rw (leb-true (2 ^ suc k) x le) (le, lt)
  | no gt ↦ rw (leb-false (2 ^ suc k) x gt) (highest_bit-IsHighest k x pos (omega arith))
]

bsr-IsHighest : (stale x : ℕ) → 0 < x → x < 2 ^ 64 → IsHighest x (bsr stale x)
unfolding bsr
bsr-IsHighest stale x pos lt = rw (==_false x 0 (omega arith)) (highest_bit-IsHighest 63 x pos lt)

-- For a request of at least one byte, `slab_for` leads to a slab whose entries hold the request, and
-- are less than twice as large or of the smallest size; a request of 2 ^ 14 bytes or more has none.
pub slab_for-fits :
    (stale size : ℕ)
    → 0 < size
    → size < 2 ^ 64
    → ((i : ℕ) × (slab_for stale size ≡ some i)
        × (i < 12)
        × (size < class_size i)
        × ((i ≡ 0) ⊎ (class_size i ≤ 2 * size)))
      ⊎ ((slab_for stale size ≡ none) × (2 ^ 14 ≤ size))
unfolding slab_for
slab_for-fits stale size pos lt =
    let b = bsr stale size in
    let (low, high) = bsr-IsHighest stale size pos lt in
    elim (dec_le b 2) [
      | yes small ↦ inl (
        0,
        rw (leb-true b 2 small) refl,
        omega arith,
        omega (arith, pow-le-pow_right {n = 2} (omega arith) {i = suc b} {j = 3} (omega arith)),
        inl refl,
      )
      | no more ↦ elim (dec_le b 13) [
        | yes fits ↦
            let power : class_size (b - 2) ≡ 2 ^ suc b = ap (λ k. 2 ^ k) (omega arith) in
            inl (
              b - 2,
              rw (leb-false b 2 more, leb-true b 13 fits) refl,
              omega arith,
              omega (arith, power),
              inr (omega (arith, power, pow-suc 2 b)),
            )
        | no large ↦ inr (
          rw (leb-false b 2 more, leb-false b 13 large) refl,
          omega (arith, pow-le-pow_right {n = 2} (omega arith) {i = 14} {j = b} (omega arith)),
        )
      ]
    ]
