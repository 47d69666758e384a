-- ===== src/Pit/Channel.antt =====
-- The channel of the timer that the code programs.
use native.Mathlib.Decide.{ℕ_discrete}
use native.Mathlib.Nat.{div-add-mod', mod-lt, mul-le-mul_left}
use cynix.Base.{
  ℕ, ◌+◌, ◌*◌, ◌/◌, ◌%◌, ◌^◌, ◌≤◌, ◌<◌, ◌≡◌, ap, bit_or, Bool-cases, inl, inr, ltb, List, ◌∷◌,
  arith,
}
use cynix.Base.Bits.{bit_or_low}
use cynix.Base.Run.{ok}
use cynix.Pit.{Ports, outb, inb, pit_dividend, pit_get_current_count, divisor}

-- When the timer answers with the two bytes of a 16-bit count, low byte first,
-- `pit_get_current_count` latches it and returns the count.
pub pit_get_current_count_lem :
    (count : ℕ) (ports : Ports) (rest : List ℕ)
    → count < 2 ^ 16
    → ports.to_read ≡ count % 2 ^ 8 ∷ count / 2 ^ 8 ∷ rest
    → pit_get_current_count ports
      ≡ ok count (record { written = (1, 0x43, 0) ∷ ports.written; to_read = rest })
unfolding pit_get_current_count outb inb
pit_get_current_count_lem count ports rest lt e =
    let value : bit_or (count / 2 ^ 8 % 2 ^ 8 * 2 ^ 8) (count % 2 ^ 8 % 2 ^ 8) ≡ count =
      omega (arith, bit_or_low 8 (count / 2 ^ 8 % 2 ^ 8) (count % 2 ^ 8 % 2 ^ 8) (omega arith)) in
    rw (e, value)

-- From 19 Hz up to the timer's own frequency, the divisor of `pit_set_frequency` is above 0, fits
-- 16 bits, and its product with the frequency misses the timer's frequency by at most half the
-- frequency.
pub divisor-nearest :
    (frequency : ℕ)
    → 19 ≤ frequency
    → frequency ≤ pit_dividend
    → (0 < divisor frequency)
      × (divisor frequency < 2 ^ 16)
      × (2 * (divisor frequency * frequency) ≤ 2 * pit_dividend + frequency)
      × (2 * pit_dividend ≤ 2 * (divisor frequency * frequency) + frequency)
unfolding divisor
divisor-nearest f lo hi =
    let q = pit_dividend / f in
    let r = pit_dividend % f in
    let sum : q * f + r ≡ pit_dividend = div-add-mod' pit_dividend f in
    let below : r < f = mod-lt pit_dividend (omega arith) in
    let steps : q * 19 ≤ q * f = mul-le-mul_left q lo in
    let product : (q + 1) * f ≡ q * f + f = ground arith in
    let positive : 1 ≤ q = elim (ℕ_discrete q 0) [
      | yes e ↦ absurd (omega (arith, ap (λ (t : ℕ). t * f) e))
      | no ne ↦ omega arith
    ] in
    elim (Bool-cases (ltb (f / 2) r)) [
      | inl up ↦
          let more : f / 2 < r = ground arith in
          rw (up, product) (omega arith, omega arith, omega arith, omega arith)
      | inr down ↦
          let less : r ≤ f / 2 = ground arith in
          rw down (positive, omega arith, omega arith, omega arith)
    ]
