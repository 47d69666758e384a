-- ===== src/Lapic/Calibration.antt =====
-- What calibrating the timer of the local APIC against the interval timer comes to.
use native.Mathlib.Nat.{
  div-add-mod', mod-lt, mul_comm, mul_assoc, div-eq_of_lt-le, div-lt_iff_lt-mul, pow-le-pow_right,
  le-div_iff_mul-le,
}
use cynix.Base.{
  ℕ, zero, suc, ◌+◌, ◌-◌, ◌*◌, ◌/◌, ◌%◌, ◌^◌, ◌≤◌, ◌<◌, ◌≡◌, refl, sym, ap, ◌∙◌, subst, bit_or,
  Bool, true, false, inl, inr, ltb, ◌==◌, if◌then◌else◌, List, [], ◌∷◌, some, Option-cases, sub64,
  mul64, arith,
}
use cynix.Base.Run.{Run, ok, zoom, pure}
use cynix.Cpu.Fpu.{Leaf, Leaves, cpuid}
use cynix.Lapic.{Lapic, lapic_reg_timer, lapic_reg_timer_initcnt, lapic_reg_timer_div}
use cynix.Lapic.Access.{
  lapic_read_lem, IsStopped, stopped, stopped-IsStopped, lapic_timer_stop_lem, written,
  lapic_write_lem,
}
use cynix.Lapic.Timer.{
  Timer, lapic_reg_timer_curcnt, set_freq, wait_for_zero, measure, measure_until, calibrate_by_pit,
  calibrate_by_leaf, lapic_timer_calibrate,
}
use cynix.Pit.{Ports, pit_dividend, pit_set_reload_value, outb}
use cynix.Pit.Channel.{pit_get_current_count_lem}

-- n samples over the ticks that they take, when a tick takes k of them
quotient_back : (n k : ℕ) → 0 < k → k ≤ n / k → n / (n / k) ≡ k
quotient_back n k pos le =
    let q = n / k in
    let split : q * k + n % k ≡ n = div-add-mod' n k in
    let short : n % k < k = mod-lt n pos in
    let swap : k * q ≡ q * k = mul_comm k q in
    let more : (k + 1) * q ≡ q * k + q = ground (arith, swap) in
    div-eq_of_lt-le q (omega arith) (omega (arith, more))

-- The register of the current count answers 0 after some other values; these are left.
abbrev pub Waits : (counts left : List ℕ) → Type 0
Waits [] left = ⊥
Waits (zero ∷ cs) left = cs ≡ left
Waits (suc c ∷ cs) left = Waits cs left

abbrev pub two_bytes : (count : ℕ) → List ℕ → List ℕ
two_bytes count rest = count % 2 ^ 8 ∷ count / 2 ^ 8 ∷ rest

-- What the devices answer from a round on, when the local APIC's timer counts k times for one tick
-- of the interval timer: it starts at `start`, and is lower by the ticks that the samples take, until
-- these are enough for the code.
pub data Measures (k : ℕ) : (samples : ℕ) (bytes counts : List ℕ) → Type 0 where
  last :
      {samples : ℕ} {bytes counts : List ℕ} (start : ℕ) (rest left : List ℕ)
      → 2 ^ 14 ≤ samples / k
      → samples / k ≤ start
      → start < 2 ^ 16
      → bytes ≡ two_bytes start (two_bytes (start - samples / k) rest)
      → Waits counts left
      → Measures k samples bytes counts
  again :
      {samples : ℕ} {bytes counts : List ℕ} (start : ℕ) (rest left : List ℕ)
      → samples / k < 2 ^ 14
      → samples / k ≤ start
      → start < 2 ^ 16
      → bytes ≡ two_bytes start (two_bytes (start - samples / k) rest)
      → Waits counts left
      → Measures k (samples * 2) rest left
      → Measures k samples bytes counts

wait_lem :
    (counts left : List ℕ) (t : Timer)
    → Waits counts left
    → (l : Lapic) × (wait_for_zero counts t ≡ ok tt (record t { lapic = l; counts = left }))
unfolding wait_for_zero
wait_lem [] left t w = elim w [ ]
wait_lem (zero ∷ cs) left t w =
    let (v, l, e, _) = lapic_read_lem lapic_reg_timer_curcnt t.lapic in
    (l, rw (wait_for_zero, zoom, e, w))
wait_lem (suc c ∷ cs) left t w =
    let (v, l, e, _) = lapic_read_lem lapic_reg_timer_curcnt t.lapic in
    let (l', e') = wait_lem cs left (record t { lapic = l; counts = cs }) w in
    let busy : (suc c == 0) ≡ false = ground arith in
    (
      l',
      rw (wait_for_zero, zoom, e)
          (ap
              (λ (b : Bool).
                (if b then pure tt else wait_for_zero cs) (record t { lapic = l; counts = cs }))
              busy
            ∙ e'),
    )

set_reload_lem :
    (count : ℕ) (p : Ports)
    → (w : List (ℕ × ℕ × ℕ)) × (pit_set_reload_value count p ≡ ok tt (record p { written = w }))
unfolding pit_set_reload_value outb
set_reload_lem count p = (
  (1, 0x40, count % 2 ^ 16 / 2 ^ 8 % 2 ^ 8)
      ∷ (1, 0x40, count % 2 ^ 16 % 2 ^ 8)
      ∷ (1, 0x43, 0x34)
      ∷ p.written,
  refl,
)

-- A round returns the ticks, and takes its answers.
measure_lem :
    (t : Timer) (samples start ticks : ℕ) (rest left : List ℕ)
    → ticks ≤ start
    → start < 2 ^ 16
    → t.ports.to_read ≡ two_bytes start (two_bytes (start - ticks) rest)
    → Waits t.counts left
    → (l : Lapic) × (p : Ports) × (p.to_read ≡ rest)
      × (measure samples t ≡ ok ticks (record t { lapic = l; ports = p; counts = left }))
unfolding measure
measure_lem t samples start ticks rest left le lt bytes w =
    let (w₀, e₀) = set_reload_lem 0xfff0 t.ports in
    let p₀ : Ports = record t.ports { written = w₀ } in
    let e₁ = pit_get_current_count_lem start p₀ (two_bytes (start - ticks) rest) lt bytes in
    let p₁ : Ports = record {
      written = (1, 0x43, 0) ∷ w₀;
      to_read = two_bytes (start - ticks) rest;
    } in
    let l₁ = written lapic_reg_timer_initcnt samples t.lapic in
    let (l₂, e₂) = wait_lem t.counts left (record t { lapic = l₁; ports = p₁ }) w in
    let e₃ = pit_get_current_count_lem (start - ticks) p₁ rest (omega arith) refl in
    let back : sub64 start (start - ticks) ≡ ticks = omega arith in
    (
      l₂,
      record { written = (1, 0x43, 0) ∷ p₁.written; to_read = rest },
      refl,
      rw (
        measure,
        zoom,
        e₀,
        e₁,
        lapic_write_lem lapic_reg_timer_initcnt samples t.lapic,
        e₂,
        e₃,
        back,
      ),
    )

-- The calibration has found the rate of the timer, k times the interval timer's.
Calibrates : (k : ℕ) (t : Timer) → Run Timer (Unit {0}) → Type 0
Calibrates k t r = (t' : Timer) × (r ≡ ok tt t') × (t'.lapic_timer_freq ≡ k * pit_dividend)

module _ (k : ℕ) (pos : 0 < k) (slow : k ≤ 2 ^ 14) where
  measure_until_lem :
      (n samples : ℕ) (t : Timer)
      → 2 ^ 14 * k ≤ samples * 2 ^ n
      → Measures k samples t.ports.to_read t.counts
      → Calibrates k t (measure_until (suc n) samples t)
  unfolding Calibrates measure_until set_freq
  measure_until_lem n samples t enough (last start rest left done le lt bytes w) =
      let (l, p, _, e) = measure_lem t samples start (samples / k) rest left le lt bytes w in
      let stop : ltb (samples / k) 0x4000 ≡ false = ground arith in
      let rate : samples / (samples / k) ≡ k = quotient_back samples k pos (omega arith) in
      let small : mul64 k pit_dividend ≡ k * pit_dividend = omega arith in
      (
        record t { lapic = l; ports = p; counts = left; lapic_timer_freq = k * pit_dividend },
        rw (e, stop, rate, small),
        refl,
      )
  measure_until_lem zero samples t enough (again start rest left more le lt bytes w next) =
      let reached = (le-div_iff_mul-le {x = 2 ^ 14} {y = samples} pos).1 (omega arith) in
      absurd (omega arith)
  measure_until_lem (suc n) samples t enough (again start rest left more le lt bytes w next) =
      let (l, p, e', e) = measure_lem t samples start (samples / k) rest left le lt bytes w in
      let t' : Timer = record t { lapic = l; ports = p; counts = left } in
      let go : ltb (samples / k) 0x4000 ≡ true = ground arith in
      let below = (div-lt_iff_lt-mul {x = samples} {y = 2 ^ 14} pos).0 more in
      let double : mul64 samples 2 ≡ samples * 2 = omega arith in
      let twice : samples * 2 ^ suc n ≡ samples * 2 * 2 ^ n =
        ap (λ (q : ℕ). samples * q) {y = 2 * 2 ^ n} (omega arith)
        ∙ sym (mul_assoc samples 2 (2 ^ n)) in
      let (t'', f, rate) =
        measure_until_lem n (samples * 2) t' (omega (arith, twice))
          (subst (λ b. Measures k (samples * 2) b left) (sym e') next) in
      (t'', rw (e, go) (ap (λ (s : ℕ). measure_until (suc n) s t') double ∙ f), rate)

  by_pit_lem :
      (rounds : ℕ) (t : Timer)
      → 25 ≤ rounds
      → Measures k 16 t.ports.to_read t.counts
      → (t' : Timer) × (calibrate_by_pit rounds t ≡ ok tt t')
        × (t'.lapic_timer_freq ≡ k * pit_dividend)
        × IsStopped t'.lapic
  unfolding Calibrates calibrate_by_pit
  by_pit_lem zero t le m = absurd (omega arith)
  by_pit_lem (suc n) t le m =
      let grown : 2 ^ 24 ≤ 2 ^ n =
        pow-le-pow_right {n = 2} (omega arith) {i = 24} {j = n} (omega arith) in
      let (t', e, rate) = measure_until_lem n 16 t (omega (arith, grown)) m in
      (
        record t' { lapic = stopped t'.lapic },
        rw (calibrate_by_pit, zoom, e, lapic_timer_stop_lem t'.lapic),
        rate,
        stopped-IsStopped t'.lapic,
      )

  -- On a CPU that does not report the frequency of the APIC's timer, where that timer counts k
  -- times for a tick of the interval timer, k from 1 to 2 ^ 14, and ends each wait,
  -- `lapic_timer_calibrate` returns within 25 rounds, has found exactly k times the interval
  -- timer's frequency, and leaves the timer stopped and masked.
  pub lapic_timer_calibrate-exact :
      (leaves : Leaves) (rounds : ℕ) (t : Timer)
      → ((l : Leaf) → cpuid leaves 0x15 0 ≡ some l → l.ecx ≡ 0)
      → 25 ≤ rounds
      → Measures k 16 t.ports.to_read t.counts
      → (t' : Timer) × (lapic_timer_calibrate leaves rounds t ≡ ok tt t')
        × (t'.lapic_timer_freq ≡ k * pit_dividend)
        × IsStopped t'.lapic
  unfolding lapic_timer_calibrate calibrate_by_leaf
  lapic_timer_calibrate-exact leaves rounds t unknown le m =
      let set = written lapic_reg_timer (bit_or (2 ^ 16) 0xff) (stopped t.lapic) in
      let t₁ : Timer = record t { lapic = written lapic_reg_timer_div 0b1011 set } in
      let (t', e, rate, off) = by_pit_lem rounds t₁ le m in
      let by_leaf : calibrate_by_leaf rounds (cpuid leaves 0x15 0) t₁ ≡ ok tt t' =
        elim (Option-cases (cpuid leaves 0x15 0)) [
          | inl missing ↦ rw missing e
          | inr (l, there) ↦ rw (there, unknown l there) e
        ] in
      (
        t',
        rw
            (
              lapic_timer_calibrate,
              zoom,
              lapic_timer_stop_lem t.lapic,
              lapic_write_lem lapic_reg_timer (bit_or (2 ^ 16) 0xff) (stopped t.lapic),
              lapic_write_lem lapic_reg_timer_div 0b1011 set,
            )
            by_leaf,
        rate,
        off,
      )
