-- ===== src/Acpi/Clock.antt =====
-- The HPET as a clock: `hpet_init` after it has found the table, and the nanoseconds since boot.
use native.Mathlib.Nat.{
  div-add-mod, mod-lt, mul-le-mul, mul-le-mul_left, mul-le-mul_right, mul-lt-mul_of_pos_right,
}
use native.Mathlib.Decide.{dec_le}
use cynix.Base.{
  ℕ, ◌+◌, ◌*◌, ◌/◌, ◌%◌, ◌^◌, ◌≤◌, ◌<◌, ◌≡◌, refl, bit_or, ==_false, mul64, word_mod, arith,
}
use cynix.Base.Bits.{bit_or-halves}
use cynix.Base.Run.{ok}
use cynix.Acpi.{Acpi, hpet_read_counter, start_hpet, nanoseconds_since_boot}

abbrev femto : ℕ
femto = 1000000000000000

abbrev giga : ℕ
giga = 1000000000

-- What `hpet_init` takes for the frequency of a counter with a period in femtoseconds, and the whole
-- nanoseconds that a tick then counts for
abbrev pub frequency : (period : ℕ) → ℕ
frequency period = femto / period

abbrev pub tick : (period : ℕ) → ℕ
tick period = giga / frequency period

module _ (period : ℕ) (lo : 1000000 ≤ period) (hi : period ≤ 100000000) where
  abbrev f : ℕ
  f = frequency period

  below : f * period ≤ femto
  below = omega (arith, div-add-mod femto period)

  above : femto < (f + 1) * period
  above = omega (arith, div-add-mod femto period, mod-lt femto {m = period} (omega arith))

  f_least : 10000000 ≤ f
  f_least = elim (dec_le 10000000 f) [
    | yes le ↦ le
    | no less ↦
        let up : f + 1 ≤ 10000000 = omega arith in absurd (omega (arith, above, mul-le-mul up hi))
  ]

  f_most : f ≤ giga
  f_most = elim (dec_le f giga) [
    | yes le ↦ le
    | no more ↦
        let up : giga + 1 ≤ f = omega arith in absurd (omega (arith, below, mul-le-mul up lo))
  ]

  tick_below : tick period * f ≤ giga
  tick_below = omega (arith, div-add-mod giga f)

  tick_above : giga < (tick period + 1) * f
  tick_above = omega (arith, div-add-mod giga f, mod-lt giga {m = f} (omega (arith, f_least)))

  -- A tick counts for its whole nanoseconds, or for one more.
  tick_least : period / 1000000 ≤ tick period
  tick_least = elim (dec_le (period / 1000000) (tick period)) [
    | yes le ↦ le
    | no less ↦
        let up : tick period + 1 ≤ period / 1000000 = omega arith in
        let whole : period / 1000000 * 1000000 ≤ period = omega arith in
        absurd (
          omega (arith, tick_above, below, mul-le-mul_right f up, mul-le-mul_left f whole, f_least))
  ]

  tick_most : tick period ≤ period / 1000000 + 1
  tick_most = elim (dec_le (tick period) (period / 1000000 + 1)) [
    | yes le ↦ le
    | no more ↦
        let up : period / 1000000 + 2 ≤ tick period = omega arith in
        let whole : period ≤ (period / 1000000 + 1) * 1000000 = omega arith in
        absurd (
          omega (
            arith,
            tick_below,
            above,
            mul-le-mul_right f up,
            mul-le-mul_left (f + 1) whole,
            f_least,
          ))
  ]

  tick_some : 1 ≤ tick period
  tick_some = omega (arith, tick_least)

  tick_small : tick period ≤ 101
  tick_small = omega (arith, tick_most)

-- The state that `hpet_init` leaves once it has found the table
abbrev pub started : Acpi → (period : ℕ) → Acpi
started a period = record a {
  hpet_frequency = frequency period;
  hpet = record a.hpet {
    main_counter_value = 0;
    general_configuration = bit_or a.hpet.general_configuration 1;
  };
}

-- The clock after the counter has come to a value
abbrev pub later : Acpi → (counter : ℕ) → Acpi
later a counter = record a { hpet = record a.hpet { main_counter_value = counter } }

module _ (a : Acpi) (period : ℕ) (says : a.hpet.general_capabilities / 2 ^ 32 ≡ period)
    (lo : 1000000 ≤ period) (hi : period ≤ 100000000) where
  start_hpet-started : start_hpet a ≡ ok tt (started a period)
  unfolding start_hpet
  start_hpet-started = rw (says, ==_false period 0 (omega arith))

  nanoseconds-later :
      (counter : ℕ)
      → counter * 101 < word_mod
      → nanoseconds_since_boot (later (started a period) counter)
        ≡ ok (counter * tick period) (later (started a period) counter)
  unfolding nanoseconds_since_boot hpet_read_counter
  nanoseconds-later counter fits =
      let exact : mul64 counter (tick period) ≡ counter * tick period =
        omega (arith, mul-le-mul_left counter (tick_small period lo hi)) in
      rw (==_false (frequency period) 0 (omega (arith, f_least period lo hi)), exact)

  -- With a counter period of 10 ^ 6 to 10 ^ 8 femtoseconds, `start_hpet` returns, sets the counter
  -- to 0 and the enable bit; `uacpi_kernel_get_nanoseconds_since_boot` then returns more at a
  -- higher counter, up to 2 ^ 64 / 101 ticks, and counts for each tick the period's whole
  -- nanoseconds or one more.
  pub start_hpet-nanoseconds :
      (c d : ℕ)
      → c < d
      → d * 101 < word_mod
      → (b : Acpi) × (x : ℕ) × (y : ℕ) × (start_hpet a ≡ ok tt b)
        × (b.hpet.main_counter_value ≡ 0)
        × (b.hpet.general_configuration % 2 ≡ 1)
        × (nanoseconds_since_boot (later b c) ≡ ok x (later b c))
        × (nanoseconds_since_boot (later b d) ≡ ok y (later b d))
        × (x < y)
        × (c * (period / 1000000) ≤ x)
        × (x ≤ c * (period / 1000000 + 1))
  start_hpet-nanoseconds c d lt fits = (
    started a period,
    c * tick period,
    d * tick period,
    start_hpet-started,
    refl,
    omega (arith, bit_or-halves a.hpet.general_configuration 1),
    nanoseconds-later c (omega arith),
    nanoseconds-later d fits,
    mul-lt-mul_of_pos_right lt (tick_some period lo hi),
    mul-le-mul_left c (tick_least period lo hi),
    mul-le-mul_left c (tick_most period lo hi),
  )
