-- ===== src/Idt/Vectors.antt =====
-- The vectors that callers of `idt_allocate_vector` get.
use native.Mathlib.Decide.{dec_lt}
use cynix.Base.{ℕ, zero, suc, ◌+◌, ◌%◌, ◌^◌, ◌≤◌, ◌<◌, ◌≡◌, ap, false, ◌==◌, arith, List, [], ◌∷◌}
use cynix.Base.Run.{Cmd, ok, panics, idt_exhausted, ◌>>=◌, pure}
use cynix.Spinlock.{spinlock_acquire, spinlock_release}
use cynix.Idt.{Idt, idt_allocate_vector}

-- Vectors 32 to 0xef are for devices; the counter never leaves 32 to 0xf0.
pub record IsCounting (s : Idt) : Type 0 where
  pub masked : s.interrupts ≡ false
  pub unlocked : s.idt_lock ≡ false
  pub from : 32 ≤ s.idt_free_vector
  pub upto : s.idt_free_vector ≤ 0xf0

-- `n` calls in a row
abbrev pub allocate_vectors : ℕ → Cmd Idt (List ℕ)
allocate_vectors zero = pure []
allocate_vectors (suc n) = do v ← idt_allocate_vector; rest ← allocate_vectors n; pure (v ∷ rest)

abbrev pub range : (from n : ℕ) → List ℕ
range from zero = []
range from (suc n) = from ∷ range (from + 1) n

module _ (s : Idt) (c : IsCounting s) where
  abbrev pub after : ℕ → Idt
  after n = record s { idt_free_vector = s.idt_free_vector + n }

  allocates : s.idt_free_vector < 0xf0 → idt_allocate_vector s ≡ ok s.idt_free_vector (after 1)
  unfolding idt_allocate_vector spinlock_acquire spinlock_release
  allocates lt =
      let room : (s.idt_free_vector == 0xf0) ≡ false = ground arith in
      let fits : (s.idt_free_vector + 1) % 2 ^ 8 ≡ s.idt_free_vector + 1 = omega arith in
      rw (c.masked, c.unlocked, room, fits)

  exhausted : s.idt_free_vector ≡ 0xf0 → idt_allocate_vector s ≡ panics idt_exhausted
  unfolding idt_allocate_vector spinlock_acquire
  exhausted e = rw (c.masked, c.unlocked, e)

  after-IsCounting : (n : ℕ) → s.idt_free_vector + n ≤ 0xf0 → IsCounting (after n)
  after-IsCounting n le = record {
    masked = c.masked;
    unlocked = c.unlocked;
    from = omega arith;
    upto = le;
  }

-- While the counter is from 32 to 0xf0, the lock is free and interrupts are off, calls of
-- `idt_allocate_vector` that end at 0xf0 or before return consecutive vectors from the counter on,
-- and only the counter changes.
pub allocate_vectors-fits :
    (n : ℕ) (s : Idt) (c : IsCounting s)
    → s.idt_free_vector + n ≤ 0xf0
    → allocate_vectors n s ≡ ok (range s.idt_free_vector n) (after s c n)
allocate_vectors-fits zero s c le =
    let same : s.idt_free_vector ≡ s.idt_free_vector + 0 = omega arith in
    ap (λ (k : ℕ). ok [] (record s { idt_free_vector = k })) same
allocate_vectors-fits (suc n) s c le =
    let rest =
      allocate_vectors-fits n (after s c 1) (after-IsCounting s c 1 (omega arith)) (omega arith) in
    let sum : s.idt_free_vector + 1 + n ≡ s.idt_free_vector + suc n = omega arith in
    rw (allocates s c (omega arith), rest, sum)

-- While the counter is from 32 to 0xf0, the lock is free and interrupts are off, more calls of
-- `idt_allocate_vector` than there are vectors below 0xf0 end in the panic.
pub allocate_vectors-exhausted :
    (n : ℕ) (s : Idt)
    → IsCounting s
    → 0xf0 < s.idt_free_vector + n
    → allocate_vectors n s ≡ panics idt_exhausted
allocate_vectors-exhausted zero s c lt = absurd (omega (arith, c.upto))
allocate_vectors-exhausted (suc n) s c lt = elim (dec_lt s.idt_free_vector 0xf0) [
  | yes room ↦
      let rest =
        allocate_vectors-exhausted n (after s c 1) (after-IsCounting s c 1 (omega arith))
          (omega arith) in
      rw (allocates s c room, rest)
  | no full ↦ rw (exhausted s c (omega (arith, c.upto)))
]
