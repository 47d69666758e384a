-- ===== src/Spinlock/Tests.antt =====
-- Two CPUs: the first is inside and the second waits.
use cynix.Base.{refl, true, update}
use cynix.Spinlock.{compare_and_swap, spinlock_test_acq}
use cynix.Spinlock.Threads.{
  waiting, inside, Lock, call, attempt, Reaches, start, after, idle, IsExclusive,
  Reaches-IsExclusive,
}

abbrev contended : Lock
contended = record {
  spinlock = true;
  place = update (update (update idle.place 0 waiting) 0 inside) 1 waiting;
}

reaches_contended : Reaches idle contended
unfolding spinlock_test_acq compare_and_swap
reaches_contended = after (after (after start (call 0 refl)) (attempt 0 refl)) (call 1 refl)

Reaches-IsExclusive_example : IsExclusive contended
Reaches-IsExclusive_example = Reaches-IsExclusive reaches_contended
