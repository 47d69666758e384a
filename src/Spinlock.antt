-- ===== src/Spinlock.antt =====
-- kernel/src/lib/spinlock.c as one CPU runs it. The lock is the state; `interrupts` is the CPU's flag.
pub mod Threads
mod Tests
use cynix.Base.{Bool, true, false, if◌then◌else◌}
use cynix.Base.Run.{Cmd, ok, spins, interrupts_enabled, pure, fail, ◌>>=◌, ◌>>◌}

-- `__sync_bool_compare_and_swap`: stores `new` if the lock holds `old`, and says whether it did.
unfoldable pub compare_and_swap : Bool → Bool → Cmd Bool Bool
compare_and_swap true new true = ok true new
compare_and_swap false new false = ok true new
compare_and_swap _ _ lock = ok false lock

unfoldable pub spinlock_test_acq : (interrupts : Bool) → Cmd Bool Bool
unfolding compare_and_swap
spinlock_test_acq interrupts =
    if interrupts then fail interrupts_enabled else compare_and_swap false true

-- A failed attempt changes nothing, so on one CPU's view every later attempt fails too.
unfoldable pub spinlock_acquire : (interrupts : Bool) → Cmd Bool (Unit {0})
unfolding spinlock_test_acq
spinlock_acquire interrupts = do
  got ← spinlock_test_acq interrupts
  if got then pure tt else λ _. spins

unfoldable pub spinlock_release : Cmd Bool (Unit {0})
unfolding compare_and_swap
spinlock_release = do compare_and_swap true false; pure tt
