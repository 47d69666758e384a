-- ===== src/Uacpi/Locks.antt =====
-- Spinlocks for uACPI: made in an entry of a slab, locked with interrupts off.
use cynix.Base.{
  ℕ, ◌+◌, ◌*◌, ◌/◌, ◌%◌, ◌^◌, ◌<◌, ◌≡◌, ◌≢◌, refl, Bool, true, false, none, some, ==_true, ==_false,
  update, update_self, update_ne, update_all, arith, subst,
}
use cynix.Base.Run.{Run, ok, panics, spins, out_of_memory, zoom}
use cynix.Machine.{interrupt_toggle}
use cynix.Slab.{Slabs, slab_alloc}
use cynix.Slab.Classes.{class}
use cynix.Slab.Heap.{Live, IsHeap, with_words, below_12}
use cynix.Slab.Moves.{written-IsHeap}
use cynix.Slab.Calls.{IsSlabs}
use cynix.Slab.Requests.{Lent, lent, too_large, out, slab_alloc-Lent}
use cynix.Spinlock.{spinlock_acquire, spinlock_release, compare_and_swap}
use cynix.Uacpi.{with_lock_byte, create_spinlock, acquire_lock, lock_spinlock, unlock_spinlock}

-- The state with interrupts as given
abbrev pub flagged : Slabs → Bool → Slabs
flagged s i = record s { machine = record s.machine { interrupts = i } }

module _ (lock : ℕ) (s : Slabs) where
  abbrev w : ℕ
  w = s.machine.word lock

  abbrev taken : Slabs
  taken = with_lock_byte lock true (flagged s false)

  lock_spinlock-free : w % 2 ^ 8 ≡ 0 → lock_spinlock lock s ≡ ok s.machine.interrupts taken
  unfolding lock_spinlock acquire_lock spinlock_acquire compare_and_swap interrupt_toggle
  lock_spinlock-free free = rw (lock_spinlock, zoom, ==_true (w % 2 ^ 8) 0 free)

  lock_spinlock-taken : w % 2 ^ 8 ≢ 0 → lock_spinlock lock s ≡ spins
  unfolding lock_spinlock acquire_lock spinlock_acquire compare_and_swap interrupt_toggle
  lock_spinlock-taken held = rw (lock_spinlock, zoom, ==_false (w % 2 ^ 8) 0 held)

  unlock_spinlock-taken :
      (old : Bool)
      → w % 2 ^ 8 ≢ 0
      → unlock_spinlock lock old s ≡ ok tt (flagged (with_lock_byte lock false s) old)
  unfolding unlock_spinlock spinlock_release compare_and_swap interrupt_toggle
  unlock_spinlock-taken old held = rw (unlock_spinlock, zoom, ==_false (w % 2 ^ 8) 0 held)

-- A lock that is free: it can be locked, not twice, and unlocking undoes that, the caller's interrupt
-- flag included.
pub record IsLockable (lock : ℕ) (s : Slabs) : Type 0 where
  pub locked : Slabs
  pub unlocked : Slabs
  pub locks : lock_spinlock lock s ≡ ok s.machine.interrupts locked
  pub off : locked.machine.interrupts ≡ false
  pub once : lock_spinlock lock locked ≡ spins
  pub unlocks : unlock_spinlock lock s.machine.interrupts locked ≡ ok tt unlocked
  pub flag : unlocked.machine.interrupts ≡ s.machine.interrupts
  pub words : (a : ℕ) → unlocked.machine.word a ≡ s.machine.word a

free-IsLockable : (lock : ℕ) (s : Slabs) → s.machine.word lock % 2 ^ 8 ≡ 0 → IsLockable lock s
free-IsLockable lock s free =
    let t = taken lock s in
    let own = update_self s.machine.word lock (s.machine.word lock / 2 ^ 8 * 2 ^ 8 + 1) in
    let held : t.machine.word lock % 2 ^ 8 ≢ 0 = λ e. omega (arith, own) in
    let back = flagged (with_lock_byte lock false t) s.machine.interrupts in
    record {
      locked = t;
      unlocked = back;
      locks = lock_spinlock-free lock s free;
      off = refl;
      once = lock_spinlock-taken lock t held;
      unlocks = unlock_spinlock-taken lock t s.machine.interrupts held;
      flag = refl;
      words =
          update_all (λ a v. v ≡ s.machine.word a) t.machine.word lock
            (t.machine.word lock / 2 ^ 8 * 2 ^ 8 + 0) (omega (arith, own))
            (λ a ne. update_ne s.machine.word (s.machine.word lock / 2 ^ 8 * 2 ^ 8 + 1) ne);
    }

-- What `uacpi_kernel_create_spinlock` comes to
pub data Created (s : Slabs) (live : Live) (r : Run Slabs ℕ) : Type 0 where
  created :
      (lock i : ℕ) (t : Slabs)
      → r ≡ ok lock t
      → IsSlabs 12 t (update live lock (some i))
      → live lock ≡ none
      → 0 < lock
      → ((on : Bool) → IsLockable lock (flagged t on))
      → Created s live r
  no_memory : r ≡ panics out_of_memory → Created s live r

-- A holder writes the first word of its entry.
first_word-IsSlabs :
    {t : Slabs} {live : Live} {a : ℕ}
    → IsSlabs 12 t live
    → (i : ℕ) → live a ≡ some i
    → (v : ℕ) → IsSlabs 12 (with_words t (update t.machine.word a v)) live
first_word-IsSlabs {t} {live = live} {a = a} h i held v =
    let lt = (h.heap.live_entry a i held).0 in
    let some_bytes = (class 0 i (below_12 h.heap lt)).some_bytes in
    let at : a + 8 * 0 ≡ a = omega arith in
    record {
      blocks = h.blocks;
      free = h.free;
      heap =
          subst (λ x. IsHeap 12 (with_words t (update t.machine.word x v)) h.blocks h.free live) at
            (written-IsHeap h.heap held 0 v (omega (arith, some_bytes)));
      unlocked = h.unlocked;
    }

module _ {s : Slabs} {live : Live} (h : IsSlabs 12 s live) where
  from_alloc : Lent 1 s live (slab_alloc 1 s) → Created s live (create_spinlock s)
  unfolding create_spinlock
  from_alloc (lent i a t e _ fits _ h' fresh pos _) =
      created a i (with_lock_byte a false t) (rw e)
        (first_word-IsSlabs h' i (update_self live a (some i))
          (t.machine.word a / 2 ^ 8 * 2 ^ 8 + 0))
        fresh pos
        (λ on.
          free-IsLockable a (flagged (with_lock_byte a false t) on)
            (omega (arith, update_self t.machine.word a (t.machine.word a / 2 ^ 8 * 2 ^ 8 + 0))))
  from_alloc (too_large large _ _) = absurd (omega arith)
  from_alloc (out e) = no_memory (rw e)

  -- On slabs that are set up, `uacpi_kernel_create_spinlock` either panics as memory has run out,
  -- or returns an entry that nobody held, as a free lock: whatever the interrupt flag then is,
  -- `uacpi_kernel_lock_spinlock` of it returns the flag and leaves interrupts off, a second one
  -- spins for ever, and `uacpi_kernel_unlock_spinlock` leaves the flag and every word of memory as
  -- before the first.
  pub create_spinlock-Created : Created s live (create_spinlock s)
  create_spinlock-Created = from_alloc (slab_alloc-Lent h 1 (omega arith) (omega arith))
