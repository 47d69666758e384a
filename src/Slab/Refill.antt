-- ===== src/Slab/Refill.antt =====
-- What `create_slab` does to the lock that `alloc_from_slab` holds.
use cynix.Base.{ℕ, ◌<◌, ◌≡◌, refl, sym, ap, ◌∙◌, true, false, ==_true, update_self, arith}
use cynix.Base.Run.{Run, ok}
use cynix.Pmm.{pmm_alloc_nozero}
use cynix.Pmm.Alloc.{Allocated, allocated, out_of_pages, taken, pmm_alloc_nozero-Allocated}
use cynix.Spinlock.{spinlock_test_acq, compare_and_swap}
use cynix.Slab.{Slabs, refill, create_slab}
use cynix.Slab.Classes.{class_size}
use cynix.Slab.Create.{create_slab-created, create_slab-panics}
use cynix.Slab.Heap.{Live, below_12}
use cynix.Slab.Calls.{IsSlabs, held, held-IsHeap}

module _ {n i : ℕ} {s : Slabs} {live : Live} (h : IsSlabs n s live) (lt : i < n) where
  abbrev locked : Slabs
  locked = held h lt

  refill-create : s.first_free i ≡ 0 → refill i locked ≡ create_slab i (class_size i) locked
  unfolding refill
  refill-create empty = rw (==_true (s.first_free i) 0 empty, h.heap.sizes i lt)

  -- On slabs that are set up, while `alloc_from_slab` holds the lock of a slab whose free list is
  -- empty, `refill`, if it returns, leaves that lock free: another attempt to take it succeeds.
  pub refill-unlocks :
      {t : Slabs}
      → s.first_free i ≡ 0
      → refill i locked ≡ ok tt t
      → (t.lock i ≡ false) × (spinlock_test_acq false (t.lock i) ≡ ok true true)
  unfolding spinlock_test_acq compare_and_swap
  refill-unlocks {t} empty e = rw free_again (refl, refl)
    where
      same : {r : Run Slabs (Unit {0})} {u : Slabs} → r ≡ ok tt u → r ≡ ok tt t → u ≡ t
      same f g = cc

      go :
          Allocated locked.machine 64 (taken locked.machine 64) (pmm_alloc_nozero 64 locked.machine)
          → t.lock i ≡ false
      go (allocated page _ fits _ _ f _) =
          let made =
            create_slab-created locked i (below_12 h.heap lt) page
              (omega (arith, h.heap.valid.mapped)) f in
          ap (λ (u : Slabs). u.lock i) (sym (same (refill-create empty ∙ made) e))
          ∙ update_self locked.lock i false
      go (out_of_pages _ _ f) =
          let failed = refill-create empty ∙ create_slab-panics locked i (below_12 h.heap lt) f in
          absurd (cc)

      free_again : t.lock i ≡ false
      free_again =
          go (pmm_alloc_nozero-Allocated locked.machine (held-IsHeap h lt).valid 64 (omega arith))
