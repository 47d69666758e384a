-- ===== src/Slab/Tests.antt =====
-- Runs of the slab allocator on a machine with 1024 pages, and the theorems at these runs.
use cynix.Base.{
  ℕ, ◌+◌, ◌*◌, ◌^◌, ◌≤◌, ◌≡◌, refl, sym, ap, ◌⊎◌, Bool, true, false, none, some, update, arith,
}
use cynix.Base.Run.{Run, ok, panics, spins, trap}
use cynix.Slab.Heap.{Live}
use cynix.Slab.Calls.{IsSlabs}
use cynix.Slab.Refill.{refill-unlocks}
use cynix.Spinlock.{spinlock_test_acq}
use cynix.Slab.Init.{SetUp, slab_init-SetUp}
use cynix.Slab.Requests.{Lent, slab_alloc-Lent, Resized}
use cynix.Slab.Resize.{slab_realloc-Resized}
use cynix.Slab.Demo.{demo_slabs, demo_slabs-IsBooted, demo_slabs-IsSlabs}
use cynix.Slab.Owners.{IsPlaced, World, Reach, here, next, allocate, Reach-IsSlabs, Reach-apart}
use cynix.Pmm.{set_bits, pmm_inner_alloc, pmm_alloc_nozero}
use cynix.Misc.{bit_test, bit_set}
use cynix.Slab.{Slabs, slab_for, slab_init, slab_alloc, slab_realloc, slab_free, refill}

abbrev returns : {A : Type 0} → Run Slabs A → Bool
returns (ok _ _) = true
returns (panics _) = false
returns spins = false
returns trap = false

abbrev state : {A : Type 0} → Run Slabs A → Slabs
state (ok _ s) = s
state (panics _) = demo_slabs
state spins = demo_slabs
state trap = demo_slabs

abbrev value : Run Slabs ℕ → ℕ
value (ok a _) = a
value (panics _) = 0
value spins = 0
value trap = 0

abbrev r1 : Run Slabs ℕ
r1 = slab_alloc 16000 demo_slabs

abbrev r2 : Run Slabs ℕ
r2 = slab_alloc 16000 (state r1)

abbrev r3 : Run Slabs (Unit {0})
r3 = slab_free (value r1) (state r2)

returned :
    {A : Type 0} (v : Run Slabs A → A) (r : Run Slabs A)
    → returns r ≡ true
    → ((a : A) (s : Slabs) → v (ok a s) ≡ a)
    → r ≡ ok (v r) (state r)
returned v (ok a s) e f = ap (λ x. ok x s) (sym (f a s))
returned v (panics _) e f = absurd (cc)
returned v spins e f = absurd (cc)
returned v trap e f = absurd (cc)

slab_alloc_first : slab_alloc 16000 demo_slabs ≡ ok (2 ^ 20 + 16384) (state r1)
unfolding slab_alloc pmm_alloc_nozero pmm_inner_alloc set_bits bit_set bit_test
slab_alloc_first = returned value r1 refl (λ a s. refl)

slab_alloc_second : slab_alloc 16000 (state r1) ≡ ok (2 ^ 20 + 2 * 16384) (state r2)
unfolding slab_alloc pmm_alloc_nozero pmm_inner_alloc set_bits bit_set bit_test
slab_alloc_second = returned value r2 refl (λ a s. refl)

-- A freed entry is the next one that is handed out, and a block holds fifteen of this size.
slab_alloc_again :
    value (slab_alloc 9000 (state (slab_free (2 ^ 20 + 16384) (state r2)))) ≡ 2 ^ 20 + 16384
unfolding slab_alloc slab_free pmm_alloc_nozero pmm_inner_alloc set_bits bit_set bit_test
slab_alloc_again = refl

slab_alloc_large : slab_alloc 16384 demo_slabs ≡ ok 0 demo_slabs
unfolding slab_alloc
slab_alloc_large = refl

slab_for_run :
    (slab_for 7 1 ≡ some 0)
    × (slab_for 7 8 ≡ some 1)
    × (slab_for 7 4095 ≡ some 9)
    × (slab_for 7 4096 ≡ some 10)
unfolding slab_for
slab_for_run = (refl, refl, refl, refl)

slab_init-SetUp_example : SetUp 12 demo_slabs.machine (λ _. none) (slab_init demo_slabs)
slab_init-SetUp_example = slab_init-SetUp demo_slabs-IsBooted

slab_alloc-Lent_example : Lent 24 demo_slabs (λ _. none) (slab_alloc 24 demo_slabs)
slab_alloc-Lent_example = slab_alloc-Lent demo_slabs-IsSlabs 24 (omega arith) (omega arith)

-- Two entries of 16384 bytes are held.
abbrev start : World
start = record { slabs = demo_slabs; live = λ _. none }

abbrev live_2 : Live
live_2 = update (update (λ _. none) (2 ^ 20 + 16384) (some 11)) (2 ^ 20 + 2 * 16384) (some 11)

two_calls : Reach start (record { slabs = state r2; live = live_2 })
unfolding slab_for
two_calls =
    next (next here (allocate 16000 (2 ^ 20 + 16384) (omega arith) (omega arith) slab_alloc_first))
      (allocate 16000 (2 ^ 20 + 2 * 16384) (omega arith) (omega arith) slab_alloc_second)

Reach-apart_example :
    IsPlaced (state r2) 11 (2 ^ 20 + 16384)
    × ((◌≡◌ {A = ℕ} (2 ^ 20 + 16384) (2 ^ 20 + 2 * 16384))
        ⊎ (2 ^ 20 + 16384 + 16384 ≤ 2 ^ 20 + 2 * 16384)
        ⊎ (2 ^ 20 + 2 * 16384 + 16384 ≤ 2 ^ 20 + 16384))
Reach-apart_example =
    Reach-apart demo_slabs-IsSlabs two_calls (2 ^ 20 + 16384) (2 ^ 20 + 2 * 16384) 11 11 refl refl

two_calls-IsSlabs : IsSlabs 12 (state r2) live_2
two_calls-IsSlabs = Reach-IsSlabs demo_slabs-IsSlabs two_calls

slab_realloc-Resized_example :
    Resized (2 ^ 20 + 16384) 11 100 (state r2) live_2 (slab_realloc (2 ^ 20 + 16384) 100 (state r2))
slab_realloc-Resized_example =
    slab_realloc-Resized two_calls-IsSlabs {a = 2 ^ 20 + 16384} {i = 11} refl 100 (omega arith)

abbrev refilled : Slabs
refilled = state (refill 11 (record demo_slabs { lock = update (λ _. false) 11 true }))

refill_run : refill 11 (record demo_slabs { lock = update (λ _. false) 11 true }) ≡ ok tt refilled
unfolding refill pmm_alloc_nozero pmm_inner_alloc set_bits bit_set bit_test
refill_run = refl

refill-unlocks_example :
    (refilled.lock 11 ≡ false) × (spinlock_test_acq false (refilled.lock 11) ≡ ok true true)
refill-unlocks_example = refill-unlocks demo_slabs-IsSlabs (omega arith) refl refill_run
