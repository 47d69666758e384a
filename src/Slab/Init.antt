-- ===== src/Slab/Init.antt =====
-- `slab_init`: the twelve slabs, one block each.
use cynix.Base.{
  ℕ, zero, suc, ◌+◌, ◌%◌, ◌≤◌, ◌<◌, ◌≡◌, ◌≢◌, refl, sym, none, [], false, update_all, word_mod,
  arith, subst, ◌∙◌,
}
use cynix.Machine.{Machine}
use cynix.Base.Run.{Run, ok, panics, out_of_memory}
use cynix.Pmm.{pmm_alloc_nozero}
use cynix.Pmm.Alloc.{IsValid, Allocated, allocated, out_of_pages, taken, pmm_alloc_nozero-Allocated}
use cynix.Slab.{Slabs, create_slab, init_slabs, slab_init}
use cynix.Slab.Classes.{class_size}
use cynix.Slab.Create.{block_size, created, create_slab-created, create_slab-panics}
use cynix.Slab.Heap.{Live, IsStocked}
use cynix.Slab.Grown.{grown-IsHeap, grown-IsStocked, grown_blocks, grown_free}
use cynix.Slab.Calls.{IsSlabs}

-- What `slab_init` finds: a valid page allocator, interrupts off, and a direct map that starts at a
-- multiple of 2 ^ 18.
pub record IsBooted (s : Slabs) : Type 0 where
  pub valid : IsValid s.machine
  pub quiet : s.machine.interrupts ≡ false
  pub aligned : s.machine.hhdm % block_size ≡ 0
  pub table : s.slabs_at < word_mod

-- The direct map, the memory map and the number of pages stay.
pub record Kept (m m' : Machine) : Type 0 where
  pub same_hhdm : m'.hhdm ≡ m.hhdm
  pub same_memmap : m'.memmap ≡ m.memmap
  pub same_count : m'.pmm_avl_page_count ≡ m.pmm_avl_page_count

pub Kept-trans : {m₀ m₁ m₂ : Machine} → Kept m₀ m₁ → Kept m₁ m₂ → Kept m₀ m₂
Kept-trans k k' = record {
  same_hhdm = k'.same_hhdm ∙ k.same_hhdm;
  same_memmap = k'.same_memmap ∙ k.same_memmap;
  same_count = k'.same_count ∙ k.same_count;
}

-- What setting up the slabs below `n` comes to
pub data SetUp (n : ℕ) (m : Machine) (live : Live) (r : Run Slabs (Unit {0})) : Type 0 where
  made :
      (t : Slabs)
      → r ≡ ok tt t
      → Kept m t.machine
      → (slabs : IsSlabs n t live) → ((i : ℕ) → i < n → IsStocked slabs.blocks slabs.free i)
      → SetUp n m live r
  no_memory : r ≡ panics out_of_memory → SetUp n m live r

module _ {n : ℕ} {m m' : Machine} {live : Live} {r : Run Slabs (Unit {0})} where
  SetUp-after : Kept m m' → SetUp n m' live r → SetUp n m live r
  SetUp-after k (made t e k' slabs stocked) = made t e (Kept-trans k k') slabs stocked
  SetUp-after k (no_memory e) = no_memory e

-- The first slab that is not set up yet
create_next :
    {i : ℕ} {s : Slabs} {live : Live}
    → (h : IsSlabs i s live) → i < 12
    → ((j : ℕ) → j < i → IsStocked h.blocks h.free j)
    → Allocated s.machine 64 (taken s.machine 64) (pmm_alloc_nozero 64 s.machine)
    → SetUp (i + 1) s.machine live (create_slab i (class_size i) s)
create_next {i} {s} {live} h lt stocked (allocated page whole fits fresh _ e _) =
    made (created s i page) (create_slab-created s i lt page (omega (arith, h.heap.valid.mapped)) e)
      (record { same_hhdm = refl; same_memmap = refl; same_count = refl })
      (record {
        blocks =
            grown_blocks h.heap i (i + 1) page lt (omega arith) (omega arith) (omega arith) earlier
              whole fits fresh;
        free =
            grown_free h.heap i (i + 1) page lt (omega arith) (omega arith) (omega arith) earlier
              whole fits fresh;
        heap =
            grown-IsHeap h.heap i (i + 1) page lt (omega arith) (omega arith) (omega arith) earlier
              whole fits fresh;
        unlocked =
            update_all (λ j b. j < i + 1 → b ≡ false) s.lock i false (λ _. refl)
              (λ j ne l. h.unlocked j (earlier j l (λ e. ne (sym e))));
      })
      (grown-IsStocked h.heap i (i + 1) page lt (omega arith) (omega arith) (omega arith) earlier
        whole fits fresh stocked)
  where
    earlier : (j : ℕ) → j < i + 1 → j ≢ i → j < i
    earlier j l ne = omega arith
create_next {i} {s} h lt stocked (out_of_pages _ _ e) = no_memory (create_slab-panics s i lt e)

init_slabs-SetUp :
    (n i : ℕ) {s : Slabs} {live : Live}
    → i + n ≤ 12
    → (h : IsSlabs i s live) → ((j : ℕ) → j < i → IsStocked h.blocks h.free j)
    → SetUp (i + n) s.machine live (init_slabs i n s)
unfolding init_slabs
init_slabs-SetUp zero i {s} {live} le h stocked =
    subst (λ k. SetUp k s.machine live (ok tt s)) (omega arith)
      (made s refl (record { same_hhdm = refl; same_memmap = refl; same_count = refl }) h stocked)
init_slabs-SetUp (suc n) i {s} {live} le h stocked =
    elim (create_next h (omega arith) stocked
      (pmm_alloc_nozero-Allocated s.machine h.heap.valid 64 (omega arith))) [
        | made t e kept h' stocked' ↦ rw e (
            subst (λ k. SetUp k s.machine live (init_slabs (i + 1) n t)) (omega arith)
              (SetUp-after kept (init_slabs-SetUp n (i + 1) (omega arith) h' stocked')))
        | no_memory e ↦ no_memory (rw e)
      ]

-- Nobody holds an entry, and no slab has a block.
blank-IsSlabs : {s : Slabs} → IsBooted s → IsSlabs 0 s (λ _. none)
blank-IsSlabs b = record {
  blocks = λ _. none;
  free = λ _. [];
  heap = record {
    valid = b.valid;
    quiet = b.quiet;
    aligned = b.aligned;
    table = b.table;
    few = omega arith;
    sizes = λ i lt. absurd (omega arith);
    header = λ c i e. absurd (cc);
    taken = λ c i e. absurd (cc);
    chain = λ i lt. absurd (omega arith);
    distinct = λ i lt. absurd (omega arith);
    free_entry = λ i a lt f. absurd f;
    live_entry = λ a i e. absurd (cc);
  };
  unlocked = λ i lt. absurd (omega arith);
}

-- On a valid page allocator, with interrupts off and a direct map that starts at a multiple of 2 ^
-- 18, `slab_init` sets up all twelve slabs, each with a block of its own that has all its places
-- behind the header on the free list, with the direct map, the memory map and the number of pages
-- as before, or panics as memory has run out.
pub slab_init-SetUp : {s : Slabs} → IsBooted s → SetUp 12 s.machine (λ _. none) (slab_init s)
unfolding slab_init
slab_init-SetUp b =
    init_slabs-SetUp 12 0 (omega arith) (blank-IsSlabs b) (λ j lt. absurd (omega arith))
