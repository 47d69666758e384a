-- ===== src/Alloc/Fresh.antt =====
-- Sequences of allocations: what each of them keeps, and where its block lies.
use cynix.Base.{ℕ, ◌+◌, ◌*◌, ◌<◌, ◌≡◌, refl, ◌∙◌, true, false, word_mod, arith}
use cynix.Base.Run.{Reason, out_of_memory}
use cynix.Base.Outcome.{Outcome, returned, failed}
use cynix.Machine.{Machine, page_size}
use cynix.Misc.{bit_test}
use cynix.Pmm.{pmm_alloc}
use cynix.Pmm.Alloc.{IsValid, Allocated, allocated, out_of_pages}
use cynix.Pmm.Bits.{bit_test-set_bits}
use cynix.Pmm.RoundTrip.{blank, pmm_alloc-Allocated}
use cynix.Alloc.{alloc}
use cynix.Alloc.Blocks.{count, placed, alloc-made, placed-IsValid, alloc-fails}

-- A machine that blocks can be taken on, after one before them: pages that were in use still are.
pub record Later (m m' : Machine) : Type 0 where
  pub valid : IsValid m'
  pub below : m'.pmm_avl_page_count * page_size + m'.hhdm < word_mod
  pub same_hhdm : m'.hhdm ≡ m.hhdm
  pub same_flag : m'.interrupts ≡ m.interrupts
  pub in_use : (j : ℕ) → bit_test m.pmm_bitmap j ≡ true → bit_test m'.pmm_bitmap j ≡ true

pub Later-trans : {m m' m'' : Machine} → Later m m' → Later m' m'' → Later m m''
Later-trans a b = record {
  valid = b.valid;
  below = b.below;
  same_hhdm = b.same_hhdm ∙ a.same_hhdm;
  same_flag = b.same_flag ∙ a.same_flag;
  in_use = λ j h. b.in_use j (a.in_use j h);
}

abbrev pub RanOut : Reason → Type 0
RanOut reason = reason ≡ out_of_memory

-- The block is behind a page that was free and is in use.
pub record IsFresh (m : Machine) (ptr : ℕ) (m' : Machine) : Type 0 where
  pub page : ℕ
  pub address : ptr ≡ page * page_size + m.hhdm + page_size
  pub was_free : bit_test m.pmm_bitmap page ≡ false
  pub taken : bit_test m'.pmm_bitmap page ≡ true

module _ {m : Machine} (size : ℕ) (v : IsValid m) (small : size + 4095 < word_mod)
    (below : m.pmm_avl_page_count * page_size + m.hhdm < word_mod) where
  pub alloc-IsFresh : Outcome RanOut (λ ptr m'. Later m m' × IsFresh m ptr m') (alloc size m)
  alloc-IsFresh = go (pmm_alloc-Allocated (count size + 1) v (omega arith)).0
    where
      go :
          Allocated m (count size + 1) (blank m (count size + 1)) (pmm_alloc (count size + 1) m)
          → Outcome RanOut (λ ptr m'. Later m m' × IsFresh m ptr m') (alloc size m)
      go (allocated page _ fits free _ e _) =
          returned (page * page_size + m.hhdm + page_size) (placed m size page)
            (alloc-made size v small below page fits e)
            (
              record {
                valid = placed-IsValid size v small below page fits;
                below = below;
                same_hhdm = refl;
                same_flag = refl;
                in_use = λ j h.
                    ground (arith, bit_test-set_bits m.pmm_bitmap page (count size + 1) j v.bytes);
              },
              record {
                page = page;
                address = refl;
                was_free = free page (omega arith) (omega arith);
                taken =
                    ground
                      (arith, bit_test-set_bits m.pmm_bitmap page (count size + 1) page v.bytes);
              },
            )
      go (out_of_pages _ _ e) = failed out_of_memory refl (alloc-fails size v small below e)
