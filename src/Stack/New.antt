-- ===== src/Stack/New.antt =====
-- What `stack_new` comes to.
use cynix.Base.{ℕ, ◌+◌, ◌*◌, ◌<◌, refl, mul64, word_mod, arith}
use cynix.Base.Outcome.{Outcome, returned, Outcome-and_then}
use cynix.Machine.{Machine, page_size}
use cynix.Pmm.Alloc.{IsValid}
use cynix.Alloc.Fresh.{Later, Later-trans, RanOut, alloc-IsFresh}
use cynix.Stack.{stack_new}

module _ {m : Machine} (type_size nmemb : ℕ) (v : IsValid m)
    (small : mul64 type_size nmemb + 4095 < word_mod)
    (below : m.pmm_avl_page_count * page_size + m.hhdm < word_mod) where
  pub stack_new-Later : Outcome RanOut (λ _ m'. Later m m') (stack_new type_size nmemb m)
  unfolding stack_new
  stack_new-Later = Outcome-and_then (alloc-IsFresh 32 v (omega arith) below) λ _ m₁ (first, _).
      Outcome-and_then (alloc-IsFresh (mul64 type_size nmemb) first.valid small first.below)
        λ base m₂ (second, _). returned _ m₂ refl (Later-trans first second)
