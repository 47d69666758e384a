-- ===== src/Pmm/RoundTrip.antt =====
-- What a client of the page allocator may rely on: blank pages, and that freeing undoes allocating.
use cynix.Base.{ℕ, ◌+◌, ◌*◌, ◌≤◌, ◌<◌, ◌≡◌, refl, ◌≢◌, arith, add64}
use cynix.Base.Run.{ok, panics, out_of_memory}
use cynix.Machine.{Machine, page_size}
use cynix.Misc.{bit_test}
use cynix.Pmm.{fill_words, page_words, pmm_alloc_nozero, pmm_alloc, pmm_free}
use cynix.Pmm.Memory.{fill_words_in, fill_words_out}
use cynix.Pmm.Alloc.{IsValid, taken, Allocated, allocated, out_of_pages, pmm_alloc_nozero-Allocated}
use cynix.Pmm.Free.{
  returned, pmm_free_lem, taken-IsValid, returned-IsValid, returned-taken, pmm_alloc_nozero-Took,
}

-- The machine once `pmm_alloc` has handed out the `n` pages from `page` on.
abbrev pub blank : Machine → (n page : ℕ) → Machine
blank m n page = record (taken m n page) {
  word = fill_words m.word (page * page_size + m.hhdm) 0 0 (n * 512);
}

-- Word `a` is none of the words of the `n` pages at the virtual address `base`.
abbrev pub Outside : (base n a : ℕ) → Type 0
Outside base n a = (k : ℕ) → k < n * 512 → a ≢ base + 8 * k

module _ {m : Machine} (n : ℕ) (v : IsValid m) where
  pub blank-IsValid : (page : ℕ) → page + n ≤ m.pmm_avl_page_count → IsValid (blank m n page)
  blank-IsValid page fits = record {
    bytes = (taken-IsValid m n page v fits).bytes;
    unlocked = refl;
    small = v.small;
    mapped = v.mapped;
    last_in = fits;
  }

  pub blank-zero :
      (page k : ℕ)
      → page + n ≤ m.pmm_avl_page_count
      → k < n * 512
      → (blank m n page).word (page * page_size + m.hhdm + 8 * k) ≡ 0
  blank-zero page k fits lt =
      fill_words_in (page * page_size + m.hhdm) 0 m.word k 0 (n * 512) (omega (arith, v.mapped))
        (omega arith) (omega arith)

  pub blank-others :
      (page a : ℕ)
      → page + n ≤ m.pmm_avl_page_count
      → Outside (page * page_size + m.hhdm) n a
      → (blank m n page).word a ≡ m.word a
  blank-others page a fits out =
      fill_words_out (page * page_size + m.hhdm) 0 m.word a 0 (n * 512) (omega (arith, v.mapped))
        (λ k p q. out k (omega arith))

  module _ (pos : 0 < n) where
    blank_of_taken :
        (page : ℕ)
        → page + n ≤ m.pmm_avl_page_count
        → pmm_alloc_nozero n m ≡ ok (page * page_size) (taken m n page)
        → pmm_alloc n m ≡ ok (page * page_size) (blank m n page)
    unfolding pmm_alloc
    blank_of_taken page fits e =
        let words : page_words n ≡ n * 512 = omega (arith, v.small) in
        let base : add64 (page * page_size) m.hhdm ≡ page * page_size + m.hhdm =
          omega (arith, v.mapped) in
        rw (e, words, base)

    oom : pmm_alloc_nozero n m ≡ panics out_of_memory → pmm_alloc n m ≡ panics out_of_memory
    unfolding pmm_alloc
    oom e = rw e

    -- On a valid state and for a count above 0, `pmm_alloc` returns the run that
    -- `pmm_alloc_nozero` takes, with each word of its pages 0 and every other word unchanged, or
    -- panics where that panics.
    pub pmm_alloc-Allocated :
        Allocated m n (blank m n) (pmm_alloc n m)
        × ((page : ℕ)
            → page + n ≤ m.pmm_avl_page_count
            → ((k : ℕ)
                → k < n * 512
                → (blank m n page).word (page * page_size + m.hhdm + 8 * k) ≡ 0)
              × ((a : ℕ)
                  → Outside (page * page_size + m.hhdm) n a
                  → (blank m n page).word a ≡ m.word a))
    pmm_alloc-Allocated = (
      go (pmm_alloc_nozero-Allocated m v n pos),
      λ page fits. (λ k lt. blank-zero page k fits lt, λ a out. blank-others page a fits out),
    )
      where
        go :
            Allocated m n (taken m n) (pmm_alloc_nozero n m)
            → Allocated m n (blank m n) (pmm_alloc n m)
        go (allocated page a fits f k e marks) =
            allocated page a fits f k (blank_of_taken page fits e) marks
        go (out_of_pages h k e) = out_of_pages h k (oom e)

    -- On a valid state and for a count above 0, `pmm_free` of a block that `pmm_alloc_nozero` has
    -- just returned itself returns, leaves a valid state, and leaves each page marked as it was
    -- before the allocation and the interrupt flag unchanged.
    pub pmm_free-pmm_alloc :
        {addr : ℕ} {m' : Machine}
        → pmm_alloc_nozero n m ≡ ok addr m'
        → (m'' : Machine) × (pmm_free addr n m' ≡ ok tt m'')
          × IsValid m''
          × ((j : ℕ) → bit_test m''.pmm_bitmap j ≡ bit_test m.pmm_bitmap j)
          × (m''.interrupts ≡ m.interrupts)
    pmm_free-pmm_alloc {addr} {m'} e =
        let t = pmm_alloc_nozero-Took n v pos e in
        let ok' = taken-IsValid m n t.page v t.fits in
        (
          returned (taken m n t.page) n t.page,
          rw (t.address, t.state, pmm_free_lem (taken m n t.page) n t.page ok' pos t.fits),
          returned-IsValid (taken m n t.page) n t.page ok',
          returned-taken m n t.page v t.free,
          refl,
        )
