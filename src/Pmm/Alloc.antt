-- ===== src/Pmm/Alloc.antt =====
-- `pmm_alloc_nozero`: a next-fit search in two parts, under the lock and with interrupts off.
use cynix.Base.{
  ℕ, ◌+◌, ◌-◌, ◌*◌, ◌%◌, ◌^◌, ◌≤◌, ◌<◌, ◌≡◌, refl, ◌⊎◌, inl, inr, true, false, some, arith, ◌==◌,
  if◌then◌else◌, ==_false, word_mod,
}
use cynix.Base.Run.{Run, ok, panics, out_of_memory}
use cynix.Machine.{Machine, page_size}
use cynix.Misc.{bit_test}
use cynix.Misc.Bitmap.{IsBytes}
use cynix.Pmm.Bits.{in_run, bit_test-set_bits}
use cynix.Pmm.{Scan, no_page, set_bits, inner_loop, pmm_inner_alloc, acquire_pmm, pmm_alloc_nozero}
use cynix.Pmm.Scan.{FreeRun, NoStart, Scanned, found, exhausted, inner_loop-Scanned}

-- The allocator between two calls.
pub record IsValid (m : Machine) : Type 0 where
  pub bytes : IsBytes m.pmm_bitmap
  pub unlocked : m.pmm_lock ≡ false
  pub small : m.pmm_avl_page_count < 2 ^ 52
  -- The direct map holds every page.
  pub mapped : m.pmm_avl_page_count * page_size + m.hhdm ≤ word_mod
  pub last_in : m.pmm_last_used_index ≤ m.pmm_avl_page_count

-- Where the search finds its run: from the last used index on, or, if there is no run there, before.
abbrev pub NextFit : Machine → (n page : ℕ) → Type 0
NextFit m n page =
    let b = m.pmm_bitmap in
    let last = m.pmm_last_used_index in
    let limit = m.pmm_avl_page_count in
    ((last ≤ page) × (page + n ≤ limit) × NoStart b n last page)
    ⊎ (NoStart b n last (limit + 1 - n) × (page + n ≤ last) × NoStart b n 0 page)

-- The machine once the `n` pages from `page` on are handed out: the lock is free again, and the
-- interrupt flag, the memory and the other statics are as before.
abbrev pub taken : Machine → (n page : ℕ) → Machine
taken m n page = record m {
  pmm_bitmap = set_bits m.pmm_bitmap page n;
  pmm_last_used_index = page + n;
  pmm_lock = false;
}

-- What a call for `n` pages comes to: a page, and the machine `after` it was taken, or a panic.
pub data Allocated (m : Machine) (n : ℕ) (after : ℕ → Machine) (r : Run Machine ℕ) : Type 0 where
  allocated :
      (page : ℕ)
      → page % n ≡ 0
      → page + n ≤ m.pmm_avl_page_count
      → FreeRun m.pmm_bitmap page n
      → NextFit m n page
      → r ≡ ok (page * page_size) (after page)
      → ((j : ℕ)
          → bit_test (after page).pmm_bitmap j
            ≡ (if in_run page n j then true else bit_test m.pmm_bitmap j))
      → Allocated m n after r
  out_of_pages :
      NoStart m.pmm_bitmap n m.pmm_last_used_index (m.pmm_avl_page_count + 1 - n)
      → NoStart m.pmm_bitmap n 0 (m.pmm_last_used_index + 1 - n)
      → r ≡ panics out_of_memory
      → Allocated m n after r

abbrev scanned : Machine → Scan → Run Machine ℕ
scanned m (ret, b, last) = ok ret (record m { pmm_bitmap = b; pmm_last_used_index = last })

pmm_inner_alloc-some :
    (m : Machine) (n limit : ℕ) {out : Scan}
    → inner_loop n (limit - m.pmm_last_used_index) m.pmm_bitmap m.pmm_last_used_index 0 ≡ some out
    → pmm_inner_alloc n limit m ≡ scanned m out
unfolding pmm_inner_alloc
pmm_inner_alloc-some m n limit {out} e = rw (e, pmm_inner_alloc)

pub acquire_pmm-ok :
    (m : Machine)
    → m.interrupts ≡ false
    → m.pmm_lock ≡ false
    → acquire_pmm m ≡ ok tt (record m { pmm_lock = true })
unfolding acquire_pmm
acquire_pmm-ok m i l = ground arith

module _ (m : Machine) (v : IsValid m) (n : ℕ) (pos : 0 < n) where
  -- The state in which the searches run.
  abbrev held : Machine
  held = record m { interrupts = false; pmm_lock = true }

  start : acquire_pmm (record m { interrupts = false }) ≡ ok tt held
  start = acquire_pmm-ok (record m { interrupts = false }) refl v.unlocked

  scan_from :
      (lo hi : ℕ)
      → lo ≤ hi
      → hi ≤ 2 ^ 52
      → Scanned n m.pmm_bitmap lo hi (inner_loop n (hi - lo) m.pmm_bitmap lo 0)
  scan_from lo hi le small =
      inner_loop-Scanned n m.pmm_bitmap pos (hi - lo) lo 0 lo hi pos (omega arith) (omega arith)
        small (inl refl) (λ j q r. absurd (omega arith))

  not_sentinel :
      (page : ℕ) → page + n ≤ m.pmm_avl_page_count → (page * page_size == no_page) ≡ false
  not_sentinel page fits = ==_false _ _ (omega (arith, v.small))

  abbrev limit : ℕ
  limit = m.pmm_avl_page_count

  abbrev last : ℕ
  last = m.pmm_last_used_index

  abbrev hit : ℕ → Scan
  hit page = (page * page_size, set_bits m.pmm_bitmap page n, page + n)

  abbrev miss : ℕ → Scan
  miss end = (no_page, m.pmm_bitmap, end)

  first_finds :
      (page : ℕ)
      → page + n ≤ limit
      → inner_loop n (limit - last) m.pmm_bitmap last 0 ≡ some (hit page)
      → pmm_alloc_nozero n m ≡ ok (page * page_size) (taken m n page)
  unfolding pmm_alloc_nozero
  first_finds page fits e =
      rw (start, pmm_inner_alloc-some held n limit {out = hit page} e, not_sentinel page fits)

  second_finds :
      (page : ℕ)
      → page + n ≤ limit
      → inner_loop n (limit - last) m.pmm_bitmap last 0 ≡ some (miss limit)
      → inner_loop n (last - 0) m.pmm_bitmap 0 0 ≡ some (hit page)
      → pmm_alloc_nozero n m ≡ ok (page * page_size) (taken m n page)
  unfolding pmm_alloc_nozero
  second_finds page fits e h = rw (
    start,
    pmm_inner_alloc-some held n limit {out = miss limit} e,
    pmm_inner_alloc-some (record held { pmm_last_used_index = 0 }) n last {out = hit page} h,
    not_sentinel page fits,
  )

  neither_finds :
      inner_loop n (limit - last) m.pmm_bitmap last 0 ≡ some (miss limit)
      → inner_loop n (last - 0) m.pmm_bitmap 0 0 ≡ some (miss last)
      → pmm_alloc_nozero n m ≡ panics out_of_memory
  unfolding pmm_alloc_nozero
  neither_finds e h = rw (
    start,
    pmm_inner_alloc-some held n limit {out = miss limit} e,
    pmm_inner_alloc-some (record held { pmm_last_used_index = 0 }) n last {out = miss last} h,
  )

  -- On a valid allocator state and for a count above 0, `pmm_alloc_nozero` either returns the
  -- address of a free run of that many pages, aligned to the count and within memory, marked in
  -- use besides the pages that were; the run is the first one at or behind the last used index,
  -- or, where there is none, the first one before it; or it panics, and then neither of the two
  -- searches has such a run.
  pub pmm_alloc_nozero-Allocated : Allocated m n (taken m n) (pmm_alloc_nozero n m)
  pmm_alloc_nozero-Allocated = elim (scan_from last limit v.last_in (omega (arith, v.small))) [
    | found page p q a f k e ↦
        allocated page a q f (inl (p, q, k)) (first_finds page q e)
          (λ j. bit_test-set_bits m.pmm_bitmap page n j v.bytes)
    | exhausted k e ↦ elim (scan_from 0 last (omega arith) (omega (arith, v.small, v.last_in))) [
      | found page p q a f h e' ↦
          allocated page a (omega (arith, v.last_in)) f (inr (k, q, h))
            (second_finds page (omega (arith, v.last_in)) e e')
            (λ j. bit_test-set_bits m.pmm_bitmap page n j v.bytes)
      | exhausted h e' ↦ out_of_pages k h (neither_finds e e')
    ]
  ]

  -- On a valid state and for a count above 0, a request that fits neither behind the last used
  -- index nor before it panics with out of memory, whichever pages are free.
  pub pmm_alloc_nozero-straddling :
      m.pmm_avl_page_count < m.pmm_last_used_index + n
      → m.pmm_last_used_index < n
      → pmm_alloc_nozero n m ≡ panics out_of_memory
  pmm_alloc_nozero-straddling past before = go pmm_alloc_nozero-Allocated
    where
      go :
          Allocated m n (taken m n) (pmm_alloc_nozero n m)
          → pmm_alloc_nozero n m ≡ panics out_of_memory
      go (allocated page a fits f (inl (p, q, _)) e _) = absurd (omega arith)
      go (allocated page a fits f (inr (_, q, _)) e _) = absurd (omega arith)
      go (out_of_pages h k e) = e
