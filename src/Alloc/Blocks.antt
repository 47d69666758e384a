-- ===== src/Alloc/Blocks.antt =====
-- The blocks that `alloc` hands out, and that `free` takes them back.
use cynix.Base.{
  ℕ, suc, ◌+◌, ◌-◌, ◌*◌, ◌/◌, ◌≤◌, ◌<◌, ◌≡◌, refl, ◌∙◌, add64, sub64, update, update_self,
  update_ne, word_mod, arith,
}
use cynix.Base.Run.{Run, ok, panics, out_of_memory}
use cynix.Machine.{Machine, page_size}
use cynix.Misc.{bit_test, div_roundup}
use cynix.Pmm.{pmm_alloc, pmm_free}
use cynix.Pmm.Alloc.{IsValid, Allocated, allocated, out_of_pages}
use cynix.Pmm.Scan.{FreeRun}
use cynix.Pmm.Free.{returned, pmm_free_lem, returned-IsValid, returned-taken}
use cynix.Pmm.RoundTrip.{
  Outside, blank, blank-zero, blank-others, pmm_alloc-Allocated, blank-IsValid,
}
use cynix.Alloc.{pages_of, free, alloc}

-- A live block at `ptr`: a page of metadata, then the pages that hold `size` bytes.
pub record Block (m : Machine) (ptr size : ℕ) : Type 0 where
  pub page : ℕ
  pub pages : ℕ
  pub address : ptr ≡ page * page_size + m.hhdm + page_size
  pub fits : page + pages + 1 ≤ m.pmm_avl_page_count
  pub roomy : size ≤ pages * page_size
  pub says_pages : m.word (ptr - page_size) ≡ pages
  pub says_size : m.word (ptr - page_size + 8) ≡ size

abbrev pub count : ℕ → ℕ
count size = (size + 4095) / page_size

-- The machine once the block of `size` bytes is at `page`.
abbrev pub placed : Machine → (size page : ℕ) → Machine
placed m size page =
    let at = page * page_size + m.hhdm in
    let b = blank m (count size + 1) page in
    record b { word = update (update b.word at (count size)) (at + 8) size }

module _ {m : Machine} (size : ℕ) (v : IsValid m) (small : size + 4095 < word_mod)
    (below : m.pmm_avl_page_count * page_size + m.hhdm < word_mod) where
  pub alloc-made :
      (page : ℕ)
      → page + (count size + 1) ≤ m.pmm_avl_page_count
      → pmm_alloc (count size + 1) m ≡ ok (page * page_size) (blank m (count size + 1) page)
      → alloc size m ≡ ok (page * page_size + m.hhdm + page_size) (placed m size page)
  unfolding alloc div_roundup
  alloc-made page fits e =
      let n : add64 (div_roundup size page_size) 1 ≡ count size + 1 = omega arith in
      let c : div_roundup size page_size ≡ count size = omega arith in
      let at : add64 (page * page_size) m.hhdm ≡ page * page_size + m.hhdm =
        omega (arith, v.mapped) in
      let size_at : add64 (page * page_size + m.hhdm) 8 ≡ page * page_size + m.hhdm + 8 =
        omega (arith, v.mapped) in
      let ptr : add64 (page * page_size + m.hhdm) page_size
          ≡ page * page_size + m.hhdm + page_size =
        omega arith in
      rw (n, e, c, at, size_at, ptr)

  module _ (page : ℕ) (fits : page + (count size + 1) ≤ m.pmm_avl_page_count) where
    abbrev at : ℕ
    at = page * page_size + m.hhdm

    pub placed-pages : (placed m size page).word (at + page_size - page_size) ≡ count size
    placed-pages =
        let b = blank m (count size + 1) page in
        let w = update b.word at (count size) in
        let here : at + page_size - page_size ≡ at = omega arith in
        rw here (update_ne w size (omega arith) ∙ update_self b.word at (count size))

    pub placed-size : (placed m size page).word (at + page_size - page_size + 8) ≡ size
    placed-size =
        let w = update (blank m (count size + 1) page).word at (count size) in
        let here : at + page_size - page_size + 8 ≡ at + 8 = omega arith in
        rw here (update_self w (at + 8) size)

    placed-Block : Block (placed m size page) (at + page_size) size
    placed-Block = record {
      page = page;
      pages = count size;
      address = refl;
      fits = omega arith;
      roomy = omega arith;
      says_pages = placed-pages;
      says_size = placed-size;
    }

    -- The block's bytes are 0.
    placed-zero :
        (k : ℕ) → k < count size * 512 → (placed m size page).word (at + page_size + 8 * k) ≡ 0
    placed-zero k lt =
        let b = blank m (count size + 1) page in
        let w = update b.word at (count size) in
        let here : at + page_size + 8 * k ≡ at + 8 * (512 + k) = omega arith in
        rw here (
          update_ne w size (omega arith)
          ∙ update_ne b.word (count size) (omega arith)
          ∙ blank-zero (count size + 1) v page (512 + k) fits (omega arith))

    pub placed-others :
        (a : ℕ) → Outside at (count size + 1) a → (placed m size page).word a ≡ m.word a
    placed-others a out =
        let b = blank m (count size + 1) page in
        let w = update b.word at (count size) in
        update_ne w size (λ e. out 1 (omega arith) (omega arith))
        ∙ update_ne b.word (count size) (λ e. out 0 (omega arith) (omega arith))
        ∙ blank-others (count size + 1) v page a fits out

module _ {m : Machine} {ptr size : ℕ} (v : IsValid m) (b : Block m ptr size) where
  free-suc : (p : ℕ) → ptr ≡ suc p → free (suc p) m ≡ pmm_free (b.page * page_size) (b.pages + 1) m
  unfolding free pages_of
  free-suc p e =
      let at : sub64 (suc p) page_size ≡ ptr - page_size =
        omega (arith, b.address, v.mapped, b.fits) in
      let base : sub64 (ptr - page_size) m.hhdm ≡ b.page * page_size =
        omega (arith, b.address, v.mapped, b.fits) in
      let n : add64 b.pages 1 ≡ b.pages + 1 = omega (arith, v.small, b.fits) in
      rw (at, b.says_pages, base, n)

  -- `free` of a live block gives back its pages, the page of metadata too.
  pub free-Block : free ptr m ≡ ok tt (returned m (b.pages + 1) b.page)
  free-Block =
      let p : ptr ≡ suc (ptr - 1) = omega (arith, b.address) in
      rw p (
        free-suc (ptr - 1) p
        ∙ pmm_free_lem m (b.pages + 1) b.page v (omega arith) (omega (arith, b.fits)))

-- What a caller of `alloc` gets: a block of pages that were free, with every word 0, that `free`
-- takes back so that the same pages are free again; or the panic of `pmm_alloc`.
pub data Allocation (m : Machine) (size : ℕ) (r : Run Machine ℕ) : Type 0 where
  given :
      (ptr : ℕ) (m' : Machine) (b : Block m' ptr size)
      → r ≡ ok ptr m'
      → IsValid m'
      → FreeRun m.pmm_bitmap b.page (b.pages + 1)
      → ((k : ℕ) → k < b.pages * 512 → m'.word (ptr + 8 * k) ≡ 0)
      → ((a : ℕ) → Outside (b.page * page_size + m.hhdm) (b.pages + 1) a → m'.word a ≡ m.word a)
      → ((m'' : Machine) × (free ptr m' ≡ ok tt m'')
          × IsValid m''
          × ((j : ℕ) → bit_test m''.pmm_bitmap j ≡ bit_test m.pmm_bitmap j)
          × (m''.interrupts ≡ m.interrupts))
      → Allocation m size r
  no_memory : r ≡ panics out_of_memory → Allocation m size r

module _ {m : Machine} (size : ℕ) (v : IsValid m) (small : size + 4095 < word_mod)
    (below : m.pmm_avl_page_count * page_size + m.hhdm < word_mod) where
  abbrev n : ℕ
  n = count size + 1

  pub placed-IsValid : (page : ℕ) → page + n ≤ m.pmm_avl_page_count → IsValid (placed m size page)
  placed-IsValid page fits = record {
    bytes = (blank-IsValid n v page fits).bytes;
    unlocked = refl;
    small = v.small;
    mapped = v.mapped;
    last_in = fits;
  }

  gives :
      (page : ℕ)
      → page + n ≤ m.pmm_avl_page_count
      → FreeRun m.pmm_bitmap page n
      → pmm_alloc n m ≡ ok (page * page_size) (blank m n page)
      → Allocation m size (alloc size m)
  unfolding placed-Block
  gives page fits fresh e =
      let ok' = placed-IsValid page fits in
      let b = placed-Block size v small below page fits in
      given (page * page_size + m.hhdm + page_size) (placed m size page) b
        (alloc-made size v small below page fits e) ok' fresh
        (placed-zero size v small below page fits) (placed-others size v small below page fits)
        (
          returned (placed m size page) n page,
          free-Block ok' b,
          returned-IsValid (placed m size page) n page ok',
          returned-taken m n page v fresh,
          refl,
        )

  pub alloc-fails : pmm_alloc n m ≡ panics out_of_memory → alloc size m ≡ panics out_of_memory
  unfolding alloc div_roundup
  alloc-fails e = let same : add64 (div_roundup size page_size) 1 ≡ n = omega arith in rw (same, e)

  -- On a valid state, with a size that does not wrap when it is rounded and a direct map that ends
  -- below 2 ^ 64, `alloc` either panics because memory has run out, or returns a block of pages
  -- that were free, with room for the size and the size recorded, with every word 0 and no word
  -- outside changed, and `free` of it returns and leaves each page marked as before.
  pub alloc-Allocation : Allocation m size (alloc size m)
  alloc-Allocation = go (pmm_alloc-Allocated n v (omega arith)).0
    where
      go : Allocated m n (blank m n) (pmm_alloc n m) → Allocation m size (alloc size m)
      go (allocated page _ fits fresh _ e _) = gives page fits fresh e
      go (out_of_pages _ _ e) = no_memory (alloc-fails e)
