-- ===== src/Pmm/Init/Marks.antt =====
-- Which pages `pmm_init` leaves free.
use cynix.Base.{
  ℕ, zero, suc, ◌+◌, ◌*◌, ◌/◌, ◌%◌, ◌^◌, ◌≤◌, ◌<◌, ◌≡◌, refl, ap, Bool, false, not, ◌&&◌, ◌||◌,
  List, [], ◌∷◌, arith, if◌then◌else◌, word_mod, add64, Bool-cases, inl, inr,
}
use cynix.Memmap.{MemmapEntry, is_usable}
use cynix.Machine.{page_size}
use cynix.Misc.{Bytes, bit_test}
use cynix.Misc.Bitmap.{IsBytes, bit_test-bit_reset, bit_reset-IsBytes}
use cynix.Pmm.Bits.{in_run}
use cynix.Pmm.Init.{clear_page, clear_pages, clear_entries, in_bitmap, page_rounds}

module _ (phys size : ℕ) where
  clear_page-IsBytes : (b : Bytes) (base : ℕ) → IsBytes b → IsBytes (clear_page phys size b base)
  unfolding clear_page
  clear_page-IsBytes b base h = elim (Bool-cases (in_bitmap phys size base)) [
    | inl in_it ↦ rw in_it h
    | inr out ↦ rw out (bit_reset-IsBytes b (base / page_size) h)
  ]

  clear_pages-IsBytes :
      (b : Bytes) (base j n : ℕ) → IsBytes b → IsBytes (clear_pages phys size b base j n)
  unfolding clear_pages
  clear_pages-IsBytes b base j zero h = h
  clear_pages-IsBytes b base j (suc n) h =
      clear_pages-IsBytes (clear_page phys size b (add64 base j)) base (j + page_size) n
        (clear_page-IsBytes b (add64 base j) h)

  bit_test-clear_page :
      (b : Bytes) (page j : ℕ)
      → IsBytes b
      → bit_test (clear_page phys size b (page_size * page)) j ≡ (
          if in_run page 1 j && not (in_bitmap phys size (page_size * j))
          then false
          else bit_test b j)
  unfolding clear_page
  bit_test-clear_page b page j h =
      let index : page_size * page / page_size ≡ page = omega arith in
      ground (arith, index, bit_test-bit_reset b page j h)

  bit_test-clear_pages :
      (b : Bytes) (first q n j : ℕ)
      → IsBytes b
      → first + q + n < 2 ^ 52
      → bit_test (clear_pages phys size b (page_size * first) (page_size * q) n) j ≡ (
          if in_run (first + q) n j && not (in_bitmap phys size (page_size * j))
          then false
          else bit_test b j)
  unfolding clear_pages
  bit_test-clear_pages b first q zero j h small = ground arith
  bit_test-clear_pages b first q (suc n) j h small =
      let at : add64 (page_size * first) (page_size * q) ≡ page_size * (first + q) = omega arith in
      let on : page_size * q + page_size ≡ page_size * (q + 1) = omega arith in
      rw (at, on)
        (ground (
          arith,
          bit_test-clear_page b (first + q) j h,
          bit_test-clear_pages (clear_page phys size b (page_size * (first + q))) first (q + 1) n j
              (clear_page-IsBytes b (page_size * (first + q)) h) (omega arith),
        ))

-- What the bootloader promises of every entry: it starts on a page, and ends a page below 2 ^ 64.
abbrev pub AreAligned : List MemmapEntry → Type 0
AreAligned [] = Unit {0}
AreAligned (e ∷ es) =
    (e.base % page_size ≡ 0) × (e.base + e.length + page_size ≤ word_mod) × AreAligned es

-- Page `j` lies in a usable entry.
abbrev pub covers : List MemmapEntry → ℕ → Bool
covers [] j = false
covers (e ∷ es) j =
    (is_usable e.kind && in_run (e.base / page_size) (page_rounds e.length) j) || covers es j

module _ (phys size : ℕ) where
  clear_entry : Bytes → MemmapEntry → Bytes
  clear_entry b e =
      if is_usable e.kind then clear_pages phys size b e.base 0 (page_rounds e.length) else b

  clear_entry-IsBytes : (b : Bytes) (e : MemmapEntry) → IsBytes b → IsBytes (clear_entry b e)
  unfolding clear_entry
  clear_entry-IsBytes b e h = elim (Bool-cases (is_usable e.kind)) [
    | inl use_it ↦ rw use_it (clear_pages-IsBytes phys size b e.base 0 (page_rounds e.length) h)
    | inr other ↦ rw other h
  ]

  bit_test-clear_entry :
      (b : Bytes) (e : MemmapEntry) (j : ℕ)
      → IsBytes b
      → e.base % page_size ≡ 0
      → e.base + e.length + page_size ≤ word_mod
      → bit_test (clear_entry b e) j ≡ (
          if (is_usable e.kind && in_run (e.base / page_size) (page_rounds e.length) j)
            && not (in_bitmap phys size (page_size * j))
          then false
          else bit_test b j)
  unfolding clear_entry
  bit_test-clear_entry b e j h a fits =
      let base : e.base ≡ page_size * (e.base / page_size) = omega arith in
      ground (
        arith,
        ap (λ (x : ℕ). clear_pages phys size b x 0 (page_rounds e.length)) base,
        bit_test-clear_pages phys size b (e.base / page_size) 0 (page_rounds e.length) j h
            (omega arith),
      )

  pub clear_entries-IsBytes :
      (b : Bytes) (es : List MemmapEntry) → IsBytes b → IsBytes (clear_entries phys size b es)
  unfolding clear_entries clear_entry
  clear_entries-IsBytes b [] h = h
  clear_entries-IsBytes b (e ∷ es) h =
      clear_entries-IsBytes (clear_entry b e) es (clear_entry-IsBytes b e h)

  -- The third loop clears the bits of the usable pages that the bitmap does not overlap.
  pub bit_test-clear_entries :
      (b : Bytes) (es : List MemmapEntry) (j : ℕ)
      → IsBytes b
      → AreAligned es
      → bit_test (clear_entries phys size b es) j
        ≡ (if covers es j && not (in_bitmap phys size (page_size * j)) then false else bit_test b j)
  unfolding clear_entries clear_entry
  bit_test-clear_entries b [] j h a = refl
  bit_test-clear_entries b (e ∷ es) j h (a, fits, rest) = ground (
    arith,
    bit_test-clear_entry b e j h a fits,
    bit_test-clear_entries (clear_entry b e) es j (clear_entry-IsBytes b e h) rest,
  )

-- On whole pages the overlap test says whether page `j` is one of the bitmap's.
pub in_bitmap_page :
    (p s j : ℕ)
    → p + s < 2 ^ 52
    → j + 1 < 2 ^ 52
    → in_bitmap (page_size * p) (page_size * s) (page_size * j) ≡ in_run p s j
unfolding in_bitmap
in_bitmap_page p s j small_p small_j = ground arith
