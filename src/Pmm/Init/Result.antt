-- ===== src/Pmm/Init/Result.antt =====
-- The page allocator as `pmm_init` leaves it.
use cynix.Base.{
  ℕ, ◌+◌, ◌*◌, ◌/◌, ◌^◌, ◌≤◌, ◌<◌, ◌≡◌, ap, subst, sym, ◌∙◌, Bool, true, false, not, ◌&&◌, List, [],
  ◌∷◌, arith, some, word_mod, add64, sub64, ltb, Bool-cases, inl, inr,
}
use cynix.Memmap.{MemmapEntry, is_usable}
use cynix.Machine.{Machine, page_size}
use cynix.Misc.{Bytes, bit_test}
use cynix.Misc.Bitmap.{IsBytes, bit_test_ff}
use cynix.Pmm.Alloc.{IsValid}
use cynix.Pmm.Bits.{in_run}
use cynix.Pmm.Init.{
  clear_entries, in_bitmap, set_up, memset_ff, place_bitmap, avl_page_count, bitmap_size,
}
use cynix.Pmm.Init.Marks.{
  AreAligned, covers, clear_entries-IsBytes, bit_test-clear_entries, in_bitmap_page,
}

-- The physical page at which the bitmap was put.
record Placed (hhdm size ptr : ℕ) : Type 0 where
  page : ℕ
  at : sub64 ptr hhdm ≡ page_size * page
  fits : page_size * page + size + page_size ≤ word_mod

place_bitmap-Placed :
    (hhdm size : ℕ) {ptr : ℕ} (es : List MemmapEntry)
    → hhdm < word_mod
    → AreAligned es
    → place_bitmap hhdm size es ≡ some ptr
    → Placed hhdm size ptr
unfolding place_bitmap
place_bitmap-Placed hhdm size [] h a e = absurd (cc)
place_bitmap-Placed hhdm size {ptr} (x ∷ es) h (a, fits, rest) e =
    elim (Bool-cases (is_usable x.kind && ltb size x.length)) [
      | inl here ↦
          let at : add64 x.base hhdm ≡ ptr = ground arith in
          record { page = x.base / page_size; at = omega arith; fits = ground arith }
      | inr past ↦ place_bitmap-Placed hhdm size es h rest (ground arith)
    ]

bit_test-memset_ff :
    (before : Bytes) (size j : ℕ) → j < 8 * size → bit_test (memset_ff before size) j ≡ true
bit_test-memset_ff before size j lt = bit_test_ff (memset_ff before size) j byte
  where
    byte : memset_ff before size (j / 8) ≡ 0xff
    byte = unfold memset_ff in ground arith

memset_ff-IsBytes : (before : Bytes) (size : ℕ) → IsBytes before → IsBytes (memset_ff before size)
unfolding memset_ff
memset_ff-IsBytes before size h i = ground (arith, h i)

avl_page_count-lt : (es : List MemmapEntry) → avl_page_count es < 2 ^ 52
unfolding avl_page_count
avl_page_count-lt es = omega arith

bitmap_size_pages :
    (pages : ℕ) → pages < 2 ^ 52 → bitmap_size pages ≡ page_size * (bitmap_size pages / page_size)
unfolding bitmap_size
bitmap_size_pages pages h = omega arith

module _ (memory : ℕ → Bytes) (m : Machine) (ptr : ℕ) where
  abbrev pub size : ℕ
  size = bitmap_size (avl_page_count m.memmap)

  -- The bitmap's own pages.
  abbrev pub holds_bitmap : ℕ → Bool
  holds_bitmap = in_run (sub64 ptr m.hhdm / page_size) (size / page_size)

  set_up-bitmap :
      place_bitmap m.hhdm size m.memmap ≡ some ptr
      → (set_up memory m).pmm_bitmap
        ≡ clear_entries (sub64 ptr m.hhdm) size (memset_ff (memory ptr) size) m.memmap
  unfolding set_up
  set_up-bitmap e = rw e

  module _ (h : m.hhdm < word_mod) (a : AreAligned m.memmap) (b : IsBytes (memory ptr))
      (e : place_bitmap m.hhdm size m.memmap ≡ some ptr) where
    in_bitmap-holds_bitmap :
        (j : ℕ)
        → j < avl_page_count m.memmap
        → in_bitmap (sub64 ptr m.hhdm) size (page_size * j) ≡ holds_bitmap j
    in_bitmap-holds_bitmap j lt =
        let p = place_bitmap-Placed m.hhdm size m.memmap h a e in
        let small = avl_page_count-lt m.memmap in
        let s = bitmap_size_pages (avl_page_count m.memmap) small in
        let page : sub64 ptr m.hhdm / page_size ≡ p.page = omega (arith, p.at) in
        ap (λ (x : ℕ). in_bitmap x size (page_size * j)) p.at
        ∙ ap (λ (x : ℕ). in_bitmap (page_size * p.page) x (page_size * j)) s
        ∙ in_bitmap_page p.page (size / page_size) j (omega (arith, p.fits)) (omega arith)
        ∙ ap (λ (x : ℕ). in_run x (size / page_size) j) (sym page)

    -- With a bitmap placed by the search, in a memory map of page-aligned entries, the memory made
    -- of bytes and a 64-bit offset of the direct map, a page below the page count for which the
    -- bitmap has a bit is free after `pmm_init` exactly if it lies in a usable entry and does not
    -- hold the bitmap.
    pub set_up-free :
        (j : ℕ)
        → j < avl_page_count m.memmap
        → j < 8 * size
        → bit_test (set_up memory m).pmm_bitmap j ≡ not (covers m.memmap j && not (holds_bitmap j))
    set_up-free j lt room =
        ap (λ (x : Bytes). bit_test x j) (set_up-bitmap e)
        ∙ ground (
          arith,
          bit_test-clear_entries (sub64 ptr m.hhdm) size (memset_ff (memory ptr) size) m.memmap j
              (memset_ff-IsBytes (memory ptr) size b) a,
          in_bitmap-holds_bitmap j lt,
          bit_test-memset_ff (memory ptr) size j room,
        )

    -- With a bitmap placed by the search, in a memory map of page-aligned entries, the memory made
    -- of bytes and a direct map that holds every page, `pmm_init` leaves a valid allocator state
    -- if the lock is free and the last used index is 0.
    pub set_up-IsValid :
        m.pmm_lock ≡ false
        → m.pmm_last_used_index ≡ 0
        → avl_page_count m.memmap * page_size + m.hhdm ≤ word_mod
        → IsValid (set_up memory m)
    unfolding set_up
    set_up-IsValid free_lock unused mapped = record {
      bytes = subst IsBytes (sym (set_up-bitmap e)) (
          clear_entries-IsBytes (sub64 ptr m.hhdm) size (memset_ff (memory ptr) size) m.memmap
            (memset_ff-IsBytes (memory ptr) size b));
      unlocked = free_lock;
      small = avl_page_count-lt m.memmap;
      mapped = mapped;
      last_in = omega (arith, unused);
    }
