-- ===== src/Alloc/Move.antt =====
-- The branch of `realloc` that moves a block.
use native.Mathlib.Decide.{ℕ_discrete, dec_lt}
use cynix.Base.{
  ℕ, ◌+◌, ◌-◌, ◌*◌, ◌/◌, ◌%◌, ◌^◌, ◌≤◌, ◌<◌, ◌≡◌, refl, sym, ap, ◌∙◌, ◌≢◌, ◌⊎◌, inl, inr, Bool,
  true, false, if◌then◌else◌, add64, sub64, word_mod, arith,
}
use cynix.Base.Run.{Run, ok, panics, out_of_memory}
use cynix.Machine.{Machine, page_size}
use cynix.Misc.{bit_test, min_of}
use cynix.Pmm.Memory.{fill_words_out}
use cynix.Pmm.{pmm_alloc, free_pattern}
use cynix.Pmm.Alloc.{IsValid, Allocated, allocated, out_of_pages}
use cynix.Pmm.Scan.{FreeRun}
use cynix.Pmm.Bits.{in_run}
use cynix.Pmm.Free.{returned, returned-IsValid, bit_test-returned, bit_test-taken}
use cynix.Pmm.RoundTrip.{blank, pmm_alloc-Allocated}
use cynix.Alloc.{size_of, copy_bytes, move_block}
use cynix.Alloc.Blocks.{
  Block, count, placed, alloc-made, placed-pages, placed-size, placed-others, placed-IsValid,
  alloc-fails, free-Block,
}
use cynix.Alloc.Copy.{SameBytes, copy_bytes-SameBytes, copy_bytes-out}
use cynix.Alloc.Outcome.{InUse, Reallocated, moves, no_memory}

module _ {m : Machine} {ptr size : ℕ} (new : ℕ) (v : IsValid m) (b : Block m ptr size)
    (live : InUse m b.page (b.pages + 1)) (small : new + 4095 < word_mod)
    (below : m.pmm_avl_page_count * page_size + m.hhdm < word_mod) where
  abbrev n : ℕ
  n = count new + 1

  base : ptr - page_size ≡ b.page * page_size + m.hhdm
  base = omega (arith, b.address)

  -- A free run lies before the block or behind it.
  beside : (q : ℕ) → FreeRun m.pmm_bitmap q n → (q + n ≤ b.page) ⊎ (b.page + (b.pages + 1) ≤ q)
  beside q fresh = elim (dec_lt q b.page) [
    | yes before ↦ elim (dec_lt b.page (q + n)) [
      | yes overlap ↦ absurd (
          ground
            (arith, fresh b.page (omega arith) overlap, live b.page (omega arith) (omega arith)))
      | no apart ↦ inl (omega arith)
    ]
    | no behind ↦ elim (dec_lt q (b.page + (b.pages + 1))) [
      | yes overlap ↦
          absurd (ground (arith, fresh q (omega arith) (omega arith), live q (omega arith) overlap))
      | no apart ↦ inr (omega arith)
    ]
  ]

  module _ (q : ℕ) (fits : q + n ≤ m.pmm_avl_page_count) (fresh : FreeRun m.pmm_bitmap q n) where
    abbrev moved : ℕ
    moved = q * page_size + m.hhdm + page_size

    abbrev m₁ : Machine
    m₁ = placed m new q

    abbrev len : ℕ
    len = min_of new size

    abbrev m₂ : Machine
    m₂ = record m₁ { word = copy_bytes m₁.word moved ptr len }

    abbrev m₃ : Machine
    m₃ = returned m₂ (b.pages + 1) b.page

    abbrev words : ℕ
    words = (len + 7) / 8

    len-new : len ≤ new
    unfolding min_of
    len-new = ground arith

    len-size : len ≤ size
    unfolding min_of
    len-size = ground arith

    -- A word of the old block is none of the new one's.
    old_word :
        (k j : ℕ)
        → k < (b.pages + 1) * 512
        → j < n * 512
        → b.page * page_size + m.hhdm + 8 * k ≢ q * page_size + m.hhdm + 8 * j
    old_word k j k_lt j_lt e = elim (beside q fresh) [
      | inl before ↦ omega arith
      | inr behind ↦ omega arith
    ]

    placed_old :
        (k : ℕ)
        → k < (b.pages + 1) * 512
        → m₁.word (b.page * page_size + m.hhdm + 8 * k)
          ≡ m.word (b.page * page_size + m.hhdm + 8 * k)
    placed_old k lt = placed-others new v small below q fits _ (λ j j_lt. old_word k j lt j_lt)

    apart : (j k : ℕ) → j < words → k < words → moved + 8 * j ≢ ptr + 8 * k
    apart j k j_lt k_lt e =
        old_word (512 + k) (512 + j) (omega (arith, len-size, b.roomy)) (omega (arith, len-new))
          (omega (arith, b.address))

    moved_fits : moved + 8 * words ≤ word_mod
    moved_fits = omega (arith, len-new)

    ptr_fits : ptr + 8 * words ≤ word_mod
    ptr_fits = omega (arith, len-size, b.roomy, b.fits, b.address)

    copied_same : SameBytes moved ptr m₁.word m₂.word len
    copied_same =
        copy_bytes-SameBytes moved ptr words moved_fits ptr_fits apart m₁.word len (omega arith)

    -- The old block is as it was until it is freed.
    kept_old :
        (k : ℕ)
        → k < (b.pages + 1) * 512
        → m₂.word (b.page * page_size + m.hhdm + 8 * k)
          ≡ m.word (b.page * page_size + m.hhdm + 8 * k)
    kept_old k lt =
        copy_bytes-out moved ptr words moved_fits ptr_fits apart m₁.word len (omega arith) _
          (λ j _ j_lt e. old_word k (512 + j) lt (omega (arith, len-new)) (omega arith))
        ∙ placed_old k lt

    old_Block : Block m₂ ptr size
    old_Block = record {
      page = b.page;
      pages = b.pages;
      address = b.address;
      fits = b.fits;
      roomy = b.roomy;
      says_pages =
          let first : ptr - page_size ≡ b.page * page_size + m.hhdm + 8 * 0 = omega (arith, base) in
          ap m₂.word first ∙ kept_old 0 (omega arith) ∙ ap m.word (sym first) ∙ b.says_pages;
      says_size =
          let second : ptr - page_size + 8 ≡ b.page * page_size + m.hhdm + 8 * 1 =
            omega (arith, base) in
          ap m₂.word second ∙ kept_old 1 (omega arith) ∙ ap m.word (sym second) ∙ b.says_size;
    }

    m₂-IsValid : IsValid m₂
    m₂-IsValid =
        let w = placed-IsValid new v small below q fits in
        record {
          bytes = w.bytes;
          unlocked = w.unlocked;
          small = w.small;
          mapped = w.mapped;
          last_in = w.last_in;
        }

    -- Freeing the old block leaves the new one alone.
    new_word :
        (j : ℕ)
        → j < n * 512
        → m₃.word (q * page_size + m.hhdm + 8 * j) ≡ m₂.word (q * page_size + m.hhdm + 8 * j)
    new_word j lt =
        fill_words_out (b.page * page_size + m.hhdm) free_pattern m₂.word _ 0 ((b.pages + 1) * 512)
          (omega (arith, v.mapped, b.fits)) (λ k _ k_lt e. old_word k j (omega arith) lt (sym e))

    -- The copy leaves the new block's metadata alone.
    new_meta :
        (j : ℕ)
        → j < 512
        → m₃.word (q * page_size + m.hhdm + 8 * j) ≡ m₁.word (q * page_size + m.hhdm + 8 * j)
    new_meta j lt =
        new_word j (omega arith)
        ∙ copy_bytes-out moved ptr words moved_fits ptr_fits apart m₁.word len (omega arith) _
            (λ k _ k_lt e. absurd (omega arith))

    new_Block : Block m₃ moved new
    new_Block = record {
      page = q;
      pages = count new;
      address = refl;
      fits = omega arith;
      roomy = omega arith;
      says_pages =
          let first : moved - page_size ≡ q * page_size + m.hhdm + 8 * 0 = omega arith in
          ap m₃.word first
          ∙ new_meta 0 (omega arith)
          ∙ ap m₁.word (sym first)
          ∙ placed-pages new v small below q fits;
      says_size =
          let second : moved - page_size + 8 ≡ q * page_size + m.hhdm + 8 * 1 = omega arith in
          ap m₃.word second
          ∙ new_meta 1 (omega arith)
          ∙ ap m₁.word (sym second)
          ∙ placed-size new v small below q fits;
    }

    same_bytes : SameBytes moved ptr m.word m₃.word len
    same_bytes = record {
      whole = λ k lt.
          let to : moved + 8 * k ≡ q * page_size + m.hhdm + 8 * (512 + k) = omega arith in
          let from : ptr + 8 * k ≡ b.page * page_size + m.hhdm + 8 * (512 + k) =
            omega (arith, b.address) in
          ap m₃.word to
          ∙ new_word (512 + k) (omega (arith, len-new))
          ∙ ap m₂.word (sym to)
          ∙ copied_same.whole k lt
          ∙ ap m₁.word from
          ∙ placed_old (512 + k) (omega (arith, len-size, b.roomy))
          ∙ ap m.word (sym from);
      rest = elim (ℕ_discrete (len % 8) 0) [
        | yes none_left ↦ rw none_left (omega arith)
        | no left ↦
            let k = len / 8 in
            let to : moved + 8 * k ≡ q * page_size + m.hhdm + 8 * (512 + k) = omega arith in
            let from : ptr + 8 * k ≡ b.page * page_size + m.hhdm + 8 * (512 + k) =
              omega (arith, b.address) in
            ap (λ (w : ℕ). w % 2 ^ (8 * (len % 8)))
              (ap m₃.word to ∙ new_word (512 + k) (omega (arith, len-new)) ∙ ap m₂.word (sym to))
            ∙ copied_same.rest
            ∙ ap (λ (w : ℕ). w % 2 ^ (8 * (len % 8)))
                (ap m₁.word from
                  ∙ placed_old (512 + k) (omega (arith, len-size, b.roomy))
                  ∙ ap m.word (sym from))
      ];
    }

    marks :
        (j : ℕ)
        → bit_test m₃.pmm_bitmap j ≡ (
            if in_run b.page (b.pages + 1) j
            then false
            else if in_run q n j
            then true
            else bit_test m.pmm_bitmap j)
    marks j =
        bit_test-returned m₂ (b.pages + 1) b.page m₂-IsValid j
        ∙ ap (λ (t : Bool). if in_run b.page (b.pages + 1) j then false else t)
            (bit_test-taken m n q v j)

    runs : pmm_alloc n m ≡ ok (q * page_size) (blank m n q) → move_block ptr new m ≡ ok moved m₃
    unfolding move_block size_of old_Block
    runs e =
        let at : add64 (sub64 ptr page_size) 8 ≡ ptr - page_size + 8 =
          omega (arith, b.address, v.mapped, b.fits) in
        let second : ptr - page_size + 8 ≡ b.page * page_size + m.hhdm + 8 * 1 =
          omega (arith, base) in
        let says : m₁.word (ptr - page_size + 8) ≡ size =
          ap m₁.word second ∙ placed_old 1 (omega arith) ∙ ap m.word (sym second) ∙ b.says_size in
        rw (alloc-made new v small below q fits e, at, says, free-Block m₂-IsValid old_Block)

  move_fails : pmm_alloc n m ≡ panics out_of_memory → move_block ptr new m ≡ panics out_of_memory
  unfolding move_block
  move_fails e = rw (alloc-fails new v small below e)

  pub move_block-Reallocated :
      (r : Run Machine ℕ)
      → b.pages ≢ count new
      → r ≡ move_block ptr new m
      → Reallocated m ptr size new b r
  unfolding new_Block
  move_block-Reallocated r other is = go (pmm_alloc-Allocated n v (omega arith)).0
    where
      go : Allocated m n (blank m n) (pmm_alloc n m) → Reallocated m ptr size new b r
      go (allocated q _ fits fresh _ e _) =
          moves other (q * page_size + m.hhdm + page_size) (m₃ q fits fresh)
            (new_Block q fits fresh) (is ∙ runs q fits fresh e)
            (returned-IsValid (m₂ q fits fresh) (b.pages + 1) b.page (m₂-IsValid q fits fresh))
            (same_bytes q fits fresh) fresh (marks q fits fresh)
      go (out_of_pages _ _ e) = no_memory other (is ∙ move_fails e)
