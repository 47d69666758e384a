-- ===== src/Alloc/Resize.antt =====
-- `realloc` of a live block: it stays or it moves.
use native.Mathlib.Decide.{ℕ_discrete}
use cynix.Base.{
  ℕ, suc, ◌+◌, ◌-◌, ◌*◌, ◌<◌, ◌≡◌, refl, sym, ◌∙◌, ◌≢◌, true, false, ◌==◌, add64, sub64, update,
  update_self, update_ne, word_mod, arith,
}
use cynix.Machine.{Machine, page_size}
use cynix.Misc.{div_roundup}
use cynix.Pmm.Alloc.{IsValid}
use cynix.Alloc.{pages_of, keep_block, move_block, realloc}
use cynix.Alloc.Blocks.{Block, count}
use cynix.Alloc.Outcome.{InUse, Reallocated, stays}
use cynix.Alloc.Move.{move_block-Reallocated}

module _ {m : Machine} {ptr size : ℕ} (new : ℕ) (v : IsValid m) (b : Block m ptr size)
    (live : InUse m b.page (b.pages + 1)) (small : new + 4095 < word_mod)
    (below : m.pmm_avl_page_count * page_size + m.hhdm < word_mod) where
  abbrev Outcome : Type 0
  Outcome = Reallocated m ptr size new b (realloc ptr new m)

  rounded : div_roundup new page_size ≡ count new
  unfolding div_roundup
  rounded = omega arith

  ptr-suc : ptr ≡ suc (ptr - 1)
  ptr-suc = omega (arith, b.address)

  at_meta : sub64 (suc (ptr - 1)) page_size ≡ ptr - page_size
  at_meta = omega (arith, b.address, v.mapped, b.fits)

  realloc-same : b.pages ≡ count new → realloc ptr new m ≡ keep_block ptr new m
  unfolding realloc pages_of
  realloc-same e =
      let test : (b.pages == count new) ≡ true = ground arith in
      rw ptr-suc (rw (at_meta, b.says_pages, rounded, test))

  realloc-other : b.pages ≢ count new → realloc ptr new m ≡ move_block ptr new m
  unfolding realloc pages_of
  realloc-other ne =
      let test : (b.pages == count new) ≡ false = ground arith in
      rw ptr-suc (rw (at_meta, b.says_pages, rounded, test))

  kept : b.pages ≡ count new → Outcome
  unfolding keep_block
  kept e =
      let m' = record m { word = update m.word (ptr - page_size + 8) new } in
      let at : add64 (sub64 ptr page_size) 8 ≡ ptr - page_size + 8 =
        omega (arith, b.address, v.mapped, b.fits) in
      stays e m' (realloc-same e ∙ rw at refl)
        (record {
          bytes = v.bytes;
          unlocked = v.unlocked;
          small = v.small;
          mapped = v.mapped;
          last_in = v.last_in;
        })
        (record {
          page = b.page;
          pages = b.pages;
          address = b.address;
          fits = b.fits;
          roomy = omega arith;
          says_pages = update_ne m.word new (omega arith) ∙ b.says_pages;
          says_size = update_self m.word (ptr - page_size + 8) new;
        })
        (λ a ne. update_ne m.word new (λ e'. ne (sym e'))) (λ j. refl)

  -- For a block whose pages are marked in use, on a valid state, with a new size that does not
  -- wrap when it is rounded and a direct map that ends below 2 ^ 64: where the number of pages is
  -- the same, `realloc` leaves the block where it is, with the new size recorded and no other word
  -- changed; where it is another one, the block moves to a fresh one that starts with the same
  -- bytes, as many as the smaller of the two sizes, and the old pages are free, or `realloc`
  -- panics as memory has run out.
  pub realloc-Reallocated : Outcome
  realloc-Reallocated = elim (ℕ_discrete b.pages (count new)) [
    | yes same ↦ kept same
    | no other ↦
        move_block-Reallocated new v b live small below (realloc ptr new m) other
          (realloc-other other)
  ]
