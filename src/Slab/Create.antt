-- ===== src/Slab/Create.antt =====
-- `create_slab`: a block of 64 pages, its header, and the list of its entries.
use cynix.Base.{
  ℕ, suc, ◌+◌, ◌-◌, ◌*◌, ◌^◌, ◌≤◌, ◌<◌, ◌≡◌, ◌∙◌, ◌⊎◌, inl, inr, subst, false, update_self,
  update_ne, add64, mul64, update, word_mod, arith,
}
use cynix.Base.Run.{ok, panics, Reason, zoom}
use cynix.Machine.{page_size}
use cynix.Pmm.{pmm_alloc_nozero}
use cynix.Pmm.Alloc.{taken}
use cynix.Slab.{Slabs, link_entries, create_slab, slab_address}
use cynix.Slab.Classes.{class_size, class_words, class_count, Class, class}
use cynix.Slab.Chains.{spot, Chain, spaced, link_entries-others, link_entries-Chain}

abbrev pub block_size : ℕ
block_size = 2 ^ 18

-- Memory once the block at `base` is slab `i`'s
abbrev pub block_words : (word : ℕ → ℕ) (base address i : ℕ) → ℕ → ℕ
block_words word base address i =
    let arr = base + class_size i in
    let last = class_count i - 2 in
    update (link_entries (update word base address) arr (class_words i) 0 last)
      (spot arr (class_words i) last) 0

-- The state once `create_slab` has made slab `i` anew out of the block at `page`
abbrev pub created : Slabs → (i page : ℕ) → Slabs
created s i page =
    let base = page * page_size + s.machine.hhdm in
    record s {
      machine = record (taken s.machine 64 page) {
        word = block_words s.machine.word base (slab_address s i) i;
      };
      lock = update s.lock i false;
      first_free = update (update s.first_free i base) i (base + class_size i);
      ent_size = update s.ent_size i (class_size i);
    }

module _ (s : Slabs) (i : ℕ) (lt : i < 12) where
  abbrev fit : Class s.stale i
  fit = class s.stale i lt

  pub create_slab-created :
      (page : ℕ)
      → page * page_size + s.machine.hhdm + block_size ≤ word_mod
      → pmm_alloc_nozero 64 s.machine ≡ ok (page * page_size) (taken s.machine 64 page)
      → create_slab i (class_size i) s ≡ ok tt (created s i page)
  unfolding create_slab
  create_slab-created page fits e =
      let base : add64 (page * page_size) s.machine.hhdm ≡ page * page_size + s.machine.hhdm =
        omega arith in
      let arr : add64 (page * page_size + s.machine.hhdm) (class_size i)
          ≡ page * page_size + s.machine.hhdm + class_size i =
        omega (arith, fit.last, fit.some_bytes) in
      let last : add64 (page * page_size + s.machine.hhdm + class_size i)
            (mul64 8 ((class_count i - 2) * class_words i))
          ≡ spot (page * page_size + s.machine.hhdm + class_size i) (class_words i)
              (class_count i - 2) =
        omega (arith, fit.last, fit.some_bytes) in
      rw (create_slab, zoom, e, base, fit.header, fit.max, fit.fact, arr, last)

  pub create_slab-panics :
      {r : Reason}
      → pmm_alloc_nozero 64 s.machine ≡ panics r
      → create_slab i (class_size i) s ≡ panics r
  unfolding create_slab
  create_slab-panics e = rw (create_slab, zoom, e)

module _ (word : ℕ → ℕ) (base address i : ℕ) (lt : i < 12)
    (fits : base + block_size ≤ word_mod) where
  abbrev shape : Class 0 i
  shape = class 0 i lt

  abbrev arr : ℕ
  arr = base + class_size i

  abbrev last : ℕ
  last = class_count i - 2

  abbrev headed : ℕ → ℕ
  headed = update word base address

  end : spot arr (class_words i) last + class_size i ≡ base + block_size
  end = omega (arith, shape.last)

  small : spot arr (class_words i) (0 + last) < 2 ^ 64
  small = omega (arith, end, shape.some_bytes)

  pub block_words-others :
      (a : ℕ) → (a < base) ⊎ (base + block_size ≤ a) → block_words word base address i a ≡ word a
  block_words-others a out =
      let words = class_words i in
      let linked = link_entries headed arr words 0 last in
      update_ne linked 0 (λ e. outside out (end_lies e))
      ∙ link_entries-others arr words last 0 headed a small (beyond out) shape.some_words
      ∙ update_ne word address (λ e. outside out (omega arith))
    where
      outside : (a < base) ⊎ (base + block_size ≤ a) → (base ≤ a) × (a < base + block_size) → ⊥
      outside (inl lt) (above, _) = omega arith
      outside (inr le) (_, below) = omega arith

      end_lies : spot arr (class_words i) last ≡ a → (base ≤ a) × (a < base + block_size)
      end_lies e = (omega (arith, shape.some_bytes), omega (arith, end, shape.some_bytes))

      beyond :
          (a < base) ⊎ (base + block_size ≤ a)
          → (a < spot arr (class_words i) 0) ⊎ (spot arr (class_words i) (0 + last) ≤ a)
      beyond (inl lt) = inl (omega arith)
      beyond (inr le) = inr (omega (arith, end))

  pub block_words-header : block_words word base address i base ≡ address
  block_words-header =
      let words = class_words i in
      let linked = link_entries headed arr words 0 last in
      update_ne linked 0 (λ e. omega (arith, shape.some_bytes))
      ∙ link_entries-others arr words last 0 headed base small
          (inl (omega (arith, shape.some_bytes))) shape.some_words
      ∙ update_self word base address

  pub block_words-Chain :
      Chain (block_words word base address i) arr (spaced arr (class_size i) (class_count i - 1))
  block_words-Chain =
      let words = class_words i in
      let linked = link_entries headed arr words 0 last in
      let start : spot arr words 0 ≡ arr = omega arith in
      let stop : spot arr words (0 + last) ≡ spot arr words last = omega arith in
      let size : 8 * words ≡ class_size i = omega (arith, shape.words) in
      let count : suc last ≡ class_count i - 1 = omega (arith, shape.some_entries) in
      subst
        (λ h.
          Chain (block_words word base address i) h (spaced h (class_size i) (class_count i - 1)))
        start
        (subst
          (λ z.
            Chain (block_words word base address i) (spot arr words 0)
              (spaced (spot arr words 0) z (class_count i - 1)))
          size
          (subst
            (λ k.
              Chain (block_words word base address i) (spot arr words 0)
                (spaced (spot arr words 0) (8 * words) k))
            count
            (subst
              (λ z.
                Chain (update linked z 0) (spot arr words 0)
                  (spaced (spot arr words 0) (8 * words) (suc last)))
              stop
              (link_entries-Chain arr words last 0 headed small shape.some_words
                (omega (arith, shape.some_bytes))))))
