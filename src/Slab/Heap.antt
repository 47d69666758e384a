-- ===== src/Slab/Heap.antt =====
-- The slabs between two calls: blocks, free lists, and the entries that callers hold.
use cynix.Base.{
  ℕ, ◌+◌, ◌-◌, ◌*◌, ◌/◌, ◌%◌, ◌≤◌, ◌<◌, ◌≡◌, ◌≢◌, sym, ◌∙◌, ◌⊎◌, inl, inr, Option, some, List, true,
  false, word_mod, arith, subst,
}
use cynix.Machine.{Machine, page_size}
use cynix.Misc.{bit_test}
use cynix.Pmm.Alloc.{IsValid}
use cynix.Slab.{Slabs, slab_address}
use cynix.Slab.Classes.{class_size, class_count, class}
use cynix.Slab.Chains.{Chain, In, Distinct, Chain-kept, spaced}
use cynix.Slab.Create.{block_size}
use cynix.Slab.Entries.{Blocks, IsEntry, entry_above, entry_below, entry_slab, entries_apart}

-- The addresses on the free list of each slab
abbrev pub Free : Type 0
Free = ℕ → List ℕ

-- The slab of each address that a caller holds
abbrev pub Live : Type 0
Live = ℕ → Option ℕ

-- The block at `c` lies in memory, and its 64 pages are in use.
pub record IsTaken (m : Machine) (c : ℕ) : Type 0 where
  pub above : m.hhdm ≤ c * block_size
  pub inside : (c + 1) * block_size ≤ m.pmm_avl_page_count * page_size + m.hhdm
  pub in_use :
      (j : ℕ) → j < 64 → bit_test m.pmm_bitmap ((c * block_size - m.hhdm) / page_size + j) ≡ true

-- The slabs below `n` are set up, with these blocks, free lists and live entries.
pub record IsHeap (n : ℕ) (s : Slabs) (blocks : Blocks) (free : Free) (live : Live) : Type 0 where
  pub valid : IsValid s.machine
  pub quiet : s.machine.interrupts ≡ false
  pub aligned : s.machine.hhdm % block_size ≡ 0
  pub table : s.slabs_at < word_mod
  pub few : n ≤ 12
  pub sizes : (i : ℕ) → i < n → s.ent_size i ≡ class_size i
  pub header :
      (c i : ℕ) → blocks c ≡ some i → (i < n) × (s.machine.word (c * block_size) ≡ slab_address s i)
  pub taken : (c i : ℕ) → blocks c ≡ some i → IsTaken s.machine c
  pub chain : (i : ℕ) → i < n → Chain s.machine.word (s.first_free i) (free i)
  pub distinct : (i : ℕ) → i < n → Distinct (free i)
  pub free_entry : (i a : ℕ) → i < n → In a (free i) → IsEntry blocks i a
  pub live_entry : (a i : ℕ) → live a ≡ some i → (i < n) × IsEntry blocks i a × (¬ In a (free i))

-- Slab `i` has a block of its own, and all places behind the block's header are free, in order.
pub record IsStocked (blocks : Blocks) (free : Free) (i : ℕ) : Type 0 where
  pub block : ℕ
  pub owner : blocks block ≡ some i
  pub all : free i ≡ spaced (block * block_size + class_size i) (class_size i) (class_count i - 1)

-- The state with another content of memory
abbrev pub with_words : Slabs → (ℕ → ℕ) → Slabs
with_words s w = record s { machine = record s.machine { word = w } }

module _ {n : ℕ} {s : Slabs} {blocks : Blocks} {free : Free} {live : Live}
    (h : IsHeap n s blocks free live) where
  pub below_12 : {i : ℕ} → i < n → i < 12
  below_12 lt = omega (arith, h.few)

  -- A change of memory that spares headers and free entries
  pub with_words-IsHeap :
      (w : ℕ → ℕ)
      → ((c i : ℕ) → blocks c ≡ some i → w (c * block_size) ≡ s.machine.word (c * block_size))
      → ((i a : ℕ) → i < n → In a (free i) → w a ≡ s.machine.word a)
      → IsHeap n (with_words s w) blocks free live
  with_words-IsHeap w same_header same_free = record {
    valid = record {
      bytes = h.valid.bytes;
      unlocked = h.valid.unlocked;
      small = h.valid.small;
      mapped = h.valid.mapped;
      last_in = h.valid.last_in;
    };
    quiet = h.quiet;
    aligned = h.aligned;
    table = h.table;
    few = h.few;
    sizes = h.sizes;
    header = λ c i e. ((h.header c i e).0, same_header c i e ∙ (h.header c i e).1);
    taken = λ c i e. record {
      above = (h.taken c i e).above;
      inside = (h.taken c i e).inside;
      in_use = (h.taken c i e).in_use;
    };
    chain = λ i lt.
        Chain-kept s.machine.word w (s.first_free i) (free i) (λ a. same_free i a lt)
          (h.chain i lt);
    distinct = h.distinct;
    free_entry = h.free_entry;
    live_entry = h.live_entry;
  }

  -- The words of a live entry are neither headers nor free entries.
  module _ {a i : ℕ} (held : live a ≡ some i) where
    abbrev pub here : IsEntry blocks i a
    here = (h.live_entry a i held).1

    abbrev pub ready : i < n
    ready = (h.live_entry a i held).0

    pub live-header : (c x : ℕ) → a ≤ x → x < a + class_size i → x ≢ c * block_size
    live-header c x le lt e = omega (
      arith,
      entry_above (below_12 ready) here,
      entry_below (below_12 ready) here,
      (class 0 i (below_12 ready)).some_bytes,
    )

    pub live-free : (j b : ℕ) → j < n → In b (free j) → a ≢ b
    live-free j b lt f e =
        let same = entry_slab (below_12 ready) (below_12 lt) here (h.free_entry j b lt f) e in
        (h.live_entry a i held).2
          (subst (λ k. In a (free k)) (sym same) (subst (λ y. In y (free j)) (sym e) f))

    pub live-word-free : (j b x : ℕ) → j < n → In b (free j) → a ≤ x → x < a + class_size i → x ≢ b
    live-word-free j b x lt f le inside e =
        let other = h.free_entry j b lt f in
        let some_bytes = (class 0 j (below_12 lt)).some_bytes in
        beside (entries_apart (below_12 ready) (below_12 lt) here other (live-free j b lt f))
          some_bytes
      where
        beside : (a + class_size i ≤ b) ⊎ (b + class_size j ≤ a) → 8 ≤ class_size j → ⊥
        beside (inl before) _ = omega arith
        beside (inr after) some_bytes = omega (arith, some_bytes)

  -- Two entries that are held do not overlap.
  pub live_apart :
      (a b i j : ℕ)
      → live a ≡ some i
      → live b ≡ some j
      → a ≢ b
      → (a + class_size i ≤ b) ⊎ (b + class_size j ≤ a)
  live_apart a b i j e f =
      let (l, en, _) = h.live_entry a i e in
      let (k, em, _) = h.live_entry b j f in entries_apart (below_12 l) (below_12 k) en em
