-- ===== src/Slab/Requests.antt =====
-- `slab_alloc` and `slab_realloc` by the size that is asked for.
use cynix.Base.{
  ℕ, ◌+◌, ◌*◌, ◌/◌, ◌^◌, ◌≤◌, ◌<◌, ◌≡◌, ◌≢◌, sym, ◌∙◌, ◌⊎◌, inl, inr, Option, none, some, update,
  word_mod, arith,
}
use cynix.Base.Run.{Run, ok, panics, out_of_memory}
use cynix.Alloc.{copy_bytes}
use cynix.Alloc.Copy.{copy_bytes-SameBytes, copy_bytes-out}
use cynix.Slab.{Slabs, slab_for, alloc_from, alloc_from_slab, slab_alloc}
use cynix.Slab.Classes.{class_size, class_words, class}
use cynix.Slab.Create.{block_size}
use cynix.Slab.Heap.{
  Live, with_words, with_words-IsHeap, live-header, live-word-free, live_apart, below_12,
}
use cynix.Slab.Calls.{IsSlabs, Kept, Given, given, no_memory, alloc_from_slab-Given}
use cynix.Slab.Frees.{held_inside}
use cynix.Slab.Sizes.{slab_for-fits}

-- What a request comes to: an entry with room for it, or no entry as it is too large, or the panic
pub data Lent (size : ℕ) (s : Slabs) (live : Live) (r : Run Slabs ℕ) : Type 0 where
  lent :
      (i a : ℕ) (t : Slabs)
      → r ≡ ok a t
      → slab_for s.stale size ≡ some i
      → size < class_size i
      → (i ≡ 0) ⊎ (class_size i ≤ 2 * size)
      → IsSlabs 12 t (update live a (some i))
      → live a ≡ none
      → 0 < a
      → Kept live s t
      → Lent size s live r
  too_large : 2 ^ 14 ≤ size → slab_for s.stale size ≡ none → r ≡ ok 0 s → Lent size s live r
  out : r ≡ panics out_of_memory → Lent size s live r

module _ {s : Slabs} {live : Live} (h : IsSlabs 12 s live) where
  slab_alloc-by :
      (o : Option ℕ) (size : ℕ) → slab_for s.stale size ≡ o → slab_alloc size s ≡ alloc_from o s
  unfolding slab_alloc
  slab_alloc-by o size e = rw e

  from_slab :
      (size i : ℕ)
      → slab_for s.stale size ≡ some i
      → size < class_size i
      → (i ≡ 0) ⊎ (class_size i ≤ 2 * size)
      → Given 12 i s live (alloc_from_slab i s)
      → Lent size s live (slab_alloc size s)
  unfolding slab_alloc alloc_from
  from_slab size i e fits tight (given a t r h' fresh pos same) =
      lent i a t (slab_alloc-by (some i) size e ∙ r) e fits tight h' fresh pos same
  from_slab size i e fits tight (no_memory r) = out (slab_alloc-by (some i) size e ∙ r)

  -- On slabs that are set up, a request for 1 to 2 ^ 14 - 1 bytes returns an entry that nobody
  -- held, larger than the request and at most twice as large or of the smallest size, and leaves
  -- what callers hold as it was, or panics as memory has run out; a larger request, below 2 ^ 64,
  -- returns the null pointer and changes nothing.
  pub slab_alloc-Lent : (size : ℕ) → 0 < size → size < 2 ^ 64 → Lent size s live (slab_alloc size s)
  unfolding alloc_from
  slab_alloc-Lent size pos lt = elim (slab_for-fits s.stale size pos lt) [
    | inl (i, e, i_lt, fits, tight) ↦ from_slab size i e fits tight (alloc_from_slab-Given h i_lt)
    | inr (e, large) ↦ too_large large e (slab_alloc-by none size e)
  ]

-- What `slab_realloc` of a held entry comes to
pub data Resized (a i size : ℕ) (s : Slabs) (live : Live) (r : Run Slabs ℕ) : Type 0 where
  stays : size ≤ class_size i → r ≡ ok a s → Resized a i size s live r
  refused : class_size i < size → 2 ^ 14 ≤ size → r ≡ ok 0 s → Resized a i size s live r
  moves :
      class_size i < size
      → (j b : ℕ) (t : Slabs) → r ≡ ok b t
      → slab_for s.stale size ≡ some j
      → size < class_size j
      → live b ≡ none
      → 0 < b
      → IsSlabs 12 t (update (update live b (some j)) a none)
      → ((k : ℕ) → k < class_words i → t.machine.word (b + 8 * k) ≡ s.machine.word (a + 8 * k))
      → Kept (update live a none) s t
      → Resized a i size s live r
  out : class_size i < size → r ≡ panics out_of_memory → Resized a i size s live r

-- A holder of `b` fills it from elsewhere.
module _ {t : Slabs} {live : Live} (h : IsSlabs 12 t live) {a b i j : ℕ} (held_a : live a ≡ some i)
    (held_b : live b ≡ some j) (ne : a ≢ b) (le : class_size i ≤ class_size j) where
  abbrev pub copied : Slabs
  copied = with_words t (copy_bytes t.machine.word b a (class_size i))

  words_i : class_size i ≡ 8 * class_words i
  words_i = (class 0 i (below_12 h.heap (h.heap.live_entry a i held_a).0)).words

  apart : (k l : ℕ) → k < class_words i → l < class_words i → b + 8 * k ≢ a + 8 * l
  apart k l k_lt l_lt e = elim (live_apart h.heap a b i j held_a held_b ne) [
    | inl before ↦ omega (arith, words_i)
    | inr after ↦ omega (arith, words_i)
  ]

  b_fits : b + 8 * class_words i ≤ word_mod
  b_fits = omega (arith, (held_inside h held_b).1, h.heap.valid.mapped, words_i)

  a_fits : a + 8 * class_words i ≤ word_mod
  a_fits = omega (arith, (held_inside h held_a).1, h.heap.valid.mapped, words_i)

  rounds : (class_size i + 7) / 8 ≤ class_words i
  rounds = omega (arith, words_i)

  pub untouched :
      (x : ℕ)
      → ((k : ℕ) → k < class_words i → x ≢ b + 8 * k)
      → copied.machine.word x ≡ t.machine.word x
  untouched x other =
      copy_bytes-out b a (class_words i) b_fits a_fits apart t.machine.word (class_size i) rounds x
        (λ k _ lt. other k (omega arith))

  pub copied-IsSlabs : IsSlabs 12 copied live
  copied-IsSlabs = record {
    blocks = h.blocks;
    free = h.free;
    heap =
        with_words-IsHeap h.heap (copy_bytes t.machine.word b a (class_size i))
          (λ c l e. untouched (c * block_size) (λ k lt e.
            live-header h.heap held_b c (b + 8 * k) (omega arith) (omega (arith, words_i)) (sym e)))
          (λ l f lt in_f. untouched f (λ k k_lt e.
            live-word-free h.heap held_b l f (b + 8 * k) lt in_f (omega arith)
              (omega (arith, words_i)) (sym e)));
    unlocked = h.unlocked;
  }

  pub copied-words :
      (k : ℕ) → k < class_words i → copied.machine.word (b + 8 * k) ≡ t.machine.word (a + 8 * k)
  copied-words k lt =
      (copy_bytes-SameBytes b a (class_words i) b_fits a_fits apart t.machine.word (class_size i)
          rounds).whole
        k (omega (arith, words_i))
