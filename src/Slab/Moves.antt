-- ===== src/Slab/Moves.antt =====
-- How one entry leaves a free list, or comes back to it.
use cynix.Base.{
  ℕ, ◌+◌, ◌*◌, ◌<◌, ◌≡◌, ◌≢◌, refl, sym, inl, inr, Bool, none, some, List, ◌∷◌, update, update_self,
  update_ne, update_all, update_both, Option-cases, arith, subst,
}
use cynix.Slab.{Slabs}
use cynix.Slab.Classes.{class_size, class}
use cynix.Slab.Chains.{Chain, In, Distinct}
use cynix.Slab.Entries.{Blocks, IsEntry, entry_above}
use cynix.Slab.Heap.{
  Free, Live, IsHeap, with_words, with_words-IsHeap, live-header, live-free, live-word-free, ready,
  here, below_12,
}

module _ {n : ℕ} {s : Slabs} {blocks : Blocks} {free : Free} {live : Live}
    (h : IsHeap n s blocks free live) where
  pub with_lock-IsHeap : (l : ℕ → Bool) → IsHeap n (record s { lock = l }) blocks free live
  with_lock-IsHeap l = record {
    valid = h.valid;
    quiet = h.quiet;
    aligned = h.aligned;
    table = h.table;
    few = h.few;
    sizes = h.sizes;
    header = h.header;
    taken = h.taken;
    chain = h.chain;
    distinct = h.distinct;
    free_entry = h.free_entry;
    live_entry = h.live_entry;
  }

  module _ {i a : ℕ} {rest : List ℕ} (lt : i < n) (e : free i ≡ a ∷ rest) where
    abbrev pub popped : Slabs
    popped = record s { first_free = update s.first_free i (s.machine.word a) }

    head_chain : Chain s.machine.word (s.first_free i) (a ∷ rest)
    head_chain = subst (Chain s.machine.word (s.first_free i)) e (h.chain i lt)

    head-Distinct : Distinct (a ∷ rest)
    head-Distinct = subst Distinct e (h.distinct i lt)

    head-In : (b : ℕ) → In b (a ∷ rest) → In b (free i)
    head-In b = subst (In b) (sym e)

    head_entry : IsEntry blocks i a
    head_entry = h.free_entry i a lt (head-In a (inl refl))

    popped-free_entry : (j b : ℕ) → j < n → In b (update free i rest j) → IsEntry blocks j b
    popped-free_entry j b =
        update_all (λ j r. j < n → In b r → IsEntry blocks j b) free i rest
          (λ _ f. h.free_entry i b lt (head-In b (inr f))) (λ j ne l f. h.free_entry j b l f) j

    popped-not_free : (j b : ℕ) → (¬ In b (free j)) → ¬ In b (update free i rest j)
    popped-not_free j b =
        update_all (λ j r. (¬ In b (free j)) → ¬ In b r) free i rest
          (λ out f. out (head-In b (inr f))) (λ j ne out f. out f) j

    popped-live :
        (b : ℕ) (j : ℕ)
        → update live a (some i) b ≡ some j
        → (j < n) × IsEntry blocks j b × (¬ In b (update free i rest j))
    popped-live b =
        update_all
          (λ b o.
            (j : ℕ) → o ≡ some j → (j < n) × IsEntry blocks j b × (¬ In b (update free i rest j)))
          live a (some i)
          (λ j same.
            let k : i ≡ j = ground arith in
            subst (λ j. (j < n) × IsEntry blocks j a × (¬ In a (update free i rest j))) k
              (
                lt,
                head_entry,
                subst (λ r. ¬ In a r) (sym (update_self free i rest)) head-Distinct.0,
              ))
          (λ b ne j held.
            let (l, en, out) = h.live_entry b j held in (l, en, popped-not_free j b out))
          b

    pub popped-IsHeap : IsHeap n popped blocks (update free i rest) (update live a (some i))
    popped-IsHeap = record {
      valid = h.valid;
      quiet = h.quiet;
      aligned = h.aligned;
      table = h.table;
      few = h.few;
      sizes = h.sizes;
      header = h.header;
      taken = h.taken;
      chain =
          update_both (λ j x r. j < n → Chain s.machine.word x r) s.first_free free i
            (s.machine.word a) rest (λ _. head_chain.2) (λ j ne. h.chain j);
      distinct =
          update_all (λ j r. j < n → Distinct r) free i rest (λ _. head-Distinct.1)
            (λ j ne. h.distinct j);
      free_entry = popped-free_entry;
      live_entry = popped-live;
    }

    -- The entry was nobody's.
    pub head-none : live a ≡ none
    head-none = elim (Option-cases (live a)) [
      | inl is_none ↦ is_none
      | inr (j, held) ↦ absurd (live-free h held i a lt (head-In a (inl refl)) refl)
    ]

  module _ {i a : ℕ} (held : live a ≡ some i) where
    -- A holder writes within its entry.
    pub written-IsHeap :
        (k v : ℕ)
        → 8 * k < class_size i
        → IsHeap n (with_words s (update s.machine.word (a + 8 * k) v)) blocks free live
    written-IsHeap k v inside =
        with_words-IsHeap h (update s.machine.word (a + 8 * k) v)
          (λ c j e.
            update_ne s.machine.word v
              (live-header h held c (a + 8 * k) (omega arith) (omega arith)))
          (λ j b lt f.
            update_ne s.machine.word v
              (live-word-free h held j b (a + 8 * k) lt f (omega arith) (omega arith)))

    -- `*addr = slabs[i].first_free; slabs[i].first_free = addr`
    abbrev pub pushed : Slabs
    pushed =
        let t = with_words s (update s.machine.word a (s.first_free i)) in
        record t { first_free = update s.first_free i a }

    in_pushed : (b : ℕ) → i < n → In b (a ∷ free i) → IsEntry blocks i b
    in_pushed b lt (inl e) = subst (IsEntry blocks i) (sym e) (here h held)
    in_pushed b lt (inr f) = h.free_entry i b lt f

    still_out : (b j : ℕ) → a ≢ b → (¬ In b (free j)) → ¬ In b (update free i (a ∷ free i) j)
    still_out b j ne =
        update_all (λ j r. (¬ In b (free j)) → ¬ In b r) free i (a ∷ free i)
          (λ out f. elim f [ inl e ↦ ne (sym e) | inr g ↦ out g ]) (λ j ne out f. out f) j

    pushed-live :
        (b j : ℕ)
        → update live a none b ≡ some j
        → (j < n) × IsEntry blocks j b × (¬ In b (update free i (a ∷ free i) j))
    pushed-live b =
        update_all
          (λ b o.
            (j : ℕ)
            → o ≡ some j
            → (j < n) × IsEntry blocks j b × (¬ In b (update free i (a ∷ free i) j)))
          live a none (λ j e. absurd (cc))
          (λ b ne j e. let (l, en, out) = h.live_entry b j e in (l, en, still_out b j ne out)) b

    pub pushed-IsHeap : IsHeap n pushed blocks (update free i (a ∷ free i)) (update live a none)
    pushed-IsHeap =
        let bytes = (class 0 i (below_12 h (ready h held))).some_bytes in
        let e = here h held in
        let t =
          with_words-IsHeap h (update s.machine.word a (s.first_free i))
            (λ c j e.
              update_ne s.machine.word (s.first_free i)
                (live-header h held c a (omega arith) (omega (arith, bytes))))
            (λ j b lt f. update_ne s.machine.word (s.first_free i) (live-free h held j b lt f)) in
        record {
          valid = t.valid;
          quiet = t.quiet;
          aligned = t.aligned;
          table = t.table;
          few = t.few;
          sizes = t.sizes;
          header = t.header;
          taken = t.taken;
          chain =
              update_both (λ j x r. j < n → Chain pushed.machine.word x r) s.first_free free i a
                (a ∷ free i)
                (λ lt. (
                  refl,
                  omega (arith, e.at, entry_above (below_12 h lt) e, bytes),
                  subst (λ x. Chain (update s.machine.word a (s.first_free i)) x (free i))
                      (sym (update_self s.machine.word a (s.first_free i))) (t.chain i lt),
                ))
                (λ j ne. t.chain j);
          distinct =
              update_all (λ j r. j < n → Distinct r) free i (a ∷ free i)
                (λ lt. ((h.live_entry a i held).2, h.distinct i lt)) (λ j ne. h.distinct j);
          free_entry = λ j b.
              update_all (λ j r. j < n → In b r → IsEntry blocks j b) free i (a ∷ free i)
                (λ lt f. in_pushed b lt f) (λ j ne. h.free_entry j b) j;
          live_entry = pushed-live;
        }
