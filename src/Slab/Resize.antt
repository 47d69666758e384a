-- ===== src/Slab/Resize.antt =====
-- `slab_realloc` of an entry that is held.
use native.Mathlib.Decide.{dec_lt}
use cynix.Base.{
  ℕ, suc, ◌+◌, ◌-◌, ◌*◌, ◌^◌, ◌≤◌, ◌<◌, ◌≡◌, ◌≢◌, sym, ap, ◌∙◌, inl, inr, Bool, none, some, true,
  false, ltb, if◌then◌else◌, update, update_self, update_ne, update_all, arith, subst, ==_false,
}
use cynix.Base.Run.{ok, panics, out_of_memory, pure, gets, ◌>>=◌, >>=-ok}
use cynix.Slab.{Slabs, slab_alloc, slab_of, move_entry, slab_realloc}
use cynix.Slab.Classes.{class_size, class_words, class}
use cynix.Slab.Heap.{Live, live_apart, below_12}
use cynix.Slab.Calls.{IsSlabs, Kept}
use cynix.Slab.Frees.{
  slab_of-held, freed, free_in_slab-freed, freed-IsSlabs, freed-Kept, held_inside,
}
use cynix.Slab.Requests.{
  Lent, lent, too_large, out, slab_alloc-Lent, Resized, stays, refused, moves, copied,
  copied-IsSlabs, copied-words, untouched,
}

module _ {s : Slabs} {live : Live} (h : IsSlabs 12 s live) {a i : ℕ} (held : live a ≡ some i)
    (size : ℕ) where
  size_i : s.ent_size i ≡ class_size i
  size_i = h.heap.sizes i (h.heap.live_entry a i held).0

  realloc-by :
      (p : ℕ) (c : Bool)
      → a ≡ suc p
      → ltb (class_size i) size ≡ c
      → slab_realloc (suc p) size s ≡ (if c then move_entry i (suc p) size else pure (suc p)) s
  unfolding slab_realloc
  realloc-by p c e test =
      >>=-ok (slab_of (suc p))
        (λ slab. gets (λ s. s.ent_size slab) >>= λ ent_size.
          if ltb ent_size size then move_entry slab (suc p) size else pure (suc p))
        {s = s} (subst (λ x. slab_of x s ≡ ok i s) e (slab_of-held h held))
      ∙ rw (size_i, test)

  realloc-test :
      (c : Bool)
      → ltb (class_size i) size ≡ c
      → slab_realloc a size s ≡ (if c then move_entry i a size else pure a) s
  realloc-test c test =
      let p : a ≡ suc (a - 1) = omega (arith, (held_inside h held).0) in
      subst (λ x. slab_realloc x size s ≡ (if c then move_entry i x size else pure x) s) (sym p)
        (realloc-by (a - 1) c p test)

  larger : class_size i < size → slab_realloc a size s ≡ move_entry i a size s
  larger lt = realloc-test true (ground arith)

  not_larger : ¬ (class_size i < size) → slab_realloc a size s ≡ ok a s
  not_larger le = realloc-test false (ground arith)

  no_entry : slab_alloc size s ≡ ok 0 s → move_entry i a size s ≡ ok 0 s
  unfolding move_entry
  no_entry e = rw e

  no_memory :
      slab_alloc size s ≡ panics out_of_memory → move_entry i a size s ≡ panics out_of_memory
  unfolding move_entry
  no_memory e = rw e

  module _ (j b : ℕ) (t : Slabs) (h' : IsSlabs 12 t (update live b (some j))) (new : live b ≡ none)
      (fits : class_size i < class_size j) where
    elsewhere : b ≢ a
    elsewhere e = let clash : none ≡ some i = sym new ∙ ap live e ∙ held in cc

    held_a : update live b (some j) a ≡ some i
    held_a = update_ne live (some j) elsewhere ∙ held

    held_b : update live b (some j) b ≡ some j
    held_b = update_self live b (some j)

    apart : a ≢ b
    apart e = elsewhere (sym e)

    le : class_size i ≤ class_size j
    le = omega arith

    abbrev filled : Slabs
    filled = copied h' held_a held_b apart le

    filled-IsSlabs : IsSlabs 12 filled (update live b (some j))
    filled-IsSlabs = copied-IsSlabs h' held_a held_b apart le

    moved :
        slab_alloc size s ≡ ok b t
        → 0 < b
        → move_entry i a size s ≡ ok b (freed filled-IsSlabs held_a)
    unfolding move_entry
    moved e pos = rw (
      e,
      ==_false b 0 (omega arith),
      h'.heap.sizes i (h.heap.live_entry a i held).0,
      free_in_slab-freed filled-IsSlabs held_a,
    )

    abbrev after : Slabs
    after = freed filled-IsSlabs held_a

    abbrev moved_live : Live
    moved_live = update (update live b (some j)) a none

    after-words :
        Kept live s t
        → (k : ℕ) → k < class_words i
        → after.machine.word (b + 8 * k) ≡ s.machine.word (a + 8 * k)
    after-words same k lt =
        let words = (class 0 i (below_12 h.heap (h.heap.live_entry a i held).0)).words in
        freed-Kept filled-IsSlabs held_a b j (b + 8 * k)
          (update_ne (update live b (some j)) none apart ∙ held_b) (omega arith)
          (omega (arith, words))
        ∙ copied-words h' held_a held_b apart le k lt
        ∙ same a i (a + 8 * k) held (omega arith) (omega (arith, words))

    after-Kept : Kept live s t → Kept (update live a none) s after
    after-Kept same c l x e le_x inside = go (both c e)
      where
        both : (c : ℕ) → update live a none c ≡ some l → (a ≢ c) × (live c ≡ some l)
        both c =
            update_all (λ c o. o ≡ some l → (a ≢ c) × (live c ≡ some l)) live a none
              (λ e. absurd (cc)) (λ c ne e. (ne, e)) c

        go : (a ≢ c) × (live c ≡ some l) → after.machine.word x ≡ s.machine.word x
        go (ne, f) =
            let not_b : b ≢ c = λ e. let clash : none ≡ some l = sym new ∙ ap live e ∙ f in cc in
            let now : update live b (some j) c ≡ some l = update_ne live (some j) not_b ∙ f in
            let size_j = (class 0 j (below_12 h'.heap (h'.heap.live_entry b j held_b).0)).words in
            let words = (class 0 i (below_12 h.heap (h.heap.live_entry a i held).0)).words in
            freed-Kept filled-IsSlabs held_a c l x
              (update_ne (update live b (some j)) none ne ∙ now) le_x inside
            ∙ untouched h' held_a held_b apart le x (λ k k_lt at.
              elim (live_apart h'.heap b c j l held_b now not_b) [
                | inl before ↦ omega (arith, words)
                | inr after ↦ omega (arith, words)
              ])
            ∙ same c l x f le_x inside

  from_alloc :
      class_size i < size
      → Lent size s live (slab_alloc size s)
      → Resized a i size s live (move_entry i a size s)
  from_alloc lt (lent j b t e found fits _ h' new pos same) =
      let wide : class_size i < class_size j = omega arith in
      moves lt j b (after j b t h' new wide) (moved j b t h' new wide e pos) found fits new pos
        (freed-IsSlabs (filled-IsSlabs j b t h' new wide) (held_a j b t h' new wide))
        (after-words j b t h' new wide same) (after-Kept j b t h' new wide same)
  from_alloc lt (too_large large _ e) = refused lt large (no_entry e)
  from_alloc lt (out e) = out lt (no_memory e)

  -- On slabs that are set up, `slab_realloc` of a held entry to less than 2 ^ 64 bytes returns the
  -- same entry and changes nothing if the size is at most that of the entry, and otherwise either
  -- returns the null pointer with the entry still held, for 2 ^ 14 bytes or more, or panics as
  -- memory has run out, or moves: it returns an entry that nobody held, larger than the new size,
  -- with the words of the old entry, gives the old entry back, and leaves what else callers hold
  -- as it was.
  pub slab_realloc-Resized : size < 2 ^ 64 → Resized a i size s live (slab_realloc a size s)
  slab_realloc-Resized small = elim (dec_lt (class_size i) size) [
    | yes lt ↦
        subst (Resized a i size s live) (sym (larger lt))
          (from_alloc lt (slab_alloc-Lent h size (omega arith) small))
    | no le ↦ stays (omega arith) (not_larger le)
  ]
