-- ===== src/Vector/Contents.antt =====
-- The list that a vector holds, and what each operation makes of it.
use cynix.Base.{
  ℕ, suc, ◌+◌, ◌-◌, ◌*◌, ◌≤◌, ◌<◌, ◌≡◌, refl, subst, sym, ap, ◌∙◌, ◌⊎◌, inl, inr, Bool-cases, ◌==◌,
  if◌then◌else◌, leb, List, [], ◌∷◌, ◌++◌, update, update_self, update_ne, word_mod, add64, sub64,
  mul64, arith,
}
use cynix.Base.Run.{Run, Reason, ok, panics}
use cynix.Vector.{
  Vector, Realloc, moved, item_size, shift_up, shift_down, vector_ensure_length, vector_push_back,
  vector_insert, vector_remove,
}
use cynix.Vector.Loops.{moved-keeps, slice, slice-eq, slice-++, shift_up_lem, shift_down_lem}

abbrev pub elements : {A : Type 0} → Vector A → List A
elements v = slice v.items 0 v.length

-- The array has room for its items, and doubling it does not wrap.
pub record IsVector {A : Type 0} (v : Vector A) : Type 0 where
  pub room : v.length ≤ v.capacity
  pub bounded : v.capacity * 2 < word_mod

abbrev grown : ℕ → ℕ
grown capacity = if capacity == 0 then 8 else mul64 capacity 2

module _ {A : Type 0} (r : Realloc A) (v : Vector A) (w : IsVector v)
    (fits : v.capacity * 2 * item_size < word_mod) where
  -- Either one more item fits, or `realloc` has panicked.
  pub data Ensured (result : Run (Vector A) (Unit {0})) : Type 0 where
    ready :
        (items : ℕ → A) (capacity : ℕ)
        → result ≡ ok tt (record v { items = items; capacity = capacity })
        → v.length < capacity
        → ((i : ℕ) → i < v.length → items i ≡ v.items i)
        → Ensured result
    refused :
        (reason : Reason)
        → moved r v.capacity (mul64 (grown v.capacity) item_size) v.items ≡ inl reason
        → result ≡ panics reason
        → Ensured result

  Sum-cases : (s : Reason ⊎ (ℕ → A)) → ((x : Reason) × (s ≡ inl x)) ⊎ ((f : ℕ → A) × (s ≡ inr f))
  Sum-cases (inl x) = inl (x, refl)
  Sum-cases (inr f) = inr (f, refl)

  ensure_length-Ensured : Ensured (vector_ensure_length r v.length v)
  unfolding vector_ensure_length
  ensure_length-Ensured = elim (Bool-cases (leb v.capacity v.length)) [
    | inr enough ↦ ready v.items v.capacity (rw enough refl) (ground arith) (λ i lt. refl)
    | inl full ↦
        elim (Sum-cases (moved r v.capacity (mul64 (grown v.capacity) item_size) v.items)) [
          | inl (reason, e) ↦ refused reason e (rw (full, e) refl)
          | inr (items, e) ↦
              ready items (grown v.capacity) (rw (full, e) refl) (ground (arith, w.room, w.bounded))
                (λ i lt.
                  moved-keeps r v.capacity (mul64 (grown v.capacity) item_size) v.items items e i
                    (omega (arith, w.room)) (ground (arith, w.room, w.bounded, fits)))
        ]
  ]

-- An operation that stores an item in a full vector: it leaves the list `to` and returns `ret`, or
-- panics as `realloc` does.
pub data Edited {A B : Type 0} (r : Realloc A) (v : Vector A) (to : List A) (ret : B)
    (result : Run (Vector A) B) : Type 0 where
  edited :
      (v' : Vector A)
      → result ≡ ok ret v'
      → elements v' ≡ to
      → v'.length ≤ v'.capacity
      → Edited r v to ret result
  not_grown :
      (reason : Reason)
      → moved r v.capacity (mul64 (grown v.capacity) item_size) v.items ≡ inl reason
      → result ≡ panics reason
      → Edited r v to ret result

module _ {A : Type 0} (r : Realloc A) {v : Vector A} (w : IsVector v)
    (fits : v.capacity * 2 * item_size < word_mod) where
  back : (j : ℕ) → 1 + j - 1 ≡ j
  back j = omega arith

  inserted :
      (f g : ℕ → A) (i k : ℕ) (x : A)
      → ((j : ℕ) → j < i + k → f j ≡ g j)
      → slice (update (shift_up f (i + k) k) i x) 0 (i + k + 1) ≡ slice g 0 i ++ (x ∷ slice g i k)
  inserted f g i k x same =
      let h = update (shift_up f (i + k) k) i x in
      let count : i + k + 1 ≡ i + suc k = omega arith in
      ap (λ (t : ℕ). slice h 0 t) count
      ∙ slice-++ h 0 i (suc k)
      ∙ ap (λ (t : List A). t ++ slice h (0 + i) (suc k))
          (slice-eq h g 0 0 i (λ j p q.
            ground (arith, shift_up_lem f (i + k) k j (omega arith), same j (omega arith))))
      ∙ ap (λ (t : List A). slice g 0 i ++ t)
          (ap (λ (t : ℕ). h t ∷ slice h (t + 1) k) (omega arith)
            ∙ ap (λ (t : A). t ∷ slice h (i + 1) k) (update_self (shift_up f (i + k) k) i x)
            ∙ ap (λ (t : List A). x ∷ t)
                (ap (λ (t : ℕ). slice h t k) (omega arith)
                  ∙ slice-eq h g i 1 k (λ j p q. ground (
                    arith,
                    shift_up_lem f (i + k) k (1 + j) (omega arith),
                    same j (omega arith),
                    ap f (back j),
                  ))))

  module _ (index : ℕ) (x : A) (within : index ≤ v.length) where
    -- On a vector with its length within its capacity and a capacity whose bytes, doubled, are
    -- below 2 ^ 64, inserting at an index up to the length puts the item between the items before
    -- the index and those from it on, or panics as `realloc` gets no memory.
    pub vector_insert-Edited :
        Edited r v
          (slice v.items 0 index ++ (x ∷ slice v.items index (v.length - index)))
          tt
          (vector_insert r index x v)
    unfolding vector_insert
    vector_insert-Edited = go (ensure_length-Ensured r v w fits)
      where
        go :
            Ensured r v w fits (vector_ensure_length r v.length v)
            → Edited r v
                (slice v.items 0 index ++ (x ∷ slice v.items index (v.length - index)))
                tt
                (vector_insert r index x v)
        go (ready items capacity e room same) =
            let put = update (shift_up items v.length (v.length - index)) index x in
            let wrap : add64 v.length 1 ≡ v.length + 1 = omega (arith, w.bounded, w.room) in
            let sum : index + (v.length - index) ≡ v.length = omega arith in
            edited (record { items = put; length = v.length + 1; capacity = capacity })
              (rw (e, wrap))
              (subst
                (λ (t : ℕ).
                  slice (update (shift_up items t (v.length - index)) index x) 0 (t + 1)
                  ≡ slice v.items 0 index ++ (x ∷ slice v.items index (v.length - index)))
                sum
                (inserted items v.items index (v.length - index) x (λ j lt. same j (omega arith))))
              (omega arith)
        go (refused reason e f) = not_grown reason e (rw f)

  -- On a vector with its length within its capacity and a capacity whose bytes, doubled, are below
  -- 2 ^ 64, `VECTOR_PUSH_BACK` appends the item and returns its index, or panics as `realloc` gets
  -- no memory.
  pub vector_push_back-Edited :
      (x : A) → Edited r v (elements v ++ (x ∷ [])) v.length (vector_push_back r x v)
  unfolding vector_push_back
  vector_push_back-Edited x = go (ensure_length-Ensured r v w fits)
    where
      go :
          Ensured r v w fits (vector_ensure_length r v.length v)
          → Edited r v (elements v ++ (x ∷ [])) v.length (vector_push_back r x v)
      go (ready items capacity e room same) =
          let put = update items v.length x in
          let wrap : add64 v.length 1 ≡ v.length + 1 = omega (arith, w.bounded, w.room) in
          let index : sub64 (v.length + 1) 1 ≡ v.length = omega (arith, w.bounded, w.room) in
          edited (record { items = put; length = v.length + 1; capacity = capacity })
            (rw (e, wrap, index))
            (slice-++ put 0 v.length 1
              ∙ ap (λ (t : List A). t ++ (put (0 + v.length) ∷ []))
                  (slice-eq put v.items 0 0 v.length (λ j p q.
                    update_ne items x (omega arith)
                    ∙ ap items (omega arith)
                    ∙ same j (omega arith)))
              ∙ ap (λ (t : ℕ). elements v ++ (put t ∷ [])) (omega arith)
              ∙ ap (λ (t : A). elements v ++ (t ∷ [])) (update_self items v.length x))
            (omega arith)
      go (refused reason e f) = not_grown reason e (rw f)

plus_one : (j : ℕ) → 1 + j ≡ j + 1
plus_one j = omega arith

module _ {A : Type 0} {v : Vector A} (w : IsVector v) (index : ℕ) where
  -- On a vector with its length within its capacity and a capacity that can double, removing at an
  -- index below the length takes that item out and keeps the others in order.
  pub vector_remove-elements :
      index < v.length
      → (v' : Vector A) × (vector_remove index v ≡ ok tt v')
        × (elements v' ≡ slice v.items 0 index ++ slice v.items (index + 1) (v.length - 1 - index))
        × (v'.length ≡ v.length - 1)
        × IsVector v'
  unfolding vector_remove
  vector_remove-elements lt =
      let k = v.length - 1 - index in
      let h = shift_down v.items index k in
      let wrap : sub64 v.length 1 ≡ v.length - 1 = omega (arith, w.bounded, w.room) in
      let count : v.length - 1 ≡ index + k = omega arith in
      (
        record { items = h; length = v.length - 1; capacity = v.capacity },
        rw wrap,
        ap (λ (t : ℕ). slice h 0 t) count
            ∙ slice-++ h 0 index k
            ∙ ap (λ (t : List A). t ++ slice h (0 + index) k)
                (slice-eq h v.items 0 0 index
                  (λ j p q. ground (arith, shift_down_lem v.items index k (0 + j))))
            ∙ ap (λ (t : List A). slice v.items 0 index ++ t)
                (ap (λ (t : ℕ). slice h t k) {y = index} (omega arith)
                  ∙ sym (
                      slice-eq v.items h index 1 k (λ j p q.
                        ground (arith, shift_down_lem v.items index k j, ap v.items (plus_one j))))
                  ∙ ap (λ (t : ℕ). slice v.items t k) (plus_one index)),
        refl,
        record { room = omega (arith, w.room); bounded = w.bounded },
      )
