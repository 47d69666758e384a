-- ===== src/Vector/Find.antt =====
-- Searching a vector, and removing by value.
use native.Mathlib.Decide.{ℕ_discrete}
use cynix.Base.{
  ℕ, zero, suc, ◌+◌, ◌-◌, ◌≤◌, ◌<◌, ◌≡◌, refl, subst, sym, inl, inr, Bool, true, false, Bool-cases,
  ◌++◌, sub64, arith,
}
use cynix.Base.Run.{ok}
use cynix.Vector.{
  Vector, vector_invalid_index, shift_down, vector_remove, find_from, vector_find,
  vector_remove_by_value,
}
use cynix.Vector.Loops.{slice}
use cynix.Vector.Contents.{elements, IsVector, vector_remove-elements}

-- `VECTOR_FIND` returns the index of the first item that is equal to the value, or the invalid index
-- if there is none.
pub data Found {A : Type 0} (eq : A → A → Bool) (items : ℕ → A) (value : A) (from to : ℕ) (i : ℕ)
    : Type 0 where
  at :
      from ≤ i
      → i < to
      → eq (items i) value ≡ true
      → ((j : ℕ) → from ≤ j → j < i → eq (items j) value ≡ false)
      → Found eq items value from to i
  nowhere :
      i ≡ vector_invalid_index
      → ((j : ℕ) → from ≤ j → j < to → eq (items j) value ≡ false)
      → Found eq items value from to i

module _ {A : Type 0} (eq : A → A → Bool) (items : ℕ → A) (value : A) where
  abbrev Differs : (i to : ℕ) → Type 0
  Differs i to = (j : ℕ) → i ≤ j → j < to → eq (items j) value ≡ false

  Differs-extend : {i to : ℕ} → eq (items i) value ≡ false → Differs (i + 1) to → Differs i to
  Differs-extend {i} e rest j p q = elim (ℕ_discrete i j) [
    | yes same ↦ rw (sym same) e
    | no ne ↦ rest j (omega arith) q
  ]

  later :
      {i to to' k : ℕ}
      → to ≡ to'
      → eq (items i) value ≡ false
      → Found eq items value (i + 1) to k
      → Found eq items value i to' k
  later same e (at lo hi here before) =
      at (omega arith) (omega arith) here (Differs-extend e before)
  later same e (nowhere bad all) = nowhere bad (Differs-extend e (λ j p q. all j p (omega arith)))

  pub find_from-Found : (i n : ℕ) → Found eq items value i (i + n) (find_from eq items value i n)
  unfolding find_from
  find_from-Found i zero = nowhere refl (λ j p q. absurd (omega arith))
  find_from-Found i (suc n) = elim (Bool-cases (eq (items i) value)) [
    | inl here ↦ rw here (at (omega arith) (omega arith) here (λ j p q. absurd (omega arith)))
    | inr other ↦ rw other (later (omega arith) other (find_from-Found (i + 1) n))
  ]

module _ {A : Type 0} (eq : A → A → Bool) (value : A) {v : Vector A} (w : IsVector v) where
  pub vector_find-Found : Found eq v.items value 0 v.length (vector_find eq value v)
  unfolding vector_find
  vector_find-Found =
      subst (λ (to : ℕ). Found eq v.items value 0 to (find_from eq v.items value 0 v.length))
        (omega arith) (find_from-Found eq v.items value 0 v.length)

  -- The list without the item at the index, or without its last item if the value is nowhere.
  pub data Removed (to : Vector A) (i : ℕ) : Type 0 where
    first :
        i < v.length
        → eq (v.items i) value ≡ true
        → ((j : ℕ) → j < i → eq (v.items j) value ≡ false)
        → elements to ≡ slice v.items 0 i ++ slice v.items (i + 1) (v.length - 1 - i)
        → Removed to i
    last :
        ((j : ℕ) → j < v.length → eq (v.items j) value ≡ false)
        → elements to ≡ slice v.items 0 (v.length - 1)
        → Removed to i

  absent :
      vector_find eq value v ≡ vector_invalid_index
      → 0 < v.length
      → vector_remove_by_value eq value v ≡ ok tt (record v { length = v.length - 1 })
  unfolding vector_remove_by_value vector_remove shift_down
  absent e pos =
      let wrap : sub64 v.length 1 ≡ v.length - 1 = omega (arith, w.bounded, w.room) in
      let rounds : v.length - 1 - vector_invalid_index ≡ 0 = omega (arith, w.bounded, w.room) in
      rw (e, wrap, rounds)

  -- On a vector that is not empty, with its length within its capacity and a capacity that can
  -- double, `VECTOR_REMOVE_BY_VALUE` takes out the first item that is equal to the value; where
  -- there is none, it drops the last item.
  pub vector_remove_by_value-Removed :
      0 < v.length
      → (v' : Vector A) × (vector_remove_by_value eq value v ≡ ok tt v')
        × Removed v' (vector_find eq value v)
  unfolding vector_remove_by_value
  vector_remove_by_value-Removed pos = go vector_find-Found
    where
      go :
          Found eq v.items value 0 v.length (vector_find eq value v)
          → (v' : Vector A) × (vector_remove_by_value eq value v ≡ ok tt v')
            × Removed v' (vector_find eq value v)
      go (at lo hi here before) =
          let (v', run, list, _, _) = vector_remove-elements w (vector_find eq value v) hi in
          (v', run, first hi here (λ j q. before j (omega arith) q) list)
      go (nowhere bad all) = (
        record v { length = v.length - 1 },
        absent bad pos,
        last (λ j q. all j (omega arith) q) refl,
      )
