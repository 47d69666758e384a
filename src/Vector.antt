-- ===== src/Vector.antt =====
-- kernel/src/lib/vector.k.h: growable arrays.
pub mod Loops
pub mod Contents
pub mod Find
pub mod Items
mod Each
mod Tests
use cynix.Base.{
  ◌&&◌, ℕ, zero, suc, ◌+◌, ◌-◌, ◌*◌, ◌≤◌, ◌<◌, ◌≡◌, ◌⊎◌, inl, inr, Bool, ltb, leb, ◌==◌,
  if◌then◌else◌, add64, sub64, mul64, update, word_mod,
}
use cynix.Base.Run.{out_of_memory, Cmd, Reason, ok, panics, spins, gets, modify, pure, ◌>>=◌, ◌>>◌}

-- `items` is the array at `data`; what lies at `length` and behind it means nothing.
pub record Vector (A : Type 0) : Type 0 where
  pub items : ℕ → A
  pub length : ℕ
  pub capacity : ℕ

-- The size of an item: all vectors of the kernel hold pointers.
abbrev pub item_size : ℕ
item_size = 8

-- What `realloc` of lib/alloc.c depends on: whether there is memory for so many bytes, and what lies in
-- the new array behind the items that are copied. Alloc/Resize is about `realloc` itself.
pub record Realloc (A : Type 0) : Type 0 where
  pub granted : (bytes : ℕ) → Bool
  pub beyond : ℕ → A

-- The array of `capacity` items in one of so many bytes, or the panic
abbrev pub moved : {A : Type 0} → Realloc A → (capacity bytes : ℕ) → (ℕ → A) → Reason ⊎ (ℕ → A)
moved r capacity bytes items =
    if r.granted bytes
    then inr
        (λ i. if ltb i capacity && leb (item_size * (i + 1)) bytes then items i else r.beyond i)
    else inl out_of_memory

abbrev pub vector_invalid_index : ℕ
vector_invalid_index = word_mod - 1

-- The loop of `VECTOR_INSERT`, with `i - index` rounds left
unfoldable pub shift_up : {A : Type 0} → (ℕ → A) → (i rounds : ℕ) → ℕ → A
shift_up items i zero = items
shift_up items i (suc n) = shift_up (update items i (items (i - 1))) (i - 1) n

-- The loop of `VECTOR_REMOVE`, with `length - 1 - i` rounds left
unfoldable pub shift_down : {A : Type 0} → (ℕ → A) → (i rounds : ℕ) → ℕ → A
shift_down items i zero = items
shift_down items i (suc n) = shift_down (update items i (items (i + 1))) (i + 1) n

module _ {A : Type 0} (r : Realloc A) where
  unfoldable pub vector_ensure_length : (length : ℕ) → Cmd (Vector A) (Unit {0})
  vector_ensure_length length v =
      if leb v.capacity length
      then (let capacity = if v.capacity == 0 then 8 else mul64 v.capacity 2 in
          elim (moved r v.capacity (mul64 capacity item_size) v.items) [
            | inl reason ↦ panics reason
            | inr items ↦ ok tt (record v { items = items; capacity = capacity })
          ])
      else ok tt v

  unfoldable pub vector_push_back : A → Cmd (Vector A) ℕ
  unfolding vector_ensure_length
  vector_push_back value = do
    length ← gets (λ v. v.length)
    vector_ensure_length length
    modify (λ v. record v { items = update v.items length value; length = add64 length 1 })
    gets (λ v. sub64 v.length 1)

  unfoldable pub vector_insert : (index : ℕ) → A → Cmd (Vector A) (Unit {0})
  unfolding vector_ensure_length shift_up
  vector_insert index value = do
    length ← gets (λ v. v.length)
    vector_ensure_length length
    modify (λ v. record v { items = shift_up v.items length (length - index) })
    modify (λ v. record v { length = add64 v.length 1 })
    modify (λ v. record v { items = update v.items index value })

  unfoldable pub vector_push_front : A → Cmd (Vector A) (Unit {0})
  unfolding vector_insert
  vector_push_front value = vector_insert 0 value

module _ {A : Type 0} where
  -- The loop's bound is `length - 1` at 64 bits.
  unfoldable pub vector_remove : (index : ℕ) → Cmd (Vector A) (Unit {0})
  unfolding shift_down
  vector_remove index = do
    modify (λ v. record v { items = shift_down v.items index (sub64 v.length 1 - index) })
    modify (λ v. record v { length = sub64 v.length 1 })

  -- `invalid` is `VECTOR_INVALID_INDEX` as an item.
  unfoldable pub vector_item : (invalid : A) → (index : ℕ) → Vector A → A
  vector_item invalid index v = if ltb index v.length then v.items index else invalid

  module _ (eq : A → A → Bool) where
    -- The loop of `VECTOR_FIND` from item `i`, with `n` rounds left; the result is an `ssize_t`, read
    -- as a `size_t`.
    unfoldable pub find_from : (ℕ → A) → A → (i n : ℕ) → ℕ
    find_from items value i zero = vector_invalid_index
    find_from items value i (suc n) =
        let rest = find_from items value (i + 1) n in if eq (items i) value then i else rest

    unfoldable pub vector_find : A → Vector A → ℕ
    unfolding find_from
    vector_find value v = find_from v.items value 0 v.length

    unfoldable pub vector_remove_by_value : A → Cmd (Vector A) (Unit {0})
    unfolding vector_find vector_remove
    vector_remove_by_value value = do i ← gets (vector_find value); vector_remove i

module _ {S A : Type 0} (vec : S → Vector A) (body : (i : ℕ) → Cmd S (Unit {0})) where
  -- The loop of `VECTOR_FOR_EACH` from item `i`, with `n` rounds left; `body` gets the place of the
  -- item, and may change the vector.
  unfoldable for_each_from : (i n : ℕ) → Cmd S (Unit {0})
  for_each_from i zero = λ s. spins
  for_each_from i (suc n) = do
    length ← gets (λ s. (vec s).length)
    if ltb i length then body i >> for_each_from (i + 1) n else pure tt

  unfoldable vector_for_each : (rounds : ℕ) → Cmd S (Unit {0})
  unfolding for_each_from
  vector_for_each rounds = for_each_from 0 rounds
