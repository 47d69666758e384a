-- ===== src/Vector/Items.antt =====
-- The items of a vector one by one, and how its capacity grows.
use cynix.Base.{
  ℕ, ◌+◌, ◌*◌, ◌^◌, ◌≤◌, ◌<◌, ◌≡◌, refl, ◌∙◌, ◌⊎◌, inl, inr, true, Bool-cases, ◌==◌, if◌then◌else◌,
  leb, update, update_self, update_ne, add64, sub64, mul64, arith,
}
use cynix.Base.Run.{Reason, ok}
use cynix.Base.Outcome.{Outcome, returned, failed}
use cynix.Vector.Loops.{moved-keeps}
use cynix.Vector.{moved, item_size, Vector, Realloc, vector_ensure_length, vector_push_back}

-- A vector that has only been pushed to: at most half of it is empty, once it is larger than 8.
pub record IsTight {A : Type 0} (v : Vector A) : Type 0 where
  pub room : v.length ≤ v.capacity
  pub tight : v.capacity ≤ 8 + 2 * v.length

-- `realloc` panics for the reason.
abbrev pub Refuses : {A : Type 0} → Realloc A → Reason → Type 0
Refuses {A} r reason =
    (capacity : ℕ) × (bytes : ℕ) × (items : ℕ → A) × (moved r capacity bytes items ≡ inl reason)

module _ {A : Type 0} (r : Realloc A) (v : Vector A) (x : A) where
  pub record IsPushed (v' : Vector A) : Type 0 where
    pub still_tight : IsTight v'
    pub length : v'.length ≡ v.length + 1
    pub last : v'.items v.length ≡ x
    pub others : (j : ℕ) → j < v.length → v'.items j ≡ v.items j

  grown : ℕ → ℕ
  grown capacity = if capacity == 0 then 8 else mul64 capacity 2

  module _ (w : IsTight v) (small : v.length < 2 ^ 32) where
    push_into :
        (items : ℕ → A) (capacity : ℕ)
        → vector_ensure_length r v.length v
          ≡ ok tt (record v { items = items; capacity = capacity })
        → v.length < capacity
        → capacity ≤ 8 + 2 * (v.length + 1)
        → ((j : ℕ) → j < v.length → items j ≡ v.items j)
        → Outcome (Refuses r) (λ _ v'. IsPushed v') (vector_push_back r x v)
    unfolding vector_push_back
    push_into items capacity e room tight same =
        let wrap : add64 v.length 1 ≡ v.length + 1 = omega arith in
        returned (sub64 (v.length + 1) 1)
          (record { items = update items v.length x; length = v.length + 1; capacity = capacity })
          (rw (e, wrap))
          (record {
            still_tight = record { room = omega arith; tight = tight };
            length = refl;
            last = update_self items v.length x;
            others = λ j lt.
                update_ne items {i = v.length} {j = j} x (λ e'. absurd (omega arith)) ∙ same j lt;
          })

    by_realloc :
        (s : Reason ⊎ (ℕ → A))
        → leb v.capacity v.length ≡ true
        → moved r v.capacity (mul64 (grown v.capacity) item_size) v.items ≡ s
        → Outcome (Refuses r) (λ _ v'. IsPushed v') (vector_push_back r x v)
    unfolding grown vector_push_back vector_ensure_length
    by_realloc (inl reason) full e =
        failed reason (v.capacity, mul64 (grown v.capacity) item_size, v.items, e) (rw (full, e))
    by_realloc (inr items) full e =
        push_into items (grown v.capacity) (rw (full, e)) (ground (arith, w.room))
          (ground (arith, w.room, w.tight))
          (λ j lt.
            moved-keeps r v.capacity (mul64 (grown v.capacity) item_size) v.items items e j
              (omega (arith, w.room)) (ground (arith, w.room, w.tight)))

    pub vector_push_back-IsPushed :
        Outcome (Refuses r) (λ _ v'. IsPushed v') (vector_push_back r x v)
    unfolding vector_ensure_length
    vector_push_back-IsPushed = elim (Bool-cases (leb v.capacity v.length)) [
      | inl full ↦
          by_realloc (moved r v.capacity (mul64 (grown v.capacity) item_size) v.items) full refl
      | inr free ↦
          push_into v.items v.capacity (rw free) (ground arith) (omega (arith, w.tight))
            (λ j lt. refl)
    ]
