-- ===== src/Vector/Loops.antt =====
-- The loops that move items, and the lists that arrays hold.
use cynix.Base.{
  ℕ, zero, suc, ◌+◌, ◌*◌, ◌-◌, ◌≤◌, ◌<◌, ◌≡◌, refl, sym, ap, ◌∙◌, ◌⊎◌, inl, inr, Bool, true, false,
  if◌then◌else◌, leb, ltb, ◌&&◌, List, [], ◌∷◌, ◌++◌, update, arith,
}
use cynix.Base.Run.{Reason, out_of_memory}
use cynix.Vector.{Realloc, moved, item_size, shift_up, shift_down}

module _ {A : Type 0} (r : Realloc A) (capacity bytes : ℕ) (items : ℕ → A) where
  -- What fits the new array is copied.
  pub moved-keeps :
      (items' : ℕ → A)
      → moved r capacity bytes items ≡ inr items'
      → (i : ℕ) → i < capacity
      → item_size * (i + 1) ≤ bytes
      → items' i ≡ items i
  moved-keeps items' e i lt fits = by_grant (r.granted bytes) e
    where
      by_grant :
          (b : Bool)
          → ◌≡◌ {A = Reason ⊎ (ℕ → A)}
              (if b
                then inr (λ i.
                  if ltb i capacity && leb (item_size * (i + 1)) bytes then items i else r.beyond i)
                else inl out_of_memory)
              (inr items')
          → items' i ≡ items i
      by_grant false e = absurd (cc)
      by_grant true e =
          let test : (ltb i capacity && leb (item_size * (i + 1)) bytes) ≡ true = ground arith in
          let same : (λ i.
            if ltb i capacity && leb (item_size * (i + 1)) bytes then items i else r.beyond i)
              ≡ items' =
            cc in
          ap (λ (f : ℕ → A). f i) (sym same) ∙ rw test refl

module _ {A : Type 0} where
  -- The items `i` to `i + n - 1`
  abbrev pub slice : (ℕ → A) → (i n : ℕ) → List A
  slice items i zero = []
  slice items i (suc n) = items i ∷ slice items (i + 1) n

  pub slice-eq :
      (f g : ℕ → A) (i d n : ℕ)
      → ((j : ℕ) → i ≤ j → j < i + n → f (d + j) ≡ g j)
      → slice f (d + i) n ≡ slice g i n
  slice-eq f g i d zero e = refl
  slice-eq f g i d (suc n) e =
      let head : f (d + i) ≡ g i = e i (omega arith) (omega arith) in
      let next : d + i + 1 ≡ d + (i + 1) = omega arith in
      let tail = slice-eq f g (i + 1) d n (λ j p q. e j (omega arith) (omega arith)) in
      rw (head, next, tail)

  pub slice-++ : (f : ℕ → A) (i n k : ℕ) → slice f i (n + k) ≡ slice f i n ++ slice f (i + n) k
  slice-++ f i zero k =
      ap (λ (t : ℕ). slice f i t) (omega arith) ∙ ap (λ (t : ℕ). slice f t k) (omega arith)
  slice-++ f i (suc n) k =
      let count : suc n + k ≡ suc (n + k) = omega arith in
      let start : i + 1 + n ≡ i + suc n = omega arith in
      ap (λ (t : ℕ). slice f i t) count
      ∙ ap (λ (t : List A). f i ∷ t) (slice-++ f (i + 1) n k)
      ∙ ap (λ (t : ℕ). f i ∷ (slice f (i + 1) n ++ slice f t k)) start

  pub shift_up_lem :
      (f : ℕ → A) (i n j : ℕ)
      → n ≤ i
      → shift_up f i n j ≡ (if leb (i + 1 - n) j && leb j i then f (j - 1) else f j)
  unfolding shift_up
  shift_up_lem f i zero j le = ground arith
  shift_up_lem f i (suc n) j le =
      ground (arith, shift_up_lem (update f i (f (i - 1))) (i - 1) n j (omega arith))

  pub shift_down_lem :
      (f : ℕ → A) (i n j : ℕ)
      → shift_down f i n j ≡ (if leb i j && ltb j (i + n) then f (j + 1) else f j)
  unfolding shift_down
  shift_down_lem f i zero j = ground arith
  shift_down_lem f i (suc n) j = ground (arith, shift_down_lem (update f i (f (i + 1))) (i + 1) n j)
