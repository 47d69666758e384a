-- ===== src/Vector/Each.antt =====
-- The order in which `VECTOR_FOR_EACH` comes to the items.
use cynix.Base.{ℕ, zero, suc, ◌+◌, ◌<◌, ◌≡◌, refl, true, false, ltb, arith}
use cynix.Base.Run.{Run, Cmd, ok, panics, spins, trap, and_then, pure, ◌>>◌}
use cynix.Vector.{Vector, for_each_from, vector_for_each}

-- The bodies for the items `i` to `i + k - 1`
abbrev in_turn : {S : Type 0} → (ℕ → Cmd S (Unit {0})) → (i k : ℕ) → Cmd S (Unit {0})
in_turn body i zero = pure tt
in_turn body i (suc k) = body i >> in_turn body (i + 1) k

module _ {S A : Type 0} (vec : S → Vector A) (body : (i : ℕ) → Cmd S (Unit {0}))
    (keeps : (i : ℕ) (s s' : S) → body i s ≡ ok tt s' → (vec s').length ≡ (vec s).length) where
  same_after :
      (r : Run S (Unit {0})) (f g : Cmd S (Unit {0}))
      → ((s : S) → r ≡ ok tt s → f s ≡ g s)
      → and_then r (λ _. f) ≡ and_then r (λ _. g)
  same_after (ok tt s) f g same = same s refl
  same_after (panics _) f g same = refl
  same_after spins f g same = refl
  same_after trap f g same = refl

  for_each_from_lem :
      (n i k : ℕ) (s : S)
      → (vec s).length ≡ i + k
      → k < n
      → for_each_from vec body i n s ≡ in_turn body i k s
  unfolding for_each_from
  for_each_from_lem zero i k s e lt = absurd (omega arith)
  for_each_from_lem (suc n) i zero s e lt =
      let past : ltb i (vec s).length ≡ false = ground arith in rw past refl
  for_each_from_lem (suc n) i (suc k) s e lt =
      let inside : ltb i (vec s).length ≡ true = ground arith in
      rw inside (
        same_after (body i s) (for_each_from vec body (i + 1) n) (in_turn body (i + 1) k) λ s' runs.
          for_each_from_lem n (i + 1) k s' (omega (arith, keeps i s s' runs)) (omega arith))

  -- A body that keeps the length runs once for each item, in order, and one round more than there are
  -- items is enough.
  vector_for_each_lem :
      (s : S) (rounds : ℕ)
      → (vec s).length < rounds
      → vector_for_each vec body rounds s ≡ in_turn body 0 (vec s).length s
  unfolding vector_for_each
  vector_for_each_lem s rounds lt = for_each_from_lem rounds 0 (vec s).length s (omega arith) lt
