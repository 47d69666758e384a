-- ===== src/Pmm/Memory.antt =====
-- The word loops of `pmm_alloc` and `pmm_free`.
use native.Mathlib.Decide.{ℕ_discrete}
use cynix.Base.{
  ℕ, zero, suc, ◌+◌, ◌*◌, ◌≤◌, ◌<◌, ◌≡◌, refl, ◌≢◌, arith, word_mod, update, add64, mul64,
}
use cynix.Pmm.{fill_words}

module _ (ptr value : ℕ) where
  -- A word that holds the value already holds it after the loop.
  fill_words_keeps :
      (word : ℕ → ℕ) (a i n : ℕ) → word a ≡ value → fill_words word ptr value i n a ≡ value
  unfolding fill_words
  fill_words_keeps word a i zero h = h
  fill_words_keeps word a i (suc n) h =
      fill_words_keeps (update word (add64 ptr (mul64 8 i)) value) a (i + 1) n (ground arith)

  pub fill_words_in :
      (word : ℕ → ℕ) (k i n : ℕ)
      → ptr + 8 * (i + n) ≤ word_mod
      → i ≤ k
      → k < i + n
      → fill_words word ptr value i n (ptr + 8 * k) ≡ value
  unfolding fill_words
  fill_words_in word k i zero fits lo hi = absurd (omega arith)
  fill_words_in word k i (suc n) fits lo hi =
      let word' = update word (add64 ptr (mul64 8 i)) value in
      elim (ℕ_discrete k i) [
        | yes e ↦ fill_words_keeps word' (ptr + 8 * k) (i + 1) n (ground arith)
        | no ne ↦ fill_words_in word' k (i + 1) n (omega arith) (omega arith) (omega arith)
      ]

  pub fill_words_out :
      (word : ℕ → ℕ) (a i n : ℕ)
      → ptr + 8 * (i + n) ≤ word_mod
      → ((k : ℕ) → i ≤ k → k < i + n → a ≢ ptr + 8 * k)
      → fill_words word ptr value i n a ≡ word a
  unfolding fill_words
  fill_words_out word a i zero fits out = refl
  fill_words_out word a i (suc n) fits out = ground (
    arith,
    out i,
    fill_words_out (update word (add64 ptr (mul64 8 i)) value) a (i + 1) n (omega arith)
        (λ k p q. out k (omega arith) (omega arith)),
  )
