-- ===== src/Alloc/Copy.antt =====
-- What the copy of bytes by words leaves.
use native.Mathlib.Decide.{ℕ_discrete}
use native.Mathlib.Nat.{add-mul-mod_self_right, mod-mod}
use cynix.Base.{
  ℕ, zero, suc, ◌+◌, ◌*◌, ◌/◌, ◌%◌, ◌^◌, ◌≤◌, ◌<◌, ◌≡◌, refl, sym, ap, ◌∙◌, ◌≢◌, false, ◌==◌, add64,
  update, update_self, update_ne, word_mod, arith,
}
use cynix.Alloc.{copy_words, copy_bytes}

-- The first `n` bytes at `dest` in `after` are those at `src` in `before`.
pub record SameBytes (dest src : ℕ) (before after : ℕ → ℕ) (n : ℕ) : Type 0 where
  pub whole : (k : ℕ) → k < n / 8 → after (dest + 8 * k) ≡ before (src + 8 * k)
  pub rest :
      after (dest + 8 * (n / 8)) % 2 ^ (8 * (n % 8))
      ≡ before (src + 8 * (n / 8)) % 2 ^ (8 * (n % 8))

module _ (dest src words : ℕ) (dest_fits : dest + 8 * words ≤ word_mod)
    (src_fits : src + 8 * words ≤ word_mod)
    (apart : (j k : ℕ) → j < words → k < words → dest + 8 * j ≢ src + 8 * k) where
  -- No word of the destination from `i` on, for `n` words.
  abbrev Beside : (i n a : ℕ) → Type 0
  Beside i n a = (k : ℕ) → i ≤ k → k < i + n → a ≢ dest + 8 * k

  copy_words-out :
      (word : ℕ → ℕ) (i n a : ℕ)
      → i + n ≤ words
      → Beside i n a
      → copy_words word dest src i n a ≡ word a
  unfolding copy_words
  copy_words-out word i zero a le out = refl
  copy_words-out word i (suc n) a le out =
      let to : add64 dest (8 * i) ≡ dest + 8 * i = omega arith in
      let w = update word (add64 dest (8 * i)) (word (add64 src (8 * i))) in
      copy_words-out w (i + 1) n a (omega arith) (λ k p q. out k (omega arith) (omega arith))
      ∙ update_ne word (word (add64 src (8 * i)))
          (λ e. out i (omega arith) (omega arith) (sym e ∙ to))

  copy_words-in :
      (word : ℕ → ℕ) (i n k : ℕ)
      → i + n ≤ words
      → i ≤ k
      → k < i + n
      → copy_words word dest src i n (dest + 8 * k) ≡ word (src + 8 * k)
  unfolding copy_words
  copy_words-in word i zero k le lo hi = absurd (omega arith)
  copy_words-in word i (suc n) k le lo hi =
      let to : add64 dest (8 * i) ≡ dest + 8 * i = omega arith in
      let from : add64 src (8 * i) ≡ src + 8 * i = omega arith in
      let w = update word (dest + 8 * i) (word (src + 8 * i)) in
      rw (to, from)
        (elim (ℕ_discrete k i) [
          | yes same ↦ rw same (
              copy_words-out w (i + 1) n (dest + 8 * i) (omega arith)
                (λ j p q e. absurd (omega arith))
              ∙ update_self word (dest + 8 * i) (word (src + 8 * i)))
          | no ne ↦
              copy_words-in w (i + 1) n k (omega arith) (omega arith) (omega arith)
              ∙ update_ne word (word (src + 8 * i)) (apart i k (omega arith) (omega arith))
        ])

  module _ (word : ℕ → ℕ) (n : ℕ) (fits : (n + 7) / 8 ≤ words) where
    abbrev copied : ℕ → ℕ
    copied = copy_words word dest src 0 (n / 8)

    abbrev last_to : ℕ
    last_to = dest + 8 * (n / 8)

    abbrev last_from : ℕ
    last_from = src + 8 * (n / 8)

    abbrev bits : ℕ
    bits = 2 ^ (8 * (n % 8))

    abbrev merged : ℕ
    merged = copied last_from % bits + copied last_to / bits * bits

    no_rest : n % 8 ≡ 0 → copy_bytes word dest src n ≡ copied
    unfolding copy_bytes
    no_rest e = rw e

    some_rest : n % 8 ≢ 0 → copy_bytes word dest src n ≡ update copied last_to merged
    unfolding copy_bytes
    some_rest ne =
        let test : (n % 8 == 0) ≡ false = ground arith in
        let to : add64 dest (8 * (n / 8)) ≡ last_to = omega arith in
        let from : add64 src (8 * (n / 8)) ≡ last_from = omega arith in rw (test, to, from)

    merged_low : n % 8 ≢ 0 → merged % bits ≡ word last_from % bits
    merged_low ne =
        add-mul-mod_self_right (copied last_from % bits) (copied last_to / bits) bits
        ∙ mod-mod (copied last_from) bits
        ∙ ap (λ (t : ℕ). t % bits)
            (copy_words-out word 0 (n / 8) last_from (omega arith)
              (λ k p q e. apart k (n / 8) (omega arith) (omega arith) (sym e)))

    pub copy_bytes-SameBytes : SameBytes dest src word (copy_bytes word dest src n) n
    copy_bytes-SameBytes = elim (ℕ_discrete (n % 8) 0) [
      | yes even ↦ record {
        whole = λ k lt.
            ap (λ (w : ℕ → ℕ). w (dest + 8 * k)) (no_rest even)
            ∙ copy_words-in word 0 (n / 8) k (omega arith) (omega arith) (omega arith);
        rest = rw even (omega arith);
      }
      | no odd ↦ record {
        whole = λ k lt.
            ap (λ (w : ℕ → ℕ). w (dest + 8 * k)) (some_rest odd)
            ∙ update_ne copied merged (omega arith)
            ∙ copy_words-in word 0 (n / 8) k (omega arith) (omega arith) (omega arith);
        rest =
            ap (λ (w : ℕ → ℕ). w last_to % bits) (some_rest odd)
            ∙ ap (λ (t : ℕ). t % bits) (update_self copied last_to merged)
            ∙ merged_low odd;
      }
    ]

    pub copy_bytes-out : (a : ℕ) → Beside 0 words a → copy_bytes word dest src n a ≡ word a
    copy_bytes-out a out = elim (ℕ_discrete (n % 8) 0) [
      | yes even ↦
          ap (λ (w : ℕ → ℕ). w a) (no_rest even)
          ∙ copy_words-out word 0 (n / 8) a (omega arith)
              (λ k p q. out k (omega arith) (omega arith))
      | no odd ↦
          ap (λ (w : ℕ → ℕ). w a) (some_rest odd)
          ∙ update_ne copied merged (λ e. out (n / 8) (omega arith) (omega arith) (sym e))
          ∙ copy_words-out word 0 (n / 8) a (omega arith)
              (λ k p q. out k (omega arith) (omega arith))
    ]
