-- ===== src/Slab/Chains.antt =====
-- Free lists of a slab: entries linked by the word at their start.
use cynix.Base.{
  ℕ, zero, suc, ◌+◌, ◌*◌, ◌^◌, ◌≤◌, ◌<◌, ◌≡◌, ◌≢◌, refl, sym, ◌∙◌, ◌⊎◌, inl, inr, ap, subst, List,
  [], ◌∷◌, add64, mul64, update, update_self, update_ne, arith,
}
use cynix.Slab.{link_entries}

-- The list that starts at `head` has the entries `rest`, in this order; 0 ends it.
abbrev pub Chain : (word : ℕ → ℕ) (head : ℕ) → List ℕ → Type 0
Chain word head [] = head ≡ 0
Chain word head (a ∷ rest) = (head ≡ a) × (0 < a) × Chain word (word a) rest

abbrev pub In : ℕ → List ℕ → Type 0
In a [] = ⊥
In a (b ∷ bs) = (a ≡ b) ⊎ In a bs

abbrev pub Distinct : List ℕ → Type 0
Distinct [] = Unit
Distinct (a ∷ rest) = (In a rest → ⊥) × Distinct rest

-- `n` addresses from `at` on, `size` apart
abbrev pub spaced : (at size n : ℕ) → List ℕ
spaced at size zero = []
spaced at size (suc n) = at ∷ spaced (at + size) size n

-- A change of memory outside the list's entries keeps the list.
pub Chain-kept :
    (w v : ℕ → ℕ) (head : ℕ) (rest : List ℕ)
    → ((a : ℕ) → In a rest → v a ≡ w a)
    → Chain w head rest
    → Chain v head rest
Chain-kept w v head [] same c = c
Chain-kept w v head (a ∷ rest) same (e, p, c) =
    let kept = Chain-kept w v (w a) rest (λ b i. same b (inr i)) c in (e, p, subst_chain kept)
  where
    subst_chain : Chain v (w a) rest → Chain v (v a) rest
    subst_chain c = rw (same a (inl refl)) c

pub In-spaced :
    (b at size n : ℕ) → In b (spaced at size n) → (k : ℕ) × (k < n) × (b ≡ at + size * k)
In-spaced b at size zero i = absurd i
In-spaced b at size (suc n) (inl e) = (0, omega arith, omega arith)
In-spaced b at size (suc n) (inr i) =
    let (k, lt, e) = In-spaced b (at + size) size n i in (suc k, omega arith, omega arith)

pub spaced-Distinct : (at size n : ℕ) → 0 < size → Distinct (spaced at size n)
spaced-Distinct at size zero pos = tt
spaced-Distinct at size (suc n) pos = (
  λ i. let (k, lt, e) = In-spaced at (at + size) size n i in absurd (omega arith),
  spaced-Distinct (at + size) size n pos,
)

cons-Chain :
    (w : ℕ → ℕ) (a b size n : ℕ)
    → 0 < a
    → w a ≡ b
    → b ≡ a + size
    → Chain w b (spaced b size n)
    → Chain w a (spaced a size (suc n))
cons-Chain w a b size n pos e step c =
    (refl, pos, subst (λ t. Chain w (w a) (spaced t size n)) step (rw e c))

module _ (arr fact : ℕ) where
  abbrev pub spot : ℕ → ℕ
  spot i = arr + 8 * (i * fact)

  spot_suc : (i : ℕ) → spot (i + 1) ≡ spot i + 8 * fact
  spot_suc i = omega arith

  spot_add : (i n : ℕ) → spot (i + n) ≡ spot i + 8 * (n * fact)
  spot_add i n = omega arith

  spot_shift : (i n : ℕ) → spot (i + 1 + n) ≡ spot (i + suc n)
  spot_shift i n = omega arith

  -- One round's store, without wrap-around
  round :
      (word : ℕ → ℕ) (i n : ℕ)
      → spot (i + suc n) < 2 ^ 64
      → update word (add64 arr (mul64 8 (i * fact))) (add64 arr (mul64 8 ((i + 1) * fact)))
        ≡ update word (spot i) (spot (i + 1))
  round word i n small =
      let at : add64 arr (mul64 8 (i * fact)) ≡ spot i = omega (arith, spot_add i (suc n)) in
      let next : add64 arr (mul64 8 ((i + 1) * fact)) ≡ spot (i + 1) =
        omega (arith, spot_add i (suc n), spot_suc i) in
      rw (at, next)

  one_round :
      (word : ℕ → ℕ) (i n : ℕ)
      → spot (i + suc n) < 2 ^ 64
      → link_entries word arr fact i (suc n)
        ≡ link_entries (update word (spot i) (spot (i + 1))) arr fact (i + 1) n
  unfolding link_entries
  one_round word i n small =
      ap (λ (v : ℕ → ℕ). link_entries v arr fact (i + 1) n) (round word i n small)

  -- The loop writes the entries `i` to `i + n - 1` only.
  pub link_entries-others :
      (n i : ℕ) (word : ℕ → ℕ) (a : ℕ)
      → spot (i + n) < 2 ^ 64
      → (a < spot i) ⊎ (spot (i + n) ≤ a)
      → 0 < fact
      → link_entries word arr fact i n a ≡ word a
  unfolding link_entries
  link_entries-others zero i word a small out pos = refl
  link_entries-others (suc n) i word a small out pos = rw (round word i n small) (
      link_entries-others n (i + 1) (update word (spot i) (spot (i + 1))) a
        (omega (arith, spot_shift i n)) (later out) pos
      ∙ update_ne word (spot (i + 1)) (elsewhere out))
    where
      later : (a < spot i) ⊎ (spot (i + suc n) ≤ a) → (a < spot (i + 1)) ⊎ (spot (i + 1 + n) ≤ a)
      later (inl lt) = inl (omega (arith, spot_suc i))
      later (inr le) = inr (omega (arith, spot_shift i n))

      elsewhere : (a < spot i) ⊎ (spot (i + suc n) ≤ a) → spot i ≢ a
      elsewhere (inl lt) e = omega arith
      elsewhere (inr le) e = absurd (omega (arith, spot_add i (suc n)))

  pub link_entries-Chain :
      (n i : ℕ) (word : ℕ → ℕ)
      → spot (i + n) < 2 ^ 64
      → 0 < fact
      → 0 < arr
      → Chain
          (update (link_entries word arr fact i n) (spot (i + n)) 0)
          (spot i)
          (spaced (spot i) (8 * fact) (suc n))
  unfolding link_entries
  link_entries-Chain zero i word small pos arr_pos =
      let here : spot (i + 0) ≡ spot i = omega arith in
      (refl, omega arith, rw here (update_self word (spot i) 0))
  link_entries-Chain (suc n) i word small pos arr_pos =
      let stored = update word (spot i) (spot (i + 1)) in
      let linked = link_entries stored arr fact (i + 1) n in
      let kept =
        link_entries-others n (i + 1) stored (spot i) (omega (arith, spot_shift i n))
          (inl (omega (arith, spot_suc i))) pos in
      let last : spot (i + suc n) ≢ spot i = λ e. omega (arith, spot_add i (suc n)) in
      let next : update linked (spot (i + suc n)) 0 (spot i) ≡ spot (i + 1) =
        update_ne linked 0 last ∙ kept ∙ update_self word (spot i) (spot (i + 1)) in
      let more = link_entries-Chain n (i + 1) stored (omega (arith, spot_shift i n)) pos arr_pos in
      let later =
        subst
          (λ t. Chain (update linked t 0) (spot (i + 1)) (spaced (spot (i + 1)) (8 * fact) (suc n)))
          (spot_shift i n) more in
      subst
        (λ v.
          Chain (update v (spot (i + suc n)) 0) (spot i) (spaced (spot i) (8 * fact) (suc (suc n))))
        (sym (one_round word i n small))
        (cons-Chain (update linked (spot (i + suc n)) 0) (spot i) (spot (i + 1)) (8 * fact) (suc n)
          (omega arith) next (spot_suc i) later)
