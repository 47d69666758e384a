-- ===== src/Pmm/Scan.antt =====
-- `pmm_inner_alloc` is a first-fit search for a free run aligned to its own length.
use cynix.Base.{
  ℕ, zero, suc, ◌+◌, ◌-◌, ◌*◌, ◌%◌, ◌^◌, ◌≤◌, ◌<◌, ◌≡◌, refl, ◌⊎◌, inl, inr, sym, ◌∙◌, subst, ◌≢◌,
  true, false, Option, some, arith, sub64, ==_true, ==_false, ◌==◌, Bool-cases, word_mod,
}
use mathlib.Core.Bool.{false≢true}
use native.Mathlib.Decide.{dec_lt, ℕ_discrete}
use cynix.Machine.{page_size}
use cynix.Misc.{Bytes, bit_test}
use cynix.Pmm.{Scan, no_page, set_bits, next_run, inner_loop}

abbrev pub FreeRun : Bytes → (first n : ℕ) → Type 0
FreeRun b first n = (j : ℕ) → first ≤ j → j < first + n → bit_test b j ≡ false

-- No free run of `n` pages that is aligned to `n` starts in [lo, end).
abbrev pub NoStart : Bytes → (n lo end : ℕ) → Type 0
NoStart b n lo end = (s : ℕ) → lo ≤ s → s < end → s % n ≡ 0 → ¬ FreeRun b s n

-- What a search of [lo, hi) for `n` pages comes to.
pub data Scanned (n : ℕ) (b : Bytes) (lo hi : ℕ) (out : Option Scan) : Type 0 where
  found :
      (page : ℕ)
      → lo ≤ page
      → page + n ≤ hi
      → page % n ≡ 0
      → FreeRun b page n
      → NoStart b n lo page
      → out ≡ some (page * page_size, set_bits b page n, page + n)
      → Scanned n b lo hi out
  exhausted : NoStart b n lo (hi + 1 - n) → out ≡ some (no_page, b, hi) → Scanned n b lo hi out

module _ (n : ℕ) (b : Bytes) where
  NoStart-join : (lo mid end : ℕ) → NoStart b n lo mid → NoStart b n mid end → NoStart b n lo end
  NoStart-join lo mid end h k s p q = elim (dec_lt s mid) [
    | yes below ↦ h s p below
    | no above ↦ k s (omega arith) q
  ]

  -- A search that starts past places where no run starts.
  Scanned-widen :
      (lo mid hi : ℕ) {out : Option Scan}
      → lo ≤ mid
      → NoStart b n lo mid
      → Scanned n b mid hi out
      → Scanned n b lo hi out
  Scanned-widen lo mid hi le h (found page p q a f k e) =
      found page (omega arith) q a f (NoStart-join lo mid page h k) e
  Scanned-widen lo mid hi le h (exhausted k e) = exhausted (NoStart-join lo mid (hi + 1 - n) h k) e

  -- No run starts between `lo` and a page in use fewer than `n` pages on.
  NoStart-used : (lo last : ℕ) → last < lo + n → bit_test b last ≡ true → NoStart b n lo (last + 1)
  NoStart-used lo last short used s p q a f =
      false≢true (sym (f last (omega arith) (omega arith)) ∙ used)

  NoStart-unaligned : (last : ℕ) → last % n ≢ 0 → NoStart b n last (last + 1)
  NoStart-unaligned last ne s p q a f = ne (subst (λ (t : ℕ). t % n ≡ 0) (omega arith) a)

  FreeRun-snoc :
      (lo p last : ℕ)
      → last ≡ lo + p
      → FreeRun b lo p
      → bit_test b last ≡ false
      → FreeRun b lo (p + 1)
  FreeRun-snoc lo p last e run free j q r = elim (dec_lt j last) [
    | yes below ↦ run j q (omega arith)
    | no above ↦ subst (λ (t : ℕ). bit_test b t ≡ false) (omega arith) free
  ]

  FreeRun-nil : (lo : ℕ) → FreeRun b lo 0
  FreeRun-nil lo j q r = absurd (omega arith)

  module _ (last p lo : ℕ) (at : last ≡ lo + p) (small : last < word_mod) where
    next_run-aligned : lo % n ≡ 0 → next_run n last p ≡ p + 1
    unfolding next_run
    next_run-aligned a = let e : sub64 last p ≡ lo = omega arith in rw (e, a)

    next_run-unaligned : lo % n ≢ 0 → next_run n last p ≡ 0
    unfolding next_run
    next_run-unaligned a = let e : sub64 last p ≡ lo = omega arith in rw e (ground arith)

  module _ (pos : 0 < n) where
    -- The run that reaches `n` pages at `last` starts `n` pages before.
    page_index :
        (last lo p : ℕ) → last ≡ lo + p → p + 1 ≡ n → last < word_mod → sub64 (last + 1) n ≡ lo
    page_index last lo p e full small = omega arith

    -- A candidate whose start is not aligned is empty.
    last-lo : {lo p last : ℕ} → lo % n ≢ 0 → (p ≡ 0) ⊎ (lo % n ≡ 0) → last ≡ lo + p → last ≡ lo
    last-lo a (inl z) e = omega arith
    last-lo a (inr z) e = absurd (a z)

    not_zero : (n == 0) ≡ false
    not_zero = ground arith

    pub inner_loop-Scanned :
        (rounds last p lo hi : ℕ)
        → p < n
        → last ≡ lo + p
        → hi ≡ last + rounds
        → hi ≤ 2 ^ 52
        → (p ≡ 0) ⊎ (lo % n ≡ 0)
        → FreeRun b lo p
        → Scanned n b lo hi (inner_loop n rounds b last p)
    unfolding inner_loop
    inner_loop-Scanned zero last p lo hi lt e h small aligned run =
        exhausted (λ s q r. absurd (omega arith)) (ground arith)
    inner_loop-Scanned (suc k) last p lo hi lt e h small aligned run =
        elim (Bool-cases (bit_test b last)) [
          | inl used ↦ rw used (
              Scanned-widen lo (last + 1) hi (omega arith) (NoStart-used lo last (omega arith) used)
                (inner_loop-Scanned k (last + 1) 0 (last + 1) hi pos (omega arith) (omega arith)
                  small (inl refl) (FreeRun-nil (last + 1))))
          | inr free ↦
              rw (free, not_zero)
                (elim (ℕ_discrete (lo % n) 0) [
                  | yes a ↦
                      rw (next_run-aligned last p lo e (omega arith) a)
                        (elim (ℕ_discrete (p + 1) n) [
                          | yes full ↦ rw (==_true (p + 1) n full) (
                              found lo (omega arith) (omega arith) a
                                (subst (λ (t : ℕ). FreeRun b lo t) full
                                  (FreeRun-snoc lo p last e run free))
                                (λ s q r. absurd (omega arith))
                                (ground (arith, page_index last lo p e full (omega arith))))
                          | no short ↦ rw (==_false (p + 1) n short) (
                              inner_loop-Scanned k (last + 1) (p + 1) lo hi (omega arith)
                                (omega arith) (omega arith) small (inr a)
                                (FreeRun-snoc lo p last e run free))
                        ])
                  | no a ↦ rw (next_run-unaligned last p lo e (omega arith) a) (
                      rw (==_false 0 n (omega arith)) (
                        Scanned-widen lo (last + 1) hi (omega arith)
                          (subst (λ (t : ℕ). NoStart b n t (last + 1)) (last-lo a aligned e)
                            (NoStart-unaligned last
                              (subst (λ (t : ℕ). t % n ≢ 0) (sym (last-lo a aligned e)) a)))
                          (inner_loop-Scanned k (last + 1) 0 (last + 1) hi pos (omega arith)
                            (omega arith) small (inl refl) (FreeRun-nil (last + 1)))))
                ])
        ]
