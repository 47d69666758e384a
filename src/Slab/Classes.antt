-- ===== src/Slab/Classes.antt =====
-- The sizes of the slabs, and which slab a size leads to.
use cynix.Base.{
  ℕ, ◌+◌, ◌-◌, ◌*◌, ◌/◌, ◌^◌, ◌≤◌, ◌<◌, ◌≡◌, refl, ap, ◌∙◌, true, leb, ◌==◌, ==_iff, sub64, passes,
  test_of_passes, arith,
}
use cynix.Misc.{align_up}
use cynix.Slab.{bsr}

-- Size of an entry of slab `i`, in bytes and in words, and how many fit a block, the header included
abbrev pub class_size : ℕ → ℕ
class_size i = 2 ^ (i + 3)

abbrev pub class_words : ℕ → ℕ
class_words i = 2 ^ i

abbrev pub class_count : ℕ → ℕ
class_count i = 2 ^ (15 - i)

-- What `create_slab` computes for each of the twelve sizes
pub record Class (stale i : ℕ) : Type 0 where
  pub words : class_size i ≡ 8 * class_words i
  pub block : class_size i * class_count i ≡ 2 ^ 18
  pub some_bytes : 8 ≤ class_size i
  pub some_words : 1 ≤ class_words i
  pub some_entries : 2 ≤ class_count i
  pub header : align_up 8 (class_size i) ≡ class_size i
  pub max :
      sub64 (sub64 (4096 * 64) (class_size i) / 2 ^ bsr stale (class_size i)) 1 ≡ class_count i - 2
  pub last : class_size i + 8 * ((class_count i - 2) * class_words i) + class_size i ≡ 2 ^ 18
  pub fact : class_size i / 8 ≡ class_words i

bsr-stale : (stale x : ℕ) → 0 < x → bsr stale x ≡ bsr 0 x
unfolding bsr
bsr-stale stale x pos = ground arith

agree : (f g : ℕ → ℕ) → passes (λ i. f i == g i) 12 ≡ true → {i : ℕ} → i < 12 → f i ≡ g i
agree f g all {i} lt = (==_iff (f i) (g i)).0 (test_of_passes (λ i. f i == g i) 12 all lt)

at_least : (k : ℕ) (f : ℕ → ℕ) → passes (λ i. leb k (f i)) 12 ≡ true → {i : ℕ} → i < 12 → k ≤ f i
at_least k f all {i} lt =
    let t : leb k (f i) ≡ true = test_of_passes (λ i. leb k (f i)) 12 all lt in ground arith

pub class : (stale i : ℕ) → i < 12 → Class stale i
unfolding passes align_up bsr
class stale i lt = record {
  words = agree class_size (λ i. 8 * class_words i) refl lt;
  block = agree (λ i. class_size i * class_count i) (λ _. 2 ^ 18) refl lt;
  some_bytes = at_least 8 class_size refl lt;
  some_words = at_least 1 class_words refl lt;
  some_entries = at_least 2 class_count refl lt;
  header = agree (λ i. align_up 8 (class_size i)) class_size refl lt;
  max =
      ap (λ (t : ℕ). sub64 (sub64 (4096 * 64) (class_size i) / 2 ^ t) 1)
        (bsr-stale stale (class_size i) (at_least 1 class_size refl lt))
      ∙ agree (λ i. sub64 (sub64 (4096 * 64) (class_size i) / 2 ^ bsr 0 (class_size i)) 1)
          (λ i. class_count i - 2) refl lt;
  last =
      agree (λ i. class_size i + 8 * ((class_count i - 2) * class_words i) + class_size i)
        (λ _. 2 ^ 18) refl lt;
  fact = agree (λ i. class_size i / 8) class_words refl lt;
}
