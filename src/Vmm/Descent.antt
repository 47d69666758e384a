-- ===== src/Vmm/Descent.antt =====
-- Three calls of `get_next_level` in a row, as `vmm_map_page` makes them.
use cynix.Base.{ℕ, ◌+◌, ◌*◌, ◌<◌, ◌≡◌, ◌∙◌, true, Option, some, ◌∷◌, length, arith}
use cynix.Base.Run.{Run, ok, panics, out_of_memory}
use cynix.Machine.{Machine, page_size}
use cynix.Vmm.{get_next_level}
use cynix.Vmm.Tables.{SameBoot-trans, Prefix, IsReady}
use cynix.Vmm.Level.{Below, Next, reaches, runs_out, get_next_level-Next}

pub Below-trans :
    {m m₁ m₂ : Machine} {depth root : ℕ} {l l₁ l₂ : ℕ → Option Prefix} {x y : Prefix} {q r : ℕ}
    → Below m depth root l x q m₁ l₁
    → Below m₁ depth root l₁ y r m₂ l₂
    → Below m depth root l y r m₂ l₂
Below-trans b c = record {
  ready = c.ready;
  named = c.named;
  kept = λ page z e. c.kept page z (b.kept page z e);
  same = λ is d h. c.same is d h ∙ b.same is d h;
  flag = c.flag ∙ b.flag;
  boot = SameBoot-trans b.boot c.boot;
}

module _ (depth root cur i j k : ℕ) where
  abbrev level : (q i : ℕ) → Machine → Run Machine ℕ
  level q i = get_next_level (q * page_size) i true

  pub data Descent (m : Machine) (label : ℕ → Option Prefix) (x : Prefix) : Type 0 where
    leads :
        (q₁ q₂ q₃ : ℕ) (m₁ m₂ m₃ : Machine) (label' : ℕ → Option Prefix)
        → level cur i m ≡ ok (q₁ * page_size) m₁
        → level q₁ j m₁ ≡ ok (q₂ * page_size) m₂
        → level q₂ k m₂ ≡ ok (q₃ * page_size) m₃
        → Below m depth root label x q₃ m₃ label'
        → Descent m label x
    ends_first : level cur i m ≡ panics out_of_memory → Descent m label x
    ends_second :
        (q₁ : ℕ) (m₁ : Machine)
        → level cur i m ≡ ok (q₁ * page_size) m₁
        → level q₁ j m₁ ≡ panics out_of_memory
        → Descent m label x
    ends_third :
        (q₁ q₂ : ℕ) (m₁ m₂ : Machine)
        → level cur i m ≡ ok (q₁ * page_size) m₁
        → level q₁ j m₁ ≡ ok (q₂ * page_size) m₂
        → level q₂ k m₂ ≡ panics out_of_memory
        → Descent m label x

  module _ {m : Machine} {label : ℕ → Option Prefix} {p : Prefix}
      (ready : IsReady m depth root label) (at : label cur ≡ some p) (above : length p + 3 < depth)
      (hi : i < 512) (hj : j < 512) (hk : k < 512) where
    abbrev Whole : Type 0
    Whole = Descent m label (k ∷ j ∷ i ∷ p)

    third :
        (q₁ q₂ : ℕ) (m₁ m₂ : Machine) (l₂ : ℕ → Option Prefix)
        → level cur i m ≡ ok (q₁ * page_size) m₁
        → level q₁ j m₁ ≡ ok (q₂ * page_size) m₂
        → Below m depth root label (j ∷ i ∷ p) q₂ m₂ l₂
        → Next m₂ depth root l₂ (k ∷ j ∷ i ∷ p) (level q₂ k m₂)
        → Whole
    third q₁ q₂ m₁ m₂ l₂ e f b (reaches q₃ m₃ l₃ c g) =
        leads q₁ q₂ q₃ m₁ m₂ m₃ l₃ e f g (Below-trans b c)
    third q₁ q₂ m₁ m₂ l₂ e f b (runs_out g) = ends_third q₁ q₂ m₁ m₂ e f g

    second :
        (q₁ : ℕ) (m₁ : Machine) (l₁ : ℕ → Option Prefix)
        → level cur i m ≡ ok (q₁ * page_size) m₁
        → Below m depth root label (i ∷ p) q₁ m₁ l₁
        → Next m₁ depth root l₁ (j ∷ i ∷ p) (level q₁ j m₁)
        → Whole
    second q₁ m₁ l₁ e b (reaches q₂ m₂ l₂ c f) =
        third q₁ q₂ m₁ m₂ l₂ e f (Below-trans b c)
          (get_next_level-Next c.ready c.named (omega arith) hk)
    second q₁ m₁ l₁ e b (runs_out f) = ends_second q₁ m₁ e f

    first : Next m depth root label (i ∷ p) (level cur i m) → Whole
    first (reaches q₁ m₁ l₁ b e) =
        second q₁ m₁ l₁ e b (get_next_level-Next b.ready b.named (omega arith) hj)
    first (runs_out e) = ends_first e

    pub descent : Whole
    descent = first (get_next_level-Next ready at (omega arith) hi)
