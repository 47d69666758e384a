-- ===== src/Acpi/Find.antt =====
-- `acpi_find_sdt` against the list of the tables.
use cynix.Base.{
  ℕ, zero, suc, ◌+◌, ◌-◌, ◌≤◌, ◌<◌, ◌≡◌, refl, sym, ◌⊎◌, inl, inr, Bool, true, false, Option, List,
  [], ◌∷◌, ltb, ◌==◌, if◌then◌else◌, sub64, word_mod, arith, subst, Bool-cases,
}
use cynix.Base.Run.{Run, ok, panics, out_of_memory, zoom-ok, zoom-panics}
use cynix.Machine.{page_size}
use cynix.Vmm.{Vmm, vmm_map_span}
use cynix.Vmm.Map.{IsPagemap}
use cynix.Vmm.Span.{Spanned, spanned, ran_out, vmm_map_span-Spanned}
use cynix.Vmm.Tables.{Prefix}
use cynix.Acpi.{
  Acpi, little, map_table, table_flags, sdt_size, table_at, find_from, entry_count, acpi_find_sdt,
}

-- The entries `i` to `i + n - 1` of the root table
abbrev pub tables : Acpi → (i n : ℕ) → List ℕ
tables a i zero = []
tables a i (suc n) = table_at a i ∷ tables a (i + 1) n

-- The tables with a signature, in order
abbrev pub named : (firmware : ℕ → ℕ) (signature : ℕ) → List ℕ → List ℕ
named firmware signature [] = []
named firmware signature (x ∷ xs) =
    let rest = named firmware signature xs in
    if little firmware x 4 == signature then x ∷ rest else rest

-- The item at an index, or the null pointer
abbrev pub item : List ℕ → (index : ℕ) → ℕ
item [] index = 0
item (x ∷ xs) zero = x
item (x ∷ xs) (suc k) = item xs k

-- A table whose header and whole length end at least a page below 2 ^ 64
pub record IsMappable (a : Acpi) (x : ℕ) : Type 0 where
  pub small : x < word_mod
  pub header : sub64 x a.hhdm + sdt_size + page_size ≤ word_mod
  pub whole : sub64 x a.hhdm + little a.firmware (x + 4) 4 + page_size ≤ word_mod

-- What a search comes to: a table and a page table that is still sound, or the panic
pub data Found (a : Acpi) (root table : ℕ) (r : Run Acpi ℕ) : Type 0 where
  found :
      (v : Vmm) (label : ℕ → Option Prefix)
      → r ≡ ok table (record a { vmm = v })
      → IsPagemap v root label
      → Found a root table r
  no_memory : r ≡ panics out_of_memory → Found a root table r

pub data Mapping (a : Acpi) (root : ℕ) (r : Run Acpi (Unit {0})) : Type 0 where
  maps :
      (v : Vmm) (label : ℕ → Option Prefix)
      → r ≡ ok tt (record a { vmm = v })
      → IsPagemap v root label
      → Mapping a root r
  fails : r ≡ panics out_of_memory → Mapping a root r

pub map_table-Mapping :
    (a : Acpi) (root : ℕ) (label : ℕ → Option Prefix) (x len : ℕ)
    → IsPagemap a.vmm root label
    → x < word_mod
    → sub64 x a.hhdm + len + page_size ≤ word_mod
    → Mapping a root (map_table x len a)
unfolding map_table
map_table-Mapping a root label x len pm small fits =
    go (vmm_map_span-Spanned x (sub64 x a.hhdm) table_flags len fits a.vmm root label small pm)
  where
    go :
        {f : List ℕ → Option ℕ}
        → Spanned a.vmm root f (vmm_map_span x (sub64 x a.hhdm) len table_flags a.vmm)
        → Mapping a root (map_table x len a)
    go (spanned m' label' e pm' _ _ _) =
        maps (record a.vmm { machine = m' }) label'
          (zoom-ok (λ (b : Acpi). b.vmm) (λ v b. record b { vmm = v })
            (vmm_map_span x (sub64 x a.hhdm) len table_flags) e)
          pm'
    go (ran_out e) = fails (
        zoom-panics (λ (b : Acpi). b.vmm) (λ v b. record b { vmm = v })
          (vmm_map_span x (sub64 x a.hhdm) len table_flags) e)

abbrev with_vmm : Acpi → Vmm → Acpi
with_vmm a v = record a { vmm = v }

rebase :
    {a : Acpi} {v : Vmm} {root table : ℕ} {r : Run Acpi ℕ}
    → Found (with_vmm a v) root table r
    → Found a root table r
rebase (found w l e pm) = found w l e pm
rebase (no_memory e) = no_memory e

-- One round of the search, by what the table's signature is and how many are to be passed over
module _ (n i signature : ℕ) (a : Acpi) (v : Vmm)
    (e : map_table (table_at a i) sdt_size a ≡ ok tt (with_vmm a v)) where
  abbrev x : ℕ
  x = table_at a i

  abbrev rest : List ℕ
  rest = named a.firmware signature (tables a (i + 1) n)

  round_other :
      (index : ℕ)
      → (little a.firmware x 4 == signature) ≡ false
      → find_from signature index i (suc n) a ≡ find_from signature index (i + 1) n (with_vmm a v)
  unfolding find_from
  round_other index no_match = rw (find_from, e, no_match)

  round_later :
      (k : ℕ)
      → (little a.firmware x 4 == signature) ≡ true
      → find_from signature (suc k) i (suc n) a ≡ find_from signature k (i + 1) n (with_vmm a v)
  unfolding find_from
  round_later k match' =
      let one : suc k - 1 ≡ k = omega arith in
      let more : ltb 0 (suc k) ≡ true = ground arith in rw (find_from, e, match', more, one)

  round_hit :
      (w : Vmm)
      → (little a.firmware x 4 == signature) ≡ true
      → map_table x (little a.firmware (x + 4) 4) (with_vmm a v) ≡ ok tt (with_vmm a w)
      → find_from signature 0 i (suc n) a ≡ ok x (with_vmm a w)
  unfolding find_from
  round_hit w match' m = rw (find_from, e, match', m)

  round_fails :
      (little a.firmware x 4 == signature) ≡ true
      → map_table x (little a.firmware (x + 4) 4) (with_vmm a v) ≡ panics out_of_memory
      → find_from signature 0 i (suc n) a ≡ panics out_of_memory
  unfolding find_from
  round_fails match' m = rw (find_from, e, match', m)

-- A round, and what the rounds after it find
module _ (n i signature : ℕ) (a : Acpi) (root : ℕ) (at : IsMappable a (table_at a i))
    (again : (v : Vmm) (l : ℕ → Option Prefix)
      → IsPagemap v root l
      → (index : ℕ)
      → Found a root
          (item (named a.firmware signature (tables a (i + 1) n)) index)
          (find_from signature index (i + 1) n (with_vmm a v))) where
  abbrev Goal : ℕ → Type 0
  Goal index =
      Found a root (item (named a.firmware signature (tables a i (suc n))) index)
        (find_from signature index i (suc n) a)

  abbrev matches : Bool
  matches = little a.firmware (table_at a i) 4 == signature

  other :
      matches ≡ false
      → (index : ℕ)
      → item (named a.firmware signature (tables a i (suc n))) index
        ≡ item (named a.firmware signature (tables a (i + 1) n)) index
  other e index = rw e refl

  same :
      matches ≡ true
      → (index : ℕ)
      → item (named a.firmware signature (tables a i (suc n))) index
        ≡ item (table_at a i ∷ named a.firmware signature (tables a (i + 1) n)) index
  same e index = rw e refl

  module _ (v : Vmm) (e : map_table (table_at a i) sdt_size a ≡ ok tt (with_vmm a v)) where
    at_hit :
        matches ≡ true
        → Mapping
            (with_vmm a v)
            root
            (map_table (table_at a i) (little a.firmware (table_at a i + 4) 4) (with_vmm a v))
        → Goal 0
    at_hit m (maps w l f pm) =
        subst (λ t. Found a root t (find_from signature 0 i (suc n) a)) (sym (same m 0))
          (found w l (round_hit n i signature a v e w m f) pm)
    at_hit m (fails f) = no_memory (round_fails n i signature a v e m f)

    at_round :
        (l : ℕ → Option Prefix)
        → IsPagemap v root l
        → (matches ≡ true) ⊎ (matches ≡ false)
        → (index : ℕ) → Goal index
    at_round l pm (inr m) index =
        subst (Found a root _) (sym (round_other n i signature a v e index m)) (
          subst (λ t. Found a root t (find_from signature index (i + 1) n (with_vmm a v)))
            (sym (other m index)) (again v l pm index))
    at_round l pm (inl m) (suc k) =
        subst (Found a root _) (sym (round_later n i signature a v e k m)) (
          subst (λ t. Found a root t (find_from signature k (i + 1) n (with_vmm a v)))
            (sym (same m (suc k))) (again v l pm k))
    at_round l pm (inl m) zero = at_hit m (
        map_table-Mapping (with_vmm a v) root l (table_at a i)
          (little a.firmware (table_at a i + 4) 4) pm at.small at.whole)

  step : (index : ℕ) → Mapping a root (map_table (table_at a i) sdt_size a) → Goal index
  unfolding find_from
  step index (fails e) = no_memory (rw (find_from, e))
  step index (maps v l e pm) = at_round v e l pm (Bool-cases matches) index

find_from-Found :
    (n i signature index : ℕ) (a : Acpi) (root : ℕ) (label : ℕ → Option Prefix)
    → IsPagemap a.vmm root label
    → ((k : ℕ) → i ≤ k → k < i + n → IsMappable a (table_at a k))
    → Found a root
        (item (named a.firmware signature (tables a i n)) index)
        (find_from signature index i n a)
unfolding find_from
find_from-Found zero i signature index a root label pm fits = found a.vmm label refl pm
find_from-Found (suc n) i signature index a root label pm fits =
    let at = fits i (omega arith) (omega arith) in
    step n i signature a root at
      (λ v l pm' index. rebase (
        find_from-Found n (i + 1) signature index (with_vmm a v) root l pm' (λ k lo hi.
          let m = fits k (omega arith) (omega arith) in
          record { small = m.small; header = m.header; whole = m.whole })))
      index (map_table-Mapping a root label (table_at a i) sdt_size pm at.small at.header)

-- On a pagemap whose tables form a tree and whose lock is free, where the tables that the root
-- table lists end at least a page below 2 ^ 64, `acpi_find_sdt` either panics as memory has run
-- out, or returns the table at `index` among the listed ones with the signature, in order, or the
-- null pointer if there are not so many, with such a pagemap again and nothing else changed.
pub acpi_find_sdt-Found :
    (signature index : ℕ) (a : Acpi) (root : ℕ) (label : ℕ → Option Prefix)
    → IsPagemap a.vmm root label
    → ((k : ℕ) → k < entry_count a → IsMappable a (table_at a k))
    → Found a root
        (item (named a.firmware signature (tables a 0 (entry_count a))) index)
        (acpi_find_sdt signature index a)
unfolding acpi_find_sdt
acpi_find_sdt-Found signature index a root label pm fits =
    find_from-Found (entry_count a) 0 signature index a root label pm
      (λ k lo hi. fits k (omega arith))
