-- ===== src/Madt.antt =====
-- kernel/src/acpi/madt.c: the entries of the MADT.
pub mod Entries
mod Tests
use cynix.Base.{
  ℕ, zero, suc, ◌+◌, ◌-◌, ◌*◌, ◌≤◌, ◌<◌, ◌≡◌, Bool, ltb, leb, ◌==◌, if◌then◌else◌, List, [], ◌∷◌,
  ◌++◌, length, add64,
}
use cynix.Base.Run.{Cmd, out_of_memory, spins, modify, pure, fail, ◌>>=◌, ◌>>◌}

-- The pointers that the five vectors of madt.c hold, as offsets into the entries.
pub record Madt : Type 0 where
  pub madt_lapics : List ℕ
  pub madt_x2apics : List ℕ
  pub madt_io_apics : List ℕ
  pub madt_isos : List ℕ
  pub madt_nmis : List ℕ

-- `sizeof(struct madt)`: the header of an SDT and two 32-bit members
abbrev pub madt_size : ℕ
madt_size = 36 + 8

-- `room` is whether `VECTOR_PUSH_BACK` has room behind so many items, or gets it from `realloc`.
module _ (room : (length : ℕ) → Bool) where
  -- `VECTOR_PUSH_BACK` of a header to one of the vectors
  abbrev push_back :
      (items : List ℕ) (header : ℕ) (put : List ℕ → Madt → Madt) → Cmd Madt (Unit {0})
  push_back items header put =
      if room (length items) then modify (put (items ++ (header ∷ []))) else fail out_of_memory

  -- The `switch` on an entry's id
  unfoldable pub collect : (x2apic_mode : Bool) → (id header : ℕ) → Cmd Madt (Unit {0})
  collect x2apic_mode id header m =
      (if id == 0
          then push_back m.madt_lapics header (λ l m. record m { madt_lapics = l })
          else if id == 9
          then (if x2apic_mode
              then push_back m.madt_x2apics header (λ l m. record m { madt_x2apics = l })
              else pure tt)
          else if id == 1
          then push_back m.madt_io_apics header (λ l m. record m { madt_io_apics = l })
          else if id == 2
          then push_back m.madt_isos header (λ l m. record m { madt_isos = l })
          else if id == 4
          then push_back m.madt_nmis header (λ l m. record m { madt_nmis = l })
          else pure tt)
        m

  -- The loop, from an offset on; `bytes` is `entries_data` and `length` the table's length. It spins
  -- where the fuel runs out.
  unfoldable pub scan_entries :
      (x2apic_mode : Bool) (bytes : ℕ → ℕ) (length fuel offset : ℕ) → Cmd Madt (Unit {0})
  unfolding collect
  scan_entries x2apic_mode bytes length zero offset = λ _. spins
  scan_entries x2apic_mode bytes length (suc fuel) offset =
      if leb length (add64 offset madt_size) then pure tt else (do
        collect x2apic_mode (bytes offset) offset
        scan_entries x2apic_mode bytes length fuel (add64 offset (bytes (offset + 1))))
