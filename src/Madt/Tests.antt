-- ===== src/Madt/Tests.antt =====
-- A table of one local APIC and one I/O APIC.
use cynix.Base.{ℕ, ◌≡◌, ◌⊎◌, refl, true, [], ◌∷◌, ◌==◌, if◌then◌else◌, arith}
use cynix.Base.Run.{spins}
use cynix.Madt.{Madt, scan_entries}
use cynix.Madt.Entries.{
  Chain, Scanned, Refused, ends, entry, scan_entries-collects, scan_entries-stuck,
}

abbrev nothing : Madt
nothing = record {
  madt_lapics = [];
  madt_x2apics = [];
  madt_io_apics = [];
  madt_isos = [];
  madt_nmis = [];
}

-- Ids 0 and 1 at the offsets 0 and 8, with lengths 8 and 12
abbrev demo_bytes : ℕ → ℕ
demo_bytes i = if i == 1 then 8 else if i == 8 then 1 else if i == 9 then 12 else 0

demo-Chain : Chain demo_bytes 64 0 (0 ∷ 8 ∷ [])
demo-Chain =
    entry (omega arith) (omega arith) (entry (omega arith) (omega arith) (ends (omega arith)))

scan_entries-collects_example :
    Scanned
      (λ _. true)
      (record nothing { madt_lapics = 0 ∷ []; madt_io_apics = 8 ∷ [] })
      (scan_entries (λ _. true) true demo_bytes 64 21 0 nothing)
scan_entries-collects_example =
    scan_entries-collects (λ _. true) true demo_bytes 64 21 nothing demo-Chain (omega arith)
      (λ i. ground arith) (omega arith) (omega arith) (omega arith)

scan_entries-stuck_example :
    (scan_entries (λ _. true) true (λ i. 0) 64 1000 0 nothing ≡ spins)
    ⊎ Refused (λ _. true) (scan_entries (λ _. true) true (λ i. 0) 64 1000 0 nothing)
scan_entries-stuck_example =
    scan_entries-stuck (λ _. true) true (λ i. 0) 64 1000 0 nothing (omega arith) (omega arith) refl
