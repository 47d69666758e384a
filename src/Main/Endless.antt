-- ===== src/Main/Endless.antt =====
-- `kmain` has no caller to return to.
use cynix.Base.{ℕ, ◌≢◌, Bool, true, false, if◌then◌else◌}
use cynix.Base.Run.{Cmd, ok, spins, nothing_to_do, fail, ◌>>◌, >>=-eq-ok}
use cynix.Acpi.{Acpi}
use cynix.Main.{Bootloader, System, start_tables, start_processors, kmain}
use cynix.Machine.{Machine}
use cynix.Misc.{Bytes}
use cynix.Term.{Flanterm}
use cynix.Vector.{Realloc}

module _ {Screen : Type 0} (flanterm : Flanterm (Machine × Screen)) (isr_thunks : ℕ → ℕ)
    (gdt idt : ℕ) (uacpi_initialize uacpi_namespace_load : Cmd Acpi ℕ) (r : Realloc ℕ) (rounds : ℕ)
    (boot : Bootloader) (memory : ℕ → Bytes) (s t : System Screen) where
  abbrev first : Cmd (System Screen) (Unit {0})
  first = start_tables flanterm isr_thunks gdt idt boot memory

  abbrev second : Cmd (System Screen) (Unit {0})
  second =
      start_processors flanterm isr_thunks gdt idt uacpi_initialize uacpi_namespace_load r rounds
        boot.rsdp boot.mp

  -- It panics, spins or traps, whatever the bootloader answers.
  kmain-endless :
      kmain flanterm isr_thunks gdt idt uacpi_initialize uacpi_namespace_load r rounds boot memory s
      ≢ ok tt t
  unfolding kmain
  kmain-endless = ends boot.base_revision_supported
    where
      ends :
          (b : Bool)
          → (if b then (first >> (second >> fail nothing_to_do)) else (λ s. spins)) s ≢ ok tt t
      ends false e = cc
      ends true e =
          let (_, s', _, e') = >>=-eq-ok first (λ _. second >> fail nothing_to_do) e in
          let (_, s'', _, e'') = >>=-eq-ok second (λ _. fail nothing_to_do) e' in cc
