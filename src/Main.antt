-- ===== src/Main.antt =====
-- `kmain` of kernel/src/main.c: the parts of the kernel in the order in which it starts them. What
-- they print on the way is left out.
mod Endless
pub mod Prepared
pub mod Start
mod Tests
use cynix.Base.{ℕ, Bool, true, false, Option, none, some, List, bit_and, not, ◌==◌, if◌then◌else◌}
use cynix.Base.Run.{
  Cmd, spins, mp_missing, nothing_to_do, gets, modify, pure, fail, zoom, ◌>>=◌, ◌>>◌,
}
use cynix.Acpi.{Acpi, acpi_init}
use cynix.Gdt.{gdt_init}
use cynix.Generic.{BootInfo}
use cynix.Idt.{Idt, isr_init, sched_init}
use cynix.Machine.{Machine}
use cynix.Misc.{Bytes}
use cynix.Mp.Boot.{MpResponse, gdt_reload, idt_reload, mp_init}
use cynix.Mp.Kernel.{Kernel, vmm_of, with_vmm, on_gdt, on_vmm}
use cynix.Pmm.Init.{pmm_init}
use cynix.Slab.{Slabs, slab_init}
use cynix.Slab as Slab
use cynix.Term.{Terms, Flanterm, term_init}
use cynix.Vector.{Realloc}
use cynix.Vmm.Init.{Loader, vmm_init}

-- What the bootloader answers; the flags of the answer on the CPUs stand before it.
pub record Bootloader : Type 0 where
  pub base_revision_supported : Bool
  pub info : BootInfo
  pub framebuffers : Option (List ℕ)
  pub loader : Loader
  pub mp : Option (ℕ × MpResponse)
  pub rsdp : ℕ

-- All that `kmain` works on. The machine is the one of `kernel`, with its interrupt flag; flanterm
-- takes memory from it with `alloc`.
pub record System (Screen : Type 0) : Type 0 where
  pub kernel : Kernel
  pub slabs : Slabs
  pub terms : Terms (Machine × Screen)
  pub idt : Idt
  pub acpi : Acpi

-- `LIMINE_MP_X2APIC`
abbrev limine_mp_x2apic : ℕ
limine_mp_x2apic = 1

unfoldable start_memory : BootInfo → (memory : ℕ → Bytes) → Cmd Slabs (Unit {0})
unfolding pmm_init slab_init
start_memory info memory = Slab.on_machine (pmm_init info memory) >> slab_init

module _ {Screen : Type 0} where
  abbrev with_kernel : Kernel → System Screen → System Screen
  with_kernel k s = record s { kernel = k }

  abbrev on_kernel : {A : Type 0} → Cmd Kernel A → Cmd (System Screen) A
  on_kernel = zoom (λ s. s.kernel) with_kernel

  abbrev slabs_of : System Screen → Slabs
  slabs_of s = record s.slabs { machine = s.kernel.machine }

  abbrev with_slabs : Slabs → System Screen → System Screen
  with_slabs t s = record s { slabs = t; kernel = record s.kernel { machine = t.machine } }

  abbrev on_slabs : {A : Type 0} → Cmd Slabs A → Cmd (System Screen) A
  on_slabs = zoom slabs_of with_slabs

  abbrev set_interrupts : Bool → System Screen → System Screen
  set_interrupts on s = record s {
    kernel = record s.kernel { machine = record s.kernel.machine { interrupts = on } };
  }

  abbrev terms_of : System Screen → Terms (Machine × Screen)
  terms_of s = record s.terms {
    interrupts = s.kernel.machine.interrupts;
    screen = (s.kernel.machine, s.terms.screen.1);
  }

  abbrev with_terms : Terms (Machine × Screen) → System Screen → System Screen
  with_terms t s = record s {
    terms = t;
    kernel = record s.kernel { machine = record t.screen.0 { interrupts = t.interrupts } };
  }

  abbrev on_terms : {A : Type 0} → Cmd (Terms (Machine × Screen)) A → Cmd (System Screen) A
  on_terms = zoom terms_of with_terms

  abbrev idt_of : System Screen → Idt
  idt_of s = record s.idt { interrupts = s.kernel.machine.interrupts }

  abbrev with_idt : Idt → System Screen → System Screen
  with_idt i s = record (set_interrupts i.interrupts s) { idt = i }

  abbrev on_idt : {A : Type 0} → Cmd Idt A → Cmd (System Screen) A
  on_idt = zoom idt_of with_idt

  abbrev acpi_of : System Screen → Acpi
  acpi_of s = record s.acpi {
    vmm = vmm_of s.kernel;
    hhdm = s.kernel.machine.hhdm;
    x2apic_mode = s.kernel.x2apic_mode;
  }

  abbrev on_acpi : {A : Type 0} → Cmd Acpi A → Cmd (System Screen) A
  on_acpi = zoom acpi_of (λ a s. record s { acpi = a; kernel = with_vmm a.vmm s.kernel })

  -- `gdt` and `idt` are the addresses of the tables.
  module _ (flanterm : Flanterm (Machine × Screen)) (isr_thunks : ℕ → ℕ) (gdt idt : ℕ) where
    -- From `pmm_init` to `vmm_init`
    unfoldable start_tables : Bootloader → (memory : ℕ → Bytes) → Cmd (System Screen) (Unit {0})
    start_tables boot memory = do
      on_slabs (start_memory boot.info memory)
      on_terms (term_init flanterm boot.framebuffers false)
      on_kernel (on_gdt gdt_init)
      on_kernel (gdt_reload gdt)
      on_kernel (idt_reload idt)
      on_idt (isr_init isr_thunks)
      on_kernel (on_vmm (vmm_init boot.loader))

    -- `rounds` is for `lapic_timer_calibrate`.
    module _ (uacpi_initialize uacpi_namespace_load : Cmd Acpi ℕ) (r : Realloc ℕ) (rounds : ℕ) where
      -- From the answer on the CPUs to `sched_init`
      unfoldable start_processors :
          (rsdp : ℕ) → Option (ℕ × MpResponse) → Cmd (System Screen) (Unit {0})
      start_processors rsdp none = fail mp_missing
      start_processors rsdp (some (flags, mp_response)) = do
        on_kernel
            (modify (λ k. record k { x2apic_mode = not (bit_and flags limine_mp_x2apic == 0) }))
        on_acpi (acpi_init uacpi_initialize uacpi_namespace_load rsdp)
        on_kernel (mp_init r gdt idt rounds mp_response)
        on_idt sched_init

      unfoldable kmain : Bootloader → (memory : ℕ → Bytes) → Cmd (System Screen) (Unit {0})
      kmain boot memory =
          if boot.base_revision_supported
          then (do start_tables boot memory; start_processors boot.rsdp boot.mp; fail nothing_to_do)
          else (λ s. spins)
