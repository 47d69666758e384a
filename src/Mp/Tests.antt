-- ===== src/Mp/Tests.antt =====
-- A machine of three CPUs, the first of which booted, and a panic on the second.
use cynix.Base.{ℕ, Bool, ◌≡◌, refl, true, false, some, [], ◌∷◌}
use cynix.Base.Run.{panics, interrupts_enabled}
use cynix.Mp.{Cpus, item, cpu_current}
use cynix.Mp.Local.{CpuLocal, zeroed}

abbrev cpu : (number lapic_id : ℕ) → Bool → CpuLocal
cpu number lapic_id is_bsp = record zeroed {
  cpu_number = number;
  lapic_id = lapic_id;
  is_bsp = is_bsp;
}

abbrev demo : Cpus
demo = record {
  interrupts = true;
  lapic = record {
    x2apic_mode = false;
    hhdm = 0;
    lapic_base = 0;
    msr = λ _. 0xfee00900;
    mmio = λ _. 0;
    sent = [];
  };
  running_on = 1;
  cpu_locals = cpu 0 0 true ∷ cpu 1 2 false ∷ cpu 2 4 false ∷ [];
  mp_init_done = true;
  isr_abort_vector = 32;
  panic_lock = false;
}

current_run : cpu_current demo ≡ panics interrupts_enabled
unfolding cpu_current
current_run = refl

item_run : item demo.cpu_locals 1 ≡ some (cpu 1 2 false)
unfolding item
item_run = refl
