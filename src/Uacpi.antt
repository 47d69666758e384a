-- ===== src/Uacpi.antt =====
-- The functions of kernel/src/acpi/acpi.c that uACPI calls.
pub mod Locks
mod Tests
use cynix.Base.{
  ℕ, zero, suc, ◌+◌, ◌*◌, ◌/◌, ◌%◌, ◌^◌, bit_or, Bool, true, false, not, ◌==◌, if◌then◌else◌, add64,
  sub64, update,
}
use cynix.Base.Run.{Cmd, io_width, gets, modify, pure, fail, zoom, ◌>>=◌, ◌>>◌}
use cynix.Machine.{Machine, interrupt_toggle}
use cynix.Spinlock.{spinlock_acquire, spinlock_release}
use cynix.Pit.{Ports, outb, outw, outd, inb, inw, ind}
use cynix.Slab.{Slabs, on_machine, slab_alloc, slab_free}
use cynix.Vmm.{vmm_map_span}
use cynix.Acpi.{Acpi, on_vmm, table_flags}

-- The values of `uacpi_status` that the kernel returns
pub data Status : Type 0 where
  status_ok status_unimplemented : Status

unfoldable pub get_rsdp : Cmd Acpi (Status × ℕ)
get_rsdp = gets (λ a. (status_ok, sub64 a.rsdp a.hhdm))

-- The handle of a device, from its segment of 16 bits and three numbers of 8 bits
unfoldable pub pci_device_open : (segment bus device function : ℕ) → Status × ℕ
pci_device_open segment bus device function = (
  status_ok,
  bit_or (bit_or (bit_or (segment * 2 ^ 32) (bus * 2 ^ 16)) (device * 2 ^ 8)) function,
)

unfoldable pub pci_read : (device offset byte_width : ℕ) → Status
pci_read device offset byte_width = status_unimplemented

unfoldable pub pci_write : (device offset byte_width value : ℕ) → Status
pci_write device offset byte_width value = status_unimplemented

unfoldable pub kernel_free : (mem : ℕ) → Cmd Slabs (Unit {0})
unfolding slab_free
kernel_free mem = slab_free mem

unfoldable pub kernel_alloc : (size : ℕ) → Cmd Slabs ℕ
unfolding slab_alloc
kernel_alloc size = slab_alloc size

unfoldable pub kernel_map : (addr len : ℕ) → Cmd Acpi ℕ
unfolding vmm_map_span
kernel_map addr len = do
  virt ← gets (λ a. add64 addr a.hhdm)
  on_vmm (vmm_map_span virt addr len table_flags)
  pure virt

unfoldable pub io_map : (base len : ℕ) → Status × ℕ
io_map base len = (status_ok, base)

unfoldable pub io_read : (handle offset byte_width : ℕ) → Cmd Ports (Status × ℕ)
unfolding inb inw ind
io_read handle offset byte_width = do
  value ←
      (if byte_width == 1
        then inb (add64 handle offset)
        else if byte_width == 2
        then inw (add64 handle offset)
        else if byte_width == 4
        then ind (add64 handle offset)
        else fail io_width)
  pure (status_ok, value)

unfoldable pub io_write : (handle offset byte_width value : ℕ) → Cmd Ports Status
unfolding outb outw outd
io_write handle offset byte_width value = do
  (if byte_width == 1
      then outb (add64 handle offset) value
      else if byte_width == 2
      then outw (add64 handle offset) value
      else if byte_width == 4
      then outd (add64 handle offset) value
      else fail io_width)
  pure status_ok

-- Mutexes are entries that nothing is stored in; acquiring one always succeeds.
unfoldable pub create_mutex : Cmd Slabs ℕ
unfolding slab_alloc
create_mutex = slab_alloc 1

unfoldable pub free_mutex : (handle : ℕ) → Cmd Slabs (Unit {0})
unfolding slab_free
free_mutex handle = slab_free handle

unfoldable pub acquire_mutex : (handle timeout : ℕ) → Cmd Slabs Status
acquire_mutex handle timeout = pure status_ok

unfoldable pub release_mutex : (handle : ℕ) → Cmd Slabs (Unit {0})
release_mutex handle = pure tt

-- There are no events: none is ever signalled.
unfoldable pub create_event : Cmd Slabs ℕ
create_event = pure 0

unfoldable pub wait_for_event : (handle timeout : ℕ) → Cmd Slabs Bool
wait_for_event handle timeout = pure false

-- The calls that do nothing, or answer at once
unfoldable pub pci_device_close : (handle : ℕ) → Cmd Acpi (Unit {0})
pci_device_close handle = pure tt

unfoldable pub kernel_unmap : (addr len : ℕ) → Cmd Acpi (Unit {0})
kernel_unmap addr len = pure tt

unfoldable pub io_unmap : (handle : ℕ) → Cmd Ports (Unit {0})
io_unmap handle = pure tt

unfoldable pub kernel_stall : (usec : ℕ) → Cmd Acpi (Unit {0})
kernel_stall usec = pure tt

unfoldable pub kernel_sleep : (msec : ℕ) → Cmd Acpi (Unit {0})
kernel_sleep msec = pure tt

unfoldable pub free_event : (handle : ℕ) → Cmd Slabs (Unit {0})
free_event handle = pure tt

unfoldable pub get_thread_id : Cmd Acpi ℕ
get_thread_id = pure 0

unfoldable pub signal_event : (handle : ℕ) → Cmd Slabs (Unit {0})
signal_event handle = pure tt

unfoldable pub reset_event : (handle : ℕ) → Cmd Slabs (Unit {0})
reset_event handle = pure tt

unfoldable pub handle_firmware_request : (req : ℕ) → Cmd Acpi Status
handle_firmware_request req = pure status_unimplemented

unfoldable pub install_interrupt_handler : (irq handler ctx : ℕ) → Cmd Acpi Status
install_interrupt_handler irq handler ctx = pure status_ok

unfoldable pub uninstall_interrupt_handler : (handler irq_handle : ℕ) → Cmd Acpi Status
uninstall_interrupt_handler handler irq_handle = pure status_ok

unfoldable pub schedule_work : (work_type handler ctx : ℕ) → Cmd Acpi Status
schedule_work work_type handler ctx = pure status_unimplemented

unfoldable pub wait_for_work_completion : Cmd Acpi Status
wait_for_work_completion = pure status_unimplemented

-- The `bool` of a `struct spinlock` is the byte at its address.
abbrev pub lock_byte : (lock : ℕ) → Slabs → Bool
lock_byte lock s = not (s.machine.word lock % 2 ^ 8 == 0)

abbrev pub with_lock_byte : (lock : ℕ) → Bool → Slabs → Slabs
with_lock_byte lock held s =
    let word = s.machine.word in
    let byte = if held then 1 else 0 in
    record s {
      machine = record s.machine { word = update word lock (word lock / 2 ^ 8 * 2 ^ 8 + byte) };
    }

abbrev pub on_lock : {A : Type 0} (lock : ℕ) → Cmd Bool A → Cmd Slabs A
on_lock lock = zoom (lock_byte lock) (with_lock_byte lock)

unfoldable pub create_spinlock : Cmd Slabs ℕ
unfolding slab_alloc
create_spinlock = do lock ← slab_alloc 1; modify (with_lock_byte lock false); pure lock

unfoldable pub free_spinlock : (lock : ℕ) → Cmd Slabs (Unit {0})
unfolding slab_free
free_spinlock lock = slab_free lock

unfoldable pub acquire_lock : (lock : ℕ) → Cmd Slabs (Unit {0})
unfolding spinlock_acquire
acquire_lock lock s = on_lock lock (spinlock_acquire s.machine.interrupts) s

unfoldable pub lock_spinlock : (lock : ℕ) → Cmd Slabs Bool
unfolding interrupt_toggle acquire_lock
lock_spinlock lock = do
  old_int_state ← on_machine (interrupt_toggle false)
  acquire_lock lock
  pure old_int_state

unfoldable pub unlock_spinlock : (lock : ℕ) (old_int_state : Bool) → Cmd Slabs (Unit {0})
unfolding interrupt_toggle spinlock_release
unlock_spinlock lock old_int_state = do
  on_lock lock spinlock_release
  on_machine (interrupt_toggle old_int_state)
  pure tt
