-- ===== src/Uacpi/Tests.antt =====
-- Runs of the functions that uACPI calls.
use cynix.Base.{◌≡◌, refl, none, [], ◌∷◌}
use cynix.Base.Run.{ok, panics, io_width}
use cynix.Pit.{Ports, inb, inw, ind, outb, outw, outd}
use cynix.Uacpi.{status_ok, pci_device_open, io_read, io_write, create_spinlock}
use cynix.Uacpi.Locks.{Created, create_spinlock-Created}
use cynix.Slab.Demo.{demo_slabs, demo_slabs-IsSlabs}

abbrev demo : Ports
demo = record { written = []; to_read = 0x12345 ∷ [] }

device_run : pci_device_open 1 2 3 4 ≡ (status_ok, 0x100020304)
unfolding pci_device_open
device_run = refl

read_run : io_read 0x60 4 2 demo ≡ ok (status_ok, 0x2345) (record { written = []; to_read = [] })
unfolding io_read inb inw ind
read_run = refl

read_width : io_read 0x60 4 8 demo ≡ panics io_width
unfolding io_read
read_width = refl

write_run :
    io_write 0x60 4 4 0x123456789 demo
    ≡ ok status_ok (record { written = (4, 0x64, 0x23456789) ∷ []; to_read = 0x12345 ∷ [] })
unfolding io_write outb outw outd
write_run = refl

create_spinlock-Created_example : Created demo_slabs (λ _. none) (create_spinlock demo_slabs)
create_spinlock-Created_example = create_spinlock-Created demo_slabs-IsSlabs
