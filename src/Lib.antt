-- ===== src/Lib.antt =====
-- A model of the cynix kernel, a small x86-64 kernel in C (kernel/src of the repository), with the
-- theorems that make it correct.
--
-- The kernel boots through Limine. main.c starts the page allocator, the slabs, the terminal, the
-- descriptor tables, the page tables, ACPI, the other CPUs and a scheduler that is a stub. What is
-- modelled, by file, with the names of the source:
--
-- Base       tests on numbers, 64-bit words, maps, bit operations, and Run, the outcomes of kernel
--            code: it returns, panics, spins for ever, or traps. A command passes its state along.
-- Machine    the state that memory code shares: the interrupt flag, the memory behind the direct map
--            as 64-bit words by address, and the statics of mm/generic.c and mm/pmm.c.
-- Memmap     the bootloader's memory map.
-- Generic    kernel/src/mm/generic.c: mm_init.
-- Misc       kernel/src/lib/misc.k.h: MIN to ALIGN_DOWN at 64 bits, bit_test, bit_set, bit_reset.
-- Spinlock   kernel/src/lib/spinlock.c as one CPU runs it; Spinlock/Threads is the step relation of
--            many CPUs, one atomic operation a step.
-- Pmm        kernel/src/mm/pmm.c: pmm_inner_alloc, pmm_alloc_nozero, pmm_alloc, pmm_free, and in
--            Pmm/Init pmm_init. Below: Scan (the search), Alloc, Memory, Free, RoundTrip, Owners
--            (sequences of calls), Init/Marks, Init/Size, Init/Result.
-- Vmm        kernel/src/mm/vmm.c: get_next_level, vmm_map_page, vmm_map_span, and in Vmm/Init
--            vmm_init. Vmm/Tables is the walk of the hardware and the tree of tables; Grow, GrowTree,
--            Level, Descent, Leaf, Path and Map lead to the theorem on vmm_map_page, and Span to
--            that on vmm_map_span; Booted and Kernel are about vmm_init, Flags about the flags it sets.
-- Alloc      kernel/src/lib/alloc.c: alloc, free, realloc over the page allocator; Blocks, Copy,
--            Outcome, Move, Resize; Fresh is about sequences of allocations.
-- Slab       kernel/src/mm/slab.c: the twelve slabs, create_slab, slab_alloc, slab_realloc, slab_free
--            over the page allocator. Classes and Sizes are the sizes, Chains the free lists in
--            memory, Create a new block, Entries and Heap the invariant, Moves and Grown that it is
--            kept, Calls, Refill, Frees, Init, Requests and Resize the operations, Owners sequences.
-- Acpi       kernel/src/acpi/acpi.c and sys/hpet.c, and madt_init: the tables of the firmware. Find is
--            about acpi_find_sdt, Clock about the HPET as a clock.
-- Uacpi      kernel/src/acpi/acpi.c: the functions that uACPI calls; Locks is about its spinlocks.
-- Vector     kernel/src/lib/vector.k.h: the macros. Whether realloc gets memory for so many bytes
--            is an argument. Loops and Contents are about the list that a vector holds, Items about its
--            items one by one, Each about the order of VECTOR_FOR_EACH.
-- Stack      kernel/src/lib/stack.c: push and pop of items of a fixed size, and stack_new; New is
--            about the latter.
-- Gdt        kernel/src/sys/gdt.c: the segment descriptors, the TSS and the selectors.
-- Idt        kernel/src/sys/idt.c and isr.c, and sched_init of proc/sched.c: gates, vectors, handlers.
-- Madt       kernel/src/acpi/madt.c: the loop over the entries of the MADT. The five vectors are
--            lists; whether one has room, or gets it from realloc, is an argument.
-- Cpu        kernel/src/sys/cpu.k.h: control, extended and model-specific registers; Cpu/Fpu is the
--            part of cpu_init of cpu.c that turns on the FPU, with cpuid; Xcr0 and Features are about
--            what it leaves in the registers. Context is the registers that an interrupt saves.
-- Lapic      kernel/src/sys/lapic.c: the registers in both modes, interrupts between CPUs, and in
--            Lapic/Timer the calibration of the timer. Access is about the registers, Ipi about the
--            interrupts, Calibration and Known about the two ways to calibrate.
-- Pit        kernel/src/sys/pit.c and port.k.h: the interval timer.
-- Term       kernel/src/devices/fb/fb.c, devices/term/term.c and vprintf of lib/printf.c, over a
--            record of what they use of flanterm. Its functions work on a state of their own, which
--            holds the heap that term_init hands them. Init is about term_init, Output about the locks
--            and the text.
-- Mp         cpu_current of kernel/src/sys/cpu.c, and what panic of lib/panic.c does to the other
--            CPUs. Local is struct cpu_local, Kernel the state that the CPUs share, and Boot cpu_init
--            of cpu.c and mp_init of sys/mp.c; Start and Up are about cpu_init, Started and Init about
--            mp_init.
-- Panic      panic of kernel/src/lib/panic.c with its output, and the handlers of sys/isr.c and
--            proc/sched.c; Report is about what a panic says.
-- Main       kmain of kernel/src/main.c, over one state of all the parts; Start is about the memory,
--            Prepared about all up to vmm_init, and Endless about its end.
--
-- A module named Tests, or with a name that ends so, holds concrete runs.
--
-- Memory is a function from addresses to 64-bit words, since the code modelled over it accesses
-- aligned words; memcpy in realloc copies words and merges the bytes that are left into the last one.
-- size_t, uint64_t and uintptr_t are numbers below 2 ^ 64 and their arithmetic wraps where it is
-- written add64, sub64 or mul64. The loops of pmm.c and vmm.c recurse on the rounds left, which the
-- code's own bounds give. The loop of madt_init takes fuel, the table's length and one more;
-- one round for each byte left is enough. The outer loop of lapic_timer_calibrate takes rounds, of
-- which 25 are enough for a timer up to 2 ^ 14 times as fast as the interval timer; its inner loop
-- goes through the answers of the hardware, and spins where they end.
-- A spinlock that is taken spins for ever on one CPU's view, since only another CPU can free it.
--
-- The firmware's tables are bytes of their own: they lie in memory that the memory map does not call
-- usable, so that no page table and no slab lies there. What `bsr` leaves for an argument of 0 is an
-- unknown number of the model.
--
-- While mp_init waits for a CPU to come online, that CPU runs cpu_init and no other CPU changes
-- anything: those started before only wait. So the model takes the two in turn. A struct cpu_local is
-- a record at its address, apart from the words of memory; its block comes from alloc as zeroes.
--
-- The items of the kernel's vectors are pointers, of eight bytes. The array of a vector is a function of
-- its own, apart from the words of memory, and what a growing vector takes from the page allocator is not
-- passed on; Alloc/Resize is about realloc over memory. A context of flanterm that is the null pointer
-- traps, as the first read of it finds no page.
--
-- Not modelled: the formatting of nanoprintf, what is printed before a panic, and the assembly, but
-- for what gdt_reload and idt_reload load and what ltr does to its descriptor.
-- The functions of uACPI that the kernel calls are arguments. The bootloader's answers and the
-- addresses of the interrupt thunks are arguments.
pub mod Base
pub mod Memmap
pub mod Machine
pub mod Main
pub mod Generic
pub mod Misc
pub mod Pmm
pub mod Spinlock
pub mod Vmm
pub mod Gdt
pub mod Idt
pub mod Acpi
pub mod Alloc
pub mod Mp
pub mod Panic
pub mod Term
pub mod Uacpi
pub mod Vector
pub mod Stack
pub mod Slab
pub mod Lapic
pub mod Madt
pub mod Cpu
pub mod Pit
