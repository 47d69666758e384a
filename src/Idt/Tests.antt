-- ===== src/Idt/Tests.antt =====
-- The interrupt tables of a CPU that starts with free vectors from 32 on.
use cynix.Base.{ℕ, ◌≡◌, refl, false, none, arith}
use cynix.Base.Run.{ok, panics, idt_exhausted}
use cynix.Idt.{IdtDescriptor, Idt, isr_init}
use cynix.Idt.Gates.{IsSetUp, isr_init-IsSetUp}
use cynix.Idt.Vectors.{
  IsCounting, allocate_vectors, range, after, allocate_vectors-fits, allocate_vectors-exhausted,
}

abbrev empty_gate : IdtDescriptor
empty_gate = record {
  base_low16 = 0;
  selector = 0;
  ist = 0;
  flags = 0;
  base_mid16 = 0;
  base_high32 = 0;
  reserved = 0;
}

abbrev demo : Idt
demo = record {
  interrupts = false;
  idt = λ v. empty_gate;
  idt_lock = false;
  idt_free_vector = 32;
  isr_handler_table = λ v. none;
  isr_abort_vector = 0;
  sched_vector = 0;
}

abbrev demo_thunks : ℕ → ℕ
demo_thunks v = 0xffff_ffff_8000_1000

demo-IsCounting : IsCounting demo
demo-IsCounting = record { masked = refl; unlocked = refl; from = omega arith; upto = omega arith }

isr_init-IsSetUp_example :
    (s' : Idt) × (isr_init demo_thunks demo ≡ ok tt s') × IsSetUp demo_thunks s' 32
isr_init-IsSetUp_example =
    isr_init-IsSetUp demo_thunks demo (λ v. omega arith) refl refl (omega arith) (omega arith)

allocate_vectors-fits_example :
    allocate_vectors 3 demo ≡ ok (range 32 3) (after demo demo-IsCounting 3)
allocate_vectors-fits_example = allocate_vectors-fits 3 demo demo-IsCounting (omega arith)

allocate_vectors-exhausted_example : allocate_vectors 209 demo ≡ panics idt_exhausted
allocate_vectors-exhausted_example =
    allocate_vectors-exhausted 209 demo demo-IsCounting (omega arith)
