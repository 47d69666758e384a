-- ===== src/Mp/Local.antt =====
-- `struct cpu_local` of kernel/src/sys/cpu.k.h and the structs in it.
use cynix.Base.{ℕ, ◌+◌, ◌*◌, Bool, false}
use cynix.Gdt.{tss_size}
use cynix.Stack.{Stack}

pub record CpuTss : Type 0 where
  pub rsp0 : ℕ
  pub rsp1 : ℕ
  pub rsp2 : ℕ
  pub ist1 : ℕ
  pub ist2 : ℕ
  pub ist3 : ℕ
  pub ist4 : ℕ
  pub ist5 : ℕ
  pub ist6 : ℕ
  pub ist7 : ℕ
  pub iopb : ℕ

-- `struct thread` of proc/proc.k.h
pub record Thread : Type 0 where
  pub self : ℕ
  pub running_on : ℕ
  pub errno : ℕ
  pub kernel_stack : ℕ
  pub user_stack : ℕ
  pub syscall_num : ℕ

-- The stacks are those that the pointers lead to.
pub record CpuLocal : Type 0 where
  pub cpu_number : ℕ
  pub lapic_id : ℕ
  pub is_bsp : Bool
  pub online : Bool
  pub is_idle : Bool
  pub lapic_timer_freq : ℕ
  pub tss : CpuTss
  pub common_int_stack : Stack
  pub abort_stack : Stack
  pub idle_thread : Thread

-- The members before `tss` take 24 bytes; the two pointers to stacks come behind it.
abbrev pub tss_offset : ℕ
tss_offset = 24

abbrev pub idle_thread_offset : ℕ
idle_thread_offset = tss_offset + tss_size + 2 * 8

abbrev pub cpu_local_size : ℕ
cpu_local_size = idle_thread_offset + 6 * 8

abbrev no_stack : Stack
no_stack = record { base = 0; top = 0; type_size = 0; cur_offset = 0 }

-- The struct in memory whose bytes are all 0
abbrev pub zeroed : CpuLocal
zeroed = record {
  cpu_number = 0;
  lapic_id = 0;
  is_bsp = false;
  online = false;
  is_idle = false;
  lapic_timer_freq = 0;
  tss = record {
    rsp0 = 0;
    rsp1 = 0;
    rsp2 = 0;
    ist1 = 0;
    ist2 = 0;
    ist3 = 0;
    ist4 = 0;
    ist5 = 0;
    ist6 = 0;
    ist7 = 0;
    iopb = 0;
  };
  common_int_stack = no_stack;
  abort_stack = no_stack;
  idle_thread = record {
    self = 0;
    running_on = 0;
    errno = 0;
    kernel_stack = 0;
    user_stack = 0;
    syscall_num = 0;
  };
}
