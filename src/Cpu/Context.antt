-- ===== src/Cpu/Context.antt =====
-- `struct cpu_ctx` of kernel/src/sys/cpu.k.h: the registers that an interrupt saves.
use cynix.Base.{ℕ}

pub record CpuCtx : Type 0 where
  pub ds : ℕ
  pub es : ℕ
  pub rax : ℕ
  pub rbx : ℕ
  pub rcx : ℕ
  pub rdx : ℕ
  pub rsi : ℕ
  pub rdi : ℕ
  pub rbp : ℕ
  pub r8 : ℕ
  pub r9 : ℕ
  pub r10 : ℕ
  pub r11 : ℕ
  pub r12 : ℕ
  pub r13 : ℕ
  pub r14 : ℕ
  pub r15 : ℕ
  pub err : ℕ
  pub rip : ℕ
  pub cs : ℕ
  pub rflags : ℕ
  pub rsp : ℕ
  pub ss : ℕ
