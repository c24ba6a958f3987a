-- ===== src/Tasks/Process.antt =====
-- The parts of `struct process` (kernel/arch/x86_64/multitasking/process.h) that signals and
-- scheduling use, and `struct trap_frame` (kernel/arch/x86_64/cpu.h).
use b0s.Base.{ℕ}

-- `enum process_state`
pub data ProcessState : Type 0 where
  running ready stopped zombie : ProcessState

-- `struct trap_frame`
pub record TrapFrame : Type 0 where
  pub r15 : ℕ
  pub r14 : ℕ
  pub r13 : ℕ
  pub r12 : ℕ
  pub r11 : ℕ
  pub r10 : ℕ
  pub r9 : ℕ
  pub r8 : ℕ
  pub rbp : ℕ
  pub rdi : ℕ
  pub rsi : ℕ
  pub rdx : ℕ
  pub rcx : ℕ
  pub rbx : ℕ
  pub rax : ℕ
  pub vector_number : ℕ
  pub error_code : ℕ
  pub rip : ℕ
  pub cs : ℕ
  pub rflags : ℕ
  pub rsp : ℕ
  pub ss : ℕ

-- `tf` is the frame that the pointer of that name leads to, on the process's kernel stack.
pub record Process : Type 0 where
  pub state : ProcessState
  pub masked_signals : ℕ
  pub pending_signals : ℕ
  pub signals_handlers : ℕ → ℕ
  pub tf : TrapFrame
  pub saved_tf : TrapFrame
