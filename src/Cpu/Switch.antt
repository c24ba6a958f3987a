-- ===== src/Cpu/Switch.antt =====
-- Switching from one process to another: kernel/arch/x86_64/multitasking/switch.asm and
-- `process_switch` of kernel/arch/x86_64/multitasking/process.c, `mmu_switch_space` of
-- kernel/arch/x86_64/mm/mmu.c, and `sched_switch` up to the end of the switch.
pub mod Words
pub mod Back
pub mod Stale
use b0s.Base.{ℕ, ◌+◌, ◌==◌, if◌then◌else◌}
use b0s.Base.Word.{u64, add64, sub64, dm_v2p}
use b0s.Base.Result.{Result, ok, ◌>>=◌}
use b0s.Bitmap.{Compiler}
use b0s.Memory.{Memory, load64, store64}
use b0s.Tasks.Create.{NewProcess, kernel_stack_size}
use b0s.Tasks.Sched.{Sched, sched_switch}
use b0s.Cpu.Machine.{Machine, paging_load}
use b0s.Cpu.Gdt.{Segments, gdt_set_tss_rsp}

-- The registers that the switch saves, the stack pointer and where the processor goes on.
pub record Registers : Type 0 where
  pub rbx : ℕ
  pub rbp : ℕ
  pub r15 : ℕ
  pub r14 : ℕ
  pub r13 : ℕ
  pub r12 : ℕ
  pub rsp : ℕ
  pub rip : ℕ

-- The memory with the stack pointer.
pub record Stack : Type 0 where
  pub memory : Memory
  pub rsp : ℕ

unfoldable pub push : ℕ → Stack → Stack
push v s = let rsp = sub64 s.rsp 8 in record { memory = store64 s.memory rsp v; rsp = rsp }

unfoldable pub pop : Stack → ℕ × Stack
pop s = (load64 s.memory s.rsp, record s { rsp = add64 s.rsp 8 })

-- What the call stores through `cur`, the memory and the registers behind its `ret`. At its start
-- the return address lies at the stack pointer.
unfoldable pub process_switch_asm : ℕ → Memory → Registers → ℕ × Memory × Registers
process_switch_asm next m r =
    let s₁ = push r.rbx (record { memory = m; rsp = r.rsp }) in
    let s₂ = push r.rbp s₁ in
    let s₃ = push r.r15 s₂ in
    let s₄ = push r.r14 s₃ in
    let s₅ = push r.r13 s₄ in
    let s₆ = push r.r12 s₅ in
    let t : Stack = record s₆ { rsp = next } in
    let (r12, t₁) = pop t in
    let (r13, t₂) = pop t₁ in
    let (r14, t₃) = pop t₂ in
    let (r15, t₄) = pop t₃ in
    let (rbp, t₅) = pop t₄ in
    let (rbx, t₆) = pop t₅ in
    let (rip, t₇) = pop t₆ in
    (
      s₆.rsp,
      s₆.memory,
      record {
        rbx = rbx;
        rbp = rbp;
        r15 = r15;
        r14 = r14;
        r13 = r13;
        r12 = r12;
        rsp = t₇.rsp;
        rip = rip;
      },
    )

-- What a switch works on: the processes by address, the scheduler, the statics of the segments, the
-- memory, the registers, and the processor. A `struct process` is in two of them: `procs` has the fields
-- that a switch reads and writes (the stack, the context, the space), and `sched` those of signals and
-- of the choice. A switch reads no field of `procs` that `sched` has too.
pub record Tasking {ℓ} (State : Type ℓ) : Type ℓ where
  pub procs : ℕ → NewProcess
  pub sched : Sched
  pub segments : Segments
  pub memory : Memory
  pub registers : Registers
  pub state : State

-- Where the switch goes: on behind the call, or to where another process left off.
pub data Flow {ℓ} (State : Type ℓ) : Type ℓ where
  returns : Tasking State → Flow State
  leaves : Tasking State → Flow State

module _ {ℓ} {State : Type ℓ} (hw : Machine State) where
  -- The argument is the page directory of the space.
  unfoldable pub mmu_switch_space : ℕ → State → State
  mmu_switch_space page_directory s = paging_load hw (dm_v2p page_directory) s

  -- The call of `process_switch_asm` for the process `cur`: the registers are those at its start.
  unfoldable pub switch_stacks : ℕ → ℕ → Tasking State → Tasking State
  unfolding process_switch_asm push pop
  switch_stacks cur next t =
      let (saved, memory, registers) =
        process_switch_asm (t.procs next).context_pointer t.memory t.registers in
      let left = record (t.procs cur) { context_pointer = saved } in
      record t {
        procs = λ p. if p == cur then left else t.procs p;
        memory = memory;
        registers = registers;
      }

  -- `directory` gives the page directory of a space by its address.
  unfoldable pub process_switch : (ℕ → ℕ) → ℕ → ℕ → Tasking State → Flow State
  unfolding switch_stacks mmu_switch_space
  process_switch directory cur next t =
      let rsp0 = sub64 (add64 (t.procs next).kstack kernel_stack_size) 1 in
      let ready = record t {
        segments = gdt_set_tss_rsp rsp0 t.segments;
        state = mmu_switch_space (directory (t.procs next).space) t.state;
      } in
      if cur == next then returns t else leaves (switch_stacks cur next ready)

  -- `sched_switch`, with the switch at its end.
  unfoldable pub sched_switch_to : ℕ → Compiler → (ℕ → ℕ) → Tasking State → Result (Flow State)
  unfolding process_switch
  sched_switch_to rounds c directory t = sched_switch rounds c t.sched >>= λ (next, sched').
      ok (process_switch directory t.sched.current next (record t { sched = sched' }))
