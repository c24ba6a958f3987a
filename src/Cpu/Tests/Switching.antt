-- ===== src/Cpu/Tests/Switching.antt =====
-- Switches and interrupts of two small processes.
use b0s.Base.{ℕ, ◌+◌, ◌-◌, ◌≡◌, refl, inl, arith, ◌==◌, if◌then◌else◌, [], ◌∷◌}
use b0s.Base.Word.{add64, sub64, dm_v2p}
use b0s.Base.Result.{ok}
use b0s.Memory.{Memory, load, load64, read_byte}
use b0s.Bitmap.Tests.{x86_compiler}
use b0s.Tasks.Process.{Process, TrapFrame, ready, stopped}
use b0s.Tasks.Create.{NewProcess, kernel_stack_size}
use b0s.Tasks.Sched.{Sched}
use b0s.Tasks.Sched.Choice.{IsPath, arrived, onward, first_ready}
use b0s.Cpu.Gdt.{Segments, Tss, gdt_at_start}
use b0s.Cpu.Switch.{Registers, Tasking, leaves, process_switch, sched_switch_to}
use b0s.Cpu.Switch.Back.{switched, process_switch-leaves, process_switch-back}
use b0s.Cpu.Switch.Stale.{sched_switch_to-switched, sched_switch_to-stale}
use b0s.Cpu.Interrupts.{interrupt_handler}
use b0s.Cpu.Interrupts.Dispatch.{Answers, interrupt_handler-Answers}
use b0s.Cpu.Tests.Board.{Board, board, at_start}

abbrev frame : TrapFrame
frame = record {
  r15 = 0;
  r14 = 0;
  r13 = 0;
  r12 = 0;
  r11 = 0;
  r10 = 0;
  r9 = 0;
  r8 = 0;
  rbp = 0;
  rdi = 1;
  rsi = 0;
  rdx = 0;
  rcx = 0;
  rbx = 0;
  rax = 0;
  vector_number = 0;
  error_code = 0;
  rip = 0x1000;
  cs = 0;
  rflags = 0;
  rsp = 0;
  ss = 0;
}

-- A process with its kernel stack from `kstack` on and its context at `context`.
abbrev process : ℕ → ℕ → NewProcess
process kstack context = record {
  pid = 1;
  name = λ i. 0;
  state = ready;
  space = 0x7000;
  parent = 0;
  child = 0;
  fdbitmap = record { len = 0; size_in_block = 0; bitmap = 0 };
  signals_handlers = λ signum. 0;
  kstack = kstack;
  tf_pointer = 0;
  tf = frame;
  return_address = 0;
  context_pointer = context;
  context = record { r12 = 0; r13 = 0; r14 = 0; r15 = 0; rbp = 0; rbx = 0; rip = 0 };
}

abbrev tss : Tss
tss = record {
  reserved0 = 0;
  rsp0 = 0;
  rsp1 = 0;
  rsp2 = 0;
  reserved1 = 0;
  reserved2 = 0;
  ist1 = 0;
  ist2 = 0;
  ist3 = 0;
  ist4 = 0;
  ist5 = 0;
  ist6 = 0;
  ist7 = 0;
  reserved3 = 0;
  reserved4 = 0;
  io_bitmap_offset = 0;
}

abbrev segments : Segments
segments = record {
  gdt = gdt_at_start;
  tss = tss;
  gdt_address = 0xffffffff80300000;
  tss_address = 0xffffffff80310000;
}

-- The ring of the nodes 1, 2 and 3, of which 3 is ready and 1 runs.
abbrev idle : Process
idle = record {
  state = stopped;
  masked_signals = 0;
  pending_signals = 0;
  signals_handlers = λ signum. 0;
  tf = frame;
  saved_tf = frame;
}

abbrev sched : Sched
sched = record {
  procs = λ a. if a == 3 then record idle { state = ready } else idle;
  heads = record {
    next = λ a. if a == 3 then 1 else a + 1;
    prev = λ a. if a == 1 then 3 else a - 1;
  };
  scheduled_procs = 2;
  current = 1;
  schleeper = 1;
}

sched-IsPath : IsPath sched.heads 1 2 (2 ∷ 3 ∷ [])
sched-IsPath = onward 2 (3 ∷ []) (omega arith) (onward 3 [] (omega arith) arrived)

abbrev registers : ℕ → Registers
registers rsp = record { rbx = 1; rbp = 2; r15 = 3; r14 = 4; r13 = 5; r12 = 6; rsp = rsp; rip = 0 }

-- The context of process 3 at 0x5000 is of zeros up to the address 0x77 to go on from; the frame of a
-- timer interrupt lies at 0x9000.
abbrev memory : Memory
memory a = if a == 0x5030 then 0x77 else (if a == 0x9078 then 60 else 0)

abbrev tasking : Tasking Board
tasking = record {
  procs = λ p. if p == 3 then process 0x4000 0x5000 else process 0x8000 0x9000;
  sched = sched;
  segments = segments;
  memory = memory;
  registers = registers 0x9100;
  state = at_start;
}

abbrev directory : ℕ → ℕ
directory space = 0xffff800000100000

-- Process 3 runs on its own stack, and then calls for a switch.
abbrev later : Tasking Board
later = record (switched board directory 1 3 tasking) { registers = registers 0x4f00 }

process_switch-back_example :
    (back : Tasking Board) × (process_switch board directory 3 1 later ≡ leaves back)
    × (back.registers ≡ record (registers 0x9100) { rsp = 0x9100 + 8; rip = load64 memory 0x9100 })
    × (back.segments.tss.rsp0 ≡ sub64 (add64 (later.procs 1).kstack kernel_stack_size) 1)
    × (back.state ≡ board.load_directory (dm_v2p (directory (later.procs 1).space)) later.state)
process_switch-back_example =
    process_switch-back board directory 1 3 3 tasking (switched board directory 1 3 tasking) later
      (omega arith) (process_switch-leaves board directory 1 3 tasking (omega arith)) (omega arith)
      refl (λ a lo hi. refl) (omega arith) (inl (omega arith))

-- Process 3 on its own stack again, with its first context where it was.
abbrev interrupted : Tasking Board
interrupted = record tasking { registers = registers 0x4f00 }

sched_switch_to-stale_example :
    (again : Tasking Board) × (sched_switch_to board 3 x86_compiler directory interrupted
      ≡ ok (leaves again))
    × ((again.procs 1).context_pointer ≡ 0x4f00 - 48)
    × (again.registers ≡ record (registers 0) {
      rbx = 0;
      rbp = 0;
      r15 = 0;
      r14 = 0;
      r13 = 0;
      r12 = 0;
      rsp = 0x5000 + 56;
      rip = 0x77;
    })
unfolding first_ready load read_byte switched
sched_switch_to-stale_example =
    sched_switch_to-stale board 3 x86_compiler directory (2 ∷ 3 ∷ []) tasking
      (switched board directory 1 3 tasking) interrupted
      (record { rbx = 0; rbp = 0; r15 = 0; r14 = 0; r13 = 0; r12 = 0; rsp = 0; rip = 0 }) 0x77
      sched-IsPath (refl, (refl, tt)) (omega arith) refl (omega arith)
      (sched_switch_to-switched board 3 x86_compiler directory (2 ∷ 3 ∷ []) tasking sched-IsPath
        (refl, (refl, tt)) (omega arith) refl (omega arith))
      refl (omega arith) (omega arith) (refl, (refl, (refl, (refl, (refl, (refl, (refl, tt)))))))
      (inl (omega arith))

interrupt_handler-Answers_example :
    Answers board directory 3 tasking 60
      (interrupt_handler board 3 x86_compiler directory 0x9000 tasking)
unfolding first_ready load read_byte
interrupt_handler-Answers_example =
    interrupt_handler-Answers board 3 x86_compiler directory 0x9000 tasking (2 ∷ 3 ∷ [])
      sched-IsPath (refl, (refl, tt)) (omega arith) refl
