-- ===== src/Tasks/Create/Ledger/Tests.antt =====
-- `process_create` over services that count up, and its theorem there.
use b0s.Base.{ℕ, ◌+◌, ◌-◌, ◌≡◌, refl, arith, []}
use b0s.Base.Result.{Result, ok, ◌>>=◌}
use b0s.Memory.{Memory}
use b0s.Tasks.Process.{TrapFrame, stopped}
use b0s.Tasks.Create.{
  Services, Store, NewProcess, process_create, set_up_process, prepare_process, link_parent,
  give_kstack, give_space, give_ustack,
}
use b0s.Tasks.Create.Ledger.Ends.{held_in, process_create-EndsIn}
use b0s.Tasks.Create.Ledger.{recorded, EndsIn}

-- The next address.
abbrev counting : ℕ → Services
counting ustack = record {
  State = ℕ;
  kmalloc = λ n st. ok (st, st + 4096);
  kfree = λ p st. ok st;
  vmm_create_space = λ st. ok (st, st + 4096);
  vmm_copy_regions = λ p st. ok st;
  vmm_alloc_at = λ p va pages st. ok (ustack, st);
  vmm_delete_space = λ p st. ok st;
  bitmap_find_and_set = λ st. (5, st);
  pid_bitmap_len = 65535;
  sizeof_process = 12000;
  trap_ret = 77;
  process_first_run = 78;
}

abbrev no_frame : TrapFrame
no_frame = record {
  r15 = 0;
  r14 = 0;
  r13 = 0;
  r12 = 0;
  r11 = 0;
  r10 = 0;
  r9 = 0;
  r8 = 0;
  rbp = 0;
  rdi = 0;
  rsi = 0;
  rdx = 0;
  rcx = 0;
  rbx = 0;
  rax = 0;
  vector_number = 0;
  error_code = 0;
  rip = 0;
  cs = 0;
  rflags = 0;
  rsp = 0;
  ss = 0;
}

abbrev no_process : NewProcess
no_process = record {
  pid = 0;
  name = λ i. 0;
  state = stopped;
  space = 0;
  parent = 0;
  child = 0;
  fdbitmap = record { len = 0; size_in_block = 0; bitmap = 0 };
  signals_handlers = λ signum. 0;
  kstack = 0;
  tf_pointer = 0;
  tf = no_frame;
  return_address = 0;
  context_pointer = 0;
  context = record { r12 = 0; r13 = 0; r14 = 0; r15 = 0; rbp = 0; rbx = 0; rip = 0 };
}

abbrev blank : Memory
blank a = 0

abbrev no_processes : Store
no_processes = record {
  procs = λ a. no_process;
  sched_lists = record { next = λ a. 0; prev = λ a. 0 };
  siblings_lists = record { next = λ a. 0; prev = λ a. 0 };
  memory = blank;
}

-- The child of the parent at 7, and its stack pointers.
abbrev pointers : Result (ℕ × ℕ × ℕ × ℕ)
pointers = process_create (counting 1) 100 0x1000 7 no_processes 4096 >>= λ (proc, s, st).
    ok (proc, (s.procs 7).child, (s.procs proc).tf_pointer, (s.procs proc).context_pointer)

pointers_test : pointers ≡ ok (4096, 4096, 8192 + 16384 - 176, 8192 + 16384 - 240)
unfolding process_create give_kstack give_space give_ustack set_up_process prepare_process
    link_parent
pointers_test = refl

process_create-EndsIn_example :
    EndsIn
      (recorded (counting 1))
      (held_in (counting 1))
      0x1000
      []
      (process_create (recorded (counting 1)) 100 0x1000 7 no_processes (4096, []))
process_create-EndsIn_example =
    process_create-EndsIn (counting 1) 100 0x1000 7 no_processes 4096 [] (omega arith)
