-- ===== src/Tasks/Create.antt =====
-- kernel/multitasking/process.c and kernel/arch/x86_64/multitasking/process.c: making a process. A
-- process stands for each of its list nodes. What the other parts of the kernel do for it is the
-- interface `Services`.
pub mod Ledger
pub mod First
use b0s.Base.{
  ℕ, zero, suc, ◌+◌, ◌-◌, ◌*◌, ◌^◌, ◌==◌, ltb, if◌then◌else◌, Bool, not, ◌&&◌, List, [], ◌∷◌,
}
use b0s.Base.Word.{u16, add64, sub64}
use b0s.Base.Result.{Result, ok, panic, panic_if, ◌>>=◌, no_pids, null_write}
use b0s.Memory.{Memory, read_byte}
use b0s.Bitmap.{Bitmap, bitmap_init_static}
use b0s.Text.{strlen}
use b0s.Tasks.Ring.{Heads, init_list_head, list_add}
use b0s.Tasks.Process.{TrapFrame, ProcessState, ready}

-- `PROCESS_KERNEL_STACK_SIZE`, `PROCESS_NAME_MAX`
abbrev pub kernel_stack_size : ℕ
kernel_stack_size = 16384

abbrev pub process_name_max : ℕ
process_name_max = 64

-- `PROCESS_MAX_FD`
abbrev pub process_max_fd : ℕ
process_max_fd = 256

-- `sizeof(struct trap_frame)`, `sizeof(struct context)`
abbrev pub sizeof_trap_frame : ℕ
sizeof_trap_frame = 176

abbrev pub sizeof_context : ℕ
sizeof_context = 56

-- `struct context`
pub record Context : Type 0 where
  pub r12 : ℕ
  pub r13 : ℕ
  pub r14 : ℕ
  pub r15 : ℕ
  pub rbp : ℕ
  pub rbx : ℕ
  pub rip : ℕ

-- The fields of `struct process` that `process_create` sets: the frame, the return address and the
-- context are what stands at the pointers into the kernel stack, and `fdbitmap` is as the cast to
-- `struct bitmap` reads it.
pub record NewProcess : Type 0 where
  pub pid : ℕ
  pub name : ℕ → ℕ
  pub state : ProcessState
  pub space : ℕ
  pub parent : ℕ
  pub child : ℕ
  pub fdbitmap : Bitmap
  pub signals_handlers : ℕ → ℕ
  pub kstack : ℕ
  pub tf_pointer : ℕ
  pub tf : TrapFrame
  pub return_address : ℕ
  pub context_pointer : ℕ
  pub context : Context

-- The processes by address, the rings of `sched_list` and `siblings_list`, and the other memory.
pub record Store : Type 0 where
  pub procs : ℕ → NewProcess
  pub sched_lists : Heads
  pub siblings_lists : Heads
  pub memory : Memory

abbrev pub set_process : ℕ → NewProcess → Store → Store
set_process proc p s = record s { procs = λ a. if a == proc then p else s.procs a }

-- The calls into other parts, with 0 for NULL, and what a build fixes: the size of the structure,
-- whose file part is not finished, and the addresses of `trap_ret` and `process_first_run`.
pub record Services : Type 1 where
  pub State : Type 0
  pub kmalloc : ℕ → State → Result (ℕ × State)
  pub kfree : ℕ → State → Result State
  -- Of the lower half, from 0x1000 on.
  pub vmm_create_space : State → Result (ℕ × State)
  -- From the kernel's space.
  pub vmm_copy_regions : ℕ → State → Result State
  -- With `PAGE_USER_RW`.
  pub vmm_alloc_at : ℕ → ℕ → ℕ → State → Result (ℕ × State)
  pub vmm_delete_space : ℕ → State → Result State
  -- `bitmap_find_and_set` on `pid_bitmap`, and the length of that.
  pub bitmap_find_and_set : State → ℕ × State
  pub pid_bitmap_len : ℕ
  pub sizeof_process : ℕ
  pub trap_ret : ℕ
  pub process_first_run : ℕ

-- `(GDT_USER_DATA_INDEX * 8) | DPL_USER` and that of the code.
abbrev pub user_ss : ℕ
user_ss = 35

abbrev pub user_cs : ℕ
user_cs = 27

unfoldable pub process_arch_init : ℕ → ℕ → ℕ → ℕ → NewProcess → NewProcess
process_arch_init trap_ret first_run uentry ustack p =
    let frame_at = sub64 (add64 p.kstack kernel_stack_size) sizeof_trap_frame in
    let zeros : Context = record {
      r12 = 0;
      r13 = 0;
      r14 = 0;
      r15 = 0;
      rbp = 0;
      rbx = 0;
      rip = 0;
    } in
    record p {
      tf_pointer = frame_at;
      tf = record {
        r15 = 0;
        r14 = 0;
        r13 = 0;
        r12 = 0;
        r11 = 0;
        r10 = 0;
        r9 = 0;
        r8 = 0;
        rbp = 0;
        rdi = 0;
        rsi = 0;
        rdx = 0;
        rcx = 0;
        rbx = 0;
        rax = 0;
        vector_number = 0;
        error_code = 0;
        rip = uentry;
        cs = user_cs;
        rflags = 0x202;
        rsp = ustack;
        ss = user_ss;
      };
      return_address = trap_ret;
      context_pointer = sub64 (sub64 frame_at 8) sizeof_context;
      context = record zeros { rip = first_run };
    }

-- `memcpy` of the name's bytes, and the zero byte behind them.
unfoldable pub copy_name : Memory → ℕ → NewProcess → NewProcess
copy_name m name p =
    let name_len = strlen m name process_name_max in
    record p {
      name = λ i.
          if ltb i name_len
          then read_byte m (name + i)
          else (if i == name_len then 0 else p.name i);
    }

-- The list of children: next to the first child, or as the first one.
unfoldable pub link_parent : ℕ → ℕ → Store → Result Store
link_parent proc parent s =
    let first = (s.procs parent).child in
    let beside = record s { siblings_lists = list_add proc first s.siblings_lists } in
    let as_first = set_process parent (record (s.procs parent) { child = proc }) s in
    if not (parent == 0) && not (first == 0)
    then ok beside
    else panic_if (parent == 0) null_write (ok as_first)

module _ (sv : Services) where
  open sv use {
    State, kmalloc, kfree, vmm_create_space, vmm_copy_regions, vmm_alloc_at, vmm_delete_space,
    bitmap_find_and_set, pid_bitmap_len, sizeof_process, trap_ret, process_first_run,
  }

  unfoldable pub process_get_unused_pid : State → Result (ℕ × State)
  process_get_unused_pid st =
      let (found, st') = bitmap_find_and_set st in
      panic_if (u16 found == pid_bitmap_len) no_pids (ok (u16 found, st'))

  -- What follows the allocations, up to the links of the parent.
  unfoldable pub prepare_process : ℕ → ℕ → ℕ → ℕ → ℕ → Store → Store
  unfolding process_arch_init copy_name
  prepare_process name uentry parent proc pid s =
      let framed = process_arch_init trap_ret process_first_run uentry 0xffff (s.procs proc) in
      let named = copy_name s.memory name framed in
      let (fds, memory) = bitmap_init_static process_max_fd named.fdbitmap s.memory in
      let p = record named { pid = pid; fdbitmap = fds; state = ready; parent = parent } in
      record (set_process proc p s) {
        sched_lists = init_list_head proc s.sched_lists;
        siblings_lists = init_list_head proc s.siblings_lists;
        memory = memory;
      }

  unfoldable pub set_up_process : ℕ → ℕ → ℕ → ℕ → Store → State → Result (ℕ × Store × State)
  unfolding process_get_unused_pid
  set_up_process name uentry parent proc s st = process_get_unused_pid st >>= λ (pid, st').
      link_parent proc parent (prepare_process name uentry parent proc pid s) >>= λ s'.
      let last = record (s'.procs proc) { child = 0; signals_handlers = λ signum. 0 } in
      ok (proc, set_process proc last s', st')

  -- The labels at the end, from the bottom up.
  unfoldable pub fail_kstack : ℕ → Store → State → Result (ℕ × Store × State)
  fail_kstack proc s st = kfree proc st >>= λ st'. ok (0, s, st')

  unfoldable pub fail_vmm : ℕ → ℕ → Store → State → Result (ℕ × Store × State)
  unfolding fail_kstack
  fail_vmm proc kstack s st = kfree kstack st >>= λ st'. fail_kstack proc s st'

  unfoldable pub fail_ustack : ℕ → ℕ → ℕ → Store → State → Result (ℕ × Store × State)
  unfolding fail_vmm
  fail_ustack proc kstack space s st =
      vmm_delete_space space st >>= λ st'. fail_vmm proc kstack s st'

  -- The copied regions and the stack of the program, and what follows.
  unfoldable pub give_ustack : ℕ → ℕ → ℕ → ℕ → ℕ → ℕ → Store → State → Result (ℕ × Store × State)
  give_ustack name uentry parent proc kstack space s st = vmm_copy_regions space st >>= λ st₁.
      vmm_alloc_at space 0xf000 8 st₁ >>= λ (ustack, st₂).
      if ustack == 0
      then fail_ustack proc kstack space s st₂
      else set_up_process name uentry parent proc s st₂

  -- The address space, and what follows.
  unfoldable pub give_space : ℕ → ℕ → ℕ → ℕ → ℕ → Store → State → Result (ℕ × Store × State)
  give_space name uentry parent proc kstack s st = vmm_create_space st >>= λ (space, st').
      let s' = set_process proc (record (s.procs proc) { space = space }) s in
      if space == 0
      then fail_vmm proc kstack s' st'
      else give_ustack name uentry parent proc kstack space s' st'

  -- The stack in the kernel, and what follows.
  unfoldable pub give_kstack : ℕ → ℕ → ℕ → ℕ → Store → State → Result (ℕ × Store × State)
  give_kstack name uentry parent proc s st = kmalloc kernel_stack_size st >>= λ (kstack, st').
      let s' = set_process proc (record (s.procs proc) { kstack = kstack }) s in
      if kstack == 0
      then fail_kstack proc s' st'
      else give_space name uentry parent proc kstack s' st'

  -- The process, 0 for NULL.
  unfoldable pub process_create : ℕ → ℕ → ℕ → Store → State → Result (ℕ × Store × State)
  process_create name uentry parent s st = kmalloc sizeof_process st >>= λ (proc, st').
      if proc == 0 then ok (0, s, st') else give_kstack name uentry parent proc s st'
