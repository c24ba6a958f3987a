-- ===== src/Tasks/Create/First.antt =====
-- `process_init` of kernel/multitasking/process.c: the process that the boot stack becomes. In the
-- release build its assertions are empty.
use b0s.Base.{ℕ, ◌==◌, none, some, List, [], ◌∷◌, get_elem?}
use b0s.Base.Result.{Result, ok, panic_if, ◌>>=◌, no_boot_process}
use b0s.Bitmap.{Bitmap, bitmap_init_kheap}
use b0s.Tasks.Process.{running}
use b0s.Tasks.Ring.{init_list_head}
use b0s.Tasks.Sched.{Sched, sched_init}
use b0s.Tasks.Create.{Store, Services, set_process}

-- The local `name`, with its zero byte.
abbrev boot_name : List ℕ
boot_name =
    b'B' ∷ b'O' ∷ b'O' ∷ b'T' ∷ b'S' ∷ b'T' ∷ b'R' ∷ b'A' ∷ b'P' ∷ b' ' ∷ b'P' ∷ b'R' ∷ b'O' ∷ b'C'
    ∷ b'E' ∷ b'S' ∷ b'S' ∷ 0 ∷ []

-- `U16_MAX`
abbrev u16_max : ℕ
u16_max = 65535

module _ (sv : Services) where
  open sv use {State, kmalloc, sizeof_process}

  -- The kernel's space and the `pid_bitmap`, which comes out filled; that there may be no memory for
  -- it is not looked at.
  unfoldable pub process_init :
      ℕ → Store → Sched → Bitmap → State → Result (Store × Sched × Bitmap × State)
  process_init kspace s sched pid_bitmap st = kmalloc sizeof_process st >>= λ (proc, st₁).
      let old = s.procs proc in
      let p = record old {
        space = kspace;
        pid = 0;
        name = λ i. elim (get_elem? boot_name i) [ some c ↦ c | none ↦ old.name i ];
        tf_pointer = 0;
        state = running;
      } in
      let sched' = sched_init proc (record sched { heads = init_list_head proc s.sched_lists }) in
      panic_if (proc == 0) no_boot_process (
        bitmap_init_kheap kmalloc u16_max pid_bitmap s.memory st₁ >>= λ (next, filled, memory, st₂).
        let s' = record (set_process proc p s) { sched_lists = sched'.heads; memory = memory } in
        ok (s', sched', filled, st₂))
