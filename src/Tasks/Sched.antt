-- ===== src/Tasks/Sched.antt =====
-- kernel/multitasking/sched.c. A process stands for its node in the ring of scheduled processes
-- (`list_entry` is a fixed offset). The switch itself is assembly: `sched_switch` gives the process
-- that it switches to.
pub mod Choice
pub mod Quiet
use b0s.Base.{ℕ, zero, suc, ◌==◌, if◌then◌else◌, Bool, true, false}
use b0s.Base.Result.{Result, ok, panic, diverges}
use b0s.Bitmap.{Compiler}
use b0s.Tasks.Ring.{Heads, list_add, list_del}
use b0s.Tasks.Process.{Process, ProcessState, running, ready, stopped, zombie}
use b0s.Tasks.Signal.{signal_deliver}

-- The static variables (`current` is `running` of the source), the links and what stands at each node.
pub record Sched : Type 0 where
  pub procs : ℕ → Process
  pub heads : Heads
  pub scheduled_procs : ℕ
  pub current : ℕ
  pub schleeper : ℕ

abbrev set_proc : (ℕ → Process) → ℕ → Process → ℕ → Process
set_proc procs node proc a = if a == node then proc else procs a

pub sched_add : ℕ → Sched → Sched
sched_add proc s = record s { heads = list_add proc s.scheduled_procs s.heads }

pub sched_init : ℕ → Sched → Sched
unfolding sched_add
sched_init proc s = sched_add proc (record s { schleeper = proc; current = proc })

pub sched_rmv : ℕ → Sched → Sched
sched_rmv process s = record s {
  procs = set_proc s.procs process (record (s.procs process) { state = zombie });
}

abbrev pub is_ready : ProcessState → Bool
is_ready running = false
is_ready ready = true
is_ready stopped = false
is_ready zombie = false

abbrev pub is_zombie : ProcessState → Bool
is_zombie running = false
is_zombie ready = false
is_zombie stopped = false
is_zombie zombie = true

-- The loop of `sched_switch` with `pos` and `n`, around the ring to the running process.
switch_loop : ℕ → Compiler → ℕ → ℕ → Sched → Result (ℕ × Sched)
switch_loop zero c pos n s = panic diverges
switch_loop (suc rounds) c pos n s =
    let proc = s.procs pos in
    let delivered = record s { procs = set_proc s.procs pos (signal_deliver c proc) } in
    let removed = record s { heads = list_del pos s.heads } in
    let after_removal = switch_loop rounds c n (removed.heads.next n) removed in
    let further = switch_loop rounds c n (s.heads.next n) s in
    if pos == s.current
    then ok (s.schleeper, s)
    else (if is_ready proc.state
        then ok (pos, delivered)
        else (if is_zombie proc.state then after_removal else further))

-- The node that is switched to, with rounds for the nodes of the ring.
pub sched_switch : ℕ → Compiler → Sched → Result (ℕ × Sched)
unfolding switch_loop
sched_switch rounds c s =
    let pos = s.heads.next s.current in switch_loop rounds c pos (s.heads.next pos) s
