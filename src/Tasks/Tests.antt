-- ===== src/Tasks/Tests.antt =====
-- Rings and signals on small states.
use b0s.Base.{ℕ, ◌+◌, ◌-◌, ◌^◌, ◌<◌, ◌≡◌, ◌≢◌, ◌⊎◌, refl, arith, ◌==◌, if◌then◌else◌, ◌&&◌, some}
use b0s.Base.Bits.{bit, bit_power}
use b0s.Bitmap.Tests.{x86_compiler, x86-FollowsC}
use b0s.Tasks.Ring.{Heads, null, list_add, list_del}
use b0s.Tasks.Ring.Links.{IsLinked, IsLoose, list_add-IsLinked, list_del-list_add}
use b0s.Base.Result.{ok}
use b0s.Tasks.Sched.{Sched, sched_switch}
use b0s.Tasks.Sched.Choice.{IsPath, arrived, onward, first_ready, sched_switch-first_ready}
use b0s.Tasks.Process.{Process, TrapFrame, ready, stopped}
use b0s.Base.{[], ◌∷◌}
use b0s.Tasks.Signal.{signal_send, signal_deliver}
use b0s.Tasks.Signal.Delivery.{signal_send_lem, signal_deliver_lem}

-- Every node is a ring of its own, as `INIT_LIST_HEAD` leaves it.
abbrev alone : Heads
alone = record { next = λ a. a; prev = λ a. a }

alone-IsLoose : IsLoose alone 7
alone-IsLoose a other = (other, other)

list_add-IsLinked_example :
    let h' = list_add 7 3 alone in
    (h'.next 3 ≡ 7)
    × (h'.next 7 ≡ 3)
    × IsLinked h' 7
    × ((a : ℕ) → a ≢ 7 → IsLinked alone a → IsLinked h' a)
list_add-IsLinked_example = list_add-IsLinked 7 3 alone (omega arith) alone-IsLoose (refl, refl)

list_del-list_add_example :
    let h' = list_del 7 (list_add 7 3 alone) in
    (h'.next 7 ≡ null)
    × (h'.prev 7 ≡ null)
    × ((a : ℕ) → a ≢ 7 → (h'.next a ≡ alone.next a) × (h'.prev a ≡ alone.prev a))
list_del-list_add_example = list_del-list_add 7 3 alone (omega arith) alone-IsLoose (refl, refl)

abbrev frame : TrapFrame
frame = record {
  r15 = 0;
  r14 = 0;
  r13 = 0;
  r12 = 0;
  r11 = 0;
  r10 = 0;
  r9 = 0;
  r8 = 0;
  rbp = 0;
  rdi = 1;
  rsi = 0;
  rdx = 0;
  rcx = 0;
  rbx = 0;
  rax = 0;
  vector_number = 0;
  error_code = 0;
  rip = 0x1000;
  cs = 0;
  rflags = 0;
  rsp = 0;
  ss = 0;
}

-- Signal 3 is pending, signal 5 is masked, and every signal has a handler.
abbrev process : Process
process = record {
  state = stopped;
  masked_signals = 2 ^ 5;
  pending_signals = 2 ^ 3;
  signals_handlers = λ signum. 0x4000;
  tf = frame;
  saved_tf = frame;
}

signal_send_lem_example :
    (proc' : Process) × (signal_send x86_compiler process 6 ≡ some proc')
    × ((j : ℕ)
        → bit proc'.pending_signals j ≡ (if j == 6 && bit (2 ^ 5) 6 == 0 then 1 else bit (2 ^ 3) j))
    × (proc'.masked_signals ≡ 2 ^ 5)
    × (proc'.state ≡ stopped)
signal_send_lem_example = signal_send_lem x86_compiler x86-FollowsC process 6 (omega arith)

bit_3 : bit (2 ^ 3) 3 ≡ 1
unfolding bit
bit_3 = refl

below_3 : (j : ℕ) → j < 3 → bit (2 ^ 3) j ≡ 0
below_3 j lt = ground (arith, bit_power 3 j)

abbrev signal : ℕ
signal = 3

signal_deliver_lem_example :
    let proc' = signal_deliver x86_compiler process in
    ((j : ℕ) → j < 64 → bit proc'.pending_signals j ≡ (if j == 3 then 0 else bit (2 ^ 3) j))
    × (process.signals_handlers signal ≢ 0
        → signal ≢ 0
        → (proc'.saved_tf ≡ frame)
          × (proc'.tf.rip ≡ 0x4000)
          × (proc'.tf.rdi ≡ 3)
          × (proc'.state ≡ stopped))
    × ((process.signals_handlers signal ≡ 0) ⊎ (signal ≡ 0)
        → (proc'.tf ≡ frame) × (proc'.state ≡ ready))
signal_deliver_lem_example =
    signal_deliver_lem x86_compiler x86-FollowsC process 3 (omega arith) bit_3 below_3

-- The ring of the nodes 1, 2 and 3, of which 3 is ready and 1 runs.
abbrev sched : Sched
sched = record {
  procs = λ a. if a == 3 then record process { state = ready } else process;
  heads = record {
    next = λ a. if a == 3 then 1 else a + 1;
    prev = λ a. if a == 1 then 3 else a - 1;
  };
  scheduled_procs = 2;
  current = 1;
  schleeper = 1;
}

sched-IsPath : IsPath sched.heads 1 2 (2 ∷ 3 ∷ [])
sched-IsPath = onward 2 (3 ∷ []) (omega arith) (onward 3 [] (omega arith) arrived)

sched_switch-first_ready_example :
    (s' : Sched) × (sched_switch 3 x86_compiler sched ≡ ok (first_ready sched (2 ∷ 3 ∷ []), s'))
sched_switch-first_ready_example =
    sched_switch-first_ready 3 x86_compiler sched (2 ∷ 3 ∷ []) sched-IsPath (refl, (refl, tt))
      (omega arith)
