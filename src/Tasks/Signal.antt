-- ===== src/Tasks/Signal.antt =====
-- kernel/multitasking/signal.c. The macros shift the int 1, which is left to the `Compiler`.
pub mod Delivery
use b0s.Base.{
  ℕ, zero, suc, ◌+◌, ◌==◌, leb, if◌then◌else◌, Bool, not, ◌||◌, bit_and, bit_or, Option, none, some,
}
use b0s.Base.Word.{not64}
use b0s.Bitmap.{Compiler}
use b0s.Tasks.Process.{Process, ProcessState, running, ready, stopped, zombie}

-- `PROCESS_NSIG`
abbrev pub process_nsig : ℕ
process_nsig = 64

abbrev pub sigkill : ℕ
sigkill = 0

abbrev pub sigsegv : ℕ
sigsegv = 1

abbrev pub sigstop : ℕ
sigstop = 2

abbrev pub sigcont : ℕ
sigcont = 3

-- `SIGNAL_UNSET`
unfoldable pub signal_unset : Compiler → ℕ → ℕ → ℕ
signal_unset c signals_bm signum = bit_and signals_bm (not64 (c.int_one_shl signum))

-- `SIGNAL_SET`
unfoldable pub signal_set : Compiler → ℕ → ℕ → ℕ
signal_set c signals_bm signum = bit_or signals_bm (c.int_one_shl signum)

-- `SIGNAL_IS_SET`
unfoldable pub signal_is_set : Compiler → ℕ → ℕ → Bool
signal_is_set c signals_bm signum = not (bit_and signals_bm (c.int_one_shl signum) == 0)

-- `none` is -EINVAL, and otherwise the function returns 0.
unfoldable pub signal_send : Compiler → Process → ℕ → Option Process
unfolding signal_is_set signal_set
signal_send c proc signum =
    let pending = record proc { pending_signals = signal_set c proc.pending_signals signum } in
    if leb process_nsig signum
    then none
    else some (if signal_is_set c proc.masked_signals signum then proc else pending)

-- The search of `signal_deliver` from `signum` on, with the signals left.
unfoldable pub first_pending : Compiler → ℕ → ℕ → ℕ → ℕ
unfolding signal_is_set
first_pending c zero signum pending = signum
first_pending c (suc left) signum pending =
    let further = first_pending c left (signum + 1) pending in
    if signal_is_set c pending signum then signum else further

abbrev pub continue_stopped : ProcessState → ProcessState
continue_stopped running = running
continue_stopped ready = ready
continue_stopped stopped = ready
continue_stopped zombie = zombie

-- The `switch` on a signal without a handler.
unfoldable pub default_action : ℕ → ProcessState → ProcessState
default_action signum state =
    if signum == sigstop
    then stopped
    else (if signum == sigcont then continue_stopped state else state)

unfoldable pub signal_deliver : Compiler → Process → Process
unfolding first_pending signal_unset default_action
signal_deliver c proc =
    let signum = first_pending c process_nsig 0 proc.pending_signals in
    let handler = proc.signals_handlers signum in
    let taken = record proc { pending_signals = signal_unset c proc.pending_signals signum } in
    let by_default = record taken { state = default_action signum proc.state } in
    let handled = record taken {
      saved_tf = proc.tf;
      tf = record proc.tf { rip = handler; rdi = signum };
    } in
    if proc.pending_signals == 0
    then proc
    else (if handler == 0 || signum == sigkill then by_default else handled)
