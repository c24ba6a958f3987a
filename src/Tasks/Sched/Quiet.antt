-- ===== src/Tasks/Sched/Quiet.antt =====
-- A choice of the scheduler that delivers no signal.
use b0s.Base.{
  ℕ, zero, suc, ◌<◌, ◌≡◌, refl, ap, ◌∙◌, sym, inl, inr, arith, Bool-cases, ◌==◌, if◌then◌else◌,
  List, [], ◌∷◌, length, All, ≡→==, ≢→==, ==→≡,
}
use mathlib.Core.Path.{fun_ext}
use b0s.Base.Result.{ok}
use b0s.Bitmap.{Compiler}
use b0s.Tasks.Process.{Process}
use b0s.Tasks.Signal.{signal_deliver}
use b0s.Tasks.Sched.{Sched, is_ready, switch_loop, sched_switch}
use b0s.Tasks.Sched.Choice.{IsPath, arrived, onward, first_ready, IsLive}

-- With nothing pending there is nothing to deliver.
deliver-none : (c : Compiler) (p : Process) → p.pending_signals ≡ 0 → signal_deliver c p ≡ p
unfolding signal_deliver
deliver-none c p none = rw (≡→== p.pending_signals 0 none)

set-same :
    (procs : ℕ → Process) (n : ℕ) (v : Process)
    → v ≡ procs n
    → (a : ℕ) → (if a == n then v else procs a) ≡ procs a
set-same procs n v e a = elim (Bool-cases (a == n)) [
  | inl same ↦ rw same (e ∙ ap procs (sym (==→≡ a n same)))
  | inr other ↦ rw other
]

switch_loop-quiet :
    (rounds : ℕ) (c : Compiler) (pos : ℕ) (s : Sched) (ps : List ℕ)
    → IsPath s.heads s.current pos ps
    → All (IsLive s) ps
    → length ps < rounds
    → (s.procs (first_ready s ps)).pending_signals ≡ 0
    → switch_loop rounds c pos (s.heads.next pos) s ≡ ok (first_ready s ps, s)
unfolding switch_loop first_ready
switch_loop-quiet zero c pos s ps path live lt none = absurd (omega arith)
switch_loop-quiet (suc rounds) c pos s [] arrived live lt none = rw (≡→== s.current s.current refl)
switch_loop-quiet (suc rounds) c pos s (p ∷ ps) (onward _ _ ne rest) live lt none =
    elim (Bool-cases (is_ready (s.procs p).state)) [
      | inl chosen ↦
          let quiet : (s.procs p).pending_signals ≡ 0 = rw chosen at none in
          let same = fun_ext (
            set-same s.procs p (signal_deliver c (s.procs p)) (deliver-none c (s.procs p) quiet)) in
          rw (≢→== p s.current ne, chosen)
            (ap (λ (procs : ℕ → Process). ok (p, record s { procs = procs })) same)
      | inr not_yet ↦
          let quiet : (s.procs (first_ready s ps)).pending_signals ≡ 0 = rw not_yet at none in
          rw (≢→== p s.current ne, not_yet, live.0)
            (switch_loop-quiet rounds c (s.heads.next p) s ps rest live.1 (omega arith) quiet)
    ]

-- With no zombie in the ring, more rounds than it has nodes and no signal pending for the process
-- that is chosen, nothing changes.
pub sched_switch-quiet :
    (rounds : ℕ) (c : Compiler) (s : Sched) (ps : List ℕ)
    → IsPath s.heads s.current (s.heads.next s.current) ps
    → All (IsLive s) ps
    → length ps < rounds
    → (s.procs (first_ready s ps)).pending_signals ≡ 0
    → sched_switch rounds c s ≡ ok (first_ready s ps, s)
unfolding sched_switch
sched_switch-quiet rounds c s ps path live lt none =
    switch_loop-quiet rounds c (s.heads.next s.current) s ps path live lt none
