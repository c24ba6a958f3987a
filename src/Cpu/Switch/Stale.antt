-- ===== src/Cpu/Switch/Stale.antt =====
-- What the scheduler does after its first switch: `running` is still the process that it left.
use b0s.Base.{ℕ, ◌+◌, ◌-◌, ◌^◌, ◌≤◌, ◌<◌, ◌≡◌, ◌≢◌, ◌⊎◌, refl, ap, ◌∙◌, arith, List, All, length}
use b0s.Base.Result.{ok}
use b0s.Bitmap.{Compiler}
use b0s.Tasks.Sched.{Sched}
use b0s.Tasks.Sched.Choice.{IsPath, first_ready, IsLive}
use b0s.Tasks.Sched.Quiet.{sched_switch-quiet}
use b0s.Cpu.Machine.{Machine}
use b0s.Cpu.Switch.{Registers, Tasking, leaves, switch_stacks, sched_switch_to}
use b0s.Cpu.Switch.Words.{Holds}
use b0s.Cpu.Switch.Back.{
  CanSwitch, context_words, switched, switched-context, switched-restores, process_switch-leaves,
}

module _ {ℓ} {State : Type ℓ} (hw : Machine State) (rounds : ℕ) (c : Compiler) (directory : ℕ → ℕ)
    (ps : List ℕ) where
  -- One call: from `running` to the first ready process behind it.
  pub sched_switch_to-switched :
      (t : Tasking State)
      → IsPath t.sched.heads t.sched.current (t.sched.heads.next t.sched.current) ps
      → All (IsLive t.sched) ps
      → length ps < rounds
      → (t.sched.procs (first_ready t.sched ps)).pending_signals ≡ 0
      → t.sched.current ≢ first_ready t.sched ps
      → sched_switch_to hw rounds c directory t
        ≡ ok (leaves (switched hw directory t.sched.current (first_ready t.sched ps) t))
  unfolding sched_switch_to
  sched_switch_to-switched t path live lt quiet other =
      rw (sched_switch-quiet rounds c t.sched ps path live lt quiet) (
        ap ok (process_switch-leaves hw directory t.sched.current (first_ready t.sched ps) t other))

switched-sched {ℓ} :
    {State : Type ℓ} (hw : Machine State) (directory : ℕ → ℕ) (cur next : ℕ) (t : Tasking State)
    → (switched hw directory cur next t).sched ≡ t.sched
unfolding switched switch_stacks
switched-sched hw directory cur next t = refl

-- The first call of the scheduler, in a ring without zombies and with no signal pending, goes from
-- `running` to the first ready process p behind it. The next call, whatever was done between but to
-- the scheduler itself, finds `running` as it was: it goes to p again. It stores the stack pointer of
-- p as the context of `running`, whose own is lost, and takes the registers from the context that p
-- had before, where that still lies on its stack: p does not go on where it was.
pub sched_switch_to-stale {ℓ} :
    {State : Type ℓ} (hw : Machine State) (rounds : ℕ) (c : Compiler) (directory : ℕ → ℕ)
    (ps : List ℕ) (t t' later : Tasking State) (old : Registers) (ret : ℕ)
    → let p = first_ready t.sched ps in
      let context = (later.procs p).context_pointer in
      IsPath t.sched.heads t.sched.current (t.sched.heads.next t.sched.current) ps
      → All (IsLive t.sched) ps
      → length ps < rounds
      → (t.sched.procs p).pending_signals ≡ 0
      → t.sched.current ≢ p
      → sched_switch_to hw rounds c directory t ≡ ok (leaves t')
      → later.sched ≡ t'.sched
      → CanSwitch later.registers
      → context + 56 < 2 ^ 64
      → Holds later.memory context (context_words old ret)
      → (later.registers.rsp ≤ context) ⊎ (context + 104 ≤ later.registers.rsp)
      → (again : Tasking State) × (sched_switch_to hw rounds c directory later ≡ ok (leaves again))
        × ((again.procs t.sched.current).context_pointer ≡ later.registers.rsp - 48)
        × (again.registers ≡ record old { rsp = context + 56; rip = ret })
sched_switch_to-stale {State = State} hw rounds c directory ps t t' later old ret path live lt quiet
      other first kept can fits holds apart =
    let p = first_ready t.sched ps in
    let e : t' ≡ switched hw directory t.sched.current p t =
      cc (sched_switch_to-switched hw rounds c directory ps t path live lt quiet other) in
    let same : later.sched ≡ t.sched =
      kept
      ∙ ap (λ (u : Tasking State). u.sched) e
      ∙ switched-sched hw directory t.sched.current p t in
    let later' : Tasking State = record later { sched = t.sched } in
    let once_more =
      sched_switch_to-switched hw rounds c directory ps later' path live lt quiet other in
    let context = (later.procs p).context_pointer in
    (
      switched hw directory t.sched.current p later',
      ap (λ (sched : Sched). sched_switch_to hw rounds c directory (record later { sched = sched }))
            same
          ∙ once_more,
      switched-context hw directory t.sched.current p later' can,
      switched-restores hw directory t.sched.current p later' old ret context can refl fits holds
          (omega arith),
    )
