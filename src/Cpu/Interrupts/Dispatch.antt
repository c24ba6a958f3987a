-- ===== src/Cpu/Interrupts/Dispatch.antt =====
-- What each interrupt leads to.
use b0s.Base.{
  ℕ, ◌+◌, ◌^◌, ◌<◌, ◌≡◌, ◌≢◌, ◌⊎◌, refl, ap, sym, inl, inr, arith, List, All, length, ◌==◌,
  Bool-cases, ==→≡, ==→≢, false, ≡→==, ≢→==, ◌%◌,
}
use b0s.Base.Word.{add64, sub64, dm_v2p}
use b0s.Base.Result.{Result, ok, panic, page_fault, unexpected_interrupt}
use b0s.Bitmap.{Compiler}
use b0s.Memory.{load64}
use b0s.Tasks.Create.{kernel_stack_size}
use b0s.Tasks.Sched.Choice.{IsPath, first_ready, IsLive}
use b0s.Tasks.Sched.Quiet.{sched_switch-quiet}
use b0s.Cpu.Machine.{Machine, cli, paging_load, wrmsr}
use b0s.Cpu.Apic.{local_apic_eoi, eoi_register}
use b0s.Cpu.Gdt.{gdt_set_tss_rsp}
use b0s.Cpu.Switch.{
  Tasking, Flow, returns, leaves, process_switch, process_switch_asm, switch_stacks,
  mmu_switch_space, sched_switch_to,
}
use b0s.Cpu.Switch.Back.{switched}
use b0s.Cpu.Interrupts.{interrupt_handler, acknowledge, after_switch}

-- The end of an interrupt is told to the local controller by a 0 in its register.
abbrev pub acknowledged {ℓ} : {State : Type ℓ} → Machine State → State → State
acknowledged hw s = hw.write_msr eoi_register 0 0 s

eoi_lem {ℓ} :
    {State : Type ℓ} (hw : Machine State) (s : State) → local_apic_eoi hw s ≡ acknowledged hw s
unfolding local_apic_eoi wrmsr
eoi_lem hw s = refl

-- The process that the timer switches to starts on its own kernel stack and in its own space, from its
-- context, with interrupts off; and the end of the interrupt was not told.
pub record Switches {ℓ} {State : Type ℓ} (hw : Machine State) (directory : ℕ → ℕ) (p : ℕ)
    (t t' : Tasking State) : Type ℓ where
  pub registers :
      t'.registers ≡ (process_switch_asm (t.procs p).context_pointer t.memory t.registers).2
  pub stack : t'.segments.tss.rsp0 ≡ sub64 (add64 (t.procs p).kstack kernel_stack_size) 1
  pub machine :
      t'.state
      ≡ hw.load_directory (dm_v2p (directory (t.procs p).space)) (hw.allow_interrupts false t.state)

module _ {ℓ} {State : Type ℓ} (hw : Machine State) (rounds : ℕ) (c : Compiler) (directory : ℕ → ℕ)
    (rsp : ℕ) (t : Tasking State) (ps : List ℕ) where
  timer-ends :
      IsPath t.sched.heads t.sched.current (t.sched.heads.next t.sched.current) ps
      → All (IsLive t.sched) ps
      → length ps < rounds
      → (t.sched.procs (first_ready t.sched ps)).pending_signals ≡ 0
      → load64 t.memory (rsp + 120) ≡ 60
      → ((first_ready t.sched ps ≡ t.sched.current)
          × (interrupt_handler hw rounds c directory rsp t
              ≡ ok (
                  returns
                    (record t { state = acknowledged hw (hw.allow_interrupts false t.state) }))))
        ⊎ ((t' : Tasking State) × (first_ready t.sched ps ≢ t.sched.current)
            × (interrupt_handler hw rounds c directory rsp t ≡ ok (leaves t'))
            × Switches hw directory (first_ready t.sched ps) t t')
  unfolding interrupt_handler acknowledge after_switch sched_switch_to process_switch switch_stacks
      mmu_switch_space paging_load gdt_set_tss_rsp cli switched local_apic_eoi wrmsr
  timer-ends path live lt quiet vector =
      let p = first_ready t.sched ps in
      let chosen = sched_switch-quiet rounds c t.sched ps path live lt quiet in
      let is_timer = ≡→== (load64 t.memory (rsp + 120)) 60 vector in
      let masked : Tasking State = record t { state = hw.allow_interrupts false t.state } in
      let cur = t.sched.current in
      elim (Bool-cases (cur == p)) [
        | inl same ↦ inl (sym (==→≡ cur p same), rw (is_timer, chosen, same))
        | inr other ↦
            let ne = ==→≢ cur p other in
            let rsp0 : sub64 (add64 (t.procs p).kstack kernel_stack_size) 1 % 2 ^ 64
                ≡ sub64 (add64 (t.procs p).kstack kernel_stack_size) 1 =
              omega arith in
            let cr3 : dm_v2p (directory (t.procs p).space) % 2 ^ 64
                ≡ dm_v2p (directory (t.procs p).space) =
              omega arith in
            inr (
              switched hw directory cur p masked,
              (λ e. ne (sym e)),
              rw (is_timer, chosen, other),
              record {
                registers = refl;
                stack = rsp0;
                machine =
                    ap (λ (q : ℕ). hw.load_directory q (hw.allow_interrupts false t.state)) cr3;
              },
            )
      ]

  -- The other vectors, each with what it leads to.
  other-ends :
      load64 t.memory (rsp + 120) ≢ 60
      → (((load64 t.memory (rsp + 120) ≡ 0x80) ⊎ (load64 t.memory (rsp + 120) ≡ 0xff))
          × (interrupt_handler hw rounds c directory rsp t
              ≡ ok (returns (record t { state = acknowledged hw t.state }))))
        ⊎ ((load64 t.memory (rsp + 120) ≡ 14)
            × (interrupt_handler hw rounds c directory rsp t ≡ panic page_fault))
        ⊎ ((load64 t.memory (rsp + 120) ≢ 0x80)
            × (load64 t.memory (rsp + 120) ≢ 0xff)
            × (load64 t.memory (rsp + 120) ≢ 14)
            × (interrupt_handler hw rounds c directory rsp t ≡ panic unexpected_interrupt))
  unfolding interrupt_handler acknowledge local_apic_eoi wrmsr
  other-ends ne =
      let v = load64 t.memory (rsp + 120) in
      let timer = ≢→== v 60 ne in
      elim (Bool-cases (v == 0x80)) [
        | inl call ↦ inl (inl (==→≡ v 0x80 call), rw (timer, call))
        | inr no_call ↦ elim (Bool-cases (v == 14)) [
          | inl fault ↦ inr (inl (==→≡ v 14 fault, rw (timer, no_call, fault)))
          | inr no_fault ↦ elim (Bool-cases (v == 0xff)) [
            | inl spurious ↦
                inl (inr (==→≡ v 0xff spurious), rw (timer, no_call, no_fault, spurious))
            | inr none_of_them ↦ inr (
                inr (
                  ==→≢ v 0x80 no_call,
                  ==→≢ v 0xff none_of_them,
                  ==→≢ v 14 no_fault,
                  rw (timer, no_call, no_fault, none_of_them),
                ))
          ]
        ]
      ]

-- How the handler answers vector `v` in the state `t`, where `p` is the process that the scheduler
-- chooses.
pub data Answers {ℓ} {State : Type ℓ} (hw : Machine State) (directory : ℕ → ℕ) (p : ℕ)
    (t : Tasking State) (v : ℕ) (r : Result (Flow State)) : Type ℓ where
  stays :
      v ≡ 60
      → p ≡ t.sched.current
      → r ≡ ok (returns (record t { state = acknowledged hw (hw.allow_interrupts false t.state) }))
      → Answers hw directory p t v r
  switches :
      (t' : Tasking State)
      → v ≡ 60
      → p ≢ t.sched.current
      → r ≡ ok (leaves t')
      → Switches hw directory p t t'
      → Answers hw directory p t v r
  serves :
      (v ≡ 0x80) ⊎ (v ≡ 0xff)
      → r ≡ ok (returns (record t { state = acknowledged hw t.state }))
      → Answers hw directory p t v r
  faults : v ≡ 14 → r ≡ panic page_fault → Answers hw directory p t v r
  refuses :
      v ≢ 60
      → v ≢ 0x80
      → v ≢ 0xff
      → v ≢ 14
      → r ≡ panic unexpected_interrupt
      → Answers hw directory p t v r

-- In a ring without zombies, with more rounds than it has nodes and no signal pending for the process
-- p that the scheduler chooses, interrupt_handler answers the vector of its frame. The timer (60) turns
-- interrupts off; if p is running, the end of the interrupt is told to the local controller and the
-- handler returns; else the processor leaves for p, on whose kernel stack, in whose space and from
-- whose context it goes on, and the end of the interrupt is not told. A system call (128) and a
-- spurious interrupt (255) return with nothing done but that the end is told. A page fault (14) and
-- any other vector panic.
pub interrupt_handler-Answers {ℓ} :
    {State : Type ℓ} (hw : Machine State) (rounds : ℕ) (c : Compiler) (directory : ℕ → ℕ) (rsp : ℕ)
    (t : Tasking State) (ps : List ℕ)
    → IsPath t.sched.heads t.sched.current (t.sched.heads.next t.sched.current) ps
    → All (IsLive t.sched) ps
    → length ps < rounds
    → (t.sched.procs (first_ready t.sched ps)).pending_signals ≡ 0
    → Answers hw directory
        (first_ready t.sched ps)
        t
        (load64 t.memory (rsp + 120))
        (interrupt_handler hw rounds c directory rsp t)
interrupt_handler-Answers hw rounds c directory rsp t ps path live lt quiet =
    let v = load64 t.memory (rsp + 120) in
    elim (Bool-cases (v == 60)) [
      | inl timer ↦
          let e = ==→≡ v 60 timer in
          elim (timer-ends hw rounds c directory rsp t ps path live lt quiet e) [
            | inl (same, r) ↦ stays e same r
            | inr (t', other, r, s) ↦ switches t' e other r s
          ]
      | inr no_timer ↦
          let ne = ==→≢ v 60 no_timer in
          elim (other-ends hw rounds c directory rsp t ps ne) [
            | inl (served, r) ↦ serves served r
            | inr (inl (fault, r)) ↦ faults fault r
            | inr (inr (no_call, no_spurious, no_fault, r)) ↦
                refuses ne no_call no_spurious no_fault r
          ]
    ]
