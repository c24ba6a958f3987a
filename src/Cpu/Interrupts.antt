-- ===== src/Cpu/Interrupts.antt =====
-- `interrupt_handler` of kernel/arch/x86_64/interrupts/idt.c, the two stages of
-- kernel/arch/x86_64/interrupts/interrupts.c, and `sched_start` of
-- kernel/arch/x86_64/multitasking/sched.c.
pub mod Dispatch
pub mod Entry
use b0s.Base.{ℕ, ◌+◌, ◌==◌, if◌then◌else◌, Option}
use b0s.Base.Result.{Result, ok, panic, ◌>>=◌, page_fault, unexpected_interrupt}
use b0s.Bitmap.{Compiler}
use b0s.Memory.{load64}
use b0s.Vmm.Objects.{Objects}
use b0s.Vmm.Space.{VmmSpace}
use b0s.Cpu.Machine.{Machine, cli}
use b0s.Cpu.Pic.{pic_disable}
use b0s.Cpu.Hpet.{Hpet, hpet_init}
use b0s.Cpu.Apic.{
  local_apic_init, local_apic_eoi, local_apic_periodic_timer, local_apic_timer_calibrate,
  io_apic_init, idt_timer_int, idt_spurious_int,
}
use b0s.Cpu.Descriptors.{Idt, idt_init}
use b0s.Cpu.Gdt.{Segments, gdt_reload}
use b0s.Cpu.Switch.{Tasking, Flow, returns, leaves, sched_switch_to}

abbrev pub idt_page_fault : ℕ
idt_page_fault = 14

abbrev pub idt_syscall_int : ℕ
idt_syscall_int = 0x80

-- The offset of `vector_number` in `struct trap_frame`.
abbrev pub vector_number_offset : ℕ
vector_number_offset = 120

-- What `interrupts_init` sets: `base` and `clock` of the HPET, `timer_ticks_per_10ms`,
-- `io_apic_base` and `madt`, with the kernel's space.
pub record Timers : Type 0 where
  pub hpet : Hpet
  pub timer_ticks_per_10ms : ℕ
  pub io_apic_base : ℕ
  pub madt : ℕ
  pub space : VmmSpace
  pub objects : Objects

module _ {ℓ} {State : Type ℓ} (hw : Machine State) where
  -- The end of the handler, `local_apic_eoi` before the `return`.
  unfoldable pub acknowledge : Tasking State → Flow State
  acknowledge t = returns (record t { state = local_apic_eoi hw t.state })

  -- What follows the call of `sched_switch`: when the switch leaves, it is done when another one comes
  -- back.
  unfoldable pub after_switch : Flow State → Flow State
  unfolding acknowledge
  after_switch (returns t) = acknowledge t
  after_switch (leaves t) = leaves t

  -- `rsp` is the address of the frame that the stub in idt.asm left. `syscall` is empty.
  unfoldable pub interrupt_handler :
      ℕ → Compiler → (ℕ → ℕ) → ℕ → Tasking State → Result (Flow State)
  unfolding after_switch
  interrupt_handler rounds c directory rsp t =
      let vector_number = load64 t.memory (rsp + vector_number_offset) in
      let preempted =
        sched_switch_to hw rounds c directory (record t { state = cli hw t.state }) >>= λ flow.
        ok (after_switch flow) in
      if vector_number == idt_timer_int
      then preempted
      else (if vector_number == idt_syscall_int
          then ok (acknowledge t)
          else (if vector_number == idt_page_fault
              then panic page_fault
              else (if vector_number == idt_spurious_int
                  then ok (acknowledge t)
                  else panic unexpected_interrupt)))

  -- The statics `tss`, `gdt` and `idt`, with the linker's addresses; `stack_top_64` is as for
  -- `gdt_reload`.
  unfoldable pub interrupts_entry_init :
      ℕ → ℕ → (ℕ → ℕ) → Segments → Idt → State → Result (Segments × Idt × State)
  interrupts_entry_init stack_top_64 idt_address idt_vectors g idt s =
      let (g', s₁) = gdt_reload hw stack_top_64 g s in
      local_apic_init hw s₁ >>= λ s₂.
      let (idt', s₃) = idt_init hw idt_address idt_vectors idt (pic_disable hw s₂) in
      ok (g', idt', s₃)

  -- `hpet_signature` and `madt_signature` are the addresses of "HPET" and "APIC"; `table` is that of
  -- the static `hpet`.
  unfoldable pub interrupts_init :
      ℕ → Compiler → ℕ → Option ℕ → ℕ → ℕ → ℕ → VmmSpace → Objects → State → Result (Timers × State)
  interrupts_init rounds c rsdt madt hpet_signature madt_signature table kspace o s =
      hpet_init hw c rsdt hpet_signature table kspace o s >>= λ (hpet, kspace', o', s₁).
      local_apic_timer_calibrate hw rounds hpet s₁ >>= λ (ticks, s₂).
      io_apic_init c rsdt madt madt_signature kspace' o' >>= λ (base, madt', kspace'', o''). ok (
        record {
          hpet = hpet;
          timer_ticks_per_10ms = ticks;
          io_apic_base = base;
          madt = madt';
          space = kspace'';
          objects = o'';
        },
        s₂,
      )

  unfoldable pub interrupts_timer_start : ℕ → State → State
  interrupts_timer_start timer_ticks_per_10ms s =
      local_apic_periodic_timer hw timer_ticks_per_10ms s

  unfoldable pub sched_start : ℕ → State → State
  sched_start timer_ticks_per_10ms s = local_apic_periodic_timer hw timer_ticks_per_10ms s
