-- ===== src/Cpu/Interrupts/Entry.antt =====
-- What the first stage of the interrupts leaves.
use b0s.Base.{ℕ, ◌^◌, ◌<◌, ◌≡◌, ◌⊎◌, ap, ◌∙◌, sym, inl, inr, true}
use b0s.Base.Bits.{bit}
use b0s.Base.Result.{ok, panic, missing_hardware}
use b0s.Tasks.Create.{user_cs, user_ss}
use b0s.Cpu.Machine.{Machine, cpuid, rdmsr, wrmsr}
use b0s.Cpu.Pic.{pic_disable}
use b0s.Cpu.Pic.Chips.{Chips, is_known, port_write, disabled, pic_disable-masks}
use mathlib.Core.Path.{subst}
use b0s.Cpu.Apic.{ia32_apic_base_msr, spurious_interrupt_vector_register}
use b0s.Cpu.Apic.Start.{local_apic_init-ends}
use b0s.Cpu.Descriptors.{Idt, idt_init}
use b0s.Cpu.Descriptors.Fields.{handler_of, idt_init-handler}
use b0s.Cpu.Gdt.{Segments, gdt_at_start, gdt_reload}
use b0s.Cpu.Gdt.Selectors.{HasKind, HasTask, code, data_only, gdt_reload-HasKind}
use b0s.Cpu.Interrupts.{interrupts_entry_init}

-- What the stage sets up: the segments, vector `v` of the interrupt table, and the old controllers.
pub record IsEntered {ℓ} {State : Type ℓ} (chips : State → Chips) (tss_address v handler : ℕ)
    (g : Segments) (idt : Idt) (s : State) : Type 0 where
  pub kernel_code : HasKind g.gdt 8 code
  pub kernel_data : HasKind g.gdt 16 data_only
  pub user_code : HasKind g.gdt user_cs code
  pub user_data : HasKind g.gdt user_ss data_only
  pub task : HasTask g.gdt 40 tss_address 111
  pub gate : (handler_of (idt v) ≡ handler) × ((idt v).attributes ≡ 0x8e)
  -- The gate's selector is the kernel's code segment.
  pub gate_segment : HasKind g.gdt (idt v).selector code
  pub quiet : chips s ≡ record { master = disabled 32 4; slave = disabled 40 2 }

-- On a machine whose old controllers take the bytes of an initialisation and of a mask as documented,
-- and are not touched by the load of the interrupt table, interrupts_entry_init panics exactly when the
-- processor reports no local controller (bit 9 of edx) or none with registers of its own (bit 21 of
-- ecx). Otherwise it returns: the selectors of the kernel (8, 16) and of its processes (27, 35) name
-- present segments of their kind with their privilege, 40 names the task state segment, entry v of the
-- interrupt table is a present gate that leads through the kernel's code segment to the handler of v,
-- and the old controllers are initialised with every line masked. All of that holds before interrupts
-- are allowed, which comes last.
pub interrupts_entry_init-IsEntered {ℓ} :
    {State : Type ℓ} (hw : Machine State) (stack_top_64 idt_address : ℕ) (idt_vectors : ℕ → ℕ)
    (g : Segments) (idt : Idt) (s : State) (v : ℕ) (chips : State → Chips)
    → g.tss_address < 2 ^ 64
    → g.gdt_address < 2 ^ 64
    → idt_address < 2 ^ 64
    → g.gdt ≡ gdt_at_start
    → v < 256
    → idt_vectors v < 2 ^ 64
    → ((port b : ℕ)
        → is_known port b ≡ true
        → (s' : State) → chips (hw.out_byte port b s') ≡ port_write port b (chips s'))
    → ((limit base : ℕ) (s' : State) → chips (hw.load_idt limit base s') ≡ chips s')
    → let ((eax, ebx, ecx, edx), s') = cpuid hw 1 0 (gdt_reload hw stack_top_64 g s).1 in
      ((interrupts_entry_init hw stack_top_64 idt_address idt_vectors g idt s
          ≡ panic missing_hardware)
        × ((bit edx 9 ≡ 0) ⊎ (bit ecx 21 ≡ 0)))
      ⊎ ((bit edx 9 ≡ 1)
          × (bit ecx 21 ≡ 1)
          × (g' : Segments) × (idt' : Idt) × (last : State) × (interrupts_entry_init hw stack_top_64
                idt_address idt_vectors g idt s
              ≡ ok (g', idt', hw.allow_interrupts true last))
          × IsEntered chips g.tss_address v (idt_vectors v) g' idt' last)
unfolding interrupts_entry_init
interrupts_entry_init-IsEntered hw stack_top_64 idt_address idt_vectors g idt s v chips tss_fits
      gdt_fits idt_fits start lt fits wired idt_apart =
    let (g', s₁) = gdt_reload hw stack_top_64 g s in
    let (kernel_code, kernel_data, user_code, user_data, task, rsp0, loaded) =
      gdt_reload-HasKind hw stack_top_64 g s tss_fits gdt_fits start in
    elim (local_apic_init-ends hw s₁) [
      | inl (absent, why) ↦ inl (rw absent, why)
      | inr (flags, controller, registers, _, there) ↦
          let (base, s₂) = rdmsr hw ia32_apic_base_msr (cpuid hw 1 0 s₁).1 in
          let s₃ =
            wrmsr hw spurious_interrupt_vector_register 0x1ff
              (wrmsr hw ia32_apic_base_msr flags s₂) in
          let s₄ = pic_disable hw s₃ in
          let (handler, attributes, selector, allowed) =
            idt_init-handler hw idt_address idt_vectors idt s₄ v lt fits idt_fits in
          let idt' = (idt_init hw idt_address idt_vectors idt s₄).0 in
          inr (
            controller,
            registers,
            g',
            idt',
            hw.load_idt 4095 idt_address s₄,
            rw there (ap (λ (s' : _). ok (g', idt', s')) allowed),
            record {
              kernel_code = kernel_code;
              kernel_data = kernel_data;
              user_code = user_code;
              user_data = user_data;
              task = task;
              gate = (handler, attributes);
              gate_segment = subst (λ (n : ℕ). HasKind g'.gdt n code) (sym selector) kernel_code;
              quiet = idt_apart 4095 idt_address s₄ ∙ pic_disable-masks hw chips wired s₃;
            },
          )
    ]
