-- ===== src/Cpu/Tests/Devices.antt =====
-- The timers and the controllers on a small machine.
use b0s.Base.{ℕ, ◌+◌, ◌*◌, ◌<◌, ◌^◌, ◌≡◌, ◌⊎◌, refl, arith}
use b0s.Base.Bits.{bit}
use b0s.Base.Result.{ok, panic, missing_hardware}
use b0s.Cpu.Machine.{rdmsr, wrmsr, cpuid}
use b0s.Cpu.Hpet.{Hpet}
use b0s.Cpu.Apic.{local_apic_periodic_timer, initial_count_register, lvt_timer_register}
use b0s.Cpu.Apic.Periodic.{started, local_apic_periodic_timer-bits}
use b0s.Cpu.Descriptors.{Idt, idt_entry}
use b0s.Cpu.Gdt.{Segments, Tss, gdt_at_start}
use b0s.Cpu.Interrupts.{interrupts_entry_init}
use b0s.Cpu.Interrupts.Entry.{IsEntered, interrupts_entry_init-IsEntered}
use b0s.Cpu.Tests.Board.{Board, board, at_start, clock_base}

-- A clock of a millisecond for each tick.
abbrev hpet : Hpet
hpet = record { base = clock_base; clock = 1000000000000 }

periodic_timer_test :
    let (lvt, s') = rdmsr board lvt_timer_register at_start in
    (reg : ℕ) × ((k : ℕ) → k < 32 → bit reg k ≡ started lvt k)
    × (local_apic_periodic_timer board 1000 at_start
        ≡ wrmsr board initial_count_register 1000 (wrmsr board lvt_timer_register reg s'))
periodic_timer_test = local_apic_periodic_timer-bits board 1000 at_start

abbrev tss : Tss
tss = record {
  reserved0 = 0;
  rsp0 = 0;
  rsp1 = 0;
  rsp2 = 0;
  reserved1 = 0;
  reserved2 = 0;
  ist1 = 0;
  ist2 = 0;
  ist3 = 0;
  ist4 = 0;
  ist5 = 0;
  ist6 = 0;
  ist7 = 0;
  reserved3 = 0;
  reserved4 = 0;
  io_bitmap_offset = 0;
}

abbrev segments : Segments
segments = record {
  gdt = gdt_at_start;
  tss = tss;
  gdt_address = 0xffffffff80300000;
  tss_address = 0xffffffff80310000;
}

-- A stub of 16 bytes for each vector.
abbrev vectors : ℕ → ℕ
vectors v = 0xffffffff80100000 + 16 * v

interrupts_entry_init-IsEntered_example :
    ((interrupts_entry_init board 0x9000 0xffffffff80320000 vectors segments
          (λ v. idt_entry 0 0)
          at_start
        ≡ panic missing_hardware)
      × ((bit (2 ^ 9) 9 ≡ 0) ⊎ (bit (2 ^ 21) 21 ≡ 0)))
    ⊎ ((bit (2 ^ 9) 9 ≡ 1)
        × (bit (2 ^ 21) 21 ≡ 1)
        × (g' : Segments) × (idt' : Idt) × (last : Board) × (interrupts_entry_init board 0x9000
              0xffffffff80320000 vectors segments
              (λ v. idt_entry 0 0)
              at_start
            ≡ ok (g', idt', last))
        × IsEntered (λ s. s.chips) 0xffffffff80310000 60 (vectors 60) g' idt' last)
unfolding cpuid
interrupts_entry_init-IsEntered_example =
    interrupts_entry_init-IsEntered board 0x9000 0xffffffff80320000 vectors segments
      (λ v. idt_entry 0 0) at_start 60 (λ s. s.chips) (omega arith) (omega arith) (omega arith) refl
      (omega arith) (omega arith) (λ port b known s. refl) (λ limit base s. refl)
