-- ===== src/Cpu.antt =====
-- Tables that the processor reads: kernel/arch/x86_64/interrupts/idt.c and
-- kernel/arch/x86_64/mm/gdt.c.
pub mod Machine
pub mod Pic
pub mod Hpet
pub mod Apic
pub mod Descriptors
pub mod Gdt
pub mod Switch
pub mod Interrupts
mod Tests
