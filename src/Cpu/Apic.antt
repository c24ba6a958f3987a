-- ===== src/Cpu/Apic.antt =====
-- kernel/arch/x86_64/interrupts/apic.c and apic.h: the local controller with its timer, and the one
-- for the devices.
pub mod Start
pub mod Periodic
use b0s.Base.{ℕ, ◌+◌, ◌==◌, if◌then◌else◌, bit_and, bit_or, Option, none, some}
use b0s.Base.Word.{u8, u32, add64, sub64, not64, dm_p2v}
use b0s.Base.Result.{Result, ok, panic, panic_if, ◌>>=◌, missing_hardware, map_failed}
use b0s.Memory.{load}
use b0s.Bitmap.{Compiler}
use b0s.Firmware.{acpi_madt_find}
use b0s.Vmm.Init.{page_kernel_rw}
use b0s.Vmm.Objects.{Objects}
use b0s.Vmm.Space.{VmmSpace, vmm_map}
use b0s.Cpu.Machine.{Machine, cpuid, rdmsr, wrmsr, volatile_read32, volatile_write32}
use b0s.Cpu.Hpet.{Hpet, hpet_sleep}

abbrev pub ia32_apic_base_msr : ℕ
ia32_apic_base_msr = 0x1B

abbrev pub eoi_register : ℕ
eoi_register = 0x80b

abbrev pub spurious_interrupt_vector_register : ℕ
spurious_interrupt_vector_register = 0x80f

abbrev pub lvt_timer_register : ℕ
lvt_timer_register = 0x832

abbrev pub initial_count_register : ℕ
initial_count_register = 0x838

abbrev pub current_counter_register : ℕ
current_counter_register = 0x839

abbrev pub divide_configuration_register : ℕ
divide_configuration_register = 0x83e

abbrev timer_divide_by_2 : ℕ
timer_divide_by_2 = 0

-- `1 << 16` and `1 << 17`
abbrev pub lvt_mask : ℕ
lvt_mask = 65536

abbrev pub lvt_periodic : ℕ
lvt_periodic = 131072

abbrev pub io_apic_register_data : ℕ
io_apic_register_data = 0x10

abbrev pub idt_timer_int : ℕ
idt_timer_int = 60

abbrev pub idt_spurious_int : ℕ
idt_spurious_int = 0xff

abbrev pub u32_max : ℕ
u32_max = 0xffffffff

abbrev acpi_madt_io_apic : ℕ
acpi_madt_io_apic = 1

-- The offset of `address` in `struct acpi_madt_io_apic`.
abbrev io_apic_address : ℕ
io_apic_address = 4

module _ {ℓ} {State : Type ℓ} (hw : Machine State) where
  -- With the static `io_apic_base`. In the release build the assertion is empty.
  unfoldable pub io_apic_write_register : ℕ → ℕ → ℕ → State → State
  io_apic_write_register io_apic_base offset val s =
      volatile_write32 hw (add64 io_apic_base io_apic_register_data) val
        (volatile_write32 hw io_apic_base (u8 offset) s)

  unfoldable pub io_apic_read_register : ℕ → ℕ → State → ℕ × State
  io_apic_read_register io_apic_base offset s =
      volatile_read32 hw (add64 io_apic_base io_apic_register_data)
        (volatile_write32 hw io_apic_base (u8 offset) s)

  unfoldable pub local_apic_eoi : State → State
  local_apic_eoi s = wrmsr hw eoi_register 0 s

  -- With the static `timer_ticks_per_10ms`; `reg` is a u32.
  unfoldable pub local_apic_periodic_timer : ℕ → State → State
  local_apic_periodic_timer timer_ticks_per_10ms s =
      let (lvt, s₁) = rdmsr hw lvt_timer_register s in
      let unmasked = bit_and lvt (not64 lvt_mask) in
      let reg = u32 (bit_or (bit_or unmasked lvt_periodic) idt_timer_int) in
      let s₂ = wrmsr hw lvt_timer_register reg s₁ in
      wrmsr hw initial_count_register timer_ticks_per_10ms s₂

  -- The part of `local_apic_timer_calibrate` before the sleep: the divider, and the count from the
  -- highest value down.
  unfoldable pub arm_timer : State → State
  arm_timer s =
      let (config, s₁) = rdmsr hw divide_configuration_register s in
      let conf = u32 config in
      let s₂ = wrmsr hw divide_configuration_register (bit_or conf timer_divide_by_2) s₁ in
      wrmsr hw initial_count_register u32_max s₂

  -- Gives `timer_ticks_per_10ms`; the rounds are those of `hpet_sleep`.
  unfoldable pub local_apic_timer_calibrate : ℕ → Hpet → State → Result (ℕ × State)
  local_apic_timer_calibrate rounds hpet s = hpet_sleep hw rounds hpet 10 (arm_timer s) >>= λ s₁.
      let (current, s₂) = rdmsr hw current_counter_register s₁ in
      let timer_ticks_per_10ms = u32 (sub64 u32_max current) in
      ok (timer_ticks_per_10ms, wrmsr hw initial_count_register 0 s₂)

  -- `1 << 9`, `1 << 21`, `1 << 10`, `1 << 11`, `1 << 8`
  unfoldable pub local_apic_init : State → Result State
  local_apic_init s =
      let ((eax, ebx, ecx, edx), s₁) = cpuid hw 1 0 s in
      let (base, s₂) = rdmsr hw ia32_apic_base_msr s₁ in
      let flags = bit_or (bit_or base 1024) 2048 in
      let s₃ = wrmsr hw ia32_apic_base_msr flags s₂ in
      panic_if (bit_and edx 512 == 0) missing_hardware (
        panic_if (bit_and ecx 2097152 == 0) missing_hardware
          (ok (wrmsr hw spurious_interrupt_vector_register (bit_or 256 idt_spurious_int) s₃)))

-- `rsdt` and `madt` are those of kernel/drivers/acpi/acpi.c, and `signature` the address of "APIC".
-- Gives `io_apic_base` and the static `madt`.
unfoldable pub io_apic_init :
    (c : Compiler) → ℕ → Option ℕ → ℕ → VmmSpace → Objects → Result (ℕ × ℕ × VmmSpace × Objects)
io_apic_init c rsdt madt signature kspace o =
    acpi_madt_find o.pmm.memory rsdt signature madt acpi_madt_io_apic >>= λ (found, madt').
    elim found [
      | none ↦ panic missing_hardware
      | some io_apic ↦
          let address = load 4 o.pmm.memory (io_apic + io_apic_address) in
          vmm_map c kspace (dm_p2v address) address page_kernel_rw o >>= λ (base, kspace', o').
          panic_if (base == 0) map_failed (ok (base, madt', kspace', o'))
    ]
