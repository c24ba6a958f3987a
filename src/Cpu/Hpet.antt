-- ===== src/Cpu/Hpet.antt =====
-- kernel/arch/x86_64/timers/hpet.c: the clock that the timer is measured with.
pub mod Sleep
use b0s.Base.{ℕ, zero, suc, ◌+◌, ◌*◌, ◌/◌, ◌^◌, ◌==◌, ltb, leb, if◌then◌else◌, not, ◌||◌}
use b0s.Base.Word.{u32, add64, shr64, is_aligned, page_size, dm_p2v}
use b0s.Base.Result.{
  Result, ok, panic, panic_if, ◌>>=◌, diverges, undefined, invalid_table, map_failed,
}
use b0s.Memory.{load64}
use b0s.Bitmap.{Compiler}
use b0s.Firmware.{acpi_copy_table}
use b0s.Vmm.Init.{page_kernel_rw}
use b0s.Vmm.Objects.{Objects}
use b0s.Vmm.Space.{VmmSpace, vmm_map}
use b0s.Cpu.Machine.{Machine, volatile_read64, volatile_write64}

-- The static `base` and `clock` (femtoseconds).
pub record Hpet : Type 0 where
  pub base : ℕ
  pub clock : ℕ

abbrev hpet_general_capabilities : ℕ
hpet_general_capabilities = 0

abbrev hpet_general_configuration : ℕ
hpet_general_configuration = 0x10

abbrev pub hpet_main_counter_value : ℕ
hpet_main_counter_value = 0xf0

abbrev hpet_cap_counter_clock_offset : ℕ
hpet_cap_counter_clock_offset = 32

abbrev hpet_configuration_on : ℕ
hpet_configuration_on = 1

abbrev hpet_configuration_off : ℕ
hpet_configuration_off = 0

-- `(milliseconds * 1000000000000) / clock`, of type long: the product may not pass 2 ^ 63.
unfoldable pub hpet_ticks : ℕ → ℕ → Result ℕ
hpet_ticks milliseconds clock =
    let product = milliseconds * 1000000000000 in
    panic_if (leb (2 ^ 63) product || clock == 0) undefined (ok (product / clock))

module _ {ℓ} {State : Type ℓ} (hw : Machine State) where
  -- The loop of `hpet_sleep`, with a round for each read.
  unfoldable pub wait_for : ℕ → ℕ → ℕ → State → Result State
  wait_for zero counter target s = panic diverges
  wait_for (suc rounds) counter target s =
      let (value, s') = volatile_read64 hw counter s in
      let further = wait_for rounds counter target s' in if ltb value target then further else ok s'

  unfoldable pub hpet_sleep : ℕ → Hpet → ℕ → State → Result State
  hpet_sleep rounds hpet milliseconds s =
      let counter = add64 hpet.base hpet_main_counter_value in
      let (start, s') = volatile_read64 hw counter s in
      hpet_ticks (u32 milliseconds) hpet.clock >>= λ ticks.
      wait_for rounds counter (add64 start ticks) s'

  -- The offset of `address` in `struct acpi_hpet`.
  abbrev hpet_address : ℕ
  hpet_address = 44

  -- `table` is the address of the static `hpet`, and `signature` that of "HPET".
  unfoldable pub hpet_init :
      (c : Compiler)
      → ℕ
      → ℕ
      → ℕ
      → VmmSpace
      → Objects
      → State
      → Result (Hpet × VmmSpace × Objects × State)
  hpet_init c rsdt signature table kspace o s =
      let (missing, memory) = acpi_copy_table o.pmm.memory rsdt signature table in
      let copied : Objects = record o { pmm = record o.pmm { memory = memory } } in
      let address = load64 memory (table + hpet_address) in
      panic_if (not (missing == 0)) invalid_table (
        panic_if (not (is_aligned address page_size)) invalid_table (
          vmm_map c kspace (dm_p2v address) address page_kernel_rw copied >>= λ (base, kspace', o').
          panic_if (base == 0) map_failed (
            let (capabilities, s₁) = volatile_read64 hw (add64 base hpet_general_capabilities) s in
            let clock = u32 (shr64 capabilities hpet_cap_counter_clock_offset) in
            let s₂ =
              volatile_write64 hw (add64 base hpet_general_configuration) hpet_configuration_off
                s₁ in
            let s₃ = volatile_write64 hw (add64 base hpet_main_counter_value) 0 s₂ in
            let s₄ =
              volatile_write64 hw (add64 base hpet_general_configuration) hpet_configuration_on
                s₃ in
            ok (record { base = base; clock = clock }, kspace', o', s₄))))
