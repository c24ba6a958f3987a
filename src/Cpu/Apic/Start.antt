-- ===== src/Cpu/Apic/Start.antt =====
-- What `local_apic_init` asks of the processor and what it switches on.
use b0s.Base.{
  ℕ, ◌^◌, ◌≡◌, ◌⊎◌, inl, inr, arith, Bool-cases, ◌==◌, ==→≡, if◌then◌else◌, ◌||◌, ◌∙◌, bit_or,
}
use b0s.Base.Bits.{bit, bit-set_one, bit-lt-two}
use b0s.Base.Mask.{mask_test}
use b0s.Base.Result.{ok, panic, missing_hardware}
use b0s.Cpu.Machine.{Machine, cpuid, rdmsr, wrmsr}
use b0s.Cpu.Apic.{local_apic_init, ia32_apic_base_msr, spurious_interrupt_vector_register}

-- The register's old value with the bits 10 and 11.
pub Enables : ℕ → ℕ → Type 0
Enables base flags = (k : ℕ) → bit flags k ≡ (if k == 10 || k == 11 then 1 else bit base k)

flags-Enables : (base : ℕ) → Enables base (bit_or (bit_or base 1024) 2048)
unfolding Enables
flags-Enables base k =
    let first = bit-set_one base 10 k (omega arith) in
    let second = bit-set_one (bit_or base (2 ^ 10)) 11 k (omega arith) in
    second ∙ ground (arith, first)

-- local_apic_init panics when the processor reports no controller (bit 9 of edx) or none with
-- registers of its own (bit 21 of ecx). Otherwise it writes the old base register with the bits 10
-- and 11 and every other bit as it was, and then 0x1ff, the vector 255 and the bit that switches the
-- controller on, to the register of the spurious vector.
pub local_apic_init-ends {ℓ} :
    {State : Type ℓ} (hw : Machine State) (s : State)
    → let ((eax, ebx, ecx, edx), s₁) = cpuid hw 1 0 s in
      let (base, s₂) = rdmsr hw ia32_apic_base_msr s₁ in
      ((local_apic_init hw s ≡ panic missing_hardware) × ((bit edx 9 ≡ 0) ⊎ (bit ecx 21 ≡ 0)))
      ⊎ ((flags : ℕ) × (bit edx 9 ≡ 1)
          × (bit ecx 21 ≡ 1)
          × Enables base flags
          × (local_apic_init hw s
              ≡ ok (
                  wrmsr hw spurious_interrupt_vector_register 0x1ff
                    (wrmsr hw ia32_apic_base_msr flags s₂))))
unfolding local_apic_init
local_apic_init-ends hw s =
    let ((eax, ebx, ecx, edx), s₁) = cpuid hw 1 0 s in
    let (base, s₂) = rdmsr hw ia32_apic_base_msr s₁ in
    let controller = mask_test edx 9 in
    let registers = mask_test ecx 21 in
    elim (Bool-cases (bit edx 9 == 0)) [
      | inl absent ↦ inl (rw (controller, absent), inl (==→≡ _ 0 absent))
      | inr present ↦ elim (Bool-cases (bit ecx 21 == 0)) [
        | inl absent ↦ inl (rw (controller, present, registers, absent), inr (==→≡ _ 0 absent))
        | inr there ↦ inr (
          bit_or (bit_or base 1024) 2048,
          ground (arith, bit-lt-two edx 9),
          ground (arith, bit-lt-two ecx 21),
          flags-Enables base,
          rw (controller, present, registers, there),
        )
      ]
    ]
