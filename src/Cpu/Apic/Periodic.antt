-- ===== src/Cpu/Apic/Periodic.antt =====
-- How the timer that interrupts every 10 milliseconds is started.
use Prim.Native.Nat.{max}
use b0s.Base.{ℕ, ◌^◌, ◌<◌, ◌≡◌, ◌∙◌, arith, refl, bit_and, bit_or, ◌==◌, if◌then◌else◌}
use b0s.Base.Word.{u32, not64}
use b0s.Base.Bits.{bit, bit-clear, bit-set_one, bit-bit_or, bit_low}
use b0s.Cpu.Machine.{Machine, rdmsr, wrmsr}
use b0s.Cpu.Apic.{
  local_apic_periodic_timer, lvt_timer_register, initial_count_register, lvt_mask, lvt_periodic,
  idt_timer_int,
}

-- Bit `k` of the timer's entry that was `lvt`, with the mask cleared, the period set and the vector
-- 60 joined to it.
abbrev pub started : ℕ → ℕ → ℕ
started lvt k = max (if k == 17 then 1 else (if k == 16 then 0 else bit lvt k)) (bit 60 k)

started-bits :
    (lvt k : ℕ)
    → k < 32
    → bit (u32 (bit_or (bit_or (bit_and lvt (not64 lvt_mask)) lvt_periodic) idt_timer_int)) k
      ≡ started lvt k
started-bits lvt k lt =
    let unmasked = bit_and lvt (not64 (2 ^ 16)) in
    let periodic = bit_or unmasked (2 ^ 17) in
    let cut = bit_low 32 (bit_or periodic 60) k lt in
    let joined = bit-bit_or periodic 60 k in
    let set = bit-set_one unmasked 17 k (omega arith) in
    let cleared = bit-clear lvt 16 k (omega arith) (omega arith) in cut ∙ joined ∙ rw (set, cleared)

-- local_apic_periodic_timer writes the timer's entry with the bit of the period set, the mask
-- cleared and the bits of the vector 60 joined to those that were there, every other of its 32 bits
-- as it was; and then it writes the count of 10 milliseconds.
pub local_apic_periodic_timer-bits {ℓ} :
    {State : Type ℓ} (hw : Machine State) (ticks : ℕ) (s : State)
    → let (lvt, s') = rdmsr hw lvt_timer_register s in
      (reg : ℕ) × ((k : ℕ) → k < 32 → bit reg k ≡ started lvt k)
      × (local_apic_periodic_timer hw ticks s
          ≡ wrmsr hw initial_count_register ticks (wrmsr hw lvt_timer_register reg s'))
unfolding local_apic_periodic_timer
local_apic_periodic_timer-bits hw ticks s =
    let (lvt, s') = rdmsr hw lvt_timer_register s in
    (
      u32 (bit_or (bit_or (bit_and lvt (not64 lvt_mask)) lvt_periodic) idt_timer_int),
      started-bits lvt,
      refl,
    )
