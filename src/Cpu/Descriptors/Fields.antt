-- ===== src/Cpu/Descriptors/Fields.antt =====
-- The split addresses of the descriptors come together again.
use b0s.Base.{
  ℕ, zero, suc, ◌+◌, ◌*◌, ◌/◌, ◌%◌, ◌^◌, ◌<◌, ◌≤◌, ◌≡◌, refl, inl, inr, arith, ltb, leb, ◌==◌,
  if◌then◌else◌, ◌&&◌, Bool-cases, ==→≡, ap, ◌∙◌, true,
}
use b0s.Base.Word.{u8}
use b0s.Base.Align.{bit_and_low}
use b0s.Cpu.Machine.{Machine, lidt, sti}
use b0s.Cpu.Descriptors.{IdtEntry, idt_entry, Idt, idt_set_entry, idt_init_loop, idt_init}
use b0s.Cpu.Descriptors.{TssEntry, tss_entry, idt_gate, idt_size}

-- The handler's address, as the processor reads it from an entry.
abbrev pub handler_of : IdtEntry → ℕ
handler_of d = d.offset0_15 + d.offset16_31 * 2 ^ 16 + d.offset32_63 * 2 ^ 32

abbrev pub base_of : TssEntry → ℕ
base_of d = d.base0_15 + d.base16_23 * 2 ^ 16 + d.base24_31 * 2 ^ 24 + d.base32_63 * 2 ^ 32

-- The handler of an entry can be read back from it, and the entry is the present gate of the
-- given type in the kernel's code segment.
idt_entry-handler :
    (handler type : ℕ)
    → handler < 2 ^ 64
    → type < 256
    → let d = idt_entry handler type in
      (handler_of d ≡ handler) × (d.attributes ≡ type) × (d.selector ≡ 8)
unfolding idt_entry
idt_entry-handler handler type lt t = (
  omega (
    arith,
    bit_and_low 64 16 handler lt,
    bit_and_low 64 16 (handler / 2 ^ 16) (omega arith),
    bit_and_low 64 32 (handler / 2 ^ 32) (omega arith),
  ),
  omega arith,
  refl,
)

idt_init_loop-at :
    (left i : ℕ) (idt_vectors : ℕ → ℕ) (idt : Idt) (v : ℕ)
    → i + left ≤ 256
    → idt_init_loop left i idt_vectors idt v
      ≡ (if leb i v && ltb v (i + left) then idt_entry (idt_vectors v) idt_gate else idt v)
unfolding idt_init_loop idt_set_entry
idt_init_loop-at zero i idt_vectors idt v h = ground arith
idt_init_loop-at (suc left) i idt_vectors idt v h =
    let byte : i % 2 ^ 8 ≡ i = omega arith in
    let idt' = idt_set_entry (u8 i) (idt_vectors i) idt_gate idt in
    elim (Bool-cases (v == i)) [
      | inl same ↦
          let e : v ≡ i = ==→≡ v i same in
          rw (byte, e)
            (ground (arith, idt_init_loop-at left (i + 1) idt_vectors idt' i (omega arith)))
      | inr other ↦
          rw byte (ground (arith, idt_init_loop-at left (i + 1) idt_vectors idt' v (omega arith)))
    ]

idt_init_loop-entry :
    (n : ℕ) (idt_vectors : ℕ → ℕ) (idt : Idt) (v : ℕ)
    → v < n
    → n ≤ 256
    → idt_init_loop n 0 idt_vectors idt v ≡ idt_entry (idt_vectors v) idt_gate
idt_init_loop-entry n idt_vectors idt v lt le =
    ground (arith, idt_init_loop-at n 0 idt_vectors idt v (omega arith))

-- After idt_init each of the 256 entries leads to the handler of its vector, and is a present 64-bit
-- interrupt gate (0x8e) in the kernel's code segment. The processor was given the address of the
-- table, with 4095 as its limit, and interrupts were allowed after it.
pub idt_init-handler {ℓ} :
    {State : Type ℓ} (hw : Machine State) (idt_address : ℕ) (idt_vectors : ℕ → ℕ) (idt : Idt)
    (s : State) (v : ℕ)
    → v < 256
    → idt_vectors v < 2 ^ 64
    → idt_address < 2 ^ 64
    → let (idt', s') = idt_init hw idt_address idt_vectors idt s in
      (handler_of (idt' v) ≡ idt_vectors v)
      × ((idt' v).attributes ≡ 0x8e)
      × ((idt' v).selector ≡ 8)
      × (s' ≡ hw.allow_interrupts true (hw.load_idt 4095 idt_address s))
unfolding idt_init lidt sti
idt_init-handler hw idt_address idt_vectors idt s v lt fits small =
    let e = idt_init_loop-entry idt_size idt_vectors idt v lt (omega arith) in
    let (handler, attributes, selector) =
      idt_entry-handler (idt_vectors v) idt_gate fits (omega arith) in
    let cut : idt_address % 2 ^ 64 ≡ idt_address = omega arith in
    (
      ap handler_of e ∙ handler,
      ap (λ (d : IdtEntry). d.attributes) e ∙ attributes,
      ap (λ (d : IdtEntry). d.selector) e ∙ selector,
      ap (λ (a : ℕ). hw.allow_interrupts true (hw.load_idt 4095 a s)) cut,
    )

-- The base of the task state segment can be read back from its descriptor, which is a present
-- one of the type for an available 64-bit segment.
pub tss_entry-base :
    (tss : ℕ) → tss < 2 ^ 64 → (base_of (tss_entry tss) ≡ tss) × ((tss_entry tss).access ≡ 0x89)
unfolding tss_entry
tss_entry-base tss lt = (
  omega (
    arith,
    bit_and_low 64 16 tss lt,
    bit_and_low 64 8 (tss / 2 ^ 16) (omega arith),
    bit_and_low 64 8 (tss / 2 ^ 24) (omega arith),
  ),
  refl,
)
