-- ===== src/Cpu/Machine.antt =====
-- kernel/arch/x86_64/asm.h. What an instruction or a device does is the interface `Machine`; the
-- wrappers of the source are definitions over it.
pub mod Registers
use b0s.Base.{ℕ, Bool, true, false, bit_and, bit_or}
use b0s.Base.Word.{u8, u16, u32, u64, shl64, shr64}

-- The processor and its devices, with a state of their own.
pub record Machine {ℓ} (State : Type ℓ) : Type ℓ where
  -- `cpuid` of a leaf and a subleaf: eax, ebx, ecx, edx.
  pub identify : ℕ → ℕ → State → (ℕ × ℕ × ℕ × ℕ) × State
  -- `rdmsr`: eax and edx.
  pub read_msr : ℕ → State → (ℕ × ℕ) × State
  -- `wrmsr` of a register with eax and edx.
  pub write_msr : ℕ → ℕ → ℕ → State → State
  pub in_byte : ℕ → State → ℕ × State
  pub out_byte : ℕ → ℕ → State → State
  -- Volatile accesses of 8 and of 4 bytes.
  pub load8 : ℕ → State → ℕ × State
  pub store8 : ℕ → ℕ → State → State
  pub store4 : ℕ → ℕ → State → State
  -- `lgdt`, with the reload of the segment registers, and `lidt`: limit and base.
  pub load_gdt : ℕ → ℕ → State → State
  pub load_idt : ℕ → ℕ → State → State
  -- `ltr`
  pub load_task : ℕ → State → State
  -- `sti` or `cli`
  pub allow_interrupts : Bool → State → State
  -- A move to `cr3`, and `invlpg`.
  pub load_directory : ℕ → State → State
  pub drop_page : ℕ → State → State

module _ {ℓ} {State : Type ℓ} (hw : Machine State) where
  open hw use {
    identify, read_msr, write_msr, in_byte, out_byte, load8, store8, store4, load_idt, load_task,
    allow_interrupts, load_directory, drop_page,
  }

  unfoldable pub load_tr : ℕ → State → State
  load_tr selector s = load_task (u16 selector) s

  -- `struct idtr` is its two fields.
  unfoldable pub lidt : ℕ → ℕ → State → State
  lidt limit base s = load_idt (u16 limit) (u64 base) s

  unfoldable pub cli : State → State
  cli s = allow_interrupts false s

  unfoldable pub sti : State → State
  sti s = allow_interrupts true s

  unfoldable pub cpuid : ℕ → ℕ → State → (ℕ × ℕ × ℕ × ℕ) × State
  cpuid leaf subleaf s =
      let ((eax, ebx, ecx, edx), s') = identify (u32 leaf) (u32 subleaf) s in
      ((u32 eax, u32 ebx, u32 ecx, u32 edx), s')

  unfoldable pub inb : ℕ → State → ℕ × State
  inb port s = let (value, s') = in_byte (u16 port) s in (u8 value, s')

  unfoldable pub outb : ℕ → ℕ → State → State
  outb port val s = out_byte (u16 port) (u8 val) s

  unfoldable pub paging_load : ℕ → State → State
  paging_load new_cr3 s = load_directory (u64 new_cr3) s

  unfoldable pub rdmsr : ℕ → State → ℕ × State
  rdmsr msr s =
      let ((low, high), s') = read_msr (u32 msr) s in (bit_or (shl64 (u32 high) 32) (u32 low), s')

  unfoldable pub wrmsr : ℕ → ℕ → State → State
  wrmsr msr value s =
      let low = u32 (bit_and value 0xffffffff) in
      let high = u32 (shr64 value 32) in write_msr (u32 msr) low high s

  unfoldable pub invlpg : ℕ → State → State
  invlpg addr s = drop_page (u64 addr) s

  unfoldable pub volatile_read64 : ℕ → State → ℕ × State
  volatile_read64 addr s = let (value, s') = load8 addr s in (u64 value, s')

  unfoldable pub volatile_write64 : ℕ → ℕ → State → State
  volatile_write64 addr value s = store8 addr (u64 value) s

  -- The source reads 8 bytes and keeps the lower half.
  unfoldable pub volatile_read32 : ℕ → State → ℕ × State
  volatile_read32 addr s = let (value, s') = load8 addr s in (u32 (u64 value), s')

  unfoldable pub volatile_write32 : ℕ → ℕ → State → State
  volatile_write32 addr value s = store4 addr (u32 value) s
