-- ===== src/Cpu/Descriptors.antt =====
-- The entries of the interrupt descriptor table and the task state segment's descriptor.
pub mod Fields
use b0s.Base.{ℕ, zero, suc, ◌+◌, ◌-◌, ◌*◌, ◌==◌, if◌then◌else◌, bit_and, bit_or}
use b0s.Base.Word.{u8, u16, u32, shr64}
use b0s.Cpu.Machine.{Machine, lidt, sti}

abbrev pub u16_max : ℕ
u16_max = 0xffff

abbrev pub u32_max : ℕ
u32_max = 0xffffffff

abbrev pub gdt_kernel_code_index : ℕ
gdt_kernel_code_index = 1

abbrev pub idt_gate : ℕ
idt_gate = 0x8e

abbrev pub idt_size : ℕ
idt_size = 256

-- `struct idt_entry`; `zero` of the source is `reserved` here.
pub record IdtEntry : Type 0 where
  pub offset0_15 : ℕ
  pub selector : ℕ
  pub ist : ℕ
  pub attributes : ℕ
  pub offset16_31 : ℕ
  pub offset32_63 : ℕ
  pub reserved : ℕ

unfoldable pub idt_entry : ℕ → ℕ → IdtEntry
idt_entry handler type = record {
  offset0_15 = u16 (bit_and handler u16_max);
  selector = u16 (gdt_kernel_code_index * 8);
  ist = 0;
  attributes = u8 type;
  offset16_31 = u16 (bit_and (shr64 handler 16) u16_max);
  offset32_63 = u32 (bit_and (shr64 handler 32) u32_max);
  reserved = 0;
}

abbrev pub Idt : Type 0
Idt = ℕ → IdtEntry

pub idt_set_entry : ℕ → ℕ → ℕ → Idt → Idt
unfolding idt_entry
idt_set_entry vector handler type idt i = if i == vector then idt_entry handler type else idt i

-- The loop of `idt_init` at vector `i`.
idt_init_loop : ℕ → ℕ → (ℕ → ℕ) → Idt → Idt
unfolding idt_set_entry
idt_init_loop zero i idt_vectors idt = idt
idt_init_loop (suc left) i idt_vectors idt =
    idt_init_loop left (i + 1) idt_vectors (idt_set_entry (u8 i) (idt_vectors i) idt_gate idt)

-- `sizeof(idt)`
abbrev sizeof_idt : ℕ
sizeof_idt = 4096

-- `idt_address` is where the array `idt` lies.
unfoldable pub idt_init {ℓ} :
    {State : Type ℓ} → Machine State → ℕ → (ℕ → ℕ) → Idt → State → Idt × State
unfolding idt_init_loop
idt_init hw idt_address idt_vectors idt s =
    let idt' = idt_init_loop idt_size 0 idt_vectors idt in
    (idt', sti hw (lidt hw (sizeof_idt - 1) idt_address s))

abbrev pub gdt_access_kernel : ℕ
gdt_access_kernel = 0

abbrev pub gdt_access_present : ℕ
gdt_access_present = 0b10000000

abbrev pub gdt_access_system_seg : ℕ
gdt_access_system_seg = 0

abbrev pub gdt_access_tss : ℕ
gdt_access_tss = 0b00001001

abbrev pub sizeof_tss : ℕ
sizeof_tss = 112

-- `struct tss_entry`
pub record TssEntry : Type 0 where
  pub limit : ℕ
  pub base0_15 : ℕ
  pub base16_23 : ℕ
  pub access : ℕ
  pub flags2 : ℕ
  pub base24_31 : ℕ
  pub base32_63 : ℕ
  pub reserved : ℕ

-- The descriptor that `gdt_init_tss` writes for a segment at the address `tss`.
unfoldable pub tss_entry : ℕ → TssEntry
tss_entry tss = record {
  limit = sizeof_tss - 1;
  base0_15 = u16 (bit_and tss u16_max);
  base16_23 = u8 (bit_and (shr64 tss 16) 0xff);
  base24_31 = u8 (bit_and (shr64 tss 24) 0xff);
  base32_63 = u32 (shr64 tss 32);
  reserved = 0;
  access =
      bit_or (bit_or (bit_or gdt_access_kernel gdt_access_present) gdt_access_system_seg)
        gdt_access_tss;
  flags2 = 0;
}
