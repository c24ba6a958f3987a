-- ===== src/Cpu/Gdt.antt =====
-- kernel/arch/x86_64/mm/gdt.c and gdt.h: the table of segments, with the task state segment.
pub mod Selectors
use b0s.Base.{ℕ, ◌+◌, ◌-◌, ◌*◌, ◌^◌, ◌==◌, if◌then◌else◌, bit_or, List, [], ◌∷◌, map}
use b0s.Base.Word.{u8, u16, u32, u64, add64, sub64}
use b0s.Cpu.Machine.{Machine, load_tr, paging_load}
use b0s.Cpu.Descriptors.{
  TssEntry, tss_entry, gdt_access_kernel, gdt_access_present, gdt_kernel_code_index,
}

abbrev gdt_access_rw : ℕ
gdt_access_rw = 0b00000010

abbrev gdt_access_code_data_seg : ℕ
gdt_access_code_data_seg = 0b00010000

abbrev gdt_access_code : ℕ
gdt_access_code = 0b00001000

abbrev gdt_access_data : ℕ
gdt_access_data = 0

abbrev gdt_access_user : ℕ
gdt_access_user = 0b01100000

abbrev gdt_flags_long_mode : ℕ
gdt_flags_long_mode = 0b0010

abbrev pub gdt_kernel_data_index : ℕ
gdt_kernel_data_index = 2

abbrev pub gdt_user_code_index : ℕ
gdt_user_code_index = 3

abbrev pub gdt_user_data_index : ℕ
gdt_user_data_index = 4

abbrev pub gdt_tss_index : ℕ
gdt_tss_index = 5

abbrev pub gdt_size : ℕ
gdt_size = 7

-- `struct gdt_entry`; `limit16_19` and `flags` are of 4 bits.
pub record GdtEntry : Type 0 where
  pub limit0_15 : ℕ
  pub base0_15 : ℕ
  pub base16_23 : ℕ
  pub access : ℕ
  pub limit16_19 : ℕ
  pub flags : ℕ
  pub base24_31 : ℕ

-- `GDT_ENTRY`
abbrev pub gdt_entry : ℕ → ℕ → GdtEntry
gdt_entry a b = record {
  limit0_15 = 0;
  base0_15 = 0;
  base16_23 = 0;
  access = bit_or gdt_access_present b;
  limit16_19 = 0;
  flags = a;
  base24_31 = 0;
}

-- The 8 bytes of an entry as one number, from the lowest.
unfoldable pub entry_word : GdtEntry → ℕ
entry_word e =
    e.limit0_15
    + e.base0_15 * 2 ^ 16
    + e.base16_23 * 2 ^ 32
    + e.access * 2 ^ 40
    + (e.limit16_19 + e.flags * 2 ^ 4) * 2 ^ 48
    + e.base24_31 * 2 ^ 56

-- The lower and the upper 8 bytes of a task state descriptor.
unfoldable pub tss_low : TssEntry → ℕ
tss_low e =
    e.limit
    + e.base0_15 * 2 ^ 16
    + e.base16_23 * 2 ^ 32
    + e.access * 2 ^ 40
    + e.flags2 * 2 ^ 48
    + e.base24_31 * 2 ^ 56

unfoldable pub tss_high : TssEntry → ℕ
tss_high e = e.base32_63 + e.reserved * 2 ^ 32

-- The words of the array `gdt`, by index.
abbrev pub Gdt : Type 0
Gdt = ℕ → ℕ

unfoldable pub code_segment : ℕ → GdtEntry
code_segment ring =
    gdt_entry gdt_flags_long_mode
      (bit_or (bit_or (bit_or ring gdt_access_code_data_seg) gdt_access_code) gdt_access_rw)

unfoldable pub data_segment : ℕ → GdtEntry
data_segment ring =
    gdt_entry 0
      (bit_or (bit_or (bit_or ring gdt_access_code_data_seg) gdt_access_data) gdt_access_rw)

-- The array as it is initialised; what no index of it names is 0.
unfoldable pub gdt_at_start : Gdt
gdt_at_start i =
    if i == gdt_kernel_code_index
    then entry_word (code_segment gdt_access_kernel)
    else (if i == gdt_kernel_data_index
        then entry_word (data_segment gdt_access_kernel)
        else (if i == gdt_user_code_index
            then entry_word (code_segment gdt_access_user)
            else (if i == gdt_user_data_index
                then entry_word (data_segment gdt_access_user)
                else 0)))

-- `struct tss`
pub record Tss : Type 0 where
  pub reserved0 : ℕ
  pub rsp0 : ℕ
  pub rsp1 : ℕ
  pub rsp2 : ℕ
  pub reserved1 : ℕ
  pub reserved2 : ℕ
  pub ist1 : ℕ
  pub ist2 : ℕ
  pub ist3 : ℕ
  pub ist4 : ℕ
  pub ist5 : ℕ
  pub ist6 : ℕ
  pub ist7 : ℕ
  pub reserved3 : ℕ
  pub reserved4 : ℕ
  pub io_bitmap_offset : ℕ

-- The statics, and where the linker puts them.
pub record Segments : Type 0 where
  pub gdt : Gdt
  pub tss : Tss
  pub gdt_address : ℕ
  pub tss_address : ℕ

unfoldable pub gdt_set_tss_rsp : ℕ → Segments → Segments
gdt_set_tss_rsp rsp0 g = record g { tss = record g.tss { rsp0 = u64 rsp0 } }

-- The array after the descriptor is written over two of its entries.
unfoldable pub set_tss_entry : ℕ → Gdt → Gdt
set_tss_entry tss_address gdt i =
    if i == gdt_tss_index
    then tss_low (tss_entry tss_address)
    else (if i == gdt_tss_index + 1 then tss_high (tss_entry tss_address) else gdt i)

module _ {ℓ} {State : Type ℓ} (hw : Machine State) where
  -- `stack_top_64` is the number that is stored at the symbol of that name.
  unfoldable pub gdt_init_tss : ℕ → Segments → State → Segments × State
  gdt_init_tss stack_top_64 g s =
      let tss : Tss = record {
        reserved0 = 0;
        rsp0 = stack_top_64;
        rsp1 = 0;
        rsp2 = 0;
        reserved1 = 0;
        reserved2 = 0;
        ist1 = 0;
        ist2 = 0;
        ist3 = 0;
        ist4 = 0;
        ist5 = 0;
        ist6 = 0;
        ist7 = 0;
        reserved3 = 0;
        reserved4 = 0;
        io_bitmap_offset = 0;
      } in
      let g' = record g { tss = tss; gdt = set_tss_entry g.tss_address g.gdt } in
      (g', load_tr hw (u16 gdt_tss_index * 8) s)

  -- `gdt_reload_asm` loads the descriptor and the segment registers.
  unfoldable pub gdt_reload : ℕ → Segments → State → Segments × State
  gdt_reload stack_top_64 g s =
      gdt_init_tss stack_top_64 g (hw.load_gdt (u16 (gdt_size * 8)) (u64 g.gdt_address) s)
