-- ===== src/Boot.antt =====
-- kernel/kmain.c: the walk over the boot loader's tags, and the checks that `kmain` starts with.
pub mod Found
mod Tests
use b0s.Base.{
  ℕ, zero, suc, ◌+◌, ◌*◌, ◌%◌, ◌^◌, ◌-◌, bit_and, bit_or, ◌==◌, ltb, if◌then◌else◌, Bool, true,
  false, not,
}
use b0s.Base.Word.{u32, add64, mul64, kernel_vma}
use b0s.Base.Result.{
  Result, ok, panic, panic_if, ◌>>=◌, diverges, bad_magic, unaligned_infos, missing_tags,
}
use b0s.Memory.{Memory, load}
use b0s.Bitmap.{Compiler}

-- `MULTIBOOT_TAG_TYPE_END`, `MULTIBOOT_TAG_TYPE_MMAP`, `MULTIBOOT_TAG_TYPE_ACPI_OLD` and
-- `MULTIBOOT2_BOOTLOADER_MAGIC`
abbrev pub tag_end : ℕ
tag_end = 0

abbrev pub tag_mmap : ℕ
tag_mmap = 6

abbrev pub tag_acpi_old : ℕ
tag_acpi_old = 14

abbrev pub bootloader_magic : ℕ
bootloader_magic = 0x36d76289

-- The fields of `struct multiboot_tag`.
abbrev pub tag_type : Memory → ℕ → ℕ
tag_type m tag = load 4 m tag

abbrev pub tag_size : Memory → ℕ → ℕ
tag_size m tag = load 4 m (tag + 4)

-- `(tag->size + 7) & ~7` on u32, added to the address.
unfoldable pub next_tag : Memory → ℕ → ℕ
next_tag m tag = add64 tag (bit_and (u32 (tag_size m tag + 7)) (2 ^ 32 - 8))

-- The local `bitmap` and the statics `rsdp` and `mmap`.
pub record Tags : Type 0 where
  pub bitmap : ℕ
  pub rsdp : ℕ
  pub mmap : ℕ

-- The loop body up to the test for the last tag.
unfoldable pub note_tag : Compiler → Memory → ℕ → Tags → Tags
note_tag c m tag t =
    let type = tag_type m tag in
    record {
      bitmap = bit_or t.bitmap (u32 (c.int_one_shl type));
      rsdp = if type == tag_acpi_old then add64 (tag + 8) kernel_vma else t.rsdp;
      mmap = if type == tag_mmap then add64 tag kernel_vma else t.mmap;
    }

-- The loop of `read_tags`, below `limit`.
unfoldable pub tags_loop : ℕ → Compiler → Memory → ℕ → ℕ → Tags → Result Tags
tags_loop zero c m limit tag t = panic diverges
tags_loop (suc rounds) c m limit tag t =
    let t' = note_tag c m tag t in
    let further = tags_loop rounds c m limit (next_tag m tag) t' in
    if ltb tag limit then (if tag_type m tag == tag_end then ok t' else further) else ok t

-- `expected_bitmap`
abbrev pub expected_bitmap : ℕ
expected_bitmap = 16448

-- The returned flag, and the statics that start as NULL. The bound of the loop is pointer arithmetic
-- on `struct multiboot_tag *`, so the size counts for eight times its bytes.
unfoldable pub read_tags : ℕ → Compiler → Memory → ℕ → Result (Bool × ℕ × ℕ)
unfolding tags_loop
read_tags rounds c m mb_infos =
    let size = load 4 m mb_infos in
    let limit = add64 mb_infos (mul64 size 8) in
    tags_loop rounds c m limit (add64 mb_infos 8) (record { bitmap = 0; rsdp = 0; mmap = 0 })
    >>= λ t. ok (not (bit_and t.bitmap expected_bitmap == expected_bitmap), t.rsdp, t.mmap)

-- The checks of `kmain`: `rsdp` and `mmap` when they pass.
unfoldable pub kmain_checks : ℕ → Compiler → Memory → ℕ → ℕ → Result (ℕ × ℕ)
unfolding read_tags
kmain_checks rounds c m magic mb_infos_ptr = panic_if (not (magic == bootloader_magic)) bad_magic (
    panic_if (not (bit_and mb_infos_ptr 7 == 0)) unaligned_infos (
      read_tags rounds c m mb_infos_ptr >>= λ (missing, rsdp, mmap).
      panic_if missing missing_tags (ok (rsdp, mmap))))
