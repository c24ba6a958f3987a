-- ===== src/Firmware.antt =====
-- kernel/drivers/acpi/acpi.c: finding the tables of the firmware, over memory. The static `rsdt` and
-- `madt` are arguments and results; `none` and 0 are NULL.
pub mod Search
mod Tests
use b0s.Base.{
  ℕ, zero, suc, ◌+◌, ◌*◌, ◌/◌, ◌==◌, ltb, if◌then◌else◌, Bool, not, ◌||◌, Option, none, some,
}
use b0s.Base.Word.{u8, u32, sub64, dm_p2v}
use b0s.Base.Result.{Result, ok, panic, panic_if, ◌>>=◌, diverges, invalid_table}
use b0s.Memory.{Memory, load, read_byte, memcmp, memcpy}

-- `sizeof(struct acpi_header)`, and the offset of its `length`.
abbrev pub sizeof_header : ℕ
sizeof_header = 36

abbrev pub table_length : Memory → ℕ → ℕ
table_length m header = load 4 m (header + 4)

checksum_loop : ℕ → ℕ → Memory → ℕ → ℕ
unfolding read_byte
checksum_loop zero sum m ptr = sum
checksum_loop (suc size) sum m ptr = checksum_loop size (u8 (sum + read_byte m (ptr + size))) m ptr

pub checksum : Memory → ℕ → ℕ → ℕ
unfolding checksum_loop
checksum m ptr size = checksum_loop size 0 m ptr

-- The header of table `i`, in the direct mapping.
abbrev pub table_at : Memory → ℕ → ℕ → ℕ
table_at m rsdt i = dm_p2v (load 4 m (rsdt + sizeof_header + 4 * i))

find_table_loop : ℕ → ℕ → Memory → ℕ → ℕ → Option ℕ
find_table_loop zero i m rsdt signature = none
find_table_loop (suc left) i m rsdt signature =
    let h = table_at m rsdt i in
    let further = find_table_loop left (i + 1) m rsdt signature in
    if memcmp m h signature 4 == 0 then some h else further

abbrev pub table_count : Memory → ℕ → ℕ
table_count m rsdt = u32 (sub64 (table_length m rsdt) sizeof_header / 4)

pub acpi_find_table : Memory → ℕ → ℕ → Option ℕ
unfolding find_table_loop
acpi_find_table m rsdt signature = find_table_loop (table_count m rsdt) 0 m rsdt signature

-- The returned flag, 1 when there is no such table, and the memory.
pub acpi_copy_table : Memory → ℕ → ℕ → ℕ → ℕ × Memory
unfolding acpi_find_table
acpi_copy_table m rsdt signature dst = elim (acpi_find_table m rsdt signature) [
  | none ↦ (1, m)
  | some ptr ↦ (0, memcpy m dst ptr (table_length m ptr))
]

-- `sizeof(struct acpi_rsdp)`, and the offset of its `rsdt_address`.
abbrev sizeof_rsdp : ℕ
sizeof_rsdp = 20

abbrev rsdt_address : Memory → ℕ → ℕ
rsdt_address m rsdp = load 4 m (rsdp + 16)

-- Returns `rsdt`; `signature` is the address of "RSD PTR ".
pub acpi_init : Memory → ℕ → ℕ → Result ℕ
unfolding checksum
acpi_init m rsdp signature =
    let rsdt = dm_p2v (rsdt_address m rsdp) in
    panic_if (not (memcmp m rsdp signature 8 == 0) || not (checksum m rsdp sizeof_rsdp == 0))
      invalid_table
      (panic_if (not (checksum m rsdt (table_length m rsdt) == 0)) invalid_table (ok rsdt))

abbrev pub entry_type : Memory → ℕ → ℕ
entry_type m entry = read_byte m entry

abbrev pub entry_length : Memory → ℕ → ℕ
entry_length m entry = read_byte m (entry + 1)

-- The loop of `acpi_madt_find`. An entry of length 0 keeps the source in the loop for ever.
madt_loop : ℕ → Memory → ℕ → ℕ → ℕ → Result (Option ℕ)
madt_loop zero m type end entry = panic diverges
madt_loop (suc rounds) m type end entry =
    let further = madt_loop rounds m type end (entry + entry_length m entry) in
    if ltb entry end
    then (if entry_type m entry == type then ok (some entry) else further)
    else ok none

-- The offset of `entries` in `struct acpi_madt`.
abbrev madt_entries : ℕ
madt_entries = 44

-- The search of a table whose address is known: as many rounds as it has bytes are enough.
pub madt_entry_find : Memory → ℕ → ℕ → Result (Option ℕ)
unfolding madt_loop
madt_entry_find m type madt =
    let length = table_length m madt in
    madt_loop (suc length) m type (madt + length) (madt + madt_entries)

-- The static `madt` before, then the entry and `madt` after. `signature` is the address of "APIC".
pub acpi_madt_find : Memory → ℕ → ℕ → Option ℕ → ℕ → Result (Option ℕ × ℕ)
unfolding madt_entry_find acpi_find_table checksum
acpi_madt_find m rsdt signature (some madt) type =
    madt_entry_find m type madt >>= λ entry. ok (entry, madt)
acpi_madt_find m rsdt signature none type =
    let madt : ℕ = elim (acpi_find_table m rsdt signature) [ none ↦ 0 | some ptr ↦ ptr ] in
    panic_if (not (checksum m madt (table_length m madt) == 0)) invalid_table
      (madt_entry_find m type madt >>= λ entry. ok (entry, madt))
