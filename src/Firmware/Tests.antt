-- ===== src/Firmware/Tests.antt =====
-- The searches on an empty memory and on a table with one entry.
use b0s.Base.{ℕ, ◌+◌, ◌≡◌, arith, ◌==◌, if◌then◌else◌, Option}
use b0s.Base.Result.{ok}
use b0s.Memory.{Memory, load, read_byte}
use b0s.Firmware.{acpi_find_table, table_count, madt_entry_find, table_length}
use b0s.Firmware.Search.{FindsFirst, acpi_find_table-FindsFirst}
use b0s.Firmware.Search.{IsChain, past, next, FindsEntry, madt_entry_find-FindsEntry}

-- A table of 50 bytes at 0, whose one entry has type 1 and length 6.
abbrev memory : Memory
memory = λ a. if a == 4 then 50 else (if a == 44 then 1 else (if a == 45 then 6 else 0))

acpi_find_table-FindsFirst_example :
    FindsFirst memory 0 100 0 (table_count memory 0) (acpi_find_table memory 0 100)
acpi_find_table-FindsFirst_example = acpi_find_table-FindsFirst memory 0 100

abbrev chain : IsChain memory (0 + table_length memory 0) (0 + 44)
unfolding load read_byte
chain = next 44 (omega arith) (omega arith) (past 50 (omega arith))

madt_entry_find-FindsEntry_example :
    (r : Option ℕ) × (madt_entry_find memory 1 0 ≡ ok r)
    × FindsEntry memory (0 + table_length memory 0) 1 chain r
madt_entry_find-FindsEntry_example = madt_entry_find-FindsEntry memory 1 0 chain
