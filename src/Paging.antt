-- ===== src/Paging.antt =====
-- kernel/arch/x86_64/mm/mmu.c: the four levels of page tables. A table is 512 entries of 8 bytes in
-- the memory of the page allocator's state, at its address in the direct mapping.
pub mod Mapped
pub mod Tree
pub mod Kept
mod Tests
use b0s.Base.{ℕ, zero, suc, ◌+◌, ◌-◌, ◌*◌, ◌==◌, ltb, if◌then◌else◌, bit_and, bit_or, Bool}
use b0s.Base.Word.{add64, sub64, u16, shr64, not64, page_addr, page_size, dm_p2v}
use b0s.Base.Result.{Result, ok, panic, ◌>>=◌, panic_if, diverges, va_in_use}
use b0s.Memory.{Memory, load64, store64, memset}
use b0s.Bitmap.{Compiler}
use b0s.Pmm.State.{Pmm}
use b0s.Pmm.Alloc.{pmm_xalloc, pmm_free}

abbrev pub page_present : ℕ
page_present = 1

abbrev pub page_global : ℕ
page_global = 0b100000000

-- What a translation without a mapping gives.
abbrev pub no_translation : ℕ
no_translation = 0xffffffffffffffff

abbrev pub pml4e_index : ℕ → ℕ
pml4e_index va = u16 (bit_and (shr64 va 39) 0x1ff)

abbrev pub pdpt_index : ℕ → ℕ
pdpt_index va = u16 (bit_and (shr64 va 30) 0x1ff)

abbrev pub pdt_index : ℕ → ℕ
pdt_index va = u16 (bit_and (shr64 va 21) 0x1ff)

abbrev pub pt_index : ℕ → ℕ
pt_index va = u16 (bit_and (shr64 va 12) 0x1ff)

abbrev pub entry_at : ℕ → ℕ → ℕ
entry_at table index = table + 8 * index

abbrev pub is_absent : ℕ → Bool
is_absent entry = bit_and entry page_present == 0

-- The table that an entry leads to, in the direct mapping.
abbrev pub table_of : ℕ → ℕ
table_of entry = page_addr (dm_p2v entry) page_size

unfoldable pub mmu_translate_4k : Memory → ℕ → ℕ → ℕ
mmu_translate_4k m pml4e va =
    let e4 = load64 m (entry_at pml4e (pml4e_index va)) in
    let e3 = load64 m (entry_at (table_of e4) (pdpt_index va)) in
    let e2 = load64 m (entry_at (table_of e3) (pdt_index va)) in
    let e1 = load64 m (entry_at (table_of e2) (pt_index va)) in
    if is_absent e4
    then no_translation
    else (if is_absent e3
        then no_translation
        else (if is_absent e2
            then no_translation
            else bit_or (page_addr e1 page_size) (bit_and va (page_size - 1))))

-- One level of `mmu_map_page`: the entry at the address is given a new empty table if it has none.
unfoldable pub ensure_table : Compiler → ℕ → ℕ → Pmm → Result (ℕ × Pmm)
ensure_table c entry perm_wo_g s =
    let found : Result (ℕ × Pmm) = ok (table_of (load64 s.memory entry), s) in
    let made : Result (ℕ × Pmm) = pmm_xalloc c s >>= λ (table, s').
    let m = memset s'.memory (dm_p2v table) 0 page_size in
    let m' = store64 m entry (bit_or (bit_or table page_present) perm_wo_g) in
    ok (table_of (load64 m' entry), record s' { memory = m' }) in
    if is_absent (load64 s.memory entry) then made else found

-- Returns the former entry, and the state.
unfoldable pub mmu_map_page : Compiler → ℕ → ℕ → ℕ → ℕ → Pmm → Result (ℕ × Pmm)
unfolding ensure_table
mmu_map_page c pml4e va pa perm s =
    let perm_wo_g = bit_and perm (not64 page_global) in
    ensure_table c (entry_at pml4e (pml4e_index va)) perm_wo_g s >>= λ (pdpt, s₁).
    ensure_table c (entry_at pdpt (pdpt_index va)) perm_wo_g s₁ >>= λ (pdt, s₂).
    ensure_table c (entry_at pdt (pdt_index va)) perm_wo_g s₂ >>= λ (pt, s₃).
    let entry = entry_at pt (pt_index va) in
    ok (load64 s₃.memory entry, record s₃ { memory = store64 s₃.memory entry (bit_or pa perm) })

-- `invlpg` drops what the processor caches, which is not part of the state.
unfoldable pub mmu_unmap_page : Compiler → ℕ → ℕ → Pmm → Result (ℕ × Pmm)
unfolding mmu_map_page
mmu_unmap_page c pml4e va s = mmu_map_page c pml4e va 0 0 s >>= λ (pa, s').
    pmm_free c (page_addr pa page_size) s' >>= λ s''. ok (pa, s'')

-- The loop of `mmu_copy_pages`, with rounds for the pages below `va_stop`.
pub mmu_copy_pages : ℕ → Compiler → ℕ → ℕ → ℕ → ℕ → ℕ → Pmm → Result Pmm
unfolding mmu_translate_4k mmu_map_page
mmu_copy_pages zero c dst src va va_stop flags s = panic diverges
mmu_copy_pages (suc rounds) c dst src va va_stop flags s =
    let pa = mmu_translate_4k s.memory src va in
    let copy : Result Pmm = mmu_map_page c dst va pa flags s >>= λ (old, s').
    panic_if (ltb 0 old) va_in_use
      (mmu_copy_pages rounds c dst src (add64 va page_size) va_stop flags s') in
    if ltb va va_stop then copy else ok s

-- The page directory of a new space, and the state.
pub mmu_init : Compiler → Pmm → Result (ℕ × Pmm)
mmu_init c s = pmm_xalloc c s >>= λ (page, s').
    let page_directory = dm_p2v page in
    ok (page_directory, record s' { memory = memset s'.memory page_directory 0 page_size })
