-- ===== src/Pmm/Pmap.antt =====
-- Building and reading the region table: `pmap_insert`, `pmap_init`, `pmm_next_phys_page`.
pub mod Span
pub mod Table
mod Tests
use b0s.Base.{ℕ, zero, suc, ◌+◌, ◌/◌, ◌==◌, leb, if◌then◌else◌, Bool, ◌&&◌, ◌||◌, not}
use b0s.Base.{List, [], ◌∷◌, ◌++◌, length}
use b0s.Base.Word.{add64, sub64, max64, v2p, roundup, page_addr, page_size, u32}
use b0s.Base.Result.{Result, ok, panic, panic_if, ◌>>=◌, memory_overlap, pmap_full}
use b0s.Bitmap.{Bitmap}
use b0s.Pmm.State.{Region, available, reserved, region_stop, PhysAddr}
use b0s.Pmm.State.{MmapEntry, MmapTag, pmap_capacity}
use b0s.Pmm.Sort.{pmap_sort}

abbrev multiboot_memory_available : ℕ
multiboot_memory_available = 1

abbrev multiboot_memory_reserved : ℕ
multiboot_memory_reserved = 2

abbrev bios_end : ℕ
bios_end = 0x100000

-- The `optional` field of a table entry before `pmm_init` fills it: static storage is zero.
abbrev pub no_bitmap : Bitmap
no_bitmap = record { len = 0; size_in_block = 0; bitmap = 0 }

-- The fields that `pmap_insert` computes from a memory map entry.
unfoldable pub region_of : ℕ → MmapEntry → Region
region_of kernel_vma_stop entry =
    let is_free = entry.type == multiboot_memory_available in
    let start = if is_free then max64 (v2p kernel_vma_stop) entry.addr else entry.addr in
    let addr = page_addr start page_size in
    let len = sub64 entry.len (sub64 addr entry.addr) in
    let addr_stop = roundup (sub64 (add64 addr len) 1) page_size in
    record {
      addr = addr;
      size_in_pages = sub64 addr_stop addr / page_size;
      type = if is_free then available else reserved;
      bitmap = no_bitmap;
    }

unfoldable pub addr_stop_of : ℕ → MmapEntry → ℕ
unfolding region_of
addr_stop_of kernel_vma_stop entry =
    let addr = (region_of kernel_vma_stop entry).addr in
    roundup (sub64 (add64 addr (sub64 entry.len (sub64 addr entry.addr))) 1) page_size

-- The check of `pmap_insert` against the entries before: is one of them hit?
unfoldable pub overlaps : ℕ → ℕ → List Region → Bool
overlaps addr addr_stop [] = Bool.false
overlaps addr addr_stop (r ∷ rs) =
    not (leb (region_stop r) addr || leb addr_stop r.addr) || overlaps addr addr_stop rs

unfoldable pub pmap_insert : ℕ → MmapEntry → List Region → Result (List Region)
unfolding region_of addr_stop_of overlaps
pmap_insert kernel_vma_stop entry pmap =
    let r = region_of kernel_vma_stop entry in
    panic_if (overlaps r.addr (addr_stop_of kernel_vma_stop entry) pmap) memory_overlap
      (ok (pmap ++ r ∷ []))

-- The loop of `pmap_init` at entry `i`; `pmap_index` is the length of the table.
unfoldable pub pmap_init_loop : ℕ → MmapTag → ℕ → ℕ → List Region → Result (List Region)
unfolding pmap_insert
pmap_init_loop kernel_vma_stop mmap zero i pmap = ok pmap
pmap_init_loop kernel_vma_stop mmap (suc left) i pmap =
    let entry = mmap.entries i in
    let is_available_or_reserved =
      (entry.type == multiboot_memory_available && leb bios_end entry.addr)
      || entry.type == multiboot_memory_reserved in
    let skip = pmap_init_loop kernel_vma_stop mmap left (i + 1) pmap in
    let pmap_index = length pmap in
    let insert =
      pmap_insert kernel_vma_stop entry pmap >>= pmap_init_loop kernel_vma_stop mmap left (i + 1) in
    if not is_available_or_reserved
    then skip
    else (if leb pmap_capacity pmap_index || pmap_index == 0xff then panic pmap_full else insert)

-- The size of the tag's header.
abbrev sizeof_tag_mmap : ℕ
sizeof_tag_mmap = 16

unfoldable pub pmap_init : ℕ → MmapTag → Result (List Region)
unfolding pmap_init_loop pmap_sort
pmap_init kernel_vma_stop mmap =
    let nb_entries = u32 (sub64 mmap.size sizeof_tag_mmap / mmap.entry_size) in
    pmap_init_loop kernel_vma_stop mmap nb_entries 0 [] >>= λ pmap. ok (pmap_sort pmap)

-- The end mark of `pmm_next_phys_page`: 1 cannot be the address of a page.
abbrev pub no_page : PhysAddr
no_page = record { type = available; pa = 1 }

next_page_loop : ℕ → List Region → PhysAddr
next_page_loop next [] = no_page
next_page_loop next (r ∷ rs) =
    if leb (region_stop r) next
    then next_page_loop next rs
    else record { type = r.type; pa = max64 next r.addr }

unfoldable pub pmm_next_phys_page : List Region → ℕ → PhysAddr
unfolding next_page_loop
pmm_next_phys_page pmap addr = next_page_loop (add64 addr page_size) pmap
