-- ===== src/Vmm/Space.antt =====
-- The operations of kernel/mm/vmm.c on an address space: regions, object allocator, page tables and
-- pages together.
pub mod Gap
pub mod Between
use b0s.Base.{ℕ, zero, suc, ◌*◌, ◌==◌, ltb, leb, if◌then◌else◌, List, [], ◌∷◌, Option, none, some}
use b0s.Base.Word.{add64, sub64, mul64, max64, page_size}
use b0s.Base.Result.{Result, ok, panic, panic_if, ◌>>=◌, diverges, va_in_use, not_mapped}
use b0s.Bitmap.{Compiler}
use b0s.Pmm.State.{Pmm}
use b0s.Pmm.Alloc.{pmm_xalloc}
use b0s.Paging.{mmu_map_page, mmu_unmap_page, mmu_copy_pages, mmu_init}
use b0s.Vmm.Regions.{VmmRegion, Inserted, vmm_add_range, vmm_insert_range, vmm_remove_range}
use b0s.Vmm.Objects.{Objects, type_vmm_region, type_vmm_space, block_alloc, block_free}
use b0s.Vmm.Objects.{region_pool}

-- `struct vmm_space`, with its address.
pub record VmmSpace : Type 0 where
  pub address : ℕ
  pub page_directory : ℕ
  pub region : List VmmRegion

-- `va_stop` of the region at an address.
stop_of : ℕ → List VmmRegion → ℕ
stop_of node [] = 0
stop_of node (r ∷ rs) = if r.node == node then r.va_stop else stop_of node rs

-- The loop that gives each address from `_va` up to `va_stop` a page of its own; every address has
-- one round.
back_pages : ℕ → Compiler → ℕ → ℕ → ℕ → ℕ → Pmm → Result Pmm
back_pages zero c directory _va va_stop flags s = panic diverges
back_pages (suc rounds) c directory _va va_stop flags s =
    let mapped : Result Pmm = pmm_xalloc c s >>= λ (pa, s₁).
    mmu_map_page c directory _va pa flags s₁ >>= λ (old, s₂).
    panic_if (ltb 0 old) va_in_use
      (back_pages rounds c directory (add64 _va page_size) va_stop flags s₂) in
    if ltb _va va_stop then mapped else ok s

-- What follows the insertion of the range in `vmm_alloc_at` and `vmm_alloc_between`: the loop runs
-- to the end of the region that the range became a part of.
back_range :
    ℕ
    → (c : Compiler) → VmmSpace
    → ℕ
    → ℕ
    → Inserted (region_pool c)
    → Result (Option ℕ × VmmSpace × Objects)
unfolding stop_of back_pages region_pool
back_range rounds c space va flags i =
    let o : Objects = i.pool_state in
    back_pages rounds c space.page_directory va (stop_of i.region i.regions) flags o.pmm >>= λ s.
    ok (some va, record space { region = i.regions }, record o { pmm = s })

-- The rounds are those of the loop over pages. `none` is NULL.
pub vmm_alloc_at :
    ℕ → (c : Compiler) → VmmSpace → ℕ → ℕ → ℕ → Objects → Result (Option ℕ × VmmSpace × Objects)
unfolding back_range region_pool
vmm_alloc_at rounds c space va size_in_pages flags o =
    let va_stop = add64 va (mul64 size_in_pages page_size) in
    let inserted = vmm_add_range (region_pool c) space.region va va_stop flags o in
    if va == 0
    then ok (none, space, o)
    else (inserted >>= λ i. back_range rounds c space va flags i)

-- The search loop of `vmm_alloc_between` at a position: `va` and the position at its end.
unfoldable pub find_gap :
    ℕ → ℕ → ℕ → List VmmRegion → List VmmRegion → ℕ × List VmmRegion × List VmmRegion
find_gap lower_va room va before [] = (va, before, [])
find_gap lower_va room va before (cur ∷ rest) =
    let from = max64 va lower_va in
    let further = find_gap lower_va room cur.va_stop (cur ∷ before) rest in
    if ltb cur.va_stop lower_va
    then further
    else (if leb room (sub64 cur.va_start from) then (from, before, cur ∷ rest) else further)

pub vmm_alloc_between :
    ℕ → (c : Compiler) → VmmSpace → ℕ → ℕ → ℕ → ℕ → Objects → Result (Option ℕ × VmmSpace × Objects)
unfolding back_range find_gap region_pool
vmm_alloc_between rounds c space lower_va upper_va size_in_pages flags o =
    let size_in_bytes = mul64 size_in_pages page_size in
    let padding = 2 * page_size in
    let (va, before, after) =
      find_gap lower_va (add64 size_in_bytes padding) lower_va [] space.region in
    let start = add64 va page_size in
    let inserted =
      vmm_insert_range (region_pool c) before after start (add64 start size_in_bytes) flags o in
    if leb upper_va (add64 (add64 va size_in_bytes) padding)
    then ok (none, space, o)
    else (inserted >>= λ i. back_range rounds c space start flags i)

pub vmm_map : (c : Compiler) → VmmSpace → ℕ → ℕ → ℕ → Objects → Result (ℕ × VmmSpace × Objects)
unfolding region_pool
vmm_map c space va pa flags o =
    vmm_add_range (region_pool c) space.region va (add64 va page_size) flags o >>= λ i.
    let o' : Objects = i.pool_state in
    mmu_map_page c space.page_directory va pa flags o'.pmm >>= λ (old, s).
    panic_if (ltb 0 old) va_in_use
      (ok (va, record space { region = i.regions }, record o' { pmm = s }))

unmap_pages : ℕ → Compiler → ℕ → ℕ → ℕ → Pmm → Result Pmm
unmap_pages zero c directory _va va_stop s = panic diverges
unmap_pages (suc rounds) c directory _va va_stop s =
    let unmapped : Result Pmm = mmu_unmap_page c directory _va s >>= λ (old, s').
    panic_if (old == 0) not_mapped
      (unmap_pages rounds c directory (add64 _va page_size) va_stop s') in
    if ltb _va va_stop then unmapped else ok s

pub vmm_free : ℕ → (c : Compiler) → VmmSpace → ℕ → ℕ → Objects → Result (VmmSpace × Objects)
unfolding unmap_pages region_pool
vmm_free rounds c space va size_in_pages o =
    let va_stop = add64 va (mul64 size_in_pages page_size) in
    vmm_remove_range (region_pool c) space.region va va_stop o >>= λ (rs, removed).
    let o' : Objects = removed in
    unmap_pages rounds c space.page_directory va va_stop o'.pmm >>= λ s.
    ok (record space { region = rs }, record o' { pmm = s })

pub vmm_create_space : Compiler → Objects → Result (VmmSpace × Objects)
vmm_create_space c o = block_alloc c type_vmm_space o >>= λ (address, o').
    mmu_init c o'.pmm >>= λ (directory, s).
    ok
      (record { address = address; page_directory = directory; region = [] }, record o' { pmm = s })

pub free_regions : Compiler → List VmmRegion → Objects → Result Objects
free_regions c [] o = ok o
free_regions c (r ∷ rs) o = block_free c r.node type_vmm_region o >>= λ o'. free_regions c rs o'

pub vmm_delete_space : Compiler → VmmSpace → Objects → Result Objects
unfolding free_regions
vmm_delete_space c space o =
    free_regions c space.region o >>= λ o'. block_free c space.address type_vmm_space o'

-- The loop of `vmm_copy_regions` over the regions of the source space.
pub copy_regions :
    ℕ → (c : Compiler) → VmmSpace → ℕ → List VmmRegion → Objects → Result (VmmSpace × Objects)
unfolding region_pool
copy_regions rounds c dst src [] o = ok (dst, o)
copy_regions rounds c dst src (r ∷ rs) o =
    vmm_add_range (region_pool c) dst.region r.va_start r.va_stop r.flags o >>= λ i.
    let o' : Objects = i.pool_state in
    mmu_copy_pages rounds c dst.page_directory src r.va_start r.va_stop r.flags o'.pmm >>= λ s.
    copy_regions rounds c (record dst { region = i.regions }) src rs (record o' { pmm = s })

pub vmm_copy_regions :
    ℕ → (c : Compiler) → VmmSpace → VmmSpace → Objects → Result (VmmSpace × Objects)
unfolding copy_regions
vmm_copy_regions rounds c dst src o = copy_regions rounds c dst src.page_directory src.region o
