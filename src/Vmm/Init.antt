-- ===== src/Vmm/Init.antt =====
-- The set-up of the kernel's space in kernel/mm/vmm.c, and the comparison of two spaces in
-- kernel/arch/x86_64/mm/mmu.c.
use b0s.Base.{ℕ, zero, suc, ◌==◌, ltb, if◌then◌else◌, List, [], ◌∷◌}
use b0s.Base.Word.{add64, page_size, v2p, dm_p2v}
use b0s.Base.Result.{Result, ok, panic, panic_if, ◌>>=◌, diverges, va_in_use, unknown_pointer}
use b0s.Bitmap.{Compiler}
use b0s.Pmm.State.{Pmm, PhysAddr, is_available}
use b0s.Pmm.Pmap.{pmm_next_phys_page, no_page}
use b0s.Paging.{mmu_map_page}
use b0s.Vmm.Regions.{VmmRegion, vmm_add_range}
use b0s.Vmm.Objects.{Objects, region_pool}
use b0s.Vmm.Space.{VmmSpace, vmm_create_space}

-- `PAGE_KERNEL_RW`, `PAGE_KERNEL_RO`
abbrev pub page_kernel_rw : ℕ
page_kernel_rw = 0b100000011

abbrev pub page_kernel_ro : ℕ
page_kernel_ro = 0b100000001

-- What the linker sets.
pub record Layout : Type 0 where
  pub kernel_vma_rw_start : ℕ
  pub kernel_vma_rw_stop : ℕ
  pub kernel_vma_ro_start : ℕ
  pub kernel_vma_ro_stop : ℕ

-- The loop of `vmm_init_phys_contiguous_region` from an offset on.
unfoldable pub contiguous_loop : ℕ → Compiler → ℕ → VmmRegion → ℕ → ℕ → Pmm → Result Pmm
contiguous_loop zero c directory region pa offset s = panic diverges
contiguous_loop (suc rounds) c directory region pa offset s =
    let va = add64 region.va_start offset in
    let mapped : Result Pmm =
      mmu_map_page c directory va (add64 pa offset) region.flags s >>= λ (old, s').
      panic_if (ltb 0 old) va_in_use
        (contiguous_loop rounds c directory region pa (add64 offset page_size) s') in
    if ltb va region.va_stop then mapped else ok s

unfoldable pub vmm_init_phys_contiguous_region : ℕ → Compiler → ℕ → VmmRegion → ℕ → Pmm → Result Pmm
unfolding contiguous_loop
vmm_init_phys_contiguous_region rounds c directory region pa s =
    contiguous_loop rounds c directory region pa 0 s

-- The loop of `vmm_init_direct_mapping` at a page; gives `kernel_dm_stop` too.
unfoldable pub direct_mapping_loop :
    ℕ → (c : Compiler) → PhysAddr → VmmSpace → Objects → Result (ℕ × VmmSpace × Objects)
unfolding region_pool
direct_mapping_loop zero c addr space o = panic diverges
direct_mapping_loop (suc rounds) c addr space o =
    let va = dm_p2v addr.pa in
    let flags = if is_available addr.type then page_kernel_rw else page_kernel_ro in
    vmm_add_range (region_pool c) space.region va (add64 va page_size) flags o >>= λ i.
    let o' : Objects = i.pool_state in
    mmu_map_page c space.page_directory va addr.pa flags o'.pmm >>= λ (old, s).
    let space' = record space { region = i.regions } in
    let o'' = record o' { pmm = s } in
    let next = pmm_next_phys_page s.pmap addr.pa in
    let further = direct_mapping_loop rounds c next space' o'' in
    panic_if (ltb 0 old) va_in_use (if next.pa == no_page.pa then ok (va, space', o'') else further)

unfoldable pub vmm_init_direct_mapping :
    ℕ → Compiler → VmmSpace → Objects → Result (ℕ × VmmSpace × Objects)
unfolding direct_mapping_loop
vmm_init_direct_mapping rounds c space o =
    direct_mapping_loop rounds c (pmm_next_phys_page o.pmm.pmap 0) space o

-- The region that a pointer leads to.
unfoldable pub region_at : ℕ → List VmmRegion → Result VmmRegion
region_at node [] = panic unknown_pointer
region_at node (r ∷ rs) = if r.node == node then ok r else region_at node rs

-- The physical pages of the region that a pointer leads to.
unfoldable pub init_region : ℕ → Compiler → VmmSpace → ℕ → Pmm → Result Pmm
unfolding region_at vmm_init_phys_contiguous_region
init_region rounds c space node s = region_at node space.region >>= λ r.
    vmm_init_phys_contiguous_region rounds c space.page_directory r (v2p r.va_start) s

-- The kernel's space, `kernel_dm_stop` and the rest.
unfoldable pub vmm_init : ℕ → Compiler → Layout → Objects → Result (ℕ × VmmSpace × Objects)
unfolding init_region vmm_init_direct_mapping region_pool
vmm_init rounds c l o = vmm_create_space c o >>= λ (kspace, o₁).
    vmm_add_range (region_pool c) kspace.region l.kernel_vma_rw_start l.kernel_vma_rw_stop
      page_kernel_rw o₁
    >>= λ kuefi.
        vmm_add_range (region_pool c) kuefi.regions l.kernel_vma_ro_start l.kernel_vma_ro_stop
          page_kernel_ro kuefi.pool_state
        >>= λ kcode.
            let o₂ : Objects = kcode.pool_state in
            vmm_add_range (region_pool c) kcode.regions l.kernel_vma_ro_stop o₂.pmm.pmm_vma_stop
              page_kernel_rw o₂
            >>= λ kdata.
                let space = record kspace { region = kdata.regions } in
                let o₃ : Objects = kdata.pool_state in
                init_region rounds c space kuefi.region o₃.pmm >>= λ s₁.
                init_region rounds c space kcode.region s₁ >>= λ s₂.
                init_region rounds c space kdata.region s₂ >>= λ s₃.
                vmm_init_direct_mapping rounds c space (record o₃ { pmm = s₃ })
