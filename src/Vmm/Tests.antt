-- ===== src/Vmm/Tests.antt =====
-- The regions of an address space with two of them, 0x1000 bytes apart.
use b0s.Base.{
  ℕ, ◌+◌, ◌-◌, ◌*◌, ◌<◌, ◌≤◌, ◌≡◌, ◌⊎◌, ◌↔◌, refl, inl, inr, arith, true, none, some, List, [], ◌∷◌,
  get_elem?,
}
use b0s.Base.Result.{ok, panic, region_overlap, no_region, not_contiguous}
use b0s.Base.Word.{add64, page_size}
use b0s.Memory.{Memory}
use b0s.Vmm.Compare.{mmu_test_compare_mapping, mmu_test_compare_mapping_iff, SameRegions}
use b0s.Vmm.Space.{VmmSpace, find_gap, vmm_alloc_between}
use b0s.Vmm.Space.Between.{IsPlaced, vmm_alloc_between-IsPlaced}
use b0s.Vmm.Objects.{Objects}
use b0s.Pmm.State.{available}
use b0s.Bitmap.{bitmap_init}
use b0s.Bitmap.Tests.{x86_compiler}
use b0s.Vmm.Space.Gap.{find_gap-AddEnds}
use b0s.Vmm.Regions.{vmm_insert_range}
use b0s.Vmm.Regions.{VmmRegion, NodePool, vmm_add_range, vmm_remove_range}
use b0s.Vmm.Regions.Spec.{IsOrdered, has, flags_at}
use b0s.Vmm.Regions.Add.{AddEnds, vmm_add_range-Adds}
use b0s.Vmm.Regions.Overlap.{vmm_add_range-panic}
use b0s.Vmm.Regions.Remove.{Removes, vmm_remove_range-Removes, vmm_remove_range-panic}

-- Nodes by number, and none used twice.
abbrev counter : NodePool
counter = record { State = ℕ; block_alloc = λ st. ok (st, st + 1); block_free = λ node st. ok st }

abbrev lower : VmmRegion
lower = record { node = 1; va_start = 0x1000; va_stop = 0x2000; flags = 3 }

abbrev upper : VmmRegion
upper = record { node = 2; va_start = 0x3000; va_stop = 0x6000; flags = 3 }

abbrev regions : List VmmRegion
regions = lower ∷ upper ∷ []

regions-IsOrdered : IsOrdered 0 regions
regions-IsOrdered = (omega arith, omega arith, (omega arith, omega arith, tt))

vmm_add_range-Adds_example :
    AddEnds counter regions (vmm_add_range counter regions 0x2000 0x3000 3 9) 0x2000 0x3000 3
vmm_add_range-Adds_example =
    vmm_add_range-Adds counter 0x2000 0x3000 3 (omega arith) 9 regions regions-IsOrdered
      (inr (omega arith), (inl (omega arith), tt))

vmm_add_range-panic_example : vmm_add_range counter regions 0x1800 0x2800 3 9 ≡ panic region_overlap
vmm_add_range-panic_example =
    vmm_add_range-panic counter 0x1800 0x2800 3 9 regions 0 lower regions-IsOrdered refl
      (omega arith, omega arith)

vmm_remove_range-Removes_example :
    Removes counter regions (vmm_remove_range counter regions 0x4000 0x5000 9) 0x4000 0x5000
vmm_remove_range-Removes_example =
    vmm_remove_range-Removes counter 0x4000 0x5000 (omega arith) 9 regions 1 upper regions-IsOrdered
      refl (omega arith) (omega arith)

vmm_remove_range-panic_example :
    (flags_at regions 0x2000 ≡ none
      → vmm_remove_range counter regions 0x2000 0x7000 9 ≡ panic no_region)
    × ((k : ℕ) (r : VmmRegion)
        → get_elem? regions k ≡ some r
        → has r 0x2000 ≡ true
        → r.va_stop < 0x7000
        → vmm_remove_range counter regions 0x2000 0x7000 9 ≡ panic not_contiguous)
vmm_remove_range-panic_example =
    vmm_remove_range-panic counter 0x2000 0x7000 9 regions regions-IsOrdered

-- A region across the lower bound: the difference wraps, and the place is inside the region.
across_test : find_gap 0x3800 0x3000 0x3800 [] regions ≡ (0x3800, lower ∷ [], upper ∷ [])
unfolding find_gap
across_test = refl

-- All regions end below the lower bound: so does the room.
below_test : find_gap 0x9000 0x3000 0x9000 [] regions ≡ (0x6000, upper ∷ lower ∷ [], [])
unfolding find_gap
below_test = refl

find_gap-AddEnds_example :
    let (va, before, after) = find_gap 0x2800 0x3000 0x2800 [] regions in
    let start = add64 va page_size in
    let stop = add64 start (0x3000 - 2 * page_size) in
    AddEnds counter regions (vmm_insert_range counter before after start stop 3 9) start stop 3
    × (start ≡ va + page_size)
    × (stop + page_size ≡ va + 0x3000)
    × ((0x2800 ≤ va) ⊎ (after ≡ []))
find_gap-AddEnds_example =
    find_gap-AddEnds counter 0x2800 0x3000 3 regions 9 (omega arith) regions-IsOrdered
      ((inl (omega arith), omega arith), ((inr (omega arith), omega arith), tt)) (omega arith)

abbrev blank : Memory
blank a = 0

-- A space with these regions and an empty page directory.
abbrev space_at : ℕ → VmmSpace
space_at directory = record { address = 0x100; page_directory = directory; region = regions }

mmu_test_compare_mapping_iff_example :
    (mmu_test_compare_mapping 4 blank (space_at 0x10000) (space_at 0x20000) ≡ ok tt)
    ↔ SameRegions blank 0x10000 0x20000 regions regions
mmu_test_compare_mapping_iff_example =
    mmu_test_compare_mapping_iff 4 blank (space_at 0x10000) (space_at 0x20000)
      ((omega arith, omega arith, omega arith), ((omega arith, omega arith, omega arith), tt))

-- No blocks yet, and a page allocator of 64 pages from 0x200000 on, its bitmap at 0x100.
abbrev objects : Objects
objects = record {
  regions = [];
  spaces = [];
  pmm = record {
    pmap =
        record {
          addr = 0x200000;
          size_in_pages = 64;
          type = available;
          bitmap = (bitmap_init blank 64 0x100).bm;
        }
        ∷ [];
    pmm_vma_stop = 0;
    memory = (bitmap_init blank 64 0x100).memory;
  };
}

vmm_alloc_between-IsPlaced_example :
    IsPlaced
      (space_at 0x10000)
      objects
      0x2800
      0x90000
      2
      (vmm_alloc_between 3 x86_compiler (space_at 0x10000) 0x2800 0x90000 2 3 objects)
vmm_alloc_between-IsPlaced_example =
    vmm_alloc_between-IsPlaced 3 x86_compiler (space_at 0x10000) 0x2800 0x90000 2 3 objects
      (omega arith) regions-IsOrdered
      ((inl (omega arith), omega arith), ((inr (omega arith), omega arith), tt))
