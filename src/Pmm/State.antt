-- ===== src/Pmm/State.antt =====
-- The data of kernel/mm/pmm.h and the memory map of kernel/multiboot2.h.
use b0s.Base.{ℕ, List, Bool, true, false}
use b0s.Base.Word.{add64, mul64, page_size}
use b0s.Memory.{Memory}
use b0s.Bitmap.{Bitmap}

-- `PMAP_SIZE`
abbrev pub pmap_capacity : ℕ
pmap_capacity = 10

-- `enum pmm_region_type`
pub data RegionType : Type 0 where
  available reserved : RegionType

abbrev pub is_available : RegionType → Bool
is_available available = true
is_available reserved = false

-- `struct pmm_region`
pub record Region : Type 0 where
  pub addr : ℕ
  pub size_in_pages : ℕ
  pub type : RegionType
  pub bitmap : Bitmap

-- The first address behind a region.
abbrev pub region_stop : Region → ℕ
region_stop r = add64 r.addr (mul64 r.size_in_pages page_size)

-- `struct pmm_phys_addr`
pub record PhysAddr : Type 0 where
  pub type : RegionType
  pub pa : ℕ

-- The static variables of pmm.c, with the memory. `pmap_size` is the length of `pmap`.
pub record Pmm : Type 0 where
  pub pmap : List Region
  pub pmm_vma_stop : ℕ
  pub memory : Memory

-- `struct multiboot_mmap_entry`
pub record MmapEntry : Type 0 where
  pub addr : ℕ
  pub len : ℕ
  pub type : ℕ

-- `struct multiboot_tag_mmap`; `entries` is what stands at each index.
pub record MmapTag : Type 0 where
  pub size : ℕ
  pub entry_size : ℕ
  pub entries : ℕ → MmapEntry
