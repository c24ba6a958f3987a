-- ===== src/Pmm/Pmap/Tests.antt =====
-- The table of a small memory map.
use b0s.Base.{ℕ, ◌+◌, ◌<◌, ◌≡◌, arith, ◌==◌, if◌then◌else◌, true}
use b0s.Base.Word.{kernel_vma}
use b0s.Pmm.State.{MmapTag}
use b0s.Pmm.Pmap.{pmap_init}
use b0s.Pmm.Pmap.Span.{HasRoom}
use b0s.Pmm.Pmap.Table.{is_used, regions_of, PmapEnds, pmap_init-PmapEnds}

-- Memory from 0x100000 on, a reserved page, and an entry that is not taken. The kernel ends at
-- 0x200000.
abbrev mmap : MmapTag
mmap = record {
  size = 88;
  entry_size = 24;
  entries = λ i.
      if i == 0
      then record { addr = 0x100000; len = 0x700000; type = 1 }
      else (if i == 1
          then record { addr = 0x800000; len = 0x1000; type = 2 }
          else record { addr = 0; len = 0; type = 3 });
}

abbrev stop : ℕ
stop = kernel_vma + 0x200000

mmap-HasRoom : (k : ℕ) → k < 3 → is_used (mmap.entries k) ≡ true → HasRoom stop (mmap.entries k)
mmap-HasRoom k lt used = record { word = ground arith; left = ground arith }

pmap_init-PmapEnds_example : PmapEnds (regions_of stop mmap 3 0) (pmap_init stop mmap)
pmap_init-PmapEnds_example = pmap_init-PmapEnds stop mmap mmap-HasRoom
