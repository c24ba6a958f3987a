-- ===== src/Pmm/Boot/Tests.antt =====
-- The start of the page allocator on a memory map of 129 MiB.
use b0s.Base.{ℕ, ◌+◌, ◌≡◌, refl, arith, ◌==◌, if◌then◌else◌, some, [], ◌∷◌}
use b0s.Base.Word.{kernel_vma, page_addr, roundup}
use b0s.Base.Result.{ok}
use b0s.Bitmap.Tests.{x86_compiler, blank}
use b0s.Pmm.State.{Pmm, MmapTag, Region, available, reserved}
use b0s.Pmm.Pmap.{pmap_init, no_bitmap}
use b0s.Pmm.Alloc.{pmm_alloc}
use b0s.Pmm.Alloc.Pages.{Inside}
use b0s.Pmm.Boot.{pmm_init}
use b0s.Pmm.Boot.Reserve.{IsFreeFrom}
use b0s.Pmm.Boot.Sole.{IsSole, bitmap_of, pmm_init-IsSole}

abbrev mmap : MmapTag
mmap = record {
  size = 88;
  entry_size = 24;
  entries = λ i.
      if i == 0
      then record { addr = 0xf0000; len = 0x10000; type = 2 }
      else (if i == 1
          then record { addr = 0x100000; len = 0x8100000; type = 1 }
          else record { addr = 0x10000000; len = 0x1000; type = 2 });
}

abbrev stop : ℕ
stop = kernel_vma + 0x200000

abbrev memory_region : Region
memory_region = record {
  addr = 0x200000;
  size_in_pages = 32768;
  type = available;
  bitmap = no_bitmap;
}

abbrev bios_region : Region
bios_region = record { addr = 0xf0000; size_in_pages = 16; type = reserved; bitmap = no_bitmap }

abbrev device_region : Region
device_region = record { addr = 0x10000000; size_in_pages = 1; type = reserved; bitmap = no_bitmap }

table_test : pmap_init stop mmap ≡ ok (bios_region ∷ memory_region ∷ device_region ∷ [])
unfolding pmap_init page_addr roundup
table_test = refl

sole : IsSole stop (bios_region ∷ []) memory_region (device_region ∷ [])
sole = record {
  usable = refl;
  none_before = (refl, tt);
  others = (refl, tt);
  behind = refl;
  aligned = refl;
  room = omega arith;
}

-- One page is taken for the 513 words of the bitmap, and the next is given out.
pmm_init-IsSole_example :
    (s : Pmm) × (pmm_init x86_compiler stop mmap blank ≡ ok (32767, s))
    × (s.pmap
        ≡ bios_region
          ∷ record memory_region { bitmap = bitmap_of stop memory_region }
          ∷ device_region
          ∷ [])
    × IsFreeFrom 1 s.memory (bitmap_of stop memory_region)
    × ((pmm_alloc x86_compiler s).0 ≡ some 0x201000)
    × Inside (bitmap_of stop memory_region) (0x201000 + kernel_vma)
pmm_init-IsSole_example =
    pmm_init-IsSole stop (bios_region ∷ []) memory_region (device_region ∷ []) sole blank
      x86_compiler mmap table_test (omega arith)
