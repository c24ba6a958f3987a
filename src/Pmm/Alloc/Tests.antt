-- ===== src/Pmm/Alloc/Tests.antt =====
-- The page allocator on a table of one region with three pages.
use b0s.Base.{
  leb, ltb, ◌&&◌, ◌==◌, if◌then◌else◌, ℕ, ◌+◌, ◌<◌, ◌≡◌, refl, arith, some, List, [], ◌∷◌, All,
}
use b0s.Base.Word.{add64, mul64, page_size, kernel_vma}
use b0s.Bitmap.{bitmap_init}
use b0s.Bitmap.Slot.{slot}
use b0s.Bitmap.Fresh.{bitmap_init-free}
use b0s.Bitmap.Tests.{x86_compiler, blank, blank_word}
use b0s.Pmm.State.{Pmm, Region, available}
use b0s.Pmm.Alloc.{pmm_alloc}
use b0s.Pmm.Alloc.Outcome.{IsReady, TakesFirst}
use b0s.Pmm.Alloc.Take.{pmm_alloc-TakesFirst, pmm_alloc_uninit}
use b0s.Pmm.Alloc.Give.{IsRegion}

abbrev region : Region
region = record {
  addr = 0x200000;
  size_in_pages = 3;
  type = available;
  bitmap = record { len = 3; size_in_block = 1; bitmap = 0x100 };
}

abbrev table : List Region
table = region ∷ []

abbrev low_region : Region
low_region = record region { addr = 0x100000 }

-- All three pages are free.
abbrev start : Pmm
start = record {
  pmap = table;
  pmm_vma_stop = kernel_vma + 0x1000;
  memory = (bitmap_init blank 3 0x100).memory;
}

start_free : (j : ℕ) → j < 64 → slot start.memory region.bitmap j ≡ 1
unfolding bitmap_init
start_free j lt = (bitmap_init-free blank 3 0x100).0 j lt

start-IsReady : All (IsReady start.memory) table
start-IsReady = (
  (
    omega arith,
    λ u. (
      0,
      record {
        below = omega arith;
        free = start_free 0 (omega arith);
        first = λ j lt. absurd (omega arith);
      },
    ),
  ),
  tt,
)

table_regions : All IsRegion table
table_regions = ((omega arith, refl, omega arith), tt)

pmm_alloc-TakesFirst_example :
    let out = pmm_alloc x86_compiler start in
    TakesFirst table start.memory out.1.memory out.0 × (out.1.pmap ≡ table)
pmm_alloc-TakesFirst_example = pmm_alloc-TakesFirst x86_compiler start start-IsReady (tt, tt)

-- A table of one region with 40 pages, of which the first 33 are taken.
abbrev long_region : Region
long_region = record region {
  size_in_pages = 40;
  bitmap = record { len = 40; size_in_block = 1; bitmap = 0x100 };
}

abbrev long_table : List Region
long_table = long_region ∷ []

abbrev used : Pmm
used = record {
  pmap = long_table;
  pmm_vma_stop = kernel_vma + 0x1000;
  memory = λ a. if a == 0x103 then 0x7f else (if leb 0x100 a && ltb a 0x103 then 0xff else 0);
}

pmm_alloc_uninit_example :
    let s : Pmm = record { pmap = table; pmm_vma_stop = 0; memory = blank } in
    pmm_alloc x86_compiler s ≡ (some (add64 0x200000 (mul64 0 page_size)), s)
pmm_alloc_uninit_example =
    pmm_alloc_uninit x86_compiler region [] 0 blank refl (λ j lt. blank_word region.bitmap j)
      (omega arith)
