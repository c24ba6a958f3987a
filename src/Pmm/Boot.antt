-- ===== src/Pmm/Boot.antt =====
-- `pmm_init`: the table, a bitmap for each available region, and the pages of the bitmaps.
pub mod Reserve
pub mod Sole
mod Tests
use b0s.Base.{ℕ, zero, suc, ◌^◌, ltb, if◌then◌else◌, List, [], ◌∷◌}
use b0s.Base.Word.{add64, sub64, roundup, v2p, page_size}
use b0s.Base.Result.{Result, ok, panic, ◌>>=◌, diverges}
use b0s.Memory.{Memory}
use b0s.Bitmap.{Compiler, bitmap_init}
use b0s.Pmm.State.{Pmm, Region, is_available, MmapTag}
use b0s.Pmm.Pmap.{pmap_init}
use b0s.Pmm.Alloc.{pmm_alloc}

-- The state of the loop over the regions: `bitmap_alloc`, `available_pages` and the memory.
pub record Bitmaps : Type 0 where
  pub pmap : List Region
  pub bitmap_alloc : ℕ
  pub available_pages : ℕ
  pub memory : Memory

pub create_bitmaps : List Region → ℕ → ℕ → Memory → Bitmaps
create_bitmaps [] bitmap_alloc pages m = record {
  pmap = [];
  bitmap_alloc = bitmap_alloc;
  available_pages = pages;
  memory = m;
}
create_bitmaps (r ∷ rs) bitmap_alloc pages m =
    let made = bitmap_init m r.size_in_pages bitmap_alloc in
    let used = create_bitmaps rs made.next (add64 pages r.size_in_pages) made.memory in
    let skipped = create_bitmaps rs bitmap_alloc pages m in
    if is_available r.type
    then record used { pmap = record r { bitmap = made.bm } ∷ used.pmap }
    else record skipped { pmap = r ∷ skipped.pmap }

-- `for (pa = …; pa < stop; pa += PAGE_SIZE) { pmm_alloc(); --available_pages; }`
pub reserve_loop : ℕ → Compiler → ℕ → ℕ → ℕ → Pmm → Result (ℕ × Pmm)
reserve_loop zero c pa stop pages s = panic diverges
reserve_loop (suc fuel) c pa stop pages s =
    let s' = (pmm_alloc c s).1 in
    let rest = reserve_loop fuel c (add64 pa page_size) stop (sub64 pages 1) s' in
    if ltb pa stop then rest else ok (pages, s)

-- Returns the count of available pages, and the state.
pub pmm_init : Compiler → ℕ → MmapTag → Memory → Result (ℕ × Pmm)
pmm_init c kernel_vma_stop mmap m = do
  pmap ← pmap_init kernel_vma_stop mmap
  let b = create_bitmaps pmap kernel_vma_stop 0 m
  let stop = roundup (sub64 b.bitmap_alloc 1) page_size
  let s : Pmm = record { pmap = b.pmap; pmm_vma_stop = stop; memory = b.memory }
  reserve_loop (2 ^ 52) c (v2p kernel_vma_stop) (v2p stop) b.available_pages s
