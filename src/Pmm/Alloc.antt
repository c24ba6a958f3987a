-- ===== src/Pmm/Alloc.antt =====
-- `pmm_alloc`, `pmm_xalloc` and `pmm_free`.
pub mod Pages
pub mod Outcome
pub mod Take
pub mod Give
mod Tests
use b0s.Base.{
  ℕ, ◌+◌, ◌-◌, ◌/◌, ◌==◌, ltb, leb, if◌then◌else◌, ◌||◌, Option, none, some, List, [], ◌∷◌,
}
use b0s.Base.Word.{add64, sub64, mul64, v2p, page_size}
use b0s.Base.Result.{Result, ok, panic, ◌>>=◌, panic_if, no_memory, freeing_kernel, bad_free}
use b0s.Memory.{Memory}
use b0s.Bitmap.{Compiler, bitmap_find_and_set, bitmap_unset}
use b0s.Pmm.State.{Pmm, Region, RegionType, available, is_available, region_stop}

-- The loop of `pmm_alloc` over the regions; `none` is NULL. A region that turns out to be full
-- may still have its memory changed by the search.
alloc_loop : Compiler → List Region → Memory → Option ℕ × Memory
alloc_loop c [] m = (none, m)
alloc_loop c (r ∷ rs) m =
    let (j, m') = bitmap_find_and_set c r.bitmap m in
    let skipped = alloc_loop c rs m in
    let next = alloc_loop c rs m' in
    let found : Option ℕ × Memory = (some (add64 r.addr (mul64 j page_size)), m') in
    if is_available r.type then (if j == r.bitmap.len then next else found) else skipped

pub pmm_alloc : Compiler → Pmm → Option ℕ × Pmm
unfolding alloc_loop
pmm_alloc c s = let (pa, m) = alloc_loop c s.pmap s.memory in (pa, record s { memory = m })

pub pmm_xalloc : Compiler → Pmm → Result (ℕ × Pmm)
unfolding pmm_alloc
pmm_xalloc c s =
    let (ret, s') = pmm_alloc c s in elim ret [ none ↦ panic no_memory | some pa ↦ ok (pa, s') ]

free_loop : Compiler → List Region → ℕ → Memory → Result Memory
free_loop c [] ptr m = panic bad_free
free_loop c (r ∷ rs) ptr m =
    let next = free_loop c rs ptr m in
    let given = ok (bitmap_unset c r.bitmap (sub64 ptr r.addr / page_size) m) in
    if is_available r.type
    then (if leb (region_stop r) ptr || ltb ptr r.addr then next else given)
    else next

pub pmm_free : Compiler → ℕ → Pmm → Result Pmm
unfolding free_loop
pmm_free c ptr s =
    panic_if (leb ptr (v2p s.pmm_vma_stop)) freeing_kernel
      (free_loop c s.pmap ptr s.memory >>= λ m. ok (record s { memory = m }))
