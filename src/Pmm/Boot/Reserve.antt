-- ===== src/Pmm/Boot/Reserve.antt =====
-- The pages that `pmm_init` takes for the bitmap of a table with one available region.
use b0s.Base.{
  false, ℕ, zero, suc, ◌+◌, ◌-◌, ◌*◌, ◌^◌, ◌<◌, ◌≤◌, ◌≡◌, arith, ltb, if◌then◌else◌, true, List,
  ◌∷◌,
}
use b0s.Base.{◌++◌, All}
use b0s.Base.Word.{add64, sub64, page_size}
use b0s.Base.Result.{ok}
use b0s.Memory.{Memory}
use b0s.Bitmap.{Compiler, Bitmap, bitmap_find_and_set}
use b0s.Bitmap.Slot.{slot}
use b0s.Bitmap.Find.{bitmap_find_and_set_least}
use b0s.Pmm.State.{Pmm, Region, is_available}
use b0s.Pmm.Alloc.Outcome.{Lowest}
use b0s.Pmm.Alloc.Take.{pmm_alloc-head}
use b0s.Pmm.Boot.{reserve_loop}

-- The slots below `t` are taken, the others free.
abbrev pub IsFreeFrom : ℕ → Memory → Bitmap → Type 0
IsFreeFrom t m bm = (j : ℕ) → j < bm.size_in_block * 64 → slot m bm j ≡ (if ltb j t then 0 else 1)

pub free_from-Lowest :
    (t : ℕ) (m : Memory) (bm : Bitmap)
    → t < bm.size_in_block * 64
    → IsFreeFrom t m bm
    → Lowest m bm t
free_from-Lowest t m bm lt from = record {
  below = lt;
  free = ground (arith, from t lt);
  first = λ j before. ground (arith, from j (omega arith));
}

module _ (c : Compiler) (front : List Region) (r : Region) (rs : List Region) (stop : ℕ)
    (none_before : All (λ r'. is_available r'.type ≡ false) front)
    (usable : is_available r.type ≡ true) (fits : r.bitmap.len ≤ r.bitmap.size_in_block * 64) where
  abbrev state : Memory → Pmm
  state m = record { pmap = front ++ r ∷ rs; pmm_vma_stop = stop; memory = m }

  pub taken-IsFreeFrom :
      (t : ℕ) (m : Memory)
      → t < r.bitmap.len
      → IsFreeFrom t m r.bitmap
      → IsFreeFrom (suc t) (bitmap_find_and_set c r.bitmap m).1 r.bitmap
  taken-IsFreeFrom t m lt from j inside =
      let low = free_from-Lowest t m r.bitmap (omega arith) from in
      let step = bitmap_find_and_set_least c m r.bitmap t low.below low.free low.first in
      ground (arith, step.1 j, from j inside)

  pub reserve_loop-takes :
      (fuel left t pa pages : ℕ) (m : Memory)
      → left < fuel
      → t + left ≤ r.bitmap.len
      → pa + left * 4096 < 2 ^ 64
      → left ≤ pages
      → pages < 2 ^ 64
      → IsFreeFrom t m r.bitmap
      → (m' : Memory) × (reserve_loop fuel c pa (pa + left * 4096) pages (state m)
          ≡ ok (pages - left, state m'))
        × IsFreeFrom (t + left) m' r.bitmap
  unfolding reserve_loop
  reserve_loop-takes zero left t pa pages m lt room low many small from = absurd (omega arith)
  reserve_loop-takes (suc fuel) zero t pa pages m lt room low many small from =
      (m, ground arith, λ j h. ground (arith, from j h))
  reserve_loop-takes (suc fuel) (suc left) t pa pages m lt room low many small from =
      let lowest = free_from-Lowest t m r.bitmap (omega arith) from in
      let step = pmm_alloc-head c front r rs stop m t none_before usable lowest (omega arith) in
      let m₁ = (bitmap_find_and_set c r.bitmap m).1 in
      let (m', done, from') =
        reserve_loop-takes fuel left (suc t) (pa + 4096) (pages - 1) m₁ (omega arith) (omega arith)
          (omega arith) (omega arith) (omega arith) (taken-IsFreeFrom t m (omega arith) from) in
      let more : ltb pa (pa + suc left * 4096) ≡ true = ground arith in
      let next : add64 pa page_size ≡ pa + 4096 = omega arith in
      let end : pa + suc left * 4096 ≡ pa + 4096 + left * 4096 = omega arith in
      let count : sub64 pages 1 ≡ pages - 1 = omega arith in
      let all : pages - suc left ≡ pages - 1 - left = omega arith in
      (m', rw (more, next, end, count, step, all) done, λ j h. ground (arith, from' j h))
