-- ===== src/Pmm/Alloc/Give.antt =====
-- `pmm_free` gives back the one page at its address.
use b0s.Base.{ℕ, ◌+◌, ◌*◌, ◌^◌, ◌<◌, ◌≤◌, ◌≡◌, ◌≢◌, ◌⊎◌, List, [], ◌∷◌, All}
use b0s.Memory.{Memory}
use b0s.Bitmap.Slot.{slot}
use b0s.Pmm.State.{Pmm, Region, region_stop}
use b0s.Pmm.Alloc.Outcome.{IsPage}

-- A region that ends below 2^64, with a bitmap of its length.
abbrev pub IsRegion : Region → Type 0
IsRegion r =
    (r.addr + r.size_in_pages * 4096 < 2 ^ 64)
    × (r.bitmap.len ≡ r.size_in_pages)
    × (r.bitmap.len < r.bitmap.size_in_block * 64)

-- Each region ends where the next starts, or below.
abbrev pub AreOrdered : List Region → Type 0
AreOrdered [] = Unit
AreOrdered (r ∷ rs) = All (λ r'. region_stop r ≤ r'.addr) rs × AreOrdered rs

-- Page `j` of entry `k` is free in the new memory, and no other page has changed.
pub record Gave (rs : List Region) (k : ℕ) (r : Region) (j : ℕ) (m m' : Memory) : Type 0 where
  pub is_free : slot m' r.bitmap j ≡ 1
  pub others :
      (k' : ℕ) (r' : Region) (j' : ℕ)
      → IsPage rs k' r' j'
      → (k' ≢ k) ⊎ (j' ≢ j)
      → slot m' r'.bitmap j' ≡ slot m r'.bitmap j'
