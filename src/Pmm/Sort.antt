-- ===== src/Pmm/Sort.antt =====
-- `pmap_sort`: selection sort of the table by address, by swapping within the array.
pub mod Sorted
pub mod Pairs
use b0s.Base.{ℕ, zero, suc, ◌+◌, ltb, if◌then◌else◌, List, [], ◌∷◌, length, get_or, set}
use b0s.Pmm.State.{Region}

-- The inner loop at offset `j` from `start`: the offset of `min`, whose address is `low`.
unfoldable pub min_offset : ℕ → ℕ → ℕ → List Region → ℕ
min_offset low k j [] = k
min_offset low k j (r ∷ rs) =
    let smaller = ltb r.addr low in
    min_offset (if smaller then r.addr else low) (if smaller then j else k) (j + 1) rs

-- The exchange of the entry at `start` with the one at offset `k` from it.
unfoldable pub swap_first : ℕ → Region → List Region → Region × List Region
swap_first zero r rs = (r, rs)
swap_first (suc k) r rs = (get_or rs k r, set rs k r)

-- The outer loop: `range` entries are left, the list, of which the first is at `start`.
unfoldable pub sort_range : ℕ → List Region → List Region
unfolding min_offset swap_first
sort_range zero rs = rs
sort_range (suc zero) rs = rs
sort_range (suc (suc range)) [] = []
sort_range (suc (suc range)) (r ∷ rs) =
    let (least, rest) = swap_first (min_offset r.addr 0 1 rs) r rs in
    least ∷ sort_range (suc range) rest

unfoldable pub pmap_sort : List Region → List Region
unfolding sort_range
pmap_sort pmap = sort_range (length pmap) pmap
