-- ===== src/Pmm/Sort/Sorted.antt =====
-- `pmap_sort` sorts: the result is in order of address and holds the same entries.
use b0s.Base.{
  ℕ, zero, suc, ◌+◌, ◌<◌, ◌≤◌, ◌≡◌, ◌⊎◌, refl, inl, inr, arith, ltb, true, false, Bool-cases, List,
  [], ◌∷◌, length, get_or, set, All, length-set,
}
use mathlib.Core.List.{Perm}
use mathlib.Core.List.Perm
use b0s.Pmm.State.{Region}
use b0s.Pmm.Sort.{min_offset, swap_first, sort_range, pmap_sort}

abbrev pub AtLeast : ℕ → Region → Type 0
AtLeast low r = low ≤ r.addr

-- In growing order of address.
abbrev pub IsSorted : List Region → Type 0
IsSorted [] = Unit
IsSorted (r ∷ rs) = All (AtLeast r.addr) rs × IsSorted rs

-- The offset is that of the start, with nothing lower, or that of the lowest entry after it.
abbrev IsLowest : ℕ → ℕ → ℕ → List Region → ℕ → Type 0
IsLowest low k j rs out =
    ((out ≡ k) × All (AtLeast low) rs)
    ⊎ ((i : ℕ) × (out ≡ j + i)
        × (i < length rs)
        × ((d : Region) → (get_or rs i d).addr < low)
        × ((d : Region) → All (AtLeast (get_or rs i d).addr) rs))

All-weaken : (a b : ℕ) (rs : List Region) → a ≤ b → All (AtLeast b) rs → All (AtLeast a) rs
All-weaken a b [] h all = tt
All-weaken a b (r ∷ rs) h all = (omega arith, All-weaken a b rs h all.1)

module _ (low k j : ℕ) (r : Region) (rs : List Region) {out : ℕ} where
  IsLowest-took :
      ltb r.addr low ≡ true → IsLowest r.addr j (j + 1) rs out → IsLowest low k j (r ∷ rs) out
  IsLowest-took h (inl (e, all)) =
      inr (0, omega arith, omega arith, λ d. ground arith, λ d. (omega arith, all))
  IsLowest-took h (inr (i, e, lt, less, all)) = inr (
    suc i,
    omega arith,
    omega arith,
    λ d. ground (arith, less d),
    λ d. (omega (arith, less d), all d),
  )

  IsLowest-kept :
      ltb r.addr low ≡ false → IsLowest low k (j + 1) rs out → IsLowest low k j (r ∷ rs) out
  IsLowest-kept h (inl (e, all)) = inl (e, (ground arith, all))
  IsLowest-kept h (inr (i, e, lt, less, all)) =
      inr (suc i, omega arith, omega arith, less, λ d. (ground (arith, less d), all d))

min_offset-IsLowest : (low k j : ℕ) (rs : List Region) → IsLowest low k j rs (min_offset low k j rs)
unfolding min_offset
min_offset-IsLowest low k j [] = inl (refl, tt)
min_offset-IsLowest low k j (r ∷ rs) = elim (Bool-cases (ltb r.addr low)) [
  | inl smaller ↦
      rw smaller (IsLowest-took low k j r rs smaller (min_offset-IsLowest r.addr j (j + 1) rs))
  | inr larger ↦
      rw larger (IsLowest-kept low k j r rs larger (min_offset-IsLowest low k (j + 1) rs))
]

module _ (P : Region → Type 0) where
  pub All-set : (rs : List Region) (i : ℕ) (r : Region) → All P rs → P r → All P (set rs i r)
  All-set [] i r all p = tt
  All-set (x ∷ xs) zero r all p = (p, all.1)
  All-set (x ∷ xs) (suc i) r all p = (all.0, All-set xs i r all.1 p)

  pub All-get_or : (rs : List Region) (i : ℕ) (r : Region) → All P rs → P r → P (get_or rs i r)
  All-get_or [] i r all p = p
  All-get_or (x ∷ xs) zero r all p = all.0
  All-get_or (x ∷ xs) (suc i) r all p = All-get_or xs i r all.1 p

  All-swap_first :
      (k : ℕ) (r : Region) (rs : List Region)
      → P r
      → All P rs
      → P (swap_first k r rs).0 × All P (swap_first k r rs).1
  unfolding swap_first
  All-swap_first zero r rs p all = (p, all)
  All-swap_first (suc k) r rs p all = (All-get_or rs k r all p, All-set rs k r all p)

  pub All-sort_range : (n : ℕ) (rs : List Region) → All P rs → All P (sort_range n rs)
  unfolding sort_range
  All-sort_range zero rs all = all
  All-sort_range (suc zero) rs all = all
  All-sort_range (suc (suc n)) [] all = tt
  All-sort_range (suc (suc n)) (r ∷ rs) all =
      let swapped = All-swap_first (min_offset r.addr 0 1 rs) r rs all.0 all.1 in
      (swapped.0, All-sort_range (suc n) (swap_first (min_offset r.addr 0 1 rs) r rs).1 swapped.1)

-- After the exchange the first entry is the lowest.
swap_first-lowest :
    (r : Region) (rs : List Region) (k : ℕ)
    → IsLowest r.addr 0 1 rs k
    → let out = swap_first k r rs in All (AtLeast out.0.addr) out.1
unfolding swap_first
swap_first-lowest r rs zero (inl (e, all)) = all
swap_first-lowest r rs (suc k) (inl (e, all)) = absurd (omega arith)
swap_first-lowest r rs zero (inr (i, e, lt, less, all)) = absurd (omega arith)
swap_first-lowest r rs (suc k) (inr (i, e, lt, less, all)) =
    let same : k ≡ i = omega arith in
    rw same (All-set (AtLeast (get_or rs i r).addr) rs i r (all r) (omega (arith, less r)))

length-swap_first :
    (k : ℕ) (r : Region) (rs : List Region) → length (swap_first k r rs).1 ≡ length rs
unfolding swap_first
length-swap_first zero r rs = refl
length-swap_first (suc k) r rs = length-set rs k r

sort_range-IsSorted : (n : ℕ) (rs : List Region) → n ≡ length rs → IsSorted (sort_range n rs)
unfolding sort_range
sort_range-IsSorted zero [] e = tt
sort_range-IsSorted zero (r ∷ rs) e = absurd (omega arith)
sort_range-IsSorted (suc zero) [] e = absurd (omega arith)
sort_range-IsSorted (suc zero) (r ∷ []) e = (tt, tt)
sort_range-IsSorted (suc zero) (r ∷ x ∷ rs) e = absurd (omega arith)
sort_range-IsSorted (suc (suc n)) [] e = tt
sort_range-IsSorted (suc (suc n)) (r ∷ rs) e =
    let k = min_offset r.addr 0 1 rs in
    let out = swap_first k r rs in
    let low = swap_first-lowest r rs k (min_offset-IsLowest r.addr 0 1 rs) in
    (
      All-sort_range (AtLeast out.0.addr) (suc n) out.1 low,
      sort_range-IsSorted (suc n) out.1 (omega (arith, length-swap_first k r rs)),
    )

perm-set :
    (rs : List Region) (i : ℕ) (r : Region)
    → i < length rs
    → Perm (get_or rs i r ∷ set rs i r) (r ∷ rs)
perm-set [] i r lt = absurd (omega arith)
perm-set (x ∷ xs) zero r lt = Perm.swap r x xs
perm-set (x ∷ xs) (suc i) r lt =
    Perm.trans (Perm.swap x (get_or xs i r) (set xs i r))
      (Perm.trans (Perm.cons x (perm-set xs i r (omega arith))) (Perm.swap r x xs))

perm-swap_first :
    (r : Region) (rs : List Region) (k : ℕ)
    → IsLowest r.addr 0 1 rs k
    → let out = swap_first k r rs in Perm (out.0 ∷ out.1) (r ∷ rs)
unfolding swap_first
perm-swap_first r rs zero low = Perm.refl (r ∷ rs)
perm-swap_first r rs (suc k) (inl (e, all)) = absurd (omega arith)
perm-swap_first r rs (suc k) (inr (i, e, lt, less, all)) = perm-set rs k r (omega arith)

sort_range-perm : (n : ℕ) (rs : List Region) → Perm (sort_range n rs) rs
unfolding sort_range
sort_range-perm zero rs = Perm.refl rs
sort_range-perm (suc zero) rs = Perm.refl rs
sort_range-perm (suc (suc n)) [] = Perm.refl []
sort_range-perm (suc (suc n)) (r ∷ rs) =
    let k = min_offset r.addr 0 1 rs in
    let out = swap_first k r rs in
    Perm.trans (Perm.cons out.0 (sort_range-perm (suc n) out.1))
      (perm-swap_first r rs k (min_offset-IsLowest r.addr 0 1 rs))

-- `pmap_sort` leaves the table in growing order of address, with the same entries.
pub pmap_sort-IsSorted :
    (pmap : List Region) → IsSorted (pmap_sort pmap) × Perm (pmap_sort pmap) pmap
unfolding pmap_sort
pmap_sort-IsSorted pmap =
    (sort_range-IsSorted (length pmap) pmap refl, sort_range-perm (length pmap) pmap)
