-- ===== src/Pmm/Sort/Pairs.antt =====
-- What holds between any two entries of the table still does when `pmap_sort` has moved them.
use b0s.Base.{ℕ, zero, suc, List, [], ◌∷◌, get_or, set, All, length}
use b0s.Pmm.State.{Region}
use b0s.Pmm.Sort.{min_offset, swap_first, sort_range, pmap_sort}
use b0s.Pmm.Sort.Sorted.{All-set, All-get_or, All-sort_range}

module _ (R : Region → Region → Type 0) where
  abbrev pub AllPairs : List Region → Type 0
  AllPairs [] = Unit
  AllPairs (r ∷ rs) = All (R r) rs × AllPairs rs

module _ (R : Region → Region → Type 0) (swap : (a b : Region) → R a b → R b a) where
  -- From `a` to each is the same as from each to `a`.
  All-flip : (a : Region) (rs : List Region) → All (λ r. R r a) rs → All (R a) rs
  All-flip a [] all = tt
  All-flip a (r ∷ rs) all = (swap r a all.0, All-flip a rs all.1)

  AllPairs-set :
      (rs : List Region) (i : ℕ) (r : Region)
      → AllPairs R (r ∷ rs)
      → AllPairs R (get_or rs i r ∷ set rs i r)
  AllPairs-set [] i r p = p
  AllPairs-set (x ∷ xs) zero r ((rx, rs), (xs_all, p)) = ((swap r x rx, xs_all), (rs, p))
  AllPairs-set (x ∷ xs) (suc i) r ((rx, rs), (xs_all, p)) =
      let further = AllPairs-set xs i r (rs, p) in
      let x_r = swap r x rx in
      (
        (swap x (get_or xs i r) (All-get_or (R x) xs i r xs_all x_r), further.0),
        (All-set (R x) xs i r xs_all x_r, further.1),
      )

  AllPairs-swap_first :
      (k : ℕ) (r : Region) (rs : List Region)
      → AllPairs R (r ∷ rs)
      → AllPairs R ((swap_first k r rs).0 ∷ (swap_first k r rs).1)
  unfolding swap_first
  AllPairs-swap_first zero r rs p = p
  AllPairs-swap_first (suc k) r rs p = AllPairs-set rs k r p

  AllPairs-sort_range : (n : ℕ) (rs : List Region) → AllPairs R rs → AllPairs R (sort_range n rs)
  unfolding sort_range
  AllPairs-sort_range zero rs p = p
  AllPairs-sort_range (suc zero) rs p = p
  AllPairs-sort_range (suc (suc n)) [] p = tt
  AllPairs-sort_range (suc (suc n)) (r ∷ rs) p =
      let out = swap_first (min_offset r.addr 0 1 rs) r rs in
      let swapped = AllPairs-swap_first (min_offset r.addr 0 1 rs) r rs p in
      (
        All-sort_range (R out.0) (suc n) out.1 swapped.0,
        AllPairs-sort_range (suc n) out.1 swapped.1,
      )

  pub AllPairs-pmap_sort : (pmap : List Region) → AllPairs R pmap → AllPairs R (pmap_sort pmap)
  unfolding pmap_sort
  AllPairs-pmap_sort pmap p = AllPairs-sort_range (length pmap) pmap p

pub All-pmap_sort : (P : Region → Type 0) (pmap : List Region) → All P pmap → All P (pmap_sort pmap)
unfolding pmap_sort
All-pmap_sort P pmap all = All-sort_range P (length pmap) pmap all
