-- ===== src/Pmm/Pmap/Table.antt =====
-- The table that `pmap_init` builds.
use b0s.Base.{
  ℕ, zero, suc, ◌+◌, ◌/◌, ◌≤◌, ◌<◌, ◌≡◌, ◌⊎◌, inl, inr, refl, ap, ◌∙◌, sym, arith, ◌==◌, leb,
  if◌then◌else◌, Bool, true, false, ◌&&◌, ◌||◌, Bool-cases, List, [], ◌∷◌, ◌++◌, some, All, length,
  get_elem?, length-append, get_elem?-append, get_elem?-middle,
}
use mathlib.Core.List.{append_assoc, append-nil, Perm}
use mathlib.Core.Path.{subst}
use b0s.Base.Word.{u32, sub64}
use b0s.Base.Result.{Result, ok, panic, memory_overlap, pmap_full}
use b0s.Pmm.State.{Region, MmapEntry, MmapTag, region_stop}
use b0s.Pmm.Sort.{pmap_sort}
use b0s.Pmm.Sort.Sorted.{IsSorted, AtLeast, pmap_sort-IsSorted}
use b0s.Pmm.Alloc.Give.{AreOrdered}
use b0s.Pmm.Sort.Pairs.{All-pmap_sort, AllPairs, AllPairs-pmap_sort}
use b0s.Pmm.Pmap.{region_of, addr_stop_of, overlaps, pmap_insert, pmap_init_loop, pmap_init}
use b0s.Pmm.Pmap.Span.{HasRoom, IsSpan, IsSpanOf, region_of-IsSpanOf}

-- Two regions that share no page, and two that do.
abbrev pub AreApart : Region → Region → Type 0
AreApart a b = (region_stop a ≤ b.addr) ⊎ (region_stop b ≤ a.addr)

abbrev pub DoMeet : Region → Region → Type 0
DoMeet a b = (a.addr < region_stop b) × (b.addr < region_stop a)

AreApart-swap : (a b : Region) → AreApart a b → AreApart b a
AreApart-swap a b (inl h) = inr h
AreApart-swap a b (inr h) = inl h

overlaps-AreApart :
    (r : Region) (rs : List Region)
    → overlaps r.addr (region_stop r) rs ≡ false
    → All (λ x. AreApart x r) rs
unfolding overlaps
overlaps-AreApart r [] e = tt
overlaps-AreApart r (x ∷ xs) e = (ground arith, overlaps-AreApart r xs (ground arith))

overlaps-DoMeet :
    (r : Region) (rs : List Region)
    → overlaps r.addr (region_stop r) rs ≡ true
    → (i : ℕ) × (x : Region) × (get_elem? rs i ≡ some x) × DoMeet x r
unfolding overlaps
overlaps-DoMeet r [] e = cc
overlaps-DoMeet r (x ∷ xs) e = elim (Bool-cases (overlaps r.addr (region_stop r) xs)) [
  | inl later ↦ let (i, y, at, meet) = overlaps-DoMeet r xs later in (suc i, y, at, meet)
  | inr here ↦ (0, x, refl, ground arith)
]

-- An entry that the table takes: reserved memory, or available memory from the end of the BIOS on.
abbrev pub is_used : MmapEntry → Bool
is_used entry = (entry.type == 1 && leb 0x100000 entry.addr) || entry.type == 2

-- The regions of the entries from `i` on that are taken, in their order.
pub regions_of : ℕ → MmapTag → ℕ → ℕ → List Region
regions_of kernel_vma_stop mmap zero i = []
regions_of kernel_vma_stop mmap (suc left) i =
    let rest = regions_of kernel_vma_stop mmap left (i + 1) in
    if is_used (mmap.entries i) then region_of kernel_vma_stop (mmap.entries i) ∷ rest else rest

-- Two of the regions share memory.
abbrev pub SomeMeet : List Region → Type 0
SomeMeet rs =
    (i j : ℕ) × (a b : Region) × (i < j)
    × (get_elem? rs i ≡ some a)
    × (get_elem? rs j ≡ some b)
    × DoMeet a b

-- What the loop makes of all the regions, those in the table and those to come.
data LoopEnds (rs : List Region) (r : Result (List Region)) : Type 0 where
  built : r ≡ ok rs → AllPairs AreApart rs → All IsSpan rs → length rs ≤ 10 → LoopEnds rs r
  meets : r ≡ panic memory_overlap → SomeMeet rs → LoopEnds rs r
  too_many : r ≡ panic pmap_full → 10 < length rs → LoopEnds rs r

All-snoc :
    (P : Region → Type 0) (ys : List Region) (y : Region) → All P ys → P y → All P (ys ++ (y ∷ []))
All-snoc P [] y h p = (p, tt)
All-snoc P (z ∷ zs) y h p = (h.0, All-snoc P zs y h.1 p)

AllPairs-snoc :
    (R : Region → Region → Type 0) (xs : List Region) (r : Region)
    → AllPairs R xs
    → All (λ x. R x r) xs
    → AllPairs R (xs ++ (r ∷ []))
AllPairs-snoc R [] r p all = (tt, tt)
AllPairs-snoc R (x ∷ xs) r p all = (All-snoc (R x) xs r p.0 all.0, AllPairs-snoc R xs r p.1 all.1)

get_elem?-lt : (xs : List Region) (i : ℕ) (x : Region) → get_elem? xs i ≡ some x → i < length xs
get_elem?-lt [] i x e = cc
get_elem?-lt (y ∷ ys) zero x e = omega arith
get_elem?-lt (y ∷ ys) (suc i) x e = omega (arith, get_elem?-lt ys i x e)

regroup :
    (pmap : List Region) (r : Region) (rest : List Region)
    → (pmap ++ (r ∷ [])) ++ rest ≡ pmap ++ (r ∷ rest)
regroup pmap r rest = append_assoc pmap (r ∷ []) rest

module _ (kernel_vma_stop : ℕ) (entry : MmapEntry) (pmap : List Region) where
  -- One entry into the table, by whether one of those before is hit.
  pmap_insert-hit :
      (hit : Bool)
      → IsSpanOf kernel_vma_stop entry
      → let r = region_of kernel_vma_stop entry in
        overlaps r.addr (region_stop r) pmap ≡ hit
        → pmap_insert kernel_vma_stop entry pmap
          ≡ (if hit then panic memory_overlap else ok (pmap ++ (r ∷ [])))
  unfolding pmap_insert
  pmap_insert-hit hit span e =
      let r = region_of kernel_vma_stop entry in
      let tested : overlaps r.addr (addr_stop_of kernel_vma_stop entry) pmap ≡ hit =
        ap (λ (q : ℕ). overlaps r.addr q pmap) span.checked ∙ e in
      elim hit
          as (λ b.
            overlaps r.addr (addr_stop_of kernel_vma_stop entry) pmap ≡ b
            → pmap_insert kernel_vma_stop entry pmap
              ≡ (if b then panic memory_overlap else ok (pmap ++ (r ∷ [])))) [
                | true ↦ λ h. rw h
                | false ↦ λ h. rw h
              ]
        tested

module _ (kernel_vma_stop : ℕ) (mmap : MmapTag) where
  -- Every entry that is taken, of those from `i` on, has room.
  abbrev HaveRoom : ℕ → ℕ → Type 0
  HaveRoom left i =
      (k : ℕ)
      → i ≤ k
      → k < i + left
      → is_used (mmap.entries k) ≡ true
      → HasRoom kernel_vma_stop (mmap.entries k)

  pmap_init_loop-ends :
      (left i : ℕ) (pmap : List Region)
      → HaveRoom left i
      → AllPairs AreApart pmap
      → All IsSpan pmap
      → length pmap ≤ 10
      → LoopEnds
          (pmap ++ regions_of kernel_vma_stop mmap left i)
          (pmap_init_loop kernel_vma_stop mmap left i pmap)
  unfolding pmap_init_loop regions_of pmap_insert
  pmap_init_loop-ends zero i pmap room apart spans few =
      let e = append-nil pmap in built (ap ok (sym e)) (rw e apart) (rw e spans) (rw e few)
  pmap_init_loop-ends (suc left) i pmap room apart spans few =
      let entry = mmap.entries i in
      let r = region_of kernel_vma_stop entry in
      let rest = regions_of kernel_vma_stop mmap left (i + 1) in
      let later : HaveRoom left (i + 1) = λ k lo hi. room k (omega arith) (omega arith) in
      elim (Bool-cases (is_used entry)) [
        | inr skipped ↦ rw skipped (pmap_init_loop-ends left (i + 1) pmap later apart spans few)
        | inl used ↦ elim (Bool-cases (leb 10 (length pmap))) [
          | inl full ↦
              rw (used, full) (too_many refl (ground (arith, length-append pmap (r ∷ rest))))
          | inr space ↦
              let span =
                region_of-IsSpanOf kernel_vma_stop entry
                  (room i (omega arith) (omega arith) used) in
              let not_255 : (length pmap == 255) ≡ false = ground arith in
              elim (Bool-cases (overlaps r.addr (region_stop r) pmap)) [
                | inl hit ↦
                    let (k, x, at, meet) = overlaps-DoMeet r pmap hit in
                    let refused = pmap_insert-hit kernel_vma_stop entry pmap true span hit in
                    rw (used, space, not_255, refused)
                      (meets refl (
                        k,
                        length pmap,
                        x,
                        r,
                        get_elem?-lt pmap k x at,
                        get_elem?-append pmap (r ∷ rest) k x at,
                        get_elem?-middle pmap r rest,
                        meet,
                      ))
                | inr free ↦
                    let put = pmap_insert-hit kernel_vma_stop entry pmap false span free in
                    let table = pmap ++ (r ∷ []) in
                    let ends =
                      pmap_init_loop-ends left (i + 1) table later
                        (AllPairs-snoc AreApart pmap r apart (overlaps-AreApart r pmap free))
                        (All-snoc IsSpan pmap r spans span.span)
                        (ground (arith, length-append pmap (r ∷ []))) in
                    rw (used, space, not_255, put)
                      (subst
                        (λ (rs : List Region).
                          LoopEnds rs (pmap_init_loop kernel_vma_stop mmap left (i + 1) table))
                        (regroup pmap r rest) ends)
              ]
        ]
      ]

-- In order of address, apart and with a page each: every region ends where the next starts, or below.
ordered-head :
    (r : Region) (rs : List Region)
    → All (AtLeast r.addr) rs
    → All (AreApart r) rs
    → All IsSpan rs
    → All (λ r'. region_stop r ≤ r'.addr) rs
ordered-head r [] low apart spans = tt
ordered-head r (x ∷ xs) (le, low) (here, apart) (span, spans) = (
  elim here [ inl before ↦ before | inr behind ↦ omega (arith, span.pages, span.fits) ],
  ordered-head r xs low apart spans,
)

sorted-AreOrdered :
    (rs : List Region) → IsSorted rs → AllPairs AreApart rs → All IsSpan rs → AreOrdered rs
sorted-AreOrdered [] sorted apart spans = tt
sorted-AreOrdered (r ∷ rs) sorted apart spans =
    (ordered-head r rs sorted.0 apart.0 spans.1, sorted-AreOrdered rs sorted.1 apart.1 spans.1)

-- The entries of the map, from its size.
abbrev pub entry_count : MmapTag → ℕ
entry_count mmap = u32 (sub64 mmap.size 16 / mmap.entry_size)

-- How `pmap_init` ends, by the regions of the entries that it takes.
pub data PmapEnds (rs : List Region) (r : Result (List Region)) : Type 0 where
  table :
      (pmap : List Region)
      → r ≡ ok pmap
      → Perm pmap rs
      → IsSorted pmap
      → AreOrdered pmap
      → All IsSpan pmap
      → length rs ≤ 10
      → PmapEnds rs r
  meets : r ≡ panic memory_overlap → SomeMeet rs → PmapEnds rs r
  too_many : r ≡ panic pmap_full → 10 < length rs → PmapEnds rs r

-- For a memory map whose entries that are taken leave some memory behind their start and end two
-- pages below 2^64, pmap_init ends in one of three ways: it returns a table of the regions of these
-- entries, at most ten, each of a page or more, in order of address, where each ends at or below the
-- start of the next; it panics as two of the regions share memory; or it panics as they are more than
-- ten.
pub pmap_init-PmapEnds :
    (kernel_vma_stop : ℕ) (mmap : MmapTag)
    → ((k : ℕ)
        → k < entry_count mmap
        → is_used (mmap.entries k) ≡ true
        → HasRoom kernel_vma_stop (mmap.entries k))
    → PmapEnds
        (regions_of kernel_vma_stop mmap (entry_count mmap) 0)
        (pmap_init kernel_vma_stop mmap)
unfolding pmap_init
pmap_init-PmapEnds kernel_vma_stop mmap room =
    let n = entry_count mmap in
    let rs = regions_of kernel_vma_stop mmap n 0 in
    elim (pmap_init_loop-ends kernel_vma_stop mmap n 0 [] (λ k lo hi. room k (omega arith)) tt tt
      (omega arith)) [
        | built e apart spans few ↦
            let (sorted, perm) = pmap_sort-IsSorted rs in
            let apart' = AllPairs-pmap_sort AreApart AreApart-swap rs apart in
            let spans' = All-pmap_sort IsSpan rs spans in
            table (pmap_sort rs) (rw e) perm sorted
              (sorted-AreOrdered (pmap_sort rs) sorted apart' spans') spans' few
        | meets e two ↦ meets (rw e) two
        | too_many e many ↦ too_many (rw e) many
      ]
