-- ===== src/Vmm/Space/Gap.antt =====
-- The search of `vmm_alloc_between` for a gap between the regions, and the insertion there.
use b0s.Base.{
  ℕ, ◌+◌, ◌-◌, ◌*◌, ◌%◌, ◌^◌, ◌<◌, ◌≤◌, ◌≡◌, ◌⊎◌, refl, inl, inr, arith, ltb, leb, leb→le, lt→ltb,
  Bool, true, false, Bool-cases, List, [], ◌∷◌, All,
}
use mathlib.Core.Path.{subst}
use b0s.Base.Word.{add64, sub64, max64, page_size}
use b0s.Vmm.Regions.{VmmRegion, NodePool, unwind, vmm_insert_range}
use b0s.Vmm.Regions.Spec.{IsOrdered, IsBelow, IsBelow-weaken, IsOrdered-weaken}
use b0s.Vmm.Regions.Add.{AddEnds, insert-AddEnds}
use b0s.Vmm.Space.{find_gap}

-- No region lies across the lower bound, and none ends so high that the room would wrap.
abbrev pub IsAside : ℕ → ℕ → List VmmRegion → Type 0
IsAside lower room rs =
    All (λ r. ((r.va_stop < lower) ⊎ (lower ≤ r.va_start)) × (r.va_stop + room < 2 ^ 64)) rs

-- The position and the address that the search gives: the room from there on is clear.
pub record IsGap (rs : List VmmRegion) (lower room va : ℕ) (before after : List VmmRegion)
    : Type 0 where
  pub whole : unwind before after ≡ rs
  pub below : IsBelow 0 va before
  pub above : IsOrdered (va + room) after
  pub fits : va + room < 2 ^ 64
  pub low : (lower ≤ va) ⊎ (after ≡ [])

pub find_gap-IsGap :
    (lower room va hi : ℕ) (before after : List VmmRegion)
    → IsBelow 0 hi before
    → hi ≤ va
    → (va ≡ hi) ⊎ (va ≡ lower)
    → IsOrdered hi after
    → IsAside lower room after
    → lower + room < 2 ^ 64
    → va + room < 2 ^ 64
    → let r = find_gap lower room va before after in
      IsGap (unwind before after) lower room r.0 r.1 r.2
unfolding find_gap
find_gap-IsGap lower room va hi before [] b le at o aside bound fits = record {
  whole = refl;
  below = IsBelow-weaken 0 hi va before le b;
  above = tt;
  fits = fits;
  low = inr refl;
}
find_gap-IsGap lower room va hi before (cur ∷ rest) b le at o aside bound fits =
    let further =
      find_gap-IsGap lower room cur.va_stop cur.va_stop (cur ∷ before) rest
        (omega arith, o.1, IsBelow-weaken 0 hi cur.va_start before o.0 b) (omega arith) (inl refl)
        o.2 aside.1 bound aside.0.1 in
    elim (Bool-cases (ltb cur.va_stop lower)) [
      | inl under ↦ rw under further
      | inr over ↦
          let from = max64 va lower in
          let starts : lower ≤ cur.va_start = not_across aside.0.0 over in
          let from_le : (hi ≤ from) × (lower ≤ from) × (from ≤ cur.va_start) = bounds at starts in
          let gap : (cur.va_start + 2 ^ 64 - from % 2 ^ 64) % 2 ^ 64 ≡ cur.va_start - from =
            omega (arith, aside.0.1, o.1) in
          elim (Bool-cases (leb room (sub64 cur.va_start from))) [
            | inl wide ↦
                let room_le : from + room ≤ cur.va_start =
                  omega (arith, leb→le room (sub64 cur.va_start from) wide) in
                rw (over, wide)
                  (record {
                    whole = refl;
                    below = IsBelow-weaken 0 hi from before from_le.0 b;
                    above = (room_le, o.1, o.2);
                    fits = omega (arith, aside.0.1, o.1);
                    low = inl from_le.1;
                  })
            | inr narrow ↦ rw (over, narrow) further
          ]
    ]
  where
    not_across :
        (cur.va_stop < lower) ⊎ (lower ≤ cur.va_start)
        → ltb cur.va_stop lower ≡ false
        → lower ≤ cur.va_start
    not_across (inl under) over = absurd (contradiction over (lt→ltb _ _ under))
      where
        contradiction : {t : Bool} → t ≡ false → t ≡ true → ⊥
        contradiction e e' = cc
    not_across (inr le') over = le'

    bounds :
        (va ≡ hi) ⊎ (va ≡ lower)
        → lower ≤ cur.va_start
        → (hi ≤ max64 va lower) × (lower ≤ max64 va lower) × (max64 va lower ≤ cur.va_start)
    bounds (inl same) starts = ground (arith, le, o.0)
    bounds (inr same) starts = ground (arith, le)

module _ (pool : NodePool) where
  -- With a room of more than two pages, an ordered list with no region across the lower bound, and no
  -- address or region so high that the room would wrap, the search of `vmm_alloc_between` ends at a
  -- position where the insertion does not find an overlap: the room less a page at either end gets the
  -- flags, the list stays in order and apart, and every other address keeps its own; or the allocator
  -- of the nodes panics. The room starts at the lower bound or above, or else behind the last region.
  pub find_gap-AddEnds :
      (lower room f : ℕ) (rs : List VmmRegion) (st : pool.State)
      → 2 * page_size < room
      → IsOrdered 0 rs
      → IsAside lower room rs
      → lower + room < 2 ^ 64
      → let (va, before, after) = find_gap lower room lower [] rs in
        let start = add64 va page_size in
        let stop = add64 start (room - 2 * page_size) in
        AddEnds pool rs (vmm_insert_range pool before after start stop f st) start stop f
        × (start ≡ va + page_size)
        × (stop + page_size ≡ va + room)
        × ((lower ≤ va) ⊎ (after ≡ []))
  find_gap-AddEnds lower room f rs st pages o aside bound =
      let r = find_gap lower room lower [] rs in
      let va = r.0 in
      let g =
        find_gap-IsGap lower room lower 0 [] rs (omega arith) (omega arith) (inr refl) o aside bound
          bound in
      let fits = g.fits in
      let start_eq : (va + 4096) % 2 ^ 64 ≡ va + 4096 = omega arith in
      let stop_eq : (va + 4096 + (room - 8192)) % 2 ^ 64 ≡ va + room - 4096 = omega arith in
      let s = va + 4096 in
      let e = va + room - 4096 in
      rw (start_eq, stop_eq)
        (
          subst (λ l. AddEnds pool l (vmm_insert_range pool r.1 r.2 s e f st) s e f) g.whole
              (insert-AddEnds pool s e f (omega arith) st r.1 r.2
                (IsBelow-weaken 0 va s r.1 (omega arith) g.below)
                (IsOrdered-weaken e (va + room) r.2 (omega arith) g.above)),
          refl,
          omega arith,
          g.low,
        )
