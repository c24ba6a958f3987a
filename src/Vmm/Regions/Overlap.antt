-- ===== src/Vmm/Regions/Overlap.antt =====
-- `vmm_add_range` panics on a range that meets a region.
use b0s.Base.{
  ℕ, zero, suc, ◌<◌, ◌≤◌, ◌≡◌, ◌⊎◌, inl, inr, arith, ltb, true, ◌&&◌, Bool-cases, some, List, [],
  ◌∷◌, get_elem?, lt→ltb,
}
use b0s.Base.Result.{panic, region_overlap}
use b0s.Vmm.Regions.{VmmRegion, NodePool, vmm_insert_range, find_place, after_prev, vmm_add_range}
use b0s.Vmm.Regions.{stops_above, starts_below}
use b0s.Vmm.Regions.Spec.{IsOrdered, IsOrdered-at}

-- The range [va_start, va_stop) and the region have an address in common.
abbrev pub Meets : VmmRegion → ℕ → ℕ → Type 0
Meets r va_start va_stop = (r.va_start < va_stop) × (va_start < r.va_stop)

module _ (pool : NodePool) (s e f : ℕ) (st : pool.State) where
  -- The insertion at the place that the loop finds from this position panics.
  abbrev Panics : List VmmRegion → List VmmRegion → Type 0
  Panics before after =
      let place = find_place before after s e in
      vmm_insert_range pool place.0 place.1 s e f st ≡ panic region_overlap

  insert-panic :
      (before after : List VmmRegion)
      → (starts_below after e ≡ true) ⊎ (stops_above before s ≡ true)
      → vmm_insert_range pool before after s e f st ≡ panic region_overlap
  unfolding vmm_insert_range
  insert-panic before after (inl h) = rw h
  insert-panic before after (inr h) = elim (Bool-cases (starts_below after e)) [
    | inl y ↦ rw y
    | inr n ↦ rw (n, h)
  ]

  -- The region before the position stops above the start of the range.
  Panics-before :
      (p : VmmRegion) (ps after : List VmmRegion)
      → s < p.va_stop
      → IsOrdered p.va_stop after
      → Panics (p ∷ ps) after
  unfolding find_place
  Panics-before p ps [] h o = insert-panic (p ∷ ps) [] (inr (lt→ltb _ _ h))
  Panics-before p ps (cur ∷ rest) h o =
      elim (Bool-cases (after_prev (p ∷ ps) s && ltb e cur.va_stop)) [
        | inl stops ↦ rw stops (insert-panic (p ∷ ps) (cur ∷ rest) (inr (lt→ltb _ _ h)))
        | inr goes_on ↦ rw goes_on (Panics-before cur (p ∷ ps) rest (omega arith) o.2)
      ]

  -- A region from the position on meets the range.
  Panics-after :
      (hi k : ℕ) (before after : List VmmRegion) (r : VmmRegion)
      → IsOrdered hi after
      → get_elem? after k ≡ some r
      → Meets r s e
      → Panics before after
  unfolding find_place
  Panics-after hi k before [] r o at meets = cc
  Panics-after hi zero before (cur ∷ rest) r o at meets =
      let same : cur ≡ r = cc in
      let start : cur.va_start < e = rw same meets.0 in
      let stop : s < cur.va_stop = rw same meets.1 in
      elim (Bool-cases (after_prev before s && ltb e cur.va_stop)) [
        | inl stops ↦ rw stops (insert-panic before (cur ∷ rest) (inl (lt→ltb _ _ start)))
        | inr goes_on ↦ rw goes_on (Panics-before cur before rest stop o.2)
      ]
  Panics-after hi (suc k) before (cur ∷ rest) r o at meets =
      elim (Bool-cases (after_prev before s && ltb e cur.va_stop)) [
        | inl stops ↦ absurd (beyond (IsOrdered-at cur.va_stop k rest r o.2 at) stops)
        | inr goes_on ↦ rw goes_on (Panics-after cur.va_stop k (cur ∷ before) rest r o.2 at meets)
      ]
    where
      beyond : cur.va_stop ≤ r.va_start → (after_prev before s && ltb e cur.va_stop) ≡ true → ⊥
      beyond h stops = ground arith

  -- A range that meets a region of the list is refused: the call panics.
  pub vmm_add_range-panic :
      (rs : List VmmRegion) (k : ℕ) (r : VmmRegion)
      → IsOrdered 0 rs
      → get_elem? rs k ≡ some r
      → Meets r s e
      → vmm_add_range pool rs s e f st ≡ panic region_overlap
  unfolding vmm_add_range
  vmm_add_range-panic [] k r o at meets = cc
  vmm_add_range-panic (x ∷ rs) k r o at meets = Panics-after 0 k [] (x ∷ rs) r o at meets
