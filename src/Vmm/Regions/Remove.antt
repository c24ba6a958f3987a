-- ===== src/Vmm/Regions/Remove.antt =====
-- `vmm_remove_range` unmaps a part of one region and nothing else.
use b0s.Base.{
  ℕ, zero, suc, ◌<◌, ◌≤◌, ◌≡◌, ◌⊎◌, refl, inl, inr, arith, ltb, leb, ◌==◌, if◌then◌else◌, true,
  false, ◌&&◌, Bool-cases, Option, none, some, List, [], ◌∷◌, get_elem?, lt→ltb, ge→ltb, ==→≡, ≢→==,
}
use mathlib.Core.Path.{subst}
use b0s.Base.Result.{Result, Result-cases, ok, panic, no_region, not_contiguous}
use b0s.Vmm.Regions.{VmmRegion, NodePool, unwind, vmm_remove_region, cut_region, remove_from}
use b0s.Vmm.Regions.{vmm_remove_range}
use b0s.Vmm.Regions.Spec.{has, flags_at, IsOrdered, IsBelow, IsClear, PoolPanics, IsBelow-weaken}
use b0s.Vmm.Regions.Spec.{unwind-IsOrdered, flags_at-unwind, over_past, over_maps}
use b0s.Vmm.Regions.Spec.{flags_at_below, IsOrdered-weaken, IsOrdered-at}
use b0s.Vmm.Regions.Add.{vmm_add_range-Adds}

-- The list after a removal: in order, with nothing at the range and no change elsewhere.
pub record Drops (rs rs' : List VmmRegion) (va_start va_stop : ℕ) : Type 0 where
  pub ordered : IsOrdered 0 rs'
  pub unmaps :
      (a : ℕ) → flags_at rs' a ≡ (if leb va_start a && ltb a va_stop then none else flags_at rs a)

-- A range with no flags is clear.
IsClear-of_none :
    (lo s e : ℕ) (rs : List VmmRegion)
    → IsOrdered lo rs
    → s < e
    → ((a : ℕ) → s ≤ a → a < e → flags_at rs a ≡ none)
    → IsClear rs s e
unfolding flags_at
IsClear-of_none lo s e [] o lt empty = tt
IsClear-of_none lo s e (r ∷ rs) o lt empty =
    (here, IsClear-of_none r.va_stop s e rs o.2 lt (λ a l h. ground (arith, empty a)))
  where
    here : (e ≤ r.va_start) ⊎ (r.va_stop ≤ s)
    here = elim (Bool-cases (leb e r.va_start)) [
      | inl above ↦ inl (ground arith)
      | inr meets ↦ elim (Bool-cases (leb r.va_stop s)) [
        | inl below ↦ inr (ground arith)
        | inr meets' ↦ absurd (ground (arith, empty s, empty r.va_start))
      ]
    ]

module _ (before : List VmmRegion) (r : VmmRegion) (rest : List VmmRegion)
    (b : IsBelow 0 r.va_start before) (lt : r.va_start < r.va_stop)
    (o : IsOrdered r.va_stop rest) where
  Drops-whole : Drops (unwind before (r ∷ rest)) (unwind before rest) r.va_start r.va_stop
  unfolding flags_at
  Drops-whole = record {
    ordered =
        unwind-IsOrdered 0 r.va_start before rest b
          (IsOrdered-weaken r.va_start r.va_stop rest (omega arith) o);
    unmaps = λ a.
        rw (flags_at-unwind before rest a, flags_at-unwind before (r ∷ rest) a)
          (over_maps before r.va_start r.va_stop none a (flags_at rest a) (flags_at (r ∷ rest) a) b
            (λ lo hi. flags_at_below r.va_stop a rest o hi) (λ out. ground arith));
  }

  Drops-start :
      (e : ℕ)
      → r.va_start < e
      → e < r.va_stop
      → Drops
          (unwind before (r ∷ rest))
          (unwind before (record r { va_start = e } ∷ rest))
          r.va_start
          e
  unfolding flags_at
  Drops-start e h h' =
      let r' : VmmRegion = record r { va_start = e } in
      record {
        ordered = unwind-IsOrdered 0 r.va_start before (r' ∷ rest) b (omega arith, h', o);
        unmaps = λ a.
            rw (flags_at-unwind before (r' ∷ rest) a, flags_at-unwind before (r ∷ rest) a)
              (over_maps before r.va_start e none a (flags_at (r' ∷ rest) a) (flags_at (r ∷ rest) a)
                b (λ lo hi. ground (arith, flags_at_below r.va_stop a rest o))
                (λ out. ground arith));
      }

  Drops-stop :
      (s : ℕ)
      → r.va_start < s
      → s < r.va_stop
      → Drops
          (unwind before (r ∷ rest))
          (unwind before (record r { va_stop = s } ∷ rest))
          s
          r.va_stop
  unfolding flags_at
  Drops-stop s h h' =
      let r' : VmmRegion = record r { va_stop = s } in
      record {
        ordered =
            unwind-IsOrdered 0 r.va_start before (r' ∷ rest) b
              (omega arith, h, IsOrdered-weaken s r.va_stop rest (omega arith) o);
        unmaps = λ a.
            rw (flags_at-unwind before (r' ∷ rest) a, flags_at-unwind before (r ∷ rest) a)
              (over_maps before s r.va_stop none a (flags_at (r' ∷ rest) a) (flags_at (r ∷ rest) a)
                (IsBelow-weaken 0 r.va_start s before (omega arith) b)
                (λ lo hi. ground (arith, flags_at_below r.va_stop a rest o)) (λ out. ground arith));
      }

  -- Every address of the region has its flags.
  flags_at_region : (a : ℕ) → has r a ≡ true → flags_at (unwind before (r ∷ rest)) a ≡ some r.flags
  unfolding flags_at
  flags_at_region a h =
      rw (flags_at-unwind before (r ∷ rest) a, h)
        (over_past 0 r.va_start a before (some r.flags) b (ground arith))

-- The flags at one address through the removal of the region and the two insertions.
cut_flags :
    (start s e stop a v : ℕ) (right left middle old : Option ℕ)
    → start < s
    → s < e
    → e < stop
    → right ≡ (if leb e a && ltb a stop then some v else left)
    → left ≡ (if leb start a && ltb a s then some v else middle)
    → middle ≡ (if leb start a && ltb a stop then none else old)
    → ((leb start a && ltb a stop) ≡ true → old ≡ some v)
    → right ≡ (if leb s a && ltb a e then none else old)
cut_flags start s e stop a v right left middle old h₁ h₂ h₃ p q r t = ground arith

-- A removal that drops the range, or ends in a panic of the pool.
abbrev pub Removes :
    (pool : NodePool) → List VmmRegion → Result (List VmmRegion × pool.State) → ℕ → ℕ → Type 0
Removes pool rs out va_start va_stop =
    PoolPanics pool out
    ⊎ ((x : List VmmRegion × pool.State) × (out ≡ ok x) × Drops rs x.0 va_start va_stop)

module _ (pool : NodePool) (s e : ℕ) (lt : s < e) (st : pool.State) where
  module _ (before : List VmmRegion) (r : VmmRegion) (rest : List VmmRegion)
      (b : IsBelow 0 r.va_start before) (o : IsOrdered r.va_stop rest) (lo : r.va_start ≤ s)
      (hi : e ≤ r.va_stop) where
    -- A range strictly inside: the region goes, and its two ends are added again.
    cut_middle :
        r.va_start < s
        → e < r.va_stop
        → Removes pool (unwind before (r ∷ rest)) (cut_region pool before r rest s e st) s e
    unfolding cut_region vmm_remove_region
    cut_middle inside inside' =
        let drops = Drops-whole before r rest b (omega arith) o in
        let low = ge→ltb _ _ hi in
        let not_start = ≢→== r.va_start s (omega arith) in
        let not_stop = ≢→== r.va_stop e (omega arith) in
        elim (Result-cases (pool.block_free r.node st)) [
          | inl (reason, eq) ↦ inl (reason, rw (low, not_start, not_stop, eq), st, inr (r.node, eq))
          | inr (st₁, freed) ↦
              let clear₁ =
                IsClear-of_none 0 r.va_start s (unwind before rest) drops.ordered inside
                  (λ a l h. ground (arith, drops.unmaps a)) in
              elim (vmm_add_range-Adds pool r.va_start s r.flags inside st₁ (unwind before rest)
                drops.ordered clear₁) [
                  | inl (reason, eq, st', at) ↦
                      inl (reason, rw (low, not_start, not_stop, freed, eq), st', at)
                  | inr (left, left_ok, adds₁) ↦
                      let clear₂ =
                        IsClear-of_none 0 e r.va_stop left.regions adds₁.ordered inside'
                          (λ a l h. ground (arith, drops.unmaps a, adds₁.maps a)) in
                      elim (vmm_add_range-Adds pool e r.va_stop r.flags inside' left.pool_state
                        left.regions adds₁.ordered clear₂) [
                          | inl (reason, eq, st', at) ↦
                              inl
                                (reason, rw (low, not_start, not_stop, freed, left_ok, eq), st', at)
                          | inr (right, right_ok, adds₂) ↦ inr (
                            (right.regions, right.pool_state),
                            rw (low, not_start, not_stop, freed, left_ok, right_ok),
                            record {
                              ordered = adds₂.ordered;
                              unmaps = λ a.
                                  cut_flags r.va_start s e r.va_stop a r.flags
                                    (flags_at right.regions a) (flags_at left.regions a)
                                    (flags_at (unwind before rest) a)
                                    (flags_at (unwind before (r ∷ rest)) a) inside lt inside'
                                    (adds₂.maps a) (adds₁.maps a) (drops.unmaps a)
                                    (flags_at_region before r rest b (omega arith) o a);
                            },
                          )
                        ]
                ]
        ]

    cut_region-Removes :
        Removes pool (unwind before (r ∷ rest)) (cut_region pool before r rest s e st) s e
    unfolding cut_region vmm_remove_region
    cut_region-Removes = elim (Bool-cases (r.va_start == s)) [
      | inl from_start ↦
          let start : r.va_start ≡ s = ==→≡ _ _ from_start in
          elim (Bool-cases (r.va_stop == e)) [
            | inl to_stop ↦
                let stop : r.va_stop ≡ e = ==→≡ _ _ to_stop in
                elim (Result-cases (pool.block_free r.node st)) [
                  | inl (reason, eq) ↦
                      inl
                        (reason, rw (ge→ltb _ _ hi, from_start, to_stop, eq), st, inr (r.node, eq))
                  | inr (st₁, freed) ↦ inr (
                    (unwind before rest, st₁),
                    rw (ge→ltb _ _ hi, from_start, to_stop, freed),
                    Drops-at (unwind before rest) start stop
                        (Drops-whole before r rest b (omega arith) o),
                  )
                ]
            | inr not_stop ↦
                let inside' : e < r.va_stop = ground arith in
                inr (
                  (unwind before (record r { va_start = e } ∷ rest), st),
                  rw (ge→ltb _ _ hi, from_start, not_stop),
                  Drops-at (unwind before (record r { va_start = e } ∷ rest)) start refl
                      (Drops-start before r rest b (omega arith) o e (omega arith) inside'),
                )
          ]
      | inr not_start ↦
          let inside : r.va_start < s = ground arith in
          elim (Bool-cases (r.va_stop == e)) [
            | inl to_stop ↦
                let stop : r.va_stop ≡ e = ==→≡ _ _ to_stop in
                inr (
                  (unwind before (record r { va_stop = s } ∷ rest), st),
                  rw (ge→ltb _ _ hi, not_start, to_stop),
                  Drops-at (unwind before (record r { va_stop = s } ∷ rest)) refl stop
                      (Drops-stop before r rest b (omega arith) o s inside (omega arith)),
                )
            | inr not_stop ↦ cut_middle inside (ground arith)
          ]
    ]
      where
        Drops-at :
            (rs' : List VmmRegion) {s₀ e₀ : ℕ}
            → s₀ ≡ s
            → e₀ ≡ e
            → Drops (unwind before (r ∷ rest)) rs' s₀ e₀
            → Drops (unwind before (r ∷ rest)) rs' s e
        Drops-at rs' {s₀} {e₀} p q d =
            subst (λ t. Drops (unwind before (r ∷ rest)) rs' s t) q
              (subst (λ t. Drops (unwind before (r ∷ rest)) rs' t e₀) p d)

  remove_from-Removes :
      (k hi : ℕ) (before after : List VmmRegion) (r : VmmRegion)
      → IsBelow 0 hi before
      → IsOrdered hi after
      → get_elem? after k ≡ some r
      → r.va_start ≤ s
      → e ≤ r.va_stop
      → Removes pool (unwind before after) (remove_from pool before after s e st) s e
  unfolding remove_from
  remove_from-Removes k hi before [] r b o at lo up = cc
  remove_from-Removes zero hi before (x ∷ rest) r b o at lo up =
      let same : x ≡ r = cc in
      let lo' : x.va_start ≤ s = rw same lo in
      let up' : e ≤ x.va_stop = rw same up in
      let here : has x s ≡ true = ground arith in
      rw here
        (cut_region-Removes before x rest (IsBelow-weaken 0 hi x.va_start before o.0 b) o.2 lo' up')
  remove_from-Removes (suc k) hi before (x ∷ rest) r b o at lo up =
      let above = IsOrdered-at x.va_stop k rest r o.2 at in
      let below : ltb s x.va_stop ≡ false = ge→ltb _ _ (omega (arith, above)) in
      let later : has x s ≡ false = ground arith in
      rw later (
        remove_from-Removes k x.va_stop (x ∷ before) rest r
          (omega arith, o.1, IsBelow-weaken 0 hi x.va_start before o.0 b) o.2 at lo up)

  -- On an ordered list a range inside of a region is removed: the list stays in order and apart, no
  -- address of the range is mapped, and every other address keeps its flags. Or the allocator of the
  -- nodes panics, and the call with it.
  pub vmm_remove_range-Removes :
      (rs : List VmmRegion) (k : ℕ) (r : VmmRegion)
      → IsOrdered 0 rs
      → get_elem? rs k ≡ some r
      → r.va_start ≤ s
      → e ≤ r.va_stop
      → Removes pool rs (vmm_remove_range pool rs s e st) s e
  unfolding vmm_remove_range
  vmm_remove_range-Removes rs k r o at lo up =
      remove_from-Removes k 0 [] rs r (omega arith) o at lo up

module _ (pool : NodePool) (s e : ℕ) (st : pool.State) where
  remove_from-panic :
      (before after : List VmmRegion) (hi : ℕ)
      → IsOrdered hi after
      → (flags_at after s ≡ none → remove_from pool before after s e st ≡ panic no_region)
        × ((k : ℕ) (r : VmmRegion)
            → get_elem? after k ≡ some r
            → has r s ≡ true
            → r.va_stop < e
            → remove_from pool before after s e st ≡ panic not_contiguous)
  unfolding remove_from flags_at cut_region
  remove_from-panic before [] hi o = (λ h. refl, λ k r at. cc)
  remove_from-panic before (x ∷ rest) hi o =
      let rec = remove_from-panic (x ∷ before) rest x.va_stop o.2 in
      (
        λ h. elim (Bool-cases (has x s)) [
          | inl here ↦ absurd (found here h)
          | inr later ↦ rw later (rec.0 (ground arith))
        ],
        λ k r at inside beyond. elim (Bool-cases (has x s)) [
          | inl here ↦ rw (here, lt→ltb x.va_stop e (first k r at here inside beyond))
          | inr later ↦ rw later (next k r at later inside beyond rec.1)
        ],
      )
    where
      found : has x s ≡ true → (if has x s then some x.flags else flags_at rest s) ≡ none → ⊥
      found here h = ground arith

      first :
          (k : ℕ) (r : VmmRegion)
          → get_elem? (x ∷ rest) k ≡ some r
          → has x s ≡ true
          → has r s ≡ true
          → r.va_stop < e
          → x.va_stop < e
      first zero r at here inside beyond = let same : x ≡ r = cc in rw same beyond
      first (suc k) r at here inside beyond =
          let above = IsOrdered-at x.va_stop k rest r o.2 at in absurd (ground (arith, above))

      next :
          (k : ℕ) (r : VmmRegion)
          → get_elem? (x ∷ rest) k ≡ some r
          → has x s ≡ false
          → has r s ≡ true
          → r.va_stop < e
          → ((k : ℕ) (r : VmmRegion)
              → get_elem? rest k ≡ some r
              → has r s ≡ true
              → r.va_stop < e
              → remove_from pool (x ∷ before) rest s e st ≡ panic not_contiguous)
          → remove_from pool (x ∷ before) rest s e st ≡ panic not_contiguous
      next zero r at later inside beyond rec = let same : x ≡ r = cc in absurd (ground arith)
      next (suc k) r at later inside beyond rec = rec k r at inside beyond

  -- Where no region of an ordered list holds the start of the range the call panics, and so it does
  -- where the region that holds it ends before the range.
  pub vmm_remove_range-panic :
      (rs : List VmmRegion)
      → IsOrdered 0 rs
      → (flags_at rs s ≡ none → vmm_remove_range pool rs s e st ≡ panic no_region)
        × ((k : ℕ) (r : VmmRegion)
            → get_elem? rs k ≡ some r
            → has r s ≡ true
            → r.va_stop < e
            → vmm_remove_range pool rs s e st ≡ panic not_contiguous)
  unfolding vmm_remove_range
  vmm_remove_range-panic rs o = remove_from-panic [] rs 0 o
