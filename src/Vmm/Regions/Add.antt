-- ===== src/Vmm/Regions/Add.antt =====
-- `vmm_add_range` maps a clear range and nothing else.
use b0s.Base.{
  ℕ, ◌<◌, ◌≤◌, ◌≡◌, ◌⊎◌, refl, inl, inr, arith, ltb, true, false, Bool-cases, List, [], ◌∷◌, ge→ltb,
}
use mathlib.Core.Path.{subst}
use b0s.Base.Result.{Result, Result-cases, ok}
use b0s.Vmm.Regions.{VmmRegion, NodePool, unwind, Inserted, vmm_insert_range}
use b0s.Vmm.Regions.{find_place, after_prev, vmm_add_range, starts_below}
use b0s.Vmm.Regions.{stops_above, connects_prev, connects_next}
use b0s.Vmm.Regions.Spec.{IsOrdered, IsBelow, IsClear, PoolPanics}
use b0s.Vmm.Regions.Spec.{IsBelow-weaken}
use b0s.Vmm.Regions.Adds.{Adds, Adds-create, Adds-prev, Adds-next, Adds-join}

-- The place that the loop finds splits the list around a clear range.
record IsSplit (rs before after : List VmmRegion) (va_start va_stop : ℕ) : Type 0 where
  whole : unwind before after ≡ rs
  below : IsBelow 0 va_start before
  above : IsOrdered va_stop after

after_prev-below :
    (lo hi : ℕ) (before : List VmmRegion) (va_start : ℕ)
    → IsBelow lo hi before
    → hi ≤ va_start
    → after_prev before va_start ≡ true
unfolding after_prev
after_prev-below lo hi [] s b h = refl
after_prev-below lo hi (p ∷ ps) s b h = ground arith

find_place-IsSplit :
    (before after : List VmmRegion) (va_start va_stop hi : ℕ)
    → va_start < va_stop
    → IsBelow 0 hi before
    → hi ≤ va_start
    → IsOrdered hi after
    → IsClear after va_start va_stop
    → let place = find_place before after va_start va_stop in
      IsSplit (unwind before after) place.0 place.1 va_start va_stop
unfolding find_place
find_place-IsSplit before [] s e hi lt b h o clear = record {
  whole = refl;
  below = IsBelow-weaken 0 hi s before h b;
  above = tt;
}
find_place-IsSplit before (cur ∷ rest) s e hi lt b h o clear =
    rw (after_prev-below 0 hi before s b h) (elim (Bool-cases (ltb e cur.va_stop)) [
      | inl stops ↦ rw stops (record {
        whole = refl;
        below = IsBelow-weaken 0 hi s before h b;
        above = (ground arith, o.1, o.2);
      })
      | inr goes_on ↦ rw goes_on (
          find_place-IsSplit (cur ∷ before) rest s e cur.va_stop lt
            (omega arith, o.1, IsBelow-weaken 0 hi cur.va_start before o.0 b) (ground arith) o.2
            clear.1)
    ])

-- An insertion that adds the range, or ends in a panic of the pool.
abbrev pub AddEnds :
    (pool : NodePool) → List VmmRegion → Result (Inserted pool) → ℕ → ℕ → ℕ → Type 0
AddEnds pool rs out va_start va_stop flags =
    PoolPanics pool out
    ⊎ ((i : Inserted pool) × (out ≡ ok i) × Adds rs i.regions va_start va_stop flags)

starts_below-above :
    (after : List VmmRegion) (va_stop : ℕ)
    → IsOrdered va_stop after
    → starts_below after va_stop ≡ false
starts_below-above [] e o = refl
starts_below-above (n ∷ rest) e o = ge→ltb _ _ o.0

stops_above-below :
    (before : List VmmRegion) (va_start : ℕ)
    → IsBelow 0 va_start before
    → stops_above before va_start ≡ false
stops_above-below [] s b = refl
stops_above-below (p ∷ ps) s b = ge→ltb _ _ b.0

module _ (pool : NodePool) (s e f : ℕ) (lt : s < e) (st : pool.State) where
  -- The neighbours do not overlap the range: four ways are left.
  module _ (before after : List VmmRegion) (b : IsBelow 0 s before) (o : IsOrdered e after) where
    create_way :
        connects_prev before s f ≡ false
        → connects_next after e f ≡ false
        → AddEnds pool (unwind before after) (vmm_insert_range pool before after s e f st) s e f
    unfolding vmm_insert_range
    create_way no_prev no_next =
        let apart = starts_below-above after e o in
        let apart' = stops_above-below before s b in
        elim (Result-cases (pool.block_alloc st)) [
          | inl (reason, eq) ↦ inl (reason, rw (apart, apart', no_prev, no_next, eq), st, inl eq)
          | inr ((node, st'), eq) ↦ inr (
            record {
              regions =
                  unwind before
                    (record { node = node; va_start = s; va_stop = e; flags = f } ∷ after);
              region = node;
              pool_state = st';
            },
            rw (apart, apart', no_prev, no_next, eq),
            Adds-create s e f lt before after node b o,
          )
        ]

  prev_way :
      (p : VmmRegion) (ps after : List VmmRegion) (b : IsBelow 0 s (p ∷ ps)) (o : IsOrdered e after)
      → connects_prev (p ∷ ps) s f ≡ true
      → connects_next after e f ≡ false
      → AddEnds pool (unwind (p ∷ ps) after) (vmm_insert_range pool (p ∷ ps) after s e f st) s e f
  unfolding vmm_insert_range
  prev_way p ps after b o yes_prev no_next = inr (
    record {
      regions = unwind (record p { va_stop = e } ∷ ps) after;
      region = p.node;
      pool_state = st;
    },
    rw (starts_below-above after e o, stops_above-below (p ∷ ps) s b, yes_prev, no_next),
    Adds-prev s e f lt p ps after b o (ground arith) (ground arith),
  )

  next_way :
      (before : List VmmRegion) (n : VmmRegion) (rest : List VmmRegion) (b : IsBelow 0 s before)
      (o : IsOrdered e (n ∷ rest))
      → connects_prev before s f ≡ false
      → connects_next (n ∷ rest) e f ≡ true
      → AddEnds pool
          (unwind before (n ∷ rest))
          (vmm_insert_range pool before (n ∷ rest) s e f st)
          s
          e
          f
  unfolding vmm_insert_range
  next_way before n rest b o no_prev yes_next = inr (
    record {
      regions = unwind before (record n { va_start = s } ∷ rest);
      region = n.node;
      pool_state = st;
    },
    rw (starts_below-above (n ∷ rest) e o, stops_above-below before s b, no_prev, yes_next),
    Adds-next s e f lt before n rest b o (ground arith) (ground arith),
  )

  join_way :
      (p : VmmRegion) (ps : List VmmRegion) (n : VmmRegion) (rest : List VmmRegion)
      (b : IsBelow 0 s (p ∷ ps)) (o : IsOrdered e (n ∷ rest))
      → connects_prev (p ∷ ps) s f ≡ true
      → connects_next (n ∷ rest) e f ≡ true
      → AddEnds pool
          (unwind (p ∷ ps) (n ∷ rest))
          (vmm_insert_range pool (p ∷ ps) (n ∷ rest) s e f st)
          s
          e
          f
  unfolding vmm_insert_range
  join_way p ps n rest b o yes_prev yes_next =
      let apart = starts_below-above (n ∷ rest) e o in
      let apart' = stops_above-below (p ∷ ps) s b in
      elim (Result-cases (pool.block_free n.node st)) [
        | inl (reason, eq) ↦
            inl (reason, rw (apart, apart', yes_prev, yes_next, eq), st, inr (n.node, eq))
        | inr (st', eq) ↦ inr (
          record {
            regions = unwind (record p { va_stop = n.va_stop } ∷ ps) rest;
            region = p.node;
            pool_state = st';
          },
          rw (apart, apart', yes_prev, yes_next, eq),
          Adds-join s e f lt p ps n rest b o (ground arith) (ground arith) (ground arith)
              (ground arith),
        )
      ]

  pub insert-AddEnds :
      (before after : List VmmRegion)
      → IsBelow 0 s before
      → IsOrdered e after
      → AddEnds pool (unwind before after) (vmm_insert_range pool before after s e f st) s e f
  insert-AddEnds [] [] b o = create_way [] [] b o refl refl
  insert-AddEnds (p ∷ ps) [] b o = elim (Bool-cases (connects_prev (p ∷ ps) s f)) [
    | inl y ↦ prev_way p ps [] b o y refl
    | inr n ↦ create_way (p ∷ ps) [] b o n refl
  ]
  insert-AddEnds [] (n ∷ rest) b o = elim (Bool-cases (connects_next (n ∷ rest) e f)) [
    | inl y ↦ next_way [] n rest b o refl y
    | inr x ↦ create_way [] (n ∷ rest) b o refl x
  ]
  insert-AddEnds (p ∷ ps) (n ∷ rest) b o = elim (Bool-cases (connects_prev (p ∷ ps) s f)) [
    | inl y ↦ elim (Bool-cases (connects_next (n ∷ rest) e f)) [
      | inl y' ↦ join_way p ps n rest b o y y'
      | inr n' ↦ prev_way p ps (n ∷ rest) b o y n'
    ]
    | inr x ↦ elim (Bool-cases (connects_next (n ∷ rest) e f)) [
      | inl y' ↦ next_way (p ∷ ps) n rest b o x y'
      | inr n' ↦ create_way (p ∷ ps) (n ∷ rest) b o x n'
    ]
  ]

  -- On an ordered list a range that meets no region is added: the list stays in order and apart, the
  -- range has the flags, and every other address keeps its own. Or the allocator of the nodes panics,
  -- and the call with it.
  pub vmm_add_range-Adds :
      (rs : List VmmRegion)
      → IsOrdered 0 rs
      → IsClear rs s e
      → AddEnds pool rs (vmm_add_range pool rs s e f st) s e f
  unfolding vmm_add_range
  vmm_add_range-Adds [] o clear = elim (Result-cases (pool.block_alloc st)) [
    | inl (reason, eq) ↦ inl (reason, rw eq, st, inl eq)
    | inr ((node, st'), eq) ↦ inr (
      record {
        regions = record { node = node; va_start = s; va_stop = e; flags = f } ∷ [];
        region = node;
        pool_state = st';
      },
      rw eq,
      Adds-create s e f lt [] [] node (omega arith) tt,
    )
  ]
  vmm_add_range-Adds (r ∷ rs) o clear =
      let place = find_place [] (r ∷ rs) s e in
      let split = find_place-IsSplit [] (r ∷ rs) s e 0 lt (omega arith) (omega arith) o clear in
      subst (λ l. AddEnds pool l (vmm_insert_range pool place.0 place.1 s e f st) s e f) split.whole
        (insert-AddEnds place.0 place.1 split.below split.above)
