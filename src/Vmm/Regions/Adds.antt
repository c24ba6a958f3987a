-- ===== src/Vmm/Regions/Adds.antt =====
-- What an insertion does to the map of an address space, in each of its four ways.
use b0s.Base.{ℕ, ◌<◌, ◌≡◌, arith, ltb, leb, if◌then◌else◌, ◌&&◌, some, List, ◌∷◌}
use b0s.Vmm.Regions.{VmmRegion, unwind}
use b0s.Vmm.Regions.Spec.{has, flags_at, IsOrdered, IsBelow}
use b0s.Vmm.Regions.Spec.{IsBelow-weaken, unwind-IsOrdered, over, flags_at-unwind, over_maps}

-- The list after an insertion: in order, with the flags at the range and no change elsewhere.
pub record Adds (rs rs' : List VmmRegion) (va_start va_stop flags : ℕ) : Type 0 where
  pub ordered : IsOrdered 0 rs'
  pub maps :
      (a : ℕ)
      → flags_at rs' a ≡ (if leb va_start a && ltb a va_stop then some flags else flags_at rs a)

-- A split around the range, and what is put in its place.
module _ (s e f : ℕ) (lt : s < e) where
  pub Adds-create :
      (before after : List VmmRegion) (node : ℕ)
      → IsBelow 0 s before
      → IsOrdered e after
      → let r : VmmRegion = record { node = node; va_start = s; va_stop = e; flags = f } in
        Adds (unwind before after) (unwind before (r ∷ after)) s e f
  unfolding flags_at
  Adds-create before after node b o =
      let r : VmmRegion = record { node = node; va_start = s; va_stop = e; flags = f } in
      record {
        ordered = unwind-IsOrdered 0 s before (r ∷ after) b (omega arith, lt, o);
        maps = λ a.
            rw (flags_at-unwind before (r ∷ after) a, flags_at-unwind before after a)
              (over_maps before s e (some f) a (flags_at (r ∷ after) a) (flags_at after a) b
                (λ lo hi. ground arith) (λ out. ground arith));
      }

  pub Adds-prev :
      (p : VmmRegion) (ps after : List VmmRegion)
      → IsBelow 0 s (p ∷ ps)
      → IsOrdered e after
      → s ≡ p.va_stop
      → f ≡ p.flags
      → Adds (unwind (p ∷ ps) after) (unwind (record p { va_stop = e } ∷ ps) after) s e f
  unfolding flags_at over
  Adds-prev p ps after b o touch same =
      let p' : VmmRegion = record p { va_stop = e } in
      record {
        ordered = unwind-IsOrdered 0 e (p' ∷ ps) after (omega arith, omega arith, b.2) o;
        maps = λ a.
            rw (flags_at-unwind (p' ∷ ps) after a, flags_at-unwind (p ∷ ps) after a)
              (over_maps ps s e (some f) a (if has p' a then some p.flags else flags_at after a)
                (if has p a then some p.flags else flags_at after a)
                (IsBelow-weaken 0 p.va_start s ps (omega arith) b.2) (λ lo hi. ground arith)
                (λ out. ground arith));
      }

  pub Adds-next :
      (before : List VmmRegion) (n : VmmRegion) (rest : List VmmRegion)
      → IsBelow 0 s before
      → IsOrdered e (n ∷ rest)
      → e ≡ n.va_start
      → n.flags ≡ f
      → Adds (unwind before (n ∷ rest)) (unwind before (record n { va_start = s } ∷ rest)) s e f
  unfolding flags_at
  Adds-next before n rest b o touch same =
      let n' : VmmRegion = record n { va_start = s } in
      record {
        ordered = unwind-IsOrdered 0 s before (n' ∷ rest) b (omega arith, omega arith, o.2);
        maps = λ a.
            rw (flags_at-unwind before (n' ∷ rest) a, flags_at-unwind before (n ∷ rest) a)
              (over_maps before s e (some f) a (flags_at (n' ∷ rest) a) (flags_at (n ∷ rest) a) b
                (λ lo hi. ground arith) (λ out. ground arith));
      }

  pub Adds-join :
      (p : VmmRegion) (ps : List VmmRegion) (n : VmmRegion) (rest : List VmmRegion)
      → IsBelow 0 s (p ∷ ps)
      → IsOrdered e (n ∷ rest)
      → s ≡ p.va_stop
      → f ≡ p.flags
      → e ≡ n.va_start
      → n.flags ≡ f
      → Adds
          (unwind (p ∷ ps) (n ∷ rest))
          (unwind (record p { va_stop = n.va_stop } ∷ ps) rest)
          s
          e
          f
  unfolding flags_at over
  Adds-join p ps n rest b o touch same touch' same' =
      let p' : VmmRegion = record p { va_stop = n.va_stop } in
      record {
        ordered = unwind-IsOrdered 0 n.va_stop (p' ∷ ps) rest (omega arith, omega arith, b.2) o.2;
        maps = λ a.
            rw (flags_at-unwind (p' ∷ ps) rest a, flags_at-unwind (p ∷ ps) (n ∷ rest) a)
              (over_maps ps s e (some f) a (if has p' a then some p.flags else flags_at rest a)
                (if has p a then some p.flags else flags_at (n ∷ rest) a)
                (IsBelow-weaken 0 p.va_start s ps (omega arith) b.2) (λ lo hi. ground arith)
                (λ out. ground arith));
      }
