-- ===== src/Vmm/Space/Between.antt =====
-- Where `vmm_alloc_between` puts the pages that it gives.
use b0s.Base.{
  ℕ, ◌+◌, ◌*◌, ◌^◌, ◌<◌, ◌≤◌, ◌≡◌, ◌≢◌, ◌⊎◌, ◌∙◌, refl, inl, inr, arith, leb, if◌then◌else◌, Bool,
  true, false, List, [], ◌∷◌, All, Option, none, some, leb→gt,
}
use mathlib.Core.Path.{subst}
use b0s.Base.Word.{add64, mul64, page_size}
use b0s.Base.Result.{Result, ok, panic, ◌>>=◌}
use b0s.Bitmap.{Compiler}
use b0s.Pmm.State.{Pmm}
use b0s.Vmm.Regions.{VmmRegion, Inserted, unwind}
use b0s.Vmm.Regions.Spec.{IsOrdered, IsBelow}
use b0s.Vmm.Objects.{Objects, region_pool}
use b0s.Vmm.Space.{VmmSpace, find_gap, back_range, vmm_alloc_between}
use b0s.Vmm.Space.Gap.{IsAside, find_gap-IsGap}

-- A page or more lies between the region and the addresses from `start` to `stop`.
abbrev pub IsFar : ℕ → ℕ → VmmRegion → Type 0
IsFar start stop r = (r.va_stop + page_size ≤ start) ⊎ (stop + page_size ≤ r.va_start)

-- The regions on either side of a gap.
after_IsFar :
    (lo start stop : ℕ) (rs : List VmmRegion)
    → stop + page_size ≤ lo
    → IsOrdered lo rs
    → All (IsFar start stop) rs
after_IsFar lo start stop [] le o = tt
after_IsFar lo start stop (r ∷ rs) le (from, lt, o) =
    (inr (omega arith), after_IsFar r.va_stop start stop rs (omega arith) o)

unwind-All :
    (P : VmmRegion → Type 0) (hi : ℕ) (before after : List VmmRegion)
    → ((r : VmmRegion) → r.va_stop ≤ hi → P r)
    → IsBelow 0 hi before
    → All P after
    → All P (unwind before after)
unwind-All P hi [] after under b h = h
unwind-All P hi (p ∷ ps) after under (le, lt, b) h =
    unwind-All P p.va_start ps (p ∷ after) (λ r below. under r (omega arith)) b (under p le, h)

bind_va :
    (r : Result Pmm) (space : Pmm → VmmSpace) (o : Pmm → Objects) (va got : ℕ) (space' : VmmSpace)
    (o' : Objects)
    → ◌>>=◌ {B = Option ℕ × VmmSpace × Objects} r (λ s. ok (some va, space s, o s))
      ≡ ok (some got, space', o')
    → got ≡ va
bind_va (panic e) space o va got space' o' h = cc
bind_va (ok s) space o va got space' o' h = cc

-- A success of `back_range` gives the start of the range.
back_range-va :
    (rounds : ℕ) (c : Compiler) (space : VmmSpace) (va flags : ℕ)
    (i : Result (Inserted (region_pool c))) (got : ℕ) (space' : VmmSpace) (o' : Objects)
    → (i >>= λ i'. back_range rounds c space va flags i') ≡ ok (some got, space', o')
    → got ≡ va
unfolding back_range
back_range-va rounds c space va flags (panic e) got space' o' h = cc
back_range-va rounds c space va flags (ok i) got space' o' h = bind_va _ _ _ va got space' o' h

-- The result of the test against the upper bound.
below_upper :
    (test : Bool) (rounds : ℕ) (c : Compiler) (space : VmmSpace) (o : Objects) (start flags : ℕ)
    (i : Result (Inserted (region_pool c))) (va : ℕ) (space' : VmmSpace) (o' : Objects)
    → (if test then ok (none, space, o) else (i >>= λ i'. back_range rounds c space start flags i'))
      ≡ ok (some va, space', o')
    → (test ≡ false) × (va ≡ start)
below_upper true rounds c space o start flags i va space' o' h = cc
below_upper false rounds c space o start flags i va space' o' h =
    (refl, back_range-va rounds c space start flags i va space' o' h)

-- It gives no NULL behind the test.
bind_none :
    (r : Result Pmm) (space : Pmm → VmmSpace) (o : Pmm → Objects) (va : ℕ) (space' : VmmSpace)
    (o' : Objects)
    → ◌>>=◌ {B = Option ℕ × VmmSpace × Objects} r (λ s. ok (some va, space s, o s))
      ≢ ok (none, space', o')
bind_none (panic e) space o va space' o' h = cc
bind_none (ok s) space o va space' o' h = cc

back_range-none :
    (rounds : ℕ) (c : Compiler) (space : VmmSpace) (va flags : ℕ)
    (i : Result (Inserted (region_pool c))) (space' : VmmSpace) (o' : Objects)
    → (i >>= λ i'. back_range rounds c space va flags i') ≢ ok (none, space', o')
unfolding back_range
back_range-none rounds c space va flags (panic e) space' o' h = cc
back_range-none rounds c space va flags (ok i) space' o' h = bind_none _ _ _ va space' o' h

above_upper :
    (test : Bool) (rounds : ℕ) (c : Compiler) (space : VmmSpace) (o : Objects) (start flags : ℕ)
    (i : Result (Inserted (region_pool c))) (space' : VmmSpace) (o' : Objects)
    → (if test then ok (none, space, o) else (i >>= λ i'. back_range rounds c space start flags i'))
      ≡ ok (none, space', o')
    → (space' ≡ space) × (o' ≡ o)
above_upper true rounds c space o start flags i space' o' h = (cc, cc)
above_upper false rounds c space o start flags i space' o' h =
    absurd (back_range-none rounds c space start flags i space' o' h)

placed_none :
    (rounds : ℕ) (c : Compiler) (space space' : VmmSpace) (lower upper pages flags : ℕ)
    (o o' : Objects)
    → vmm_alloc_between rounds c space lower upper pages flags o ≡ ok (none, space', o')
    → (space' ≡ space) × (o' ≡ o)
unfolding vmm_alloc_between
placed_none rounds c space space' lower upper pages flags o o' h =
    above_upper _ rounds c space o _ flags _ space' o' h

placed_some :
    (rounds : ℕ) (c : Compiler) (space space' : VmmSpace) (lower upper pages flags va : ℕ)
    (o o' : Objects)
    → let size = pages * page_size in
      let room = size + 2 * page_size in
      room < 2 ^ 64
      → IsOrdered 0 space.region
      → IsAside lower room space.region
      → lower + room < 2 ^ 64
      → vmm_alloc_between rounds c space lower upper pages flags o ≡ ok (some va, space', o')
      → (va + size + page_size < upper)
        × All (IsFar va (va + size)) space.region
        × ((lower + page_size ≤ va) ⊎ All (λ r. r.va_stop + page_size ≤ va) space.region)
unfolding vmm_alloc_between
placed_some rounds c space space' lower upper pages flags va o o' small ordered aside bound h =
    let size = mul64 pages page_size in
    let room = add64 size (2 * page_size) in
    let size_eq : size ≡ pages * page_size = omega arith in
    let room_eq : room ≡ pages * page_size + 2 * page_size = omega arith in
    let (start, before, after) = find_gap lower room lower [] space.region in
    let g =
      find_gap-IsGap lower room lower 0 [] space.region (omega arith) (omega arith) (inr refl)
        ordered (rw room_eq aside) (omega arith) (omega arith) in
    let (test, at) =
      below_upper (leb upper (add64 (add64 start size) (2 * page_size))) rounds c space o
        (add64 start page_size) flags _ va space' o' h in
    let fits = g.fits in
    let under = leb→gt upper (add64 (add64 start size) (2 * page_size)) test in
    let va_eq : va ≡ start + page_size = at ∙ omega arith in
    let total_eq : add64 (add64 start size) (2 * page_size) ≡ start + room = omega arith in
    let clear =
      unwind-All (IsFar va (va + pages * page_size)) start before after (λ r le. inl (omega arith))
        g.below
        (after_IsFar (start + room) va (va + pages * page_size) after (omega arith) g.above) in
    (
      omega arith,
      subst (λ l. All (IsFar va (va + pages * page_size)) l) g.whole clear,
      elim g.low [
        | inl le ↦ inl (omega arith)
        | inr last ↦ inr (
            subst (λ l. All (λ r. r.va_stop + page_size ≤ va) l) g.whole
              (unwind-All (λ r. r.va_stop + page_size ≤ va) start before after (λ r le. omega arith)
                g.below (rw last tt)))
      ],
    )

-- What the call says of its result: the address of the pages, or NULL.
abbrev pub IsPlaced :
    VmmSpace → Objects → ℕ → ℕ → ℕ → Result (Option ℕ × VmmSpace × Objects) → Type 0
IsPlaced space o lower upper pages (panic e) = Unit
IsPlaced space o lower upper pages (ok (none, space', o')) = (space' ≡ space) × (o' ≡ o)
IsPlaced space o lower upper pages (ok (some va, space', o')) =
    (va + pages * page_size + page_size < upper)
    × All (IsFar va (va + pages * page_size)) space.region
    × ((lower + page_size ≤ va) ⊎ All (λ r. r.va_stop + page_size ≤ va) space.region)

-- With ordered regions, none across the lower bound, and no address or region so high that the pages
-- with one more on either side would wrap: where `vmm_alloc_between` gives pages, they end a page
-- and more below the upper bound, a page or more lies between them and every region that was there,
-- and they start a page or more behind the lower bound or else behind every region. Where it gives
-- NULL, the space and the allocators are as before.
pub vmm_alloc_between-IsPlaced :
    (rounds : ℕ) (c : Compiler) (space : VmmSpace) (lower upper pages flags : ℕ) (o : Objects)
    → let room = pages * page_size + 2 * page_size in
      lower + room < 2 ^ 64
      → IsOrdered 0 space.region
      → IsAside lower room space.region
      → IsPlaced space o lower upper pages
          (vmm_alloc_between rounds c space lower upper pages flags o)
vmm_alloc_between-IsPlaced rounds c space lower upper pages flags o bound ordered aside =
    cases (vmm_alloc_between rounds c space lower upper pages flags o) refl
  where
    cases :
        (r : Result (Option ℕ × VmmSpace × Objects))
        → vmm_alloc_between rounds c space lower upper pages flags o ≡ r
        → IsPlaced space o lower upper pages r
    cases (panic e) h = tt
    cases (ok (none, space', o')) h =
        placed_none rounds c space space' lower upper pages flags o o' h
    cases (ok (some va, space', o')) h =
        placed_some rounds c space space' lower upper pages flags va o o' (omega arith) ordered
          aside bound h
