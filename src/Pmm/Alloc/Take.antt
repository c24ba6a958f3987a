-- ===== src/Pmm/Alloc/Take.antt =====
-- `pmm_alloc` takes the first free page of the table.
use b0s.Base.{
  ℕ, ◌*◌, ◌<◌, ◌≡◌, ◌≢◌, ◌⊎◌, ◌↔◌, refl, ◌∙◌, inl, inr, arith, ltb, ◌==◌, true, false, Bool-cases,
  none, some, List, [], ◌∷◌, ◌++◌, All, ltb→lt, ltb→ge,
}
use b0s.Base.Word.{add64, mul64, min64, page_size}
use b0s.Base.Result.{panic, no_memory}
use b0s.Memory.{Memory}
use b0s.Bitmap.{Compiler, bitmap_find_and_set}
use b0s.Bitmap.Slot.{slot}
use b0s.Bitmap.Find.{bitmap_find_and_set_least, bitmap_find_and_set_full}
use b0s.Pmm.State.{Pmm, Region, is_available}
use b0s.Pmm.Alloc.{alloc_loop, pmm_alloc, pmm_xalloc}
use b0s.Pmm.Alloc.Pages.{Outside, Apart, slot_ext, find-Outside}
use b0s.Pmm.Alloc.Outcome.{Lowest, IsReady, AreSeparate, Took, TakesFirst}
use b0s.Pmm.Alloc.Outcome.{All-at, All-map, at_cons, lift-TakesFirst, rebase}

alloc_loop-Outside :
    (c : Compiler) (rs : List Region) (m : Memory) (a : ℕ)
    → All (λ r. Outside r.bitmap a) rs
    → (alloc_loop c rs m).1 a ≡ m a
unfolding alloc_loop
alloc_loop-Outside c [] m a out = refl
alloc_loop-Outside c (r ∷ rs) m a out =
    let step = find-Outside c r.bitmap m a out.0 in
    ground (
      arith,
      step,
      alloc_loop-Outside c rs m a out.1,
      alloc_loop-Outside c rs (bitmap_find_and_set c r.bitmap m).1 a out.1,
    )

module _ (c : Compiler) (r : Region) (m : Memory) (t : ℕ) (low : Lowest m r.bitmap t)
    (usable : is_available r.type ≡ true) where
  abbrev m₁ : Memory
  m₁ = (bitmap_find_and_set c r.bitmap m).1

  -- The search in the head keeps the slots of every bitmap that is apart from it.
  keeps_Apart :
      (r' : Region) (j : ℕ)
      → Apart r.bitmap r'.bitmap
      → j < r'.bitmap.size_in_block * 64
      → slot m₁ r'.bitmap j ≡ slot m r'.bitmap j
  keeps_Apart r' j apart lt =
      slot_ext m m₁ r'.bitmap j lt (λ a inside. find-Outside c r.bitmap m a (ground arith))

  found_here :
      (rs : List Region)
      → All (λ r'. Apart r.bitmap r'.bitmap) rs
      → All (IsReady m) rs
      → t < r.bitmap.len
      → Took (r ∷ rs) m m₁ (add64 r.addr (mul64 t page_size))
  found_here rs apart ready lt =
      let step = bitmap_find_and_set_least c m r.bitmap t low.below low.free low.first in
      record {
        k = 0;
        r = r;
        j = t;
        page = (refl, lt);
        usable = usable;
        address = refl;
        was_free = low.free;
        is_taken = ground (arith, step.1 t);
        first = λ k r' j p u before.
            at_cons r rs (λ k r'. (k < 0) ⊎ ((k ≡ 0) × (j < t)) → slot m r'.bitmap j ≡ 0)
              (λ b. low.first j (omega arith)) (λ k r' e b. absurd (omega arith)) k r' p.0 before;
        others = λ k r' j p ne.
            at_cons r rs
              (λ k r'.
                j < r'.bitmap.len → (k ≢ 0) ⊎ (j ≢ t) → slot m₁ r'.bitmap j ≡ slot m r'.bitmap j)
              (λ lt n. ground (arith, step.1 j))
              (λ k r' e lt n.
                let fits = All-at (IsReady m) rs k ready e in
                keeps_Apart r' j (All-at (λ r'. Apart r.bitmap r'.bitmap) rs k apart e)
                  (omega (arith, fits.0)))
              k r' p.0 p.1 ne;
      }

-- The search in the tail keeps the slots of a bitmap that is apart from those of the tail.
tail_keeps :
    (c : Compiler) (r : Region) (rs : List Region) (m : Memory) (j : ℕ)
    → All (λ r'. Apart r.bitmap r'.bitmap) rs
    → j < r.bitmap.size_in_block * 64
    → slot (alloc_loop c rs m).1 r.bitmap j ≡ slot m r.bitmap j
tail_keeps c r rs m j apart lt = slot_ext m (alloc_loop c rs m).1 r.bitmap j lt λ a inside.
    alloc_loop-Outside c rs m a (
      All-map (λ r'. Apart r.bitmap r'.bitmap) (λ r'. Outside r'.bitmap a) rs (λ r' p. ground arith)
        apart)

-- The search in the head leaves the tail ready.
still-IsReady :
    (c : Compiler) (r : Region) (rs : List Region) (m : Memory) (t : ℕ) (low : Lowest m r.bitmap t)
    (usable : is_available r.type ≡ true)
    → All (λ r'. Apart r.bitmap r'.bitmap) rs
    → All (IsReady m) rs
    → All (IsReady (bitmap_find_and_set c r.bitmap m).1) rs
still-IsReady c r [] m t low usable apart ready = tt
still-IsReady c r (r' ∷ rs) m t low usable apart ready =
    let keep = keeps_Apart c r m t low usable r' in
    (
      (
        ready.0.0,
        λ u.
            let (t', low') = ready.0.1 u in
            (
              t',
              record {
                below = low'.below;
                free = keep t' apart.0 low'.below ∙ low'.free;
                first = λ j lt. keep j apart.0 (omega (arith, low'.below)) ∙ low'.first j lt;
              },
            ),
      ),
      still-IsReady c r rs m t low usable apart.1 ready.1,
    )

alloc_loop-TakesFirst :
    (c : Compiler) (rs : List Region) (m : Memory)
    → All (IsReady m) rs
    → AreSeparate rs
    → TakesFirst rs m (alloc_loop c rs m).1 (alloc_loop c rs m).0
unfolding alloc_loop
alloc_loop-TakesFirst c [] m ready apart = record {
  all_taken = λ k r j p u. cc;
  same = λ k r j p. refl;
}
alloc_loop-TakesFirst c (r ∷ rs) m ready apart = elim (Bool-cases (is_available r.type)) [
  | inr no_use ↦ rw no_use (
      lift-TakesFirst r rs m (alloc_loop c rs m).1 (λ u. cc)
        (λ j lt. tail_keeps c r rs m j apart.0 (omega (arith, ready.0.0))) (alloc_loop c rs m).0
        (alloc_loop-TakesFirst c rs m ready.1 apart.1))
  | inl usable ↦
      let (t, low) = ready.0.1 usable in
      let m₁ = (bitmap_find_and_set c r.bitmap m).1 in
      let step = bitmap_find_and_set_least c m r.bitmap t low.below low.free low.first in
      elim (Bool-cases (ltb t r.bitmap.len)) [
        | inl within ↦
            let lt = ltb→lt t r.bitmap.len within in
            let index : (bitmap_find_and_set c r.bitmap m).0 ≡ t = ground (arith, step.0) in
            let other : (t == r.bitmap.len) ≡ false = ground arith in
            rw (usable, index, other) (found_here c r m t low usable rs apart.0 ready.1 lt)
        | inr past ↦
            let ge = ltb→ge t r.bitmap.len past in
            let index : (bitmap_find_and_set c r.bitmap m).0 ≡ r.bitmap.len =
              ground (arith, step.0) in
            let again : (r.bitmap.len == r.bitmap.len) ≡ true = ground arith in
            let rest =
              alloc_loop-TakesFirst c rs m₁ (still-IsReady c r rs m t low usable apart.0 ready.1)
                apart.1 in
            rw (usable, index, again)
              (lift-TakesFirst r rs m (alloc_loop c rs m₁).1 (λ u j lt. low.first j (omega arith))
                (λ j lt.
                  tail_keeps c r rs m₁ j apart.0 (omega (arith, ready.0.0))
                  ∙ ground (arith, step.1 j))
                (alloc_loop c rs m₁).0
                (rebase rs m m₁ (alloc_loop c rs m₁).1
                  (λ k r' j p.
                    let fits = All-at (IsReady m) rs k ready.1 p.0 in
                    keeps_Apart c r m t low usable r' j
                      (All-at (λ r'. Apart r.bitmap r'.bitmap) rs k apart.0 p.0)
                      (omega (arith, fits.0)))
                  (alloc_loop c rs m₁).0 rest))
      ]
]

-- With a bit left in the bitmap of each available region and no two bitmaps sharing memory,
-- `pmm_alloc` takes the first free page of the table and changes no other page, or returns NULL
-- with every page taken and none changed. The table stays.
pub pmm_alloc-TakesFirst :
    (c : Compiler) (s : Pmm)
    → All (IsReady s.memory) s.pmap
    → AreSeparate s.pmap
    → let out = pmm_alloc c s in
      TakesFirst s.pmap s.memory out.1.memory out.0 × (out.1.pmap ≡ s.pmap)
unfolding pmm_alloc
pmm_alloc-TakesFirst c s ready apart = (alloc_loop-TakesFirst c s.pmap s.memory ready apart, refl)

-- `pmm_xalloc` panics exactly where `pmm_alloc` returns NULL, and else gives its page.
pub pmm_xalloc-panic_iff :
    (c : Compiler) (s : Pmm) → (pmm_xalloc c s ≡ panic no_memory) ↔ ((pmm_alloc c s).0 ≡ none)
unfolding pmm_xalloc
pmm_xalloc-panic_iff c s = ground arith

-- On a region with no bit left the index that `pmm_alloc` goes by is the uninitialised one: if
-- that is below the length, the page of that number is returned, though it is taken.
pub pmm_alloc_uninit :
    (c : Compiler) (r : Region) (rs : List Region) (stop : ℕ) (m : Memory)
    → is_available r.type ≡ true
    → ((j : ℕ) → j < r.bitmap.size_in_block * 64 → slot m r.bitmap j ≡ 0)
    → c.uninit m < r.bitmap.len
    → let s : Pmm = record { pmap = r ∷ rs; pmm_vma_stop = stop; memory = m } in
      pmm_alloc c s ≡ (some (add64 r.addr (mul64 (c.uninit m) page_size)), s)
unfolding pmm_alloc alloc_loop
pmm_alloc_uninit c r rs stop m usable full lt =
    let index : min64 (c.uninit m) r.bitmap.len ≡ c.uninit m = ground arith in
    let other : (c.uninit m == r.bitmap.len) ≡ false = ground arith in
    rw (usable, bitmap_find_and_set_full c m r.bitmap full, index, other)

alloc_loop-reserved :
    (c : Compiler) (front rs : List Region) (m : Memory)
    → All (λ r. is_available r.type ≡ false) front
    → alloc_loop c (front ++ rs) m ≡ alloc_loop c rs m
unfolding alloc_loop
alloc_loop-reserved c [] rs m h = refl
alloc_loop-reserved c (r ∷ front) rs m (kind, h) =
    rw (kind, alloc_loop-reserved c front rs m h) refl

-- The first free slot of the first available region, when that is a page.
pub pmm_alloc-head :
    (c : Compiler) (front : List Region) (r : Region) (rs : List Region) (stop : ℕ) (m : Memory)
    (t : ℕ)
    → All (λ r'. is_available r'.type ≡ false) front
    → is_available r.type ≡ true
    → Lowest m r.bitmap t
    → t < r.bitmap.len
    → let s : Pmm = record { pmap = front ++ r ∷ rs; pmm_vma_stop = stop; memory = m } in
      pmm_alloc c s ≡ (
        some (add64 r.addr (mul64 t page_size)),
        record s { memory = (bitmap_find_and_set c r.bitmap m).1 },
      )
unfolding pmm_alloc alloc_loop
pmm_alloc-head c front r rs stop m t none_before usable low lt =
    let step = bitmap_find_and_set_least c m r.bitmap t low.below low.free low.first in
    let index : (bitmap_find_and_set c r.bitmap m).0 ≡ t = ground (arith, step.0) in
    let other : (t == r.bitmap.len) ≡ false = ground arith in
    rw (alloc_loop-reserved c front (r ∷ rs) m none_before, usable, index, other) refl
