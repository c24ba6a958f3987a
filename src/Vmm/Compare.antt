-- ===== src/Vmm/Compare.antt =====
-- `mmu_test_compare_mapping` of kernel/arch/x86_64/mm/mmu.c: two spaces with the same regions and the
-- same pages behind them.
use b0s.Base.{
  ℕ, zero, suc, ◌+◌, ◌*◌, ◌%◌, ◌^◌, ◌<◌, ◌≤◌, ◌≡◌, ◌↔◌, refl, arith, ◌==◌, ==→≡, ≡→==, ltb, ltb→lt,
  not, if◌then◌else◌, Bool, true, false, Bool-cases, inl, inr, List, [], ◌∷◌, All,
}
use b0s.Base.Word.{add64, page_size}
use b0s.Base.Result.{Result, ok, panic, panic_if, ◌>>=◌, diverges, not_same_mapping}
use b0s.Memory.{Memory}
use b0s.Paging.{mmu_translate_4k}
use b0s.Vmm.Regions.{VmmRegion}
use b0s.Vmm.Space.{VmmSpace}

-- The loop over the pages of a region; returns when all agree.
compare_pages : ℕ → Memory → ℕ → ℕ → ℕ → ℕ → Result (Unit {0})
compare_pages zero m directory₁ directory₂ va va_stop = panic diverges
compare_pages (suc rounds) m directory₁ directory₂ va va_stop =
    let further = compare_pages rounds m directory₁ directory₂ (add64 va page_size) va_stop in
    let same = mmu_translate_4k m directory₁ va == mmu_translate_4k m directory₂ va in
    if ltb va va_stop then panic_if (not same) not_same_mapping further else ok tt

pub compare_regions : ℕ → Memory → ℕ → ℕ → List VmmRegion → List VmmRegion → Result (Unit {0})
unfolding compare_pages
compare_regions rounds m directory₁ directory₂ [] [] = ok tt
compare_regions rounds m directory₁ directory₂ [] (r₂ ∷ rs₂) = panic not_same_mapping
compare_regions rounds m directory₁ directory₂ (r₁ ∷ rs₁) [] = panic not_same_mapping
compare_regions rounds m directory₁ directory₂ (r₁ ∷ rs₁) (r₂ ∷ rs₂) =
    let further = compare_regions rounds m directory₁ directory₂ rs₁ rs₂ in
    panic_if (not (r₁.va_start == r₂.va_start)) not_same_mapping (
      panic_if (not (r₁.va_stop == r₂.va_stop)) not_same_mapping (
        panic_if (not (r₁.flags == r₂.flags)) not_same_mapping (
          compare_pages rounds m directory₁ directory₂ r₁.va_start r₁.va_stop >>= λ done. further)))

pub mmu_test_compare_mapping : ℕ → Memory → VmmSpace → VmmSpace → Result (Unit {0})
unfolding compare_regions
mmu_test_compare_mapping rounds m space₁ space₂ =
    compare_regions rounds m space₁.page_directory space₂.page_directory space₁.region space₂.region

-- A sequence returns when both parts do.
bind_iff :
    {P Q : Type 0} (r k : Result (Unit {0}))
    → (r ≡ ok tt) ↔ P
    → (k ≡ ok tt) ↔ Q
    → ((r >>= λ done. k) ≡ ok tt) ↔ (P × Q)
bind_iff (ok done) k p q = ((λ e. (p.0 refl, q.0 e)), λ both. q.1 both.1)
bind_iff (panic e) k p q = ((λ x. cc), λ both. cc (p.1 both.0))

-- A test returns when the two numbers are the same, and the rest does.
test_iff :
    {Q : Type 0} (x y : ℕ) (k : Result (Unit {0}))
    → (k ≡ ok tt) ↔ Q
    → (panic_if (not (x == y)) not_same_mapping k ≡ ok tt) ↔ ((x ≡ y) × Q)
test_iff x y k q = elim (Bool-cases (x == y)) [
  | inl same ↦ rw same ((λ e. (==→≡ x y same, q.0 e)), λ both. q.1 both.1)
  | inr other ↦ rw other ((λ e. cc), λ both. cc (other, ≡→== x y both.0))
]

-- As many rounds as the pages of any region, and one more.
abbrev pub IsCovered : ℕ → List VmmRegion → Type 0
IsCovered rounds rs =
    All
      (λ r.
        (r.va_stop + page_size < 2 ^ 64)
        × (r.va_start < r.va_stop)
        × (r.va_stop + page_size ≤ r.va_start + rounds * page_size))
      rs

module _ (m : Memory) (directory₁ directory₂ : ℕ) where
  -- The pages from `va` on, below `va_stop`, have the same physical address.
  abbrev pub SamePages : ℕ → ℕ → Type 0
  SamePages va va_stop =
      (k : ℕ)
      → va + k * page_size < va_stop
      → mmu_translate_4k m directory₁ (va + k * page_size)
        ≡ mmu_translate_4k m directory₂ (va + k * page_size)

  abbrev pub SameRegions : List VmmRegion → List VmmRegion → Type 0
  SameRegions [] [] = Unit
  SameRegions [] (r₂ ∷ rs₂) = ⊥
  SameRegions (r₁ ∷ rs₁) [] = ⊥
  SameRegions (r₁ ∷ rs₁) (r₂ ∷ rs₂) =
      (r₁.va_start ≡ r₂.va_start)
      × (r₁.va_stop ≡ r₂.va_stop)
      × (r₁.flags ≡ r₂.flags)
      × SamePages r₁.va_start r₁.va_stop
      × SameRegions rs₁ rs₂

  SamePages-step :
      (va va_stop : ℕ)
      → mmu_translate_4k m directory₁ va ≡ mmu_translate_4k m directory₂ va
      → SamePages (va + page_size) va_stop
      → SamePages va va_stop
  SamePages-step va va_stop first rest zero lt = let e : va + 0 ≡ va = omega arith in rw e first
  SamePages-step va va_stop first rest (suc k) lt =
      let e : va + suc k * 4096 ≡ va + 4096 + k * 4096 = omega arith in rw e (rest k (omega arith))

  compare_pages_iff :
      (rounds va va_stop : ℕ)
      → va_stop + page_size < 2 ^ 64
      → va < va_stop + page_size
      → va_stop + page_size ≤ va + rounds * page_size
      → (compare_pages rounds m directory₁ directory₂ va va_stop ≡ ok tt) ↔ SamePages va va_stop
  unfolding compare_pages
  compare_pages_iff zero va va_stop bound near enough = absurd (omega arith)
  compare_pages_iff (suc rounds) va va_stop bound near enough = elim (Bool-cases (ltb va va_stop)) [
    | inr done ↦
        let past : va_stop ≤ va = ground arith in
        rw done ((λ e. λ k lt. absurd (omega arith)), λ all. refl)
    | inl more ↦
        let lt = ltb→lt va va_stop more in
        let whole : (va + 4096) % 2 ^ 64 ≡ va + 4096 = omega arith in
        let rest = compare_pages_iff rounds (va + 4096) va_stop bound (omega arith) (omega arith) in
        elim (Bool-cases (mmu_translate_4k m directory₁ va == mmu_translate_4k m directory₂ va)) [
          | inl same ↦
              rw (more, same, whole)
                (
                  (λ e. SamePages-step va va_stop (==→≡ _ _ same) (rest.0 e)),
                  λ all. rest.1 (later va va_stop all),
                )
          | inr other ↦
              rw (more, other)
                ((λ e. absurd (differ e)), λ all. absurd (first_differs va va_stop lt other all))
        ]
  ]
    where
      differ : ◌≡◌ {A = Result (Unit {0})} (panic not_same_mapping) (ok tt) → ⊥
      differ e = cc

      later : (va va_stop : ℕ) → SamePages va va_stop → SamePages (va + 4096) va_stop
      later va va_stop all k lt =
          let e : va + 4096 + k * 4096 ≡ va + (k + 1) * 4096 = omega arith in
          rw e (all (k + 1) (omega arith))

      first_differs :
          (va va_stop : ℕ)
          → va < va_stop
          → (mmu_translate_4k m directory₁ va == mmu_translate_4k m directory₂ va) ≡ false
          → SamePages va va_stop
          → ⊥
      first_differs va va_stop lt other all =
          let e : va + 0 * 4096 ≡ va = omega arith in
          let same : mmu_translate_4k m directory₁ va ≡ mmu_translate_4k m directory₂ va =
            rw e at (all 0 (omega arith)) in
          contradiction other (≡→== _ _ same)
        where
          contradiction : {t : Bool} → t ≡ false → t ≡ true → ⊥
          contradiction e e' = cc

  compare_regions_iff :
      (rounds : ℕ) (rs₁ rs₂ : List VmmRegion)
      → IsCovered rounds rs₁
      → (compare_regions rounds m directory₁ directory₂ rs₁ rs₂ ≡ ok tt) ↔ SameRegions rs₁ rs₂
  unfolding compare_regions
  compare_regions_iff rounds [] [] covered = ((λ e. tt), λ all. refl)
  compare_regions_iff rounds [] (r₂ ∷ rs₂) covered = ((λ e. cc), λ all. absurd all)
  compare_regions_iff rounds (r₁ ∷ rs₁) [] covered = ((λ e. cc), λ all. absurd all)
  compare_regions_iff rounds (r₁ ∷ rs₁) (r₂ ∷ rs₂) covered =
      let (bound, nonempty, enough) = covered.0 in
      let pages = compare_pages_iff rounds r₁.va_start r₁.va_stop bound (omega arith) enough in
      let rest = compare_regions_iff rounds rs₁ rs₂ covered.1 in
      let all = test_iff r₁.va_start r₂.va_start _ (
        test_iff r₁.va_stop r₂.va_stop _
          (test_iff r₁.flags r₂.flags _ (bind_iff _ _ pages rest))) in
      (
        (λ e. let (a, (b, (c, (d, f)))) = all.0 e in (a, b, c, d, f)),
        λ same. all.1 (same.0, (same.1, (same.2, (same.3, same.4)))),
      )

-- With nonempty regions that end a page below 2 ^ 64, and rounds for the pages of any of them and
-- one more, the comparison returns, and does not panic, exactly when the two spaces have the same
-- regions with the same flags and the same translation of every page of each.
pub mmu_test_compare_mapping_iff :
    (rounds : ℕ) (m : Memory) (space₁ space₂ : VmmSpace)
    → IsCovered rounds space₁.region
    → (mmu_test_compare_mapping rounds m space₁ space₂ ≡ ok tt)
      ↔ SameRegions m space₁.page_directory space₂.page_directory space₁.region space₂.region
unfolding mmu_test_compare_mapping
mmu_test_compare_mapping_iff rounds m space₁ space₂ covered =
    compare_regions_iff m space₁.page_directory space₂.page_directory rounds space₁.region
      space₂.region covered
